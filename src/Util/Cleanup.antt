-- ===== src/Util/Cleanup.antt =====
-- `CleanupOutputString` of Src/Common/Util/Util.hpp. An array with its NUL is the list of its bytes; the text that
-- is to be removed comes without its NUL.
use game_project_demo.Common.{
  ℕ, zero, suc, ◌-◌, ◌≤◌, ◌≡◌, ◌≢◌, refl, sym, ap, ap₂, ◌∙◌, subst, true, false, Bool-cases, inl,
  inr, [], ◌∷◌, ◌++◌, All, Bytes, length, length-append, drop-append, drop, replicate,
  length-replicate, ◌==◌, ==_iff, if◌then◌else◌, if-true, if-false, arith,
}

-- How far the text at this place agrees with `remove`; the last byte of the array is not compared.
unfoldable pub match_index : Bytes → Bytes → ℕ
match_index [] remove = 0
match_index (c ∷ []) remove = 0
match_index (c ∷ d ∷ cs) [] = 0
match_index (c ∷ d ∷ cs) (r ∷ remove) =
    let more = match_index (d ∷ cs) remove in if c == r then suc more else 0

unfoldable pub plain_quote : ℕ → ℕ
plain_quote c = if c == b'"' then b'\'' else c

-- A turn of the loop at a place that is not the end: `remove` is skipped there, and one byte is copied.
unfoldable pub after_match : Bytes → Bytes → Bytes
after_match remove expr =
    if match_index expr remove == length remove then drop (length remove) expr else expr

unfoldable pub copy_next : (Bytes → Bytes) → Bytes → Bytes
copy_next go_on [] = []
copy_next go_on (c ∷ cs) = plain_quote c ∷ go_on cs

-- The loop, with fuel for its turns.
unfoldable pub cleanup_from : ℕ → Bytes → Bytes → Bytes
cleanup_from zero remove expr = []
cleanup_from (suc fuel) remove expr = copy_next (cleanup_from fuel remove) (after_match remove expr)

-- The array of the result, whose other bytes are zero.
unfoldable pub cleanup_output_string : Bytes → Bytes → Bytes
cleanup_output_string expr remove =
    let out = cleanup_from (length expr) remove expr in
    out ++ replicate (length expr - length out) 0

-- What the loop does, by its turns: a byte where `remove` does not stand is copied, and where it does the byte behind it is.
pub data Cleans (remove : Bytes) : Bytes → Bytes → Type 0 where
  at_end : {out : Bytes} → out ≡ [] → Cleans remove [] out
  copied :
      {cs out rest : Bytes} (c : ℕ)
      → match_index (c ∷ cs) remove ≢ length remove
      → Cleans remove cs rest
      → out ≡ plain_quote c ∷ rest
      → Cleans remove (c ∷ cs) out
  removed :
      {expr cs out rest : Bytes} (c : ℕ)
      → expr ≡ remove ++ c ∷ cs
      → Cleans remove cs rest
      → out ≡ plain_quote c ∷ rest
      → Cleans remove expr out

-- A whole match leaves a byte to copy.
whole_match :
    (c : ℕ) (cs remove : Bytes)
    → match_index (c ∷ cs) remove ≡ length remove
    → (d : ℕ) × (ds : Bytes) × ((c ∷ cs) ≡ remove ++ d ∷ ds)
unfolding match_index
whole_match c [] [] whole = (c, [], refl)
whole_match c [] (r ∷ remove) whole = absurd (no_match whole)
  where
    no_match : 0 ≡ suc (length remove) → ⊥
    no_match e = omega (arith, e)
whole_match c (d ∷ ds) [] whole = (c, d ∷ ds, refl)
whole_match c (d ∷ ds) (r ∷ remove) whole = elim (Bool-cases (c == r)) [
  | inl same ↦
      let (x, xs, e) = whole_match d ds remove (omega (arith, sym (if-true _ _ _ same) ∙ whole)) in
      (x, xs, ap₂ ◌∷◌ ((==_iff c r).0 same) e)
  | inr other ↦ absurd (omega (arith, sym (if-false _ _ _ other) ∙ whole))
]

after_match-nil : (remove : Bytes) → after_match remove [] ≡ []
unfolding after_match match_index
after_match-nil [] = refl
after_match-nil (r ∷ remove) =
    if-false (0 == length (r ∷ remove)) (drop (length (r ∷ remove)) []) [] (ground arith)

clash : false ≡ true → ⊥
clash e = cc

cleanup_from-Cleans :
    (fuel : ℕ) (remove expr : Bytes)
    → length expr ≤ fuel
    → Cleans remove expr (cleanup_from fuel remove expr)
unfolding cleanup_from copy_next after_match
cleanup_from-Cleans zero remove [] enough = at_end refl
cleanup_from-Cleans zero remove (c ∷ cs) enough = absurd (omega arith)
cleanup_from-Cleans (suc fuel) remove [] enough =
    at_end (ap (copy_next (cleanup_from fuel remove)) (after_match-nil remove))
cleanup_from-Cleans (suc fuel) remove (c ∷ cs) enough =
    elim (Bool-cases (match_index (c ∷ cs) remove == length remove)) [
      | inl whole ↦
          let (d, ds, e) = whole_match c cs remove ((==_iff _ _).0 whole) in
          removed d e
            (cleanup_from-Cleans fuel remove ds
              (omega (arith, ap length e, length-append remove (d ∷ ds))))
            (ap (copy_next (cleanup_from fuel remove)) (
              if-true _ _ _ whole
              ∙ ap (drop (length remove)) e
              ∙ drop-append (length remove) remove (d ∷ ds) refl))
      | inr short ↦
          copied c (λ e. clash (sym short ∙ (==_iff _ _).1 e))
            (cleanup_from-Cleans fuel remove cs (omega arith))
            (ap (copy_next (cleanup_from fuel remove)) (if-false _ _ _ short))
    ]

Cleans-short : {remove expr out : Bytes} → Cleans remove expr out → length out ≤ length expr
Cleans-short (at_end e) = omega (arith, ap length e)
Cleans-short (copied c other rest e) = omega (arith, ap length e, Cleans-short rest)
Cleans-short {remove} (removed {cs = cs} c e rest made) =
    omega (arith, ap length made, Cleans-short rest, ap length e, length-append remove (c ∷ cs))

abbrev pub NotQuote : ℕ → Type 0
NotQuote c = c ≢ b'"'

plain_quote-NotQuote : (c : ℕ) → NotQuote (plain_quote c)
unfolding plain_quote
plain_quote-NotQuote c = ground arith

Cleans-NotQuote : {remove expr out : Bytes} → Cleans remove expr out → All NotQuote out
Cleans-NotQuote (at_end e) = subst (All NotQuote) (sym e) tt
Cleans-NotQuote (copied {rest = rest} c other r e) =
    subst (All NotQuote) (sym e) (plain_quote-NotQuote c, Cleans-NotQuote r)
Cleans-NotQuote (removed {rest = rest} c same r e) =
    subst (All NotQuote) (sym e) (plain_quote-NotQuote c, Cleans-NotQuote r)

-- For every array and every text that is to be removed, the result is an array of the same size: what the turns of
-- the loop give, a byte copied at each place with `"` made `'`, the text skipped before it where it stands, so that
-- of two in a row the second one stays; zeros fill it up. There is no `"` in it.
pub cleanup_output_string_lem :
    (expr remove : Bytes)
    → (out : Bytes) × (cleanup_output_string expr remove
        ≡ out ++ replicate (length expr - length out) 0)
      × Cleans remove expr out
      × All NotQuote out
      × (length (cleanup_output_string expr remove) ≡ length expr)
unfolding cleanup_output_string
cleanup_output_string_lem expr remove =
    let out = cleanup_from (length expr) remove expr in
    let cleans = cleanup_from-Cleans (length expr) remove expr (omega arith) in
    let zeros = replicate {A = ℕ} (length expr - length out) 0 in
    (
      out,
      refl,
      cleans,
      Cleans-NotQuote cleans,
      omega (
        arith,
        length-append out zeros,
        length-replicate {A = ℕ} (length expr - length out) 0,
        Cleans-short cleans,
      ),
    )

-- ===== src/Http/Parser/Trim.antt =====
-- `HttpParser::TrimSpace` of Src/Common/Http/HttpParser.cpp.
use game_project_demo.Common.{
  ℕ, suc, ◌+◌, ◌-◌, ◌≤◌, ◌<◌, ◌≡◌, ◌≢◌, refl, sym, ◌∙◌, ap, ap₂, [], ◌∷◌, ◌++◌, ◌==◌, ==_iff,
  if◌then◌else◌, length, take, drop, replicate, min, Bytes, arith, Bool-cases, inl, inr, drop_all,
  take-append, length-append, subst,
}
use mathlib.Core.Bool.{false≢true}
use game_project_demo.Buffer.{sub_size}
use game_project_demo.Http.Parser.{npos, first_not_of, last_not_of, trim_end, trim_space}

-- The text without the `c` at its front, and without those at its end.
skip_lead : ℕ → Bytes → Bytes
skip_lead c [] = []
skip_lead c (x ∷ xs) = if x == c then skip_lead c xs else x ∷ xs

put_before : ℕ → ℕ → Bytes → Bytes
put_before c x [] = if x == c then [] else x ∷ []
put_before c x (y ∷ ys) = x ∷ y ∷ ys

skip_trail : ℕ → Bytes → Bytes
skip_trail c [] = []
skip_trail c (x ∷ xs) = put_before c x (skip_trail c xs)

first_ge : (c i : ℕ) (s : Bytes) → i + length s ≤ npos → i ≤ first_not_of c i s
unfolding first_not_of
first_ge c i [] h = omega arith
first_ge c i (x ∷ xs) h = ground (arith, first_ge c (suc i) xs)

drop_lead :
    (c i : ℕ) (s : Bytes)
    → i + length s ≤ npos
    → drop (min (first_not_of c i s - i) (length s)) s ≡ skip_lead c s
unfolding skip_lead first_not_of
drop_lead c i [] h = drop_all _ [] (omega arith)
drop_lead c i (x ∷ xs) h = elim (Bool-cases (x == c)) [
  | inl same ↦
      let step : min (first_not_of c (suc i) xs - i) (suc (length xs))
          ≡ suc (min (first_not_of c (suc i) xs - suc i) (length xs)) =
        omega (arith, first_ge c (suc i) xs (omega arith)) in
      rw same (ap (λ k. drop k (x ∷ xs)) step ∙ drop_lead c (suc i) xs (omega arith))
  | inr other ↦
      let start : min (i - i) (suc (length xs)) ≡ 0 = omega arith in
      rw other (ap (λ k. drop k (x ∷ xs)) start)
]

-- The last index in terms of what is left.
index_of : ℕ → ℕ → Bytes → ℕ
index_of i best [] = best
index_of i best (x ∷ xs) = i + length xs

index_of-put_before :
    (c x i best : ℕ) (r : Bytes)
    → index_of (suc i) (if x == c then best else i) r ≡ index_of i best (put_before c x r)
unfolding index_of put_before
index_of-put_before c x i best [] = ground arith
index_of-put_before c x i best (y ∷ ys) = omega arith

last_not_of_lem :
    (c i best : ℕ) (s : Bytes) → last_not_of c i best s ≡ index_of i best (skip_trail c s)
unfolding last_not_of skip_trail index_of
last_not_of_lem c i best [] = refl
last_not_of_lem c i best (x ∷ xs) =
    last_not_of_lem c (suc i) (if x == c then best else i) xs
    ∙ index_of-put_before c x i best (skip_trail c xs)

put_before-split :
    (c x : ℕ) (xs r : Bytes) (n : ℕ)
    → xs ≡ r ++ replicate n c
    → (m : ℕ) × (x ∷ xs ≡ put_before c x r ++ replicate m c)
unfolding put_before
put_before-split c x xs [] n e = elim (Bool-cases (x == c)) [
  | inl same ↦ (suc n, rw same (ap₂ ◌∷◌ ((==_iff x c).0 same) e))
  | inr other ↦ (n, rw other (ap (◌∷◌ x) e))
]
put_before-split c x xs (y ∷ ys) n e = (n, ap (◌∷◌ x) e)

skip_trail-split : (c : ℕ) (s : Bytes) → (n : ℕ) × (s ≡ skip_trail c s ++ replicate n c)
unfolding skip_trail
skip_trail-split c [] = (0, refl)
skip_trail-split c (x ∷ xs) =
    let (n, e) = skip_trail-split c xs in put_before-split c x xs (skip_trail c xs) n e

skip_lead-split : (c : ℕ) (s : Bytes) → (n : ℕ) × (s ≡ replicate n c ++ skip_lead c s)
unfolding skip_lead
skip_lead-split c [] = (0, refl)
skip_lead-split c (x ∷ xs) = elim (Bool-cases (x == c)) [
  | inl same ↦
      let (n, e) = skip_lead-split c xs in (suc n, rw same (ap₂ ◌∷◌ ((==_iff x c).0 same) e))
  | inr other ↦ (0, rw other refl)
]

-- No `c` at the front, none at the end.
abbrev pub NoLead : ℕ → Bytes → Type 0
NoLead c [] = Unit
NoLead c (x ∷ xs) = x ≢ c

abbrev pub NoTrail : ℕ → Bytes → Type 0
NoTrail c [] = Unit
NoTrail c (x ∷ []) = x ≢ c
NoTrail c (x ∷ y ∷ ys) = NoTrail c (y ∷ ys)

skip_lead-NoLead : (c : ℕ) (s : Bytes) → NoLead c (skip_lead c s)
unfolding skip_lead
skip_lead-NoLead c [] = tt
skip_lead-NoLead c (x ∷ xs) = elim (Bool-cases (x == c)) [
  | inl same ↦ rw same (skip_lead-NoLead c xs)
  | inr other ↦ rw other (λ e. false≢true (sym other ∙ (==_iff x c).1 e))
]

put_before-NoTrail : (c x : ℕ) (r : Bytes) → NoTrail c r → NoTrail c (put_before c x r)
unfolding put_before
put_before-NoTrail c x [] h = elim (Bool-cases (x == c)) [
  | inl same ↦ rw same tt
  | inr other ↦ rw other (λ e. false≢true (sym other ∙ (==_iff x c).1 e))
]
put_before-NoTrail c x (y ∷ ys) h = h

skip_trail-NoTrail : (c : ℕ) (s : Bytes) → NoTrail c (skip_trail c s)
unfolding skip_trail
skip_trail-NoTrail c [] = tt
skip_trail-NoTrail c (x ∷ xs) = put_before-NoTrail c x (skip_trail c xs) (skip_trail-NoTrail c xs)

put_before-NoLead : (c x : ℕ) (r : Bytes) → x ≢ c → NoLead c (put_before c x r)
unfolding put_before
put_before-NoLead c x [] h = elim (Bool-cases (x == c)) [
  | inl same ↦ rw same tt
  | inr other ↦ rw other h
]
put_before-NoLead c x (y ∷ ys) h = h

skip_trail-NoLead : (c : ℕ) (s : Bytes) → NoLead c s → NoLead c (skip_trail c s)
unfolding skip_trail
skip_trail-NoLead c [] h = tt
skip_trail-NoLead c (x ∷ xs) h = put_before-NoLead c x (skip_trail c xs) h

-- How many characters the end loses.
cut : ℕ → Bytes → ℕ
cut len r = min (sub_size (sub_size len (index_of 0 npos r)) 1) len

cut_lem : (len : ℕ) (r : Bytes) → len < npos → length r ≤ len → len - cut len r ≡ length r
unfolding cut index_of
cut_lem len [] h k = omega arith
cut_lem len (y ∷ ys) h k = omega arith

trim_end_lem : (s : Bytes) → length s < npos → trim_end s ≡ skip_trail b' ' s
unfolding trim_end cut
trim_end_lem s h =
    let (n, e) = skip_trail-split b' ' s in
    let r = skip_trail b' ' s in
    let fits : length r ≤ length s =
      omega (arith, ap length e, length-append r (replicate n b' ')) in
    ap (λ l. take (length s - min (sub_size (sub_size (length s) l) 1) (length s)) s)
      (last_not_of_lem b' ' 0 npos s)
    ∙ ap (λ k. take k s) (cut_lem (length s) r h fits)
    ∙ ap (take (length r)) e
    ∙ take-append (length r) r (replicate n b' ') refl

trim_space-eq : (s : Bytes) → length s < npos → trim_space s ≡ skip_trail b' ' (skip_lead b' ' s)
unfolding trim_space
trim_space-eq s h =
    ap (λ k. trim_end (drop (min k (length s)) s)) whole
    ∙ ap trim_end (drop_lead b' ' 0 s (omega arith))
    ∙ trim_end_lem (skip_lead b' ' s) short
  where
    whole : first_not_of b' ' 0 s ≡ first_not_of b' ' 0 s - 0
    whole = omega arith

    short : length (skip_lead b' ' s) < npos
    short =
        let (m, e) = skip_lead-split b' ' s in
        omega (arith, h, ap length e, length-append (replicate m b' ') (skip_lead b' ' s))

-- `TrimSpace` takes off the spaces at both ends and nothing else: the text is the result with
-- spaces before and after it, and the result neither begins nor ends with a space. A text of spaces
-- alone, or an empty one, gives the empty text. (The condition is that of any text in memory.)
pub trim_space_lem :
    (s : Bytes)
    → length s < npos
    → (m n : ℕ) × (s ≡ replicate m b' ' ++ (trim_space s ++ replicate n b' '))
      × NoLead b' ' (trim_space s)
      × NoTrail b' ' (trim_space s)
trim_space_lem s h =
    let (m, e) = skip_lead-split b' ' s in
    let (n, f) = skip_trail-split b' ' (skip_lead b' ' s) in
    let eq = trim_space-eq s h in
    (
      m,
      n,
      e ∙ ap (◌++◌ (replicate m b' ')) (f ∙ ap (λ r. r ++ replicate n b' ') (sym eq)),
      subst (NoLead b' ') (sym eq) (skip_trail-NoLead b' ' _ (skip_lead-NoLead b' ' s)),
      subst (NoTrail b' ') (sym eq) (skip_trail-NoTrail b' ' (skip_lead b' ' s)),
    )

skip_lead_none : (c : ℕ) (s : Bytes) → NoLead c s → skip_lead c s ≡ s
unfolding skip_lead
skip_lead_none c [] h = refl
skip_lead_none c (x ∷ xs) h = elim (Bool-cases (x == c)) [
  | inl same ↦ absurd (h ((==_iff x c).0 same))
  | inr other ↦ rw other refl
]

skip_trail_none : (c : ℕ) (s : Bytes) → NoTrail c s → skip_trail c s ≡ s
unfolding skip_trail put_before
skip_trail_none c [] h = refl
skip_trail_none c (x ∷ []) h = elim (Bool-cases (x == c)) [
  | inl same ↦ absurd (h ((==_iff x c).0 same))
  | inr other ↦ rw other refl
]
skip_trail_none c (x ∷ y ∷ ys) h = ap (put_before c x) (skip_trail_none c (y ∷ ys) h)

-- A text with no space at either end stays as it is.
pub trim_space_none :
    (s : Bytes) → length s < npos → NoLead b' ' s → NoTrail b' ' s → trim_space s ≡ s
trim_space_none s h l t =
    trim_space-eq s h ∙ ap (skip_trail b' ') (skip_lead_none b' ' s l) ∙ skip_trail_none b' ' s t

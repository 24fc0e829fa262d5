-- ===== src/Buffer/Fifo.antt =====
-- Src/Common/Net/Buffer.hpp behaves as a first-in first-out queue of bytes.
use game_project_demo.Common.{
  ℕ, ◌+◌, ◌-◌, ◌≤◌, ◌<◌, ◌≡◌, refl, sym, ◌∙◌, ap, some, ◌++◌, length, take, drop, replicate, Bytes,
  length-append, length-take, take-append, take_all, take-drop, drop-drop, drop-append_le,
  take-append_le, append_assoc, arith, ltb, le→leb, tests, Bool-cases, inl, inr,
}
use game_project_demo.Buffer.{
  Buffer, size_mod, writable_bytes, resize, overwrite, copy_in, add_size, make_space,
  ensure_writable_bytes, write,
}
use game_project_demo.Buffer.Invariant.{IsValid, contents, length-resize, length-overwrite}

-- The bytes of a vector from index `r` up to `w`.
abbrev pub window : ℕ → ℕ → Bytes → Bytes
window r w ys = take (w - r) (drop r ys)

window-eq-drop-take : (r w : ℕ) (ys : Bytes) → r ≤ w → window r w ys ≡ drop r (take w ys)
window-eq-drop-take r w ys h = take-drop (w - r) r ys ∙ ap (λ k. drop r (take k ys)) (omega arith)

pub window-drop :
    (n r w : ℕ) (ys : Bytes) → n ≤ w - r → drop n (window r w ys) ≡ window (r + n) w ys
window-drop n r w ys h =
    ap (λ k. drop n (take k (drop r ys))) eq
    ∙ sym (take-drop (w - (r + n)) n (drop r ys))
    ∙ ap (take (w - (r + n))) (drop-drop n r ys)
  where
    eq : w - r ≡ n + (w - (r + n))
    eq = omega arith

take-overwrite :
    (w : ℕ) (xs ys : Bytes)
    → w ≤ length ys
    → take (w + length xs) (overwrite w xs ys) ≡ take w ys ++ xs
take-overwrite w xs ys h =
    ap (take (w + length xs)) (sym (append_assoc (take w ys) xs (drop (w + length xs) ys)))
    ∙ take-append (w + length xs) (take w ys ++ xs) (drop (w + length xs) ys) eq
  where
    eq : w + length xs ≡ length (take w ys ++ xs)
    eq = omega (arith, length-append (take w ys) xs, length-take w ys)

window-overwrite :
    (r w : ℕ) (xs ys : Bytes)
    → r ≤ w
    → w ≤ length ys
    → window r (w + length xs) (overwrite w xs ys) ≡ window r w ys ++ xs
window-overwrite r w xs ys h k =
    window-eq-drop-take r (w + length xs) (overwrite w xs ys) (omega arith)
    ∙ ap (drop r) (take-overwrite w xs ys k)
    ∙ drop-append_le r (take w ys) xs short
    ∙ ap (λ zs. zs ++ xs) (sym (window-eq-drop-take r w ys h))
  where
    short : r ≤ length (take w ys)
    short = omega (arith, length-take w ys)

-- Growing the vector keeps what stands between the indices.
window-resize :
    (r w n : ℕ) (ys : Bytes)
    → r ≤ w
    → w ≤ length ys
    → length ys ≤ n
    → window r w (resize n ys) ≡ window r w ys
window-resize r w n ys h k l =
    window-eq-drop-take r w (resize n ys) h
    ∙ ap (drop r) (ap (take w) grown ∙ take-append_le w ys (replicate (n - length ys) 0) k)
    ∙ sym (window-eq-drop-take r w ys h)
  where
    grown : resize n ys ≡ ys ++ replicate (n - length ys) 0
    grown = ap (λ zs. zs ++ replicate (n - length ys) 0) (take_all n ys l)

-- What `EnsureWritableBytes(len)` leaves: the same bytes, and room for `len` more.
pub record HasRoom (len : ℕ) (b c : Buffer) : Type 0 where
  pub valid : IsValid c
  pub room : c.write_index + len ≤ length c.buffer
  pub written : c.write_index ≡ b.write_index
  pub unread : c.read_index ≡ b.read_index
  pub same : contents c ≡ contents b

pub ensure_lem :
    (len : ℕ) (b : Buffer)
    → IsValid b
    → b.write_index + len < size_mod
    → (c : Buffer) × (ensure_writable_bytes len b ≡ some c) × HasRoom len b c
unfolding ensure_writable_bytes make_space
ensure_lem len b v h = elim (Bool-cases (ltb (writable_bytes b) len)) [
  | inl short ↦ (
    record b { buffer = resize (add_size b.write_index len) b.buffer },
    rw short refl,
    record {
      valid = omega (arith, length-resize (add_size b.write_index len) b.buffer);
      room = omega (arith, length-resize (add_size b.write_index len) b.buffer);
      written = refl;
      unread = refl;
      same =
          window-resize b.read_index b.write_index (add_size b.write_index len) b.buffer v.ordered
            v.within (omega tests);
    },
  )
  | inr roomy ↦ (
    b,
    rw roomy refl,
    record { valid = v; room = omega tests; written = refl; unread = refl; same = refl },
  )
]

-- What `Write` does to a buffer with room for the bytes.
unfoldable pub filled : Bytes → Buffer → Buffer
filled xs c = record c {
  write_index = add_size c.write_index (length xs);
  buffer = overwrite c.write_index xs c.buffer;
}

pub filled_lem :
    (xs : Bytes) (b c : Buffer)
    → HasRoom (length xs) b c
    → IsValid (filled xs c)
      × (contents (filled xs c) ≡ contents b ++ xs)
      × ((filled xs c).write_index ≡ b.write_index + length xs)
unfolding filled
filled_lem xs b c h =
    let v = h.valid in
    let no_wrap : add_size c.write_index (length xs) ≡ c.write_index + length xs = omega arith in
    (
      omega (arith, length-overwrite c.write_index xs c.buffer h.room),
      ap (λ k. window c.read_index k (overwrite c.write_index xs c.buffer)) no_wrap
          ∙ window-overwrite c.read_index c.write_index xs c.buffer v.ordered v.within
          ∙ ap (λ zs. zs ++ xs) h.same,
      no_wrap ∙ ap (λ k. k + length xs) h.written,
    )

-- `Write` of bytes whose end is still an address succeeds, keeps the buffer valid, and appends
-- exactly those bytes to what there is to read.
pub write_lem :
    (xs : Bytes) (b : Buffer)
    → IsValid b
    → b.write_index + length xs < size_mod
    → (c : Buffer) × (write xs b ≡ some c)
      × IsValid c
      × (contents c ≡ contents b ++ xs)
      × (c.write_index ≡ b.write_index + length xs)
unfolding write copy_in filled
write_lem xs b v h =
    let (c, found, roomy) = ensure_lem (length xs) b v h in
    let (valid, appended, written) = filled_lem xs b c roomy in
    (filled xs c, rw (found, le→leb _ _ roomy.room) refl, valid, appended, written)

-- ===== src/Buffer/Reads.antt =====
-- The reads of Src/Common/Net/Buffer.hpp.
use game_project_demo.Common.{
  ℕ, ◌+◌, ◌-◌, ◌≤◌, ◌<◌, ◌≡◌, refl, sym, ◌∙◌, ap, none, some, [], length, take, drop, take_all,
  take-take, arith, min, ltb, le→leb, le→ltb_false, tests, Bool-cases, inl, inr, drop_all,
}
use game_project_demo.Buffer.{
  Buffer, size_mod, readable_bytes, copy_out, add_size, read_done, adjustment, adjustment_all, read,
  read_as_string, read_pod, read_all_as_string,
}
use game_project_demo.Buffer.Invariant.{IsValid, contents, length-contents}
use game_project_demo.Buffer.Fifo.{window, window-drop}

-- `ReadDone(n)` of bytes that are there drops them.
pub read_done_lem :
    (n : ℕ) (b : Buffer)
    → IsValid b
    → n ≤ readable_bytes b
    → IsValid (read_done n b)
      × (contents (read_done n b) ≡ drop n (contents b))
      × (readable_bytes (read_done n b) + n ≡ readable_bytes b)
unfolding read_done
read_done_lem n b v h =
    let no_wrap : add_size b.read_index n ≡ b.read_index + n = omega (arith, v.ordered, v.within) in
    (
      omega (arith, no_wrap, v.ordered, v.within),
      ap (λ k. window k b.write_index b.buffer) no_wrap
          ∙ sym (window-drop n b.read_index b.write_index b.buffer (omega arith)),
      omega (arith, no_wrap, v.ordered, v.within),
    )

-- What `Adjustment(n)` leaves.
record HasDropped (n : ℕ) (b c : Buffer) : Type 0 where
  valid : IsValid c
  rest : contents c ≡ drop n (contents b)
  written : c.write_index ≤ b.write_index

adjustment_lem :
    (n : ℕ) (b : Buffer)
    → IsValid b
    → n ≤ readable_bytes b
    → (c : Buffer) × (adjustment n b ≡ some c) × HasDropped n b c
unfolding adjustment
adjustment_lem n b v h = elim (Bool-cases (ltb n (readable_bytes b))) [
  | inl less ↦ (
    record b { read_index = add_size b.read_index n },
    rw (le→leb _ _ h, less) refl,
    record {
      valid = omega (tests, v.ordered);
      rest =
          ap (λ k. window k b.write_index b.buffer) (no_wrap (omega tests))
          ∙ sym (window-drop n b.read_index b.write_index b.buffer (omega tests));
      written = omega arith;
    },
  )
  | inr all ↦ (
    adjustment_all b,
    rw (le→leb _ _ h, all) refl,
    record {
      valid = omega arith;
      rest = sym (drop_all n (contents b) (omega (tests, length-contents v)));
      written = omega arith;
    },
  )
]
  where
    no_wrap : b.read_index + n < size_mod → add_size b.read_index n ≡ b.read_index + n
    no_wrap k = omega arith

pub copy_out_lem :
    (n : ℕ) (b : Buffer)
    → IsValid b
    → n ≤ readable_bytes b
    → copy_out b.read_index n b.buffer ≡ some (take n (contents b))
unfolding copy_out
copy_out_lem n b v h =
    rw (le→leb (b.read_index + n) (length b.buffer) (omega (arith, v.ordered, v.within))) (
      ap some (
        sym
          (take-take n (b.write_index - b.read_index) (drop b.read_index b.buffer) (omega arith))))

-- Reading `n` bytes that are there, by `Read(data, n)`, `ReadAsString(n)` or `Read<PODType>()` of a
-- type of that size, succeeds, gives the oldest `n` bytes and leaves the others, in a valid buffer.
pub read_lem :
    (n : ℕ) (b : Buffer)
    → IsValid b
    → n ≤ readable_bytes b
    → (c : Buffer) × (read n b ≡ some (take n (contents b), c))
      × (read_as_string n b ≡ some (take n (contents b), c))
      × (read_pod n b ≡ some (take n (contents b), c))
      × IsValid c
      × (contents c ≡ drop n (contents b))
      × (c.write_index ≤ b.write_index)
unfolding read read_as_string read_pod
read_lem n b v h =
    let (c, adjusted, d) = adjustment_lem n b v h in
    let copied = copy_out_lem n b v h in
    let least : min n (readable_bytes b) ≡ n = omega arith in
    (
      c,
      rw (le→leb _ _ h, least, copied, adjusted) refl,
      rw (le→leb _ _ h, copied, adjusted) refl,
      rw (copied, adjusted) refl,
      d.valid,
      d.rest,
      d.written,
    )

-- Asking `Read(data, n)` or `ReadAsString(n)` for more bytes than there are fails its `assert`.
pub read_too_much :
    (n : ℕ) (b : Buffer) → readable_bytes b < n → (read n b ≡ none) × (read_as_string n b ≡ none)
unfolding read read_as_string
read_too_much n b h = (ground arith, ground arith)

-- `ReadAllAsString` of a valid buffer gives all its bytes and sets both indices back.
pub read_all-exact :
    (b : Buffer) → IsValid b → read_all_as_string b ≡ some (contents b, adjustment_all b)
unfolding read_all_as_string read_as_string adjustment
read_all-exact b v =
    let n = readable_bytes b in
    let copied = copy_out_lem n b v (omega arith) in
    let whole = take_all n (contents b) (omega (arith, length-contents v)) in
    rw (le→leb n n (omega arith), le→ltb_false n n (omega arith), copied, whole) refl

-- `ReadAllAsString` of a valid buffer gives all its bytes and empties it.
pub read_all_lem :
    (b : Buffer)
    → IsValid b
    → (c : Buffer) × (read_all_as_string b ≡ some (contents b, c)) × IsValid c × (contents c ≡ [])
unfolding read_all_as_string
read_all_lem b v =
    let (c, _, done, _, valid, rest, _) = read_lem (readable_bytes b) b v (omega arith) in
    let whole = take_all (readable_bytes b) (contents b) (omega (arith, length-contents v)) in
    let gone = drop_all (readable_bytes b) (contents b) (omega (arith, length-contents v)) in
    (c, done ∙ ap (λ xs. some (xs, c)) whole, valid, rest ∙ gone)

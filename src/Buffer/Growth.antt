-- ===== src/Buffer/Growth.antt =====
-- How the vector of Src/Common/Net/Buffer.hpp grows.
use game_project_demo.Common.{
  ℕ, ◌+◌, ◌*◌, ◌/◌, ◌≤◌, ◌<◌, ◌≡◌, refl, ap, ◌∙◌, ◌++◌, some, length, lt→ltb, arith, take_all,
}
use game_project_demo.Buffer.{
  Buffer, size_mod, add_size, mul_size, resize, writable_bytes, make_space, ensure_free_space,
  readable_bytes, init, initial_buffer_size, shrink,
}
use game_project_demo.Buffer.Invariant.{
  IsValid, contents, init-IsValid, length-resize, length-contents,
}
use game_project_demo.Buffer.Fifo.{ensure_lem, write_lem}
use game_project_demo.Buffer.Reads.{copy_out_lem}

abbrev pub grown : Buffer → Buffer
grown b = record b { buffer = resize (b.write_index + length b.buffer * 3 / 2) b.buffer }

-- On a buffer of two bytes or more, `EnsureFreeSpace` always grows the vector, by at least half,
-- and never moves the unread bytes to the front: the indices stay as they are, also when everything
-- has been read. The condition is that the new size fits in a `size_t`.
pub ensure_free_space_grows :
    (b : Buffer)
    → IsValid b
    → 2 ≤ length b.buffer
    → b.write_index + length b.buffer * 3 < size_mod
    → (ensure_free_space b ≡ some (grown b))
      × (length (grown b).buffer ≡ b.write_index + length b.buffer * 3 / 2)
      × IsValid (grown b)
unfolding ensure_free_space make_space
ensure_free_space_grows b v h k =
    let size : mul_size (length b.buffer) 3 / 2 ≡ length b.buffer * 3 / 2 = omega arith in
    let short : writable_bytes b < length b.buffer * 3 / 2 = omega (arith, v.within) in
    let next : add_size b.write_index (length b.buffer * 3 / 2)
        ≡ b.write_index + length b.buffer * 3 / 2 =
      omega arith in
    let long = length-resize (b.write_index + length b.buffer * 3 / 2) b.buffer in
    (rw (size, lt→ltb _ _ short, next) refl, long, omega (arith, long, v.ordered, v.within))

-- `Shrink(reserve)` leaves a valid buffer with the same bytes to read, now at the front of the
-- vector, and room for `reserve` more. The condition is that both together fit in a `size_t`.
pub shrink_lem :
    (reserve : ℕ) (b : Buffer)
    → IsValid b
    → readable_bytes b + reserve < size_mod
    → (c : Buffer) × (shrink reserve b ≡ some c)
      × IsValid c
      × (contents c ≡ contents b)
      × (c.write_index ≡ readable_bytes b)
unfolding shrink init
shrink_lem reserve b v h =
    let wanted = add_size (readable_bytes b) reserve in
    let (other, roomy, r) =
      ensure_lem wanted (init initial_buffer_size) (init-IsValid initial_buffer_size (omega arith))
        (omega arith) in
    let unread = copy_out_lem (readable_bytes b) b v (omega arith) in
    let whole = take_all (readable_bytes b) (contents b) (omega (arith, length-contents v)) in
    let (c, done, valid, appended, written) =
      write_lem (contents b) other r.valid (omega (arith, r.written, length-contents v)) in
    (
      c,
      rw (roomy, unread, whole, done) refl,
      valid,
      appended ∙ ap (λ zs. zs ++ contents b) r.same,
      omega (arith, written, r.written, length-contents v),
    )

-- ===== src/Buffer/Invariant.antt =====
-- The indices of Src/Common/Net/Buffer.hpp stay in order and inside the vector, and the bytes
-- between them are what the buffer holds.
use game_project_demo.Common.{
  ℕ, ◌+◌, ◌-◌, ◌≤◌, ◌<◌, ◌≡◌, ◌++◌, length, take, drop, replicate, Bytes, length-append,
  length-take, length-drop, length-replicate, arith,
}
use game_project_demo.Buffer.{
  Buffer, size_mod, readable_bytes, writable_bytes, resize, overwrite, init,
}

pub record IsValid (b : Buffer) : Type 0 where
  pub ordered : b.read_index ≤ b.write_index
  pub within : b.write_index ≤ length b.buffer
  pub addressable : length b.buffer < size_mod

-- The unread bytes, oldest first.
abbrev pub contents : Buffer → Bytes
contents b = take (b.write_index - b.read_index) (drop b.read_index b.buffer)

pub writable_lem : {b : Buffer} → IsValid b → writable_bytes b ≡ length b.buffer - b.write_index
writable_lem v = omega arith

pub length-contents : {b : Buffer} → IsValid b → length (contents b) ≡ readable_bytes b
length-contents {b} v = omega (
  arith,
  length-take (b.write_index - b.read_index) (drop b.read_index b.buffer),
  length-drop b.read_index b.buffer,
)

pub length-resize : (n : ℕ) (xs : Bytes) → length (resize n xs) ≡ n
length-resize n xs = omega (
  arith,
  length-append (take n xs) (replicate (n - length xs) 0),
  length-take n xs,
  length-replicate {A = ℕ} (n - length xs) 0,
)

pub length-overwrite :
    (i : ℕ) (xs ys : Bytes) → i + length xs ≤ length ys → length (overwrite i xs ys) ≡ length ys
length-overwrite i xs ys h = omega (
  arith,
  length-append (take i ys) (xs ++ drop (i + length xs) ys),
  length-append xs (drop (i + length xs) ys),
  length-take i ys,
  length-drop (i + length xs) ys,
)

pub init-IsValid : (n : ℕ) → n < size_mod → IsValid (init n)
unfolding init
init-IsValid n h = omega (arith, length-replicate {A = ℕ} n 0)

-- ===== src/Buffer.antt =====
-- Src/Common/Net/Buffer.hpp: `net::MessageBuffer`, a byte vector with a read and a write index.
-- A result of `none` is an access outside the vector or a failed `assert`; a source that runs on
-- after either has no defined behaviour. `size_t` sums, differences and products wrap at 2 ^ 64.
pub mod Invariant
pub mod Fifo
pub mod Reads
pub mod Refine
pub mod Growth
mod Tests
use game_project_demo.Common.{
  ℕ, ◌+◌, ◌-◌, ◌*◌, ◌/◌, ◌%◌, ◌^◌, Bool, true, false, Option, none, some, List, ◌++◌, ltb, leb,
  ◌>>=◌, if◌then◌else◌, length, take, drop, replicate, min, Bytes,
}

-- `size_t` arithmetic.
abbrev pub size_mod : ℕ
size_mod = 2 ^ 64

abbrev pub add_size : ℕ → ℕ → ℕ
add_size a b = (a + b) % size_mod

abbrev pub sub_size : ℕ → ℕ → ℕ
sub_size a b = (a + size_mod - b) % size_mod

abbrev pub mul_size : ℕ → ℕ → ℕ
mul_size a b = (a * b) % size_mod

pub record Buffer : Type 0 where
  pub read_index : ℕ
  pub write_index : ℕ
  pub buffer : Bytes

abbrev pub initial_buffer_size : ℕ
initial_buffer_size = 1024

-- The constructor: `n` zero bytes, nothing to read.
unfoldable pub init : ℕ → Buffer
init n = record { read_index = 0; write_index = 0; buffer = replicate n 0 }

-- The move constructor: what the new buffer holds, and what is left in the old one.
unfoldable pub move : Buffer → Buffer × Buffer
move b = (b, record { read_index = 0; write_index = 0; buffer = replicate 0 0 })

-- `a.swap(b)`.
abbrev pub swap : Buffer → Buffer → Buffer × Buffer
swap a b = (b, a)

abbrev pub readable_bytes : Buffer → ℕ
readable_bytes b = sub_size b.write_index b.read_index

abbrev pub writable_bytes : Buffer → ℕ
writable_bytes b = sub_size (length b.buffer) b.write_index

unfoldable pub read_done : ℕ → Buffer → Buffer
read_done len b = record b { read_index = add_size b.read_index len }

unfoldable pub write_done : ℕ → Buffer → Buffer
write_done len b = record b { write_index = add_size b.write_index len }

-- `std::vector::resize`: the first `n` bytes, filled up with zeros.
abbrev pub resize : ℕ → Bytes → Bytes
resize n xs = take n xs ++ replicate (n - length xs) 0

-- `std::copy` and `std::memcpy` of `xs` to index `i` of the vector.
abbrev pub overwrite : ℕ → Bytes → Bytes → Bytes
overwrite i xs ys = take i ys ++ (xs ++ drop (i + length xs) ys)

unfoldable pub copy_in : ℕ → Bytes → Bytes → Option Bytes
copy_in i xs ys = if leb (i + length xs) (length ys) then some (overwrite i xs ys) else none

-- The `n` bytes of the vector at index `i`.
unfoldable pub copy_out : ℕ → ℕ → Bytes → Option Bytes
copy_out i n ys = if leb (i + n) (length ys) then some (take n (drop i ys)) else none

-- The second branch copies the unread bytes to the front; its `assert` always holds.
unfoldable pub make_space : ℕ → Buffer → Option Buffer
unfolding copy_in copy_out
make_space len b =
    if ltb (writable_bytes b) len
    then some (record b { buffer = resize (add_size b.write_index len) b.buffer })
    else (do
      unread ← copy_out b.read_index (readable_bytes b) b.buffer
      moved ← copy_in 0 unread b.buffer
      some (record { read_index = 0; write_index = readable_bytes b; buffer = moved }))

-- The `assert` compares an unsigned number with 0 and always holds.
unfoldable pub ensure_writable_bytes : ℕ → Buffer → Option Buffer
ensure_writable_bytes len b = if ltb (writable_bytes b) len then make_space len b else some b

unfoldable pub ensure_free_space : Buffer → Option Buffer
ensure_free_space b = make_space (mul_size (length b.buffer) 3 / 2) b

-- `Write(data, len)`; the other overloads and `operator<<` hand their bytes to the same steps.
unfoldable pub write : Bytes → Buffer → Option Buffer
write xs b = do
  roomy ← ensure_writable_bytes (length xs) b
  filled ← copy_in roomy.write_index xs roomy.buffer
  some (record roomy { write_index = add_size roomy.write_index (length xs); buffer = filled })

abbrev pub adjustment_all : Buffer → Buffer
adjustment_all b = record b { read_index = 0; write_index = 0 }

unfoldable pub adjustment : ℕ → Buffer → Option Buffer
adjustment len b =
    if leb len (readable_bytes b)
    then (if ltb len (readable_bytes b)
        then some (record b { read_index = add_size b.read_index len })
        else some (adjustment_all b))
    else none

-- `Read<PODType>()` of a type of `n` bytes.
unfoldable pub read_pod : ℕ → Buffer → Option (Bytes × Buffer)
read_pod n b = do
  bytes ← copy_out b.read_index n b.buffer
  rest ← adjustment n b
  some (bytes, rest)

-- `Read(data, len)`: the bytes copied to `data`, whose number is returned.
unfoldable pub read : ℕ → Buffer → Option (Bytes × Buffer)
read len b =
    if leb len (readable_bytes b)
    then (do
      bytes ← copy_out b.read_index (min len (readable_bytes b)) b.buffer
      rest ← adjustment (min len (readable_bytes b)) b
      some (bytes, rest))
    else none

unfoldable pub read_as_string : ℕ → Buffer → Option (Bytes × Buffer)
read_as_string len b =
    if leb len (readable_bytes b)
    then (do
      bytes ← copy_out b.read_index len b.buffer
      rest ← adjustment len b
      some (bytes, rest))
    else none

unfoldable pub read_all_as_string : Buffer → Option (Bytes × Buffer)
read_all_as_string b = read_as_string (readable_bytes b) b

-- The new buffer takes the unread bytes; `swap` hands it over.
unfoldable pub shrink : ℕ → Buffer → Option Buffer
shrink reserve b = do
  other ← ensure_writable_bytes (add_size (readable_bytes b) reserve) (init initial_buffer_size)
  unread ← copy_out b.read_index (readable_bytes b) b.buffer
  filled ← write unread other
  some (swap b filled).0

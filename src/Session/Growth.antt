-- ===== src/Session/Growth.antt =====
-- Src/Common/Net/Session.cpp, `ISession::AsyncRead`: how the read buffer of a session grows.
use game_project_demo.Common.{
  ℕ, refl, zero, suc, ◌+◌, ◌*◌, ◌/◌, ◌^◌, ◌≤◌, ◌<◌, ◌≡◌, some, length, arith, >>=-eq-some, ap, [],
  ◌∷◌, ◌++◌,
}
use native.Mathlib.Nat.{pow-suc}
use game_project_demo.Buffer.{Buffer, size_mod, writable_bytes, ensure_free_space}
use game_project_demo.Buffer.Invariant.{IsValid}
use game_project_demo.Buffer.Growth.{grown, ensure_free_space_grows}
use game_project_demo.Session.{Session, async_read}

-- A row of reads: before each one the buffer is valid, its size after the next growth fits in a
-- `size_t`, and between two reads the vector does not shrink (no handler shrinks it).
pub data Reads : ℕ → Session → Session → Type 0 where
  none_yet : {n : ℕ} {s : Session} → n ≡ 0 → Reads n s s
  one_more :
      {n m : ℕ} {s t u v : Session}
      → Reads n s t
      → IsValid t.read_buffer
      → t.read_buffer.write_index + length t.read_buffer.buffer * 3 < size_mod
      → async_read t ≡ some u
      → length u.read_buffer.buffer ≤ length v.read_buffer.buffer
      → m ≡ suc n
      → Reads m s v

async_read_grows :
    (t u : Session)
    → IsValid t.read_buffer
    → 2 ≤ length t.read_buffer.buffer
    → t.read_buffer.write_index + length t.read_buffer.buffer * 3 < size_mod
    → async_read t ≡ some u
    → length t.read_buffer.buffer * 3 / 2 ≤ length u.read_buffer.buffer
unfolding async_read
async_read_grows t u v h k ran =
    let (b, found, ran') = >>=-eq-some (ensure_free_space t.read_buffer) _ ran in
    let (grows, long, _) = ensure_free_space_grows t.read_buffer v h k in
    let same : b ≡ grown t.read_buffer = cc in
    let next = record t {
      read_buffer = b;
      pending_reads = t.pending_reads ++ writable_bytes b ∷ [];
    } in
    let eq : next ≡ u = cc in
    omega (
      arith,
      ap (λ (x : Buffer). length x.buffer) same,
      ap (λ (x : Session). length x.read_buffer.buffer) eq,
      long,
    )

-- `twice` reads and one more, with a bound for each.
double : (x y : ℕ) → 2 ≤ x → x * 3 / 2 ≤ y → 2 * x ≤ y * 3 / 2
double x y h k = omega arith

pow_pos : (k : ℕ) → 1 ≤ 2 ^ k
pow_pos zero = omega arith
pow_pos (suc k) = omega (arith, pow-suc 2 k, pow_pos k)

times_pow : (k x : ℕ) → 2 ≤ x → 2 ≤ 2 ^ k * x
times_pow k x h = grind (arith, pow_pos k)

pow_twice : (k x : ℕ) → 2 ^ suc k * x ≡ 2 * (2 ^ k * x)
pow_twice k x = omega (arith, ap (λ (p : ℕ). p * x) (pow-suc 2 k))

abbrev size : Session → ℕ
size s = length s.read_buffer.buffer

Reads-two : {n : ℕ} {s v : Session} → 2 ≤ size s → Reads n s v → 2 ≤ size v
Reads-two h (none_yet e) = h
Reads-two h (one_more {t = t} {u = u} r valid fits ran shorter e) =
    omega (arith, async_read_grows t u valid (Reads-two h r) fits ran, Reads-two h r)

-- A read more: the bounds of an even number of rounds from those of an odd one, and back.
Bounds : ℕ → Session → Session → Type 0
Bounds n s v =
    (k : ℕ)
    → (n ≡ k + k → 2 ^ k * size s ≤ size v) × (n ≡ suc (k + k) → 2 ^ k * size s * 3 / 2 ≤ size v)

even_round :
    (n k : ℕ) (s t v : Session)
    → 2 ≤ size s
    → Bounds n s t
    → size t * 3 / 2 ≤ size v
    → suc n ≡ k + k
    → 2 ^ k * size s ≤ size v
unfolding Bounds
even_round n zero s t v h b g e = absurd (omega arith)
even_round n (suc k) s t v h b g e =
    let odd = (b k).1 (omega arith) in
    omega
      (arith, pow_twice k (size s), double (2 ^ k * size s) (size t) (times_pow k (size s) h) odd)

Reads-Bounds : {n : ℕ} {s v : Session} → 2 ≤ size s → Reads n s v → Bounds n s v
unfolding Bounds
Reads-Bounds h (none_yet e) zero = (λ f. omega arith, λ f. absurd (omega arith))
Reads-Bounds h (none_yet e) (suc k) = (λ f. absurd (omega arith), λ f. absurd (omega arith))
Reads-Bounds {s = s} {v} h (one_more {n} {t = t} {u = u} r valid fits ran shorter e) k =
    let before = Reads-Bounds h r in
    let more : size t * 3 / 2 ≤ size v =
      omega (arith, async_read_grows t u valid (Reads-two h r) fits ran) in
    (
      λ f. even_round n k s t v h before more (omega arith),
      λ f. omega (arith, (before k).0 (omega arith)),
    )

-- In a session whose read buffer is valid and has two bytes or more, an even number of reads, 2k, make the buffer at
-- least 2 ^ k times as large, whatever the handlers take out of it, as long as no handler shrinks it and its sizes
-- fit in a `size_t`: it grows also when all of it is free.
pub Reads-double :
    {s v : Session} (k : ℕ) → 2 ≤ size s → Reads (k + k) s v → 2 ^ k * size s ≤ size v
unfolding Bounds
Reads-double k h r = (Reads-Bounds h r k).0 refl

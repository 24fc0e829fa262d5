-- ===== src/Util/Digits.antt =====
-- Decimal digits in Src/Common/Util/Util.hpp: printing a number and scanning it back.
use game_project_demo.Common.{
  ℕ, zero, suc, ◌+◌, ◌*◌, ◌/◌, ◌%◌, ◌^◌, ◌≤◌, ◌<◌, ◌≡◌, ◌∙◌, ap, ◌≢◌, some, [], ◌∷◌, ◌++◌, ltb,
  lt→ltb, length, length-append, Bytes, All, All-append, arith, tests, Bool-cases, Option-cases,
  inl, inr,
}
use native.Mathlib.Nat.{pow-suc}
use game_project_demo.Util.{digit_in, scan, digits_from}

digit_in_decimal : (d : ℕ) → d < 10 → digit_in 10 (d + b'0') ≡ some d
unfolding digit_in
digit_in_decimal d h = ground arith

scan-append :
    (base acc : ℕ) (xs ys : Bytes) (v : ℕ)
    → scan base acc xs ≡ (v, [])
    → scan base acc (xs ++ ys) ≡ scan base v ys
unfolding scan
scan-append base acc [] ys v e = ap (λ (p : ℕ × Bytes). scan base p.0 ys) e
scan-append base acc (c ∷ cs) ys v e = elim (Option-cases (digit_in base c)) [
  | inl stop ↦ absurd (no_rest (rw (stop, scan) at e))
  | inr (d, go) ↦ rw (go, scan) (scan-append base (acc * base + d) cs ys v (rw (go, scan) at e))
]
  where
    no_rest : ◌≡◌ {A = ℕ × Bytes} (acc, c ∷ cs) (v, []) → ⊥
    no_rest p = cc

scan_one : (acc d : ℕ) → d < 10 → scan 10 acc ((d + b'0') ∷ []) ≡ (acc * 10 + d, [])
unfolding scan
scan_one acc d h = rw (digit_in_decimal d h, scan)

-- Scanning the digits of a number gives the number and reads them all.
pub scan-digits_from : (fuel n : ℕ) → n < fuel → scan 10 0 (digits_from fuel n) ≡ (n, [])
unfolding digits_from
scan-digits_from zero n h = absurd (omega arith)
scan-digits_from (suc fuel) n h = elim (Bool-cases (ltb n 10)) [
  | inl small ↦ rw small (scan_one 0 n (omega tests) ∙ ap (λ (k : ℕ). (k, [])) (omega arith))
  | inr large ↦ rw large (
      scan-append 10 0 (digits_from fuel (n / 10)) ((n % 10 + b'0') ∷ []) (n / 10)
        (scan-digits_from fuel (n / 10) (omega tests))
      ∙ scan_one (n / 10) (n % 10) (omega arith)
      ∙ ap (λ (k : ℕ). (k, [])) (omega arith))
]

abbrev pub IsDigit : ℕ → Type 0
IsDigit c = (b'0' ≤ c) × (c ≤ b'9')

pub digits_from-IsDigit : (fuel n : ℕ) → All IsDigit (digits_from fuel n)
unfolding digits_from
digits_from-IsDigit zero n = tt
digits_from-IsDigit (suc fuel) n = elim (Bool-cases (ltb n 10)) [
  | inl small ↦ rw small ((omega arith, omega tests), tt)
  | inr large ↦ rw large (
      All-append IsDigit (digits_from fuel (n / 10)) ((n % 10 + b'0') ∷ [])
        (digits_from-IsDigit fuel (n / 10)) ((omega arith, omega arith), tt))
]

-- A number below `10 ^ (k + 1)` has at most `k + 1` digits.
pub length-digits_from : (fuel k n : ℕ) → n < 10 ^ suc k → length (digits_from fuel n) ≤ suc k
unfolding digits_from
length-digits_from zero k n h = omega arith
length-digits_from (suc fuel) zero n h = rw (lt→ltb n 10 h) (omega arith)
length-digits_from (suc fuel) (suc k) n h = elim (Bool-cases (ltb n 10)) [
  | inl small ↦ rw small (omega arith)
  | inr large ↦ rw large (
      omega (
        arith,
        length-append (digits_from fuel (n / 10)) ((n % 10 + b'0') ∷ []),
        length-digits_from fuel k (n / 10) (omega (arith, pow-suc 10 (suc k))),
      ))
]

pub digits_from-nonempty : (fuel n : ℕ) → digits_from (suc fuel) n ≢ []
unfolding digits_from
digits_from-nonempty fuel n e = elim (Bool-cases (ltb n 10)) [
  | inl small ↦ absurd (omega (arith, ap length (rw small at e)))
  | inr large ↦ absurd (
      omega (
        arith,
        ap length (rw large at e),
        length-append (digits_from fuel (n / 10)) ((n % 10 + b'0') ∷ []),
      ))
]

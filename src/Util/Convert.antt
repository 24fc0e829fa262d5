-- ===== src/Util/Convert.antt =====
-- Integers to text and back in Src/Common/Util/Util.hpp, for every integral type of the program.
use game_project_demo.Common.{
  ℕ, zero, suc, ◌^◌, ◌≤◌, ◌<◌, ◌≡◌, refl, ◌∙◌, ap, ◌≢◌, Bool, true, false, ◌&&◌, some, [], ◌∷◌, leb,
  ◌==◌, if◌then◌else◌, length, Bytes, All, arith, Bool-cases, Option-cases, inl, inr, ℤ, pos,
  negsuc, le→leb, leb→le, subst, ◌⊎◌,
}
use mathlib.Core.Bool.{false≢true}
use game_project_demo.Util.{
  IntType, signed_of, unsigned_of, digit_in, scan, Scanned, value, invalid_argument,
  result_out_of_range, signed_value, scan_value, limited, from_chars, whole_value, base_prefix,
  from_prefixed, from_string, digits_from, decimal, to_chars, to_string,
}
use game_project_demo.Util.Digits.{
  scan-digits_from, IsDigit, digits_from-IsDigit, digits_from-nonempty, length-digits_from,
}

-- The values of an integral type.
abbrev pub InRange : IntType → ℤ → Type 0
InRange t (pos n) = n ≤ t.max
InRange t (negsuc n) = (t.signed ≡ true) × (suc n ≤ t.low)

-- The integral types of the program.
pub data IsIntegral : IntType → Type 0 where
  unsigned8 : IsIntegral (unsigned_of 1)
  unsigned16 : IsIntegral (unsigned_of 2)
  unsigned32 : IsIntegral (unsigned_of 4)
  unsigned64 : IsIntegral (unsigned_of 8)
  signed8 : IsIntegral (signed_of 1)
  signed16 : IsIntegral (signed_of 2)
  signed32 : IsIntegral (signed_of 4)
  signed64 : IsIntegral (signed_of 8)

scan_value_lem :
    (t : IntType) (base : ℕ) (minus : Bool) (s : Bytes) (n : ℕ)
    → s ≢ []
    → scan base 0 s ≡ (n, [])
    → n ≤ (if minus then t.low else t.max)
    → scan_value t base minus s ≡ ([], value (signed_value minus n))
unfolding scan_value scan limited
scan_value_lem t base minus [] n ne e h = absurd (ne refl)
scan_value_lem t base minus (c ∷ cs) n ne e h = elim (Option-cases (digit_in base c)) [
  | inl stop ↦ absurd (no_rest (rw (stop, scan) at e))
  | inr (d, go) ↦ scanned d go (ap (λ (k : ℕ). scan base k cs) (omega arith) ∙ (rw (go, scan) at e))
]
  where
    no_rest : ◌≡◌ {A = ℕ × Bytes} (0, c ∷ cs) (n, []) → ⊥
    no_rest p = cc

    scanned :
        (d : ℕ)
        → digit_in base c ≡ some d
        → scan base d cs ≡ (n, [])
        → scan_value t base minus (c ∷ cs) ≡ ([], value (signed_value minus n))
    scanned d go found = rw (go, scan_value) (rw (found, le→leb _ _ h))

from_chars_plain :
    (t : IntType) (base : ℕ) (s : Bytes)
    → All IsDigit s
    → from_chars t base s ≡ scan_value t base false s
unfolding from_chars scan_value
from_chars_plain t base [] h = refl
from_chars_plain t base (c ∷ cs) h = ground arith

from_chars_minus :
    (t : IntType) (base : ℕ) (s : Bytes)
    → t.signed ≡ true
    → from_chars t base (b'-' ∷ s) ≡ scan_value t base true s
unfolding from_chars
from_chars_minus t base s h = ground arith

from_chars-to_chars :
    (t : IntType) (z : ℤ) → InRange t z → from_chars t 10 (to_chars z) ≡ ([], value z)
unfolding to_chars decimal signed_value
from_chars-to_chars t (pos n) h =
    from_chars_plain t 10 (digits_from (suc n) n) (digits_from-IsDigit (suc n) n)
    ∙ scan_value_lem t 10 false (digits_from (suc n) n) n (digits_from-nonempty n n)
        (scan-digits_from (suc n) n (omega arith)) h
from_chars-to_chars t (negsuc n) (signed, h) =
    from_chars_minus t 10 (digits_from (suc (suc n)) (suc n)) signed
    ∙ scan_value_lem t 10 true (digits_from (suc (suc n)) (suc n)) (suc n)
        (digits_from-nonempty (suc n) (suc n))
        (scan-digits_from (suc (suc n)) (suc n) (omega arith)) h

pub length-decimal : (k n : ℕ) → n < 10 ^ suc k → length (decimal n) ≤ suc k
unfolding decimal
length-decimal k n h = length-digits_from (suc n) k n h

-- The two buffer sizes of `ToString`, with what has to fit in each.
IsIntegral-sizes :
    {t : IntType}
    → IsIntegral t
    → ((t.bytes < 8) × (t.max < 10 ^ 10) × (t.low < 10 ^ 10))
      ⊎ ((t.bytes ≡ 8) × (t.max < 10 ^ 20) × (t.low < 10 ^ 19))
IsIntegral-sizes unsigned8 = inl (omega arith)
IsIntegral-sizes unsigned16 = inl (omega arith)
IsIntegral-sizes unsigned32 = inl (omega arith)
IsIntegral-sizes unsigned64 = inr (omega arith)
IsIntegral-sizes signed8 = inl (omega arith)
IsIntegral-sizes signed16 = inl (omega arith)
IsIntegral-sizes signed32 = inl (omega arith)
IsIntegral-sizes signed64 = inr (omega arith)

to_string-fits :
    (t : IntType) (z : ℤ) → IsIntegral t → InRange t z → to_string t z ≡ some (to_chars z)
unfolding to_string to_chars
to_string-fits t (pos n) i h = elim (IsIntegral-sizes i) [
  | inl (b, m, l) ↦ ground (arith, length-decimal 9 n)
  | inr (b, m, l) ↦ ground (arith, length-decimal 19 n)
]
to_string-fits t (negsuc n) i (signed, h) = elim (IsIntegral-sizes i) [
  | inl (b, m, l) ↦ ground (arith, length-decimal 9 (suc n))
  | inr (b, m, l) ↦ ground (arith, length-decimal 18 (suc n))
]

pub from_string-to_chars :
    (t : IntType) (z : ℤ) → InRange t z → from_string t 10 (to_chars z) ≡ some z
unfolding from_string whole_value
from_string-to_chars t z h = ap whole_value (from_chars-to_chars t z h)

-- For each of the eight integral types and each of its values, `ToString` has room for the text,
-- and `FromString` in base 10 reads the text back as that value.
pub to_string-from_string :
    (t : IntType) (z : ℤ)
    → IsIntegral t
    → InRange t z
    → (s : Bytes) × (to_string t z ≡ some s) × (from_string t 10 s ≡ some z)
to_string-from_string t z i h = (to_chars z, to_string-fits t z i h, from_string-to_chars t z h)

-- Inversion of the last test.
whole_value-some : (p : Bytes × Scanned) (z : ℤ) → whole_value p ≡ some z → p ≡ ([], value z)
unfolding whole_value
whole_value-some ([], value w) z e = cc
whole_value-some ([], invalid_argument) z e = cc
whole_value-some ([], result_out_of_range) z e = cc
whole_value-some (c ∷ cs, r) z e = cc

signed_value-InRange :
    (t : IntType) (minus : Bool) (n : ℕ)
    → (minus ≡ true → t.signed ≡ true)
    → n ≤ (if minus then t.low else t.max)
    → InRange t (signed_value minus n)
unfolding signed_value
signed_value-InRange t true zero s h = omega arith
signed_value-InRange t true (suc n) s h = (s refl, h)
signed_value-InRange t false n s h = h

limited-InRange :
    (t : IntType) (minus : Bool) (p : ℕ × Bytes) (rest : Bytes) (z : ℤ)
    → (minus ≡ true → t.signed ≡ true)
    → limited t minus p ≡ (rest, value z)
    → InRange t z
unfolding limited
limited-InRange t minus (n, cs) rest z k e =
    elim (Bool-cases (leb n (if minus then t.low else t.max))) [
      | inl fits ↦
          let same : signed_value minus n ≡ z = found (rw fits at e) in
          subst (InRange t) same (signed_value-InRange t minus n k (leb→le _ _ fits))
      | inr over ↦ absurd (never (rw over at e))
    ]
  where
    found :
        ◌≡◌ {A = Bytes × Scanned} (cs, value (signed_value minus n)) (rest, value z)
        → signed_value minus n ≡ z
    found p = cc

    never : ◌≡◌ {A = Bytes × Scanned} (cs, result_out_of_range) (rest, value z) → ⊥
    never p = cc

scan_value-InRange :
    (t : IntType) (base : ℕ) (minus : Bool) (s rest : Bytes) (z : ℤ)
    → (minus ≡ true → t.signed ≡ true)
    → scan_value t base minus s ≡ (rest, value z)
    → InRange t z
unfolding scan_value
scan_value-InRange t base minus [] rest z k e = absurd (never e)
  where
    never : ◌≡◌ {A = Bytes × Scanned} ([], invalid_argument) (rest, value z) → ⊥
    never p = cc
scan_value-InRange t base minus (c ∷ cs) rest z k e = elim (Option-cases (digit_in base c)) [
  | inl stop ↦ absurd (never (rw (stop, scan_value) at e))
  | inr (d, go) ↦ limited-InRange t minus (scan base d cs) rest z k (rw (go, scan_value) at e)
]
  where
    never : ◌≡◌ {A = Bytes × Scanned} (c ∷ cs, invalid_argument) (rest, value z) → ⊥
    never p = cc

from_chars-InRange :
    (t : IntType) (base : ℕ) (s rest : Bytes) (z : ℤ)
    → from_chars t base s ≡ (rest, value z)
    → InRange t z
unfolding from_chars
from_chars-InRange t base [] rest z e = absurd (never e)
  where
    never : ◌≡◌ {A = Bytes × Scanned} ([], invalid_argument) (rest, value z) → ⊥
    never p = cc
from_chars-InRange t base (c ∷ cs) rest z e = elim (Bool-cases (t.signed && c == b'-')) [
  | inl minus ↦
      scan_value-InRange t base true cs rest z (λ _. ground arith) (rw (minus, from_chars) at e)
  | inr plain ↦
      scan_value-InRange t base false (c ∷ cs) rest z (λ f. absurd (false≢true f))
        (rw (plain, from_chars) at e)
]

from_prefixed-InRange :
    (t : IntType) (p : ℕ × Bytes) (z : ℤ) → from_prefixed t p ≡ some z → InRange t z
unfolding from_prefixed
from_prefixed-InRange t (base, []) z e = cc
from_prefixed-InRange t (base, c ∷ cs) z e =
    from_chars-InRange t base (c ∷ cs) [] z (whole_value-some (from_chars t base (c ∷ cs)) z e)

-- Whatever the text and the base, also a base taken from the prefix, a number that `FromString`
-- gives is a value of the type.
pub from_string-InRange :
    (t : IntType) (base : ℕ) (s : Bytes) (z : ℤ) → from_string t base s ≡ some z → InRange t z
unfolding from_string
from_string-InRange t base s z e = elim (Bool-cases (base == 0)) [
  | inl prefixed ↦ from_prefixed-InRange t (base_prefix s) z (rw (prefixed, from_string) at e)
  | inr plain ↦
      from_chars-InRange t base s [] z
        (whole_value-some (from_chars t base s) z (rw (plain, from_string) at e))
]

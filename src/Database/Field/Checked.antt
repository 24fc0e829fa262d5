-- ===== src/Database/Field/Checked.antt =====
-- `Field::CheckType` of Src/Common/Database/Field.cpp: which conversions it lets through.
use game_project_demo.Common.{
  ℕ, suc, ◌+◌, ◌-◌, ◌%◌, ◌≤◌, ◌<◌, ◌≡◌, ◌⊎◌, inl, inr, refl, ◌∙◌, ap, subst, true, false,
  Bool-cases, leb, le→leb, lt→leb_false, leb→le, leb_false→lt, if◌then◌else◌, ==_iff, ==_refl, ℤ,
  pos, negsuc, arith,
}
use native.Mathlib.Nat.{mod-eq_of_lt, mod-lt}
use game_project_demo.Util.{IntType}
use game_project_demo.Util.Convert.{InRange}
use game_project_demo.Database.Field.{
  modulus, residue, of_residue, static_cast, common_type, same_int, checked_cast, check_type,
}

small_mod : (n m : ℕ) → n ≤ m → n % suc m ≡ n
small_mod n m h = mod-eq_of_lt (omega arith)

-- A cast leaves a value that the type has.
pub static_cast-InRange : (t : IntType) (z : ℤ) → InRange t z → static_cast t z ≡ z
unfolding static_cast of_residue
static_cast-InRange t (pos n) h =
    rw (small_mod n (t.max + t.low) (omega arith), le→leb n t.max h) refl
static_cast-InRange t (negsuc n) (signed, h) =
    rw
      (
        small_mod n (t.max + t.low) (omega arith),
        lt→leb_false (suc (t.max + t.low) - suc n) t.max (omega arith),
      )
      (ap negsuc (omega arith))

-- Unsigned types reach down to 0.
abbrev pub IsUsual : IntType → Type 0
IsUsual t = (t.signed ≡ true) ⊎ (t.low ≡ 0)

of_residue-InRange : (t : IntType) (r : ℕ) → IsUsual t → r < modulus t → InRange t (of_residue t r)
unfolding of_residue
of_residue-InRange t r u h = elim (Bool-cases (leb r t.max)) [
  | inl small ↦ rw small (leb→le r t.max small)
  | inr large ↦
      rw large
        (signed_of_large u (leb_false→lt r t.max large), omega (arith, leb_false→lt r t.max large))
]
  where
    signed_of_large : IsUsual t → t.max < r → t.signed ≡ true
    signed_of_large (inl signed) k = signed
    signed_of_large (inr zero_low) k = absurd (omega (arith, zero_low))

pub residue-lt : (t : IntType) (z : ℤ) → residue (modulus t) z < modulus t
residue-lt t (pos n) = mod-lt n (omega arith)
residue-lt t (negsuc n) = let e : n % modulus t < modulus t = mod-lt n (omega arith) in omega arith

-- A cast gives a value that the type has.
pub static_cast-in : (t : IntType) (z : ℤ) → IsUsual t → InRange t (static_cast t z)
unfolding static_cast
static_cast-in t z u = of_residue-InRange t (residue (modulus t) z) u (residue-lt t z)

same_int_sound : (y z : ℤ) → same_int y z ≡ true → y ≡ z
unfolding same_int
same_int_sound (pos m) (pos n) h = ap pos ((==_iff m n).0 h)
same_int_sound (pos m) (negsuc n) h = cc
same_int_sound (negsuc m) (pos n) h = cc
same_int_sound (negsuc m) (negsuc n) h = ap negsuc ((==_iff m n).0 h)

same_int_refl : (z : ℤ) → same_int z z ≡ true
unfolding same_int
same_int_refl (pos n) = ==_refl n
same_int_refl (negsuc n) = ==_refl n

-- Every value of one type is a value of the other.
pub record IsPart (s t : IntType) : Type 0 where
  pub top : s.max ≤ t.max
  pub bottom : s.low ≤ t.low
  pub sign : s.signed ≡ true → t.signed ≡ true

IsPart-InRange : {s t : IntType} (z : ℤ) → IsPart s t → InRange s z → InRange t z
IsPart-InRange (pos n) p h = omega (arith, p.top)
IsPart-InRange (negsuc n) p (signed, h) = (p.sign signed, omega (arith, p.bottom))

compared :
    (target source : IntType) (z : ℤ)
    → IsUsual target
    → IsPart target (common_type target source)
    → IsPart source (common_type target source)
    → InRange source z
    → check_type target source z
      ≡ (if same_int (static_cast target z) z then (true, static_cast target z) else (false, pos 0))
unfolding check_type checked_cast
compared target source z u p q h =
    let c = common_type target source in
    rw
      (
        static_cast-InRange c (static_cast target z)
            (IsPart-InRange (static_cast target z) p (static_cast-in target z u)),
        static_cast-InRange c z (IsPart-InRange z q h),
      )
      refl

-- Where the comparison is made in a type that has all the values of both, `CheckType` is right: a
-- value of the column that the wanted type has is given as it is, and any other is refused.
pub check_type-exact :
    (target source : IntType) (z : ℤ)
    → IsUsual target
    → IsPart target (common_type target source)
    → IsPart source (common_type target source)
    → InRange source z
    → (InRange target z → check_type target source z ≡ (true, z))
      × (¬ (InRange target z) → check_type target source z ≡ (false, pos 0))
check_type-exact target source z u p q h = (
  λ fits.
      compared target source z u p q h
      ∙ rw (static_cast-InRange target z fits, same_int_refl z) refl,
  λ misses.
      compared target source z u p q h ∙ elim (Bool-cases (same_int (static_cast target z) z)) [
        | inl same ↦ absurd (
            misses (
              subst (InRange target) (same_int_sound (static_cast target z) z same)
                (static_cast-in target z u)))
        | inr other ↦ rw other refl
      ],
)

-- Where the comparison is made in the wanted type itself, `CheckType` refuses nothing: a value that
-- the type does not have is given wrapped around.
pub check_type-wraps :
    (target source : IntType) (z : ℤ)
    → IsUsual target
    → common_type target source ≡ target
    → check_type target source z ≡ (true, static_cast target z)
unfolding check_type checked_cast
check_type-wraps target source z u e =
    rw
      (
        e,
        static_cast-InRange target (static_cast target z) (static_cast-in target z u),
        same_int_refl (static_cast target z),
      )
      refl

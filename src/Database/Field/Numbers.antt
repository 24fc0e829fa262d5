-- ===== src/Database/Field/Numbers.antt =====
-- What the getters of Src/Common/Database/Field.cpp give for a column whose type `CheckType` does not read, and
-- for an integral column that is asked for as a floating one.
use game_project_demo.Common.{
  ◌+◌, ◌>>=◌, le→leb, suc, ◌%◌, ◌≡◌, refl, ap, ◌∙◌, Bool, true, false, Option, none, some, ◌>>=◌,
  ==_refl, if◌then◌else◌, ℤ, pos, negsuc, arith,
}
use game_project_demo.Util.{IntType, unsigned_of}
use game_project_demo.Database.Field.{
  Field, Source, integral, floating, as_made, source_type, source_value, static_cast, of_residue,
  common_type, same_int, check_type, checked_cast, get_from, get_int, asserted,
}
use game_project_demo.Database.Field.Floating.{
  FloatingPoint, Number, integer, single, real, Target, to_integer, to_float, to_double, integer_of,
  cast_number, equal_number, zero_of, compared_number, check_number, number_from, number_source,
  asserted_number, get_number,
}

pub same_int_refl : (z : ℤ) → same_int z z ≡ true
unfolding same_int
same_int_refl (pos n) = ==_refl n
same_int_refl (negsuc n) = ==_refl n

residue_zero : (t : IntType) → 0 % suc (t.max + t.low) ≡ 0
residue_zero t = omega arith

static_cast-zero : (t : IntType) → static_cast t (pos 0) ≡ pos 0
unfolding static_cast of_residue
static_cast-zero t = rw (residue_zero t, le→leb 0 t.max (omega arith)) refl

module _ {S D : Type 0} (fp : FloatingPoint S D) where
  -- What is converted from an integer is equal to itself, as all but a NaN are.
  pub record ComparesIntegers : Type 0 where
    pub floats : (z : ℤ) → fp.float_equal (fp.float_of_int z) (fp.float_of_int z) ≡ true
    pub doubles : (z : ℤ) → fp.double_equal (fp.double_of_int z) (fp.double_of_int z) ≡ true

  -- A source that is equal to its conversion is let through.
  let_through :
      (target : Target) (f : Field) (source result : Number S D)
      → number_source fp f ≡ some source
      → cast_number fp target source ≡ some result
      → equal_number fp result source ≡ true
      → get_number fp target f ≡ some result
  unfolding get_number check_number compared_number asserted_number
  let_through target f source result read cast same = rw (read, cast, same) refl

  -- Every getter of a number gives 0 for a column of a type that `CheckType` does not read, which are the decimals, the
  -- dates, the binary ones and null, whatever the column has.
  pub unread_types_give_zero :
      (target : Target) (f : Field)
      → ComparesIntegers
      → source_type f.field_type ≡ as_made
      → get_number fp target f ≡ some (zero_of fp target)
  unfolding number_source number_from cast_number equal_number zero_of
  unread_types_give_zero (to_integer t) f laws unread =
      let_through (to_integer t) f (integer (unsigned_of 1) (pos 0)) (integer t (pos 0))
        (ap (λ s. number_from fp s f) unread) (ap (λ z. some (integer t z)) (static_cast-zero t))
        (same_int_refl _)
  unread_types_give_zero to_float f laws unread =
      let_through to_float f (integer (unsigned_of 1) (pos 0)) (single (fp.float_of_int (pos 0)))
        (ap (λ s. number_from fp s f) unread) refl (laws.floats (pos 0))
  unread_types_give_zero to_double f laws unread =
      let_through to_double f (integer (unsigned_of 1) (pos 0)) (real (fp.double_of_int (pos 0)))
        (ap (λ s. number_from fp s f) unread) refl (laws.doubles (pos 0))

  -- The getters of the floating types refuse no integer: they give what it is converted to, exact or not.
  pub integers_become_floating :
      (f : Field) (t : IntType) (z : ℤ)
      → ComparesIntegers
      → source_type f.field_type ≡ integral t
      → source_value t f.is_binary f.value ≡ some z
      → (get_number fp to_float f ≡ some (single (fp.float_of_int z)))
        × (get_number fp to_double f ≡ some (real (fp.double_of_int z)))
  unfolding number_source number_from integer_of cast_number equal_number
  integers_become_floating f t z laws read given =
      let source : number_source fp f ≡ some (integer t z) =
        ap (λ s. number_from fp s f) read ∙ ap (integer_of fp t) given in
      (
        let_through to_float f (integer t z) (single (fp.float_of_int z)) source refl
            (laws.floats z),
        let_through to_double f (integer t z) (real (fp.double_of_int z)) source refl
            (laws.doubles z),
      )

  answer_alike :
      (t : IntType) (y : ℤ) (b : Bool)
      → asserted_number fp (if b then (true, integer t y) else (false, integer t (pos 0)))
        ≡ integer_of fp t (asserted (if b then (true, y) else (false, pos 0)))
  unfolding asserted_number integer_of asserted
  answer_alike t y true = refl
  answer_alike t y false = refl

  compared_alike :
      (t s : IntType) (z : ℤ)
      → (check_number fp (to_integer t) (integer s z) >>= asserted_number fp)
        ≡ integer_of fp t (asserted (check_type t s z))
  unfolding check_number compared_number cast_number equal_number zero_of check_type checked_cast
  compared_alike t s z =
      answer_alike t (static_cast t z) (
        same_int (static_cast (common_type t s) (static_cast t z))
          (static_cast (common_type t s) z))

  read_alike :
      (t s : IntType) (value : Option ℤ)
      → (do
        source ← integer_of fp s value
        checked ← check_number fp (to_integer t) source
        asserted_number fp checked)
        ≡ integer_of fp t (do z ← value; asserted (check_type t s z))
  unfolding integer_of
  read_alike t s none = refl
  read_alike t s (some z) = compared_alike t s z

  getters_alike :
      (from_floating : IntType → Field → Option ℤ) (source : Source) (t : IntType) (f : Field)
      → (source ≡ floating → ⊥)
      → (do
        number ← number_from fp source f
        checked ← check_number fp (to_integer t) number
        asserted_number fp checked)
        ≡ integer_of fp t (get_from from_floating source t f)
  unfolding number_from get_from
  getters_alike from_floating as_made t f exact = compared_alike t (unsigned_of 1) (pos 0)
  getters_alike from_floating floating t f exact = absurd (exact refl)
  getters_alike from_floating (integral s) t f exact =
      read_alike t s (source_value s f.is_binary f.value)

  -- The getters of the integral types, of which Database.Field speaks.
  pub get_number-get_int :
      (from_floating : IntType → Field → Option ℤ) (t : IntType) (f : Field)
      → (source_type f.field_type ≡ floating → ⊥)
      → get_number fp (to_integer t) f ≡ integer_of fp t (get_int from_floating t f)
  unfolding get_number number_source get_int
  get_number-get_int from_floating t f exact =
      getters_alike from_floating (source_type f.field_type) t f exact

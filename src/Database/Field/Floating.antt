-- ===== src/Database/Field/Floating.antt =====
-- The getters of Src/Common/Database/Field.h and Field.cpp with floating points: `CheckType` for every type that is
-- asked for and every type of the source. What the compiler makes of `float` and `double` is a `FloatingPoint`.
use game_project_demo.Common.{
  ℕ, Bool, true, false, Option, none, some, ◌>>=◌, Bytes, leb, length, take, if◌then◌else◌, ℤ, pos,
}
use game_project_demo.Util.{IntType, unsigned_of}
use game_project_demo.Util.Floats.{FloatChars, unset, float_from_string}
use game_project_demo.Database.Field.{
  DatabaseFieldType, float, Field, Source, integral, floating, as_made, source_type, source_value,
  text_of, static_cast, common_type, same_int,
}

-- `float` is `S` and `double` is `D`. A conversion to an integral type is `none` where it has no defined result.
pub record FloatingPoint (S D : Type 0) : Type 0 where
  pub float_of_int : ℤ → S
  pub double_of_int : ℤ → D
  pub double_of_float : S → D
  pub float_of_double : D → S
  pub int_of_float : IntType → S → Option ℤ
  pub int_of_double : IntType → D → Option ℤ
  -- `==`
  pub float_equal : S → S → Bool
  pub double_equal : D → D → Bool
  -- the bytes of a value
  pub float_of_bytes : Bytes → S
  pub double_of_bytes : Bytes → D
  pub float_chars : FloatChars S
  pub double_chars : FloatChars D

-- A value of one of the alternatives of the variant, and the type that is asked for.
pub data Number (S D : Type 0) : Type 0 where
  integer : IntType → ℤ → Number S D
  single : S → Number S D
  real : D → Number S D

pub data Target : Type 0 where
  to_integer : IntType → Target
  to_float to_double : Target

unfoldable pub value_or : {A : Type 0} → A → Option A → A
value_or default none = default
value_or default (some a) = a

module _ {S D : Type 0} (fp : FloatingPoint S D) where
  unfoldable pub integer_of : IntType → Option ℤ → Option (Number S D)
  integer_of t none = none
  integer_of t (some z) = some (integer t z)

  -- `static_cast` of a source to the type.
  unfoldable pub cast_number : Target → Number S D → Option (Number S D)
  cast_number (to_integer t) (integer s z) = some (integer t (static_cast t z))
  cast_number (to_integer t) (single x) = integer_of t (fp.int_of_float t x)
  cast_number (to_integer t) (real x) = integer_of t (fp.int_of_double t x)
  cast_number to_float (integer s z) = some (single (fp.float_of_int z))
  cast_number to_float (single x) = some (single x)
  cast_number to_float (real x) = some (single (fp.float_of_double x))
  cast_number to_double (integer s z) = some (real (fp.double_of_int z))
  cast_number to_double (single x) = some (real (fp.double_of_float x))
  cast_number to_double (real x) = some (real x)

  -- `result == srcVal`: an integer is converted to the floating type of the other side, and `float` to `double`.
  unfoldable pub equal_number : Number S D → Number S D → Bool
  equal_number (integer s y) (integer t z) =
      same_int (static_cast (common_type s t) y) (static_cast (common_type s t) z)
  equal_number (integer s y) (single x) = fp.float_equal (fp.float_of_int y) x
  equal_number (integer s y) (real x) = fp.double_equal (fp.double_of_int y) x
  equal_number (single x) (integer t z) = fp.float_equal x (fp.float_of_int z)
  equal_number (single x) (single y) = fp.float_equal x y
  equal_number (single x) (real y) = fp.double_equal (fp.double_of_float x) y
  equal_number (real x) (integer t z) = fp.double_equal x (fp.double_of_int z)
  equal_number (real x) (single y) = fp.double_equal x (fp.double_of_float y)
  equal_number (real x) (real y) = fp.double_equal x y

  -- `T{}`.
  unfoldable pub zero_of : Target → Number S D
  zero_of (to_integer t) = integer t (pos 0)
  zero_of to_float = single (fp.float_of_int (pos 0))
  zero_of to_double = real (fp.double_of_int (pos 0))

  -- The visitor of `CheckType`.
  unfoldable pub compared_number : Target → Number S D → Number S D → Bool × Number S D
  compared_number target source result =
      if equal_number result source then (true, result) else (false, zero_of target)

  unfoldable pub check_number : Target → Number S D → Option (Bool × Number S D)
  check_number target source = do
    result ← cast_number target source
    some (compared_number target source result)

  -- The first bytes behind the pointer.
  unfoldable pub bytes_behind : ℕ → Option Bytes → Option Bytes
  bytes_behind n none = none
  bytes_behind n (some bytes) = if leb n (length bytes) then some (take n bytes) else none

  -- A source of a floating type; a text that is no number is 0.
  unfoldable pub float_source : Bool → Option Bytes → Option (Number S D)
  float_source true value = do bytes ← bytes_behind 4 value; some (single (fp.float_of_bytes bytes))
  float_source false value = some (
      single (
        value_or (fp.float_of_int (pos 0))
          (float_from_string fp.float_chars unset (text_of value))))

  unfoldable pub double_source : Bool → Option Bytes → Option (Number S D)
  double_source true value = do bytes ← bytes_behind 8 value; some (real (fp.double_of_bytes bytes))
  double_source false value = some (
      real (
        value_or (fp.double_of_int (pos 0))
          (float_from_string fp.double_chars unset (text_of value))))

  unfoldable pub floating_source : DatabaseFieldType → Bool → Option Bytes → Option (Number S D)
  floating_source float is_binary value = float_source is_binary value
  floating_source _ is_binary value = double_source is_binary value

  unfoldable pub number_from : Source → Field → Option (Number S D)
  number_from as_made f = some (integer (unsigned_of 1) (pos 0))
  number_from floating f = floating_source f.field_type f.is_binary f.value
  number_from (integral t) f = integer_of t (source_value t f.is_binary f.value)

  -- The `switch` of `CheckType`.
  unfoldable pub number_source : Field → Option (Number S D)
  number_source f = number_from (source_type f.field_type) f

  unfoldable pub asserted_number : Bool × Number S D → Option (Number S D)
  asserted_number (true, x) = some x
  asserted_number (false, x) = none

  -- `GetUInt8` to `GetInt64`, `GetFloat` and `GetDouble`, by their types.
  unfoldable pub get_number : Target → Field → Option (Number S D)
  get_number target f = do
    source ← number_source f
    checked ← check_number target source
    asserted_number checked

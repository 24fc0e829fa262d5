-- ===== src/Database/Field.antt =====
-- Src/Common/Database/Field.h and Field.cpp: the checked getters of a field, for the integral types; Floating has those
-- of all numbers.
-- What floating values do is an argument.
pub mod Checked
pub mod Floating
pub mod Numbers
mod Tests
use game_project_demo.Common.{
  ℕ, zero, suc, ◌+◌, ◌-◌, ◌*◌, ◌%◌, Bool, true, false, not, ◌&&◌, Option, none, some, List, [], ◌∷◌,
  Bytes, codes, ltb, leb, ◌==◌, if◌then◌else◌, c_text, length, take, ℤ, pos, negsuc, ◌>>=◌,
}
use game_project_demo.Util.{IntType, unsigned_of, signed_of, from_string}

pub data DatabaseFieldType : Type 0 where
  null uint8 int8 uint16 int16 uint32 int32 uint64 int64 float double decimal_type date binary :
      DatabaseFieldType

-- The number of values of a type.
abbrev pub modulus : IntType → ℕ
modulus t = suc (t.max + t.low)

abbrev pub residue : ℕ → ℤ → ℕ
residue m (pos n) = n % m
residue m (negsuc n) = m - suc (n % m)

unfoldable pub of_residue : IntType → ℕ → ℤ
of_residue t r = if leb r t.max then pos r else negsuc (modulus t - suc r)

-- `static_cast` to an integral type.
unfoldable pub static_cast : IntType → ℤ → ℤ
static_cast t z = of_residue t (residue (modulus t) z)

-- The integral promotion, and the type that two promoted operands are converted to.
abbrev pub promote : IntType → IntType
promote t = if ltb t.bytes 4 then signed_of 4 else t

abbrev pub converted : Bool → Bool → IntType → IntType → IntType
converted true true s t = if leb t.bytes s.bytes then s else t
converted false false s t = if leb t.bytes s.bytes then s else t
converted true false s t = if ltb t.bytes s.bytes then s else t
converted false true s t = if ltb s.bytes t.bytes then t else s

unfoldable pub common_type : IntType → IntType → IntType
common_type s t = converted (promote s).signed (promote t).signed (promote s) (promote t)

unfoldable pub same_int : ℤ → ℤ → Bool
same_int (pos m) (pos n) = m == n
same_int (pos m) (negsuc n) = false
same_int (negsuc m) (pos n) = false
same_int (negsuc m) (negsuc n) = m == n

-- `result != srcVal` decides, with its operands converted to `common`.
unfoldable pub checked_cast : IntType → IntType → ℤ → Bool × ℤ
checked_cast common target z =
    if same_int (static_cast common (static_cast target z)) (static_cast common z)
    then (true, static_cast target z)
    else (false, pos 0)

-- The visitor of `CheckType<T>` for an integral source.
unfoldable pub check_type : IntType → IntType → ℤ → Bool × ℤ
check_type target source z = checked_cast (common_type target source) target z

-- What a column is read as; `as_made` leaves the variant as it was made, an 8-bit unsigned 0.
pub data Source : Type 0 where
  integral : IntType → Source
  floating as_made : Source

unfoldable pub source_type : DatabaseFieldType → Source
source_type uint8 = integral (unsigned_of 1)
source_type int8 = integral (signed_of 1)
source_type uint16 = integral (unsigned_of 2)
source_type int16 = integral (signed_of 2)
source_type uint32 = integral (unsigned_of 4)
source_type int32 = integral (signed_of 4)
source_type uint64 = integral (unsigned_of 8)
source_type int64 = integral (signed_of 8)
source_type null = as_made
source_type float = floating
source_type double = floating
source_type decimal_type = as_made
source_type date = as_made
source_type binary = as_made

-- A field: what its pointer shows, its length as the bytes of a text, and its metadata.
pub record Field : Type 0 where
  pub value : Option Bytes
  pub field_type : DatabaseFieldType
  pub is_binary : Bool

abbrev pub is_null : Field → Bool
is_null f = elim f.value [ none ↦ true | some bytes ↦ false ]

unfoldable pub set_value : Option Bytes → Field → Field
set_value new_value f = record f { value = new_value }

-- A little-endian number.
unfoldable pub little_endian : Bytes → ℕ
little_endian [] = 0
little_endian (b ∷ bs) = b + 256 * little_endian bs

-- The bytes behind the pointer as a value of the type.
unfoldable pub reinterpret : IntType → Option Bytes → Option ℤ
reinterpret t none = none
reinterpret t (some bytes) =
    if leb t.bytes (length bytes)
    then some (of_residue t (little_endian (take t.bytes bytes)))
    else none

abbrev pub text_of : Option Bytes → Bytes
text_of none = []
text_of (some bytes) = bytes

abbrev pub value_or_zero : Option ℤ → ℤ
value_or_zero none = pos 0
value_or_zero (some z) = z

unfoldable pub source_value : IntType → Bool → Option Bytes → Option ℤ
source_value t true value = reinterpret t value
source_value t false value = some (value_or_zero (from_string t 10 (text_of value)))

-- A value that does not fit fails an `Assert`.
unfoldable pub asserted : Bool × ℤ → Option ℤ
asserted (true, z) = some z
asserted (false, z) = none

-- The conversions of floating values are an argument.
unfoldable pub get_from : (IntType → Field → Option ℤ) → Source → IntType → Field → Option ℤ
get_from from_floating as_made target f = asserted (check_type target (unsigned_of 1) (pos 0))
get_from from_floating floating target f = from_floating target f
get_from from_floating (integral source) target f = do
  z ← source_value source f.is_binary f.value
  asserted (check_type target source z)

-- `GetUInt8` to `GetInt64`, by their types.
unfoldable pub get_int : (IntType → Field → Option ℤ) → IntType → Field → Option ℤ
get_int from_floating target f = get_from from_floating (source_type f.field_type) target f

-- `GetBool`.
unfoldable pub get_bool : (IntType → Field → Option ℤ) → Field → Option Bool
get_bool from_floating f = do z ← get_int from_floating (unsigned_of 1) f; some (same_int z (pos 1))

unfoldable pub string_of : DatabaseFieldType → Option Bytes → Option (Option Bytes)
string_of binary value = some value
string_of _ value = none

-- `GetCString`: the pointer, which may be null; for a column of another type an `Assert` fails.
unfoldable pub get_cstring : Field → Option (Option Bytes)
get_cstring f = string_of f.field_type f.value

unfoldable pub text_or_empty : Option Bytes → Bytes
text_or_empty none = []
text_or_empty (some bytes) = c_text bytes

-- The conversion to `std::string`, for a value with a NUL behind it.
unfoldable pub get_string : Field → Option Bytes
get_string f = do value ← get_cstring f; some (text_or_empty value)

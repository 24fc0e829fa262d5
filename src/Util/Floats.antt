-- ===== src/Util/Floats.antt =====
-- `ForFloat`, `StringTo` and `ToString` of Src/Common/Util/Util.hpp. A floating type is a type `T` with its
-- functions of the standard library, `FloatChars`.
use game_project_demo.Common.{
  ℕ, zero, suc, ◌≡◌, ap, Bool, true, false, Option, none, some, [], ◌∷◌, Bytes, codes, take, drop,
  ◌==◌, if◌then◌else◌, if-true, ℤ,
}
use game_project_demo.Util.{
  IntType, string_equal, from_string, to_string, bool_from_string, bool_to_string, base_prefix,
  from_prefixed,
}

-- `std::chars_format`; `unset` is that of `std::chars_format{}`.
pub data CharsFormat : Type 0 where
  unset scientific fixed hex general : CharsFormat

-- `std::from_chars` gives what is left of the text, and the value unless there is an error.
pub record FloatChars (T : Type 0) : Type 0 where
  pub float_from_chars : CharsFormat → Bytes → Bytes × Option T
  pub float_to_string : T → Bytes

unfoldable pub whole_float : {T : Type 0} → Bytes × Option T → Option T
whole_float ([], v) = v
whole_float (c ∷ rest, v) = none

-- The format that a prefix asks for, and the text behind it.
unfoldable pub format_prefix : CharsFormat → Bytes → CharsFormat × Bytes
format_prefix unset s =
    if string_equal (take 2 s) (codes "0x") then (hex, drop 2 s) else (general, s)
format_prefix scientific s = (scientific, s)
format_prefix fixed s = (fixed, s)
format_prefix hex s = (hex, s)
format_prefix general s = (general, s)

unfoldable pub float_from_prefixed : {T : Type 0} → FloatChars T → CharsFormat × Bytes → Option T
float_from_prefixed chars (format, []) = none
float_from_prefixed chars (format, c ∷ cs) = whole_float (chars.float_from_chars format (c ∷ cs))

-- `ForFloat<T>::FromString(str, charFmt)`; a text that is empty at once or behind its prefix is refused.
unfoldable pub float_from_string : {T : Type 0} → FloatChars T → CharsFormat → Bytes → Option T
float_from_string chars format [] = none
float_from_string chars format (c ∷ cs) = float_from_prefixed chars (format_prefix format (c ∷ cs))

-- `ForFloat<T>::FromString(str, base)`.
unfoldable pub float_from_base : {T : Type 0} → FloatChars T → ℕ → Bytes → Option T
float_from_base chars base s =
    if base == 16
    then float_from_string chars hex s
    else if base == 10
    then float_from_string chars general s
    else float_from_string chars unset s

-- The types that `StringTo` and `ToString` tell apart, and their values.
pub data Kind : Type 0 where
  bool floating : Kind
  number : IntType → Kind

pub data Value (T : Type 0) : Type 0 where
  bool_value : Bool → Value T
  float_value : T → Value T
  int_value : ℤ → Value T

unfoldable pub wrapped : {A B : Type 0} → (A → B) → Option A → Option B
wrapped f none = none
wrapped f (some a) = some (f a)

-- The number that may be handed on; without it each function has its own default.
unfoldable pub strict_of : Option ℕ → Bool
strict_of none = false
strict_of (some zero) = false
strict_of (some (suc n)) = true

unfoldable pub base_of : Option ℕ → ℕ
base_of none = 10
base_of (some n) = n

unfoldable pub float_with : {T : Type 0} → FloatChars T → Option ℕ → Bytes → Option T
float_with chars none s = float_from_string chars unset s
float_with chars (some base) s = float_from_base chars base s

-- `StringTo`.
unfoldable pub string_to : {T : Type 0} → FloatChars T → Kind → Option ℕ → Bytes → Option (Value T)
string_to chars bool param s = wrapped bool_value (bool_from_string (strict_of param) s)
string_to chars floating param s = wrapped float_value (float_with chars param s)
string_to chars (number t) param s = wrapped int_value (from_string t (base_of param) s)

-- `ToString` of a value; `none` is a failed `Assert`.
unfoldable pub value_to_string : {T : Type 0} → FloatChars T → IntType → Value T → Option Bytes
value_to_string chars t (bool_value b) = some (bool_to_string b)
value_to_string chars t (float_value x) = some (chars.float_to_string x)
value_to_string chars t (int_value z) = to_string t z

module _ {T : Type 0} (chars : FloatChars T) where
  -- With a base left open, `0x` in either case asks for base 16: the text behind it is read as it is read
  -- alone in base 16, by the numbers and by the floating types. It must not be empty.
  pub prefix_is_hex :
      (t : IntType) (a b c : ℕ) (cs : Bytes)
      → string_equal (a ∷ b ∷ []) (codes "0x") ≡ true
      → (from_string t 0 (a ∷ b ∷ c ∷ cs) ≡ from_string t 16 (c ∷ cs))
        × (float_with chars none (a ∷ b ∷ c ∷ cs) ≡ float_from_base chars 16 (c ∷ cs))
  unfolding from_string base_prefix from_prefixed float_with float_from_base float_from_string
      format_prefix float_from_prefixed
  prefix_is_hex t a b c cs is_prefix = (
    ap (from_prefixed t) (if-true _ _ _ is_prefix),
    ap (float_from_prefixed chars) (if-true _ _ _ is_prefix),
  )

-- ===== src/Util.antt =====
-- Src/Common/Util/Util.hpp: comparing texts, converting integers and flags to and from text, and
-- differences of times. Of the standard library it uses `std::tolower` in the C locale,
-- `std::equal`, `std::from_chars` and `std::to_chars`, which are modelled here.
pub mod Digits
pub mod Convert
pub mod Texts
pub mod Time
pub mod Cleanup
pub mod Floats
pub mod Progress
mod Tests
use game_project_demo.Common.{
  ℕ, zero, suc, ◌+◌, ◌-◌, ◌*◌, ◌/◌, ◌%◌, ◌^◌, Bool, true, false, ◌&&◌, ◌||◌, Option, none, some,
  List, [], ◌∷◌, ◌++◌, ltb, leb, ◌==◌, if◌then◌else◌, length, take, drop, Bytes, codes, same_text,
  ℤ, pos, negsuc,
}

-- Texts

unfoldable pub to_lower : ℕ → ℕ
to_lower c = if leb b'A' c && leb c b'Z' then c + 32 else c

-- `std::equal` over both texts, with the comparison of `StringEqual`.
unfoldable pub string_equal : Bytes → Bytes → Bool
unfolding to_lower
string_equal [] [] = true
string_equal [] (b ∷ bs) = false
string_equal (a ∷ as') [] = false
string_equal (a ∷ as') (b ∷ bs) = to_lower a == to_lower b && string_equal as' bs

-- Integers

-- An integral type: `signed`, its largest value, and how far it goes below zero.
pub record IntType : Type 0 where
  pub signed : Bool
  pub max : ℕ
  pub low : ℕ
  -- `sizeof`
  pub bytes : ℕ

abbrev pub unsigned_of : ℕ → IntType
unsigned_of w = record { signed = false; max = 2 ^ (8 * w) - 1; low = 0; bytes = w }

abbrev pub signed_of : ℕ → IntType
signed_of w = record { signed = true; max = 2 ^ (8 * w - 1) - 1; low = 2 ^ (8 * w - 1); bytes = w }

-- The value of a digit, letters of both cases included.
unfoldable pub digit_value : ℕ → Option ℕ
digit_value c =
    if leb b'0' c && leb c b'9'
    then some (c - b'0')
    else if leb b'a' c && leb c b'z'
    then some (c - b'a' + 10)
    else if leb b'A' c && leb c b'Z'
    then some (c - b'A' + 10)
    else none

unfoldable pub digit_in : ℕ → ℕ → Option ℕ
unfolding digit_value
digit_in base c = elim (digit_value c) [
  | none ↦ none
  | some d ↦ if ltb d base then some d else none
]

-- The longest run of digits: its value, added to what `acc` stands for, and what follows it.
unfoldable pub scan : ℕ → ℕ → Bytes → ℕ × Bytes
scan base acc [] = (acc, [])
scan base acc (c ∷ cs) = elim (digit_in base c) [
  | none ↦ (acc, c ∷ cs)
  | some d ↦ scan base (acc * base + d) cs
]

-- `errc`, with the value that is stored when there is no error.
pub data Scanned : Type 0 where
  invalid_argument result_out_of_range : Scanned
  value : ℤ → Scanned

unfoldable pub signed_value : Bool → ℕ → ℤ
signed_value true (suc n) = negsuc n
signed_value true zero = pos zero
signed_value false n = pos n

-- The value behind the sign, if the type has it.
unfoldable pub limited : IntType → Bool → ℕ × Bytes → Bytes × Scanned
limited t minus (n, rest) =
    if leb n (if minus then t.low else t.max)
    then (rest, value (signed_value minus n))
    else (rest, result_out_of_range)

unfoldable pub scan_value : IntType → ℕ → Bool → Bytes → Bytes × Scanned
scan_value t base minus [] = ([], invalid_argument)
scan_value t base minus (c ∷ cs) = elim (digit_in base c) [
  | none ↦ (c ∷ cs, invalid_argument)
  | some d ↦ limited t minus (scan base d cs)
]

-- `std::from_chars`: `ptr`, as the text from there on, and `errc`. A sign is read only for a signed
-- type, and no `+` or space is.
unfoldable pub from_chars : IntType → ℕ → Bytes → Bytes × Scanned
from_chars t base [] = ([], invalid_argument)
from_chars t base (c ∷ cs) =
    if t.signed && c == b'-' then scan_value t base true cs else scan_value t base false (c ∷ cs)

-- The test at the end of `FromString`: all read, and no error.
unfoldable pub whole_value : Bytes × Scanned → Option ℤ
whole_value ([], value z) = some z
whole_value (rest, result) = none

-- The base that a prefix asks for, and the text behind it.
unfoldable pub base_prefix : Bytes → ℕ × Bytes
unfolding string_equal
base_prefix s =
    if string_equal (take 2 s) (codes "0x")
    then (16, drop 2 s)
    else if string_equal (take 2 s) (codes "0b")
    then (2, drop 2 s)
    else (10, s)

-- What follows once the prefix is off; nothing may be left to read.
unfoldable pub from_prefixed : IntType → ℕ × Bytes → Option ℤ
from_prefixed t (base, []) = none
from_prefixed t (base, c ∷ cs) = whole_value (from_chars t base (c ∷ cs))

-- `For<T>::FromString(str, base)`.
unfoldable pub from_string : IntType → ℕ → Bytes → Option ℤ
from_string t base s =
    if base == 0 then from_prefixed t (base_prefix s) else whole_value (from_chars t base s)

-- The decimal digits of a number; the fuel bounds their count.
unfoldable pub digits_from : ℕ → ℕ → Bytes
digits_from zero n = []
digits_from (suc fuel) n =
    let more = digits_from fuel (n / 10) in
    if ltb n 10 then (n + b'0') ∷ [] else more ++ (n % 10 + b'0') ∷ []

-- `std::to_chars` and `std::format("{}")` of a natural number.
unfoldable pub decimal : ℕ → Bytes
decimal n = digits_from (suc n) n

-- `std::to_chars` in base 10.
unfoldable pub to_chars : ℤ → Bytes
to_chars (pos n) = decimal n
to_chars (negsuc n) = b'-' ∷ decimal (suc n)

-- `For<T>::ToString`; `none` where the buffer is too short and its `Assert` fails.
unfoldable pub to_string : IntType → ℤ → Option Bytes
to_string t z =
    if leb (length (to_chars z)) (if ltb t.bytes 8 then 11 else 20) then some (to_chars z) else none

-- Flags

-- `ForBool::FromString`.
unfoldable pub bool_from_string : Bool → Bytes → Option Bool
unfolding string_equal same_text
bool_from_string true s =
    if same_text s (codes "1")
    then some true
    else if same_text s (codes "0")
    then some false
    else none
bool_from_string false s =
    if same_text s (codes "1")
      || string_equal s (codes "y")
      || string_equal s (codes "on")
      || string_equal s (codes "yes")
    then some true
    else if same_text s (codes "0")
        || string_equal s (codes "n")
        || string_equal s (codes "off")
        || string_equal s (codes "no")
    then some false
    else none

-- `ForBool::ToString`.
unfoldable pub bool_to_string : Bool → Bytes
bool_to_string true = codes "1"
bool_to_string false = codes "0"

-- Times

abbrev pub uint64_max : ℕ
uint64_max = 2 ^ 64 - 1

-- `GetMillSecTimeDiff`, in `uint64_t`.
unfoldable pub get_mill_sec_time_diff : ℕ → ℕ → ℕ
get_mill_sec_time_diff old_time new_time =
    if ltb new_time old_time
    then (uint64_max - old_time + new_time) % 2 ^ 64
    else new_time - old_time

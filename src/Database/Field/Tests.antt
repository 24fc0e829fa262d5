-- ===== src/Database/Field/Tests.antt =====
-- Runs of the getters of Src/Common/Database/Field.cpp with numbers of one decimal in place of the floating points.
use game_project_demo.Common.{
  true, negsuc, ◌≡◌, refl, true, false, none, some, codes, [], ◌∷◌, ℤ, pos,
}
use game_project_demo.Util.{signed_of}
use game_project_demo.Database.Columns.{
  long, mysql_type_to_field_type, size_for_type, column_reads_its_buffer,
}
use game_project_demo.Util.Floats.{FloatChars}
use game_project_demo.Database.Field.{
  Field, decimal_type, int32, source_type, source_value, reinterpret, of_residue, little_endian,
  same_int,
}
use game_project_demo.Database.Field.Floating.{FloatingPoint, to_double, real, zero_of, get_number}
use game_project_demo.Database.Field.Numbers.{
  ComparesIntegers, same_int_refl, unread_types_give_zero, integers_become_floating,
}

abbrev no_chars : FloatChars ℤ
no_chars = record { float_from_chars = λ format s. (s, none); float_to_string = λ z. codes "" }

-- Both types have the integers only.
abbrev whole_numbers : FloatingPoint ℤ ℤ
whole_numbers = record {
  float_of_int = λ z. z;
  double_of_int = λ z. z;
  double_of_float = λ z. z;
  float_of_double = λ z. z;
  int_of_float = λ t z. some z;
  int_of_double = λ t z. some z;
  float_equal = same_int;
  double_equal = same_int;
  float_of_bytes = λ s. pos 0;
  double_of_bytes = λ s. pos 0;
  float_chars = no_chars;
  double_chars = no_chars;
}

abbrev whole_laws : ComparesIntegers whole_numbers
whole_laws = record { floats = same_int_refl; doubles = same_int_refl }

-- The sum of a column, as the server sends it.
abbrev decimal_field : Field
decimal_field = record { value = some (codes "12.5"); field_type = decimal_type; is_binary = false }

unread_types_give_zero_example :
    get_number whole_numbers to_double decimal_field ≡ some (zero_of whole_numbers to_double)
unfolding source_type
unread_types_give_zero_example =
    unread_types_give_zero whole_numbers to_double decimal_field whole_laws refl

abbrev int_field : Field
int_field = record { value = some (7 ∷ 0 ∷ 0 ∷ 0 ∷ []); field_type = int32; is_binary = true }

reads_seven : get_number whole_numbers to_double int_field ≡ some (real (pos 7))
unfolding source_type source_value reinterpret of_residue little_endian
reads_seven =
    (integers_become_floating whole_numbers int_field (signed_of 4) (pos 7) whole_laws refl refl).1

-- An INT column that has -1, of a library whose times have 40 bytes.
column_reads_its_buffer_example :
    (size_for_type 40 0 long ≡ 4)
    × (source_value (signed_of 4) true (some (255 ∷ 255 ∷ 255 ∷ 255 ∷ [])) ≡ some (negsuc 0))
unfolding size_for_type mysql_type_to_field_type source_type of_residue little_endian
column_reads_its_buffer_example =
    column_reads_its_buffer 40 0 long false (signed_of 4) (255 ∷ 255 ∷ 255 ∷ 255 ∷ []) refl refl

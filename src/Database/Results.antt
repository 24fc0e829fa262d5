-- ===== src/Database/Results.antt =====
-- Src/Common/Database/QueryResult.h and QueryResult.cpp: the columns of a result and `ResultSet`. A result
-- of the client library is of a type `R`; its functions are those of `ResultLibrary`.
pub mod Block
pub mod Buffered
pub mod Kept
pub mod Read
pub mod Rows
pub mod Shown
pub mod Walk
mod RowTests
mod Tests
use game_project_demo.Common.{
  ℕ, suc, ◌%◌, ◌^◌, Bool, true, false, Option, none, some, List, [], ◌∷◌, Bytes, ltb, length,
  replicate, take, get_elem?, if◌then◌else◌,
}
use game_project_demo.Database.{Run, stopped, finished, ◌>>=◌}
use game_project_demo.Database.Columns.{MysqlType, mysql_type_to_field_type, field_type_to_string}
use game_project_demo.Database.Field.{DatabaseFieldType, Field, set_value}

-- `MYSQL_FIELD`, as far as it is read; `unsigned` is `UNSIGNED_FLAG`.
pub record MySqlField : Type 0 where
  pub org_table : Bytes
  pub table : Bytes
  pub org_name : Bytes
  pub name : Bytes
  pub type : MysqlType
  pub unsigned : Bool
  pub max_length : ℕ

pub record QueryResultFieldMetadata : Type 0 where
  pub table_name : Bytes
  pub table_alias : Bytes
  pub name : Bytes
  pub alias : Bytes
  pub type_name : Bytes
  pub index : ℕ
  pub field_type : DatabaseFieldType
  pub is_binary : Bool

-- `InitializeDatabaseFieldMetadata`.
unfoldable pub initialize_metadata : MySqlField → ℕ → Bool → QueryResultFieldMetadata
initialize_metadata field index binary = record {
  table_name = field.org_table;
  table_alias = field.table;
  name = field.org_name;
  alias = field.name;
  type_name = field_type_to_string field.type field.unsigned;
  index = index;
  field_type = mysql_type_to_field_type field.type field.unsigned;
  is_binary = binary;
}

-- The metadata of the columns from an index on.
unfoldable pub metadata_from : ℕ → Bool → List MySqlField → List QueryResultFieldMetadata
metadata_from index binary [] = []
metadata_from index binary (field ∷ fields) =
    initialize_metadata field index binary ∷ metadata_from (suc index) binary fields

-- `Field::SetMetadata`, of a field without a value.
unfoldable pub field_with : QueryResultFieldMetadata → Field
field_with meta = record { value = none; field_type = meta.field_type; is_binary = meta.is_binary }

unfoldable pub fields_with : List QueryResultFieldMetadata → List Field
fields_with [] = []
fields_with (meta ∷ metas) = field_with meta ∷ fields_with metas

-- A row: what each of its pointers shows.
abbrev pub Row : Type 0
Row = List (Option Bytes)

pub record ResultLibrary (R : Type 0) : Type 0 where
  pub mysql_fetch_row : R → Option Row × R
  pub mysql_fetch_lengths : R → Option (List ℕ)

pub record ResultSet (R : Type 0) : Type 0 where
  pub field_metadata : List QueryResultFieldMetadata
  pub row_count : ℕ
  -- `_pCurrentRow`
  pub current_row : Option (List Field)
  pub field_count : ℕ
  -- `_pResult`
  pub result : Option R

-- The constructor, over the first `field_count` of the fields.
unfoldable pub new_result_set : {R : Type 0} → R → List MySqlField → ℕ → ℕ → ResultSet R
new_result_set result fields row_count field_count =
    let metadata = metadata_from 0 false (take field_count fields) in
    record {
      field_metadata = metadata;
      row_count = row_count;
      current_row = some (fields_with metadata);
      field_count = field_count;
      result = some result;
    }

-- `CleanUp`.
unfoldable pub clean_up : {R : Type 0} → ResultSet R → ResultSet R
clean_up s = record s { current_row = none; result = none }

-- `SetValue` with a pointer and a length, which has 32 bits.
abbrev pub cut : ℕ → Option Bytes → Option Bytes
cut n none = none
cut n (some bytes) = some (take (n % 2 ^ 32) bytes)

-- The fields take their values; a row or lengths that are too short are read behind their end.
unfoldable pub set_values : List Field → Row → List ℕ → Run (List Field)
set_values [] row lengths = finished []
set_values (f ∷ fs) [] lengths = stopped
set_values (f ∷ fs) (v ∷ row) [] = stopped
set_values (f ∷ fs) (v ∷ row) (n ∷ lengths) = do
  rest ← set_values fs row lengths
  finished (set_value (cut n v) f ∷ rest)

unfoldable pub fields_or_stop : Option (List Field) → Run (List Field)
fields_or_stop none = stopped
fields_or_stop (some fields) = finished fields

module _ {R : Type 0} (lib : ResultLibrary R) where
  unfoldable pub with_lengths : Row → Option (List ℕ) → ResultSet R → Run (Bool × ResultSet R)
  with_lengths row none s = finished (false, clean_up s)
  with_lengths row (some lengths) s = do
    fields ← fields_or_stop s.current_row
    fields' ← set_values fields row lengths
    finished (true, record s { current_row = some fields' })

  unfoldable pub with_row : Option Row × R → ResultSet R → Run (Bool × ResultSet R)
  with_row (none, r) s = finished (false, clean_up s)
  with_row (some row, r) s =
      with_lengths row (lib.mysql_fetch_lengths r) (record s { result = some r })

  unfoldable pub next_of : Option R → ResultSet R → Run (Bool × ResultSet R)
  next_of none s = finished (false, s)
  next_of (some r) s = with_row (lib.mysql_fetch_row r) s

  -- `NextRow`.
  unfoldable pub next_row : ResultSet R → Run (Bool × ResultSet R)
  next_row s = next_of s.result s

unfoldable pub element : Option Field → Run Field
element none = stopped
element (some f) = finished f

-- `operator[]`.
unfoldable pub field_at : {R : Type 0} → ℕ → ResultSet R → Run Field
field_at index s =
    if ltb index s.field_count
    then (do fields ← fields_or_stop s.current_row; element (get_elem? fields index))
    else stopped

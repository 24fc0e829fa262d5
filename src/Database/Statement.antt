-- ===== src/Database/Statement.antt =====
-- Src/Common/Database/PreparedStatement.h and PreparedStatement.cpp: the values of the parameters of a
-- prepared statement. A `float` or a `double` is its bit pattern.
pub mod Bind
pub mod Bound
pub mod Integers
pub mod Reuse
pub mod SqlText
pub mod Substitution
mod Tests
use game_project_demo.Common.{
  ℕ, ◌%◌, ◌^◌, ◌==◌, Bool, true, false, not, List, [], Bytes, codes, length, ltb, replicate, set,
  if◌then◌else◌, ℤ, pos,
}
use game_project_demo.Util.{IntType, unsigned_of, signed_of}
use game_project_demo.Database.{Run, stopped, finished}

-- `SqlArgType`.
pub data SqlArgType : Type 0 where
  bool uint8 uint16 uint32 uint64 int8 int16 int32 int64 float double string binary null :
      SqlArgType

-- The eight integral alternatives of `PreparedStatementData`.
pub data Integral : Type 0 where
  u8 u16 u32 u64 i8 i16 i32 i64 : Integral

unfoldable pub int_type : Integral → IntType
int_type u8 = unsigned_of 1
int_type u16 = unsigned_of 2
int_type u32 = unsigned_of 4
int_type u64 = unsigned_of 8
int_type i8 = signed_of 1
int_type i16 = signed_of 2
int_type i32 = signed_of 4
int_type i64 = signed_of 8

-- The variant of `PreparedStatementData`.
pub data StatementData : Type 0 where
  flag : Bool → StatementData
  integral : Integral → ℤ → StatementData
  float_bits : ℕ → StatementData
  double_bits : ℕ → StatementData
  text : Bytes → StatementData
  bytes : Bytes → StatementData
  nullptr : StatementData

-- What `SetValue` is called with: a value of an alternative's type, or of another type, such as a
-- literal or a `std::string_view`.
pub data Argument : Type 0 where
  typed : StatementData → Argument
  untyped : Argument

pub record PreparedStatement : Type 0 where
  pub index : ℕ
  pub statement_data : List StatementData

-- The constructor; a variant begins as its first alternative.
unfoldable pub new_prepared : ℕ → ℕ → PreparedStatement
new_prepared index capacity = record {
  index = index;
  statement_data = replicate capacity (flag false);
}

-- The branches of `SetValue` on the type of the argument; there is none for `bool`, for
-- `std::vector` and for `nullptr_t`.
unfoldable pub emplaced : ℕ → Argument → List StatementData → List StatementData
emplaced index (typed (integral k z)) data_of = set data_of index (integral k z)
emplaced index (typed (float_bits n)) data_of = set data_of index (float_bits n)
emplaced index (typed (double_bits n)) data_of = set data_of index (double_bits n)
emplaced index (typed (text s)) data_of = set data_of index (text s)
emplaced index (typed (flag b)) data_of = data_of
emplaced index (typed (bytes b)) data_of = data_of
emplaced index (typed nullptr) data_of = data_of
emplaced index untyped data_of = data_of

-- `SetValue`, which does not use the type that it is told.
unfoldable pub set_value : ℕ → SqlArgType → Argument → PreparedStatement → Run PreparedStatement
set_value index type value p =
    if ltb index (length p.statement_data)
    then finished (record p { statement_data = emplaced index value p.statement_data })
    else stopped

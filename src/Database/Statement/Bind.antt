-- ===== src/Database/Statement/Bind.antt =====
-- `MySqlPreparedStatement` of Src/Common/Database/MySqlPreparedStatement.h and
-- MySqlPreparedStatement.cpp, with the types of Src/Common/Database/MySqlTypeHack.h: the buffers of the
-- parameters. What it tells the log, and the release of memory, are left out.
use game_project_demo.Common.{
  ℕ, zero, suc, ◌/◌, ◌%◌, ◌^◌, Bool, true, false, Option, none, some, List, [], ◌∷◌, Bytes, length,
  ltb, replicate, set, get_elem?, take, if◌then◌else◌,
}
use game_project_demo.Database.{Run, stopped, finished, ◌>>=◌}
use game_project_demo.Database.Columns.{
  MysqlType, tiny, short, long, longlong, decimal_column, var_string, blob,
}
use game_project_demo.Database.Field.{residue, modulus}
use game_project_demo.Database.Statement.{
  Integral, u8, u16, u32, u64, i8, i16, i32, i64, int_type, StatementData, flag, integral,
  float_bits, double_bits, text, bytes, nullptr, PreparedStatement,
}

-- `MYSQL_BIND`, as far as the parameters use it; `none` is a null pointer.
pub record MySqlBind : Type 0 where
  pub buffer_type : MysqlType
  pub buffer : Option Bytes
  pub buffer_length : ℕ
  pub is_null_value : Bool
  pub length_of : Option ℕ
  pub is_unsigned : Bool

-- After `memset`; the type 0 is `MYSQL_TYPE_DECIMAL`.
abbrev pub zeroed : MySqlBind
zeroed = record {
  buffer_type = decimal_column;
  buffer = none;
  buffer_length = 0;
  is_null_value = false;
  length_of = none;
  is_unsigned = false;
}

pub record MySqlPreparedStatement : Type 0 where
  pub param_count : ℕ
  pub param_assign_flag : List Bool
  pub bind : List MySqlBind
  pub sql_string : Bytes
  -- what `_pStmt` points to, once there is one
  pub stmt : Option PreparedStatement

-- The constructor, for the number of parameters that the client library counts.
unfoldable pub new_statement : ℕ → Bytes → MySqlPreparedStatement
new_statement param_count sql_string = record {
  param_count = param_count;
  param_assign_flag = replicate param_count false;
  bind = replicate param_count zeroed;
  sql_string = sql_string;
  stmt = none;
}

-- `MysqlType<T>::value`.
unfoldable pub mysql_type : Integral → MysqlType
mysql_type u8 = tiny
mysql_type u16 = short
mysql_type u32 = long
mysql_type u64 = longlong
mysql_type i8 = tiny
mysql_type i16 = short
mysql_type i32 = long
mysql_type i64 = longlong

-- The bytes of a number in memory, the lowest first.
unfoldable pub bytes_of : ℕ → ℕ → Bytes
bytes_of zero n = []
bytes_of (suc w) n = n % 256 ∷ bytes_of w (n / 256)

-- `SetParameter` for a value of `w` bytes. Its type is deduced as a reference, or as `uint8_t`, so
-- `std::is_signed_v` of it is false.
unfoldable pub bind_value : MysqlType → ℕ → ℕ → MySqlBind → MySqlBind
bind_value type w n b = record b {
  buffer_type = type;
  buffer = some (bytes_of w n);
  buffer_length = 0;
  is_null_value = false;
  length_of = none;
  is_unsigned = false;
}

-- `SetParameter` for a `std::string` and for a `std::vector`; a length has 32 bits.
unfoldable pub bind_bytes : MysqlType → Bytes → MySqlBind → MySqlBind
bind_bytes type s b = record b {
  buffer_type = type;
  buffer = some (take (length s % 2 ^ 32) s);
  buffer_length = length s % 2 ^ 32;
  is_null_value = false;
  length_of = some (length s % 2 ^ 32);
}

unfoldable pub bind_null : MySqlBind → MySqlBind
bind_null b = record b {
  buffer_type = MysqlType.null;
  buffer = none;
  buffer_length = 0;
  is_null_value = true;
  length_of = none;
}

abbrev pub number_of : Bool → ℕ
number_of true = 1
number_of false = 0

-- The overload for each alternative of the variant.
unfoldable pub bound_data : StatementData → MySqlBind → MySqlBind
bound_data (flag b) = bind_value tiny 1 (number_of b)
bound_data (integral k z) =
    bind_value (mysql_type k) ((int_type k).bytes) (residue (modulus (int_type k)) z)
bound_data (float_bits n) = bind_value MysqlType.float 4 n
bound_data (double_bits n) = bind_value MysqlType.double 8 n
bound_data (text s) = bind_bytes var_string s
bound_data (bytes b) = bind_bytes blob b
bound_data nullptr = bind_null

unfoldable pub write_bind : ℕ → StatementData → Option MySqlBind → List MySqlBind → List MySqlBind
write_bind index d none binds = binds
write_bind index d (some b) binds = set binds index (bound_data d b)

-- `AssertValidIndex` and the writes.
unfoldable pub set_parameter :
    ℕ → StatementData → MySqlPreparedStatement → Run MySqlPreparedStatement
set_parameter index d s =
    if ltb index s.param_count
    then finished (record s {
      param_assign_flag = set s.param_assign_flag index true;
      bind = write_bind index d (get_elem? s.bind index) s.bind;
    })
    else stopped

-- The loop of `BindParameters`, whose position has 8 bits.
unfoldable pub bind_from :
    ℕ → List StatementData → MySqlPreparedStatement → Run MySqlPreparedStatement
bind_from position [] s = finished s
bind_from position (d ∷ ds) s = do
  s' ← set_parameter position d s
  bind_from (suc position % 2 ^ 8) ds s'

unfoldable pub bind_parameters :
    PreparedStatement → MySqlPreparedStatement → Run MySqlPreparedStatement
bind_parameters p s = bind_from 0 p.statement_data (record s { stmt = some p })

unfoldable pub clear_bind : MySqlBind → MySqlBind
clear_bind b = record b { buffer = none; length_of = none }

-- `ClearParameters`, over the `_paramCount` elements that both arrays have. The source frees a length
-- that was made by `new` with `delete[]`, which is undefined; this goes on, and Reuse says where it is defined.
unfoldable pub clear_binds : ℕ → List MySqlBind → List MySqlBind
clear_binds zero binds = binds
clear_binds (suc n) [] = []
clear_binds (suc n) (b ∷ binds) = clear_bind b ∷ clear_binds n binds

unfoldable pub clear_flags : ℕ → List Bool → List Bool
clear_flags zero flags = flags
clear_flags (suc n) [] = []
clear_flags (suc n) (f ∷ flags) = false ∷ clear_flags n flags

unfoldable pub clear_parameters : MySqlPreparedStatement → MySqlPreparedStatement
clear_parameters s = record s {
  param_assign_flag = clear_flags s.param_count s.param_assign_flag;
  bind = clear_binds s.param_count s.bind;
}

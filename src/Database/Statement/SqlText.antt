-- ===== src/Database/Statement/SqlText.antt =====
-- The text of a statement with its parameters: `ToString` of
-- Src/Common/Database/PreparedStatement.h and `GetSqlString` of
-- Src/Common/Database/MySqlPreparedStatement.cpp.
use game_project_demo.Common.{
  ℕ, suc, ◌+◌, ◌%◌, ◌^◌, ◌==◌, Bool, true, false, not, Option, none, some, List, [], ◌∷◌, ◌++◌,
  Bytes, codes, length, take, drop, if◌then◌else◌, c_text, ℤ, pos, negsuc, ◌>>=◌,
}
use game_project_demo.Database.Statement.{
  StatementData, flag, integral, float_bits, double_bits, text, bytes, nullptr, PreparedStatement,
}
use game_project_demo.Database.Statement.Bind.{MySqlPreparedStatement}

-- `PreparedStatementData::ToString` for the alternatives of the variant. They come as lvalues, which
-- the template for trivial types does not take, so a number is converted to `bool` and printed
-- through `uint8_t`; a text ends at its first NUL.
unfoldable pub flag_text : Bool → Bytes
flag_text true = codes "1"
flag_text false = codes "0"

unfoldable pub is_zero : ℤ → Bool
is_zero (pos n) = n == 0
is_zero (negsuc n) = false

unfoldable pub to_string : StatementData → Bytes
to_string (flag b) = flag_text b
to_string (integral k z) = flag_text (not (is_zero z))
to_string (float_bits n) = flag_text (not (n % 2 ^ 31 == 0))
to_string (double_bits n) = flag_text (not (n % 2 ^ 63 == 0))
to_string (text s) = c_text s
to_string (bytes b) = codes "BINARY"
to_string nullptr = codes "NULL"

-- `std::string::find` of a question mark, from a position; `none` is `npos`.
unfoldable pub find_mark : Bytes → Option ℕ
find_mark [] = none
find_mark (b ∷ bs) =
    let rest = find_mark bs in if b == 63 then some 0 else (do i ← rest; some (suc i))

unfoldable pub find_mark_from : Bytes → ℕ → Option ℕ
find_mark_from sql position = do i ← find_mark (drop position sql); some (position + i)

-- `std::string::replace` of one byte.
unfoldable pub replace_one : Bytes → ℕ → Bytes → Bytes
replace_one sql position by = take position sql ++ by ++ drop (suc position) sql

-- The loop of `GetSqlString`. Without a mark, `replace` throws.
unfoldable pub replace_marks : List StatementData → ℕ → Bytes → Option Bytes
replace_marks [] position sql = some sql
replace_marks (d ∷ ds) position sql = do
  mark ← find_mark_from sql position
  replace_marks ds (mark + length (to_string d)) (replace_one sql mark (to_string d))

-- `GetSqlString`. Before a first binding `_pStmt` is null, and its use undefined: `none`. The exception of `replace`
-- is `some none`.
unfoldable pub sql_of : Option PreparedStatement → Bytes → Option (Option Bytes)
sql_of none sql = none
sql_of (some p) sql = some (replace_marks p.statement_data 0 sql)

unfoldable pub get_sql_string : MySqlPreparedStatement → Option (Option Bytes)
get_sql_string s = sql_of s.stmt s.sql_string

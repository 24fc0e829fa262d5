-- ===== src/Database/Connection/Execute.antt =====
-- `Execute` of Src/Common/Database/MysqlConnection.cpp, for a text and for a prepared statement; what
-- is told to the log is left out.
use game_project_demo.Common.{
  ℕ, zero, suc, Bool, true, false, if◌then◌else◌, Option, none, some, List, Bytes, set, get_elem?,
}
use game_project_demo.Database.{Run, stopped, unfinished, finished, ◌>>=◌}
use game_project_demo.Database.Connection.{Library, Connection, ConnectionType}
use game_project_demo.Database.Connection.Errors.{checked}
use game_project_demo.Database.Statement.{PreparedStatement}
use game_project_demo.Database.Statement.Bind.{
  MySqlPreparedStatement, bind_parameters, clear_parameters,
}

-- `pMySqlPreparedStmt` as it has become.
unfoldable pub with_stmt : {W : Type 0} → ℕ → MySqlPreparedStatement → Connection W → Connection W
with_stmt index ps s = record s { stmts = set s.stmts index (some ps) }

-- `ClearParameters` of the statement that is used.
unfoldable pub cleared :
    {W : Type 0} → ℕ → Option (Option MySqlPreparedStatement) → Connection W → Connection W
cleared index (some (some ps)) s = with_stmt index (clear_parameters ps) s
cleared index (some none) s = s
cleared index none s = s

unfoldable pub clear_stmt : {W : Type 0} → ℕ → Connection W → Connection W
clear_stmt index s = cleared index (get_elem? s.stmts index) s

-- `GetPrepareStatement`: `none` is its failed `Assert`, and `some none` the null pointer.
abbrev pub get_prepare_statement :
    {W : Type 0} → ℕ → Connection W → Option (Option MySqlPreparedStatement)
get_prepare_statement index s = get_elem? s.stmts index

module _ {W : Type 0} (c : Library W) (max : ℕ) (stmts : List (ℕ × Bytes × ConnectionType)) where
  unfoldable pub not_executed : Connection W → Run (Bool × Connection W)
  not_executed s = finished (false, s)

  -- `Execute(std::string_view)`, for a text without NUL, since its data is passed on as a C string; each time that it
  -- calls itself costs one of the fuel.
  unfoldable pub execute : ℕ → Bytes → Connection W → Run (Bool × Connection W)
  execute zero sql s = unfinished
  execute (suc fuel) sql s =
      if s.mysql
      then checked c max stmts (execute fuel sql) not_executed
          (λ w. finished (true, record s { world = w })) (c.mysql_query sql s.world) s
      else finished (false, s)

  -- The buffers are given to the library and the statement is executed; the parameters are cleared
  -- afterwards, except where an error was handled and all is done again.
  unfoldable pub send_stmt :
      {R : Type 0}
      → (Connection W → Run R)
      → (Connection W → Run R)
      → (MySqlPreparedStatement → Connection W → Run R)
      → ℕ
      → MySqlPreparedStatement
      → Connection W
      → Run R
  send_stmt again failed done index ps s =
      checked c max stmts again (λ t. failed (clear_stmt index t))
        (λ w.
          checked c max stmts again (λ t. failed (clear_stmt index t))
            (λ v. done ps (clear_stmt index (record s { world = v })))
            (c.mysql_stmt_execute ps.sql_string w) (record s { world = w }))
        (c.mysql_stmt_bind_param ps.sql_string ps.bind s.world) s

  -- A prepared statement, once it is looked for.
  unfoldable pub execute_stmt :
      {R : Type 0}
      → (Connection W → Run R)
      → (Connection W → Run R)
      → (MySqlPreparedStatement → Connection W → Run R)
      → Option (Option MySqlPreparedStatement)
      → PreparedStatement
      → Connection W
      → Run R
  execute_stmt again failed done none p s = stopped
  execute_stmt again failed done (some none) p s = stopped
  execute_stmt again failed done (some (some ps)) p s = do
    bound ← bind_parameters p ps
    send_stmt again failed done p.index bound (with_stmt p.index bound s)

  unfoldable pub executed : MySqlPreparedStatement → Connection W → Run (Bool × Connection W)
  executed ps s = finished (true, s)

  -- `Execute(PreparedStatementBase *)`.
  unfoldable pub execute_prepared : ℕ → PreparedStatement → Connection W → Run (Bool × Connection W)
  execute_prepared zero p s = unfinished
  execute_prepared (suc fuel) p s =
      if s.mysql
      then execute_stmt (execute_prepared fuel p) not_executed executed
          (get_prepare_statement p.index s) p s
      else finished (false, s)

-- ===== src/Database/Connection/Query.antt =====
-- `Query` of Src/Common/Database/MysqlConnection.cpp, for a text and for a prepared statement, and the
-- result sets that it makes.
use game_project_demo.Common.{
  ℕ, zero, suc, ◌==◌, Bool, if◌then◌else◌, Option, none, some, List, [], ◌∷◌, Bytes,
}
use game_project_demo.Database.{Run, unfinished, finished, ◌>>=◌}
use game_project_demo.Database.Connection.{Library, Connection, ConnectionType}
use game_project_demo.Database.Connection.Errors.{checked}
use game_project_demo.Database.Connection.Execute.{get_prepare_statement, execute_stmt}
use game_project_demo.Database.Results.{ResultSet, new_result_set}
use game_project_demo.Database.Results.Buffered.{
  Memory, StmtLibrary, PreparedResultSet, new_prepared_result_set,
}
use game_project_demo.Database.Statement.{PreparedStatement}
use game_project_demo.Database.Statement.Bind.{MySqlPreparedStatement}

-- The functions of the client library that `Query` uses besides those of `Client` and of
-- `StmtLibrary`; a result is `none` for a null pointer.
pub record QueryLibrary (W R : Type 0) : Type 0 where
  pub statements : StmtLibrary W R
  pub mysql_store_result : W → Option R × W
  pub mysql_affected_rows : W → ℕ
  pub mysql_field_count : W → ℕ
  pub mysql_free_result : R → W → W
  pub mysql_stmt_result_metadata : Bytes → W → Option R × W
  pub mysql_stmt_field_count : Bytes → W → ℕ
  pub mysql_more_results : W → Bool
  pub mysql_next_result : W → W
  pub mysql_ping : W → W

-- The last arguments of the two private overloads, which they set.
pub record Queried (R : Type 0) : Type 0 where
  pub result : R
  pub row_count : ℕ
  pub field_count : ℕ

module _ {W R : Type 0} (c : Library W) (q : QueryLibrary W R) (max : ℕ)
    (stmts : List (ℕ × Bytes × ConnectionType)) where
  unfoldable pub no_result : {A : Type 0} → Connection W → Run (Option A × Connection W)
  no_result s = finished (none, s)

  -- After `mysql_store_result`.
  unfoldable pub stored : Option R × W → Connection W → Run (Option (Queried R) × Connection W)
  stored (none, w) s = finished (none, record s { world = w })
  stored (some result, w) s =
      if q.mysql_affected_rows w == 0
      then finished (none, record s { world = q.mysql_free_result result w })
      else finished (
        some (record {
          result = result;
          row_count = q.mysql_affected_rows w;
          field_count = q.mysql_field_count w;
        }),
        record s { world = w },
      )

  -- The private `Query` of a text; each time that it calls itself costs one of the fuel.
  unfoldable pub query_text : ℕ → Bytes → Connection W → Run (Option (Queried R) × Connection W)
  query_text zero sql s = unfinished
  query_text (suc fuel) sql s =
      if s.mysql
      then checked c max stmts (query_text fuel sql) no_result
          (λ w. stored (q.mysql_store_result w) s) (c.mysql_query sql s.world) s
      else finished (none, s)

  unfoldable pub result_set :
      Option (Queried R) × Connection W → Run (Option (ResultSet R) × Connection W)
  result_set (none, s) = finished (none, s)
  result_set (some r, s) = finished (
    some (
        new_result_set r.result (q.statements.mysql_fetch_fields r.result) r.row_count
          r.field_count),
    s,
  )

  -- `Query(std::string_view)`.
  unfoldable pub query : ℕ → Bytes → Connection W → Run (Option (ResultSet R) × Connection W)
  query fuel [] s = finished (none, s)
  query fuel (b ∷ bs) s = query_text fuel (b ∷ bs) s >>= result_set

  -- What the private `Query` of a prepared statement does once that is executed. The metadata may be
  -- a null pointer; what is kept of the statement is its text.
  unfoldable pub described :
      Bytes → Option R × W → Connection W → Run (Option (Bytes × Queried (Option R)) × Connection W)
  described sql (metadata, w) s = finished (
    some (
      sql,
      record {
        result = metadata;
        row_count = q.statements.mysql_stmt_num_rows sql w;
        field_count = q.mysql_stmt_field_count sql w;
      },
    ),
    record s { world = w },
  )

  unfoldable pub queried :
      MySqlPreparedStatement
      → Connection W
      → Run (Option (Bytes × Queried (Option R)) × Connection W)
  queried ps s = described ps.sql_string (q.mysql_stmt_result_metadata ps.sql_string s.world) s

  -- The private `Query` of a prepared statement.
  unfoldable pub query_stmt :
      ℕ
      → PreparedStatement
      → Connection W
      → Run (Option (Bytes × Queried (Option R)) × Connection W)
  query_stmt zero p s = unfinished
  query_stmt (suc fuel) p s =
      if s.mysql
      then execute_stmt c max stmts (query_stmt fuel p) no_result queried
          (get_prepare_statement p.index s) p s
      else finished (none, s)

  unfoldable pub next_result : W → W
  next_result w = if q.mysql_more_results w then q.mysql_next_result w else w

  unfoldable pub with_world :
      PreparedResultSet × W → Connection W → Option PreparedResultSet × Connection W
  with_world (rows, w) s = (some rows, record s { world = w })

  unfoldable pub prepared_result_set :
      Memory
      → Option (Bytes × Queried (Option R)) × Connection W
      → Run (Option PreparedResultSet × Connection W)
  prepared_result_set m (none, s) = finished (none, s)
  prepared_result_set m (some (sql, r), s) = finished (
      with_world
        (new_prepared_result_set q.statements sql m r.result r.row_count r.field_count
          (next_result s.world))
        s)

  -- `Query(PreparedStatementBase *)`; the rows are in memory that begins as `m`.
  unfoldable pub query_prepared :
      ℕ → Memory → PreparedStatement → Connection W → Run (Option PreparedResultSet × Connection W)
  query_prepared fuel m p s = query_stmt fuel p s >>= prepared_result_set m

  -- `Ping`.
  unfoldable pub ping : Connection W → Connection W
  ping s = record s { world = q.mysql_ping s.world }

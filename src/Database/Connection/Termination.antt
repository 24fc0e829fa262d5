-- ===== src/Database/Connection/Termination.antt =====
-- That `Execute` and `Query` of Src/Common/Database/MysqlConnection.cpp come to an end.
use game_project_demo.Common.{
  ℕ, suc, ◌==◌, ◌≡◌, refl, sym, subst, Option, none, some, List, [], ◌∷◌, Bytes, get_elem?,
}
use game_project_demo.Database.{finished}
use game_project_demo.Database.Connection.{Library, Connection, ConnectionType}
use game_project_demo.Database.Connection.Execute.{execute, execute_prepared}
use game_project_demo.Database.Connection.Query.{
  QueryLibrary, Queried, no_result, stored, query_text, result_set, query, described, queried,
  query_stmt, prepared_result_set, query_prepared,
}
use game_project_demo.Database.Connection.Reconnect.{Ends, bind-Ends, if-Ends, IsNull}
use game_project_demo.Database.Connection.Retry.{
  checked-Ends, stmt-Ends, execute-Ends, execute_prepared-Ends,
}
use game_project_demo.Database.Results.Buffered.{Memory}
use game_project_demo.Database.Statement.{PreparedStatement}

module _ {W R : Type 0} (c : Library W) (q : QueryLibrary W R) (max : ℕ)
    (stmts : List (ℕ × Bytes × ConnectionType)) where
  null-query_text :
      (n : ℕ) (sql : Bytes) (s : Connection W)
      → IsNull s
      → query_text c q max stmts (suc n) sql s ≡ finished (none, s)
  unfolding query_text
  null-query_text n sql s h = rw h refl

  stored-Ends :
      (p : Option R × W) (s : Connection W) → Ends (λ r. Unit {0}) (stored c q max stmts p s)
  unfolding stored
  stored-Ends (none, w) s = tt
  stored-Ends (some r, w) s =
      if-Ends (λ r. Unit {0}) (q.mysql_affected_rows w == 0) _ _ (λ e. tt) (λ e. tt)

  query_text-Ends :
      (n : ℕ) (sql : Bytes) (s : Connection W)
      → Ends (λ r. Unit {0}) (query_text c q max stmts (suc (suc n)) sql s)
  unfolding query_text no_result
  query_text-Ends n sql s =
      if-Ends (λ r. Unit {0}) s.mysql _ _
        (λ e.
          checked-Ends c max stmts (λ r. Unit) (query_text c q max stmts (suc n) sql)
            (no_result c q max stmts) (λ t. tt)
            (λ t h. subst (Ends (λ r. Unit)) (sym (null-query_text n sql t h)) tt) _
            (c.mysql_query sql s.world) s (λ w. stored-Ends (q.mysql_store_result w) s))
        (λ e. tt)

  result_set-Ends :
      (p : Option (Queried R) × Connection W) → Ends (λ r. Unit {0}) (result_set c q max stmts p)
  unfolding result_set
  result_set-Ends (none, s) = tt
  result_set-Ends (some r, s) = tt

  pub query-Ends :
      (n : ℕ) (sql : Bytes) (s : Connection W)
      → Ends (λ r. Unit {0}) (query c q max stmts (suc (suc n)) sql s)
  unfolding query
  query-Ends n [] s = tt
  query-Ends n (b ∷ bs) s =
      bind-Ends (λ r. Unit) (λ r. Unit) (query_text c q max stmts (suc (suc n)) (b ∷ bs) s)
        (result_set c q max stmts) (query_text-Ends n (b ∷ bs) s) (λ p _. result_set-Ends p)

  null-query_stmt :
      (n : ℕ) (p : PreparedStatement) (s : Connection W)
      → IsNull s
      → query_stmt c q max stmts (suc n) p s ≡ finished (none, s)
  unfolding query_stmt
  null-query_stmt n p s h = rw h refl

  described-Ends :
      (sql : Bytes) (p : Option R × W) (s : Connection W)
      → Ends (λ r. Unit {0}) (described c q max stmts sql p s)
  unfolding described
  described-Ends sql (m, w) s = tt

  query_stmt-Ends :
      (n : ℕ) (p : PreparedStatement) (s : Connection W)
      → Ends (λ r. Unit {0}) (query_stmt c q max stmts (suc (suc n)) p s)
  unfolding query_stmt no_result queried
  query_stmt-Ends n p s =
      if-Ends (λ r. Unit {0}) s.mysql _ _
        (λ e.
          stmt-Ends c max stmts (query_stmt c q max stmts (suc n) p) (no_result c q max stmts)
            (queried c q max stmts) (λ t. tt)
            (λ t h. subst (Ends (λ r. Unit)) (sym (null-query_stmt n p t h)) tt)
            (λ ps t.
              described-Ends ps.sql_string (q.mysql_stmt_result_metadata ps.sql_string t.world) t)
            (get_elem? s.stmts p.index) p s)
        (λ e. tt)

  prepared_result_set-Ends :
      (m : Memory) (p : Option (Bytes × Queried (Option R)) × Connection W)
      → Ends (λ r. Unit {0}) (prepared_result_set c q max stmts m p)
  unfolding prepared_result_set
  prepared_result_set-Ends m (none, s) = tt
  prepared_result_set-Ends m (some (sql, r), s) = tt

  pub query_prepared-Ends :
      (n : ℕ) (m : Memory) (p : PreparedStatement) (s : Connection W)
      → Ends (λ r. Unit {0}) (query_prepared c q max stmts (suc (suc n)) m p s)
  unfolding query_prepared
  query_prepared-Ends n m p s =
      bind-Ends (λ r. Unit) (λ r. Unit) (query_stmt c q max stmts (suc (suc n)) p s)
        (prepared_result_set c q max stmts m) (query_stmt-Ends n p s)
        (λ r _. prepared_result_set-Ends m r)

  -- `Execute` and `Query` come to an end, for a text and for a prepared statement, whatever the client
  -- library does: each calls itself once at most, so fuel for two calls is enough.
  pub calls-End :
      (n : ℕ) (sql : Bytes) (p : PreparedStatement) (m : Memory) (s : Connection W)
      → Ends (λ r. Unit {0}) (execute c max stmts (suc (suc n)) sql s)
        × Ends (λ r. Unit {0}) (execute_prepared c max stmts (suc (suc n)) p s)
        × Ends (λ r. Unit {0}) (query c q max stmts (suc (suc n)) sql s)
        × Ends (λ r. Unit {0}) (query_prepared c q max stmts (suc (suc n)) m p s)
  calls-End n sql p m s = (
    execute-Ends c max stmts n sql s,
    execute_prepared-Ends c max stmts n p s,
    query-Ends n sql s,
    query_prepared-Ends n m p s,
  )

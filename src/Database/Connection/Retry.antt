-- ===== src/Database/Connection/Retry.antt =====
-- `Execute` and its attempts, Src/Common/Database/MysqlConnection.cpp.
use game_project_demo.Common.{
  ℕ, suc, ◌%◌, ◌^◌, ltb, [], ◌∷◌, ◌≡◌, refl, sym, ◌∙◌, subst, Bool, true, false, Option, none, some,
  List, Bytes, get_elem?,
}
use mathlib.Core.Bool.{false≢true}
use game_project_demo.Database.{Run, finished}
use game_project_demo.Database.Connection.{Library, Connection, ConnectionType}
use game_project_demo.Database.Connection.Errors.{handle_mysql_errcode, if_handled, checked}
use game_project_demo.Database.Connection.Execute.{
  with_stmt, clear_stmt, not_executed, execute, send_stmt, execute_stmt, executed, execute_prepared,
}
use game_project_demo.Database.Statement.{StatementData, PreparedStatement}
use game_project_demo.Database.Statement.Bind.{
  MySqlPreparedStatement, bind_parameters, bind_from, set_parameter,
}
use game_project_demo.Database.Connection.Reconnect.{
  Ends, bind-Ends, if-Ends, IsNull, NullIfHandled, handle-null,
}

set-Ends :
    (i : ℕ) (d : StatementData) (s : MySqlPreparedStatement)
    → Ends (λ b. Unit {0}) (set_parameter i d s)
unfolding set_parameter
set-Ends i d s = if-Ends (λ b. Unit) (ltb i s.param_count) _ _ (λ e. tt) (λ e. tt)

bind_from-Ends :
    (ds : List StatementData) (i : ℕ) (s : MySqlPreparedStatement)
    → Ends (λ b. Unit {0}) (bind_from i ds s)
unfolding bind_from
bind_from-Ends [] i s = tt
bind_from-Ends (d ∷ ds) i s =
    bind-Ends (λ b. Unit) (λ b. Unit) (set_parameter i d s) _ (set-Ends i d s)
      (λ s' _. bind_from-Ends ds (suc i % 2 ^ 8) s')

bind_parameters-Ends :
    (p : PreparedStatement) (s : MySqlPreparedStatement)
    → Ends (λ b. Unit {0}) (bind_parameters p s)
unfolding bind_parameters
bind_parameters-Ends p s = bind_from-Ends p.statement_data 0 (record s { stmt = some p })

module _ {W : Type 0} (c : Library W) (max : ℕ) (stmts : List (ℕ × Bytes × ConnectionType)) where
  module _ {R : Type 0} (Q : R → Type 0) (again failed : Connection W → Run R)
      (fails : (s : Connection W) → Ends Q (failed s))
      (repeats : (s : Connection W) → IsNull s → Ends Q (again s)) where
    handled-Ends :
        (p : Bool × Connection W) → NullIfHandled p → Ends Q (if_handled c max stmts again failed p)
    unfolding if_handled
    handled-Ends (false, s) h = fails s
    handled-Ends (true, s) h = repeats s (h refl)

    pub failed-Ends :
        (next : W → Run R) (w : W) (s : Connection W)
        → Ends Q (checked c max stmts again failed next (false, w) s)
    unfolding checked
    failed-Ends next w s =
        bind-Ends NullIfHandled Q
          (handle_mysql_errcode c max stmts 5 (c.mysql_errno s.mysql w) (record s { world = w }))
          (if_handled c max stmts again failed)
          (handle-null c max stmts 5 (c.mysql_errno s.mysql w) (record s { world = w }))
          handled-Ends

    pub checked-Ends :
        (next : W → Run R) (p : Bool × W) (s : Connection W)
        → ((w : W) → Ends Q (next w))
        → Ends Q (checked c max stmts again failed next p s)
    unfolding checked
    checked-Ends next (true, w) s m = m w
    checked-Ends next (false, w) s m = failed-Ends next w s

  pub null-execute :
      (n : ℕ) (sql : Bytes) (s : Connection W)
      → IsNull s
      → execute c max stmts (suc n) sql s ≡ finished (false, s)
  unfolding execute
  null-execute n sql s h = rw h refl

  null-execute_prepared :
      (n : ℕ) (p : PreparedStatement) (s : Connection W)
      → IsNull s
      → execute_prepared c max stmts (suc n) p s ≡ finished (false, s)
  unfolding execute_prepared
  null-execute_prepared n p s h = rw h refl

  -- `Execute` of a text comes to an end whatever the client library does: it calls itself once at
  -- most, so fuel for two calls is enough.
  pub execute-Ends :
      (n : ℕ) (sql : Bytes) (s : Connection W)
      → Ends (λ p. Unit {0}) (execute c max stmts (suc (suc n)) sql s)
  unfolding execute not_executed
  execute-Ends n sql s =
      if-Ends (λ p. Unit {0}) s.mysql _ _
        (λ e.
          checked-Ends (λ p. Unit) (execute c max stmts (suc n) sql) (not_executed c max stmts)
            (λ t. tt) (λ t h. subst (Ends (λ p. Unit)) (sym (null-execute n sql t h)) tt) _
            (c.mysql_query sql s.world) s (λ w. tt))
        (λ e. tt)

  module _ {R : Type 0} (again failed : Connection W → Run R)
      (done : MySqlPreparedStatement → Connection W → Run R)
      (fails : (s : Connection W) → Ends (λ r. Unit {0}) (failed s))
      (repeats : (s : Connection W) → IsNull s → Ends (λ r. Unit {0}) (again s))
      (finishes : (ps : MySqlPreparedStatement) (s : Connection W)
        → Ends (λ r. Unit {0}) (done ps s)) where
    pub send-Ends :
        (index : ℕ) (ps : MySqlPreparedStatement) (s : Connection W)
        → Ends (λ r. Unit {0}) (send_stmt c max stmts again failed done index ps s)
    unfolding send_stmt
    send-Ends index ps s =
        checked-Ends (λ r. Unit) again (λ t. failed (clear_stmt index t))
          (λ t. fails (clear_stmt index t)) repeats _
          (c.mysql_stmt_bind_param ps.sql_string ps.bind s.world) s
          (λ w.
            checked-Ends (λ r. Unit) again (λ t. failed (clear_stmt index t))
              (λ t. fails (clear_stmt index t)) repeats _ (c.mysql_stmt_execute ps.sql_string w)
              (record s { world = w })
              (λ v. finishes ps (clear_stmt index (record s { world = v }))))

    pub stmt-Ends :
        (o : Option (Option MySqlPreparedStatement)) (p : PreparedStatement) (s : Connection W)
        → Ends (λ r. Unit {0}) (execute_stmt c max stmts again failed done o p s)
    unfolding execute_stmt
    stmt-Ends none p s = tt
    stmt-Ends (some none) p s = tt
    stmt-Ends (some (some ps)) p s =
        bind-Ends (λ b. Unit) (λ r. Unit) (bind_parameters p ps) _ (bind_parameters-Ends p ps)
          (λ b _. send-Ends p.index b (with_stmt p.index b s))

  -- So does `Execute` of a prepared statement, though both its calls of the client can fail.
  pub execute_prepared-Ends :
      (n : ℕ) (p : PreparedStatement) (s : Connection W)
      → Ends (λ p. Unit {0}) (execute_prepared c max stmts (suc (suc n)) p s)
  unfolding execute_prepared not_executed executed
  execute_prepared-Ends n p s =
      if-Ends (λ p. Unit {0}) s.mysql _ _
        (λ e.
          stmt-Ends (execute_prepared c max stmts (suc n) p) (not_executed c max stmts)
            (executed c max stmts) (λ t. tt)
            (λ t h. subst (Ends (λ p. Unit)) (sym (null-execute_prepared n p t h)) tt) (λ ps t. tt)
            (get_elem? s.stmts p.index) p s)
        (λ e. tt)

  -- `Execute` of a text that the server refuses the first time, on an open connection, gives false or
  -- ends the program, whatever the error was and whether or not the connection came back.
  pub failed_execute :
      (n : ℕ) (sql : Bytes) (s : Connection W)
      → s.mysql ≡ true
      → (c.mysql_query sql s.world).0 ≡ false
      → Ends (λ p. p.0 ≡ false) (execute c max stmts (suc (suc n)) sql s)
  unfolding execute not_executed
  failed_execute n sql s e f =
      if-Ends (λ p. p.0 ≡ false) s.mysql _ _ (λ _. failing (c.mysql_query sql s.world) f)
        (λ null. absurd (false≢true (sym null ∙ e)))
    where
      failing :
          (p : Bool × W)
          → p.0 ≡ false
          → Ends
              (λ q. q.0 ≡ false)
              (checked c max stmts
                (execute c max stmts (suc n) sql)
                (not_executed c max stmts)
                (λ w. finished (true, record s { world = w }))
                p
                s)
      failing (true, w) g = absurd (false≢true (sym g))
      failing (false, w) g =
          failed-Ends (λ q. q.0 ≡ false) (execute c max stmts (suc n) sql)
            (not_executed c max stmts) (λ t. refl)
            (λ t h. subst (Ends (λ q. q.0 ≡ false)) (sym (null-execute n sql t h)) refl)
            (λ v. finished (true, record s { world = v })) w s

-- ===== src/Database/Transaction/Outcome.antt =====
-- What `ExecuteTransaction` of Src/Common/Database/MysqlConnection.cpp and `TransactionTask::Execute`
-- of Src/Common/Database/SqlTask.cpp give for a transaction of texts.
use game_project_demo.Common.{
  ℕ, suc, ◌≡◌, ◌⊎◌, sym, ◌∙◌, ap, append-nil, Bool, true, false, inl, inr, if-true, List, [], ◌∷◌,
  ◌++◌, Bytes, codes,
}
use game_project_demo.Database.{Run, finished, ◌>>=◌}
use game_project_demo.Database.Connection.{Library, Connection, ConnectionType, get_last_error}
use game_project_demo.Database.Connection.Errors.{
  checked, handle_mysql_errcode, handle_kind, ErrorKind, skipped, unhandled, kind_of, if_handled,
}
use game_project_demo.Database.Connection.Execute.{execute, not_executed}
use game_project_demo.Database.Transaction.{
  Transaction, SqlElement, sql_text, begin_transaction, commit_transaction, rollback_transaction,
  execute_element, give_up, go_on, execute_queries, execute_all, execute_transaction, after_try,
  execute_task,
}

abbrev pub texts : List Bytes → List SqlElement
texts [] = []
texts (sql ∷ rest) = sql_text sql ∷ texts rest

abbrev pub at_world : {W : Type 0} → Connection W → W → Connection W
at_world s w = record s { world = w }

-- The server executes texts in turn.
abbrev pub Runs : {W : Type 0} → Library W → List Bytes → W → W → Type 0
Runs c [] w w' = w ≡ w'
Runs {W = W} c (sql ∷ rest) w w' = (v : W) × (c.mysql_query sql w ≡ (true, v)) × Runs c rest v w'

-- An error that `HandleMysqlErrcode` leaves alone.
abbrev pub IsLeft : ErrorKind → Type 0
IsLeft k = (k ≡ skipped) ⊎ (k ≡ unhandled)

module _ {W : Type 0} (c : Library W) (max : ℕ) (stmts : List (ℕ × Bytes × ConnectionType))
    (n : ℕ) where
  execute-success :
      (sql : Bytes) (s : Connection W) (w : W)
      → s.mysql ≡ true
      → c.mysql_query sql s.world ≡ (true, w)
      → execute c max stmts (suc n) sql s ≡ finished (true, at_world s w)
  unfolding execute checked
  execute-success sql s w e ran =
      if-true s.mysql _ _ e
      ∙ ap
          (λ p.
            checked c max stmts (execute c max stmts n sql) (not_executed c max stmts)
              (λ v. finished (true, record s { world = v })) p s)
          ran

  kind-left :
      (k : ErrorKind) (again : Connection W → Run (Bool × Connection W)) (s : Connection W)
      → IsLeft k
      → handle_kind c max stmts k again s ≡ finished (false, s)
  unfolding handle_kind
  kind-left k again s (inl e) = ap (λ j. handle_kind c max stmts j again s) e
  kind-left k again s (inr e) = ap (λ j. handle_kind c max stmts j again s) e

  execute-failure :
      (sql : Bytes) (s : Connection W) (w : W)
      → s.mysql ≡ true
      → c.mysql_query sql s.world ≡ (false, w)
      → IsLeft (kind_of (c.mysql_errno s.mysql w))
      → execute c max stmts (suc n) sql s ≡ finished (false, at_world s w)
  unfolding execute checked not_executed handle_mysql_errcode if_handled ◌>>=◌
  execute-failure sql s w e ran left =
      if-true s.mysql _ _ e
      ∙ ap
          (λ p.
            checked c max stmts (execute c max stmts n sql) (not_executed c max stmts)
              (λ v. finished (true, record s { world = v })) p s)
          ran
      ∙ ap
          (λ r. r >>= if_handled c max stmts (execute c max stmts n sql) (not_executed c max stmts))
          (kind-left (kind_of (c.mysql_errno s.mysql w)) _ (at_world s w) left)

  queries-Runs :
      (sqls : List Bytes) (rest : List SqlElement) (s : Connection W) (w : W)
      → s.mysql ≡ true
      → Runs c sqls s.world w
      → execute_queries c max stmts (suc n) (texts sqls ++ rest) s
        ≡ execute_queries c max stmts (suc n) rest (at_world s w)
  unfolding execute_queries execute_element go_on ◌>>=◌
  queries-Runs [] rest s w e run =
      ap (λ v. execute_queries c max stmts (suc n) rest (at_world s v)) run
  queries-Runs (sql ∷ sqls) rest s w e (v, ran, run) =
      ap
        (λ r.
          r
          >>= go_on c max stmts (suc n) (execute_queries c max stmts (suc n) (texts sqls ++ rest)))
        (execute-success sql s v e ran)
      ∙ queries-Runs sqls rest (at_world s v) w e run

  all-begin :
      (q : SqlElement) (qs : List SqlElement) (s : Connection W) (w : W)
      → s.mysql ≡ true
      → c.mysql_query (codes "START TRANSACTION") s.world ≡ (true, w)
      → execute_all c max stmts (suc n) (q ∷ qs) s
        ≡ execute_queries c max stmts (suc n) (q ∷ qs) (at_world s w)
  unfolding execute_all begin_transaction ◌>>=◌
  all-begin q qs s w e ran =
      ap (λ r. r >>= (λ p. execute_queries c max stmts (suc n) (q ∷ qs) (p.1)))
        (execute-success (codes "START TRANSACTION") s w e ran)

  queries-commit :
      (s : Connection W) (w : W)
      → s.mysql ≡ true
      → c.mysql_query (codes "COMMIT") s.world ≡ (true, w)
      → execute_queries c max stmts (suc n) [] s ≡ finished (0, at_world s w)
  unfolding execute_queries commit_transaction ◌>>=◌
  queries-commit s w e ran =
      ap (λ r. r >>= (λ p. finished (0, p.1))) (execute-success (codes "COMMIT") s w e ran)

  -- On an open connection, a transaction of texts, at least one, that the server executes from `START TRANSACTION` to
  -- `COMMIT` gives 0, with the server in the state after these, in this order, and no others.
  pub transaction_commits :
      (sql : Bytes) (sqls : List Bytes) (s : Connection W) (w0 w1 w2 : W)
      → s.mysql ≡ true
      → c.mysql_query (codes "START TRANSACTION") s.world ≡ (true, w0)
      → Runs c (sql ∷ sqls) w0 w1
      → c.mysql_query (codes "COMMIT") w1 ≡ (true, w2)
      → execute_transaction c max stmts
          (suc n)
          (record { queries = texts (sql ∷ sqls); cleaned_up = false })
          s
        ≡ finished (0, at_world s w2)
  unfolding execute_transaction
  transaction_commits sql sqls s w0 w1 w2 e began ran committed =
      all-begin (sql_text sql) (texts sqls) s w0 e began
      ∙ ap (λ l. execute_queries c max stmts (suc n) l (at_world s w0))
          (sym (append-nil (texts (sql ∷ sqls))))
      ∙ queries-Runs (sql ∷ sqls) [] (at_world s w0) w1 e ran
      ∙ queries-commit (at_world s w1) w2 e committed

  queries-failure :
      (sql : Bytes) (after : List SqlElement) (s : Connection W) (w1 w2 : W)
      → s.mysql ≡ true
      → c.mysql_query sql s.world ≡ (false, w1)
      → IsLeft (kind_of (c.mysql_errno s.mysql w1))
      → c.mysql_query (codes "ROLLBACK") w1 ≡ (true, w2)
      → execute_queries c max stmts (suc n) (sql_text sql ∷ after) s
        ≡ finished (c.mysql_errno s.mysql w2, at_world s w2)
  unfolding execute_queries execute_element go_on give_up rollback_transaction get_last_error ◌>>=◌
  queries-failure sql after s w1 w2 e failed left rolled =
      ap (λ r. r >>= go_on c max stmts (suc n) (execute_queries c max stmts (suc n) after))
        (execute-failure sql s w1 e failed left)
      ∙ ap (λ r. r >>= (λ p. finished (get_last_error c (p.1), p.1)))
          (execute-success (codes "ROLLBACK") (at_world s w1) w2 e rolled)

  begin-append :
      (before : List Bytes) (sql : Bytes) (after : List SqlElement) (s : Connection W) (w : W)
      → s.mysql ≡ true
      → c.mysql_query (codes "START TRANSACTION") s.world ≡ (true, w)
      → execute_all c max stmts (suc n) (texts before ++ (sql_text sql ∷ after)) s
        ≡ execute_queries c max stmts
            (suc n)
            (texts before ++ (sql_text sql ∷ after))
            (at_world s w)
  begin-append [] sql after s w e ran = all-begin (sql_text sql) after s w e ran
  begin-append (b ∷ bs) sql after s w e ran =
      all-begin (sql_text b) (texts bs ++ (sql_text sql ∷ after)) s w e ran

  -- A transaction of texts on an open connection: the texts up to one succeed, that one fails by an
  -- error that is left alone, as a deadlock is, and the `ROLLBACK` succeeds. If the library's error is
  -- 0 after every text that succeeds, the task gives true, at once and with nothing tried again.
  pub rolled_back_task_succeeds :
      (before : List Bytes) (sql : Bytes) (after : List SqlElement) (durations : List ℕ)
      (s : Connection W) (w0 w1 w2 w3 : W)
      → s.mysql ≡ true
      → c.mysql_query (codes "START TRANSACTION") s.world ≡ (true, w0)
      → Runs c before w0 w1
      → c.mysql_query sql w1 ≡ (false, w2)
      → IsLeft (kind_of (c.mysql_errno s.mysql w2))
      → c.mysql_query (codes "ROLLBACK") w2 ≡ (true, w3)
      → ((text : Bytes) (v w : W) → c.mysql_query text v ≡ (true, w) → c.mysql_errno s.mysql w ≡ 0)
      → execute_task c max stmts
          (suc n)
          durations
          (record { queries = texts before ++ (sql_text sql ∷ after); cleaned_up = false })
          s
        ≡ finished (
          true,
          record { queries = texts before ++ (sql_text sql ∷ after); cleaned_up = false },
          at_world s w3,
        )
  unfolding execute_task execute_transaction after_try ◌>>=◌
  rolled_back_task_succeeds before sql after durations s w0 w1 w2 w3 e began ran failed left rolled
        errors =
      let t : Transaction = record {
        queries = texts before ++ (sql_text sql ∷ after);
        cleaned_up = false;
      } in
      ap (λ r. r >>= after_try c max stmts (suc n) durations t)
        (begin-append before sql after s w0 e began
          ∙ queries-Runs before (sql_text sql ∷ after) (at_world s w0) w1 e ran
          ∙ queries-failure sql after (at_world s w1) w2 w3 e failed left rolled
          ∙ ap (λ code. finished (code, at_world s w3)) (errors (codes "ROLLBACK") w2 w3 rolled))

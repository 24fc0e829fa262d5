-- ===== src/Database/Transaction.antt =====
-- Src/Common/Database/Transaction.h and Transaction.cpp: `TransactionBase`; `ExecuteTransaction` of
-- Src/Common/Database/MysqlConnection.cpp; and the transaction tasks of Src/Common/Database/SqlTask.cpp.
pub mod Outcome
use game_project_demo.Common.{
  ℕ, zero, suc, ◌-◌, ◌^◌, Bool, true, false, ◌==◌, leb, if◌then◌else◌, Option, none, some, List, [],
  ◌∷◌, ◌++◌, length, Bytes, codes,
}
use game_project_demo.Database.{Run, stopped, unfinished, finished, ◌>>=◌}
use game_project_demo.Database.Connection.{Library, Connection, ConnectionType, get_last_error}
use game_project_demo.Database.Connection.Execute.{execute, execute_prepared}
use game_project_demo.Database.Statement.{PreparedStatement}

-- `SqlElementData`: a text, or a prepared statement with its arguments.
pub data SqlElement : Type 0 where
  sql_text : Bytes → SqlElement
  prepared : PreparedStatement → SqlElement

pub record Transaction : Type 0 where
  pub queries : List SqlElement
  pub cleaned_up : Bool

unfoldable pub new_transaction : Transaction
new_transaction = record { queries = []; cleaned_up = false }

unfoldable pub append : SqlElement → Transaction → Transaction
append item t = record t { queries = t.queries ++ item ∷ [] }

abbrev pub get_size : Transaction → ℕ
get_size t = length t.queries

-- The prepared statements that `CleanUp` deletes.
unfoldable pub deleted_by : List SqlElement → List ℕ
deleted_by [] = []
deleted_by (sql_text sql ∷ items) = deleted_by items
deleted_by (prepared p ∷ items) = p.index ∷ deleted_by items

-- `CleanUp`, with the statements that it deletes.
unfoldable pub clean_up : Transaction → List ℕ × Transaction
clean_up t =
    if t.cleaned_up
    then ([], t)
    else (deleted_by t.queries, record t { queries = []; cleaned_up = true })

abbrev pub er_lock_deadlock : ℕ
er_lock_deadlock = 1213

-- `maxRetryTimeMillSec`.
abbrev pub max_retry_time_mill_sec : ℕ
max_retry_time_mill_sec = 60000

module _ {W : Type 0} (c : Library W) (max : ℕ) (stmts : List (ℕ × Bytes × ConnectionType))
    (fuel : ℕ) where
  abbrev pub execute_text : Bytes → Connection W → Run (Bool × Connection W)
  execute_text sql s = execute c max stmts fuel sql s

  unfoldable pub begin_transaction : Connection W → Run (Bool × Connection W)
  begin_transaction s = execute_text (codes "START TRANSACTION") s

  unfoldable pub commit_transaction : Connection W → Run (Bool × Connection W)
  commit_transaction s = execute_text (codes "COMMIT") s

  unfoldable pub rollback_transaction : Connection W → Run (Bool × Connection W)
  rollback_transaction s = execute_text (codes "ROLLBACK") s

  unfoldable pub execute_element : SqlElement → Connection W → Run (Bool × Connection W)
  execute_element (sql_text sql) s = execute_text sql s
  execute_element (prepared p) s = execute_prepared c max stmts fuel p s

  -- After a statement that failed.
  unfoldable pub give_up : Connection W → Run (ℕ × Connection W)
  give_up s = do r ← rollback_transaction s; finished (get_last_error c (r.1), r.1)

  unfoldable pub go_on :
      (Connection W → Run (ℕ × Connection W)) → Bool × Connection W → Run (ℕ × Connection W)
  go_on rest (true, s) = rest s
  go_on rest (false, s) = give_up s

  -- The loop over the statements, and the `COMMIT` behind it.
  unfoldable pub execute_queries : List SqlElement → Connection W → Run (ℕ × Connection W)
  execute_queries [] s = do r ← commit_transaction s; finished (0, r.1)
  execute_queries (q ∷ qs) s = execute_element q s >>= go_on (execute_queries qs)

  -- `ExecuteTransaction`; the result for no statements is `uint32_t(-1)`.
  unfoldable pub execute_all : List SqlElement → Connection W → Run (ℕ × Connection W)
  execute_all [] s = finished (2 ^ 32 - 1, s)
  execute_all (q ∷ qs) s = do r ← begin_transaction s; execute_queries (q ∷ qs) (r.1)

  unfoldable pub execute_transaction : Transaction → Connection W → Run (ℕ × Connection W)
  execute_transaction t s = execute_all t.queries s

  -- A task's result, the transaction and the connection afterwards.
  abbrev pub TaskResult : Type 0
  TaskResult = Bool × Transaction × Connection W

  abbrev pub fail : Transaction → Connection W → Run TaskResult
  fail t s = finished (false, (clean_up t).1, s)

  unfoldable pub tried :
      Transaction → (Connection W → Run TaskResult) → ℕ × Connection W → Run TaskResult
  tried t again (zero, s) = finished (true, t, s)
  tried t again (suc errcode, s) = again s

  -- The loop over a deadlock: `durations` are the readings of the clock after each attempt.
  unfoldable pub retry : List ℕ → ℕ → Transaction → Connection W → Run TaskResult
  retry [] loop_duration t s =
      if leb loop_duration max_retry_time_mill_sec
      then execute_transaction t s >>= tried t (λ s'. unfinished)
      else fail t s
  retry (d ∷ durations) loop_duration t s =
      if leb loop_duration max_retry_time_mill_sec
      then execute_transaction t s >>= tried t (retry durations d t)
      else fail t s

  unfoldable pub after_try : List ℕ → Transaction → ℕ × Connection W → Run TaskResult
  after_try durations t (zero, s) = finished (true, t, s)
  after_try durations t (suc errcode, s) =
      if suc errcode == er_lock_deadlock then retry durations 0 t s else fail t s

  -- `TransactionTask::Execute`.
  unfoldable pub execute_task : List ℕ → Transaction → Connection W → Run TaskResult
  execute_task durations t s = execute_transaction t s >>= after_try durations t

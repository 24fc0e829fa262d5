-- ===== src/Database/Tasks.antt =====
-- Src/Common/Database/SqlTask.h and SqlTask.cpp: the tasks that a worker executes, with their promises.
-- What a task deletes in its destructor is left out.
pub mod Settled
use game_project_demo.Common.{
  ℕ, ◌==◌, Bool, true, false, if◌then◌else◌, Option, none, some, List, Bytes,
}
use game_project_demo.Async.{Future, invalid, pending, ready}
use game_project_demo.Database.{Run, stopped, finished, ◌>>=◌}
use game_project_demo.Database.Connection.{Library, Connection, ConnectionType}
use game_project_demo.Database.Connection.Execute.{execute, execute_prepared}
use game_project_demo.Database.Connection.Query.{QueryLibrary, query, query_prepared, ping}
use game_project_demo.Database.Results.{ResultLibrary, ResultSet, next_row}
use game_project_demo.Database.Results.Buffered.{Memory, PreparedResultSet}
use game_project_demo.Database.Statement.{PreparedStatement}
use game_project_demo.Database.Transaction
use game_project_demo.Database.Transaction.{Transaction}

-- A pointer to a `std::promise`: null, not set yet, or set.
pub data Promise (A : Type 0) : Type 0 where
  absent unset : Promise A
  set_to : A → Promise A

-- `set_value`, which a promise takes once.
unfoldable pub set_value : {A : Type 0} → A → Promise A → Run (Promise A)
set_value a absent = stopped
set_value a unset = finished (set_to a)
set_value a (set_to b) = stopped

-- What the future of a promise says.
unfoldable pub get_future : {A : Type 0} → Promise A → Future A
get_future absent = invalid
get_future unset = pending
get_future (set_to a) = ready a

-- The classes of tasks with what they keep; the connection is an argument of `Execute`.
pub data SqlTask (R : Type 0) : Type 0 where
  ping_task : SqlTask R
  adhoc_query_task : Bytes → Bool → Promise (Option (ResultSet R)) → SqlTask R
  prepared_query_task : PreparedStatement → Bool → Promise (Option PreparedResultSet) → SqlTask R
  transaction_task : Transaction → SqlTask R
  transaction_with_result_task : Transaction → Promise Bool → SqlTask R

unfoldable pub new_promise : {A : Type 0} → Bool → Promise A
new_promise true = unset
new_promise false = absent

-- The constructors.
unfoldable pub new_adhoc_task : {R : Type 0} → Bytes → Bool → SqlTask R
new_adhoc_task sql async = adhoc_query_task sql async (new_promise async)

unfoldable pub new_prepared_task : {R : Type 0} → PreparedStatement → Bool → SqlTask R
new_prepared_task p async = prepared_query_task p async (new_promise async)

unfoldable pub new_transaction_with_result : {R : Type 0} → Transaction → SqlTask R
new_transaction_with_result t = transaction_with_result_task t unset

unfoldable pub first_row : {R : Type 0} → Bool × ResultSet R → Option (ResultSet R)
first_row (false, rows) = none
first_row (true, rows) = some rows

unfoldable pub prepared_given_on : Option PreparedResultSet → Option PreparedResultSet
prepared_given_on none = none
prepared_given_on (some rows) = if rows.row_count == 0 then none else some rows

abbrev pub is_some : {A : Type 0} → Option A → Bool
is_some none = false
is_some (some a) = true

module _ {W R : Type 0} (c : Library W) (q : QueryLibrary W R) (lib : ResultLibrary R) (max : ℕ)
    (stmts : List (ℕ × Bytes × ConnectionType)) (fuel : ℕ) where
  abbrev pub Executed : Type 0
  Executed = Bool × SqlTask R × Connection W

  -- The rows that are given on, from the first one: no result, no rows and a first row that is not
  -- there are all a null pointer.
  unfoldable pub given_on : Option (ResultSet R) → Run (Option (ResultSet R))
  given_on none = finished none
  given_on (some rows) =
      if rows.row_count == 0
      then finished none
      else (do r ← next_row lib rows; finished (first_row r))

  -- `ADHOCQueryTask::Execute`.
  unfoldable pub execute_adhoc :
      Bytes → Bool → Promise (Option (ResultSet R)) → Connection W → Run Executed
  execute_adhoc sql true promise s = do
    r ← query c q max stmts fuel sql s
    rows ← given_on (r.0)
    promise' ← set_value rows promise
    finished (is_some rows, adhoc_query_task sql true promise', r.1)
  execute_adhoc sql false promise s = do
    r ← execute c max stmts fuel sql s
    finished (r.0, adhoc_query_task sql false promise, r.1)

  -- `PreparedQueryTask::Execute`.
  unfoldable pub execute_prepared_query :
      Memory
      → PreparedStatement
      → Bool
      → Promise (Option PreparedResultSet)
      → Connection W
      → Run Executed
  execute_prepared_query m p true promise s = do
    r ← query_prepared c q max stmts fuel m p s
    promise' ← set_value (prepared_given_on (r.0)) promise
    finished (is_some (prepared_given_on (r.0)), prepared_query_task p true promise', r.1)
  execute_prepared_query m p false promise s = do
    r ← execute_prepared c max stmts fuel p s
    finished (r.0, prepared_query_task p false promise, r.1)

  -- `Execute` of each class, for the readings of the clock that a transaction may need.
  unfoldable pub execute_sql_task : List ℕ → Memory → SqlTask R → Connection W → Run Executed
  execute_sql_task durations m ping_task s = finished (true, ping_task, ping c q max stmts s)
  execute_sql_task durations m (adhoc_query_task sql has_result promise) s =
      execute_adhoc sql has_result promise s
  execute_sql_task durations m (prepared_query_task p has_result promise) s =
      execute_prepared_query m p has_result promise s
  execute_sql_task durations m (transaction_task t) s = do
    r ← Transaction.execute_task c max stmts fuel durations t s
    finished (r.0, transaction_task (r.1), r.2)
  execute_sql_task durations m (transaction_with_result_task t promise) s = do
    r ← Transaction.execute_task c max stmts fuel durations t s
    promise' ← set_value (r.0) promise
    finished (r.0, transaction_with_result_task (r.1) promise', r.2)

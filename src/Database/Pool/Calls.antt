-- ===== src/Database/Pool/Calls.antt =====
-- The calls of Src/Common/Database/DatabaseWorkerPool.cpp that make tasks for the workers or use a
-- synchronous connection at once.
use game_project_demo.Common.{
  ℕ, Bool, true, false, Option, none, some, List, [], ◌∷◌, ◌++◌, Bytes, length, set, get_elem?,
}
use game_project_demo.Threading.{ProducerConsumerQueue, push}
use game_project_demo.Async.{
  pending, QueryCallback, new_query_callback, TransactionCallback, new_transaction_callback,
}
use game_project_demo.Database.{Run, stopped, finished, ◌>>=◌}
use game_project_demo.Database.Connection.{Library, Connection, ConnectionType}
use game_project_demo.Database.Connection.Execute.{execute, execute_prepared}
use game_project_demo.Database.Connection.Query.{QueryLibrary, query, query_prepared}
use game_project_demo.Database.Pool.{DatabaseWorkerPool, get_free_connection_and_lock, unlock}
use game_project_demo.Database.Results.{ResultLibrary, ResultSet}
use game_project_demo.Database.Results.Buffered.{Memory, PreparedResultSet}
use game_project_demo.Database.Statement.{PreparedStatement, new_prepared}
use game_project_demo.Database.Tasks.{
  SqlTask, transaction_task, new_adhoc_task, new_prepared_task, new_transaction_with_result,
  given_on, prepared_given_on,
}
use game_project_demo.Database.Transaction.{Transaction, new_transaction}

-- A pool with its queue of tasks. A task is known by its place in `tasks`, which keeps those that were
-- made; `locks` are those of the synchronous connections.
pub record TaskPool (W R : Type 0) : Type 0 where
  pub pool : DatabaseWorkerPool W
  pub queue : ProducerConsumerQueue (Option ℕ)
  pub tasks : List (SqlTask R)
  pub locks : List Bool
  pub prepared_stmt_param_count : List ℕ

-- What a query gives, by its kind.
pub data QueryResult (R : Type 0) : Type 0 where
  rows : Option (ResultSet R) → QueryResult R
  prepared_rows : Option PreparedResultSet → QueryResult R

-- `new` and `Push`.
unfoldable pub push_task : {W R : Type 0} → SqlTask R → TaskPool W R → TaskPool W R
push_task task p = record p {
  queue = push (some (length p.tasks)) p.queue;
  tasks = p.tasks ++ task ∷ [];
}

-- `BeginTransaction`.
abbrev pub begin_pool_transaction : Transaction
begin_pool_transaction = new_transaction

unfoldable pub count_or_stop : Option ℕ → Run ℕ
count_or_stop none = stopped
count_or_stop (some n) = finished n

unfoldable pub connection_or_stop : {W : Type 0} → Option (Connection W) → Run (Connection W)
connection_or_stop none = stopped
connection_or_stop (some s) = finished s

module _ {W R : Type 0} where
  -- `AsyncExecute`.
  unfoldable pub async_execute : Bytes → TaskPool W R → TaskPool W R
  async_execute sql p = push_task (new_adhoc_task sql false) p

  unfoldable pub async_execute_prepared : PreparedStatement → TaskPool W R → TaskPool W R
  async_execute_prepared stmt p = push_task (new_prepared_task stmt false) p

  -- `AsyncQuery`, with the task whose future the callback holds.
  unfoldable pub async_query :
      Bytes → TaskPool W R → (ℕ × QueryCallback (QueryResult R)) × TaskPool W R
  async_query sql p =
      ((length p.tasks, new_query_callback false pending), push_task (new_adhoc_task sql true) p)

  unfoldable pub async_query_prepared :
      PreparedStatement → TaskPool W R → (ℕ × QueryCallback (QueryResult R)) × TaskPool W R
  async_query_prepared stmt p =
      ((length p.tasks, new_query_callback true pending), push_task (new_prepared_task stmt true) p)

  unfoldable pub commit_pool_transaction : Transaction → TaskPool W R → TaskPool W R
  commit_pool_transaction t p = push_task (transaction_task t) p

  -- `CommitTransactionWithCallback`.
  unfoldable pub commit_with_callback :
      Transaction → TaskPool W R → (ℕ × TransactionCallback) × TaskPool W R
  commit_with_callback t p = (
    (length p.tasks, new_transaction_callback pending),
    push_task (new_transaction_with_result t) p,
  )

  -- `GetPreparedStatement`; an index that is out of range is read behind the end.
  unfoldable pub get_prepared_statement : ℕ → TaskPool W R → Run PreparedStatement
  get_prepared_statement index p = do
    n ← count_or_stop (get_elem? p.prepared_stmt_param_count index)
    finished (new_prepared index n)

  -- `Close`; the locks go with their connections.
  unfoldable pub close_pool : TaskPool W R → TaskPool W R
  close_pool p = record p {
    pool = record p.pool { async_connections = []; sync_connections = [] };
    locks = [];
  }

  -- `GetFreeConnectionAndLock`, a use of the connection, and `UnLock`.
  unfoldable pub with_free_connection :
      {A : Type 0}
      → ℕ
      → (Connection W → Run (A × Connection W))
      → TaskPool W R
      → Run (A × TaskPool W R)
  with_free_connection turns action p = do
    chosen ← get_free_connection_and_lock turns p.locks
    s ← connection_or_stop (get_elem? p.pool.sync_connections (chosen.0))
    r ← action (record s { world = p.pool.world })
    finished (
      r.0,
      record p {
        pool = record p.pool {
          sync_connections = set p.pool.sync_connections (chosen.0) (r.1);
          world = r.1.world;
        };
        locks = unlock (chosen.0) (chosen.1);
      },
    )

module _ {W R : Type 0} (c : Library W) (q : QueryLibrary W R) (lib : ResultLibrary R) (max : ℕ)
    (stmts : List (ℕ × Bytes × ConnectionType)) (fuel turns : ℕ) where
  -- `SyncExecute`, which drops the result.
  unfoldable pub sync_execute : Bytes → TaskPool W R → Run (TaskPool W R)
  sync_execute sql p = do
    r ← with_free_connection turns (execute c max stmts fuel sql) p
    finished (r.1)

  unfoldable pub sync_execute_prepared : PreparedStatement → TaskPool W R → Run (TaskPool W R)
  sync_execute_prepared stmt p = do
    r ← with_free_connection turns (execute_prepared c max stmts fuel stmt) p
    finished (r.1)

  -- `SyncQuery`; the rows of a text are given from the first one on.
  unfoldable pub sync_query : Bytes → TaskPool W R → Run (Option (ResultSet R) × TaskPool W R)
  sync_query sql p = do
    r ← with_free_connection turns (query c q max stmts fuel sql) p
    given ← given_on c q lib max stmts fuel (r.0)
    finished (given, r.1)

  unfoldable pub sync_query_prepared :
      Memory → PreparedStatement → TaskPool W R → Run (Option PreparedResultSet × TaskPool W R)
  sync_query_prepared m stmt p = do
    r ← with_free_connection turns (query_prepared c q max stmts fuel m stmt) p
    finished (prepared_given_on (r.0), r.1)

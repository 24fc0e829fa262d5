-- ===== src/Database/Pool/Answered.antt =====
-- A query from the pool to its function: `AsyncQuery` of Src/Common/Database/DatabaseWorkerPool.cpp, the
-- worker of Src/Common/Database/DatabaseWorker.cpp, the task of Src/Common/Database/SqlTask.cpp and
-- `InvokeIfReady` of Src/Common/Database/QueryCallback.cpp.
use game_project_demo.Common.{
  ℕ, suc, ◌≡◌, refl, ap, ◌∙◌, not, Bool, true, false, Option, none, some, List, [], ◌∷◌, ◌++◌,
  Bytes, length, set, get_elem?, get_elem?-append, set-append,
}
use game_project_demo.Async.{
  Future, invalid, pending, ready, QueryCallback, Effects, query_then, query_call, query_when,
  query_invoke_if_ready, new_query_callback,
}
use game_project_demo.Threading.{
  push, take_front, wait_and_pop, operate, work_with, work_on, work_thread,
}
use game_project_demo.Threading.Work.{at_work}
use game_project_demo.Database.{Run, stopped, unfinished, finished, ◌>>=◌}
use game_project_demo.Database.Connection.{Library, Connection, ConnectionType}
use game_project_demo.Database.Connection.Query.{QueryLibrary, query}
use game_project_demo.Database.Connection.Reconnect.{Ends, bind-Ends}
use game_project_demo.Database.Connection.Termination.{query-Ends}
use game_project_demo.Database.Pool.Calls.{
  TaskPool, QueryResult, rows, prepared_rows, push_task, async_query,
}
use game_project_demo.Database.Results.{ResultLibrary, ResultSet}
use game_project_demo.Database.Results.Buffered.{Memory}
use game_project_demo.Database.Tasks.{
  set_to, set_value, get_future, SqlTask, ping_task, adhoc_query_task, prepared_query_task,
  transaction_task, transaction_with_result_task, new_promise, new_adhoc_task, given_on, is_some,
  execute_adhoc, execute_sql_task,
}
use game_project_demo.Database.Tasks.Settled.{given_on-Ends}

abbrev map_future : {A B : Type 0} → (A → B) → Future A → Future B
map_future f invalid = invalid
map_future f pending = pending
map_future f (ready a) = ready (f a)

-- What the future of a task says of its result.
abbrev future_of : {R : Type 0} → Option (SqlTask R) → Future (QueryResult R)
future_of none = invalid
future_of (some (adhoc_query_task sql has_result promise)) = map_future rows (get_future promise)
future_of (some (prepared_query_task p has_result promise)) =
    map_future prepared_rows (get_future promise)
future_of (some ping_task) = invalid
future_of (some (transaction_task t)) = invalid
future_of (some (transaction_with_result_task t promise)) = invalid

-- A callback that holds the future of a task, as the tasks are.
abbrev pub observed :
    {R : Type 0}
    → List (SqlTask R)
    → ℕ
    → QueryCallback (QueryResult R)
    → QueryCallback (QueryResult R)
observed tasks task callback = record callback { future = future_of (get_elem? tasks task) }

abbrev pub with_function :
    {R : Type 0} → ℕ → QueryCallback (QueryResult R) → QueryCallback (QueryResult R)
with_function f callback = record callback { callbacks = (false, f) ∷ [] }

module _ {W R : Type 0} (c : Library W) (q : QueryLibrary W R) (lib : ResultLibrary R) (max : ℕ)
    (stmts : List (ℕ × Bytes × ConnectionType)) (n : ℕ) (durations : List ℕ) (m : Memory) where
  unfoldable pub task_or_stop : Option (SqlTask R) → Run (SqlTask R)
  task_or_stop none = stopped
  task_or_stop (some t) = finished t

  -- The tasks that a worker executes, in its order, on its connection.
  unfoldable pub run_tasks :
      List ℕ → List (SqlTask R) → Connection W → Run (List (SqlTask R) × Connection W)
  run_tasks [] tasks s = finished (tasks, s)
  run_tasks (a ∷ as') tasks s = do
    t ← task_or_stop (get_elem? tasks a)
    r ← execute_sql_task c q lib max stmts (suc (suc n)) durations m t s
    run_tasks as' (set tasks a (r.1)) (r.2)

  -- The rows of a query that is made directly on the connection, and the connection afterwards.
  abbrev pub rows_of : Bytes → Connection W → Run (Option (ResultSet R) × Connection W)
  rows_of sql s = do
    r ← query c q max stmts (suc (suc n)) sql s
    o ← given_on c q lib max stmts (suc (suc n)) (r.0)
    finished (o, r.1)

  HasRows : Bytes → Connection W → Bool × SqlTask R × Connection W → Type 0
  HasRows sql s r =
      (o : Option (ResultSet R)) × (rows_of sql s ≡ finished (o, r.2))
      × (r.1 ≡ adhoc_query_task sql true (set_to o))

  given-HasRows :
      (sql : Bytes) (s : Connection W) (x : Option (ResultSet R) × Connection W)
      (given : Run (Option (ResultSet R)))
      → Ends (λ o. Unit) given
      → rows_of sql s ≡ (do o ← given; finished (o, x.1))
      → Ends (HasRows sql s) (do
        o ← given
        promise ← set_value o (new_promise true)
        finished (is_some o, adhoc_query_task sql true promise, x.1))
  unfolding set_value new_promise ◌>>=◌ HasRows
  given-HasRows sql s x stopped ends same = tt
  given-HasRows sql s x unfinished ends same = ends
  given-HasRows sql s x (finished o) ends same = (o, same, refl)

  query-HasRows :
      (sql : Bytes) (s : Connection W) (asked : Run (Option (ResultSet R) × Connection W))
      → Ends (λ r. Unit) asked
      → query c q max stmts (suc (suc n)) sql s ≡ asked
      → Ends (HasRows sql s) (do
        r ← asked
        o ← given_on c q lib max stmts (suc (suc n)) (r.0)
        promise ← set_value o (new_promise true)
        finished (is_some o, adhoc_query_task sql true promise, r.1))
  unfolding ◌>>=◌
  query-HasRows sql s stopped ends same = tt
  query-HasRows sql s unfinished ends same = ends
  query-HasRows sql s (finished x) ends same =
      given-HasRows sql s x (given_on c q lib max stmts (suc (suc n)) (x.0))
        (given_on-Ends c q lib max stmts n (x.0)) (rw same refl)

  adhoc-HasRows :
      (sql : Bytes) (s : Connection W)
      → Ends
          (HasRows sql s)
          (execute_sql_task c q lib max stmts (suc (suc n)) durations m (new_adhoc_task sql true) s)
  unfolding execute_sql_task execute_adhoc new_adhoc_task
  adhoc-HasRows sql s =
      query-HasRows sql s (query c q max stmts (suc (suc n)) sql s)
        (query-Ends c q max stmts n sql s) refl

  module _ (run : Effects (QueryCallback (QueryResult R)) (QueryResult R)) (f : ℕ) where
    -- The callback calls its function with the rows that the query gives on the connection `s`, and is complete; the
    -- connection is left as the query leaves it.
    abbrev pub IsAnswered :
        Bytes
        → Connection W
        → ℕ
        → QueryCallback (QueryResult R)
        → List (SqlTask R) × Connection W
        → Type 0
    IsAnswered sql s task callback r =
        (o : Option (ResultSet R)) × (rows_of sql s ≡ finished (o, r.1))
        × (query_invoke_if_ready run (observed (r.0) task (with_function f callback))
            ≡ some (record {
              complete = true;
              rest = record { future = invalid; is_prepared_result = false; callbacks = [] };
              added = run f (rows o);
            }))

    invoked-rows :
        (tasks : List (SqlTask R)) (task : ℕ) (sql : Bytes) (o : Option (ResultSet R))
        (s t : Connection W)
        → rows_of sql s ≡ finished (o, t)
        → get_elem? tasks task ≡ some (adhoc_query_task sql true (set_to o))
        → IsAnswered sql s task (new_query_callback false pending) (tasks, t)
    unfolding query_invoke_if_ready query_when query_call get_future
    invoked-rows tasks task sql o s t same e = (o, same, rw e refl)

    executed-IsAnswered :
        (tasks : List (SqlTask R)) (sql : Bytes) (s : Connection W)
        → Ends
            (IsAnswered sql s (length tasks) (new_query_callback false pending))
            (run_tasks (length tasks ∷ []) (tasks ++ new_adhoc_task sql true ∷ []) s)
    unfolding run_tasks task_or_stop ◌>>=◌ HasRows
    executed-IsAnswered tasks sql s =
        rw (get_elem?-append tasks [] (new_adhoc_task sql true) (length tasks) refl) (
          bind-Ends (HasRows sql s)
            (IsAnswered sql s (length tasks) (new_query_callback false pending))
            (execute_sql_task c q lib max stmts (suc (suc n)) durations m (new_adhoc_task sql true)
              s)
            _ (adhoc-HasRows sql s) (λ r h. stored_at r (h.0) (h.1) (h.2)))
      where
        stored_at :
            (r : Bool × SqlTask R × Connection W) (o : Option (ResultSet R))
            → rows_of sql s ≡ finished (o, r.2)
            → r.1 ≡ adhoc_query_task sql true (set_to o)
            → IsAnswered sql s
                (length tasks)
                (new_query_callback false pending)
                (set (tasks ++ new_adhoc_task sql true ∷ []) (length tasks) (r.1), r.2)
        stored_at r o same e = invoked-rows _ (length tasks) sql o s (r.2) same (
            rw (set-append tasks [] (new_adhoc_task sql true) (r.1) (length tasks) refl)
              (get_elem?-append tasks [] (r.1) (length tasks) refl ∙ ap some e))

    pub async_query-IsAnswered :
        (throws : ℕ → Bool) (sql : Bytes) (p : TaskPool W R) (done : List ℕ) (s : Connection W)
        → p.queue ≡ record { queue = []; shutdown = false }
        → throws ((async_query sql p).0.0) ≡ false
        → (query_then false f ((async_query sql p).0.1)
            ≡ some (with_function f ((async_query sql p).0.1)))
          × (work_thread throws (
                work_thread throws (record {
                  worker = record {
                    canceling = false;
                    running = true;
                    executed = done;
                    operation = none;
                  };
                  tasks = (async_query sql p).1.queue;
                }))
              ≡ at_work (done ++ (async_query sql p).0.0 ∷ []) [])
          × Ends
              (IsAnswered sql s ((async_query sql p).0.0) ((async_query sql p).0.1))
              (run_tasks ((async_query sql p).0.0 ∷ []) ((async_query sql p).1.tasks) s)
    unfolding async_query push_task query_then push work_thread work_on work_with wait_and_pop
        take_front operate
    async_query-IsAnswered throws sql p done s e quiet = (
      refl,
      ap
            (λ t. work_thread throws (
              work_thread throws (record {
                worker = record {
                  canceling = false;
                  running = true;
                  executed = done;
                  operation = none;
                };
                tasks = push (some (length p.tasks)) t;
              })))
            e
          ∙ ap
              (λ (b : Bool). record {
                worker = record {
                  canceling = false;
                  running = not b;
                  executed = done ++ length p.tasks ∷ [];
                  operation = none;
                };
                tasks = record { queue = []; shutdown = false };
              })
              quiet,
      executed-IsAnswered p.tasks sql s,
    )

-- ===== src/Database/Results/Tests.antt =====
-- Runs of queries and of the pool on a small client library: its state is the texts that were sent, and a
-- result is the row that was fetched last and those that are left.
use game_project_demo.Common.{
  ℕ, Bool, ◌≡◌, ◌≢◌, refl, true, false, Option, none, some, List, [], ◌∷◌, ◌++◌, Bytes, codes, map,
  pos, arith,
}
use game_project_demo.Async.{Effects, QueryCallback, query_then}
use game_project_demo.Threading.{work_thread}
use game_project_demo.Threading.Work.{at_work}
use game_project_demo.Database.{finished, ◌>>=◌}
use game_project_demo.Database.Columns.{var_string}
use game_project_demo.Database.Connection.{Library, Connection, async}
use game_project_demo.Database.Connection.Execute.{execute, execute_prepared}
use game_project_demo.Database.Connection.Query.{QueryLibrary, query, query_prepared}
use game_project_demo.Database.Connection.Reconnect.{Ends}
use game_project_demo.Database.Connection.Rows.{rows_of, query_rows}
use game_project_demo.Database.Connection.Termination.{calls-End}
use game_project_demo.Database.Pool.Answered.{
  with_function, run_tasks, IsAnswered, async_query-IsAnswered,
}
use game_project_demo.Database.Pool.Calls.{
  TaskPool, QueryResult, async_query, get_prepared_statement,
}
use game_project_demo.Database.Pool.Counts.{pool_statement_binds}
use game_project_demo.Database.Pool.Prepare.{count_params, param_count_of}
use game_project_demo.Database.Results.{MySqlField, Row, ResultLibrary}
use game_project_demo.Database.Results.Buffered.{no_row, StmtLibrary}
use game_project_demo.Database.Results.Read.{lengths_of}
use game_project_demo.Database.Statement.{flag, integral, i16, PreparedStatement}
use game_project_demo.Database.Statement.Bind.{
  MySqlPreparedStatement, new_statement, bind_parameters,
}
use game_project_demo.Database.Statement.Bound.{IsSized, bound, marked}
use game_project_demo.Database.Tasks.{new_adhoc_task, new_prepared_task, execute_sql_task}
use game_project_demo.Database.Tasks.Settled.{IsSettled, query_tasks_settle}

abbrev Result : Type 0
Result = Row × List Row

abbrev World : Type 0
World = List Bytes

abbrev client : Library World
client = record {
  mysql_init = λ w. (true, w);
  mysql_real_connect = λ w. (true, w);
  mysql_setup = λ w. w;
  mysql_close = λ w. w;
  mysql_errno = λ h w. 0;
  mysql_query = λ sql w. (true, w ++ sql ∷ []);
  mysql_stmt_init = λ w. (true, w);
  mysql_stmt_prepare = λ sql w. (true, w);
  mysql_stmt_param_count = λ sql w. 1;
  mysql_stmt_bind_param = λ sql params w. (true, w);
  mysql_stmt_execute = λ sql w. (true, w ++ sql ∷ []);
}

fetch_row : Result → Option Row × Result
fetch_row (last, []) = (none, (last, []))
fetch_row (last, row ∷ rows) = (some row, (row, rows))

abbrev library : ResultLibrary Result
library = record { mysql_fetch_row = fetch_row; mysql_fetch_lengths = λ r. some (lengths_of (r.0)) }

abbrev column : MySqlField
column = record {
  org_table = codes "t";
  table = codes "t";
  org_name = codes "a";
  name = codes "a";
  type = var_string;
  unsigned = false;
  max_length = 2;
}

abbrev two_rows : List Row
two_rows = (some (codes "ab") ∷ []) ∷ (none ∷ []) ∷ []

abbrev statements : StmtLibrary World Result
statements = record {
  mysql_time = 40;
  mysql_fetch_fields = λ r. column ∷ [];
  mysql_stmt_store_result = λ sql w. (true, w);
  mysql_stmt_num_rows = λ sql w. 0;
  mysql_stmt_bind_result = λ sql w. (true, w);
  mysql_stmt_fetch = λ sql w. (no_row, w);
  mysql_stmt_free_result = λ sql w. w;
}

abbrev queries : QueryLibrary World Result
queries = record {
  statements = statements;
  mysql_store_result = λ w. (some ([], two_rows), w);
  mysql_affected_rows = λ w. 2;
  mysql_field_count = λ w. 1;
  mysql_free_result = λ r w. w;
  mysql_stmt_result_metadata = λ sql w. (none, w);
  mysql_stmt_field_count = λ sql w. 1;
  mysql_more_results = λ w. false;
  mysql_next_result = λ w. w;
  mysql_ping = λ w. w;
}

abbrev start : Connection World
start = record {
  mysql = true;
  reconnecting = false;
  prepare_error = false;
  connect_type = async;
  stmts = [];
  world = [];
}

not_empty : two_rows ≢ []
not_empty e = cc

query_rows_example :
    (query client queries 0 [] 1 (codes "SELECT") start >>= λ p.
    rows_of client queries library 0 [] (p.0))
    ≡ finished (map some two_rows)
unfolding fetch_row
query_rows_example =
    query_rows client queries library 0 [] 0 b'S' (codes "ELECT") start (codes "SELECT" ∷ [])
      (codes "SELECT" ∷ []) ([], two_rows) two_rows refl refl refl refl not_empty (omega arith)
      ((refl, (omega arith, tt)), ((refl, (tt, tt)), tt))
      ((some (codes "ab") ∷ [], (none ∷ []) ∷ []), refl, refl, ((none ∷ [], []), refl, refl, refl))

abbrev statement : PreparedStatement
statement = record { index = 0; statement_data = integral i16 (pos 7) ∷ [] }

calls-End_example :
    Ends (λ r. Unit {0}) (execute client 0 [] 2 (codes "SELECT") start)
    × Ends (λ r. Unit {0}) (execute_prepared client 0 [] 2 statement start)
    × Ends (λ r. Unit {0}) (query client queries 0 [] 2 (codes "SELECT") start)
    × Ends (λ r. Unit {0}) (query_prepared client queries 0 [] 2 (λ x. 0) statement start)
calls-End_example = calls-End client queries 0 [] 0 (codes "SELECT") statement (λ x. 0) start

query_tasks_settle_example :
    Ends
      (λ r. IsSettled (r.0) (r.1))
      (execute_sql_task client queries library 0 [] 2 []
        (λ x. 0)
        (new_adhoc_task (codes "SELECT") true)
        start)
    × Ends
        (λ r. IsSettled (r.0) (r.1))
        (execute_sql_task client queries library 0 [] 2 []
          (λ x. 0)
          (new_prepared_task statement true)
          start)
query_tasks_settle_example =
    query_tasks_settle client queries library 0 [] 0 [] (λ x. 0) (codes "SELECT") statement start

abbrev idle : TaskPool World Result
idle = record {
  pool = record { async_connections = []; sync_connections = []; world = [] };
  queue = record { queue = []; shutdown = false };
  tasks = [];
  locks = [];
  prepared_stmt_param_count = 1 ∷ [];
}

abbrev no_effects : Effects (QueryCallback (QueryResult Result)) (QueryResult Result)
no_effects = λ f r. []

abbrev quiet : ℕ → Bool
quiet task = false

async_query-IsAnswered_example :
    (query_then false 5 ((async_query (codes "SELECT") idle).0.1)
      ≡ some (with_function 5 ((async_query (codes "SELECT") idle).0.1)))
    × (work_thread quiet (
          work_thread quiet (record {
            worker = record { canceling = false; running = true; executed = []; operation = none };
            tasks = (async_query (codes "SELECT") idle).1.queue;
          }))
        ≡ at_work ((async_query (codes "SELECT") idle).0.0 ∷ []) [])
    × Ends
        (IsAnswered client queries library 0 [] 0 []
          (λ x. 0)
          no_effects
          5
          (codes "SELECT")
          start
          ((async_query (codes "SELECT") idle).0.0)
          ((async_query (codes "SELECT") idle).0.1))
        (run_tasks client queries library 0 [] 0 []
          (λ x. 0)
          ((async_query (codes "SELECT") idle).0.0 ∷ [])
          ((async_query (codes "SELECT") idle).1.tasks)
          start)
async_query-IsAnswered_example =
    async_query-IsAnswered client queries library 0 [] 0 [] (λ x. 0) no_effects 5 quiet
      (codes "SELECT") idle [] start refl refl

abbrev made : MySqlPreparedStatement
made = new_statement 1 (codes "?")

made-IsSized : IsSized made
unfolding new_statement
made-IsSized = record { flags = refl; binds = refl }

one_counted : count_params [] (some made ∷ []) ≡ finished (1 ∷ [])
unfolding count_params param_count_of new_statement ◌>>=◌
one_counted = refl

pool_statement_binds_example :
    (get_prepared_statement 0 idle
      ≡ finished (record { index = 0; statement_data = flag false ∷ [] }))
    × (bind_parameters statement made
        ≡ finished (record made {
          param_assign_flag = marked statement.statement_data made.param_assign_flag;
          bind = bound statement.statement_data made.bind;
          stmt = some statement;
        }))
unfolding new_statement
pool_statement_binds_example =
    pool_statement_binds (some made ∷ []) idle 0 made statement.statement_data one_counted refl
      made-IsSized refl

-- ===== src/Database/Tasks/Settled.antt =====
-- The promises of the query tasks, Src/Common/Database/SqlTask.cpp.
use game_project_demo.Common.{
  ℕ, suc, ◌==◌, ◌≡◌, refl, Bool, true, false, Option, none, some, List, [], ◌∷◌, Bytes,
}
use game_project_demo.Database.{◌>>=◌}
use game_project_demo.Database.Connection.{Library, Connection, ConnectionType}
use game_project_demo.Database.Connection.Query.{QueryLibrary, query, query_prepared}
use game_project_demo.Database.Connection.Reconnect.{Ends, bind-Ends, if-Ends}
use game_project_demo.Database.Connection.Termination.{query-Ends, query_prepared-Ends}
use game_project_demo.Database.Field.{Field}
use game_project_demo.Database.Results.{
  ResultLibrary, ResultSet, Row, set_values, fields_or_stop, with_lengths, with_row, next_of,
  next_row,
}
use game_project_demo.Database.Results.Buffered.{Memory}
use game_project_demo.Database.Statement.{PreparedStatement}
use game_project_demo.Database.Tasks.{
  Promise, absent, unset, set_to, set_value, SqlTask, ping_task, adhoc_query_task,
  prepared_query_task, transaction_task, transaction_with_result_task, new_promise, new_adhoc_task,
  new_prepared_task, given_on, prepared_given_on, is_some, execute_adhoc, execute_prepared_query,
  execute_sql_task,
}

-- A promise that is set, to a result exactly if the task gave true.
abbrev pub Announces : {A : Type 0} → Bool → Promise (Option A) → Type 0
Announces b absent = ⊥
Announces b unset = ⊥
Announces b (set_to none) = b ≡ false
Announces b (set_to (some a)) = b ≡ true

abbrev pub IsSettled : {R : Type 0} → Bool → SqlTask R → Type 0
IsSettled b (adhoc_query_task sql has_result promise) = Announces b promise
IsSettled b (prepared_query_task p has_result promise) = Announces b promise
IsSettled b ping_task = Unit
IsSettled b (transaction_task t) = Unit
IsSettled b (transaction_with_result_task t promise) = Unit

set_values-Ends :
    (fs : List Field) (row : Row) (lengths : List ℕ)
    → Ends (λ r. Unit {0}) (set_values fs row lengths)
unfolding set_values
set_values-Ends [] row lengths = tt
set_values-Ends (f ∷ fs) [] lengths = tt
set_values-Ends (f ∷ fs) (v ∷ row) [] = tt
set_values-Ends (f ∷ fs) (v ∷ row) (n ∷ lengths) =
    bind-Ends (λ r. Unit) (λ r. Unit) (set_values fs row lengths) _ (set_values-Ends fs row lengths)
      (λ r _. tt)

fields_or_stop-Ends : (o : Option (List Field)) → Ends (λ r. Unit {0}) (fields_or_stop o)
unfolding fields_or_stop
fields_or_stop-Ends none = tt
fields_or_stop-Ends (some fields) = tt

module _ {R : Type 0} (lib : ResultLibrary R) where
  with_lengths-Ends :
      (row : Row) (o : Option (List ℕ)) (s : ResultSet R)
      → Ends (λ r. Unit {0}) (with_lengths lib row o s)
  unfolding with_lengths
  with_lengths-Ends row none s = tt
  with_lengths-Ends row (some lengths) s =
      bind-Ends (λ r. Unit) (λ r. Unit) (fields_or_stop s.current_row) _
        (fields_or_stop-Ends s.current_row)
        (λ fields _.
          bind-Ends (λ r. Unit) (λ r. Unit) (set_values fields row lengths) _
            (set_values-Ends fields row lengths) (λ r _. tt))

  with_row-Ends : (p : Option Row × R) (s : ResultSet R) → Ends (λ r. Unit {0}) (with_row lib p s)
  unfolding with_row
  with_row-Ends (none, r) s = tt
  with_row-Ends (some row, r) s =
      with_lengths-Ends row (lib.mysql_fetch_lengths r) (record s { result = some r })

  next_of-Ends : (o : Option R) (s : ResultSet R) → Ends (λ r. Unit {0}) (next_of lib o s)
  unfolding next_of
  next_of-Ends none s = tt
  next_of-Ends (some r) s = with_row-Ends (lib.mysql_fetch_row r) s

  next_row-Ends : (s : ResultSet R) → Ends (λ r. Unit {0}) (next_row lib s)
  unfolding next_row
  next_row-Ends s = next_of-Ends s.result s

announced : {A : Type 0} (o : Option A) → Announces (is_some o) (set_to o)
announced none = refl
announced (some a) = refl

module _ {W R : Type 0} (c : Library W) (q : QueryLibrary W R) (lib : ResultLibrary R) (max : ℕ)
    (stmts : List (ℕ × Bytes × ConnectionType)) (n : ℕ) where
  pub given_on-Ends :
      (o : Option (ResultSet R)) → Ends (λ r. Unit {0}) (given_on c q lib max stmts (suc (suc n)) o)
  unfolding given_on
  given_on-Ends none = tt
  given_on-Ends (some rows) =
      if-Ends (λ r. Unit {0}) (rows.row_count == 0) _ _ (λ e. tt)
        (λ e.
          bind-Ends (λ r. Unit) (λ r. Unit) (next_row lib rows) _ (next_row-Ends lib rows)
            (λ r _. tt))

  -- The two kinds of query task that give a result, made and then executed: the execution comes to an
  -- end with its promise set, once, and to a result exactly if the task gives true; it does so whatever
  -- the client library does, unless the program ends.
  pub query_tasks_settle :
      (durations : List ℕ) (m : Memory) (sql : Bytes) (p : PreparedStatement) (s : Connection W)
      → Ends
          (λ r. IsSettled (r.0) (r.1))
          (execute_sql_task c q lib max stmts (suc (suc n)) durations m (new_adhoc_task sql true) s)
        × Ends
            (λ r. IsSettled (r.0) (r.1))
            (execute_sql_task c q lib max stmts
              (suc (suc n))
              durations
              m
              (new_prepared_task p true)
              s)
  unfolding execute_sql_task execute_adhoc execute_prepared_query new_adhoc_task new_prepared_task
      new_promise set_value ◌>>=◌
  query_tasks_settle durations m sql p s = (
    bind-Ends (λ r. Unit) (λ r. IsSettled (r.0) (r.1)) (query c q max stmts (suc (suc n)) sql s) _
        (query-Ends c q max stmts n sql s)
        (λ r _.
          bind-Ends (λ r. Unit) (λ r. IsSettled (r.0) (r.1))
            (given_on c q lib max stmts (suc (suc n)) (r.0)) _ (given_on-Ends (r.0))
            (λ rows _. announced rows)),
    bind-Ends (λ r. Unit) (λ r. IsSettled (r.0) (r.1))
        (query_prepared c q max stmts (suc (suc n)) m p s) _
        (query_prepared-Ends c q max stmts n m p s) (λ r _. announced (prepared_given_on (r.0))),
  )

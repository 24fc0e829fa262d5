-- ===== src/Database/Tests.antt =====
-- Runs of Src/Common/Database on a small client: its state is the texts that were sent and the last
-- error, and it refuses the text "bad" with a given error.
use game_project_demo.Common.{
  ℕ, ◌≡◌, refl, sym, ap, Bool, true, false, List, [], ◌∷◌, ◌++◌, Bytes, codes, same_text, inl,
}
use mathlib.Core.Bool.{false≢true}
use game_project_demo.Common.{pos, negsuc, arith, inr}
use game_project_demo.Util.{unsigned_of, signed_of}
use game_project_demo.Util.Convert.{InRange}
use game_project_demo.Database.Field.{common_type, check_type, static_cast, of_residue}
use game_project_demo.Database.Field.Checked.{IsUsual, check_type-exact, check_type-wraps}
use game_project_demo.Database.Pool.{get_free_connection_and_lock}
use game_project_demo.Database.Pool.Choice.{first_connection_always}
use game_project_demo.Database.{finished}
use game_project_demo.Database.Connection.{Library, Connection, async}
use game_project_demo.Database.Connection.Errors.{kind_of}
use game_project_demo.Database.Connection.Execute.{execute}
use game_project_demo.Database.Connection.Reconnect.{Ends}
use game_project_demo.Database.Connection.Retry.{failed_execute}
use game_project_demo.Database.Transaction.{sql_text, execute_transaction, execute_task}
use game_project_demo.Database.Transaction.Outcome.{
  texts, at_world, transaction_commits, rolled_back_task_succeeds,
}

abbrev World : Type 0
World = List Bytes × ℕ

unfoldable answer_of : ℕ → Bytes → World → Bool → Bool × World
answer_of error sql w true = (false, (w.0, error))
answer_of error sql w false = (true, (w.0 ++ sql ∷ [], 0))

unfoldable sent : ℕ → Bytes → World → Bool × World
sent error sql w = answer_of error sql w (same_text sql (codes "bad"))

abbrev client : ℕ → Library World
client error = record {
  mysql_init = λ w. (true, w);
  mysql_real_connect = λ w. (true, w);
  mysql_setup = λ w. w;
  mysql_close = λ w. w;
  mysql_errno = λ h w. w.1;
  mysql_query = sent error;
  mysql_stmt_init = λ w. (true, w);
  mysql_stmt_prepare = λ sql w. (true, w);
  mysql_stmt_param_count = λ sql w. 0;
  mysql_stmt_bind_param = λ sql params w. (true, w);
  mysql_stmt_execute = sent error;
}

abbrev start : Connection World
start = record {
  mysql = true;
  reconnecting = false;
  prepare_error = false;
  connect_type = async;
  stmts = [];
  world = ([], 0);
}

bad_fails : (sent 2013 (codes "bad") ([], 0)).0 ≡ false
unfolding sent answer_of same_text
bad_fails = refl

failed_execute_example : Ends (λ p. p.0 ≡ false) (execute (client 2013) 0 [] 2 (codes "bad") start)
failed_execute_example = failed_execute (client 2013) 0 [] 0 (codes "bad") start refl bad_fails

transaction_commits_example :
    execute_transaction
      (client 1062)
      0
      []
      1
      (record { queries = texts (codes "a" ∷ codes "b" ∷ []); cleaned_up = false })
      start
    ≡ finished (
      0,
      at_world start (codes "START TRANSACTION" ∷ codes "a" ∷ codes "b" ∷ codes "COMMIT" ∷ [], 0),
    )
unfolding sent answer_of same_text
transaction_commits_example =
    transaction_commits (client 1062) 0 [] 0 (codes "a") (codes "b" ∷ []) start
      (codes "START TRANSACTION" ∷ [], 0)
      (codes "START TRANSACTION" ∷ codes "a" ∷ codes "b" ∷ [], 0)
      (codes "START TRANSACTION" ∷ codes "a" ∷ codes "b" ∷ codes "COMMIT" ∷ [], 0) refl refl
      (_, refl, (_, refl, refl)) refl

no_error_of :
    (error : ℕ) (sql : Bytes) (v w : World) (b : Bool)
    → answer_of error sql v b ≡ (true, w)
    → w.1 ≡ 0
unfolding answer_of
no_error_of error sql v w true e = absurd (false≢true (ap (λ p. p.0) e))
no_error_of error sql v w false e = sym (ap (λ p. p.1.1) e)

-- The last error is 0 after a success.
no_error : (sql : Bytes) (v w : World) → sent 1213 sql v ≡ (true, w) → w.1 ≡ 0
unfolding sent
no_error sql v w e = no_error_of 1213 sql v w (same_text sql (codes "bad")) e

-- A deadlock in the second text.
rolled_back_task_succeeds_example :
    execute_task
      (client 1213)
      0
      []
      1
      []
      (record {
        queries = texts (codes "a" ∷ []) ++ (sql_text (codes "bad") ∷ []);
        cleaned_up = false;
      })
      start
    ≡ finished (
      true,
      record {
        queries = texts (codes "a" ∷ []) ++ (sql_text (codes "bad") ∷ []);
        cleaned_up = false;
      },
      at_world start (codes "START TRANSACTION" ∷ codes "a" ∷ codes "ROLLBACK" ∷ [], 0),
    )
unfolding sent answer_of same_text kind_of
rolled_back_task_succeeds_example =
    rolled_back_task_succeeds (client 1213) 0 [] 0 (codes "a" ∷ []) (codes "bad") [] [] start
      (codes "START TRANSACTION" ∷ [], 0) (codes "START TRANSACTION" ∷ codes "a" ∷ [], 0)
      (codes "START TRANSACTION" ∷ codes "a" ∷ [], 1213)
      (codes "START TRANSACTION" ∷ codes "a" ∷ codes "ROLLBACK" ∷ [], 0) refl refl (_, refl, refl)
      refl (inl refl) refl no_error

unsigned32-IsUsual : IsUsual (unsigned_of 4)
unsigned32-IsUsual = inr refl

-- An 8-bit column read as a 16-bit number.
check_type-exact_example :
    (InRange (unsigned_of 2) (negsuc 0)
      → check_type (unsigned_of 2) (signed_of 1) (negsuc 0) ≡ (true, negsuc 0))
    × (¬ (InRange (unsigned_of 2) (negsuc 0))
        → check_type (unsigned_of 2) (signed_of 1) (negsuc 0) ≡ (false, pos 0))
unfolding common_type
check_type-exact_example =
    check_type-exact (unsigned_of 2) (signed_of 1) (negsuc 0) (inr refl)
      (record { top = omega arith; bottom = omega arith; sign = λ e. refl })
      (record { top = omega arith; bottom = omega arith; sign = λ e. refl }) (refl, omega arith)

-- -1 of a signed 32-bit column, read as unsigned.
check_type-wraps_example :
    check_type (unsigned_of 4) (signed_of 4) (negsuc 0)
    ≡ (true, static_cast (unsigned_of 4) (negsuc 0))
unfolding common_type
check_type-wraps_example =
    check_type-wraps (unsigned_of 4) (signed_of 4) (negsuc 0) unsigned32-IsUsual refl

wrapped : static_cast (unsigned_of 4) (negsuc 0) ≡ pos 4294967295
unfolding static_cast of_residue
wrapped = refl

-- Of two connections the locked one is given out, and not the free one.
first_connection_always_example :
    get_free_connection_and_lock 2 (true ∷ false ∷ []) ≡ finished (0, true ∷ false ∷ [])
first_connection_always_example = first_connection_always 0 true (false ∷ [])

-- ===== src/Database/Pool/Counts.antt =====
-- The table that `PrepareStatements` of Src/Common/Database/DatabaseWorkerPool.cpp makes, used by
-- `GetPreparedStatement` and by the binding of parameters.
use game_project_demo.Common.{
  ℕ, zero, suc, ◌%◌, ◌^◌, ◌<◌, ◌≡◌, refl, sym, ap, ◌∙◌, Bool, true, false, Option, some, List, [],
  ◌∷◌, length, replicate, get_elem?, ltb, le→leb, ltb→lt, if◌then◌else◌, arith,
}
use native.Mathlib.Nat.{mod-eq_of_lt}
use game_project_demo.Database.{Run, stopped, unfinished, finished, ◌>>=◌}
use game_project_demo.Database.Pool.Calls.{TaskPool, count_or_stop, get_prepared_statement}
use game_project_demo.Database.Pool.Prepare.{param_count_of, count_params}
use game_project_demo.Database.Statement.{StatementData, flag, PreparedStatement, new_prepared}
use game_project_demo.Database.Statement.Bind.{MySqlPreparedStatement, bind_parameters}
use game_project_demo.Database.Statement.Bound.{IsSized, bound, marked, bind_parameters_lem}

>>=-eq-finished :
    {A B : Type 0} (r : Run A) (f : A → Run B) {b : B}
    → (r >>= f) ≡ finished b
    → (a : A) × (r ≡ finished a) × (f a ≡ finished b)
unfolding ◌>>=◌
>>=-eq-finished stopped f e = cc
>>=-eq-finished unfinished f e = cc
>>=-eq-finished (finished a) f e = (a, refl, e)

finished-injective : {A : Type 0} {a b : A} → finished a ≡ finished b → a ≡ b
finished-injective e = cc

counted :
    (m n : ℕ) (b : Bool)
    → ltb m 255 ≡ b
    → (if b then finished (m % 2 ^ 8) else stopped) ≡ finished n
    → (n ≡ m) × (m < 255)
counted m n true small e =
    let fits : m < 255 = ltb→lt m 255 small in
    (sym (finished-injective e) ∙ mod-eq_of_lt (omega arith), fits)
counted m n false large e = cc

param_count_of-exact :
    (ps : MySqlPreparedStatement) (n : ℕ)
    → param_count_of 0 (some ps) ≡ finished n
    → (n ≡ ps.param_count) × (ps.param_count < 255)
unfolding param_count_of
param_count_of-exact ps n e = counted ps.param_count n (ltb ps.param_count 255) refl e

some-injective : {A : Type 0} {a b : A} → some a ≡ some b → a ≡ b
some-injective e = cc

count_params-exact :
    (stmts : List (Option MySqlPreparedStatement)) (counts : List ℕ) (i : ℕ)
    (ps : MySqlPreparedStatement)
    → count_params [] stmts ≡ finished counts
    → get_elem? stmts i ≡ some (some ps)
    → (get_elem? counts i ≡ some ps.param_count) × (ps.param_count < 255)
unfolding count_params
count_params-exact [] counts i ps e g = cc
count_params-exact (stmt ∷ stmts) counts zero ps e g =
    let (n, first, e') = >>=-eq-finished (param_count_of 0 stmt) _ e in
    let (rest, _, made) = >>=-eq-finished (count_params [] stmts) _ e' in
    let (exact, fits) =
      param_count_of-exact ps n (ap (param_count_of 0) (sym (some-injective g)) ∙ first) in
    (ap (λ l. get_elem? l 0) (sym (finished-injective made)) ∙ ap some exact, fits)
count_params-exact (stmt ∷ stmts) counts (suc i) ps e g =
    let (n, _, e') = >>=-eq-finished (param_count_of 0 stmt) _ e in
    let (rest, later, made) = >>=-eq-finished (count_params [] stmts) _ e' in
    let (there, fits) = count_params-exact stmts rest i ps later g in
    (ap (λ l. get_elem? l (suc i)) (sym (finished-injective made)) ∙ there, fits)

-- After a first connection has filled the table, a statement that the pool gives for an index has a
-- value for each parameter of the connection's statement of that index, so whatever values are set in
-- their place, the binding of all of them goes through.
pub pool_statement_binds :
    {W R : Type 0} (stmts : List (Option MySqlPreparedStatement)) (p : TaskPool W R) (i : ℕ)
    (ps : MySqlPreparedStatement) (values : List StatementData)
    → count_params [] stmts ≡ finished p.prepared_stmt_param_count
    → get_elem? stmts i ≡ some (some ps)
    → IsSized ps
    → length values ≡ ps.param_count
    → (get_prepared_statement i p
        ≡ finished (record { index = i; statement_data = replicate ps.param_count (flag false) }))
      × (bind_parameters (record { index = i; statement_data = values }) ps
          ≡ finished (record ps {
            param_assign_flag = marked values ps.param_assign_flag;
            bind = bound values ps.bind;
            stmt = some (record { index = i; statement_data = values });
          }))
unfolding get_prepared_statement count_or_stop new_prepared ◌>>=◌
pool_statement_binds stmts p i ps values made found sized all =
    let (there, fits) = count_params-exact stmts p.prepared_stmt_param_count i ps made found in
    let stmt : PreparedStatement = record { index = i; statement_data = values } in
    (
      rw there refl,
      bind_parameters_lem stmt ps sized (omega (arith, all, fits))
          ∙ rw (le→leb (length values) ps.param_count (omega (arith, all))) refl,
    )

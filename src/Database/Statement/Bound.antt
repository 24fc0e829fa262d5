-- ===== src/Database/Statement/Bound.antt =====
-- `BindParameters` and `ClearParameters` of Src/Common/Database/MySqlPreparedStatement.cpp.
use game_project_demo.Common.{
  ℕ, suc, ◌+◌, ◌%◌, ◌^◌, ◌≤◌, ◌≡◌, refl, ◌∙◌, Bool, true, some, List, [], ◌∷◌, ◌++◌, length, leb,
  le→leb, lt→leb_false, lt→ltb, le→ltb_false, if◌then◌else◌, append_assoc, get_elem?-append,
  set-append, length-append, arith,
}
use native.Mathlib.Nat.{mod-eq_of_lt}
use game_project_demo.Database.{stopped, finished, ◌>>=◌}
use game_project_demo.Database.Statement.{StatementData, PreparedStatement}
use game_project_demo.Database.Statement.Bind.{
  MySqlBind, MySqlPreparedStatement, bound_data, write_bind, set_parameter, bind_from,
  bind_parameters,
}

-- The first buffers take the parameters.
abbrev pub bound : List StatementData → List MySqlBind → List MySqlBind
bound [] bs = bs
bound (d ∷ ds) [] = []
bound (d ∷ ds) (b ∷ bs) = bound_data d b ∷ bound ds bs

abbrev pub marked : {A : Type 0} → List A → List Bool → List Bool
marked [] fs = fs
marked (d ∷ ds) [] = []
marked (d ∷ ds) (f ∷ fs) = true ∷ marked ds fs

-- Both arrays have an element for each parameter.
pub record IsSized (s : MySqlPreparedStatement) : Type 0 where
  pub flags : length s.param_assign_flag ≡ s.param_count
  pub binds : length s.bind ≡ s.param_count

abbrev with_arrays : MySqlPreparedStatement → List Bool → List MySqlBind → MySqlPreparedStatement
with_arrays s flags binds = record s { param_assign_flag = flags; bind = binds }

set_parameter-next :
    (d : StatementData) (s : MySqlPreparedStatement) (i : ℕ) (done_f fs : List Bool) (f : Bool)
    (done_b bs : List MySqlBind) (b : MySqlBind)
    → i ≡ length done_f
    → i ≡ length done_b
    → i + suc (length bs) ≡ s.param_count
    → set_parameter i d (with_arrays s (done_f ++ f ∷ fs) (done_b ++ b ∷ bs))
      ≡ finished
          (with_arrays s ((done_f ++ true ∷ []) ++ fs) ((done_b ++ bound_data d b ∷ []) ++ bs))
unfolding set_parameter write_bind
set_parameter-next d s i done_f fs f done_b bs b ef eb total =
    rw
      (
        lt→ltb i s.param_count (omega arith),
        get_elem?-append done_b bs b i eb,
        set-append done_b bs b (bound_data d b) i eb,
        set-append done_f fs f true i ef,
        append_assoc done_f (true ∷ []) fs,
        append_assoc done_b (bound_data d b ∷ []) bs,
      )
      refl

set_parameter-full :
    (d : StatementData) (s : MySqlPreparedStatement) (i : ℕ)
    → s.param_count ≤ i
    → set_parameter i d s ≡ stopped
unfolding set_parameter
set_parameter-full d s i h = rw (le→ltb_false i s.param_count h) refl

leb-suc : (m n : ℕ) → leb (suc m) (suc n) ≡ leb m n
leb-suc m n = ground arith

bind_from-bound :
    (ds : List StatementData) (s : MySqlPreparedStatement) (i : ℕ) (done_f fs : List Bool)
    (done_b bs : List MySqlBind)
    → i ≡ length done_f
    → i ≡ length done_b
    → i + length bs ≡ s.param_count
    → length fs ≡ length bs
    → i + length ds ≤ 255
    → bind_from i ds (with_arrays s (done_f ++ fs) (done_b ++ bs)) ≡ (
        if leb (length ds) (length bs)
        then finished (with_arrays s (done_f ++ marked ds fs) (done_b ++ bound ds bs))
        else stopped)
unfolding bind_from ◌>>=◌
bind_from-bound [] s i done_f fs done_b bs ef eb total same small =
    rw (le→leb 0 (length bs) (omega arith)) refl
bind_from-bound (d ∷ ds) s i done_f fs done_b [] ef eb total same small =
    rw
      (
        set_parameter-full d (with_arrays s (done_f ++ fs) (done_b ++ [])) i (omega arith),
        lt→leb_false (suc (length ds)) 0 (omega arith),
      )
      refl
bind_from-bound (d ∷ ds) s i done_f [] done_b (b ∷ bs) ef eb total same small = absurd (omega arith)
bind_from-bound (d ∷ ds) s i done_f (f ∷ fs) done_b (b ∷ bs) ef eb total same small =
    rw
      (
        set_parameter-next d s i done_f fs f done_b bs b ef eb total,
        next_position,
        leb-suc (length ds) (length bs),
      )
      (bind_from-bound ds s (suc i) (done_f ++ true ∷ []) fs (done_b ++ bound_data d b ∷ []) bs
          (omega (arith, length-append done_f (true ∷ [])))
          (omega (arith, length-append done_b (bound_data d b ∷ []))) (omega arith) (omega arith)
          (omega arith)
        ∙ rw
            (
              append_assoc done_f (true ∷ []) (marked ds fs),
              append_assoc done_b (bound_data d b ∷ []) (bound ds bs),
            )
            refl)
  where
    next_position : suc i % 2 ^ 8 ≡ suc i
    next_position = mod-eq_of_lt (omega arith)

-- `BindParameters` of a statement whose arrays have an element for each parameter, and of up to 255
-- values: when there are as many parameters, each value is in the buffer of its position, the buffers
-- and the marks behind stay as they were, and the program goes on; when there are fewer, it ends.
pub bind_parameters_lem :
    (p : PreparedStatement) (s : MySqlPreparedStatement)
    → IsSized s
    → length p.statement_data ≤ 255
    → bind_parameters p s ≡ (
        if leb (length p.statement_data) s.param_count
        then finished (record s {
          param_assign_flag = marked p.statement_data s.param_assign_flag;
          bind = bound p.statement_data s.bind;
          stmt = some p;
        })
        else stopped)
unfolding bind_parameters
bind_parameters_lem p s sized small =
    bind_from-bound p.statement_data (record s { stmt = some p }) 0 [] s.param_assign_flag [] s.bind
      refl refl (omega (arith, sized.binds)) (omega (arith, sized.flags, sized.binds)) (omega arith)
    ∙ rw sized.binds refl

-- ===== src/Database/Statement/Reuse.antt =====
-- A `MySqlPreparedStatement` of Src/Common/Database/MySqlPreparedStatement.cpp that is bound again and
-- again, as `Execute` and `Query` do.
use game_project_demo.Common.{
  ℕ, zero, suc, ◌≤◌, ◌≡◌, refl, sym, ap, ap₂, ◌∙◌, Bool, true, false, none, if◌then◌else◌, some,
  List, [], ◌∷◌, map, All, Bytes, length, replicate, length-replicate, le→leb, arith,
}
use game_project_demo.Database.{Run, stopped, finished, ◌>>=◌}
use game_project_demo.Database.Statement.{
  StatementData, flag, integral, float_bits, double_bits, text, bytes, nullptr, PreparedStatement,
}
use game_project_demo.Database.Statement.Bind.{
  MySqlBind, zeroed, MySqlPreparedStatement, new_statement, bound_data, bind_value, bind_bytes,
  bind_null, bind_parameters, clear_bind, clear_binds, clear_flags, clear_parameters,
}
use game_project_demo.Database.Columns.{var_string, blob}
use game_project_demo.Database.Statement.Bound.{bound, marked, IsSized, bind_parameters_lem}

abbrev no_lengths : List MySqlBind → Bool
no_lengths [] = true
no_lengths (b ∷ bs) = elim b.length_of [ none ↦ no_lengths bs | some n ↦ false ]

-- `ClearParameters` where it is defined: it frees the lengths with `delete[]`, which is undefined for those that texts
-- and bytes were given with `new`, and does nothing for a null pointer.
unfoldable pub clear_defined : MySqlPreparedStatement → Run MySqlPreparedStatement
clear_defined s = if no_lengths s.bind then finished (clear_parameters s) else stopped

-- A binding that is cleared afterwards, for each of the calls.
unfoldable pub use_each :
    List PreparedStatement → MySqlPreparedStatement → Run MySqlPreparedStatement
use_each [] s = finished s
use_each (p ∷ ps) s = do s' ← bind_parameters p s; s'' ← clear_defined s'; use_each ps s''

-- A number or a null pointer, for which there is no length.
abbrev pub IsPlain : StatementData → Type 0
IsPlain (text s) = ⊥
IsPlain (bytes s) = ⊥
IsPlain (flag f) = Unit
IsPlain (integral k z) = Unit
IsPlain (float_bits n) = Unit
IsPlain (double_bits n) = Unit
IsPlain nullptr = Unit

-- Nothing is left in the buffers.
abbrev pub AllCleared : List MySqlBind → Type 0
AllCleared = All (λ b. (b.buffer ≡ none) × (b.length_of ≡ none))

no_length :
    (d : StatementData) (bs : List MySqlBind)
    → IsPlain d
    → no_lengths bs ≡ true
    → no_lengths (bound_data d zeroed ∷ bs) ≡ true
unfolding bound_data bind_value bind_null
no_length (text s) bs plain h = absurd plain
no_length (bytes s) bs plain h = absurd plain
no_length (flag f) bs plain h = h
no_length (integral k z) bs plain h = h
no_length (float_bits n) bs plain h = h
no_length (double_bits n) bs plain h = h
no_length nullptr bs plain h = h

plain-no_lengths :
    (ds : List StatementData)
    → All IsPlain ds
    → no_lengths (map (λ d. bound_data d zeroed) ds) ≡ true
plain-no_lengths [] plain = refl
plain-no_lengths (d ∷ ds) (plain, plains) =
    no_length d (map (λ e. bound_data e zeroed) ds) plain (plain-no_lengths ds plains)

clear_binds-AllCleared :
    (n : ℕ) (bs : List MySqlBind) → length bs ≡ n → AllCleared (clear_binds n bs)
unfolding clear_binds clear_bind
clear_binds-AllCleared zero [] e = tt
clear_binds-AllCleared zero (b ∷ bs) e = absurd (omega arith)
clear_binds-AllCleared (suc n) [] e = absurd (omega arith)
clear_binds-AllCleared (suc n) (b ∷ bs) e =
    ((refl, refl), clear_binds-AllCleared n bs (omega arith))

zeroed-AllCleared : (n : ℕ) → AllCleared (replicate n zeroed)
zeroed-AllCleared zero = tt
zeroed-AllCleared (suc n) = ((refl, refl), zeroed-AllCleared n)

-- No buffer says that it is unsigned.
abbrev pub AllSigned : List MySqlBind → Type 0
AllSigned = All (λ b. b.is_unsigned ≡ false)

-- What a binding can find: nothing is marked, and the buffers hold nothing.
pub record IsFresh (n : ℕ) (sql : Bytes) (s : MySqlPreparedStatement) : Type 0 where
  pub count : s.param_count ≡ n
  pub flags : s.param_assign_flag ≡ replicate n false
  pub binds : length s.bind ≡ n
  pub signed : AllSigned s.bind
  pub cleared : AllCleared s.bind
  pub text_of : s.sql_string ≡ sql

bound_data-zeroed :
    (d : StatementData) (b : MySqlBind)
    → b.is_unsigned ≡ false
    → bound_data d b ≡ bound_data d zeroed
unfolding bound_data bind_value bind_bytes bind_null
bound_data-zeroed (flag f) b h = refl
bound_data-zeroed (integral k z) b h = refl
bound_data-zeroed (float_bits n) b h = refl
bound_data-zeroed (double_bits n) b h = refl
bound_data-zeroed (text s) b h =
    ap (λ u. record (bind_bytes var_string s zeroed) { is_unsigned = u }) h
bound_data-zeroed (bytes s) b h = ap (λ u. record (bind_bytes blob s zeroed) { is_unsigned = u }) h
bound_data-zeroed nullptr b h = ap (λ u. record (bind_null zeroed) { is_unsigned = u }) h

bound_data-signed :
    (d : StatementData) (b : MySqlBind)
    → b.is_unsigned ≡ false
    → (bound_data d b).is_unsigned ≡ false
unfolding bound_data bind_value bind_bytes bind_null
bound_data-signed (flag f) b h = refl
bound_data-signed (integral k z) b h = refl
bound_data-signed (float_bits n) b h = refl
bound_data-signed (double_bits n) b h = refl
bound_data-signed (text s) b h = h
bound_data-signed (bytes s) b h = h
bound_data-signed nullptr b h = h

bound-fresh :
    (ds : List StatementData) (bs : List MySqlBind)
    → length ds ≡ length bs
    → AllSigned bs
    → bound ds bs ≡ map (λ d. bound_data d zeroed) ds
bound-fresh [] [] e h = refl
bound-fresh [] (b ∷ bs) e h = absurd (omega arith)
bound-fresh (d ∷ ds) [] e h = absurd (omega arith)
bound-fresh (d ∷ ds) (b ∷ bs) e (h, hs) =
    ap₂ ◌∷◌ (bound_data-zeroed d b h) (bound-fresh ds bs (omega arith) hs)

length-marked : (ds : List StatementData) (fs : List Bool) → length (marked ds fs) ≡ length fs
length-marked [] fs = refl
length-marked (d ∷ ds) [] = refl
length-marked (d ∷ ds) (f ∷ fs) = ap suc (length-marked ds fs)

clear_binds-AllSigned : (n : ℕ) (bs : List MySqlBind) → AllSigned bs → AllSigned (clear_binds n bs)
unfolding clear_binds clear_bind
clear_binds-AllSigned zero bs h = h
clear_binds-AllSigned (suc n) [] h = tt
clear_binds-AllSigned (suc n) (b ∷ bs) (h, hs) = (h, clear_binds-AllSigned n bs hs)

length-clear_binds : (n : ℕ) (bs : List MySqlBind) → length (clear_binds n bs) ≡ length bs
unfolding clear_binds
length-clear_binds zero bs = refl
length-clear_binds (suc n) [] = refl
length-clear_binds (suc n) (b ∷ bs) = ap suc (length-clear_binds n bs)

clear_flags-all : (n : ℕ) (fs : List Bool) → length fs ≡ n → clear_flags n fs ≡ replicate n false
unfolding clear_flags
clear_flags-all zero [] e = refl
clear_flags-all zero (f ∷ fs) e = absurd (omega arith)
clear_flags-all (suc n) [] e = absurd (omega arith)
clear_flags-all (suc n) (f ∷ fs) e = ap (◌∷◌ false) (clear_flags-all n fs (omega arith))

replicate-AllSigned : (n : ℕ) → AllSigned (replicate n zeroed)
replicate-AllSigned zero = tt
replicate-AllSigned (suc n) = (refl, replicate-AllSigned n)

new-IsFresh : (n : ℕ) (sql : Bytes) → IsFresh n sql (new_statement n sql)
unfolding new_statement
new-IsFresh n sql = record {
  count = refl;
  flags = refl;
  binds = length-replicate n zeroed;
  signed = replicate-AllSigned n;
  cleared = zeroed-AllCleared n;
  text_of = refl;
}

map-AllSigned : (ds : List StatementData) → AllSigned (map (λ d. bound_data d zeroed) ds)
map-AllSigned [] = tt
map-AllSigned (d ∷ ds) = (bound_data-signed d zeroed refl, map-AllSigned ds)

length-map : (ds : List StatementData) → length (map (λ d. bound_data d zeroed) ds) ≡ length ds
length-map [] = refl
length-map (d ∷ ds) = ap suc (length-map ds)

-- What a binding of all the parameters leaves.
abbrev pub bound_statement : ℕ → Bytes → PreparedStatement → MySqlPreparedStatement
bound_statement n sql p = record {
  param_count = n;
  param_assign_flag = marked p.statement_data (replicate n false);
  bind = map (λ d. bound_data d zeroed) p.statement_data;
  sql_string = sql;
  stmt = some p;
}

abbrev pub HasAll : ℕ → PreparedStatement → Type 0
HasAll n p = length p.statement_data ≡ n

-- All the parameters, and all of them plain.
abbrev pub HasAllPlain : ℕ → PreparedStatement → Type 0
HasAllPlain n p = HasAll n p × All IsPlain p.statement_data

module _ (n : ℕ) (sql : Bytes) (small : n ≤ 255) where
  bind-IsFresh :
      (p : PreparedStatement) (s : MySqlPreparedStatement)
      → HasAll n p
      → IsFresh n sql s
      → bind_parameters p s ≡ finished (bound_statement n sql p)
  bind-IsFresh p s all f =
      bind_parameters_lem p s sized (omega (arith, all))
      ∙ rw
          (
            le→leb (length p.statement_data) s.param_count (omega (arith, all, f.count)),
            bound-fresh p.statement_data s.bind (omega (arith, all, f.binds)) f.signed,
          )
          (rw (f.count, f.flags, f.text_of) refl)
    where
      sized : IsSized s
      sized = record {
        flags = ap length f.flags ∙ length-replicate n false ∙ sym f.count;
        binds = f.binds ∙ sym f.count;
      }

  cleared-IsFresh :
      (p : PreparedStatement)
      → HasAll n p
      → IsFresh n sql (clear_parameters (bound_statement n sql p))
  unfolding clear_parameters
  cleared-IsFresh p all =
      let made = map (λ d. bound_data d zeroed) p.statement_data in
      record {
        count = refl;
        flags =
            clear_flags-all n (marked p.statement_data (replicate n false))
              (length-marked p.statement_data (replicate n false) ∙ length-replicate n false);
        binds = length-clear_binds n made ∙ length-map p.statement_data ∙ all;
        signed = clear_binds-AllSigned n made (map-AllSigned p.statement_data);
        cleared = clear_binds-AllCleared n made (length-map p.statement_data ∙ all);
        text_of = refl;
      }

  use_each-IsFresh :
      (ps : List PreparedStatement) (s : MySqlPreparedStatement)
      → All (HasAllPlain n) ps
      → IsFresh n sql s
      → (t : MySqlPreparedStatement) × (use_each ps s ≡ finished t) × IsFresh n sql t
  unfolding use_each clear_defined ◌>>=◌
  use_each-IsFresh [] s all f = (s, refl, f)
  use_each-IsFresh (p ∷ ps) s ((first, plain), all) f =
      let (t, ran, fresh) =
        use_each-IsFresh ps (clear_parameters (bound_statement n sql p)) all
          (cleared-IsFresh p first) in
      (t, rw (bind-IsFresh p s first f, plain-no_lengths p.statement_data plain) ran, fresh)

-- A statement of up to 255 parameters that are all given, and are numbers and null pointers, can be bound and cleared
-- any number of times. Each clearing is defined and leaves the statement as it was made, as far as a binding can
-- see: no buffer and no length is left and no parameter is marked. So a binding after that, of any values, comes to
-- an end, with each value in its buffer, as one on the new statement does.
pub reuse_lem :
    (n : ℕ) (sql : Bytes) (ps : List PreparedStatement) (q : PreparedStatement)
    → n ≤ 255
    → All (HasAllPlain n) ps
    → HasAll n q
    → (t : MySqlPreparedStatement) × (use_each ps (new_statement n sql) ≡ finished t)
      × IsFresh n sql t
      × (bind_parameters q t ≡ finished (bound_statement n sql q))
      × (bind_parameters q (new_statement n sql) ≡ finished (bound_statement n sql q))
reuse_lem n sql ps q small all last =
    let (t, ran, fresh) =
      use_each-IsFresh n sql small ps (new_statement n sql) all (new-IsFresh n sql) in
    (
      t,
      ran,
      fresh,
      bind-IsFresh n sql small q t last fresh,
      bind-IsFresh n sql small q (new_statement n sql) last (new-IsFresh n sql),
    )

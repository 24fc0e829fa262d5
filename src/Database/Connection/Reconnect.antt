-- ===== src/Database/Connection/Reconnect.antt =====
-- `HandleMysqlErrcode` of Src/Common/Database/MysqlConnection.cpp: what a reconnection leaves.
use game_project_demo.Common.{
  ℕ, zero, suc, ◌≡◌, ◌≢◌, refl, arith, Bool, true, false, Bool-cases, inl, inr, if◌then◌else◌,
  Option, none, some, List, [], ◌∷◌, Bytes, ltb, length,
}
use mathlib.Core.Bool.{false≢true}
use game_project_demo.Database.{Run, stopped, unfinished, finished, ◌>>=◌}
use game_project_demo.Database.Connection.{
  Library, Connection, ConnectionType, connected, initialized, open_connection, store_stmt,
  stmt_prepared, stmt_made, prepare_statement, prepare_each, resize_stmts, do_prepare_statements,
  prepare_statements, shares,
}
use game_project_demo.Database.Connection.Errors.{
  ErrorKind, server_lost, host_error, skipped, fatal, unhandled, kind_of, code_of, reprepared,
  reopened, reconnect, drop_handle, handle_kind, handle_mysql_errcode,
}
use game_project_demo.Database.Statement.Bind.{MySqlPreparedStatement, new_statement}

-- A call that comes to an end, with a result that has the property unless the program stops.
abbrev pub Ends : {A : Type 0} → (A → Type 0) → Run A → Type 0
Ends Q stopped = Unit
Ends Q unfinished = ⊥
Ends Q (finished a) = Q a

pub bind-Ends :
    {A B : Type 0} (Q : A → Type 0) (R : B → Type 0) (r : Run A) (f : A → Run B)
    → Ends Q r
    → ((a : A) → Q a → Ends R (f a))
    → Ends R (r >>= f)
unfolding ◌>>=◌
bind-Ends Q R stopped f h k = tt
bind-Ends Q R unfinished f h k = absurd h
bind-Ends Q R (finished a) f h k = k a h

-- Both branches of a test.
pub if-Ends :
    {A : Type 0} (Q : A → Type 0) (b : Bool) (x y : Run A)
    → (b ≡ true → Ends Q x)
    → (b ≡ false → Ends Q y)
    → Ends Q (if b then x else y)
if-Ends Q true x y h k = h refl
if-Ends Q false x y h k = k refl

abbrev pub IsNull : {W : Type 0} → Connection W → Type 0
IsNull s = s.mysql ≡ false

if-IsNull :
    {W : Type 0} (b : Bool) (s t : Connection W) → IsNull s → IsNull t → IsNull (if b then s else t)
if-IsNull true s t h k = h
if-IsNull false s t h k = k

-- An error that counts as handled leaves a null handle.
abbrev pub NullIfHandled : {W : Type 0} → Bool × Connection W → Type 0
NullIfHandled p = p.0 ≡ true → IsNull (p.1)

module _ {W : Type 0} (c : Library W) where
  connected-IsNull :
      (p : Bool × W) (s : Connection W) → (connected c p s).0 ≢ 0 → IsNull ((connected c p s).1)
  unfolding connected
  connected-IsNull (true, w) s h = absurd (h refl)
  connected-IsNull (false, w) s h = refl

  initialized-IsNull :
      (p : Bool × W) (s : Connection W) → (initialized c p s).0 ≢ 0 → IsNull ((initialized c p s).1)
  unfolding initialized
  initialized-IsNull (false, w) s h = refl
  initialized-IsNull (true, w) s h = connected-IsNull (c.mysql_real_connect w) s h

  -- A connection that could not be opened has a null handle.
  open-IsNull : (s : Connection W) → (open_connection c s).0 ≢ 0 → IsNull ((open_connection c s).1)
  unfolding open_connection
  open-IsNull s h = initialized-IsNull (c.mysql_init s.world) s h

  store-IsNull :
      (index : ℕ) (stmt : Option MySqlPreparedStatement) (s : Connection W)
      → IsNull s
      → Ends IsNull (store_stmt c index stmt s)
  unfolding store_stmt
  store-IsNull index stmt s h = elim (Bool-cases (ltb index (length s.stmts))) [
    | inl e ↦ rw e h
    | inr e ↦ rw e tt
  ]

  prepared-IsNull :
      (index : ℕ) (sql : Bytes) (p : Bool × W) (s : Connection W)
      → IsNull s
      → Ends IsNull (stmt_prepared c index sql p s)
  unfolding stmt_prepared
  prepared-IsNull index sql (false, w) s h = h
  prepared-IsNull index sql (true, w) s h =
      store-IsNull index (some (new_statement (c.mysql_stmt_param_count sql w) sql))
        (record s { world = w }) h

  made-IsNull :
      (index : ℕ) (sql : Bytes) (p : Bool × W) (s : Connection W)
      → IsNull s
      → Ends IsNull (stmt_made c index sql p s)
  unfolding stmt_made
  made-IsNull index sql (false, w) s h = h
  made-IsNull index sql (true, w) s h = prepared-IsNull index sql (c.mysql_stmt_prepare sql w) s h

  statement-IsNull :
      (index : ℕ) (sql : Bytes) (type : ConnectionType) (s : Connection W)
      → IsNull s
      → Ends IsNull (prepare_statement c index sql type s)
  unfolding prepare_statement
  statement-IsNull index sql type s h = elim (Bool-cases (shares s.connect_type type)) [
    | inl e ↦ rw e (made-IsNull index sql (c.mysql_stmt_init s.world) s h)
    | inr e ↦ rw e (store-IsNull index none s h)
  ]

  each-IsNull :
      (stmts : List (ℕ × Bytes × ConnectionType)) (s : Connection W)
      → IsNull s
      → Ends IsNull (prepare_each c stmts s)
  unfolding prepare_each
  each-IsNull [] s h = h
  each-IsNull ((index, sql, type) ∷ stmts) s h =
      bind-Ends IsNull IsNull (prepare_statement c index sql type s) (prepare_each c stmts)
        (statement-IsNull index sql type s h) (each-IsNull stmts)

module _ {W : Type 0} (c : Library W) (max : ℕ) (stmts : List (ℕ × Bytes × ConnectionType)) where
  prepare-IsNull :
      (s : Connection W) → IsNull s → Ends (λ p. IsNull (p.1)) (prepare_statements c max stmts s)
  unfolding prepare_statements do_prepare_statements resize_stmts
  prepare-IsNull s h =
      bind-Ends IsNull (λ p. IsNull (p.1))
        (prepare_each c stmts (if s.reconnecting then s else resize_stmts c max s)) _
        (each-IsNull c stmts (if s.reconnecting then s else resize_stmts c max s)
          (if-IsNull s.reconnecting s (resize_stmts c max s) h h))
        (λ s' k. k)

  reprepared-null :
      (p : Bool × Connection W) → IsNull (p.1) → Ends NullIfHandled (reprepared c max stmts p)
  unfolding reprepared
  reprepared-null (false, s) h = tt
  reprepared-null (true, s) h = λ e. h

  reopened-null :
      (again : Connection W → Run (Bool × Connection W)) (p : ℕ × Connection W)
      → (p.0 ≢ 0 → IsNull (p.1))
      → ((s : Connection W) → Ends NullIfHandled (again s))
      → Ends NullIfHandled (reopened c max stmts again p)
  unfolding reopened
  reopened-null again (zero, s) h k = k s
  reopened-null again (suc e, s) h k =
      bind-Ends (λ p. IsNull (p.1)) NullIfHandled (prepare_statements c max stmts s)
        (reprepared c max stmts) (prepare-IsNull s (h (λ z. omega (arith, z)))) reprepared-null

  kind-null :
      (kind : ErrorKind) (again : Connection W → Run (Bool × Connection W)) (s : Connection W)
      → ((t : Connection W) → Ends NullIfHandled (again t))
      → Ends NullIfHandled (handle_kind c max stmts kind again s)
  unfolding handle_kind reconnect
  kind-null server_lost again s k =
      let t = record (drop_handle c max stmts s) { reconnecting = true } in
      reopened-null again (open_connection c t) (open-IsNull c t) k
  kind-null host_error again s k =
      let t = record s { reconnecting = true } in
      reopened-null again (open_connection c t) (open-IsNull c t) k
  kind-null skipped again s k = λ e. absurd (false≢true e)
  kind-null fatal again s k = tt
  kind-null unhandled again s k = λ e. absurd (false≢true e)

  pub handle-null :
      (tries errcode : ℕ) (s : Connection W)
      → Ends NullIfHandled (handle_mysql_errcode c max stmts tries errcode s)
  unfolding handle_mysql_errcode
  handle-null zero errcode s = tt
  handle-null (suc tries) errcode s =
      kind-null (kind_of errcode)
        (λ t. handle_mysql_errcode c max stmts tries (code_of t.prepare_error) t) s
        (λ t. handle-null tries (code_of t.prepare_error) t)

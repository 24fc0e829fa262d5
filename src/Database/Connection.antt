-- ===== src/Database/Connection.antt =====
-- Src/Common/Database/MysqlConnection.h and MysqlConnection.cpp: `IMySqlConnection`, with the
-- prepared statements of Src/Common/Database/DatabaseImpl/LoginDatabase.cpp as an argument.
-- Texts for the log and the waits between attempts are left out.
pub mod Errors
pub mod Execute
pub mod Query
pub mod Reconnect
pub mod Retry
pub mod Termination
pub mod Rows
use game_project_demo.Common.{
  ℕ, zero, suc, Bool, true, false, not, if◌then◌else◌, Option, none, some, List, [], ◌∷◌, ◌++◌,
  length, replicate, set, take, get_elem?, Bytes, ltb, ◌-◌,
}
use game_project_demo.Database.{Run, stopped, finished, ◌>>=◌, Client}
use game_project_demo.Database.Statement.Bind.{MySqlBind, MySqlPreparedStatement, new_statement}

-- The client library, to which a prepared statement gives its buffers.
abbrev pub Library : Type 0 → Type 0
Library W = Client W (List MySqlBind)

pub data ConnectionType : Type 0 where
  async sync async_sync : ConnectionType

-- `&` of the two bit masks is not zero.
unfoldable pub shares : ConnectionType → ConnectionType → Bool
shares async sync = false
shares sync async = false
shares async async = true
shares async async_sync = true
shares sync sync = true
shares sync async_sync = true
shares async_sync b = true

pub record Connection (W : Type 0) : Type 0 where
  -- whether `_mysql` is not null
  pub mysql : Bool
  pub reconnecting : Bool
  pub prepare_error : Bool
  pub connect_type : ConnectionType
  pub stmts : List (Option MySqlPreparedStatement)
  pub world : W

-- The two constructors.
unfoldable pub new_connection : {W : Type 0} → ConnectionType → W → Connection W
new_connection type world = record {
  mysql = false;
  reconnecting = false;
  prepare_error = false;
  connect_type = type;
  stmts = [];
  world = world;
}

abbrev pub cr_unknown_error : ℕ
cr_unknown_error = 2000

module _ {W : Type 0} (c : Library W) where
  -- `mysql_real_connect` and what follows it.
  unfoldable pub connected : Bool × W → Connection W → ℕ × Connection W
  connected (true, w) s = (0, record s { mysql = true; world = c.mysql_setup w })
  connected (false, w) s =
      (c.mysql_errno false w, record s { mysql = false; world = c.mysql_close w })

  unfoldable pub initialized : Bool × W → Connection W → ℕ × Connection W
  initialized (false, w) s = (cr_unknown_error, record s { mysql = false; world = w })
  initialized (true, w) s = connected (c.mysql_real_connect w) s

  unfoldable pub open_connection : Connection W → ℕ × Connection W
  open_connection s = initialized (c.mysql_init s.world) s

  unfoldable pub close_connection : Connection W → Connection W
  close_connection s =
      if s.mysql
      then record s { mysql = false; stmts = []; world = c.mysql_close s.world }
      else record s { stmts = [] }

  unfoldable pub get_last_error : Connection W → ℕ
  get_last_error s = c.mysql_errno s.mysql s.world

  -- `_stmts[index] = ...`.
  unfoldable pub store_stmt : ℕ → Option MySqlPreparedStatement → Connection W → Run (Connection W)
  store_stmt index stmt s =
      if ltb index (length s.stmts)
      then finished (record s { stmts = set s.stmts index stmt })
      else stopped

  unfoldable pub stmt_prepared : ℕ → Bytes → Bool × W → Connection W → Run (Connection W)
  stmt_prepared index sql (false, w) s = finished (record s { prepare_error = true; world = w })
  stmt_prepared index sql (true, w) s =
      store_stmt index (some (new_statement (c.mysql_stmt_param_count sql w) sql))
        (record s { world = w })

  unfoldable pub stmt_made : ℕ → Bytes → Bool × W → Connection W → Run (Connection W)
  stmt_made index sql (false, w) s = finished (record s { prepare_error = true; world = w })
  stmt_made index sql (true, w) s = stmt_prepared index sql (c.mysql_stmt_prepare sql w) s

  unfoldable pub prepare_statement : ℕ → Bytes → ConnectionType → Connection W → Run (Connection W)
  prepare_statement index sql conn_type s =
      if shares s.connect_type conn_type
      then stmt_made index sql (c.mysql_stmt_init s.world) s
      else store_stmt index none s

  unfoldable pub prepare_each :
      List (ℕ × Bytes × ConnectionType) → Connection W → Run (Connection W)
  prepare_each [] s = finished s
  prepare_each ((index, sql, type) ∷ stmts) s = do
    s' ← prepare_statement index sql type s
    prepare_each stmts s'

  -- `std::vector::resize` of the statements.
  unfoldable pub resize_stmts : ℕ → Connection W → Connection W
  resize_stmts n s = record s { stmts = take n s.stmts ++ replicate (n - length s.stmts) none }

  -- `DoPrepareStatements` of `LoginDatabaseConnection`, for its map of statements and their number.
  unfoldable pub do_prepare_statements :
      ℕ → List (ℕ × Bytes × ConnectionType) → Connection W → Run (Connection W)
  do_prepare_statements max stmts s =
      prepare_each stmts (if s.reconnecting then s else resize_stmts max s)

  unfoldable pub prepare_statements :
      ℕ → List (ℕ × Bytes × ConnectionType) → Connection W → Run (Bool × Connection W)
  prepare_statements max stmts s = do
    s' ← do_prepare_statements max stmts s
    finished (not s'.prepare_error, s')

-- ===== src/Database/Pool/Prepare.antt =====
-- `PrepareStatements` of Src/Common/Database/DatabaseWorkerPool.cpp, over all the connections.
use game_project_demo.Common.{
  ℕ, zero, suc, ◌%◌, ◌^◌, Bool, true, false, Option, none, some, List, [], ◌∷◌, Bytes, ltb,
  if◌then◌else◌,
}
use game_project_demo.Database.{Run, stopped, finished, ◌>>=◌}
use game_project_demo.Database.Connection.{Library, Connection, ConnectionType, prepare_statements}
use game_project_demo.Database.Pool.Calls.{TaskPool, close_pool}
use game_project_demo.Database.Statement.Bind.{MySqlPreparedStatement}

-- The entry of `_preparedStmtParamCount` for a statement: one that is not 0 stays.
unfoldable pub param_count_of : ℕ → Option MySqlPreparedStatement → Run ℕ
param_count_of (suc n) stmt = finished (suc n)
param_count_of zero none = finished 0
param_count_of zero (some ps) =
    if ltb ps.param_count 255 then finished (ps.param_count % 2 ^ 8) else stopped

-- The table, as long as the statements at least.
unfoldable pub count_params : List ℕ → List (Option MySqlPreparedStatement) → Run (List ℕ)
count_params counts [] = finished counts
count_params [] (stmt ∷ stmts) = do
  n ← param_count_of 0 stmt
  rest ← count_params [] stmts
  finished (n ∷ rest)
count_params (count ∷ counts) (stmt ∷ stmts) = do
  n ← param_count_of count stmt
  rest ← count_params counts stmts
  finished (n ∷ rest)

-- Whether all connections of a list prepared their statements, with those that did, the table and the
-- state of the library.
abbrev pub Prepared : Type 0 → Type 0
Prepared W = Bool × List (Connection W) × List ℕ × W

module _ {W : Type 0} (c : Library W) (max : ℕ) (stmts : List (ℕ × Bytes × ConnectionType)) where
  unfoldable pub prepared_before : Connection W → Prepared W → Run (Prepared W)
  prepared_before s (done, connections, counts, w) = finished (done, s ∷ connections, counts, w)

  unfoldable pub connection_prepared :
      (List ℕ → W → Run (Prepared W)) → List ℕ → Bool × Connection W → Run (Prepared W)
  connection_prepared go_on counts (false, s) = finished (false, [], counts, s.world)
  connection_prepared go_on counts (true, s) = do
    counts' ← count_params counts s.stmts
    r ← go_on counts' s.world
    prepared_before s r

  -- The inner loop.
  unfoldable pub prepare_connections : List (Connection W) → List ℕ → W → Run (Prepared W)
  prepare_connections [] counts w = finished (true, [], counts, w)
  prepare_connections (s ∷ connections) counts w = do
    r ← prepare_statements c max stmts (record s { world = w })
    connection_prepared (prepare_connections connections) counts r

abbrev unlocked : List Bool → List Bool
unlocked [] = []
unlocked (l ∷ ls) = false ∷ unlocked ls

module _ {W R : Type 0} (c : Library W) (max : ℕ) (stmts : List (ℕ × Bytes × ConnectionType)) where
  unfoldable pub sync_prepared : TaskPool W R → Prepared W → Run (Bool × TaskPool W R)
  sync_prepared p (false, connections, counts, w) = finished (
    false,
    close_pool
        (record p { pool = record p.pool { world = w }; prepared_stmt_param_count = counts }),
  )
  sync_prepared p (true, connections, counts, w) = finished (
    true,
    record p {
      pool = record p.pool { sync_connections = connections; world = w };
      locks = unlocked p.locks;
      prepared_stmt_param_count = counts;
    },
  )

  unfoldable pub async_prepared : TaskPool W R → Prepared W → Run (Bool × TaskPool W R)
  async_prepared p (false, connections, counts, w) = finished (
    false,
    close_pool
        (record p { pool = record p.pool { world = w }; prepared_stmt_param_count = counts }),
  )
  async_prepared p (true, connections, counts, w) = do
    r ← prepare_connections c max stmts p.pool.sync_connections counts w
    sync_prepared (record p { pool = record p.pool { async_connections = connections } }) r

  -- `PrepareStatements`: the asynchronous connections come first.
  unfoldable pub prepare_pool_statements : TaskPool W R → Run (Bool × TaskPool W R)
  prepare_pool_statements p = do
    r ←
        prepare_connections c max stmts p.pool.async_connections p.prepared_stmt_param_count
          p.pool.world
    async_prepared p r

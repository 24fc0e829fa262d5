-- ===== src/Database/Pool.antt =====
-- Src/Common/Database/DatabaseWorkerPool.h and DatabaseWorkerPool.cpp: the opening of the connections
-- and the choice of one.
pub mod Calls
pub mod Choice
pub mod Counts
pub mod Prepare
pub mod Answered
use game_project_demo.Common.{
  ℕ, zero, suc, ◌+◌, ◌%◌, ◌^◌, Bool, true, false, Option, none, some, List, [], ◌∷◌, ◌++◌, length,
  get_elem?, set, if◌then◌else◌,
}
use game_project_demo.Database.{Run, stopped, unfinished, finished}
use game_project_demo.Database.Connection.{
  Library, Connection, ConnectionType, async, sync, open_connection, new_connection,
}

-- The two lists of `_connections`, and the state of the client library.
pub record DatabaseWorkerPool (W : Type 0) : Type 0 where
  pub async_connections : List (Connection W)
  pub sync_connections : List (Connection W)
  pub world : W

unfoldable pub new_pool : {W : Type 0} → W → DatabaseWorkerPool W
new_pool w = record { async_connections = []; sync_connections = []; world = w }

-- The error, the connections and the state of the library.
abbrev pub Opened : Type 0 → Type 0
Opened W = ℕ × List (Connection W) × W

module _ {W : Type 0} (c : Library W) where
  -- A connection that was opened joins the others; one that was not clears them.
  unfoldable pub opened :
      (List (Connection W) → W → Opened W) → List (Connection W) → ℕ × Connection W → Opened W
  opened go_on connections (zero, s) = go_on (connections ++ s ∷ []) s.world
  opened go_on connections (suc errcode, s) = (suc errcode, [], s.world)

  -- `OpenConnections`, with the number of connections that are still to be opened.
  unfoldable pub open_connections : ConnectionType → ℕ → List (Connection W) → W → Opened W
  open_connections type zero connections w = (0, connections, w)
  open_connections type (suc count) connections w =
      opened (open_connections type count) connections (open_connection c (new_connection type w))

  unfoldable pub open_sync : ℕ → Opened W → ℕ × DatabaseWorkerPool W
  open_sync sync_thread_count (suc errcode, connections, w) =
      (suc errcode, record { async_connections = connections; sync_connections = []; world = w })
  open_sync sync_thread_count (zero, connections, w) =
      let (errcode, others, w') = open_connections sync sync_thread_count [] w in
      (errcode, record { async_connections = connections; sync_connections = others; world = w' })

  -- `Open` of a new pool.
  unfoldable pub open_pool : ℕ → ℕ → W → ℕ × DatabaseWorkerPool W
  open_pool sync_thread_count async_thread_count w =
      open_sync sync_thread_count (open_connections async async_thread_count [] w)

-- The loop of `GetFreeConnectionAndLock` over the locks of the connections, true for a locked one;
-- each round costs one of the fuel. It goes on while `pConnection` is null, from an 8-bit index;
-- `TryLock` leaves a locked connection as it is. No connection at all is a division by zero.
unfoldable pub try_lock : Run (ℕ × List Bool) → ℕ → Option Bool → List Bool → Run (ℕ × List Bool)
try_lock go_on connection none locks = stopped
try_lock go_on connection (some false) locks = finished (connection, set locks connection true)
try_lock go_on connection (some true) locks = go_on

unfoldable pub choose : ℕ → Option ℕ → ℕ → List Bool → Run (ℕ × List Bool)
choose zero connection index locks = unfinished
choose (suc fuel) (some connection) index locks = finished (connection, locks)
choose (suc fuel) none index [] = stopped
choose (suc fuel) none index (l ∷ ls) =
    let connection = index % length (l ∷ ls) in
    try_lock (choose fuel (some connection) (suc index % 2 ^ 8) (l ∷ ls)) connection
      (get_elem? (l ∷ ls) connection) (l ∷ ls)

unfoldable pub get_free_connection_and_lock : ℕ → List Bool → Run (ℕ × List Bool)
get_free_connection_and_lock fuel locks = choose fuel none 0 locks

-- `UnLock`.
unfoldable pub unlock : ℕ → List Bool → List Bool
unlock connection locks = set locks connection false

-- ===== src/Database/Pool/Choice.antt =====
-- Which connection `GetFreeConnectionAndLock` gives, and what `Open` leaves, in
-- Src/Common/Database/DatabaseWorkerPool.cpp.
use game_project_demo.Common.{
  ℕ, zero, suc, ◌+◌, ◌%◌, ◌≡◌, ◌⊎◌, inl, inr, refl, ◌∙◌, ap, Bool, true, false, some, List, [], ◌∷◌,
  ◌++◌, length, length-append, get_elem?, All, All-append, arith,
}
use game_project_demo.Database.{Run, finished}
use game_project_demo.Database.Connection.{
  Library, Connection, ConnectionType, async, sync, open_connection, new_connection, initialized,
  connected,
}
use game_project_demo.Database.Pool.{
  DatabaseWorkerPool, Opened, opened, open_connections, open_sync, open_pool, choose, try_lock,
  get_free_connection_and_lock,
}

zero_mod : (n : ℕ) → 0 % suc n ≡ 0
zero_mod n = omega arith

first_try :
    (go_on : Run (ℕ × List Bool)) (l : Bool) (ls : List Bool)
    → go_on ≡ finished (0, l ∷ ls)
    → try_lock go_on 0 (some l) (l ∷ ls) ≡ finished (0, true ∷ ls)
unfolding try_lock
first_try go_on false ls e = refl
first_try go_on true ls e = e

-- Two rounds are enough for any locks, and the first connection is always the one: it is given out
-- although another caller has it locked, and although others are free.
pub first_connection_always :
    (n : ℕ) (lock : Bool) (others : List Bool)
    → get_free_connection_and_lock (suc (suc n)) (lock ∷ others) ≡ finished (0, true ∷ others)
unfolding get_free_connection_and_lock choose
first_connection_always n lock others =
    ap (λ i. try_lock (finished (i, lock ∷ others)) i (get_elem? (lock ∷ others) i) (lock ∷ others))
      (zero_mod (length others))
    ∙ first_try (finished (0, lock ∷ others)) lock others refl

abbrev pub HasType : {W : Type 0} → ConnectionType → Connection W → Type 0
HasType type s = s.connect_type ≡ type

-- What the opening of some connections leaves: all of them, or an error and none.
abbrev pub AllOrNone : {W : Type 0} → ConnectionType → ℕ → Opened W → Type 0
AllOrNone type count (zero, connections, w) =
    (length connections ≡ count) × All (HasType type) connections
AllOrNone type count (suc errcode, connections, w) = connections ≡ []

module _ {W : Type 0} (c : Library W) where
  connected-type :
      (p : Bool × W) (s : Connection W) → (connected c p s).1.connect_type ≡ s.connect_type
  unfolding connected
  connected-type (true, w) s = refl
  connected-type (false, w) s = refl

  initialized-type :
      (p : Bool × W) (s : Connection W) → (initialized c p s).1.connect_type ≡ s.connect_type
  unfolding initialized
  initialized-type (false, w) s = refl
  initialized-type (true, w) s = connected-type (c.mysql_real_connect w) s

  open-type :
      (type : ConnectionType) (w : W) → HasType type ((open_connection c (new_connection type w)).1)
  unfolding open_connection new_connection
  open-type type w = initialized-type (c.mysql_init w) (new_connection type w)

  opened-AllOrNone :
      (type : ConnectionType) (count : ℕ) (go_on : List (Connection W) → W → Opened W)
      (connections : List (Connection W)) (p : ℕ × Connection W)
      → HasType type (p.1)
      → ((more : List (Connection W)) (w : W)
          → length more ≡ suc (length connections)
          → All (HasType type) more
          → AllOrNone type count (go_on more w))
      → All (HasType type) connections
      → AllOrNone type count (opened c go_on connections p)
  unfolding opened
  opened-AllOrNone type count go_on connections (zero, s) h k all =
      k (connections ++ s ∷ []) s.world (omega (arith, length-append connections (s ∷ [])))
        (All-append (HasType type) connections (s ∷ []) all (h, tt))
  opened-AllOrNone type count go_on connections (suc e, s) h k all = refl

  open_connections-AllOrNone :
      (type : ConnectionType) (count total : ℕ) (connections : List (Connection W)) (w : W)
      → length connections + count ≡ total
      → All (HasType type) connections
      → AllOrNone type total (open_connections c type count connections w)
  unfolding open_connections
  open_connections-AllOrNone type zero total connections w e all = (omega arith, all)
  open_connections-AllOrNone type (suc count) total connections w e all =
      opened-AllOrNone type total (open_connections c type count) connections
        (open_connection c (new_connection type w)) (open-type type w)
        (λ more v longer all'.
          open_connections-AllOrNone type count total more v (omega arith) all')
        all

  abbrev pub PoolOpened : ℕ → ℕ → ℕ × DatabaseWorkerPool W → Type 0
  PoolOpened syncs asyncs (zero, p) =
      (length p.async_connections ≡ asyncs)
      × All (HasType async) p.async_connections
      × (length p.sync_connections ≡ syncs)
      × All (HasType sync) p.sync_connections
  PoolOpened syncs asyncs (suc errcode, p) =
      (p.sync_connections ≡ [])
      × ((p.async_connections ≡ []) ⊎ (length p.async_connections ≡ asyncs))

  sync_opened :
      (syncs asyncs : ℕ) (connections : List (Connection W)) (o : Opened W)
      → length connections ≡ asyncs
      → All (HasType async) connections
      → AllOrNone sync syncs o
      → PoolOpened syncs asyncs
          (o.0, record { async_connections = connections; sync_connections = o.1; world = o.2 })
  sync_opened syncs asyncs connections (zero, others, w) l all (l', all') = (l, all, l', all')
  sync_opened syncs asyncs connections (suc e, others, w) l all none_left = (none_left, inr l)

  async_opened :
      (syncs asyncs : ℕ) (o : Opened W)
      → AllOrNone async asyncs o
      → PoolOpened syncs asyncs (open_sync c syncs o)
  unfolding open_sync
  async_opened syncs asyncs (suc e, connections, w) none_left = (refl, inl none_left)
  async_opened syncs asyncs (zero, connections, w) (l, all) =
      sync_opened syncs asyncs connections (open_connections c sync syncs [] w) l all
        (open_connections-AllOrNone sync syncs syncs [] w (omega arith) tt)

  -- The opening of a pool ends with 0 and as many connections of each kind as were asked for, or
  -- with an error, no synchronous connection, and either none or all of the asynchronous ones.
  pub open_pool_lem :
      (syncs asyncs : ℕ) (w : W) → PoolOpened syncs asyncs (open_pool c syncs asyncs w)
  unfolding open_pool
  open_pool_lem syncs asyncs w =
      async_opened syncs asyncs (open_connections c async asyncs [] w)
        (open_connections-AllOrNone async asyncs asyncs [] w (omega arith) tt)

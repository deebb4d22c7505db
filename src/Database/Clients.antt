-- ===== src/Database/Clients.antt =====
-- The clients of the pool of connections: `database_module_start`, `db_pool_get_connection` and
-- `db_pool_return_connection` in any order.
use net_serve.Prelude.{
  ℕ, zero, suc, ◌+◌, ◌≤◌, ◌<◌, ◌≡◌, Bool, true, false, none, List, [], ◌∷◌, ◌++◌, length,
  if◌then◌else◌, arith,
}
use net_serve.Config.Store.{ℤ, pos}
use net_serve.Database.{create_connection}
use net_serve.Database.Pool.{
  Data, returns, faults, gives, fill_loop, init_pool, module_start, get_connection,
  return_connection, increment,
}

fill_loop_first :
    (memory_ok : ℕ → Bool) (m : ℕ) (d : Data)
    → 0 < m
    → fill_loop memory_ok m 0 [] d
      ≡ (if memory_ok 0 then returns false (record d { connections = none }) else faults)
unfolding fill_loop create_connection
fill_loop_first memory_ok (suc m) d lt = ground arith
fill_loop_first memory_ok zero d lt = ground arith

-- With pooling enabled, a pool that is to have connections never starts: `database_module_start`
-- returns -1 without an array of connections, if memory for the array and for one connection is
-- given; without the array it returns -1, and without the connection it reads through NULL.
pub module_start_fails :
    (array_ok : Bool) (memory_ok : ℕ → Bool) (d : Data)
    → d.config.enable_pooling ≡ true
    → d.pool_initialized ≡ false
    → 0 < d.max_connections
    → module_start array_ok memory_ok d ≡ (
        if array_ok
        then (if memory_ok 0 then returns false (record d { connections = none }) else faults)
        else returns false d)
unfolding module_start init_pool
module_start_fails array_ok memory_ok d e f lt =
    ground (arith, fill_loop_first memory_ok d.max_connections d lt)

-- The pool with the numbers of the connections that clients have, the newest first.
pub record Run : Type 0 where
  pub pool : Data
  pub held : List ℤ

pub data Step (s : Run) : Run → Type 0 where
  get :
      (i : ℤ) {d : Data}
      → get_connection s.pool ≡ gives i d
      → Step s (record { pool = d; held = i ∷ s.held })
  give_back :
      (a b : List ℤ) (i : ℤ)
      → s.held ≡ a ++ i ∷ b
      → Step s (record { pool = return_connection i s.pool; held = a ++ b })

pub data Reach (s : Run) : Run → Type 0 where
  here : Reach s s
  next : {t u : Run} → Reach s t → Step t u → Reach s u

pub record IsCounted (s : Run) : Type 0 where
  pub counted : s.pool.connection_count ≡ pos (length s.held)
  pub bounded : length s.held ≤ s.pool.max_connections

-- The pool does not look at which connection comes back. In a pool with room `db_pool_get_connection`
-- gives connection n, where n is the count, and after the return of any connection c it gives
-- connection n again, also if the client that got n did not return it.
pub get_connection_again :
    (d : Data) (n : ℕ) (c : ℤ)
    → d.connection_count ≡ pos n
    → n < d.max_connections
    → (d' : Data) × (get_connection d ≡ gives (pos n) d')
      × (get_connection (return_connection c d') ≡ gives (pos n) d')
unfolding get_connection return_connection increment
get_connection_again d n c e lt =
    (record d { connection_count = pos (n + 1) }, ground (arith), ground (arith))

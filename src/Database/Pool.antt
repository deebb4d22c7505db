-- ===== src/Database/Pool.antt =====
-- The pool of connections of src/db/database_module.c, and the module's life cycle.
use net_serve.Prelude.{
  ℕ, zero, suc, ◌+◌, Bool, true, false, Option, none, some, List, [], ◌∷◌, ◌++◌, leb, if◌then◌else◌,
}
use net_serve.Config.Store.{ℤ, pos, negsuc}
use net_serve.Database.{Connection, Config, sqlite, create_connection}

abbrev pub default_config : Config
default_config = record {
  kind = sqlite;
  host = some (b'l' ∷ b'o' ∷ b'c' ∷ b'a' ∷ b'l' ∷ b'h' ∷ b'o' ∷ b's' ∷ b't' ∷ []);
  port = 3306;
  database = some (b'n' ∷ b'e' ∷ b't' ∷ b's' ∷ b'e' ∷ b'r' ∷ b'v' ∷ b'e' ∷ b'.' ∷ b'd' ∷ b'b' ∷ []);
  username = some [];
  password = some [];
  timeout = 30;
  max_connections = 10;
  enable_pooling = true;
}

-- `connections` is the array, if there is one; `connection_count` is an `int` that nothing bounds
-- from below.
pub record Data : Type 0 where
  pub config : Config
  pub connections : Option (List Connection)
  pub connection_count : ℤ
  pub max_connections : ℕ
  pub pool_initialized : Bool

-- `database_module_init`, where memory, mutex and condition variable are given.
abbrev pub module_init : Data
module_init = record {
  config = default_config;
  connections = none;
  connection_count = pos 0;
  max_connections = default_config.max_connections;
  pool_initialized = false;
}

-- `returns true` is 0, `returns false` is -1; `faults` is undefined behaviour.
pub data Reply : Type 0 where
  returns : Bool → Data → Reply
  faults : Reply

-- A connection without a handle in round `i`. For i > 0 `free_db_connection` frees the array, of
-- which `&connections[0]` is the start, and `free` does so again.
abbrev give_up : ℕ → Data → Reply
give_up zero d = returns false (record d { connections = none })
give_up (suc i) d = faults

abbrev filled : List Connection → Data → Reply
filled cs d =
    returns true
      (record d { connections = some cs; connection_count = pos 0; pool_initialized = true })

-- The loop of `init_connection_pool` with the rounds left, from round `i`; `memory_ok` are the
-- answers of `calloc`. It reads what `create_db_connection` returns without a look at it.
unfoldable pub fill_loop : (ℕ → Bool) → ℕ → ℕ → List Connection → Data → Reply
unfolding create_connection
fill_loop memory_ok zero i cs d = filled cs d
fill_loop memory_ok (suc n) i cs d = elim (create_connection (memory_ok i)) [
  | none ↦ faults
  | some c ↦ elim (c.handle) [
    | true ↦ fill_loop memory_ok n (i + 1) (cs ++ c ∷ []) d
    | false ↦ give_up i d
  ]
]

unfoldable pub init_pool : Bool → (ℕ → Bool) → Data → Reply
unfolding fill_loop
init_pool array_ok memory_ok d =
    if d.pool_initialized
    then returns true d
    else if array_ok
    then fill_loop memory_ok d.max_connections 0 [] d
    else returns false d

unfoldable pub module_start : Bool → (ℕ → Bool) → Data → Reply
unfolding init_pool
module_start array_ok memory_ok d =
    if d.config.enable_pooling then init_pool array_ok memory_ok d else returns true d

unfoldable pub cleanup_pool : Data → Data
cleanup_pool d =
    if d.pool_initialized
    then record d { connections = none; connection_count = pos 0; pool_initialized = false }
    else d

unfoldable pub module_stop : Data → Data
unfolding cleanup_pool
module_stop d = if d.pool_initialized then cleanup_pool d else d

unfoldable pub module_set_config : Config → Data → Data
module_set_config c d = record d { config = c }

unfoldable pub increment : ℤ → ℤ
increment (pos n) = pos (n + 1)
increment (negsuc zero) = pos 0
increment (negsuc (suc n)) = negsuc n

unfoldable pub decrement : ℤ → ℤ
decrement (pos zero) = negsuc 0
decrement (pos (suc n)) = pos n
decrement (negsuc n) = negsuc (n + 1)

abbrev at_least : ℤ → ℕ → Bool
at_least (pos n) m = leb m n
at_least (negsuc n) m = false

-- `gives i` is the address of `connections[i]`, also where there is no array.
pub data Got : Type 0 where
  waits : Got
  gives : ℤ → Data → Got

unfoldable pub get_connection : Data → Got
unfolding increment
get_connection d =
    if at_least d.connection_count d.max_connections
    then waits
    else gives d.connection_count (record d { connection_count = increment d.connection_count })

-- The connection that comes back is not looked at.
unfoldable pub return_connection : ℤ → Data → Data
unfolding decrement
return_connection i d = record d { connection_count = decrement d.connection_count }

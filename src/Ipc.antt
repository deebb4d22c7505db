-- ===== src/Ipc.antt =====
-- src/ipc/ipc_unified.c: the table of connections that the kinds of inter-process communication share.
-- What the functions of the kinds answer is an argument, and what they are called with is kept in a
-- list. One thread calls; `locked` says that it holds the mutex, which is not recursive. Arguments
-- that are NULL have no counterpart.
use net_serve.Prelude.{
  ℕ, zero, suc, ◌+◌, ◌-◌, ◌%◌, ◌^◌, Bool, true, false, not, ◌&&◌, Option, none, some, List, [], ◌∷◌,
  Bytes, ltb, length, first_bytes, if◌then◌else◌,
}
use net_serve.Config.Store.{ℤ, pos, negsuc}
pub mod Table
pub mod Messages
pub mod Slots
pub mod Whole
pub mod Messaging
pub mod Connections
pub mod Lifetime
pub mod Framing
pub mod Stream
pub mod Delivery
mod Tests

pub data Kind : Type 0 where
  socket pipe shmem msgqueue semaphore mutex no_kind : Kind

-- What `private_data` points to: an `int` from `malloc`, which holds a descriptor or an id, or an
-- attached segment at its address.
pub data Private : Type 0 where
  cell : ℕ → Private
  segment : ℕ → Private

pub record Connection : Type 0 where
  pub id : ℤ
  pub type : Kind
  pub is_connected : Bool
  pub private_data : Option Private
  pub remote_pid : ℕ
  pub remote_name : Bytes

pub record Stats : Type 0 where
  pub connections : ℕ
  pub max_connections : ℕ
  pub messages_sent : ℕ
  pub messages_received : ℕ
  pub bytes_sent : ℕ
  pub bytes_received : ℕ

-- The calls of the functions of a kind that act on the system.
pub data Call : Type 0 where
  cleans : Kind → Bytes → Call
  sends : Kind → Private → Bytes → Call
  receives : Kind → Private → Call

-- The newest call comes first.
pub record Ipc : Type 0 where
  pub initialized : Bool
  pub locked : Bool
  pub connections : List Connection
  pub max_connections : ℕ
  pub stats : Stats
  pub calls : List Call

-- A call waits forever, for the mutex that it holds or for the peer; does something undefined, as
-- freeing what is not from `malloc` or destroying a mutex that is held; or returns.
pub data Reply (A : Type 0) : Type 0 where
  hangs : Reply A
  faults : Reply A
  returns : A → Ipc → Reply A

abbrev pub lock : {A : Type 0} → Ipc → (Ipc → Reply A) → Reply A
lock s k = if s.locked then hangs else k (record s { locked = true })

abbrev pub leave : {A : Type 0} → A → Ipc → Reply A
leave a s = returns a (record s { locked = false })

abbrev pub add_64 : ℕ → ℕ → ℕ
add_64 n k = (n + k) % 2 ^ 64

abbrev pub blank : Connection
blank = record {
  id = pos 0;
  type = socket;
  is_connected = false;
  private_data = none;
  remote_pid = 0;
  remote_name = [];
}

unfoldable pub blanks : ℕ → List Connection
blanks zero = []
blanks (suc n) = blank ∷ blanks n

abbrev pub no_stats : Stats
no_stats = record {
  connections = 0;
  max_connections = 0;
  messages_sent = 0;
  messages_received = 0;
  bytes_sent = 0;
  bytes_received = 0;
}

-- With the answer of `calloc`. The flag is the return of 0.
unfoldable pub init : Bool → Ipc → Bool × Ipc
unfolding blanks
init ok s =
    if s.initialized
    then (true, s)
    else if ok
    then (
      true,
      record s {
        initialized = true;
        locked = false;
        connections = blanks 100;
        max_connections = 100;
        stats = no_stats;
      },
    )
    else (false, s)

-- The first slot that is not connected.
unfoldable pub free_connection : List Connection → Option ℕ
free_connection [] = none
free_connection (c ∷ cs) =
    let rest = free_connection cs in
    if c.is_connected then (elim rest [ none ↦ none | some i ↦ some (suc i) ]) else some 0

unfoldable pub connection_at : ℕ → List Connection → Option Connection
connection_at i [] = none
connection_at zero (c ∷ cs) = some c
connection_at (suc i) (c ∷ cs) = connection_at i cs

unfoldable pub put_connection : ℕ → Connection → List Connection → List Connection
put_connection i u [] = []
put_connection zero u (c ∷ cs) = u ∷ cs
put_connection (suc i) u (c ∷ cs) = c ∷ put_connection i u cs

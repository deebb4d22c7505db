-- ===== src/ThreadComm/Table.antt =====
-- The global state, and the registration of threads. One thread calls; `locked` says that it holds
-- `global_mutex`, which is not recursive: to lock it twice is to wait for oneself. Allocations,
-- primitives, clocks and `pthread_self` answer by arguments. NULL arguments have no counterpart.
use net_serve.Prelude.{
  ℕ, zero, suc, ◌+◌, ◌-◌, ◌*◌, ◌%◌, ◌^◌, Bool, true, false, ◌&&◌, Option, none, some, List, [], ◌∷◌,
  ◌==◌, Bytes, if◌then◌else◌,
}
use net_serve.ThreadComm.Queue.{Queue}

pub data Error : Type 0 where
  no_error invalid_param out_of_memory queue_full queue_empty timeout thread_not_found : Error
  message_too_large invalid_message already_initialized not_initialized unknown : Error

pub data ThreadState : Type 0 where
  idle running waiting blocked terminated : ThreadState

-- `internal_thread_info_t`. Pointers that are only stored are numbers.
pub record Thread : Type 0 where
  pub thread_id : ℕ
  pub pthread_id : ℕ
  pub name : Bytes
  pub state : ThreadState
  pub create_time : ℕ
  pub cpu_time : ℕ
  pub message_count : ℕ
  pub user_data : ℕ
  pub msg_queue : Option Queue
  pub callback : Option ℕ
  pub callback_user_data : ℕ
  pub is_registered : Bool

pub record Stats : Type 0 where
  pub messages_sent : ℕ
  pub messages_received : ℕ
  pub bytes_sent : ℕ
  pub bytes_received : ℕ
  pub active_threads : ℕ
  pub max_threads : ℕ

pub record Config : Type 0 where
  pub max_queue_size : ℕ
  pub max_msg_size : ℕ
  pub max_threads : ℕ

abbrev pub default_config : Config
default_config = record { max_queue_size = 1000; max_msg_size = 64 * 1024; max_threads = 100 }

-- `counter` is the static variable of `generate_thread_id`.
pub record Comm : Type 0 where
  pub initialized : Bool
  pub locked : Bool
  pub config : Config
  pub threads : List Thread
  pub counter : ℕ
  pub active_thread_count : ℕ
  pub stats : Stats
  pub last_error : Error

-- How a call ends: never, since it waits for its own mutex; with a read through NULL; asleep on a
-- condition variable, its mutex released; or with a value.
pub data Reply (A : Type 0) : Type 0 where
  hangs : Reply A
  faults : Reply A
  waits : Comm → Reply A
  returns : A → Comm → Reply A

abbrev pub set_error : Error → Comm → Comm
set_error e s = record s { last_error = e }

abbrev pub unlock : Comm → Comm
unlock s = record s { locked = false }

abbrev pub lock : {A : Type 0} → Comm → (Comm → Reply A) → Reply A
lock s k = if s.locked then hangs else k (record s { locked = true })

-- To unlock, with an error, and return.
abbrev pub leave : {A : Type 0} → A → Error → Comm → Reply A
leave a e s = returns a (set_error e (unlock s))

-- A slot that `memset` or `calloc` cleared.
abbrev pub vacant : Thread
vacant = record {
  thread_id = 0;
  pthread_id = 0;
  name = [];
  state = idle;
  create_time = 0;
  cpu_time = 0;
  message_count = 0;
  user_data = 0;
  msg_queue = none;
  callback = none;
  callback_user_data = 0;
  is_registered = false;
}

abbrev vacant_slots : ℕ → List Thread
vacant_slots zero = []
vacant_slots (suc n) = vacant ∷ vacant_slots n

abbrev pub no_stats : Stats
no_stats = record {
  messages_sent = 0;
  messages_received = 0;
  bytes_sent = 0;
  bytes_received = 0;
  active_threads = 0;
  max_threads = 0;
}

abbrev config_or : Option Config → Config
config_or none = default_config
config_or (some c) = c

-- `thread_comm_init`, with the configuration given or the default one; the flag is the return of 0.
unfoldable pub init : Bool → Option Config → Comm → Bool × Comm
init memory_ok config s =
    let c = config_or config in
    if s.initialized
    then (false, set_error already_initialized s)
    else if memory_ok
    then (
      true,
      record s {
        initialized = true;
        config = c;
        threads = vacant_slots c.max_threads;
        stats = record no_stats { max_threads = c.max_threads };
        last_error = no_error;
      },
    )
    else (false, set_error out_of_memory s)

-- The first slot that is not registered.
unfoldable pub free_slot : List Thread → Option ℕ
free_slot [] = none
free_slot (t ∷ ts) =
    let rest = free_slot ts in
    if t.is_registered then (elim rest [ none ↦ none | some i ↦ some (suc i) ]) else some 0

abbrev pub has_id : ℕ → Thread → Bool
has_id id t = t.is_registered && t.thread_id == id

-- `find_thread_by_id`: the index of the first registered thread with this id; `none` is -1.
unfoldable pub find_thread_by_id : ℕ → List Thread → Option ℕ
find_thread_by_id id [] = none
find_thread_by_id id (t ∷ ts) =
    let rest = find_thread_by_id id ts in
    if has_id id t then some 0 else elim rest [ none ↦ none | some i ↦ some (suc i) ]

unfoldable pub thread_at : ℕ → List Thread → Option Thread
thread_at i [] = none
thread_at zero (t ∷ ts) = some t
thread_at (suc i) (t ∷ ts) = thread_at i ts

unfoldable pub put_thread : ℕ → Thread → List Thread → List Thread
put_thread i u [] = []
put_thread zero u (t ∷ ts) = u ∷ ts
put_thread (suc i) u (t ∷ ts) = t ∷ put_thread i u ts

-- Unsigned integers of 32 and of 64 bits, one up and one down.
abbrev pub next_32 : ℕ → ℕ
next_32 n = (n + 1) % 2 ^ 32

abbrev pub previous_32 : ℕ → ℕ
previous_32 n = (n + (2 ^ 32 - 1)) % 2 ^ 32

abbrev pub add_64 : ℕ → ℕ → ℕ
add_64 n k = (n + k) % 2 ^ 64

abbrev pub previous_64 : ℕ → ℕ
previous_64 n = (n + (2 ^ 64 - 1)) % 2 ^ 64

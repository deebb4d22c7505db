-- ===== src/Logger.antt =====
-- The logger: src/log/logger_module.{h,c}.
-- The linked queue is a list; what happens under `queue_mutex` is one function, and a wait on
-- `queue_cond` is a result. A formatted message is cut off at 1023 bytes by `vsnprintf`; here a
-- message is the text after that. Time stamps answer by an argument; the colours are left out. What
-- is written is a list of events, the newest first. The messages that the module's own functions log
-- are left out. `malloc` answers by an argument.
pub mod Runs
pub mod Order
pub mod Full
mod Tests
use net_serve.Prelude.{
  ℕ, ◌+◌, ◌-◌, Bool, true, false, not, ◌&&◌, ◌||◌, Option, none, some, List, [], ◌∷◌, ◌++◌, ◌==◌,
  leb, ltb, Bytes, if◌then◌else◌,
}

pub data Level : Type 0 where
  debug info warn error fatal : Level

abbrev pub level_number : Level → ℕ
level_number debug = 0
level_number info = 1
level_number warn = 2
level_number error = 3
level_number fatal = 4

pub record Message : Type 0 where
  pub level : Level
  pub text : Bytes
  pub timestamp : Option Bytes

-- A line on the console, or one in the file with the message's own time stamp, if it has one.
pub data Event : Type 0 where
  console : Level → Bytes → Event
  file : Option Bytes → Level → Bytes → Event

pub record Config : Type 0 where
  pub level : Level
  pub enable_console : Bool
  pub enable_file : Bool
  pub enable_timestamp : Bool
  pub enable_async : Bool
  pub max_queue_size : ℕ

abbrev pub default_config : Config
default_config = record {
  level = info;
  enable_console = true;
  enable_file = false;
  enable_timestamp = true;
  enable_async = true;
  max_queue_size = 10000;
}

-- The private data with the global level. `file_open` says that `log_fp` is not NULL.
pub record Logger : Type 0 where
  pub messages : List Message
  pub size : ℕ
  pub max_size : ℕ
  pub worker_running : Bool
  pub file_open : Bool
  pub config : Config
  pub global_level : Level
  pub events : List Event

-- `logger_module_init`, after its allocations. The global level is a variable of its own.
unfoldable pub module_init : Level → List Event → Logger
module_init level events = record {
  messages = [];
  size = 0;
  max_size = default_config.max_queue_size;
  worker_running = false;
  file_open = false;
  config = default_config;
  global_level = level;
  events = events;
}

-- `log_queue_push`; the flag is the return of 0.
unfoldable pub push : Message → Logger → Bool × Logger
push m l =
    if leb l.max_size l.size
    then (false, l)
    else (true, record l { messages = l.messages ++ m ∷ []; size = l.size + 1 })

-- How a turn of `log_queue_pop` ends: asleep, with NULL, or with a message. A counter above 0 with
-- a NULL `head` is a fault.
pub data Popped : Type 0 where
  asleep : Popped
  nothing : Popped
  fault : Popped
  popped : Message → Logger → Popped

abbrev pub pop_head : List Message → Logger → Popped
pop_head [] l = fault
pop_head (m ∷ ms) l = popped m (record l { messages = ms; size = l.size - 1 })

unfoldable pub pop : Logger → Popped
pop l =
    if l.size == 0 then (if l.worker_running then asleep else nothing) else pop_head l.messages l

unfoldable pub queue_clear : Logger → Logger
queue_clear l = record l { messages = []; size = 0 }

abbrev pub is_shown : Level → Logger → Bool
is_shown v l = leb (level_number l.global_level) (level_number v)

abbrev pub emit : Event → Logger → Logger
emit e l = record l { events = e ∷ l.events }

unfoldable pub write_to_console : Level → Bytes → Logger → Logger
write_to_console v text l = if is_shown v l then emit (console v text) l else l

unfoldable pub write_to_file : Option Bytes → Level → Bytes → Logger → Logger
write_to_file stamp v text l =
    if l.config.enable_file && l.file_open then emit (file stamp v text) l else l

abbrev pub stamp_of : Bytes → Logger → Option Bytes
stamp_of now l = if l.config.enable_timestamp then some now else none

-- `log_internal_sync`.
unfoldable pub log_sync : Bytes → Level → Bytes → Logger → Logger
unfolding write_to_console write_to_file
log_sync now v text l =
    if is_shown v l then write_to_file (stamp_of now l) v text (write_to_console v text l) else l

-- `log_internal_async`: a full queue makes it write at once.
unfoldable pub log_async : Bool → Bytes → Level → Bytes → Logger → Logger
unfolding push log_sync
log_async memory_ok now v text l =
    if is_shown v l && memory_ok
    then (let (ok, l') = push (record { level = v; text = text; timestamp = stamp_of now l }) l in
        if ok then l' else log_sync now v text l)
    else l

-- A message that the worker took, written where the configuration says.
unfoldable pub write_message : Message → Logger → Logger
unfolding write_to_console write_to_file
write_message m l =
    let l₁ = if l.config.enable_console then write_to_console m.level m.text l else l in
    if l₁.config.enable_file then write_to_file m.timestamp m.level m.text l₁ else l₁

-- Where the worker stands: at the test of its loop, in front of `log_queue_pop`, with a message, or
-- behind its loop.
pub data Worker : Type 0 where
  testing : Worker
  popping : Worker
  holding : Message → Worker
  gone : Worker

abbrev pub after_pop : Popped → Logger → Option (Worker × Logger)
after_pop asleep l = none
after_pop fault l = none
after_pop nothing l = some (testing, l)
after_pop (popped m l') l = some (holding m, l')

-- The worker's next step, if it makes one: `worker_running` is read without `queue_mutex`, and may
-- change before the pop and before the write.
unfoldable pub worker_step : Worker → Logger → Option (Worker × Logger)
unfolding pop write_message
worker_step testing l = some (if l.worker_running then popping else gone, l)
worker_step popping l = after_pop (pop l) l
worker_step (holding m) l = some (testing, write_message m l)
worker_step gone l = none

-- `logger_module_start`: `fopen` and `uv_thread_create` answer; the flag is the return of 0.
unfoldable pub module_start : Bool → Bool → Bool → Logger → Bool × Logger
module_start has_name fopen_ok thread_ok l =
    let l₁ = if l.config.enable_file && has_name then record l { file_open = fopen_ok } else l in
    if l.config.enable_file && has_name && not fopen_ok
    then (false, l₁)
    else if l.config.enable_async
    then (thread_ok, record l₁ { worker_running = true })
    else (true, l₁)

-- `logger_module_stop`, with the join of the worker in the middle, which is `worker_step` again and
-- again: first half and second half.
unfoldable pub stop_worker : Logger → Logger
stop_worker l = record l { worker_running = false }

unfoldable pub module_stop : Logger → Logger
unfolding queue_clear
module_stop l = queue_clear l

unfoldable pub set_config : Config → Logger → Logger
set_config c l = record l { config = c; max_size = c.max_queue_size; global_level = c.level }

unfoldable pub set_level : Level → Logger → Logger
set_level v l = record l { global_level = v }

unfoldable pub enable_async : Bool → Logger → Logger
enable_async b l = record l { config = record (l.config) { enable_async = b } }

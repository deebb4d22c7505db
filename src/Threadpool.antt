-- ===== src/Threadpool.antt =====
-- The thread pool: src/thread/threadpool_module.{h,c}.
-- The work items are a type `J`, a function with its data. The two linked queues are lists. What
-- happens under `queue_mutex` is one function; a wait on a condition variable is a result, after
-- which the thread runs the same function again. `malloc`, `uv_mutex_init` and the like answer by an
-- argument. A NULL `self` has no counterpart, nor has the printing of the statistics.
pub mod Steps
pub mod Order
pub mod Shutdown
mod Tests
use net_serve.Prelude.{
  ℕ, zero, suc, ◌+◌, ◌-◌, ◌≡◌, Bool, true, false, not, ◌&&◌, Option, none, some, List, [], ◌∷◌,
  ◌++◌, leb, ltb, if◌then◌else◌,
}

pub record Config : Type 0 where
  pub thread_count : ℕ
  pub max_queue_size : ℕ
  pub enable_work_stealing : Bool
  pub enable_priority_queue : Bool

abbrev pub default_config : Config
default_config = record {
  thread_count = 4;
  max_queue_size = 1000;
  enable_work_stealing = true;
  enable_priority_queue = true;
}

-- The private data. `thread_slots` is the length of the array `threads`.
pub record Pool (J : Type 0) : Type 0 where
  pub work_queue : List J
  pub priority_queue : List J
  pub shutdown : Bool
  pub active_threads : ℕ
  pub queued_work : ℕ
  pub max_queue_size : ℕ
  pub thread_slots : ℕ
  pub config : Config

-- How a turn of a submitter ends: asleep on `queue_not_full`, with -1, or with 0.
pub data Attempt (J : Type 0) : Type 0 where
  blocked : Attempt J
  refused : Attempt J
  accepted : Pool J → Attempt J

-- How a turn of a worker ends: asleep on `work_available`, out of its loop, or with an item to run.
pub data Turn (J : Type 0) : Type 0 where
  idle : Turn J
  leaves : Turn J
  runs : J → Pool J → Turn J

module _ {J : Type 0} where
  -- `none` where an allocation or a primitive fails.
  unfoldable pub module_init : Bool → Bool → Bool → Option (Pool J)
  module_init data_ok threads_ok primitives_ok =
      if data_ok && threads_ok && primitives_ok
      then some (record {
        work_queue = [];
        priority_queue = [];
        shutdown = false;
        active_threads = 0;
        queued_work = 0;
        max_queue_size = default_config.max_queue_size;
        thread_slots = default_config.thread_count;
        config = default_config;
      })
      else none

  -- The `while` loop in front of both submissions: room in the queue, or shutdown.
  unfoldable pub must_wait : Pool J → Bool
  must_wait p = leb p.max_queue_size p.queued_work && not p.shutdown

  -- `threadpool_submit_work`; a NULL function is `none`.
  unfoldable pub submit_work : Option J → Bool → Pool J → Attempt J
  unfolding must_wait
  submit_work none item_ok p = refused
  submit_work (some j) item_ok p =
      if must_wait p
      then blocked
      else if p.shutdown
      then refused
      else if item_ok
      then accepted
          (record p { work_queue = p.work_queue ++ j ∷ []; queued_work = p.queued_work + 1 })
      else refused

  -- `threadpool_submit_priority_work`.
  unfoldable pub submit_priority_work : Option J → Bool → Pool J → Attempt J
  unfolding must_wait
  submit_priority_work none item_ok p = refused
  submit_priority_work (some j) item_ok p =
      if must_wait p
      then blocked
      else if p.shutdown
      then refused
      else if item_ok
      then accepted
          (record p { priority_queue = j ∷ p.priority_queue; queued_work = p.queued_work + 1 })
      else refused

  -- `threadpool_submit_work_async` drops the callback.
  unfoldable pub submit_work_async : Option J → Bool → Pool J → Attempt J
  unfolding submit_work
  submit_work_async j item_ok p = submit_work j item_ok p

  -- The counters, once an item was unlinked.
  unfoldable pub start_item : Pool J → Pool J
  start_item p = record p { queued_work = p.queued_work - 1; active_threads = p.active_threads + 1 }

  unfoldable pub take_item : List J → List J → Pool J → Turn J
  unfolding start_item
  take_item (j ∷ rest) work p = runs j (start_item (record p { priority_queue = rest }))
  take_item [] (j ∷ rest) p = runs j (start_item (record p { work_queue = rest }))
  take_item [] [] p = idle

  -- The first half of a round of `worker_thread`, up to the call of the item's function.
  unfoldable pub worker_turn : Pool J → Turn J
  unfolding take_item
  worker_turn p = if p.shutdown then leaves else take_item p.priority_queue p.work_queue p

  -- The second half, behind that call.
  unfoldable pub finish_item : Pool J → Pool J
  finish_item p = record p { active_threads = p.active_threads - 1 }

  -- `threadpool_module_stop`, up to the joins.
  unfoldable pub module_stop : Pool J → Pool J
  module_stop p = record p { shutdown = true }

  -- The loop of `threadpool_module_start` from thread `i`, with the rounds left; `created` says what
  -- `uv_thread_create` answers. `none` is a write behind the array `threads`.
  unfoldable pub start_loop : (ℕ → Bool) → ℕ → ℕ → Pool J → Option Bool
  start_loop created zero i p = some true
  start_loop created (suc n) i p =
      let rest = start_loop created n (i + 1) p in
      if ltb i p.thread_slots then (if created i then rest else some false) else none

  unfoldable pub module_start : (ℕ → Bool) → Pool J → Option Bool
  unfolding start_loop
  module_start created p = start_loop created p.config.thread_count 0 p

  -- `threadpool_module_set_config`.
  unfoldable pub module_set_config : Config → Pool J → Pool J
  module_set_config c p = record p { config = c; max_queue_size = c.max_queue_size }

  -- What `threadpool_module_cleanup` frees: the items left, and the data.
  unfoldable pub module_cleanup : Pool J → List J
  module_cleanup p = p.work_queue ++ p.priority_queue

  unfoldable pub get_active_thread_count : Option (Pool J) → ℕ
  get_active_thread_count none = 0
  get_active_thread_count (some p) = p.active_threads

  unfoldable pub get_queued_work_count : Option (Pool J) → ℕ
  get_queued_work_count none = 0
  get_queued_work_count (some p) = p.queued_work

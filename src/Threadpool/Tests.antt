-- ===== src/Threadpool/Tests.antt =====
-- Runs of the thread pool, and its theorems at a pool with two items. The items are numbers.
use mathlib.Core.List.{Perm}
use net_serve.Prelude.{ℕ, ◌≡◌, ◌<◌, ◌↔◌, refl, true, false, none, some, [], ◌∷◌}
use net_serve.Threadpool.{
  Pool, blocked, default_config, submit_work, submit_priority_work, worker_turn, module_start,
  module_set_config, module_init,
}
use net_serve.Threadpool.Steps.{
  Run, begin, Reach, here, next, submit, submit_priority, take, configure, everywhere, Reach-Perm,
}
use net_serve.Threadpool.Order.{yields, view_attempt, view_turn, pool_is_queue}
use net_serve.Threadpool.Shutdown.{StaysShut, Reach-StaysShut, module_start-none_iff}

abbrev fresh : Pool ℕ
fresh = record {
  work_queue = [];
  priority_queue = [];
  shutdown = false;
  active_threads = 0;
  queued_work = 0;
  max_queue_size = 2;
  thread_slots = 4;
  config = default_config;
}

init_fresh : module_init true true true ≡ some (record fresh { max_queue_size = 1000 })
unfolding module_init
init_fresh = refl

abbrev one_item : Pool ℕ
one_item = record fresh { work_queue = 7 ∷ []; queued_work = 1 }

abbrev two_items : Pool ℕ
two_items = record fresh { work_queue = 7 ∷ []; priority_queue = 9 ∷ []; queued_work = 2 }

abbrev busy : Pool ℕ
busy = record fresh { work_queue = 7 ∷ []; queued_work = 1; active_threads = 1 }

full_waits : submit_work (some 8) true two_items ≡ blocked
unfolding submit_work
full_waits = refl

abbrev after_two : Run ℕ
after_two = record { pool = busy; taken_in = 9 ∷ 7 ∷ []; running = 9 ∷ []; done = [] }

history : Reach (begin fresh) after_two
unfolding submit_work submit_priority_work worker_turn
history =
    next
      (next (next here (submit 7 true {q = one_item} refl))
        (submit_priority 9 true {q = two_items} refl))
      (take 9 {q = busy} refl)

Reach-Perm_example : Perm (9 ∷ 7 ∷ []) (everywhere after_two)
Reach-Perm_example = Reach-Perm fresh refl refl history

pool_is_queue_example :
    (view_attempt (submit_work (some 8) true one_item)
      ≡ yields (record { items = 7 ∷ 8 ∷ []; closed = false; limit = 2 }))
    × (view_attempt (submit_priority_work (some 8) true one_item)
        ≡ yields (record { items = 8 ∷ 7 ∷ []; closed = false; limit = 2 }))
    × (view_turn (worker_turn one_item)
        ≡ yields (7, record { items = []; closed = false; limit = 2 }))
pool_is_queue_example = pool_is_queue 8 one_item refl

abbrev shut : Run ℕ
shut = begin (record two_items { shutdown = true })

Reach-StaysShut_example :
    StaysShut shut (record shut { pool = module_set_config default_config shut.pool })
Reach-StaysShut_example = Reach-StaysShut refl (next here (configure default_config))

module_start-none_iff_example :
    (module_start (λ _. true) (module_set_config (record default_config { thread_count = 5 }) fresh)
      ≡ none)
    ↔ (4 < 5)
unfolding module_set_config
module_start-none_iff_example =
    module_start-none_iff (module_set_config (record default_config { thread_count = 5 }) fresh)

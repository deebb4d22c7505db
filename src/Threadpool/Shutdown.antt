-- ===== src/Threadpool/Shutdown.antt =====
-- The pool after `threadpool_module_stop`, and the threads that `threadpool_module_start` makes.
use net_serve.Prelude.{ℕ, zero, suc, ◌+◌, ◌≡◌, ◌≤◌, ◌<◌, ◌↔◌, refl, true, none, arith}
use native.Mathlib.Nat.{zero-add}
use net_serve.Threadpool.{
  Pool, finish_item, module_stop, module_set_config, module_start, start_loop,
}
use net_serve.Threadpool.Steps.{
  Run, Step, submit, submit_priority, take, finish, stop, configure, Reach, here, next,
  submit_work-accepted, submit_priority_work-accepted, worker_turn-runs,
}

module _ {J : Type 0} where
  -- Nothing is accepted or taken between `s` and `t`, and the pool is shut in both.
  pub record StaysShut (s t : Run J) : Type 0 where
    pub shut : t.pool.shutdown ≡ true
    pub work : t.pool.work_queue ≡ s.pool.work_queue
    pub priority : t.pool.priority_queue ≡ s.pool.priority_queue
    pub same_items : t.taken_in ≡ s.taken_in

  Step-StaysShut : {s t u : Run J} → StaysShut s t → Step t u → StaysShut s u
  unfolding finish_item module_stop module_set_config
  Step-StaysShut {t} v (submit j ok e) = ground (arith, v.shut, submit_work-accepted j ok t.pool e)
  Step-StaysShut {t} v (submit_priority j ok e) =
      ground (arith, v.shut, submit_priority_work-accepted j ok t.pool e)
  Step-StaysShut {t} v (take j e) = ground (arith, v.shut, (worker_turn-runs t.pool e).0)
  Step-StaysShut v (finish xs j ys e) = ground arith
  Step-StaysShut v stop = ground arith
  Step-StaysShut v (configure c) = ground arith

  -- Once `shutdown` is set, whatever follows: no item is accepted, and none is taken from a queue.
  pub Reach-StaysShut : {s t : Run J} → s.pool.shutdown ≡ true → Reach s t → StaysShut s t
  Reach-StaysShut h here = record { shut = h; work = refl; priority = refl; same_items = refl }
  Reach-StaysShut h (next r st) = Step-StaysShut (Reach-StaysShut h r) st

  start_loop-none_iff :
      (n i : ℕ) (p : Pool J)
      → i ≤ p.thread_slots
      → (start_loop (λ _. true) n i p ≡ none) ↔ (p.thread_slots < i + n)
  unfolding start_loop
  start_loop-none_iff zero i p h = ((λ e. absurd (cc)), λ k. absurd (omega arith))
  start_loop-none_iff (suc n) i p h = ground (arith, start_loop-none_iff n (i + 1) p)

  -- `threadpool_module_start`, where each thread can be made, writes behind the array `threads`
  -- exactly when the configured number of threads is above the length of the array.
  pub module_start-none_iff :
      (p : Pool J) → (module_start (λ _. true) p ≡ none) ↔ (p.thread_slots < p.config.thread_count)
  unfolding module_start
  module_start-none_iff p =
      rw (zero-add p.config.thread_count) at
        (start_loop-none_iff p.config.thread_count 0 p (omega arith))

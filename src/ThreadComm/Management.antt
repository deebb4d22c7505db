-- ===== src/ThreadComm/Management.antt =====
-- What acts on the queue and the callback of one thread from outside, without `global_mutex`, and the
-- statistics.
use net_serve.Prelude.{
  ℕ, zero, suc, ◌-◌, ◌≡◌, ◌<◌, ◌∙◌, ap, refl, Bool, true, false, Option, none, some, List, [], ◌∷◌,
  ◌==◌, length, if◌then◌else◌, arith,
}
use net_serve.ThreadComm.Queue.{Message, Queue, create_queue, dequeue, empty, fault, taken}
use net_serve.ThreadComm.Table.{
  Thread, Comm, Stats, Reply, returns, Error, set_error, lock, leave, no_error, not_initialized,
  invalid_param, thread_not_found, no_stats, find_thread_by_id, thread_at, put_thread,
}

-- The two guards of these functions: the result `a` where they fail, and else the body, for the slot
-- of the thread.
abbrev pub with_thread : {A : Type 0} → A → Error → ℕ → Comm → (ℕ → Thread → A × Comm) → A × Comm
with_thread a e id s body =
    if s.initialized
    then elim (find_thread_by_id id s.threads) [
      | none ↦ (a, set_error thread_not_found s)
      | some i ↦ elim (thread_at i s.threads) [ none ↦ (a, s) | some t ↦ body i t ]
    ]
    else (a, set_error e s)

abbrev created : Option Queue → Bool
created none = false
created (some q) = true

-- An old queue goes first, so a failure leaves none. `last_error` stays.
unfoldable pub create_message_queue : Bool → ℕ → ℕ → Comm → Bool × Comm
unfolding put_thread create_queue
create_message_queue ok id size s = with_thread false not_initialized id s (λ i t. (
  created (create_queue ok size),
  record s { threads = put_thread i (record t { msg_queue = create_queue ok size }) s.threads },
))

unfoldable pub destroy_message_queue : ℕ → Comm → Bool × Comm
unfolding put_thread
destroy_message_queue id s = with_thread false not_initialized id s (λ i t. (
  true,
  record s {
    threads = put_thread i (record t { msg_queue = none }) s.threads;
    last_error = no_error;
  },
))

abbrev size_of : Option Queue → ℕ
size_of none = 0
size_of (some q) = q.size

-- `none` is -1.
unfoldable pub get_queue_size : ℕ → Comm → Option ℕ × Comm
get_queue_size id s =
    with_thread none invalid_param id s (λ i t. (some (size_of t.msg_queue), set_error no_error s))

unfoldable pub poll_messages : ℕ → Comm → Option ℕ × Comm
poll_messages id s = with_thread none not_initialized id s (λ i t. (some (size_of t.msg_queue), s))

-- The loop of `thread_comm_clear_message_queue` on fuel; `none` is a read through NULL, or the end
-- of the fuel.
unfoldable pub clear_loop : ℕ → Queue → Option Queue
unfolding dequeue
clear_loop zero q = if q.size == 0 then some q else none
clear_loop (suc n) q = elim (dequeue true q) [
  | empty ↦ some q
  | fault ↦ none
  | taken m q' ↦ clear_loop n q'
]

abbrev clear_queue : Option Queue → Option (Option Queue)
clear_queue none = some none
clear_queue (some q) = elim (clear_loop q.size q) [ none ↦ none | some q' ↦ some (some q') ]

-- `none` is the read through NULL.
unfoldable pub clear_message_queue : ℕ → Comm → Option Bool × Comm
unfolding put_thread clear_loop
clear_message_queue id s = with_thread (some false) not_initialized id s (λ i t.
    elim (clear_queue t.msg_queue) [
      | none ↦ (none, s)
      | some q ↦ (
        some true,
        record s {
          threads = put_thread i (record t { msg_queue = q }) s.threads;
          last_error = no_error;
        },
      )
    ])

unfoldable pub set_message_callback : ℕ → Option ℕ → ℕ → Comm → Bool × Comm
unfolding put_thread
set_message_callback id callback data' s = with_thread false not_initialized id s (λ i t. (
  true,
  record s {
    threads = put_thread i (record t { callback = callback; callback_user_data = data' }) s.threads;
    last_error = no_error;
  },
))

unfoldable pub remove_message_callback : ℕ → Comm → Bool × Comm
unfolding set_message_callback
remove_message_callback id s = set_message_callback id none 0 s

unfoldable pub get_statistics : Comm → Reply (Option Stats)
get_statistics s =
    if s.initialized
    then lock s (λ s₁. leave (some s₁.stats) no_error s₁)
    else returns none (set_error invalid_param s)

unfoldable pub reset_statistics : Comm → Reply Bool
reset_statistics s =
    if s.initialized
    then lock s (λ s₁. leave true no_error (record s₁ { stats = no_stats }))
    else returns false (set_error not_initialized s)

dequeue_head :
    (q : Queue) (m : Message) (ms : List Message)
    → q.messages ≡ m ∷ ms
    → 0 < q.size
    → dequeue true q ≡ taken m (record q { messages = ms; size = q.size - 1 })
unfolding dequeue
dequeue_head q m ms e lt = ground (arith, e)

clear_loop_next :
    (n : ℕ) (q q' : Queue) (m : Message)
    → dequeue true q ≡ taken m q'
    → clear_loop (suc n) q ≡ clear_loop n q'
unfolding clear_loop
clear_loop_next n q q' m e = rw (e, clear_loop) refl

-- As many rounds as there are messages leave an empty queue, if `size` is right.
clear_loop_empties :
    (ms : List Message) (q : Queue)
    → q.messages ≡ ms
    → q.size ≡ length ms
    → clear_loop (length ms) q ≡ some (record q { messages = []; size = 0 })
unfolding clear_loop
clear_loop_empties [] q e c = ground (arith, e, c)
clear_loop_empties (m ∷ ms) q e c =
    let q' = record q { messages = ms; size = q.size - 1 } in
    clear_loop_next (length ms) q q' m (dequeue_head q m ms e (omega (arith, c)))
    ∙ clear_loop_empties ms q' refl (omega (arith, c))

-- `thread_comm_clear_message_queue` ends, with 0 and an empty queue, for a thread that is registered
-- and whose queue has the size that it says.
pub clear_message_queue_lem :
    (id i : ℕ) (s : Comm) (t : Thread) (q : Queue)
    → s.initialized ≡ true
    → find_thread_by_id id s.threads ≡ some i
    → thread_at i s.threads ≡ some t
    → t.msg_queue ≡ some q
    → q.size ≡ length q.messages
    → clear_message_queue id s ≡ (
      some true,
      record s {
        threads =
            put_thread i
              (record t { msg_queue = some (record q { messages = []; size = 0 }) })
              s.threads;
        last_error = no_error;
      },
    )
unfolding clear_message_queue
clear_message_queue_lem id i s t q a b d e c =
    let cleared : clear_loop q.size q ≡ some (record q { messages = []; size = 0 }) =
      ap (λ n. clear_loop n q) c ∙ clear_loop_empties q.messages q refl c in
    ground (arith, a, b, d, e, cleared)

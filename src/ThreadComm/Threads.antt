-- ===== src/ThreadComm/Threads.antt =====
-- The registration of threads, the end of the module, and what it tells of its threads.
use net_serve.Prelude.{
  first_bytes, ℕ, zero, suc, ◌+◌, Bool, true, false, Option, none, some, List, [], ◌∷◌, ◌==◌,
  length, Bytes, if◌then◌else◌,
}
use net_serve.ThreadComm.Queue.{create_queue}
use net_serve.ThreadComm.Table.{
  Thread, Comm, Reply, set_error, unlock, lock, leave, vacant, free_slot, find_thread_by_id,
  thread_at, put_thread, next_32, previous_32, add_64, previous_64, no_error, invalid_param,
  out_of_memory, thread_not_found, not_initialized, running, hangs, faults, waits, returns,
}

abbrev count_threads : ℕ → ℕ → Comm → Comm
count_threads n k s = record s {
  active_thread_count = n;
  stats = record (s.stats) { active_threads = k };
}

-- The slot `old` as a registration fills it, up to the queue.
abbrev pub fill_slot : ℕ → Bytes → ℕ → ℕ → ℕ → Thread → Thread
fill_slot id name user self now old = record old {
  thread_id = id;
  pthread_id = self;
  name = first_bytes 63 name;
  state = running;
  create_time = now;
  cpu_time = 0;
  message_count = 0;
  user_data = user;
  callback = none;
  callback_user_data = 0;
  is_registered = true;
}

-- The slot `i` is free; a queue that is not created leaves it so.
unfoldable pub register_in : Bool → Bytes → ℕ → ℕ → ℕ → ℕ → Comm → Reply ℕ
unfolding thread_at put_thread create_queue first_bytes
register_in ok name user self now i s = elim (thread_at i s.threads) [
  | none ↦ faults
  | some old ↦
      (let id = next_32 s.counter in
        let t = fill_slot id name user self now old in
        elim (create_queue ok s.config.max_queue_size) [
          | none ↦ leave 0 out_of_memory (record s {
            counter = id;
            threads = put_thread i (record t { is_registered = false }) s.threads;
          })
          | some q ↦ leave id no_error (
              count_threads (next_32 s.active_thread_count) (add_64 s.stats.active_threads 1)
                (record s {
                  counter = id;
                  threads = put_thread i (record t { msg_queue = some q }) s.threads;
                }))
        ])
]

-- The id of the thread, or 0.
unfoldable pub register_thread : Bool → Bytes → ℕ → ℕ → ℕ → Comm → Reply ℕ
register_thread ok name user self now s =
    if s.initialized
    then lock s (λ s₁. elim (free_slot s₁.threads) [
      | none ↦ leave 0 out_of_memory s₁
      | some i ↦ register_in ok name user self now i s₁
    ])
    else returns 0 (set_error invalid_param s)

-- `true` is the return of 0.
unfoldable pub unregister_thread : ℕ → Comm → Reply Bool
unregister_thread id s =
    if s.initialized
    then lock s (λ s₁. elim (find_thread_by_id id s₁.threads) [
      | none ↦ leave false thread_not_found s₁
      | some i ↦ leave true no_error (
          count_threads (previous_32 s₁.active_thread_count) (previous_64 s₁.stats.active_threads)
            (record s₁ { threads = put_thread i vacant s₁.threads }))
    ])
    else returns false (set_error not_initialized s)

-- The loop of `thread_comm_cleanup` over the threads from slot `i`, with the rounds left. It holds
-- the mutex, and calls `thread_comm_unregister_thread`.
unfoldable pub cleanup_loop : ℕ → ℕ → Comm → Reply Bool
cleanup_loop zero i s = returns true s
cleanup_loop (suc n) i s = elim (thread_at i s.threads) [
  | none ↦ faults
  | some t ↦ elim (t.is_registered) [
    | false ↦ cleanup_loop n (i + 1) s
    | true ↦ elim (unregister_thread t.thread_id s) [
      | hangs ↦ hangs
      | faults ↦ faults
      | waits s' ↦ waits s'
      | returns ok s' ↦ cleanup_loop n (i + 1) s'
    ]
  ]
]

abbrev close : Reply Bool → Reply Bool
close (returns ok s) = returns true (record (unlock s) { initialized = false; threads = [] })
close r = r

unfoldable pub cleanup : Comm → Reply Bool
unfolding cleanup_loop
cleanup s =
    if s.initialized
    then lock s (λ s₁. close (cleanup_loop (length s₁.threads) 0 s₁))
    else returns true s

-- `thread_comm_get_thread_info`, where the slot stands for what is copied of it.
unfoldable pub get_thread_info : ℕ → Comm → Reply (Option Thread)
unfolding thread_at
get_thread_info id s =
    if s.initialized
    then lock s (λ s₁. elim (find_thread_by_id id s₁.threads) [
      | none ↦ leave none thread_not_found s₁
      | some i ↦ leave (thread_at i s₁.threads) no_error s₁
    ])
    else returns none (set_error invalid_param s)

abbrev cons_info : Option Thread → Option (List Thread) → Option (List Thread)
cons_info (some t) (some ts) = some (t ∷ ts)
cons_info _ ts = ts

abbrev then_info : Option Thread → Reply (Option (List Thread)) → Reply (Option (List Thread))
then_info t (returns ts s) = returns (cons_info t ts) s
then_info t r = r

-- The loop of `thread_comm_get_all_threads` from slot `i`, with the rounds and the places left.
unfoldable pub info_loop : ℕ → ℕ → ℕ → Comm → Reply (Option (List Thread))
info_loop zero i left s = returns (some []) s
info_loop (suc n) i zero s = returns (some []) s
info_loop (suc n) i (suc left) s = elim (thread_at i s.threads) [
  | none ↦ faults
  | some t ↦ elim (t.is_registered) [
    | false ↦ info_loop n (i + 1) (suc left) s
    | true ↦ elim (get_thread_info t.thread_id s) [
      | hangs ↦ hangs
      | faults ↦ faults
      | waits s' ↦ waits s'
      | returns info s' ↦ then_info info (info_loop n (i + 1) left s')
    ]
  ]
]

abbrev close_infos : Reply (Option (List Thread)) → Reply (Option (List Thread))
close_infos (returns ts s) = leave ts no_error s
close_infos r = r

-- `none` is -1.
unfoldable pub get_all_threads : Bool → Comm → Reply (Option (List Thread))
unfolding info_loop
get_all_threads memory_ok s =
    if s.initialized
    then lock s (λ s₁.
      if s₁.active_thread_count == 0
      then leave (some []) no_error s₁
      else if memory_ok
      then close_infos (info_loop (length s₁.threads) 0 s₁.active_thread_count s₁)
      else leave none out_of_memory s₁)
    else returns none (set_error invalid_param s)

abbrev is_found : Option ℕ → Bool
is_found none = false
is_found (some i) = true

unfoldable pub is_thread_registered : ℕ → Comm → Reply Bool
unfolding find_thread_by_id
is_thread_registered id s =
    if s.initialized
    then lock s (λ s₁. returns (is_found (find_thread_by_id id s₁.threads)) (unlock s₁))
    else returns false s

-- `none` is -1.
unfoldable pub get_thread_count : Comm → Option ℕ
get_thread_count s = if s.initialized then some s.active_thread_count else none

-- ===== src/ThreadComm/Messages.antt =====
-- Messages between threads. `sent` has the answers of `malloc` for the message's data, and for the
-- node and its data; a copy for a receiver has its own.
use net_serve.Prelude.{
  first_bytes, ℕ, zero, suc, ◌+◌, ◌%◌, ◌^◌, Bool, true, false, not, ◌&&◌, ◌||◌, Option, none, some,
  ◌==◌, leb, ltb, Bytes, length, if◌then◌else◌,
}
use net_serve.ThreadComm.Queue.{Message, enqueue, dequeue, empty, fault, taken}
use net_serve.ThreadComm.Table.{
  no_error, invalid_param, out_of_memory, queue_full, timeout, thread_not_found, message_too_large,
  not_initialized, Comm, Reply, hangs, faults, waits, returns, set_error, unlock, lock, leave,
  find_thread_by_id, thread_at, put_thread, next_32, add_64,
}

-- What a sender says of a message.
pub record Draft : Type 0 where
  pub sender_id : ℕ
  pub type : ℕ
  pub priority : ℕ
  pub content : Bytes

-- The answers of `malloc` and of the clock, which is asked twice.
pub record Answers : Type 0 where
  pub data_ok : Bool
  pub node_ok : Bool
  pub copy_ok : Bool
  pub id_time : ℕ
  pub time : ℕ

-- `data_size` is a `uint32_t`, and of the data the queue keeps so many bytes.
unfoldable pub message_of : Draft → ℕ → Answers → Message
unfolding first_bytes
message_of d receiver a = record {
  msg_id = a.id_time % 2 ^ 32;
  type = d.type;
  priority = d.priority;
  timestamp = a.time;
  sender_id = d.sender_id;
  receiver_id = receiver;
  data_size = length d.content % 2 ^ 32;
  payload = some (first_bytes (length d.content % 2 ^ 32) d.content);
}

-- Slot `i` has the receiver. A thread whose queue was destroyed has a NULL queue.
unfoldable pub send_to : Answers → Draft → ℕ → ℕ → Comm → Reply Bool
unfolding message_of enqueue put_thread
send_to a d receiver i s = elim (thread_at i s.threads) [
  | none ↦ faults
  | some t ↦
      (if a.data_ok
        then elim (t.msg_queue) [
          | none ↦ faults
          | some q ↦ elim (enqueue a.node_ok a.copy_ok (message_of d receiver a) q) [
            | none ↦ leave false queue_full s
            | some q' ↦ leave true no_error (record s {
              threads =
                  put_thread i
                    (record t { msg_queue = some q'; message_count = next_32 t.message_count })
                    s.threads;
              stats = record (s.stats) {
                messages_sent = add_64 s.stats.messages_sent 1;
                bytes_sent = add_64 s.stats.bytes_sent (length d.content);
              };
            })
          ]
        ]
        else leave false out_of_memory s)
]

-- `true` is the return of 0. A NULL pointer to the data is an empty content here.
unfoldable pub send_message : Answers → Draft → ℕ → Comm → Reply Bool
send_message a d receiver s =
    if not s.initialized || length d.content == 0
    then returns false (set_error invalid_param s)
    else if ltb s.config.max_msg_size (length d.content)
    then returns false (set_error message_too_large s)
    else lock s (λ s₁. elim (find_thread_by_id receiver s₁.threads) [
      | none ↦ leave false thread_not_found s₁
      | some i ↦ send_to a d receiver i s₁
    ])

-- A round of the loop of `thread_comm_receive_message`, for slot `i`, the mutex held. A `limit` of
-- 0 stands for each `timeout_ms` that is not positive; `elapsed` is the time since the call.
unfoldable pub receive_round : Bool → ℕ → ℕ → ℕ → Comm → Reply (Option Message)
unfolding dequeue put_thread
receive_round copy_ok limit elapsed i s = elim (thread_at i s.threads) [
  | none ↦ faults
  | some t ↦ elim (t.msg_queue) [
    | none ↦ faults
    | some q ↦ elim (dequeue copy_ok q) [
      | fault ↦ faults
      | empty ↦
          (if ltb 0 limit && leb limit elapsed
            then returns none (unlock (set_error timeout s))
            else waits (unlock s))
      | taken m q' ↦ leave (some m) no_error (record s {
        threads = put_thread i (record t { msg_queue = some q' }) s.threads;
        stats = record (s.stats) {
          messages_received = add_64 s.stats.messages_received 1;
          bytes_received = add_64 s.stats.bytes_received m.data_size;
        };
      })
    ]
  ]
]

-- Up to the first wait.
unfoldable pub receive_message : Bool → ℕ → ℕ → ℕ → Comm → Reply (Option Message)
receive_message copy_ok limit elapsed receiver s =
    if s.initialized
    then lock s (λ s₁. elim (find_thread_by_id receiver s₁.threads) [
      | none ↦ leave none thread_not_found s₁
      | some i ↦ receive_round copy_ok limit elapsed i s₁
    ])
    else returns none (set_error invalid_param s)

-- After a wait, when the mutex is held again.
unfoldable pub receive_again : Bool → ℕ → ℕ → ℕ → Comm → Reply (Option Message)
unfolding receive_round
receive_again copy_ok limit elapsed i s = lock s (λ s₁. receive_round copy_ok limit elapsed i s₁)

abbrev pub count_sent : Bool → ℕ → ℕ
count_sent sent n = if sent then n + 1 else n

-- The loop of `thread_comm_broadcast_message` from slot `i`, with the rounds left and the successes
-- so far. It holds the mutex, and calls `thread_comm_send_message`.
unfoldable pub broadcast_loop : Answers → Draft → ℕ → ℕ → ℕ → Comm → Reply (Option ℕ)
broadcast_loop a d zero i sent s = returns (some sent) s
broadcast_loop a d (suc n) i sent s = elim (thread_at i s.threads) [
  | none ↦ faults
  | some t ↦ elim (t.is_registered && not (t.thread_id == d.sender_id)) [
    | false ↦ broadcast_loop a d n (i + 1) sent s
    | true ↦ elim (send_message a d t.thread_id s) [
      | hangs ↦ hangs
      | faults ↦ faults
      | waits s' ↦ waits s'
      | returns ok s' ↦ broadcast_loop a d n (i + 1) (count_sent ok sent) s'
    ]
  ]
]

abbrev close : Reply (Option ℕ) → Reply (Option ℕ)
close (returns n s) = leave n no_error s
close r = r

-- `none` is -1.
unfoldable pub broadcast_message : Answers → Draft → Comm → Reply (Option ℕ)
unfolding broadcast_loop
broadcast_message a d s =
    if s.initialized
    then lock s (λ s₁. close (broadcast_loop a d (length s₁.threads) 0 0 s₁))
    else returns none (set_error not_initialized s)

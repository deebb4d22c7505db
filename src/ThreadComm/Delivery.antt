-- ===== src/ThreadComm/Delivery.antt =====
-- From a sender to a receiver.
use net_serve.Prelude.{
  ℕ, zero, suc, ◌+◌, ◌%◌, ◌^◌, ◌≡◌, ◌<◌, ◌≤◌, ◌∙◌, ap, subst, All, first_bytes, Bytes, refl, true,
  false, some, List, [], ◌∷◌, leb, if◌then◌else◌, arith, length, Bool-cases, inl, inr,
}
use net_serve.ThreadComm.Queue.{Message, Queue, insert, enqueue, dequeue, taken}
use net_serve.ThreadComm.Table.{
  Thread, Comm, returns, thread_at, put_thread, find_thread_by_id, has_id, no_error, next_32,
  add_64,
}
use net_serve.ThreadComm.Messages.{
  Draft, Answers, message_of, send_to, send_message, receive_message, receive_round,
}
use net_serve.ThreadComm.Deadlock.{IsSendable}
use net_serve.ThreadComm.Priority.{IsValid, Sorted}

first_bytes_all : (s : Bytes) → first_bytes (length s) s ≡ s
unfolding first_bytes
first_bytes_all [] = refl
first_bytes_all (c ∷ s) = ap (λ r. c ∷ r) (first_bytes_all s)

pub thread_at-put_thread :
    (i : ℕ) (u : Thread) (ts : List Thread) {t : Thread}
    → thread_at i ts ≡ some t
    → thread_at i (put_thread i u ts) ≡ some u
unfolding thread_at put_thread
thread_at-put_thread i u [] h = cc
thread_at-put_thread zero u (x ∷ ts) h = refl
thread_at-put_thread (suc i) u (x ∷ ts) h = thread_at-put_thread i u ts h

-- The slot that is found has the id, and is still the first one after a change that keeps the id.
pub thread_at-has_id :
    (id : ℕ) (ts : List Thread) (i : ℕ) {t : Thread}
    → find_thread_by_id id ts ≡ some i
    → thread_at i ts ≡ some t
    → has_id id t ≡ true
unfolding find_thread_by_id thread_at
thread_at-has_id id [] i h k = cc
thread_at-has_id id (x ∷ ts) zero h k = ground arith
thread_at-has_id id (x ∷ ts) (suc i) h k = thread_at-has_id id ts i (ground arith) k

find_thread_by_id-put_thread :
    (id : ℕ) (u : Thread) (ts : List Thread) (i : ℕ)
    → find_thread_by_id id ts ≡ some i
    → has_id id u ≡ true
    → find_thread_by_id id (put_thread i u ts) ≡ some i
unfolding find_thread_by_id put_thread
find_thread_by_id-put_thread id u [] i h k = cc
find_thread_by_id-put_thread id u (x ∷ ts) zero h k = rw k refl
find_thread_by_id-put_thread id u (x ∷ ts) (suc i) h k =
    ground (arith, find_thread_by_id-put_thread id u ts i)

-- The message that a receiver gets next, once `m` was put among the others.
abbrev pub next_up : Message → List Message → Message
next_up m [] = m
next_up m (x ∷ xs) = if leb m.priority x.priority then x else m

next_up-insert :
    (m : Message) (ms : List Message) → (rest : List Message) × (insert m ms ≡ next_up m ms ∷ rest)
unfolding insert
next_up-insert m [] = ([], refl)
next_up-insert m (x ∷ xs) = elim (Bool-cases (leb m.priority x.priority)) [
  | inl e ↦ (insert m xs, rw e refl)
  | inr e ↦ (x ∷ xs, rw e refl)
]

enqueue_room :
    (m : Message) (q : Queue)
    → q.size < q.max_size
    → enqueue true true m q ≡ some (record q { messages = insert m q.messages; size = q.size + 1 })
unfolding enqueue
enqueue_room m q h = ground arith

dequeue-insert :
    (m : Message) (q : Queue)
    → (rest : List Message) × (dequeue true
          (record q { messages = insert m q.messages; size = q.size + 1 })
        ≡ taken (next_up m q.messages) (record q { messages = rest }))
unfolding dequeue
dequeue-insert m q = let (rest, e) = next_up-insert m q.messages in (rest, ground (arith, e))

-- The answers where memory suffices.
abbrev pub enough : ℕ → Answers
enough now = record { data_ok = true; node_ok = true; copy_ok = true; id_time = now; time = now }

abbrev with_queue : Thread → Queue → Thread
with_queue t q = record t { msg_queue = some q; message_count = next_32 t.message_count }

-- The state behind a message that was sent to slot `i`.
abbrev after_send : Draft → ℕ → Thread → Comm → Comm
after_send d i t s = record s {
  locked = false;
  last_error = no_error;
  threads = put_thread i t s.threads;
  stats = record (s.stats) {
    messages_sent = add_64 s.stats.messages_sent 1;
    bytes_sent = add_64 s.stats.bytes_sent (length d.content);
  };
}

-- The state behind a message that was taken from slot `i`.
abbrev after_receive : ℕ → Thread → Queue → Message → Comm → Comm
after_receive i t q m s = record s {
  locked = false;
  last_error = no_error;
  threads = put_thread i (record t { msg_queue = some q }) s.threads;
  stats = record (s.stats) {
    messages_received = add_64 s.stats.messages_received 1;
    bytes_received = add_64 s.stats.bytes_received m.data_size;
  };
}

send_message_room :
    (now receiver i : ℕ) (d : Draft) (s : Comm) (t : Thread) (q : Queue)
    → s.initialized ≡ true
    → s.locked ≡ false
    → IsSendable d s
    → find_thread_by_id receiver s.threads ≡ some i
    → thread_at i s.threads ≡ some t
    → t.msg_queue ≡ some q
    → q.size < q.max_size
    → let m = message_of d receiver (enough now) in
      send_message (enough now) d receiver s
      ≡ returns true (
          after_send d i
            (with_queue t (record q { messages = insert m q.messages; size = q.size + 1 }))
            s)
unfolding send_message send_to
send_message_room now receiver i d s t q init free h f at e room =
    ground (arith, enqueue_room (message_of d receiver (enough now)) q room)

receive_message_taken :
    (limit elapsed receiver i : ℕ) (s : Comm) (t : Thread) (q q' : Queue) (m : Message)
    → s.initialized ≡ true
    → s.locked ≡ false
    → find_thread_by_id receiver s.threads ≡ some i
    → thread_at i s.threads ≡ some t
    → t.msg_queue ≡ some q
    → dequeue true q ≡ taken m q'
    → receive_message true limit elapsed receiver s ≡ returns (some m) (after_receive i t q' m s)
unfolding receive_message receive_round
receive_message_taken limit elapsed receiver i s t q q' m init free f at e h = ground arith

All-le :
    (a b : ℕ) (ms : List Message)
    → a ≤ b
    → All (λ n. n.priority ≤ a) ms
    → All (λ n. n.priority ≤ b) ms
All-le a b [] le h = tt
All-le a b (m ∷ ms) le h = (omega (arith, h.0), All-le a b ms le h.1)

-- In a sorted queue it is one of the highest priority.
next_up-top :
    (m : Message) (ms : List Message)
    → Sorted ms
    → All (λ n. n.priority ≤ (next_up m ms).priority) (m ∷ ms)
next_up-top m [] s = (omega arith, tt)
next_up-top m (x ∷ xs) s = elim (Bool-cases (leb m.priority x.priority)) [
  | inl e ↦
      (let first : x ≡ next_up m (x ∷ xs) = rw e refl in
        let le : m.priority ≤ x.priority = ground (arith, e) in
        subst (λ k. All (λ n. n.priority ≤ k.priority) (m ∷ x ∷ xs)) first (le, (omega arith, s.0)))
  | inr e ↦
      (let first : m ≡ next_up m (x ∷ xs) = rw e refl in
        let lt : x.priority ≤ m.priority = ground (arith, e) in
        subst (λ k. All (λ n. n.priority ≤ k.priority) (m ∷ x ∷ xs)) first
          (omega arith, (lt, All-le x.priority m.priority xs lt s.0)))
]

-- A message shorter than 4 GiB that can be sent, to a registered thread whose queue is valid and has
-- room, is sent whole. A receive on that thread then returns a message of the highest priority that is
-- there: the one sent, unless one of its priority or a higher one was there before, and else the first
-- of the queue.
pub receive_message-send_message :
    (now limit elapsed receiver i : ℕ) (d : Draft) (s : Comm) (t : Thread) (q : Queue)
    → s.initialized ≡ true
    → s.locked ≡ false
    → IsSendable d s
    → length d.content < 2 ^ 32
    → find_thread_by_id receiver s.threads ≡ some i
    → thread_at i s.threads ≡ some t
    → t.msg_queue ≡ some q
    → IsValid q
    → q.size < q.max_size
    → (s' : Comm) × (s'' : Comm) × (send_message (enough now) d receiver s ≡ returns true s')
      × (receive_message true limit elapsed receiver s'
          ≡ returns (some (next_up (message_of d receiver (enough now)) q.messages)) s'')
      × ((message_of d receiver (enough now)).payload ≡ some d.content)
      × ((message_of d receiver (enough now)).data_size ≡ length d.content)
      × All
          (λ n. n.priority ≤ (next_up (message_of d receiver (enough now)) q.messages).priority)
          (message_of d receiver (enough now) ∷ q.messages)
unfolding message_of
receive_message-send_message now limit elapsed receiver i d s t q init free h small f at e v room =
    let m = message_of d receiver (enough now) in
    let t' = with_queue t (record q { messages = insert m q.messages; size = q.size + 1 }) in
    let s' = after_send d i t' s in
    let (rest, r) = dequeue-insert m q in
    let size : length d.content % 2 ^ 32 ≡ length d.content = omega (arith, small) in
    (
      s',
      after_receive i t' (record q { messages = rest }) (next_up m q.messages) s',
      send_message_room now receiver i d s t q init free h f at e room,
      receive_message_taken limit elapsed receiver i s' t'
          (record q { messages = insert m q.messages; size = q.size + 1 })
          (record q { messages = rest }) (next_up m q.messages) init refl
          (find_thread_by_id-put_thread receiver t' s.threads i f
            (thread_at-has_id receiver s.threads i f at))
          (thread_at-put_thread i t' s.threads at) refl r,
      ap some (ap (λ k. first_bytes k d.content) size ∙ first_bytes_all d.content),
      size,
      next_up-top m q.messages v.sorted,
    )

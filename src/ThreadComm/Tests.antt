-- ===== src/ThreadComm/Tests.antt =====
-- Runs of the communication between threads, and its theorems at concrete inputs.
use net_serve.Prelude.{
  All, length, ◌≤◌, ℕ, ◌≡◌, refl, true, false, some, [], ◌∷◌, if◌then◌else◌, arith,
}
use net_serve.ThreadComm.Queue.{Message, Queue, insert}
use net_serve.ThreadComm.Priority.{IsValid, Enqueues, Dequeues, queue_is_lanes}
use net_serve.ThreadComm.Table.{
  Thread, Comm, hangs, returns, leave, no_error, vacant, no_stats, default_config,
  find_thread_by_id, thread_at, no_error,
}
use net_serve.ThreadComm.Messages.{
  Draft, message_of, send_message, receive_message, broadcast_message,
}
use net_serve.ThreadComm.Deadlock.{has_other, broadcast_message-hangs}
use net_serve.ThreadComm.Delivery.{enough, next_up, receive_message-send_message}
use net_serve.ThreadComm.Mutexes.{Slot, Mutexes}

abbrev note : ℕ → ℕ → Message
note id p = record {
  msg_id = id;
  type = 0;
  priority = p;
  timestamp = 0;
  sender_id = 1;
  receiver_id = 2;
  data_size = 1;
  payload = some (b'x' ∷ []);
}

abbrev mixed : Queue
mixed = record { messages = note 1 2 ∷ note 2 1 ∷ []; size = 2; max_size = 3 }

mixed-IsValid : IsValid mixed
mixed-IsValid = record { counted = refl; sorted = ((omega arith, tt), (tt, tt)) }

behind_equals : insert (note 3 2) mixed.messages ≡ note 1 2 ∷ note 3 2 ∷ note 2 1 ∷ []
unfolding insert
behind_equals = refl

queue_is_lanes_example : Enqueues (note 3 2) mixed × Dequeues true mixed
queue_is_lanes_example = queue_is_lanes (note 3 2) true mixed mixed-IsValid

abbrev writer : Thread
writer = record vacant { thread_id = 1; is_registered = true }

abbrev reader : Thread
reader = record vacant { thread_id = 2; is_registered = true; msg_queue = some mixed }

abbrev comm : Comm
comm = record {
  initialized = true;
  locked = false;
  config = default_config;
  threads = writer ∷ reader ∷ [];
  counter = 2;
  active_thread_count = 2;
  stats = no_stats;
  last_error = no_error;
}

abbrev draft : Draft
draft = record { sender_id = 1; type = 0; priority = 3; content = b'x' ∷ [] }

broadcast_message-hangs_example :
    broadcast_message (enough 5) draft comm
    ≡ (if has_other 1 comm.threads then hangs else leave (some 0) no_error comm)
broadcast_message-hangs_example =
    broadcast_message-hangs (enough 5) draft comm refl refl (omega arith, omega arith)

-- With another thread registered, it does hang.
broadcast_waits : broadcast_message (enough 5) draft comm ≡ hangs
unfolding has_other
broadcast_waits = broadcast_message-hangs (enough 5) draft comm refl refl (omega arith, omega arith)

receive_message-send_message_example :
    (s' : Comm) × (s'' : Comm) × (send_message (enough 5) draft 2 comm ≡ returns true s')
    × (receive_message true 0 0 2 s'
        ≡ returns (some (next_up (message_of draft 2 (enough 5)) mixed.messages)) s'')
    × ((message_of draft 2 (enough 5)).payload ≡ some draft.content)
    × ((message_of draft 2 (enough 5)).data_size ≡ length draft.content)
    × All
        (λ n. n.priority ≤ (next_up (message_of draft 2 (enough 5)) mixed.messages).priority)
        (message_of draft 2 (enough 5) ∷ mixed.messages)
unfolding find_thread_by_id thread_at
receive_message-send_message_example =
    receive_message-send_message 5 0 0 2 1 draft comm reader mixed refl refl
      (omega arith, omega arith) (omega arith) refl refl refl mixed-IsValid (omega arith)

abbrev slot : ℕ → Slot
slot c = record { name = c ∷ []; is_initialized = true }

abbrev free_slot : Slot
free_slot = record { name = []; is_initialized = false }

abbrev mutexes : Mutexes
mutexes = record { slots = slot b'a' ∷ slot b'b' ∷ free_slot ∷ []; mutex_count = 2 }

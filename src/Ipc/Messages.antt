-- ===== src/Ipc/Messages.antt =====
-- Sending and receiving over src/ipc/ipc_unified.c, the end of the module and the count.
use net_serve.Prelude.{
  ℕ, suc, Bool, true, false, Option, none, some, List, [], ◌∷◌, Bytes, length, if◌then◌else◌,
}
use net_serve.Config.Store.{ℤ, pos, negsuc}
use net_serve.Ipc.{
  Kind, socket, pipe, shmem, msgqueue, semaphore, mutex, no_kind, Private, Connection, Call, sends,
  receives, Ipc, Reply, hangs, faults, returns, lock, leave, add_64, connection_at,
}
use net_serve.Ipc.Table.{is_connected, disconnect}

-- What the function of a kind answers, if it returns: `ipc_socket_receive_message` may stay in its
-- loop.
pub data Answered (A : Type 0) : Type 0 where
  never : Answered A
  gives : A → Answered A

-- Semaphores and mutexes carry no messages.
unfoldable pub has_messages : Kind → Bool
has_messages socket = true
has_messages pipe = true
has_messages shmem = true
has_messages msgqueue = true
has_messages semaphore = false
has_messages mutex = false
has_messages no_kind = false

abbrev pub over : Kind → Option Private → (Private → Call) → Option Call
over k none call = none
over k (some p) call = if has_messages k then some (call p) else none

unfoldable pub send_message_by_type : Connection → Bytes → Option Call
unfolding has_messages
send_message_by_type c bytes = over c.type c.private_data (λ p. sends c.type p bytes)

unfoldable pub receive_message_by_type : Connection → Option Call
unfolding has_messages
receive_message_by_type c = over c.type c.private_data (λ p. receives c.type p)

abbrev pub called : Call → Ipc → Ipc
called c s = record s { calls = c ∷ s.calls }

abbrev pub count_sent : Bytes → Ipc → Ipc
count_sent bytes s = record s {
  stats = record (s.stats) {
    messages_sent = add_64 s.stats.messages_sent 1;
    bytes_sent = add_64 s.stats.bytes_sent (length bytes);
  };
}

abbrev pub count_received : ℕ → Ipc → Ipc
count_received size s = record s {
  stats = record (s.stats) {
    messages_received = add_64 s.stats.messages_received 1;
    bytes_received = add_64 s.stats.bytes_received size;
  };
}

-- The statistics change under the mutex, once the call of the kind succeeded.
abbrev pub finish_send : Answered Bool → Bytes → Call → Ipc → Reply Bool
finish_send never bytes c s = hangs
finish_send (gives false) bytes c s = returns false (called c s)
finish_send (gives true) bytes c s = lock (called c s) (λ s₁. leave true (count_sent bytes s₁))

abbrev pub send_over : Answered Bool → Bytes → Option Call → Ipc → Reply Bool
send_over ok bytes none s = returns false s
send_over ok bytes (some c) s = finish_send ok bytes c s

abbrev pub send_at : Answered Bool → Bytes → Option Connection → Ipc → Reply Bool
send_at ok bytes none s = faults
send_at ok bytes (some c) s = send_over ok bytes (send_message_by_type c bytes) s

abbrev pub slot_of : ℤ → Ipc → Option Connection
slot_of (negsuc n) s = none
slot_of (pos n) s = connection_at n s.connections

abbrev pub then_if : {A : Type 0} → Reply Bool → A → (Ipc → Reply A) → Reply A
then_if hangs a k = hangs
then_if faults a k = faults
then_if (returns true s) a k = k s
then_if (returns false s) a k = returns a s

-- With the answer of the kind's function. `true` is the return of 0.
unfoldable pub send_message : Answered Bool → ℤ → Bytes → Ipc → Reply Bool
unfolding is_connected connection_at send_message_by_type
send_message ok j [] s = returns false s
send_message ok j (b ∷ bytes) s =
    then_if (is_connected j s) false (λ s₁. send_at ok (b ∷ bytes) (slot_of j s₁) s₁)

-- Of the kinds only shared memory leaves `*size` as the caller set it.
abbrev pub size_of : Kind → ℕ → Bytes → ℕ
size_of shmem size bytes = size
size_of k size bytes = length bytes

abbrev pub receive_over :
    Answered (Option Bytes) → ℕ → Kind → Option Call → Ipc → Reply (Option Bytes)
receive_over bytes size k none s = returns none s
receive_over never size k (some c) s = hangs
receive_over (gives none) size k (some c) s = returns none (called c s)
receive_over (gives (some bytes)) size k (some c) s =
    lock (called c s) (λ s₁. leave (some bytes) (count_received (size_of k size bytes) s₁))

abbrev pub receive_at : Answered (Option Bytes) → ℕ → Option Connection → Ipc → Reply (Option Bytes)
receive_at bytes size none s = faults
receive_at bytes size (some c) s = receive_over bytes size c.type (receive_message_by_type c) s

-- With what the kind's function receives, and with `*size` before the call.
unfoldable pub receive_message : Answered (Option Bytes) → ℕ → ℤ → Ipc → Reply (Option Bytes)
unfolding is_connected connection_at receive_message_by_type
receive_message bytes size j s =
    then_if (is_connected j s) none (λ s₁. receive_at bytes size (slot_of j s₁) s₁)

-- With the answer for each message; the first failure ends the loop.
unfoldable pub send_all : ℤ → List (Answered Bool × Bytes) → Ipc → Reply Bool
unfolding send_message
send_all j [] s = returns true s
send_all j ((ok, bytes) ∷ rest) s =
    then_if (send_message ok j bytes s) false (λ s₁. send_all j rest s₁)

unfoldable pub send_batch : ℤ → List (Answered Bool × Bytes) → Ipc → Reply Bool
unfolding send_all
send_batch j [] s = returns false s
send_batch j (m ∷ ms) s = if s.initialized then send_all j (m ∷ ms) s else returns false s

abbrev pub after : {A B : Type 0} → Reply A → (Ipc → Reply B) → Reply B
after hangs k = hangs
after faults k = faults
after (returns a s) k = k s

-- The loop of `ipc_unified_cleanup` over the slots from `i` on, which holds the mutex that
-- `ipc_unified_disconnect` locks.
unfoldable pub cleanup_loop : ℕ → List Connection → Ipc → Reply (Unit {0})
unfolding disconnect
cleanup_loop i [] s = returns tt s
cleanup_loop i (c ∷ cs) s =
    if c.is_connected
    then after (disconnect (pos i) s) (λ s₁. cleanup_loop (suc i) cs s₁)
    else cleanup_loop (suc i) cs s

-- `pthread_mutex_destroy` on the mutex that the call holds is undefined.
abbrev ended : Ipc → Reply (Unit {0})
ended s =
    if s.locked then faults else returns tt (record s { initialized = false; connections = [] })

unfoldable pub cleanup : Ipc → Reply (Unit {0})
unfolding cleanup_loop
cleanup s =
    if s.initialized
    then lock s (λ s₁. after (cleanup_loop 0 s₁.connections s₁) ended)
    else returns tt s

-- `none` is -1.
unfoldable pub get_connection_count : Ipc → Reply (Option ℕ)
get_connection_count s =
    if s.initialized then lock s (λ s₁. leave (some s₁.stats.connections) s₁) else returns none s

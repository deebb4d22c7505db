-- ===== src/Ipc/Tests.antt =====
-- Tests and examples of src/ipc/ipc_unified.c.
use net_serve.Prelude.{
  arith, map, ◌++◌, ℕ, ◌≡◌, refl, Bool, true, false, Option, some, [], ◌∷◌, ◌==◌, Bytes,
}
use net_serve.Config.Store.{ℤ, pos}
use net_serve.Ipc.{
  faults, Kind, pipe, shmem, cell, Connection, sends, Ipc, Reply, hangs, faults, returns,
  free_connection, connection_at, put_connection, blanks, no_stats, init,
}
use net_serve.Ipc.Table.{
  frees, Answers, connect_client_by_type, private_of, connect_to_server, disconnect, is_connected,
}
use net_serve.Ipc.Whole.{IsWhole, init-IsWhole}
use net_serve.Ipc.Messages.{gives, send_message, receive_message, cleanup, send_over, over}
use net_serve.Ipc.Messaging.{Goes}
use net_serve.Ipc.Connections.{here, next, connect, send, Reach-IsWhole}
use net_serve.Ipc.Lifetime.{restored, connect_to_server_lem, cleanup_lem, handle}
use net_serve.Ipc.Framing
use net_serve.Ipc.Framing.{moves, size_bytes, done, receiving}
use net_serve.Ipc.Delivery.{
  Turn, IsServed, send_turns, receive_turns, receive_turns-send_turns, receive_message_loops,
}

abbrev off : Ipc
off = record {
  initialized = false;
  locked = false;
  connections = [];
  max_connections = 0;
  stats = no_stats;
  calls = [];
}

abbrev start : Ipc
start = (init true off).1

start-IsWhole : IsWhole start
start-IsWhole = init-IsWhole off refl

-- Descriptor 7 and segments at 64 and 128.
abbrev answers : Answers
answers = record {
  endpoint = some 7;
  malloc_ok = true;
  malloc_again_ok = true;
  attached = some 64;
  attached_again = some 128;
  pid = 42;
}

abbrev name : Bytes
name = b'a' ∷ b'p' ∷ b'p' ∷ []

abbrev state : {A : Type 0} → Reply A → Ipc
state hangs = off
state faults = off
state (returns a s) = s

abbrev joined : Kind → Ipc
joined k = state (connect_to_server answers name k start)

connects_first : connect_to_server answers name pipe start ≡ returns (some 0) (joined pipe)
unfolding connect_to_server init blanks free_connection connection_at put_connection
    connect_client_by_type private_of
connects_first = refl

connects_shared : connect_to_server answers name shmem start ≡ returns (some 0) (joined shmem)
unfolding connect_to_server init blanks free_connection connection_at put_connection
    connect_client_by_type private_of
connects_shared = refl

abbrev sent : Ipc
sent = state (send_message (gives true) (pos 0) name (joined pipe))

sends_to_seven :
    (send_message (gives true) (pos 0) name (joined pipe) ≡ returns true sent)
    × (sent.calls ≡ sends pipe (cell 7) name ∷ [])
    × (sent.stats.bytes_sent ≡ 3)
unfolding connect_to_server init blanks free_connection connection_at put_connection
    connect_client_by_type private_of send_message is_connected
sends_to_seven = (refl, refl, refl)

Reach-IsWhole_example :
    IsWhole sent
    × ((ok : Bool) (j : ℤ) (text : Bytes) → Goes sent (send_message (gives ok) j text sent))
    × ((got : Option Bytes) (size : ℕ) (j : ℤ)
        → Goes sent (receive_message (gives got) size j sent))
Reach-IsWhole_example = Reach-IsWhole start sent start-IsWhole (
    next (next here (connect answers name pipe connects_first))
      (send true (pos 0) name sends_to_seven.0))

connect_to_server_lem_example :
    (old : Connection) × (connection_at 0 start.connections ≡ some old)
    × (old.is_connected ≡ false)
    × ((j : ℕ)
        → (0 == j) ≡ false
        → connection_at j (joined pipe).connections ≡ connection_at j start.connections)
    × (is_connected (pos 0) (joined pipe) ≡ returns true (joined pipe))
    × (send_message (gives true) (pos 0) name (joined pipe)
        ≡ send_over
            (gives true)
            name
            (over pipe (handle pipe answers) (λ p. sends pipe p name))
            (joined pipe))
    × (disconnect (pos 0) (joined pipe) ≡ returns true (restored 0 pipe name old start))
connect_to_server_lem_example =
    connect_to_server_lem answers name pipe start (joined pipe) 0 b'a' (gives true)
      (b'p' ∷ b'p' ∷ []) start-IsWhole connects_first

shared_faults : disconnect (pos 0) (joined shmem) ≡ faults
unfolding disconnect frees connect_to_server init blanks free_connection connection_at
    put_connection connect_client_by_type private_of
shared_faults = refl

cleanup_lem_example : cleanup start ≡ faults
unfolding init
cleanup_lem_example = cleanup_lem start start-IsWhole

-- Three bytes, sent in two pieces and received in three.
abbrev turn : Turn
turn = record {
  text = name;
  size_sent = 4;
  sends = moves 1 ∷ moves 5 ∷ moves 1 ∷ [];
  size_received = 4;
  receives = moves 1 ∷ moves 1 ∷ moves 1 ∷ [];
}

abbrev longer : Turn
longer = record {
  text = b'x' ∷ name;
  size_sent = 8;
  sends = moves 2 ∷ moves 2 ∷ moves 1 ∷ moves 1 ∷ [];
  size_received = 4;
  receives = moves 4 ∷ moves 1 ∷ moves 1 ∷ moves 1 ∷ [];
}

turn-IsServed : IsServed turn
turn-IsServed = record {
  some_text = omega arith;
  fits = omega arith;
  size_sent = omega arith;
  sends_live = (omega arith, (omega arith, (omega arith, tt)));
  sends_enough = omega arith;
  size_received = omega arith;
  receives_live = (omega arith, (omega arith, (omega arith, tt)));
  receives_enough = omega arith;
}

longer-IsServed : IsServed longer
longer-IsServed = record {
  some_text = omega arith;
  fits = omega arith;
  size_sent = omega arith;
  sends_live = (omega arith, (omega arith, (omega arith, (omega arith, tt))));
  sends_enough = omega arith;
  size_received = omega arith;
  receives_live = (omega arith, (omega arith, (omega arith, (omega arith, tt))));
  receives_enough = omega arith;
}

receive_turns-send_turns_example :
    (s : Bytes) × (send_turns (turn ∷ longer ∷ []) [] ≡ done s)
    × (receive_turns (turn ∷ longer ∷ []) s ≡ some (map (λ t. t.text) (turn ∷ longer ∷ []), []))
receive_turns-send_turns_example =
    receive_turns-send_turns (turn ∷ longer ∷ []) (turn-IsServed, (longer-IsServed, tt))

receive_message_loops_example :
    (there s : Bytes) × (Framing.receive_message
        (moves 4 ∷ moves 2 ∷ moves 0 ∷ moves 0 ∷ [])
        (size_bytes 5 ++ name)
      ≡ receiving there s)
receive_message_loops_example =
    receive_message_loops 4 5 (moves 2 ∷ moves 0 ∷ moves 0 ∷ []) name (omega arith) (omega arith)
      (omega arith) (tt, (tt, (tt, tt)))

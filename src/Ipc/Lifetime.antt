-- ===== src/Ipc/Lifetime.antt =====
-- One connection from its start to its end, and the end of the module.
use net_serve.Prelude.{
  ℕ, suc, ◌+◌, ◌%◌, ◌^◌, ◌<◌, ◌≡◌, sym, ap, refl, subst, Bool, true, false, Option, none, some,
  List, [], ◌∷◌, ◌==◌, Bytes, length, if◌then◌else◌, arith, Bool-cases, Option-cases, inl, inr, ltb,
  first_bytes,
}
use net_serve.Config.Store.{pos}
use net_serve.Ipc.{
  Kind, socket, pipe, shmem, msgqueue, semaphore, mutex, no_kind, Private, Connection, sends,
  cleans, Ipc, hangs, faults, returns, connection_at, put_connection,
}
use net_serve.Ipc.Table.{
  Answers, reset, connect_client_by_type, private_of, filled, connect_to_server, disconnect,
  is_connected, frees, is_some, max,
}
use net_serve.Ipc.Slots.{
  count, Slots-at, at-put_connection, count-length, unused-private_data, put-put_connection,
}
use net_serve.Ipc.Messages.{
  Answered, send_message, cleanup, cleanup_loop, send_over, send_message_by_type, over,
}
use net_serve.Ipc.Whole.{IsWhole, connected, connect_to_server-some}

-- Whether a connection holds an attached segment.
abbrev pub keeps_segment : Kind → Answers → Bool
keeps_segment shmem a = is_some a.attached_again
keeps_segment socket a = false
keeps_segment pipe a = false
keeps_segment msgqueue a = false
keeps_segment semaphore a = false
keeps_segment mutex a = false
keeps_segment no_kind a = false

frees-private_of :
    (k : Kind) (a : Answers) (h : ℕ)
    → frees socket (private_of k a h none) ≡ (if keeps_segment k a then false else true)
unfolding frees private_of
frees-private_of shmem a h = elim (Option-cases a.attached_again) [
  | inl q ↦ ground (arith, q)
  | inr (p, q) ↦ ground (arith, q)
]
frees-private_of no_kind a h = refl
frees-private_of socket a h = ground arith
frees-private_of pipe a h = ground arith
frees-private_of msgqueue a h = ground arith
frees-private_of semaphore a h = ground arith
frees-private_of mutex a h = ground arith

-- The handle that a connection to `h` keeps.
abbrev kept : Kind → Answers → Option ℕ → Option Private
kept k a none = none
kept k a (some h) = private_of k a h none

abbrev pub handle : Kind → Answers → Option Private
handle k a = kept k a (connect_client_by_type k a)

-- The state before the connection `i`, but for the slot, which is cleared, the peak, and the call of
-- the kind's cleanup.
abbrev pub restored : ℕ → Kind → Bytes → Connection → Ipc → Ipc
restored i k name old s = record s {
  locked = false;
  connections = put_connection i (record (reset old) { private_data = none }) s.connections;
  stats = record (s.stats) {
    max_connections = max (s.stats.connections + 1) s.stats.max_connections;
  };
  calls = cleans k (first_bytes 63 name) ∷ s.calls;
}

connected-is_connected :
    (i h : ℕ) (old : Connection) (k : Kind) (a : Answers) (name : Bytes) (s : Ipc)
    → IsWhole s
    → i < length s.connections
    → is_connected (pos i) (connected i old k a name h s)
      ≡ returns true (connected i old k a name h s)
unfolding is_connected
connected-is_connected i h old k a name s v lt =
    let new : Connection = filled i k a name h old in
    let there : connection_at i (put_connection i new s.connections) ≡ some new =
      ground (arith, at-put_connection i i new s.connections lt) in
    let inside : ltb i s.max_connections ≡ true = ground (arith, lt, v.full) in
    ground (arith, v.runs, inside, there)

connected-send_message :
    (i h x : ℕ) (old : Connection) (k : Kind) (a : Answers) (name text : Bytes) (ok : Answered Bool)
    (s : Ipc)
    → IsWhole s
    → i < length s.connections
    → send_message ok (pos i) (x ∷ text) (connected i old k a name h s)
      ≡ send_over ok
          (x ∷ text)
          (over k (private_of k a h old.private_data) (λ p. sends k p (x ∷ text)))
          (connected i old k a name h s)
unfolding send_message send_message_by_type
connected-send_message i h x old k a name text ok s v lt =
    let new : Connection = filled i k a name h old in
    let there : connection_at i (put_connection i new s.connections) ≡ some new =
      ground (arith, at-put_connection i i new s.connections lt) in
    rw (connected-is_connected i h old k a name s v lt, there) refl

connected-disconnect :
    (i h : ℕ) (old : Connection) (k : Kind) (a : Answers) (name : Bytes) (s : Ipc)
    → IsWhole s
    → i < length s.connections
    → s.stats.connections + 1 < 2 ^ 64
    → old.private_data ≡ none
    → disconnect (pos i) (connected i old k a name h s)
      ≡ (if keeps_segment k a then faults else returns true (restored i k name old s))
unfolding disconnect
connected-disconnect i h old k a name s v lt few empty =
    let new : Connection = filled i k a name h old in
    let there : connection_at i (put_connection i new s.connections) ≡ some new =
      ground (arith, at-put_connection i i new s.connections lt) in
    let inside : ltb i s.max_connections ≡ true = ground (arith, lt, v.full) in
    let fr : frees socket (private_of k a h old.private_data)
        ≡ (if keeps_segment k a then false else true) =
      subst (λ p. frees socket (private_of k a h p) ≡ (if keeps_segment k a then false else true))
        (sym empty) (frees-private_of k a h) in
    let n : (s.stats.connections + 1) % 2 ^ 64 ≡ s.stats.connections + 1 = omega (arith, few) in
    rw (v.runs, inside, there, fr, n)
      (ground (
        arith,
        put-put_connection i (record (reset old) { private_data = none }) new s.connections,
      ))

abbrev Used :
    Answers → Bytes → Kind → Ipc → ℕ → ℕ → Answered Bool → Bytes → Connection → Ipc → Type 0
Used a name k s i x ok text old t =
    ((j : ℕ) → (i == j) ≡ false → connection_at j t.connections ≡ connection_at j s.connections)
    × (is_connected (pos i) t ≡ returns true t)
    × (send_message ok (pos i) (x ∷ text) t
        ≡ send_over ok (x ∷ text) (over k (handle k a) (λ p. sends k p (x ∷ text))) t)
    × (disconnect (pos i) t
        ≡ (if keeps_segment k a then faults else returns true (restored i k name old s)))

-- A connection takes a slot that was free, and leaves the other slots. It is connected. If its kind
-- carries messages and it got a handle, what is sent over it goes to the function of its kind with
-- that handle, and else a send returns -1. When it disconnects, its slot is free again, with the id
-- -1, the other slots and the number of connections are as before, the peak stays, and the name was
-- cleaned up; but where the connection keeps an attached segment, that goes to `free`, which is
-- undefined.
pub connect_to_server_lem :
    (a : Answers) (name : Bytes) (k : Kind) (s t : Ipc) (i x : ℕ) (ok : Answered Bool)
    (text : Bytes)
    → IsWhole s
    → connect_to_server a name k s ≡ returns (some i) t
    → (old : Connection) × (connection_at i s.connections ≡ some old)
      × (old.is_connected ≡ false)
      × ((j : ℕ) → (i == j) ≡ false → connection_at j t.connections ≡ connection_at j s.connections)
      × (is_connected (pos i) t ≡ returns true t)
      × (send_message ok (pos i) (x ∷ text) t
          ≡ send_over ok (x ∷ text) (over k (handle k a) (λ p. sends k p (x ∷ text))) t)
      × (disconnect (pos i) t
          ≡ (if keeps_segment k a then faults else returns true (restored i k name old s)))
connect_to_server_lem a name k s t i x ok text v e =
    let (old, h, at, free, lt, g, same) = connect_to_server-some a name k s v e in
    let empty : old.private_data ≡ none =
      unused-private_data (0 + i) old (Slots-at 0 i s.connections v.slots at) free in
    let few : s.stats.connections + 1 < 2 ^ 64 =
      omega (arith, v.counted, count-length s.connections, v.full, v.small) in
    let held : private_of k a h old.private_data ≡ handle k a =
      subst (λ p. private_of k a h p ≡ handle k a) (sym empty) (sym (ap (kept k a) g)) in
    let (others, there, sent, gone) : Used a name k s i x ok text old t =
      subst (Used a name k s i x ok text old) (sym same) (
        λ j d. ground (arith, at-put_connection i j (filled i k a name h old) s.connections lt, d),
        connected-is_connected i h old k a name s v lt,
        rw (sym held) (connected-send_message i h x old k a name text ok s v lt),
        connected-disconnect i h old k a name s v lt few empty,
      ) in
    (old, at, free, others, there, sent, gone)

cleanup_loop-locked :
    (i : ℕ) (cs : List Connection) (s : Ipc)
    → s.initialized ≡ true
    → s.locked ≡ true
    → i + length cs ≡ s.max_connections
    → cleanup_loop i cs s ≡ (if count cs == 0 then returns tt s else hangs)
unfolding cleanup_loop disconnect count
cleanup_loop-locked i [] s r l e = refl
cleanup_loop-locked i (c ∷ cs) s r l e = elim (Bool-cases c.is_connected) [
  | inl d ↦
      (let inside : ltb i s.max_connections ≡ true = ground (arith, e) in
        ground (arith, d, r, l, inside))
  | inr d ↦ ground (arith, d, cleanup_loop-locked (suc i) cs s r l (omega (arith, e)))
]

-- The end of the module never returns in order: a connection that is still there makes the call wait
-- forever for the mutex that it holds, and without one it destroys that mutex while it holds it,
-- which is undefined.
pub cleanup_lem :
    (s : Ipc) → IsWhole s → cleanup s ≡ (if s.stats.connections == 0 then faults else hangs)
unfolding cleanup
cleanup_lem s v =
    let all =
      cleanup_loop-locked 0 s.connections (record s { locked = true }) v.runs refl
        (omega (arith, v.full)) in
    ground (arith, v.runs, v.unlocked, all, v.counted)

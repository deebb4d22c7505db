-- ===== src/Ipc/Table.antt =====
-- Connecting and disconnecting in src/ipc/ipc_unified.c, and the test of a connection.
use net_serve.Prelude.{
  ℕ, ◌-◌, Bool, true, false, Option, none, some, [], ◌∷◌, Bytes, ltb, first_bytes, if◌then◌else◌,
}
use net_serve.Config.Store.{ℤ, pos, negsuc}
use net_serve.Ipc.{
  socket, pipe, shmem, msgqueue, semaphore, mutex, no_kind, cell, segment, cleans, faults, returns,
  Kind, Private, Connection, Stats, Ipc, Reply, lock, leave, add_64, free_connection, connection_at,
  put_connection,
}

-- What `ipc_..._connect_client` answers, where `none` is negative; the two calls of `malloc`, of
-- which the first cell is never freed; the two of `ipc_shmem_attach`; and `getpid`.
pub record Answers : Type 0 where
  pub endpoint : Option ℕ
  pub malloc_ok : Bool
  pub malloc_again_ok : Bool
  pub attached : Option ℕ
  pub attached_again : Option ℕ
  pub pid : ℕ

abbrev pub is_some : {A : Type 0} → Option A → Bool
is_some none = false
is_some (some a) = true

abbrev guarded : Bool → Option ℕ → Option ℕ
guarded ok h = if ok then h else none

unfoldable pub connect_client_by_type : Kind → Answers → Option ℕ
connect_client_by_type shmem a = guarded (is_some a.attached) a.endpoint
connect_client_by_type no_kind a = none
connect_client_by_type socket a = guarded a.malloc_ok a.endpoint
connect_client_by_type pipe a = guarded a.malloc_ok a.endpoint
connect_client_by_type msgqueue a = guarded a.malloc_ok a.endpoint
connect_client_by_type semaphore a = guarded a.malloc_ok a.endpoint
connect_client_by_type mutex a = guarded a.malloc_ok a.endpoint

abbrev or_segment : Option Private → Option ℕ → Option Private
or_segment old none = old
or_segment old (some p) = some (segment p)

abbrev or_cell : Option Private → Bool → ℕ → Option Private
or_cell old ok h = if ok then some (cell h) else old

-- The `switch` that sets `private_data`, which keeps its value where memory or the segment fails.
unfoldable pub private_of : Kind → Answers → ℕ → Option Private → Option Private
private_of shmem a h old = or_segment old a.attached_again
private_of no_kind a h old = old
private_of socket a h old = or_cell old a.malloc_again_ok h
private_of pipe a h old = or_cell old a.malloc_again_ok h
private_of msgqueue a h old = or_cell old a.malloc_again_ok h
private_of semaphore a h old = or_cell old a.malloc_again_ok h
private_of mutex a h old = or_cell old a.malloc_again_ok h

abbrev pub max : ℕ → ℕ → ℕ
max a b = if ltb b a then a else b

abbrev pub one_more : Stats → Stats
one_more t = record t {
  connections = add_64 t.connections 1;
  max_connections = max (add_64 t.connections 1) t.max_connections;
}

abbrev pub one_less : Stats → Stats
one_less t = record t {
  connections = if ltb 0 t.connections then t.connections - 1 else t.connections;
}

-- The slot `i` as a connection to `h` fills it.
abbrev pub filled : ℕ → Kind → Answers → Bytes → ℕ → Connection → Connection
filled i k a name h old = record {
  id = pos i;
  type = k;
  is_connected = true;
  private_data = private_of k a h old.private_data;
  remote_pid = a.pid;
  remote_name = first_bytes 63 name;
}

-- The id of the connection, or `none` for -1.
unfoldable pub connect_to_server : Answers → Bytes → Kind → Ipc → Reply (Option ℕ)
unfolding free_connection connection_at put_connection connect_client_by_type private_of first_bytes
connect_to_server a name k s =
    if s.initialized
    then lock s (λ s₁. elim (free_connection s₁.connections) [
      | none ↦ leave none s₁
      | some i ↦ elim (connect_client_by_type k a) [
        | none ↦ leave none s₁
        | some h ↦ elim (connection_at i s₁.connections) [
          | none ↦ faults
          | some old ↦ leave (some i) (record s₁ {
            connections = put_connection i (filled i k a name h old) s₁.connections;
            stats = one_more s₁.stats;
          })
        ]
      ]
    ])
    else returns none s

-- Whether the second `switch` of a disconnection gives back what it gives back.
unfoldable pub frees : Kind → Option Private → Bool
frees k none = true
frees shmem (some (cell h)) = false
frees shmem (some (segment p)) = true
frees no_kind (some p) = true
frees k (some (cell h)) = true
frees k (some (segment p)) = false

abbrev pub reset : Connection → Connection
reset c = record {
  id = negsuc 0;
  type = socket;
  is_connected = false;
  private_data = c.private_data;
  remote_pid = 0;
  remote_name = [];
}

-- The type is reset in front of the `switch` over it.
abbrev pub disconnect_slot : ℕ → Connection → Ipc → Reply Bool
disconnect_slot i c s =
    if frees (reset c).type c.private_data
    then leave true (record s {
      connections = put_connection i (record (reset c) { private_data = none }) s.connections;
      stats = one_less s.stats;
      calls = cleans c.type c.remote_name ∷ s.calls;
    })
    else faults

-- The index that an id is, if it is one.
abbrev pub index : ℤ → ℕ → Option ℕ
index (negsuc n) m = none
index (pos n) m = if ltb n m then some n else none

-- `true` is the return of 0.
unfoldable pub disconnect : ℤ → Ipc → Reply Bool
unfolding connection_at put_connection frees
disconnect j s =
    if s.initialized
    then elim (index j s.max_connections) [
      | none ↦ returns false s
      | some i ↦ lock s (λ s₁. elim (connection_at i s₁.connections) [
        | none ↦ faults
        | some c ↦ if c.is_connected then disconnect_slot i c s₁ else leave false s₁
      ])
    ]
    else returns false s

unfoldable pub is_connected : ℤ → Ipc → Reply Bool
unfolding connection_at
is_connected j s =
    if s.initialized
    then elim (index j s.max_connections) [
      | none ↦ returns false s
      | some i ↦ lock s (λ s₁. elim (connection_at i s₁.connections) [
        | none ↦ faults
        | some c ↦ leave c.is_connected s₁
      ])
    ]
    else returns false s

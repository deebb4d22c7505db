-- ===== src/Network/Clients.antt =====
-- The table of clients against a sequence, and what the callbacks keep, in any order of events.
use net_serve.Prelude.{
  ℕ, ◌≤◌, ◌<◌, ◌≡◌, Bool, true, false, some, List, [], ◌∷◌, ◌++◌, Bytes, length, length-append,
  arith, Option-cases, inl, inr,
}
use net_serve.Network.{
  Config, Table, Server, expand_client_capacity, add_client, has, remove_client, close,
  on_client_close, on_new_connection, Read, on_read, opened, init_server, bytes, nothing, broken,
  received,
}
use net_serve.Prelude.{first_bytes}
use net_serve.Config.Text.{before}
use net_serve.Network.Handles.{
  Distinct, has-append, Distinct-append, has-remove_first, Distinct-remove_first,
  length-remove_first,
}

-- The clients stand once each and fit. Their handles are open, as are those that are closing, and
-- every open handle is one or the other.
pub record IsValid (s : Server) : Type 0 where
  pub distinct : Distinct s.table.clients
  pub fits : length s.table.clients ≤ s.table.capacity
  pub room : 0 < s.table.capacity
  pub alive_once : Distinct s.alive
  pub closing_once : Distinct s.closing
  pub clients_alive : (c : ℕ) → has c s.table.clients ≡ true → has c s.alive ≡ true
  pub closing_alive : (c : ℕ) → has c s.closing ≡ true → has c s.alive ≡ true
  pub covered :
      (c : ℕ) → has c s.alive ≡ true → has c s.table.clients ≡ false → has c s.closing ≡ true

pub data Step (s : Server) : Server → Type 0 where
  -- `malloc` gives the address of no open handle.
  connect :
      (status_ok accept_ok realloc_ok : Bool) (c : ℕ) {t : Server}
      → has c s.alive ≡ false
      → on_new_connection status_ok (some c) accept_ok realloc_ok s ≡ some t
      → Step s t
  read :
      (request_ok : Bool) (c : ℕ) (r : Read) {t : Server}
      → has c s.table.clients ≡ true
      → on_read request_ok c r s ≡ some t
      → Step s t
  closed : (c : ℕ) → has c s.closing ≡ true → Step s (on_client_close c s)

pub data Reach (s : Server) : Server → Type 0 where
  here : Reach s s
  next : {t u : Server} → Reach s t → Step t u → Reach s u

close-some :
    (c : ℕ) (s : Server) {t : Server}
    → close c s ≡ some t
    → (has c s.closing ≡ false) × (t ≡ record s { closing = c ∷ s.closing })
unfolding close
close-some c s e = ground (arith, e)

add_client-some :
    (ok : Bool) (c : ℕ) (t : Table) {u : Table}
    → length t.clients ≤ t.capacity
    → 0 < t.capacity
    → add_client ok c t ≡ some u
    → (u.clients ≡ t.clients ++ c ∷ []) × (length u.clients ≤ u.capacity) × (0 < u.capacity)
unfolding add_client expand_client_capacity
add_client-some ok c t le lt e = ground (arith, e, length-append t.clients (c ∷ []))

close-IsValid :
    (c : ℕ) (s : Server) {t : Server}
    → IsValid s
    → has c s.alive ≡ true
    → close c s ≡ some t
    → IsValid t
unfolding has
close-IsValid c s v a e =
    let (fresh, same) = close-some c s e in
    rw same (record {
      distinct = v.distinct;
      fits = v.fits;
      room = v.room;
      alive_once = v.alive_once;
      closing_once = (fresh, v.closing_once);
      clients_alive = v.clients_alive;
      closing_alive = λ d h. ground (arith, v.closing_alive d, a, h);
      covered = λ d h k. ground (arith, v.covered d h k);
    })

opened_closing-IsValid :
    (c : ℕ) (s : Server) {t : Server}
    → IsValid s
    → has c s.alive ≡ false
    → close c (opened c s) ≡ some t
    → IsValid t
unfolding has
opened_closing-IsValid c s v a e =
    let (fresh, same) = close-some c (opened c s) e in
    rw same (record {
      distinct = v.distinct;
      fits = v.fits;
      room = v.room;
      alive_once = (a, v.alive_once);
      closing_once = (fresh, v.closing_once);
      clients_alive = λ d h. ground (arith, v.clients_alive d h);
      closing_alive = λ d h. ground (arith, v.closing_alive d, h);
      covered = λ d h k. ground (arith, v.covered d, h, k);
    })

opened_added-IsValid :
    (ok : Bool) (c : ℕ) (s : Server) (u : Table)
    → IsValid s
    → has c s.alive ≡ false
    → add_client ok c s.table ≡ some u
    → IsValid (record (opened c s) { table = u })
unfolding has
opened_added-IsValid ok c s u v a e =
    let (cs, le, lt) = add_client-some ok c s.table v.fits v.room e in
    let new : has c s.table.clients ≡ false = ground (arith, v.clients_alive c, a) in
    record {
      distinct = rw cs (Distinct-append c s.table.clients v.distinct new);
      fits = le;
      room = lt;
      alive_once = (a, v.alive_once);
      closing_once = v.closing_once;
      clients_alive =
          λ d. rw cs (λ h. ground (arith, has-append d c s.table.clients, v.clients_alive d, h));
      closing_alive = λ d h. ground (arith, v.closing_alive d h);
      covered =
          λ d h. rw cs (λ k. ground (arith, has-append d c s.table.clients, v.covered d, h, k));
    }

on_new_connection-IsValid :
    (status_ok accept_ok realloc_ok : Bool) (c : ℕ) (s : Server) {t : Server}
    → IsValid s
    → has c s.alive ≡ false
    → on_new_connection status_ok (some c) accept_ok realloc_ok s ≡ some t
    → IsValid t
unfolding on_new_connection
on_new_connection-IsValid false accept_ok realloc_ok c s {t = t} v a e =
    let same : t ≡ s = ground (arith, e) in rw same v
on_new_connection-IsValid true false realloc_ok c s v a e = opened_closing-IsValid c s v a e
on_new_connection-IsValid true true realloc_ok c s {t = t} v a e =
    elim (Option-cases (add_client realloc_ok c s.table)) [
      | inl h ↦ opened_closing-IsValid c s v a (ground (arith, e, h))
      | inr (u, h) ↦
          let same : t ≡ record (opened c s) { table = u } = ground (arith, e, h) in
          rw same (opened_added-IsValid realloc_ok c s u v a h)
    ]

on_client_close-IsValid : (c : ℕ) (s : Server) → IsValid s → IsValid (on_client_close c s)
unfolding on_client_close remove_client
on_client_close-IsValid c s v = record {
  distinct = Distinct-remove_first c s.table.clients v.distinct;
  fits = omega (arith, v.fits, length-remove_first c s.table.clients);
  room = v.room;
  alive_once = Distinct-remove_first c s.alive v.alive_once;
  closing_once = Distinct-remove_first c s.closing v.closing_once;
  clients_alive = λ d h. ground (
    arith,
    h,
    v.clients_alive d,
    has-remove_first d c s.table.clients v.distinct,
    has-remove_first d c s.alive v.alive_once,
  );
  closing_alive = λ d h. ground (
    arith,
    h,
    v.closing_alive d,
    has-remove_first d c s.closing v.closing_once,
    has-remove_first d c s.alive v.alive_once,
  );
  covered = λ d h k. ground (
    arith,
    h,
    k,
    v.covered d,
    has-remove_first d c s.table.clients v.distinct,
    has-remove_first d c s.closing v.closing_once,
    has-remove_first d c s.alive v.alive_once,
  );
}

sent-IsValid :
    (texts : List (ℕ × Bytes)) (s : Server) → IsValid s → IsValid (record s { sent = texts })
sent-IsValid texts s v = record {
  distinct = v.distinct;
  fits = v.fits;
  room = v.room;
  alive_once = v.alive_once;
  closing_once = v.closing_once;
  clients_alive = v.clients_alive;
  closing_alive = v.closing_alive;
  covered = v.covered;
}

on_read-IsValid :
    (request_ok : Bool) (c : ℕ) (r : Read) (s : Server) {t : Server}
    → IsValid s
    → has c s.table.clients ≡ true
    → on_read request_ok c r s ≡ some t
    → IsValid t
unfolding on_read
on_read-IsValid true c (bytes b) s {t = t} v h e =
    let texts = (c, first_bytes 255 (received ++ before 0 b)) ∷ s.sent in
    let same : t ≡ record s { sent = texts } = ground (arith, e) in rw same (sent-IsValid texts s v)
on_read-IsValid false c (bytes b) s {t = t} v h e =
    let same : t ≡ s = ground (arith, e) in rw same v
on_read-IsValid ok c nothing s {t = t} v h e = let same : t ≡ s = ground (arith, e) in rw same v
on_read-IsValid ok c broken s v h e = close-IsValid c s v (v.clients_alive c h) e

Step-IsValid : {s t : Server} → Step s t → IsValid s → IsValid t
Step-IsValid {s} (connect a b d c fresh e) v = on_new_connection-IsValid a b d c s v fresh e
Step-IsValid {s} (read a c r h e) v = on_read-IsValid a c r s v h e
Step-IsValid {s} (closed c h) v = on_client_close-IsValid c s v

pub init_server-IsValid : (c : Config) → IsValid (init_server c)
unfolding has
init_server-IsValid c = record {
  distinct = tt;
  fits = omega arith;
  room = omega arith;
  alive_once = tt;
  closing_once = tt;
  clients_alive = λ d h. h;
  closing_alive = λ d h. h;
  covered = λ d h k. h;
}

-- Whatever connections come, are read and are closed, from a server without any: each client stands
-- in the array once, the array has room for all of them, and the open handles are exactly the clients
-- and those whose close callback is due, so none leaks.
pub Reach-IsValid : {s t : Server} → IsValid s → Reach s t → IsValid t
Reach-IsValid v here = v
Reach-IsValid v (next r st) = Step-IsValid st (Reach-IsValid v r)

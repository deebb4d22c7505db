-- ===== src/Ipc/Connections.antt =====
-- The connections of src/ipc/ipc_unified.c over any sequence of calls.
use net_serve.Prelude.{ℕ, ◌≡◌, Bool, Option, some, Bytes, arith, inl, inr}
use net_serve.Config.Store.{ℤ}
use net_serve.Ipc.{Kind, Ipc, Reply, returns}
use net_serve.Ipc.Table.{Answers, connect_to_server, disconnect}
use net_serve.Ipc.Messages.{gives, send_message, receive_message}
use net_serve.Ipc.Whole.{
  IsWhole, Same-IsWhole, connect_to_server-some, connected-IsWhole, disconnected-IsWhole,
  disconnect-returns,
}
use net_serve.Ipc.Messaging.{Goes, send_message-Goes, receive_message-Goes}

-- A call of a kind's function that never returns makes no step.
pub data Step (s : Ipc) : Ipc → Type 0 where
  connect :
      (a : Answers) (name : Bytes) (k : Kind) {i : ℕ} {t : Ipc}
      → connect_to_server a name k s ≡ returns (some i) t
      → Step s t
  leave : (j : ℤ) {r : Bool} {t : Ipc} → disconnect j s ≡ returns r t → Step s t
  send :
      (ok : Bool) (j : ℤ) (text : Bytes) {r : Bool} {t : Ipc}
      → send_message (gives ok) j text s ≡ returns r t
      → Step s t
  receive :
      (got : Option Bytes) (size : ℕ) (j : ℤ) {r : Option Bytes} {t : Ipc}
      → receive_message (gives got) size j s ≡ returns r t
      → Step s t

pub data Reach (s : Ipc) : Ipc → Type 0 where
  here : Reach s s
  next : {t u : Ipc} → Reach s t → Step t u → Reach s u

Goes-IsWhole :
    {A : Type 0} (s t : Ipc) {r : Reply A} {a : A}
    → IsWhole s
    → Goes s r
    → r ≡ returns a t
    → IsWhole t
Goes-IsWhole s t v (b, u, e, k) h =
    let same : t ≡ u = ground (arith, e, h) in rw same (Same-IsWhole v k)

Step-IsWhole : {s t : Ipc} → Step s t → IsWhole s → IsWhole t
Step-IsWhole {s = s} (connect a name k {i = i} e) v =
    let (old, h, at, free, lt, g, same) = connect_to_server-some a name k s v e in
    rw same (connected-IsWhole i h old k a name v at free g)
Step-IsWhole {s = s} (leave j e) v = elim (disconnect-returns j s v e) [
  | inl k ↦ Same-IsWhole v k
  | inr (i, c, at, used, same) ↦ rw same (disconnected-IsWhole i c v at used)
]
Step-IsWhole {s = s} {t = t} (send ok j text e) v =
    Goes-IsWhole s t v (send_message-Goes ok j text s v) e
Step-IsWhole {s = s} {t = t} (receive got size j e) v =
    Goes-IsWhole s t v (receive_message-Goes got size j s v) e

reached : {s t : Ipc} → Reach s t → IsWhole s → IsWhole t
reached here v = v
reached (next r st) v = Step-IsWhole st (reached r v)

-- Whatever connects, disconnects, sends and receives in whatever order and with whatever answers, as
-- long as no disconnection faults: the table stays whole. Each connected slot holds its own index
-- and a pointer that fits its kind, no other slot holds a pointer, and the statistics count the
-- connected slots. Sending and receiving return, wherever the function of the kind that they call
-- returns.
pub Reach-IsWhole :
    (s t : Ipc)
    → IsWhole s
    → Reach s t
    → IsWhole t
      × ((ok : Bool) (j : ℤ) (text : Bytes) → Goes t (send_message (gives ok) j text t))
      × ((got : Option Bytes) (size : ℕ) (j : ℤ) → Goes t (receive_message (gives got) size j t))
Reach-IsWhole s t v r =
    let w = reached r v in
    (
      w,
      λ ok j text. send_message-Goes ok j text t w,
      λ got size j. receive_message-Goes got size j t w,
    )

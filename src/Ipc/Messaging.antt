-- ===== src/Ipc/Messaging.antt =====
-- Sending and receiving end, and change nothing of the table of connections.
use net_serve.Prelude.{
  ℕ, ◌≡◌, ◌∙◌, sym, refl, Bool, true, false, Option, none, some, [], ◌∷◌, Bytes, arith, Bool-cases,
  inl, inr, ◌⊎◌, ltb,
}
use net_serve.Config.Store.{ℤ, pos, negsuc}
use net_serve.Ipc.{Kind, Connection, Call, Ipc, Reply, returns}
use net_serve.Ipc.Table.{is_connected}
use net_serve.Ipc.Slots.{connection_at-some}
use net_serve.Ipc.Messages.{
  gives, send_message, receive_message, slot_of, finish_send, called, count_sent, count_received,
  send_at, send_over, receive_at, receive_over, then_if, send_message_by_type,
  receive_message_by_type, size_of,
}
use net_serve.Ipc.Whole.{IsWhole, Same}

-- On a valid state the test of a connection returns.
pub is_connected-returns :
    (j : ℤ) (s : Ipc)
    → IsWhole s
    → (b : Bool) × (u : Ipc) × (is_connected j s ≡ returns b u)
      × Same s u
      × ((b ≡ false) ⊎ ((c : Connection) × (slot_of j u ≡ some c)))
unfolding is_connected
is_connected-returns (negsuc n) s v =
    (false, s, ground (arith, v.runs), (refl, refl, refl, refl, refl, refl), inl refl)
is_connected-returns (pos n) s v = elim (Bool-cases (ltb n s.max_connections)) [
  | inr b ↦ (false, s, ground (arith, v.runs, b), (refl, refl, refl, refl, refl, refl), inl refl)
  | inl b ↦
      let (c, h) = connection_at-some n s.connections (ground (arith, b, v.full)) in
      (
        c.is_connected,
        record s { locked = false },
        ground (arith, v.runs, v.unlocked, b, h),
        (refl, sym v.unlocked, refl, refl, refl, refl),
        inr (c, h),
      )
]

-- The end of a call that changes nothing but what is counted of messages.
abbrev pub Goes : {A : Type 0} → Ipc → Reply A → Type 0
Goes {A = A} s r = (a : A) × (u : Ipc) × (r ≡ returns a u) × Same s u

Same-trans : (s t u : Ipc) → Same s t → Same t u → Same s u
Same-trans s t u (a, b, c, d, e, f) (a', b', c', d', e', f') =
    (a' ∙ a, b' ∙ b, c' ∙ c, d' ∙ d, e' ∙ e, f' ∙ f)

Goes-Same : {A : Type 0} (s t : Ipc) {r : Reply A} → Same s t → Goes t r → Goes s r
Goes-Same s t h (a, u, e, k) = (a, u, e, Same-trans s t u h k)

finish_send-Goes :
    (ok : Bool) (text : Bytes) (c : Call) (s : Ipc)
    → s.locked ≡ false
    → Goes s (finish_send (gives ok) text c s)
finish_send-Goes false text c s h = (false, called c s, refl, (refl, refl, refl, refl, refl, refl))
finish_send-Goes true text c s h = (
  true,
  record (count_sent text (called c s)) { locked = false },
  rw h refl,
  (refl, sym h, refl, refl, refl, refl),
)

abbrev Found : Bool → Option Connection → Type 0
Found b o = (b ≡ false) ⊎ ((c : Connection) × (o ≡ some c))

send_over-Goes :
    (ok : Bool) (text : Bytes) (o : Option Call) (s : Ipc)
    → s.locked ≡ false
    → Goes s (send_over (gives ok) text o s)
send_over-Goes ok text none s h = (false, s, refl, (refl, refl, refl, refl, refl, refl))
send_over-Goes ok text (some c) s h = finish_send-Goes ok text c s h

send_from-Goes :
    (b ok : Bool) (text : Bytes) (j : ℤ) (s : Ipc)
    → s.locked ≡ false
    → Found b (slot_of j s)
    → Goes s (then_if (returns b s) false (λ s₁. send_at (gives ok) text (slot_of j s₁) s₁))
send_from-Goes false ok text j s h f = (false, s, refl, (refl, refl, refl, refl, refl, refl))
send_from-Goes true ok text j s h (inl e) = absurd (cc)
send_from-Goes true ok text j s h (inr (c, e)) =
    rw e (send_over-Goes ok text (send_message_by_type c text) s h)

pub send_message-Goes :
    (ok : Bool) (j : ℤ) (text : Bytes) (s : Ipc)
    → IsWhole s
    → Goes s (send_message (gives ok) j text s)
unfolding send_message
send_message-Goes ok j [] s v = (false, s, refl, (refl, refl, refl, refl, refl, refl))
send_message-Goes ok j (x ∷ text) s v =
    let (b, u, e, k, f) = is_connected-returns j s v in
    rw e (Goes-Same s u k (send_from-Goes b ok (x ∷ text) j u (cc (k.1, v.unlocked)) f))

receive_over-Goes :
    (got : Option Bytes) (size : ℕ) (k : Kind) (o : Option Call) (s : Ipc)
    → s.locked ≡ false
    → Goes s (receive_over (gives got) size k o s)
receive_over-Goes got size k none s h = (none, s, refl, (refl, refl, refl, refl, refl, refl))
receive_over-Goes none size k (some c) s h =
    (none, called c s, refl, (refl, refl, refl, refl, refl, refl))
receive_over-Goes (some text) size k (some c) s h = (
  some text,
  record (count_received (size_of k size text) (called c s)) { locked = false },
  rw h refl,
  (refl, sym h, refl, refl, refl, refl),
)

receive_from-Goes :
    (b : Bool) (got : Option Bytes) (size : ℕ) (j : ℤ) (s : Ipc)
    → s.locked ≡ false
    → Found b (slot_of j s)
    → Goes s (then_if (returns b s) none (λ s₁. receive_at (gives got) size (slot_of j s₁) s₁))
receive_from-Goes false got size j s h f = (none, s, refl, (refl, refl, refl, refl, refl, refl))
receive_from-Goes true got size j s h (inl e) = absurd (cc)
receive_from-Goes true got size j s h (inr (c, e)) =
    rw e (receive_over-Goes got size c.type (receive_message_by_type c) s h)

pub receive_message-Goes :
    (got : Option Bytes) (size : ℕ) (j : ℤ) (s : Ipc)
    → IsWhole s
    → Goes s (receive_message (gives got) size j s)
unfolding receive_message
receive_message-Goes got size j s v =
    let (b, u, e, k, f) = is_connected-returns j s v in
    rw e (Goes-Same s u k (receive_from-Goes b got size j u (cc (k.1, v.unlocked)) f))

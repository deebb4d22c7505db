-- ===== src/Network/Received.antt =====
-- What the callbacks of the event loop leave of the counters and of what was sent.
use net_serve.Prelude.{ℕ, ◌≡◌, ◌&&◌, refl, Bool, true, false, Option, none, some, if◌then◌else◌}
use net_serve.Network.{
  Server, Read, bytes, nothing, broken, close, on_new_connection, add_client, opened, or_close,
  Table, has,
}
use net_serve.Network.Enhanced.{
  Request, Enhanced, Memory, Outcome, sleeps, aborts, goes, enhanced_read, submitted, after_close,
}
use net_serve.Threadpool.{Pool, Attempt, blocked, refused, accepted, submit_work}

-- What the event loop changes of a module is neither its counters nor what was sent.
abbrev pub Kept : Enhanced → Enhanced → Type 0
Kept n n' =
    (n'.total_requests ≡ n.total_requests)
    × (n'.active_requests ≡ n.active_requests)
    × (n'.enable_threadpool ≡ n.enable_threadpool)
    × (n'.server.sent ≡ n.server.sent)

abbrev pub IsReceived : Enhanced → Pool Request → Outcome → Type 0
IsReceived n p sleeps = Unit
IsReceived n p aborts = Unit
IsReceived n p (goes none n' q) = Kept n n' × (q ≡ p)
IsReceived n p (goes (some r) n' q) =
    Kept n n' × ((ok : Bool) × (submit_work (some r) ok p ≡ accepted q))

pub submitted-IsReceived :
    (r : Request) (ok : Bool) (n : Enhanced) (p : Pool Request) (a : Attempt Request)
    → submit_work (some r) ok p ≡ a
    → IsReceived n p (submitted r n p a)
submitted-IsReceived r ok n p blocked e = tt
submitted-IsReceived r ok n p refused e = ((refl, refl, refl, refl), refl)
submitted-IsReceived r ok n p (accepted q) e = ((refl, refl, refl, refl), (ok, e))

-- A server that is there afterwards sent the same.
abbrev pub Sends : Server → Option Server → Type 0
Sends s none = Unit
Sends s (some t) = t.sent ≡ s.sent

pub if-Sends :
    (b : Bool) (s : Server) (o o' : Option Server)
    → Sends s o
    → Sends s o'
    → Sends s (if b then o else o')
if-Sends true s o o' h k = h
if-Sends false s o o' h k = k

pub close-Sends : (c : ℕ) (s : Server) → Sends s (close c s)
unfolding close
close-Sends c s = if-Sends (has c s.closing) s _ _ tt refl

pub or_close-Sends : (c : ℕ) (s : Server) (o : Option Table) → Sends s (or_close c s o)
or_close-Sends c s none = close-Sends c s
or_close-Sends c s (some t) = refl

pub on_new_connection-Sends :
    (status_ok : Bool) (handle : Option ℕ) (accept_ok realloc_ok : Bool) (s : Server)
    → Sends s (on_new_connection status_ok handle accept_ok realloc_ok s)
unfolding on_new_connection
on_new_connection-Sends a none b c s = refl
on_new_connection-Sends a (some h) b c s =
    if-Sends a s _ _
      (if-Sends b s _ _ (or_close-Sends h (opened h s) (add_client c h s.table))
        (close-Sends h (opened h s)))
      refl

pub after_close-IsReceived :
    (n : Enhanced) (p : Pool Request) (o : Option Server)
    → Sends n.server o
    → IsReceived n p (after_close n p o)
after_close-IsReceived n p none h = tt
after_close-IsReceived n p (some s) h = ((refl, refl, refl, h), refl)

pub either_way :
    (b : Bool) (n : Enhanced) (p : Pool Request) (o o' : Outcome)
    → IsReceived n p o
    → (b ≡ false → IsReceived n p o')
    → IsReceived n p (if b then o else o')
either_way true n p o o' h k = h
either_way false n p o o' h k = k refl

pub enhanced_read-IsReceived :
    (m : Memory) (c : ℕ) (r : Read) (n : Enhanced) (p : Pool Request)
    → n.enable_threadpool ≡ true
    → IsReceived n p (enhanced_read m c r n p)
unfolding enhanced_read
enhanced_read-IsReceived m c (bytes b) n p on =
    either_way n.enable_threadpool n p _ _
      (either_way (m.context_ok && m.data_ok) n p _ _ (submitted-IsReceived _ m.item_ok n p _ refl)
        (λ e. ((refl, refl, refl, refl), refl)))
      (λ off. absurd (cc (on, off)))
enhanced_read-IsReceived m c nothing n p on = ((refl, refl, refl, refl), refl)
enhanced_read-IsReceived m c broken n p on =
    after_close-IsReceived n p (close c n.server) (close-Sends c n.server)

-- ===== src/Ipc/Delivery.antt =====
-- Conversations over a stream, and a sender that goes away in the middle of a message.
use net_serve.Prelude.{
  ℕ, zero, suc, ◌-◌, ◌^◌, ◌≤◌, ◌<◌, ◌≡◌, ◌∙◌, ap, sym, refl, Option, none, some, List, [], ◌∷◌,
  ◌++◌, map, Bytes, length, All, first_bytes, arith,
}
use mathlib.Core.List.{append_assoc, append-nil}
use net_serve.Ipc.Framing.{
  Answer, fails, moves, drop, size_bytes, size_of_bytes, Sent, done, send_message, Received, got,
  lost, receiving, receive_loop, receive_message, receive_body, refused, sending,
}
use net_serve.Ipc.Stream.{
  IsLive, frame, first_bytes-all, size_of_bytes-size_bytes, send_message-done, receive_message-got,
  length-drop,
}

-- A message, how the system moves it at the sender and how at the receiver: the size first.
pub record Turn : Type 0 where
  pub text : Bytes
  pub size_sent : ℕ
  pub sends : List Answer
  pub size_received : ℕ
  pub receives : List Answer

-- The size goes in one piece, and the message in any pieces that are not empty.
pub record IsServed (t : Turn) : Type 0 where
  pub some_text : 0 < length t.text
  pub fits : length t.text < 2 ^ 32
  pub size_sent : 4 ≤ t.size_sent
  pub sends_live : All IsLive t.sends
  pub sends_enough : length t.text ≤ length t.sends
  pub size_received : 4 ≤ t.size_received
  pub receives_live : All IsLive t.receives
  pub receives_enough : length t.text ≤ length t.receives

abbrev pub sent_then : Sent → (Bytes → Sent) → Sent
sent_then (done s) k = k s
sent_then (refused s) k = refused s
sent_then (sending s) k = sending s

-- The sender's messages, one after the other, onto a stream.
unfoldable pub send_turns : List Turn → Bytes → Sent
unfolding send_message
send_turns [] s = done s
send_turns (t ∷ ts) s =
    sent_then (send_message (moves t.size_sent ∷ t.sends) t.text s) (λ s'. send_turns ts s')

abbrev pub consed : Bytes → Option (List Bytes × Bytes) → Option (List Bytes × Bytes)
consed text none = none
consed text (some (texts, s)) = some (text ∷ texts, s)

abbrev pub received_then :
    Received → (Bytes → Option (List Bytes × Bytes)) → Option (List Bytes × Bytes)
received_then (got text s) k = consed text (k s)
received_then (lost s) k = none
received_then (receiving there s) k = none

-- The receiver's messages, if all come, and what is left of the stream.
unfoldable pub receive_turns : List Turn → Bytes → Option (List Bytes × Bytes)
unfolding receive_message
receive_turns [] s = some ([], s)
receive_turns (t ∷ ts) s =
    received_then (receive_message (moves t.size_received ∷ t.receives) s)
      (λ s'. receive_turns ts s')

unfoldable pub frames : List Turn → Bytes
frames [] = []
frames (t ∷ ts) = frame t.text ++ frames ts

send_turns-done :
    (ts : List Turn) (s : Bytes) → All IsServed ts → send_turns ts s ≡ done (s ++ frames ts)
unfolding send_turns frames
send_turns-done [] s v = ap done (sym (append-nil s))
send_turns-done (t ∷ ts) s (v, vs) =
    let first =
      send_message-done t.size_sent t.sends t.text s v.some_text v.fits v.size_sent v.sends_live
        v.sends_enough in
    ap (λ r. sent_then r (λ s'. send_turns ts s')) first
    ∙ send_turns-done ts (s ++ frame t.text) vs
    ∙ ap done (append_assoc s (frame t.text) (frames ts))

receive_turns-frames :
    (ts : List Turn)
    → All IsServed ts
    → receive_turns ts (frames ts) ≡ some (map (λ t. t.text) ts, [])
unfolding receive_turns frames
receive_turns-frames [] v = refl
receive_turns-frames (t ∷ ts) (v, vs) =
    let first =
      receive_message-got t.size_received t.receives t.text (frames ts) v.fits v.size_received
        v.receives_live v.receives_enough in
    ap (λ r. received_then r (λ s. receive_turns ts s)) first
    ∙ ap (consed t.text) (receive_turns-frames ts vs)

-- Messages that are sent one after the other are received one after the other, whole and in order,
-- and nothing is left, whatever pieces the system takes and gives; as long as the size goes in one
-- piece, no piece is empty, no call fails, and the messages are shorter than 4 GiB and not empty.
pub receive_turns-send_turns :
    (ts : List Turn)
    → All IsServed ts
    → (s : Bytes) × (send_turns ts [] ≡ done s)
      × (receive_turns ts s ≡ some (map (λ t. t.text) ts, []))
receive_turns-send_turns ts v = (frames ts, send_turns-done ts [] v, receive_turns-frames ts v)

-- A call that does not fail; at the end of a closed stream it moves nothing.
abbrev pub NoFault : Answer → Type 0
NoFault fails = ⊥
NoFault (moves k) = Unit

length-first_bytes : (k : ℕ) (s : Bytes) → length (first_bytes k s) ≤ length s
unfolding first_bytes
length-first_bytes zero s = omega arith
length-first_bytes (suc k) [] = omega arith
length-first_bytes (suc k) (c ∷ s) = omega (arith, length-first_bytes k s)

receive_loop-receiving :
    (answers : List Answer) (n : ℕ) (there s : Bytes)
    → All NoFault answers
    → length s < n
    → (there' s' : Bytes) × (receive_loop answers n there s ≡ receiving there' s')
unfolding receive_loop
receive_loop-receiving answers zero there s h lt = absurd (omega arith)
receive_loop-receiving [] (suc n) there s h lt = (there, s, refl)
receive_loop-receiving (fails ∷ answers) (suc n) there s h lt = absurd h.0
receive_loop-receiving (moves k ∷ answers) (suc n) there s h lt =
    let piece = first_bytes k (first_bytes (suc n) s) in
    let short = length-first_bytes k (first_bytes (suc n) s) in
    let shorter = length-first_bytes (suc n) s in
    receive_loop-receiving answers (suc n - length piece) (there ++ piece) (drop (length piece) s)
      h.1 (omega (arith, short, shorter, lt, length-drop (length piece) s))

-- When the sender closes the stream in the middle of a message, the receiver never returns: however
-- often `recv` answers without a failure, which is 0 at the end of the stream, it stays in its loop.
pub receive_message_loops :
    (k n : ℕ) (answers : List Answer) (text : Bytes)
    → 4 ≤ k
    → n < 2 ^ 32
    → length text < n
    → All NoFault answers
    → (there s : Bytes) × (receive_message (moves k ∷ answers) (size_bytes n ++ text)
        ≡ receiving there s)
unfolding receive_message first_bytes drop size_bytes
receive_message_loops k n answers text head fits lt h =
    let header : first_bytes k (first_bytes 4 (size_bytes n ++ text)) ≡ size_bytes n =
      first_bytes-all k (size_bytes n) head in
    let (there, s, e) = receive_loop-receiving answers n [] text h lt in
    (
      there,
      s,
      ap (λ hd. receive_body answers (size_of_bytes hd) (drop (length hd) (size_bytes n ++ text)))
            header
          ∙ ap (λ o. receive_body answers o text) (size_of_bytes-size_bytes n fits)
          ∙ e,
    )

-- ===== src/Ipc/Stream.antt =====
-- Messages in pieces: what src/ipc/ipc_socket.c sends and receives, whatever the system takes at once.
use net_serve.Prelude.{
  ℕ, zero, suc, ◌-◌, ◌%◌, ◌^◌, ◌≤◌, ◌<◌, ◌≡◌, ◌∙◌, ap, sym, subst, refl, some, List, [], ◌∷◌, ◌++◌,
  Bytes, length, length-append, All, first_bytes, arith,
}
use mathlib.Core.List.{append_assoc, append-nil}
use net_serve.Ipc.Framing.{
  Answer, fails, moves, drop, size_bytes, size_of_bytes, done, send_loop, send_message, got,
  receive_loop, receive_message, receive_body,
}

first_bytes-drop : (k : ℕ) (s : Bytes) → first_bytes k s ++ drop k s ≡ s
unfolding first_bytes drop
first_bytes-drop zero s = refl
first_bytes-drop (suc k) [] = refl
first_bytes-drop (suc k) (c ∷ s) = ap (λ r. c ∷ r) (first_bytes-drop k s)

pub length-drop : (k : ℕ) (s : Bytes) → length (drop k s) ≡ length s - k
unfolding drop
length-drop zero s = omega arith
length-drop (suc k) [] = omega arith
length-drop (suc k) (c ∷ s) = omega (arith, length-drop k s)

pub first_bytes-all : (k : ℕ) (s : Bytes) → length s ≤ k → first_bytes k s ≡ s
unfolding first_bytes
first_bytes-all zero [] h = refl
first_bytes-all zero (c ∷ s) h = absurd (omega arith)
first_bytes-all (suc k) [] h = refl
first_bytes-all (suc k) (c ∷ s) h = ap (λ r. c ∷ r) (first_bytes-all k s (omega arith))

first_bytes-append : (s rest : Bytes) → first_bytes (length s) (s ++ rest) ≡ s
unfolding first_bytes
first_bytes-append [] rest = refl
first_bytes-append (c ∷ s) rest = ap (λ r. c ∷ r) (first_bytes-append s rest)

drop-append :
    (k : ℕ) (s rest : Bytes) → drop (length (first_bytes k s)) (s ++ rest) ≡ drop k s ++ rest
unfolding first_bytes drop
drop-append zero s rest = refl
drop-append (suc k) [] rest = refl
drop-append (suc k) (c ∷ s) rest = drop-append k s rest

-- A call that moves a byte at least.
abbrev pub IsLive : Answer → Type 0
IsLive fails = ⊥
IsLive (moves k) = 0 < k

send_loop-done :
    (answers : List Answer) (text s : Bytes)
    → All IsLive answers
    → length text ≤ length answers
    → send_loop answers text s ≡ done (s ++ text)
unfolding send_loop
send_loop-done [] [] s l h = ap done (sym (append-nil s))
send_loop-done [] (b ∷ text) s l h = absurd (omega arith)
send_loop-done (a ∷ answers) [] s l h = ap done (sym (append-nil s))
send_loop-done (fails ∷ answers) (b ∷ text) s l h = absurd l.0
send_loop-done (moves k ∷ answers) (b ∷ text) s l h =
    send_loop-done answers (drop k (b ∷ text)) (s ++ first_bytes k (b ∷ text)) l.1
      (omega (arith, l.0, length-drop k (b ∷ text)))
    ∙ ap done (
        append_assoc s (first_bytes k (b ∷ text)) (drop k (b ∷ text))
        ∙ ap (λ r. s ++ r) (first_bytes-drop k (b ∷ text)))

receive_loop-got :
    (answers : List Answer) (n : ℕ) (text there rest : Bytes)
    → All IsLive answers
    → length text ≡ n
    → n ≤ length answers
    → receive_loop answers n there (text ++ rest) ≡ got (there ++ text) rest
unfolding receive_loop
receive_loop-got answers zero [] there rest l e h = ap (λ s. got s rest) (sym (append-nil there))
receive_loop-got answers zero (b ∷ text) there rest l e h = absurd (omega arith)
receive_loop-got [] (suc n) text there rest l e h = absurd (omega arith)
receive_loop-got (fails ∷ answers) (suc n) text there rest l e h = absurd l.0
receive_loop-got (moves k ∷ answers) (suc n) text there rest l e h =
    let piece : first_bytes k (first_bytes (suc n) (text ++ rest)) ≡ first_bytes k text =
      ap (first_bytes k)
        (subst (λ m. first_bytes m (text ++ rest) ≡ text) e (first_bytes-append text rest)) in
    let sizes =
      sym (length-append (first_bytes k text) (drop k text))
      ∙ ap length (first_bytes-drop k text) in
    let less : length (drop k text) ≡ suc n - length (first_bytes k text) =
      omega (arith, sizes, e) in
    let more =
      receive_loop-got answers (suc n - length (first_bytes k text)) (drop k text)
        (there ++ first_bytes k text) rest l.1 less
        (omega (arith, less, l.0, h, e, length-drop k text)) in
    rw (receive_loop, piece, drop-append k text rest, more)
      (ap (λ s. got s rest)
        (append_assoc there (first_bytes k text) (drop k text)
          ∙ ap (λ r. there ++ r) (first_bytes-drop k text)))

pub size_of_bytes-size_bytes : (n : ℕ) → n < 2 ^ 32 → size_of_bytes (size_bytes n) ≡ some n
unfolding size_of_bytes size_bytes
size_of_bytes-size_bytes n h = ap some (omega (arith, h))

abbrev pub frame : Bytes → Bytes
frame text = size_bytes (length text) ++ text

pub send_message-done :
    (k : ℕ) (answers : List Answer) (text s : Bytes)
    → 0 < length text
    → length text < 2 ^ 32
    → 4 ≤ k
    → All IsLive answers
    → length text ≤ length answers
    → send_message (moves k ∷ answers) text s ≡ done (s ++ frame text)
unfolding send_message
send_message-done k answers [] s some_text fits head l h = absurd (omega arith)
send_message-done k answers (b ∷ text) s some_text fits head l h =
    let small : length (b ∷ text) % 2 ^ 32 ≡ length (b ∷ text) = omega (arith, fits) in
    let all : first_bytes k (size_bytes (length (b ∷ text) % 2 ^ 32))
        ≡ size_bytes (length (b ∷ text)) =
      ap (λ m. first_bytes k (size_bytes m)) small
      ∙ first_bytes-all k (size_bytes (length (b ∷ text))) head in
    rw all (
      send_loop-done answers (b ∷ text) (s ++ size_bytes (length (b ∷ text))) l h
      ∙ ap done (append_assoc s (size_bytes (length (b ∷ text))) (b ∷ text)))

pub receive_message-got :
    (k : ℕ) (answers : List Answer) (text rest : Bytes)
    → length text < 2 ^ 32
    → 4 ≤ k
    → All IsLive answers
    → length text ≤ length answers
    → receive_message (moves k ∷ answers) (frame text ++ rest) ≡ got text rest
unfolding receive_message first_bytes drop size_bytes
receive_message-got k answers text rest fits head l h =
    let header : first_bytes k (first_bytes 4 (frame text ++ rest)) ≡ size_bytes (length text) =
      first_bytes-all k (size_bytes (length text)) head in
    ap (λ hd. receive_body answers (size_of_bytes hd) (drop (length hd) (frame text ++ rest)))
      header
    ∙ ap (λ o. receive_body answers o (text ++ rest)) (size_of_bytes-size_bytes (length text) fits)
    ∙ receive_loop-got answers (length text) text [] rest l refl h

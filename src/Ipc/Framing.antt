-- ===== src/Ipc/Framing.antt =====
-- Messages on a stream of bytes: src/ipc/ipc_socket.c, and its like in src/ipc/ipc_pipe.c. The stream
-- is the bytes that were sent and not yet received. Each call of `send`, `write` or `recv` takes
-- one answer: it fails, or it moves at most so many bytes. The four bytes of the size stand in the
-- order of a little-endian machine. Descriptors and timeouts are left out, and memory suffices.
use net_serve.Prelude.{
  ℕ, zero, suc, ◌+◌, ◌*◌, ◌/◌, ◌%◌, ◌^◌, Option, none, some, List, [], ◌∷◌, ◌++◌, Bytes, length,
  first_bytes, ◌-◌,
}

pub data Answer : Type 0 where
  fails : Answer
  moves : ℕ → Answer

unfoldable pub drop : ℕ → Bytes → Bytes
drop zero s = s
drop (suc n) [] = []
drop (suc n) (c ∷ cs) = drop n cs

-- The bytes of a `uint32_t`, and back.
unfoldable pub size_bytes : ℕ → Bytes
size_bytes n = n % 256 ∷ (n / 256) % 256 ∷ (n / 65536) % 256 ∷ (n / 16777216) % 256 ∷ []

unfoldable pub size_of_bytes : Bytes → Option ℕ
size_of_bytes (a ∷ b ∷ c ∷ d ∷ []) = some (a + b * 256 + c * 65536 + d * 16777216)
size_of_bytes s = none

-- How a sender ends, with the stream: with 0, with -1, or in its loop, where the answers end.
pub data Sent : Type 0 where
  done : Bytes → Sent
  refused : Bytes → Sent
  sending : Bytes → Sent

-- The loop over what is left of the message.
unfoldable pub send_loop : List Answer → Bytes → Bytes → Sent
unfolding drop first_bytes
send_loop answers [] s = done s
send_loop [] (b ∷ text) s = sending s
send_loop (fails ∷ answers) (b ∷ text) s = refused s
send_loop (moves k ∷ answers) (b ∷ text) s =
    send_loop answers (drop k (b ∷ text)) (s ++ first_bytes k (b ∷ text))

-- A size of which only a part is sent passes for sent.
unfoldable pub send_message : List Answer → Bytes → Bytes → Sent
unfolding send_loop size_bytes
send_message answers [] s = refused s
send_message [] (b ∷ text) s = sending s
send_message (fails ∷ answers) (b ∷ text) s = refused s
send_message (moves k ∷ answers) (b ∷ text) s =
    send_loop answers (b ∷ text) (s ++ first_bytes k (size_bytes (length (b ∷ text) % 2 ^ 32)))

-- How a receiver ends, with the stream.
pub data Received : Type 0 where
  got : Bytes → Bytes → Received
  lost : Bytes → Received
  receiving : Bytes → Bytes → Received

-- The loop, with the bytes that are missing and those that are there. `recv` gives 0 at the end of a
-- stream that the sender closed.
unfoldable pub receive_loop : List Answer → ℕ → Bytes → Bytes → Received
unfolding drop first_bytes
receive_loop answers zero there s = got there s
receive_loop [] (suc n) there s = receiving there s
receive_loop (fails ∷ answers) (suc n) there s = lost s
receive_loop (moves k ∷ answers) (suc n) there s =
    let piece = first_bytes k (first_bytes (suc n) s) in
    receive_loop answers (suc n - length piece) (there ++ piece) (drop (length piece) s)

abbrev pub receive_body : List Answer → Option ℕ → Bytes → Received
receive_body answers none s = lost s
receive_body answers (some n) s = receive_loop answers n [] s

unfoldable pub receive_message : List Answer → Bytes → Received
unfolding receive_loop size_of_bytes
receive_message [] s = receiving [] s
receive_message (fails ∷ answers) s = lost s
receive_message (moves k ∷ answers) s =
    let header = first_bytes k (first_bytes 4 s) in
    receive_body answers (size_of_bytes header) (drop (length header) s)

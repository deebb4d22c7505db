-- ===== src/ThreadComm/Queue.antt =====
-- The message queue of a thread: `create_message_queue`, `enqueue_message` and `dequeue_message`.
-- The linked nodes are a list. What happens under the queue's mutex is one function, and what `malloc`
-- answers is an argument.
use net_serve.Prelude.{
  ℕ, ◌+◌, ◌-◌, Bool, ◌&&◌, Option, none, some, List, [], ◌∷◌, ◌==◌, leb, if◌then◌else◌, Bytes,
}

-- `payload` is the field `data`. The numbers of the priorities are low 0, normal 1, high 2 and urgent 3.
pub record Message : Type 0 where
  pub msg_id : ℕ
  pub type : ℕ
  pub priority : ℕ
  pub timestamp : ℕ
  pub sender_id : ℕ
  pub receiver_id : ℕ
  pub data_size : ℕ
  pub payload : Option Bytes

pub record Queue : Type 0 where
  pub messages : List Message
  pub size : ℕ
  pub max_size : ℕ

-- `create_message_queue`: a queue, or NULL where `malloc` or a primitive fails.
unfoldable pub create_queue : Bool → ℕ → Option Queue
create_queue ok max = if ok then some (record { messages = []; size = 0; max_size = max }) else none

-- Behind all messages of its priority or of a higher one.
unfoldable pub insert : Message → List Message → List Message
insert m [] = m ∷ []
insert m (x ∷ xs) = if leb m.priority x.priority then x ∷ insert m xs else m ∷ x ∷ xs

-- `none` is -1.
unfoldable pub enqueue : Bool → Bool → Message → Queue → Option Queue
enqueue node_ok data_ok m q =
    if leb q.max_size q.size
    then none
    else if node_ok && data_ok
    then some (record q { messages = insert m q.messages; size = q.size + 1 })
    else none

-- How `dequeue_message` ends: with -1, with a read through a NULL `head`, or with a message.
pub data Taken : Type 0 where
  empty : Taken
  fault : Taken
  taken : Message → Queue → Taken

-- The data of the caller's copy is NULL where `malloc` fails.
abbrev pub copy : Bool → Message → Message
copy copy_ok m = if copy_ok then m else record m { payload = none }

abbrev pub take_head : Bool → List Message → Queue → Taken
take_head copy_ok [] q = fault
take_head copy_ok (m ∷ ms) q =
    taken (copy copy_ok m) (record q { messages = ms; size = q.size - 1 })

unfoldable pub dequeue : Bool → Queue → Taken
dequeue copy_ok q = if q.size == 0 then empty else take_head copy_ok q.messages q

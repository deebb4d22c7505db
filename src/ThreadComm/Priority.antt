-- ===== src/ThreadComm/Priority.antt =====
-- The order of a message queue: the highest priority first, and within a priority the oldest first.
use net_serve.Prelude.{
  ℕ, ◌+◌, ◌-◌, ◌≤◌, ◌<◌, ◌≡◌, refl, Bool, true, none, some, List, [], ◌∷◌, ◌++◌, ◌==◌, leb,
  if◌then◌else◌, arith, All, length, Bool-cases, inl, inr, ◌⊎◌, subst, ap,
}
use net_serve.ThreadComm.Queue.{Message, Queue, insert, enqueue, dequeue, taken, empty, copy}

-- No message in front has a lower priority than one behind it.
abbrev pub Sorted : List Message → Type 0
Sorted [] = Unit
Sorted (m ∷ ms) = All (λ n. n.priority ≤ m.priority) ms × Sorted ms

pub record IsValid (q : Queue) : Type 0 where
  pub counted : q.size ≡ length q.messages
  pub sorted : Sorted q.messages

insert-All :
    (b : ℕ) (m : Message) (ms : List Message)
    → All (λ n. n.priority ≤ b) ms
    → m.priority ≤ b
    → All (λ n. n.priority ≤ b) (insert m ms)
unfolding insert
insert-All b m [] h k = (k, tt)
insert-All b m (x ∷ xs) h k = ground (arith, insert-All b m xs h.1 k)

All-le :
    (a b : ℕ) (ms : List Message)
    → a ≤ b
    → All (λ n. n.priority ≤ a) ms
    → All (λ n. n.priority ≤ b) ms
All-le a b [] h k = tt
All-le a b (x ∷ xs) h k = (omega arith, All-le a b xs h k.1)

insert-Sorted : (m : Message) (ms : List Message) → Sorted ms → Sorted (insert m ms)
unfolding insert
insert-Sorted m [] h = (tt, tt)
insert-Sorted m (x ∷ xs) h = elim (Bool-cases (leb m.priority x.priority)) [
  | inl e ↦ rw e (insert-All x.priority m xs h.0 (ground arith), insert-Sorted m xs h.1)
  | inr e ↦ rw e ((ground arith, All-le x.priority m.priority xs (ground arith) h.0), h)
]

length-insert : (m : Message) (ms : List Message) → length (insert m ms) ≡ length ms + 1
unfolding insert
length-insert m [] = refl
length-insert m (x ∷ xs) = ground (arith, length-insert m xs)

-- The messages of one priority, in their order.
unfoldable pub lane : ℕ → List Message → List Message
lane p [] = []
lane p (m ∷ ms) = let rest = lane p ms in if m.priority == p then m ∷ rest else rest

lane_none : (p b : ℕ) (ms : List Message) → All (λ n. n.priority ≤ b) ms → b < p → lane p ms ≡ []
unfolding lane
lane_none p b [] h k = refl
lane_none p b (m ∷ ms) h k = ground (arith, lane_none p b ms h.1 k)

lane-insert :
    (p : ℕ) (m : Message) (ms : List Message)
    → Sorted ms
    → lane p (insert m ms) ≡ (if m.priority == p then lane p ms ++ m ∷ [] else lane p ms)
unfolding lane insert
lane-insert p m [] h = ground arith
lane-insert p m (x ∷ xs) h = ground (arith, lane-insert p m xs h.1, lane_none p x.priority xs h.0)

abbrev pub Enqueues : Message → Queue → Type 0
Enqueues m q =
    ((q.max_size ≤ q.size) × (enqueue true true m q ≡ none))
    ⊎ ((q' : Queue) × (enqueue true true m q ≡ some q')
        × IsValid q'
        × (q'.size ≤ q'.max_size)
        × ((p : ℕ)
            → lane p q'.messages
              ≡ (if m.priority == p then lane p q.messages ++ m ∷ [] else lane p q.messages)))

enqueue_lem : (m : Message) (q : Queue) → IsValid q → Enqueues m q
unfolding enqueue
enqueue_lem m q v = elim (Bool-cases (leb q.max_size q.size)) [
  | inl e ↦ inl (ground arith, rw e refl)
  | inr e ↦ inr (
    record q { messages = insert m q.messages; size = q.size + 1 },
    rw e refl,
    record {
      counted = omega (arith, v.counted, length-insert m q.messages);
      sorted = insert-Sorted m q.messages v.sorted;
    },
    ground arith,
    λ p. lane-insert p m q.messages v.sorted,
  )
]

list_cases :
    (ms : List Message) → (ms ≡ []) ⊎ ((m : Message) × (rest : List Message) × (ms ≡ m ∷ rest))
list_cases [] = inl refl
list_cases (m ∷ ms) = inr (m, ms, refl)

lane_tail :
    (p : ℕ) (m : Message) (ms : List Message)
    → lane p (m ∷ ms) ≡ (if m.priority == p then m ∷ lane p ms else lane p ms)
unfolding lane
lane_tail p m ms = refl

abbrev pub Dequeues : Bool → Queue → Type 0
Dequeues ok q =
    ((q.messages ≡ []) × (dequeue ok q ≡ empty))
    ⊎ ((m : Message) × (q' : Queue) × (dequeue ok q ≡ taken (copy ok m) q')
        × IsValid q'
        × ((p : ℕ)
            → lane p q.messages
              ≡ (if m.priority == p then m ∷ lane p q'.messages else lane p q'.messages))
        × ((p : ℕ) → m.priority < p → lane p q'.messages ≡ []))

dequeue_lem : (ok : Bool) (q : Queue) → IsValid q → Dequeues ok q
unfolding dequeue
dequeue_lem ok q v = elim (list_cases q.messages) [
  | inl e ↦ inl (e, ground (arith, v.counted))
  | inr (m, ms, e) ↦
      let s = subst Sorted e v.sorted in
      inr (
        m,
        record q { messages = ms; size = q.size - 1 },
        ground (arith, v.counted),
        record { counted = omega (arith, v.counted, ap length e); sorted = s.1 },
        λ p. rw e (lane_tail p m ms),
        λ p lt. lane_none p m.priority ms s.0 lt,
      )
]

-- A valid queue is a row of first-in first-out lanes, one for each priority. `enqueue_message` refuses
-- a full queue; else, where memory suffices, the message is the last of its lane, the other lanes
-- keep theirs, and the queue is valid and within its limit. `dequeue_message` refuses an empty queue;
-- from any other it takes the oldest message of the highest lane that is not empty, the other
-- messages stay, and the queue is valid.
pub queue_is_lanes :
    (m : Message) (ok : Bool) (q : Queue) → IsValid q → Enqueues m q × Dequeues ok q
queue_is_lanes m ok q v = (enqueue_lem m q v, dequeue_lem ok q v)

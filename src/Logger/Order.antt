-- ===== src/Logger/Order.antt =====
-- The messages of the logger in their order, whatever its callers and its worker do.
use net_serve.Prelude.{◌≡◌, Option, none, some, List, ◌∷◌, ◌++◌, length}
use net_serve.Logger.{Message, Logger, Worker}
use net_serve.Logger.Runs.{events_of, written, held, noted, Entry}

-- What a write leaves: the queue, and the events of its entry on top.
abbrev IsWritten : Entry → Logger → Logger → Type 0
IsWritten e l l' =
    (l'.messages ≡ l.messages)
    × (l'.size ≡ l.size)
    × ((es : List Entry) → l.events ≡ events_of es → l'.events ≡ events_of (e ∷ es))

-- The worker's step, with what it takes from the queue and what it notes.
abbrev Worked : Worker → Logger → Worker → Logger → Type 0
Worked w l w' l' =
    (es : List Entry) (ts : List Message)
    → ts ≡ written es ++ (held w ++ l.messages)
    → l.size ≡ length l.messages
    → l.events ≡ events_of es
    → (ts ≡ written (noted w l es) ++ (held w' ++ l'.messages))
      × (l'.size ≡ length l'.messages)
      × (l'.events ≡ events_of (noted w l es))

abbrev StepWorked : Worker → Logger → Option (Worker × Logger) → Type 0
StepWorked w l none = Unit
StepWorked w l (some (w', l')) = Worked w l w' l'

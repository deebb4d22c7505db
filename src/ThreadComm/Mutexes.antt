-- ===== src/ThreadComm/Mutexes.antt =====
-- The named mutexes: `thread_comm_create_mutex`, `thread_comm_destroy_mutex`, and the search that
-- `thread_comm_lock_mutex` and `thread_comm_unlock_mutex` begin with. The module is initialized.
use net_serve.Prelude.{
  first_bytes, ℕ, zero, suc, Bool, true, false, ◌&&◌, Option, none, some, List, [], ◌∷◌, Bytes,
  str_eq, if◌then◌else◌,
}
use net_serve.ThreadComm.Table.{next_32, previous_32}

pub record Slot : Type 0 where
  pub name : Bytes
  pub is_initialized : Bool

-- The array `mutexes`, of `max_mutexes` slots, with `mutex_count`.
pub record Mutexes : Type 0 where
  pub slots : List Slot
  pub mutex_count : ℕ

-- The first free slot gets the name. `pthread_mutex_init` answers `ok`.
unfoldable pub fill : Bool → Bytes → List Slot → Option (List Slot)
fill ok n [] = none
fill ok n (s ∷ ss) =
    let rest = fill ok n ss in
    if s.is_initialized
    then (elim rest [ none ↦ none | some ss' ↦ some (s ∷ ss') ])
    else some (record { name = first_bytes 63 n; is_initialized = ok } ∷ ss)

-- The flag is the return of 0.
unfoldable pub create_mutex : Bool → Bytes → Mutexes → Bool × Mutexes
create_mutex ok n m = elim (fill ok n m.slots) [
  | none ↦ (false, m)
  | some ss ↦
      (ok, record { slots = ss; mutex_count = if ok then next_32 m.mutex_count else m.mutex_count })
]

abbrev pub is_named : Bytes → Slot → Bool
is_named n s = s.is_initialized && str_eq s.name n

-- Among the first slots, as many as the number says.
unfoldable pub find_mutex : ℕ → Bytes → List Slot → Option ℕ
find_mutex zero n ss = none
find_mutex (suc k) n [] = none
find_mutex (suc k) n (s ∷ ss) =
    let rest = find_mutex k n ss in
    if is_named n s then some 0 else elim rest [ none ↦ none | some i ↦ some (suc i) ]

-- The slot that is locked or unlocked; `none` is -1 with THREAD_NOT_FOUND.
unfoldable pub lookup_mutex : Bytes → Mutexes → Option ℕ
unfolding find_mutex
lookup_mutex n m = find_mutex m.mutex_count n m.slots

-- Among all slots.
unfoldable pub clear : Bytes → List Slot → Option (List Slot)
clear n [] = none
clear n (s ∷ ss) =
    let rest = clear n ss in
    if is_named n s
    then some (record s { is_initialized = false } ∷ ss)
    else elim rest [ none ↦ none | some ss' ↦ some (s ∷ ss') ]

unfoldable pub destroy_mutex : Bytes → Mutexes → Bool × Mutexes
unfolding clear
destroy_mutex n m = elim (clear n m.slots) [
  | none ↦ (false, m)
  | some ss ↦ (true, record { slots = ss; mutex_count = previous_32 m.mutex_count })
]

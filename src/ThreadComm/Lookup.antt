-- ===== src/ThreadComm/Lookup.antt =====
-- What the search for a named mutex finds.
use net_serve.Prelude.{
  first_bytes, ℕ, zero, suc, ◌+◌, ◌≡◌, ◌<◌, refl, Bool, true, false, ◌||◌, Option, none, some, List,
  [], ◌∷◌, ◌++◌, Bytes, str_eq, length, arith, All, subst, sym, Bool-cases, inl, inr,
}
use net_serve.ThreadComm.Table.{next_32, previous_32}
use net_serve.ThreadComm.Mutexes.{
  Slot, Mutexes, fill, create_mutex, is_named, find_mutex, lookup_mutex, clear, destroy_mutex,
}

-- The first `k` slots are initialized and no others.
abbrev pub Packed : ℕ → List Slot → Type 0
Packed zero ss = All (λ s. s.is_initialized ≡ false) ss
Packed (suc k) [] = ⊥
Packed (suc k) (s ∷ ss) = (s.is_initialized ≡ true) × Packed k ss

abbrev pub is_some : Option ℕ → Bool
is_some none = false
is_some (some i) = true

next_32_small : (n : ℕ) → n < 1000 → next_32 n ≡ suc n
next_32_small n h = omega arith

previous_32_small : (n : ℕ) → n < 1000 → previous_32 (n + 1) ≡ n
previous_32_small n h = omega arith

fill-Packed :
    (n : Bytes) (k : ℕ) (ss : List Slot)
    → Packed k ss
    → k < length ss
    → (ss' : List Slot) × (fill true n ss ≡ some ss')
      × Packed (suc k) ss'
      × ((j : Bytes)
          → is_some (find_mutex (suc k) j ss')
            ≡ (is_some (find_mutex k j ss) || str_eq (first_bytes 63 n) j))
unfolding fill find_mutex
fill-Packed n k [] p h = absurd (omega arith)
fill-Packed n zero (s ∷ ss) p h = (
  record { name = first_bytes 63 n; is_initialized = true } ∷ ss,
  ground (arith, p.0),
  (refl, p.1),
  λ j. ground arith,
)
fill-Packed n (suc k) (s ∷ ss) p h =
    let (ss', e, q, f) = fill-Packed n k ss p.1 (omega arith) in
    (s ∷ ss', ground (arith, p.0, e), (p.0, q), λ j. ground (arith, f j))

-- With a free slot behind the initialized ones, which stand in front, `thread_comm_create_mutex`
-- returns 0 and leaves the slots so. The search then finds what it found before, and the first 63
-- bytes of the name: a longer name is never found.
pub create_mutex-lookup_mutex :
    (n : Bytes) (m : Mutexes)
    → Packed m.mutex_count m.slots
    → m.mutex_count < length m.slots
    → length m.slots < 1000
    → (m' : Mutexes) × (create_mutex true n m ≡ (true, m'))
      × Packed m'.mutex_count m'.slots
      × ((j : Bytes)
          → is_some (lookup_mutex j m')
            ≡ (is_some (lookup_mutex j m) || str_eq (first_bytes 63 n) j))
unfolding create_mutex lookup_mutex
create_mutex-lookup_mutex n m p room small =
    let (ss', e, q, f) = fill-Packed n m.mutex_count m.slots p room in
    let c = next_32_small m.mutex_count (omega (arith, room, small)) in
    (
      record { slots = ss'; mutex_count = next_32 m.mutex_count },
      rw (e, create_mutex) refl,
      subst (λ k. Packed k ss') (sym c) q,
      subst
          (λ k.
            (j : Bytes)
            → is_some (find_mutex k j ss')
              ≡ (is_some (find_mutex m.mutex_count j m.slots) || str_eq (first_bytes 63 n) j))
          (sym c) f,
    )

abbrev NotNamed : Bytes → List Slot → Type 0
NotNamed k = All (λ s. is_named k s ≡ false)

-- The slots in front of the last one, once another name was cleared.
clear-append :
    (n k : Bytes) (xs : List Slot) (z : Slot) (rest : List Slot)
    → NotNamed k xs
    → is_some (find_mutex (length xs) n xs) ≡ true
    → (ys : List Slot) × (clear n (xs ++ z ∷ rest) ≡ some (ys ++ z ∷ rest))
      × NotNamed k ys
      × (length ys ≡ length xs)
unfolding clear find_mutex
clear-append n k [] z rest h f = absurd (cc)
clear-append n k (x ∷ xs) z rest h f = elim (Bool-cases (is_named n x)) [
  | inl e ↦ (record x { is_initialized = false } ∷ xs, rw e refl, (refl, h.1), refl)
  | inr e ↦
      let (ys, c, q, l) = clear-append n k xs z rest h.1 (ground arith) in
      (x ∷ ys, ground (arith, c), (h.0, q), ground (arith, l))
]

find_mutex-NotNamed :
    (k : Bytes) (xs rest : List Slot) → NotNamed k xs → find_mutex (length xs) k (xs ++ rest) ≡ none
unfolding find_mutex
find_mutex-NotNamed k [] rest h = refl
find_mutex-NotNamed k (x ∷ xs) rest h = ground (arith, find_mutex-NotNamed k xs rest h.1)

find_mutex-last :
    (k : Bytes) (xs : List Slot) (z : Slot) (rest : List Slot)
    → NotNamed k xs
    → is_named k z ≡ true
    → find_mutex (length xs + 1) k (xs ++ z ∷ rest) ≡ some (length xs)
unfolding find_mutex
find_mutex-last k [] z rest h e = ground arith
find_mutex-last k (x ∷ xs) z rest h e = ground (arith, find_mutex-last k xs z rest h.1)

-- Destroying any mutex but the last one makes the last one unreachable: it was found before, its
-- slot stays initialized, and the search does not find it any more.
pub destroy_mutex-loses-last :
    (n k : Bytes) (xs : List Slot) (z : Slot) (rest : List Slot) (m : Mutexes)
    → m.slots ≡ xs ++ z ∷ rest
    → m.mutex_count ≡ length xs + 1
    → length xs < 1000
    → NotNamed k xs
    → is_named k z ≡ true
    → is_some (find_mutex (length xs) n xs) ≡ true
    → (ys : List Slot) × (destroy_mutex n m
        ≡ (true, record { slots = ys ++ z ∷ rest; mutex_count = length xs }))
      × (lookup_mutex k m ≡ some (length xs))
      × (lookup_mutex k (destroy_mutex n m).1 ≡ none)
unfolding destroy_mutex lookup_mutex
destroy_mutex-loses-last n k xs z rest m e c small h last found =
    let (ys, d, q, l) = clear-append n k xs z rest h found in
    let gone : destroy_mutex n m
        ≡ (true, record { slots = ys ++ z ∷ rest; mutex_count = length xs }) =
      ground (arith, d, previous_32_small (length xs) small) in
    (
      ys,
      gone,
      rw (c, e) (find_mutex-last k xs z rest h last),
      rw gone (
          subst (λ i. find_mutex i k (ys ++ z ∷ rest) ≡ none) l
            (find_mutex-NotNamed k ys (z ∷ rest) q)),
    )

-- ===== src/Ipc/Slots.antt =====
-- The table of connections: what a slot holds, and what writing a slot does to the others.
use net_serve.Prelude.{
  ℕ, zero, suc, ◌+◌, ◌≤◌, ◌<◌, ◌≡◌, refl, ap, subst, Bool, true, false, Option, none, some, List,
  [], ◌∷◌, ◌==◌, length, if◌then◌else◌, arith, Bool-cases, Option-cases, inl, inr,
}
use net_serve.Config.Store.{pos}
use net_serve.Ipc.{
  Kind, socket, pipe, shmem, msgqueue, semaphore, mutex, no_kind, Private, cell, segment,
  Connection, free_connection, connection_at, put_connection,
}
use net_serve.Ipc.Table.{Answers, connect_client_by_type, private_of}

-- A segment belongs to shared memory, and a cell to every other kind.
abbrev pub Fits : Kind → Option Private → Type 0
Fits k none = Unit
Fits shmem (some (cell h)) = ⊥
Fits shmem (some (segment p)) = Unit
Fits socket (some (cell h)) = Unit
Fits socket (some (segment p)) = ⊥
Fits pipe (some (cell h)) = Unit
Fits pipe (some (segment p)) = ⊥
Fits msgqueue (some (cell h)) = Unit
Fits msgqueue (some (segment p)) = ⊥
Fits semaphore (some (cell h)) = Unit
Fits semaphore (some (segment p)) = ⊥
Fits mutex (some (cell h)) = Unit
Fits mutex (some (segment p)) = ⊥
Fits no_kind (some p) = ⊥

abbrev IsUsed : Bool → ℕ → Connection → Type 0
IsUsed true i c = (c.id ≡ pos i) × Fits c.type c.private_data
IsUsed false i c = c.private_data ≡ none

-- A connected slot holds its own index and what fits its kind, and any other slot no pointer.
abbrev pub IsSlot : ℕ → Connection → Type 0
IsSlot i c = IsUsed c.is_connected i c

abbrev pub Slots : ℕ → List Connection → Type 0
Slots i [] = Unit
Slots i (c ∷ cs) = IsSlot i c × Slots (suc i) cs

abbrev pub weight : Connection → ℕ
weight c = if c.is_connected then 1 else 0

unfoldable pub count : List Connection → ℕ
count [] = 0
count (c ∷ cs) = weight c + count cs

pub free_connection-at :
    (cs : List Connection) {i : ℕ}
    → free_connection cs ≡ some i
    → (c : Connection) × (connection_at i cs ≡ some c) × (c.is_connected ≡ false) × (i < length cs)
unfolding free_connection connection_at
free_connection-at [] e = absurd (cc)
free_connection-at (c ∷ cs) {i = i} e = elim (Bool-cases c.is_connected) [
  | inr b ↦ (let z : i ≡ 0 = ground (arith, e, b) in rw z (c, refl, b, omega arith))
  | inl b ↦ elim (Option-cases (free_connection cs)) [
    | inl h ↦ absurd (ground (arith, e, b, h))
    | inr (j, h) ↦
        let z : i ≡ suc j = ground (arith, e, b, h) in
        let (d, a, u, lt) = free_connection-at cs h in rw z (d, a, u, omega arith)
  ]
]

pub length-put_connection :
    (i : ℕ) (u : Connection) (cs : List Connection) → length (put_connection i u cs) ≡ length cs
unfolding put_connection
length-put_connection i u [] = refl
length-put_connection zero u (c ∷ cs) = refl
length-put_connection (suc i) u (c ∷ cs) = ground (arith, length-put_connection i u cs)

pub count-put_connection :
    (i : ℕ) (u : Connection) (cs : List Connection) {c : Connection}
    → connection_at i cs ≡ some c
    → count (put_connection i u cs) + weight c ≡ count cs + weight u
unfolding put_connection connection_at count
count-put_connection i u [] e = absurd (cc)
count-put_connection zero u (x ∷ cs) {c = c} e =
    let same : x ≡ c = ground (arith, e) in rw same (omega arith)
count-put_connection (suc i) u (x ∷ cs) {c = c} e =
    let h = count-put_connection i u cs e in omega arith

pub Slots-put_connection :
    (k i : ℕ) (u : Connection) (cs : List Connection)
    → Slots k cs
    → IsSlot (k + i) u
    → Slots k (put_connection i u cs)
unfolding put_connection
Slots-put_connection k i u [] s h = tt
Slots-put_connection k zero u (c ∷ cs) s h =
    let here : k + 0 ≡ k = omega arith in (subst (λ m. IsSlot m u) here h, s.1)
Slots-put_connection k (suc i) u (c ∷ cs) s h =
    let e : k + suc i ≡ suc k + i = omega arith in
    (s.0, Slots-put_connection (suc k) i u cs s.1 (subst (λ m. IsSlot m u) e h))

pub Slots-at :
    (k i : ℕ) (cs : List Connection) {c : Connection}
    → Slots k cs
    → connection_at i cs ≡ some c
    → IsSlot (k + i) c
unfolding connection_at
Slots-at k i [] s e = absurd (cc)
Slots-at k zero (x ∷ cs) {c = c} s e =
    let same : x ≡ c = ground (arith, e) in
    let here : k ≡ k + 0 = omega arith in subst (λ m. IsSlot m c) here (subst (IsSlot k) same s.0)
Slots-at k (suc i) (x ∷ cs) {c = c} s e =
    let there : suc k + i ≡ k + suc i = omega arith in
    subst (λ m. IsSlot m c) there (Slots-at (suc k) i cs s.1 e)

-- Reading behind a write.
pub at-put_connection :
    (i j : ℕ) (u : Connection) (cs : List Connection)
    → i < length cs
    → connection_at j (put_connection i u cs) ≡ (if i == j then some u else connection_at j cs)
unfolding put_connection connection_at
at-put_connection i j u [] h = absurd (omega arith)
at-put_connection zero zero u (c ∷ cs) h = ground arith
at-put_connection zero (suc j) u (c ∷ cs) h = ground arith
at-put_connection (suc i) zero u (c ∷ cs) h = ground arith
at-put_connection (suc i) (suc j) u (c ∷ cs) h =
    ground (arith, at-put_connection i j u cs (omega arith))

pub connection_at-length :
    (i : ℕ) (cs : List Connection) {c : Connection} → connection_at i cs ≡ some c → i < length cs
unfolding connection_at
connection_at-length i [] e = absurd (cc)
connection_at-length zero (c ∷ cs) e = omega arith
connection_at-length (suc i) (c ∷ cs) e = omega (arith, connection_at-length i cs e)

pub count-length : (cs : List Connection) → count cs ≤ length cs
unfolding count
count-length [] = omega arith
count-length (c ∷ cs) = ground (arith, count-length cs)

pub private_of-Fits :
    (k : Kind) (a : Answers) (h : ℕ) {e : ℕ}
    → connect_client_by_type k a ≡ some e
    → Fits k (private_of k a h none)
unfolding private_of connect_client_by_type
private_of-Fits shmem a h e = elim (Option-cases a.attached_again) [
  | inl q ↦ rw q tt
  | inr (p, q) ↦ rw q tt
]
private_of-Fits no_kind a h e = absurd (cc)
private_of-Fits socket a h e = elim (Bool-cases a.malloc_again_ok) [
  | inl q ↦ rw q tt
  | inr q ↦ rw q tt
]
private_of-Fits pipe a h e = elim (Bool-cases a.malloc_again_ok) [
  | inl q ↦ rw q tt
  | inr q ↦ rw q tt
]
private_of-Fits msgqueue a h e = elim (Bool-cases a.malloc_again_ok) [
  | inl q ↦ rw q tt
  | inr q ↦ rw q tt
]
private_of-Fits semaphore a h e = elim (Bool-cases a.malloc_again_ok) [
  | inl q ↦ rw q tt
  | inr q ↦ rw q tt
]
private_of-Fits mutex a h e = elim (Bool-cases a.malloc_again_ok) [
  | inl q ↦ rw q tt
  | inr q ↦ rw q tt
]

pub unused-private_data :
    (i : ℕ) (c : Connection) → IsSlot i c → c.is_connected ≡ false → c.private_data ≡ none
unused-private_data i c h e = subst (λ b. IsUsed b i c) e h

pub used-Fits :
    (i : ℕ) (c : Connection)
    → IsSlot i c
    → c.is_connected ≡ true
    → (c.id ≡ pos i) × Fits c.type c.private_data
used-Fits i c h e = subst (λ b. IsUsed b i c) e h

pub connection_at-some :
    (i : ℕ) (cs : List Connection)
    → i < length cs
    → (c : Connection) × (connection_at i cs ≡ some c)
unfolding connection_at
connection_at-some i [] h = absurd (omega arith)
connection_at-some zero (c ∷ cs) h = (c, refl)
connection_at-some (suc i) (c ∷ cs) h = connection_at-some i cs (omega arith)

pub put-put_connection :
    (i : ℕ) (u w : Connection) (cs : List Connection)
    → put_connection i u (put_connection i w cs) ≡ put_connection i u cs
unfolding put_connection
put-put_connection i u w [] = refl
put-put_connection zero u w (c ∷ cs) = refl
put-put_connection (suc i) u w (c ∷ cs) = ap (λ xs. c ∷ xs) (put-put_connection i u w cs)

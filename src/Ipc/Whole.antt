-- ===== src/Ipc/Whole.antt =====
-- The invariant of the table of connections, and that connecting and disconnecting keep it.
use net_serve.Prelude.{
  ℕ, zero, suc, ◌+◌, ◌%◌, ◌^◌, ◌≤◌, ◌<◌, ◌≡◌, ◌∙◌, sym, ap, refl, subst, Bool, true, false, none,
  some, ◌∷◌, Bytes, length, arith, Bool-cases, Option-cases, inl, inr, ◌⊎◌, ltb,
}
use net_serve.Config.Store.{ℤ, pos, negsuc}
use net_serve.Ipc.{
  Kind, Connection, cleans, Ipc, returns, free_connection, connection_at, put_connection, blanks,
  init,
}
use net_serve.Ipc.Table.{
  Answers, reset, connect_client_by_type, private_of, one_more, one_less, filled, connect_to_server,
  disconnect,
}
use net_serve.Ipc.Slots.{
  Fits, Slots, count, free_connection-at, length-put_connection, count-put_connection,
  Slots-put_connection, Slots-at, count-length, private_of-Fits, unused-private_data,
}

-- The module runs and holds no mutex, and its table is whole: each connected slot holds its index
-- and a pointer that fits its kind, and the statistics count the connected slots.
pub record IsWhole (s : Ipc) : Type 0 where
  pub runs : s.initialized ≡ true
  pub unlocked : s.locked ≡ false
  pub full : length s.connections ≡ s.max_connections
  pub small : s.max_connections ≤ 100
  pub counted : s.stats.connections ≡ count s.connections
  pub peak : s.stats.connections ≤ s.stats.max_connections
  pub slots : Slots 0 s.connections

-- What a connection leaves, where `old` is the slot that was free.
abbrev pub connected : ℕ → Connection → Kind → Answers → Bytes → ℕ → Ipc → Ipc
connected i old k a name h s = record s {
  locked = false;
  connections = put_connection i (filled i k a name h old) s.connections;
  stats = one_more s.stats;
}

abbrev pub Made : ℕ → Answers → Bytes → Kind → Ipc → Ipc → Type 0
Made i a name k s t =
    (old : Connection) × (h : ℕ) × (connection_at i s.connections ≡ some old)
    × (old.is_connected ≡ false)
    × (i < length s.connections)
    × (connect_client_by_type k a ≡ some h)
    × (t ≡ connected i old k a name h s)

pub connect_to_server-some :
    (a : Answers) (name : Bytes) (k : Kind) (s : Ipc) {i : ℕ} {t : Ipc}
    → IsWhole s
    → connect_to_server a name k s ≡ returns (some i) t
    → Made i a name k s t
unfolding connect_to_server
connect_to_server-some a name k s {i = i} {t = t} v e =
    elim (Option-cases (free_connection s.connections)) [
      | inl f ↦ absurd (ground (arith, e, f, v.runs, v.unlocked))
      | inr (j, f) ↦ elim (Option-cases (connect_client_by_type k a)) [
        | inl g ↦ absurd (ground (arith, e, f, g, v.runs, v.unlocked))
        | inr (h, g) ↦
            let (old, at, free, lt) = free_connection-at s.connections f in
            let z : i ≡ j = ground (arith, e, f, g, at, v.runs, v.unlocked) in
            rw z (old, h, at, free, lt, g, ground (arith, e, f, g, at, v.runs, v.unlocked))
      ]
    ]

-- What the invariant reads is the same.
abbrev pub Same : Ipc → Ipc → Type 0
Same s t =
    (t.initialized ≡ s.initialized)
    × (t.locked ≡ s.locked)
    × (t.connections ≡ s.connections)
    × (t.max_connections ≡ s.max_connections)
    × (t.stats.connections ≡ s.stats.connections)
    × (t.stats.max_connections ≡ s.stats.max_connections)

pub Same-IsWhole : {s t : Ipc} → IsWhole s → Same s t → IsWhole t
Same-IsWhole v (a, b, c, d, e, f) = record {
  runs = cc (v.runs, a);
  unlocked = cc (v.unlocked, b);
  full = rw (c, d) v.full;
  small = rw d v.small;
  counted = rw (c, e) v.counted;
  peak = rw (e, f) v.peak;
  slots = rw c v.slots;
}

pub connected-IsWhole :
    {s : Ipc} (i h : ℕ) (old : Connection) (k : Kind) (a : Answers) (name : Bytes)
    → IsWhole s
    → connection_at i s.connections ≡ some old
    → old.is_connected ≡ false
    → connect_client_by_type k a ≡ some h
    → IsWhole (connected i old k a name h s)
connected-IsWhole {s = s} i h old k a name v at free g =
    let c = count-put_connection i (filled i k a name h old) s.connections at in
    let l = length-put_connection i (filled i k a name h old) s.connections in
    let le = count-length (put_connection i (filled i k a name h old) s.connections) in
    let n : (s.stats.connections + 1) % 2 ^ 64 ≡ s.stats.connections + 1 =
      ground (arith, c, l, le, v.counted, v.full, v.small, free) in
    let place : i ≡ 0 + i = omega arith in
    let empty : old.private_data ≡ none =
      unused-private_data (0 + i) old (Slots-at 0 i s.connections v.slots at) free in
    record {
      runs = v.runs;
      unlocked = refl;
      full = l ∙ v.full;
      small = v.small;
      counted = ground (arith, c, n, v.counted, free);
      peak = ground (arith, v.peak);
      slots = Slots-put_connection 0 i (filled i k a name h old) s.connections v.slots (
        ap pos place,
        subst (λ p. Fits k (private_of k a h p)) (sym empty) (private_of-Fits k a h g),
      );
    }

abbrev pub disconnected : ℕ → Connection → Ipc → Ipc
disconnected i c s = record s {
  locked = false;
  connections = put_connection i (record (reset c) { private_data = none }) s.connections;
  stats = one_less s.stats;
  calls = cleans c.type c.remote_name ∷ s.calls;
}

pub disconnected-IsWhole :
    {s : Ipc} (i : ℕ) (c : Connection)
    → IsWhole s
    → connection_at i s.connections ≡ some c
    → c.is_connected ≡ true
    → IsWhole (disconnected i c s)
disconnected-IsWhole {s = s} i c v at used =
    let u : Connection = record (reset c) { private_data = none } in
    let n = count-put_connection i u s.connections at in
    record {
      runs = v.runs;
      unlocked = refl;
      full = length-put_connection i u s.connections ∙ v.full;
      small = v.small;
      counted = ground (arith, n, v.counted, used);
      peak = ground (arith, v.peak);
      slots = Slots-put_connection 0 i u s.connections v.slots refl;
    }

pub disconnect-returns :
    (j : ℤ) (s : Ipc) {r : Bool} {t : Ipc}
    → IsWhole s
    → disconnect j s ≡ returns r t
    → Same s t
      ⊎ ((i : ℕ) × (c : Connection) × (connection_at i s.connections ≡ some c)
          × (c.is_connected ≡ true)
          × (t ≡ disconnected i c s))
unfolding disconnect
disconnect-returns (negsuc n) s {t = t} v e =
    let z : t ≡ s = ground (arith, e, v.runs) in rw z (inl (refl, refl, refl, refl, refl, refl))
disconnect-returns (pos n) s {t = t} v e = elim (Bool-cases (ltb n s.max_connections)) [
  | inr b ↦
      (let z : t ≡ s = ground (arith, e, v.runs, b) in
        rw z (inl (refl, refl, refl, refl, refl, refl)))
  | inl b ↦ elim (Option-cases (connection_at n s.connections)) [
    | inl h ↦ absurd (ground (arith, e, v.runs, v.unlocked, b, h))
    | inr (c, h) ↦ elim (Bool-cases c.is_connected) [
      | inr d ↦
          (let z : t ≡ record s { locked = false } =
              ground (arith, e, v.runs, v.unlocked, b, h, d) in
            rw z (inl (refl, sym v.unlocked, refl, refl, refl, refl)))
      | inl d ↦ inr (n, c, h, d, ground (arith, e, v.runs, v.unlocked, b, h, d))
    ]
  ]
]

length-blanks : (n : ℕ) → length (blanks n) ≡ n
unfolding blanks
length-blanks zero = refl
length-blanks (suc n) = ap suc (length-blanks n)

count-blanks : (n : ℕ) → count (blanks n) ≡ 0
unfolding blanks count
count-blanks zero = refl
count-blanks (suc n) = omega (arith, count-blanks n)

Slots-blanks : (k n : ℕ) → Slots k (blanks n)
unfolding blanks
Slots-blanks k zero = tt
Slots-blanks k (suc n) = (refl, Slots-blanks (suc k) n)

pub init-IsWhole : (s : Ipc) → s.initialized ≡ false → IsWhole (init true s).1
unfolding init
init-IsWhole s e = rw e (record {
  runs = refl;
  unlocked = refl;
  full = length-blanks 100;
  small = omega arith;
  counted = sym (count-blanks 100);
  peak = omega arith;
  slots = Slots-blanks 0 100;
})

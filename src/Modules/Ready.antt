-- ===== src/Modules/Ready.antt =====
-- When a module is ready for those that depend on it, and what keeps it so.
use net_serve.Prelude.{
  ◌≡◌, ◌≢◌, refl, true, some, List, [], ◌∷◌, ◌++◌, arith, inl, inr, ◌⊎◌, All, All2, Bytes,
  Option-cases,
}
use net_serve.Modules.{Module, State, uninitialized, find, state_number, is_met, check_dependencies}
use net_serve.Modules.Lifecycle.{All2-refl}

uninitialized_or_not : (s : State) → (s ≡ uninitialized) ⊎ (s ≢ uninitialized)
uninitialized_or_not uninitialized = inl refl
uninitialized_or_not _ = inr (λ e. cc)

module _ {W : Type 0} where
  -- The module registered under this name has left the state UNINITIALIZED.
  abbrev pub IsReady : List (Module W) → Bytes → Type 0
  IsReady ms n = (d : Module W) × (find n ms ≡ some d) × (d.state ≢ uninitialized)

  -- In the array `ms`, the module has not been initialized, or its dependencies are ready.
  abbrev pub Settled : List (Module W) → Module W → Type 0
  Settled ms m = (m.state ≡ uninitialized) ⊎ All (IsReady ms) m.dependencies

  abbrev pub AllSettled : List (Module W) → Type 0
  AllSettled ms = All (Settled ms) ms

  -- The same, by the check of the code.
  abbrev pub Checked : List (Module W) → Module W → Type 0
  Checked ms m = (m.state ≡ uninitialized) ⊎ (check_dependencies ms m.dependencies ≡ true)

  abbrev pub AllChecked : List (Module W) → Type 0
  AllChecked ms = All (Checked ms) ms

  pub is_met-IsReady : (ms : List (Module W)) (n : Bytes) → is_met ms n ≡ true → IsReady ms n
  unfolding is_met state_number
  is_met-IsReady ms n h = elim (Option-cases (find n ms)) [
    | inl e ↦ ground arith
    | inr (d, e) ↦ (d, e, ground arith)
  ]

  pub IsReady-is_met : (ms : List (Module W)) (n : Bytes) → IsReady ms n → is_met ms n ≡ true
  unfolding is_met state_number
  IsReady-is_met ms n (d, e, h) = ground arith

  pub check_dependencies-IsReady :
      (ms : List (Module W)) (ds : List Bytes)
      → check_dependencies ms ds ≡ true
      → All (IsReady ms) ds
  unfolding check_dependencies
  check_dependencies-IsReady ms [] h = tt
  check_dependencies-IsReady ms (d ∷ ds) h =
      (is_met-IsReady ms d (ground arith), check_dependencies-IsReady ms ds (ground arith))

  pub IsReady-check_dependencies :
      (ms : List (Module W)) (ds : List Bytes)
      → All (IsReady ms) ds
      → check_dependencies ms ds ≡ true
  unfolding check_dependencies
  IsReady-check_dependencies ms [] h = refl
  IsReady-check_dependencies ms (d ∷ ds) h =
      rw (IsReady-is_met ms d h.0, IsReady-check_dependencies ms ds h.1) refl

  pub Checked-Settled : (ms ks : List (Module W)) → All (Checked ms) ks → All (Settled ms) ks
  Checked-Settled ms [] h = tt
  Checked-Settled ms (k ∷ ks) (inl e, h) = (inl e, Checked-Settled ms ks h)
  Checked-Settled ms (k ∷ ks) (inr e, h) =
      (inr (check_dependencies-IsReady ms k.dependencies e), Checked-Settled ms ks h)

  pub Settled-Checked : (ms ks : List (Module W)) → All (Settled ms) ks → All (Checked ms) ks
  Settled-Checked ms [] h = tt
  Settled-Checked ms (k ∷ ks) (inl e, h) = (inl e, Settled-Checked ms ks h)
  Settled-Checked ms (k ∷ ks) (inr e, h) =
      (inr (IsReady-check_dependencies ms k.dependencies e), Settled-Checked ms ks h)

  -- Every dependency that `ms` meets is met by `ns`.
  abbrev pub Covers : List (Module W) → List (Module W) → Type 0
  Covers ms ns = (n : Bytes) → is_met ms n ≡ true → is_met ns n ≡ true

  pub check_dependencies-Covers :
      (ms ns : List (Module W)) (ds : List Bytes)
      → Covers ms ns
      → check_dependencies ms ds ≡ true
      → check_dependencies ns ds ≡ true
  unfolding check_dependencies
  check_dependencies-Covers ms ns [] c h = refl
  check_dependencies-Covers ms ns (d ∷ ds) c h =
      ground (arith, c d, check_dependencies-Covers ms ns ds c)

  -- Names stay, and no state falls back to uninitialized.
  abbrev pub Advances : Module W → Module W → Type 0
  Advances m n = (n.name ≡ m.name) × ((m.state ≡ uninitialized) ⊎ (n.state ≢ uninitialized))

  pub Advances-refl : (m : Module W) → Advances m m
  Advances-refl m = (refl, uninitialized_or_not m.state)

  pub All2-Covers : (ms ns : List (Module W)) → All2 Advances ms ns → Covers ms ns
  unfolding is_met find state_number
  All2-Covers [] [] h n e = e
  All2-Covers [] (x ∷ ns) h n e = absurd h
  All2-Covers (m ∷ ms) [] h n e = absurd h
  All2-Covers (m ∷ ms) (x ∷ ns) h n e = ground (arith, All2-Covers ms ns h.1 n)

  pub All-Covers :
      (ms ns ks : List (Module W)) → Covers ms ns → All (Checked ms) ks → All (Checked ns) ks
  All-Covers ms ns [] c h = tt
  All-Covers ms ns (k ∷ ks) c h = (
    ground (arith, h.0, check_dependencies-Covers ms ns k.dependencies c),
    All-Covers ms ns ks c h.1,
  )

  pub All2-Advances-append :
      (ms : List (Module W)) (m n : Module W) (ns : List (Module W))
      → Advances m n
      → All2 Advances (ms ++ m ∷ ns) (ms ++ n ∷ ns)
  All2-Advances-append [] m n ns h = (h, All2-refl Advances Advances-refl ns)
  All2-Advances-append (x ∷ ms) m n ns h = (Advances-refl x, All2-Advances-append ms m n ns h)

  pub All-split :
      (P : Module W → Type 0) (xs : List (Module W)) (y : Module W) (ys : List (Module W))
      → All P (xs ++ y ∷ ys)
      → All P xs × P y × All P ys
  All-split P [] y ys h = (tt, h.0, h.1)
  All-split P (x ∷ xs) y ys h = let (hs, k, ks) = All-split P xs y ys h.1 in ((h.0, hs), k, ks)

-- ===== src/Modules/Dependencies.antt =====
-- The dependencies of a module: which modules run before it.
use net_serve.Prelude.{
  ◌≡◌, Bool, true, false, some, List, [], ◌∷◌, ◌++◌, arith, inl, inr, sym, subst, All, All2, Bytes,
  All-append, str_eq_refl, map, Option-cases,
}
use mathlib.Core.List.{append_assoc, append-nil}
use net_serve.Modules.{
  create, Module, Manager, uninitialized, started, error, call, find, is_uninitialized, init_one,
  init_all, start_one, stop_one, each, start_all, stop_all, is_met, check_dependencies,
  register_module,
}
use net_serve.Modules.Ready.{
  AllSettled, Checked, AllChecked, Checked-Settled, Covers, check_dependencies-Covers, Advances,
  All2-Covers, All-Covers, All2-Advances-append, All-split,
}

module _ {W : Type 0} where
  init_one-Advances : (ms : List (Module W)) (m : Module W) (w : W) → Advances m (init_one ms m w).0
  unfolding init_one
  init_one-Advances ms m w = ground arith

  init_one-Checked :
      (ms ns : List (Module W)) (m : Module W) (w : W)
      → Covers ms ns
      → Checked ms m
      → Checked ns (init_one ms m w).0
  unfolding init_one
  init_one-Checked ms ns m w c h = ground (arith, check_dependencies-Covers ms ns m.dependencies c)

  init_all-AllChecked :
      (done ms : List (Module W)) (w : W)
      → AllChecked (done ++ ms)
      → AllChecked (init_all done ms w).0
  unfolding init_all
  init_all-AllChecked done [] w h = subst AllChecked (append-nil done) h
  init_all-AllChecked done (m ∷ ms) w h =
      let one = init_one (done ++ m ∷ ms) m w in
      let array = done ++ one.0 ∷ ms in
      let covers =
        All2-Covers (done ++ m ∷ ms) array
          (All2-Advances-append done m one.0 ms (init_one-Advances (done ++ m ∷ ms) m w)) in
      let (front, here, behind) = All-split (Checked (done ++ m ∷ ms)) done m ms h in
      init_all-AllChecked (done ++ one.0 ∷ []) ms one.1 (
        subst AllChecked (sym (append_assoc done (one.0 ∷ []) ms)) (
          All-append (Checked array) done (one.0 ∷ ms)
            (All-Covers (done ++ m ∷ ms) array done covers front)
            (
              init_one-Checked (done ++ m ∷ ms) array m w covers here,
              All-Covers (done ++ m ∷ ms) array ms covers behind,
            )))

  -- The name and the dependencies stay, and whether the state is uninitialized.
  abbrev Moves : Module W → Module W → Type 0
  Moves m n =
      (n.name ≡ m.name)
      × (n.dependencies ≡ m.dependencies)
      × (is_uninitialized n.state ≡ is_uninitialized m.state)

  Moves-Advances : (ms ns : List (Module W)) → All2 Moves ms ns → All2 Advances ms ns
  unfolding is_uninitialized
  Moves-Advances [] [] h = tt
  Moves-Advances [] (n ∷ ns) h = h
  Moves-Advances (m ∷ ms) [] h = h
  Moves-Advances (m ∷ ms) (n ∷ ns) h = (ground arith, Moves-Advances ms ns h.1)

  Moves-Checked :
      (array ms ns : List (Module W))
      → All2 Moves ms ns
      → All (Checked array) ms
      → All (Checked array) ns
  unfolding is_uninitialized
  Moves-Checked array [] [] h k = tt
  Moves-Checked array [] (n ∷ ns) h k = absurd h
  Moves-Checked array (m ∷ ms) [] h k = tt
  Moves-Checked array (m ∷ ms) (n ∷ ns) h k = (ground arith, Moves-Checked array ms ns h.1 k.1)

  Moves-AllChecked : (ms ns : List (Module W)) → All2 Moves ms ns → AllChecked ms → AllChecked ns
  Moves-AllChecked ms ns h k =
      All-Covers ms ns ns (All2-Covers ms ns (Moves-Advances ms ns h)) (Moves-Checked ms ms ns h k)

  each-Moves :
      (f : Module W → W → Module W × W)
      → ((m : Module W) (w : W) → Moves m (f m w).0)
      → (ms : List (Module W)) (w : W) → All2 Moves ms (each f ms w).0
  unfolding each
  each-Moves f h [] w = tt
  each-Moves f h (m ∷ ms) w = (h m w, each-Moves f h ms (f m w).1)

  start_one-Moves : (m : Module W) (w : W) → Moves m (start_one m w).0
  unfolding start_one is_uninitialized
  start_one-Moves m w = ground arith

  stop_one-Moves : (m : Module W) (w : W) → Moves m (stop_one m w).0
  unfolding stop_one is_uninitialized
  stop_one-Moves m w = ground arith

  start_all-AllChecked :
      (mgr : Manager W) (w : W) → AllChecked mgr.modules → AllChecked (start_all mgr w).0.modules
  unfolding start_all
  start_all-AllChecked mgr w h =
      let (ms, w') = init_all [] mgr.modules w in
      Moves-AllChecked ms (each start_one ms w').0 (each-Moves start_one start_one-Moves ms w')
        (init_all-AllChecked [] mgr.modules w h)

  find_append :
      (n : Bytes) (ms : List (Module W)) (m d : Module W)
      → find n ms ≡ some d
      → find n (ms ++ m ∷ []) ≡ some d
  unfolding find
  find_append n [] m d h = cc
  find_append n (x ∷ ms) m d h = ground (arith, find_append n ms m d)

  Covers-append : (ms : List (Module W)) (m : Module W) → Covers ms (ms ++ m ∷ [])
  unfolding is_met
  Covers-append ms m n h = elim (Option-cases (find n ms)) [
    | inl e ↦ ground arith
    | inr (d, e) ↦ ground (arith, find_append n ms m d)
  ]

  register_module-AllChecked :
      (ok : Bool) (mgr : Manager W) (m : Module W) {mgr' : Manager W}
      → AllChecked mgr.modules
      → m.state ≡ uninitialized
      → register_module ok mgr m ≡ some mgr'
      → AllChecked mgr'.modules
  unfolding register_module
  register_module-AllChecked ok mgr m h u e = ground (
    arith,
    All-append (Checked (mgr.modules ++ m ∷ [])) mgr.modules (m ∷ [])
        (All-Covers mgr.modules (mgr.modules ++ m ∷ []) mgr.modules (Covers-append mgr.modules m) h)
        (inl u, tt),
  )

  stop_all-AllChecked :
      (mgr : Manager W) (w : W) → AllChecked mgr.modules → AllChecked (stop_all mgr w).0.modules
  unfolding stop_all
  stop_all-AllChecked mgr w h =
      Moves-AllChecked mgr.modules (each stop_one mgr.modules w).0
        (each-Moves stop_one stop_one-Moves mgr.modules w) h

  -- A manager that registering, starting and stopping lead to. The callbacks are arbitrary.
  pub data Reach : Manager W → Type 0 where
    created : Reach create
    registered :
        (ok : Bool) (m : Module W) {mgr mgr' : Manager W}
        → Reach mgr
        → m.state ≡ uninitialized
        → register_module ok mgr m ≡ some mgr'
        → Reach mgr'
    ran : (w : W) {mgr : Manager W} → Reach mgr → Reach (start_all mgr w).0
    halted : (w : W) {mgr : Manager W} → Reach mgr → Reach (stop_all mgr w).0

  Reach-AllChecked : {mgr : Manager W} → Reach mgr → AllChecked mgr.modules
  unfolding create
  Reach-AllChecked created = tt
  Reach-AllChecked (registered ok m {mgr = mgr} r u e) =
      register_module-AllChecked ok mgr m (Reach-AllChecked r) u e
  Reach-AllChecked (ran w {mgr = mgr} r) = start_all-AllChecked mgr w (Reach-AllChecked r)
  Reach-AllChecked (halted w {mgr = mgr} r) = stop_all-AllChecked mgr w (Reach-AllChecked r)

  -- However modules are registered uninitialized, started and stopped, with whatever results of
  -- their callbacks: of a module that has left the state UNINITIALIZED, each dependency is
  -- registered and has left that state as well.
  pub Reach-AllSettled : {mgr : Manager W} → Reach mgr → AllSettled mgr.modules
  Reach-AllSettled {mgr = mgr} r = Checked-Settled mgr.modules mgr.modules (Reach-AllChecked r)

  -- A module whose only dependency fails to initialize is started all the same, since the state
  -- ERROR counts as initialized.
  pub start_all_after_failure :
      (mgr : Manager W) (dep m : Module W) (w : W)
      → mgr.modules ≡ dep ∷ m ∷ []
      → dep.state ≡ uninitialized
      → dep.dependencies ≡ []
      → ((v : W) → (call dep.init v).0 ≡ false)
      → m.state ≡ uninitialized
      → m.dependencies ≡ dep.name ∷ []
      → ((v : W) → (call m.init v).0 ≡ true)
      → ((v : W) → (call m.start v).0 ≡ true)
      → map (λ k. k.state) (start_all mgr w).0.modules ≡ error ∷ started ∷ []
  unfolding start_all init_all init_one start_one check_dependencies is_met find each
  start_all_after_failure mgr dep m w e ds dd di ms md mi st =
      let w₁ = (call dep.init w).1 in
      let w₂ = (call m.init w₁).1 in rw e (ground (arith, di w, mi w₁, st w₂, str_eq_refl dep.name))

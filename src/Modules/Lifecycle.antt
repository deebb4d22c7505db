-- ===== src/Modules/Lifecycle.antt =====
-- Starting, stopping and shutting down: what can become of the state of each module.
use net_serve.Prelude.{◌≡◌, refl, true, List, [], ◌∷◌, ◌++◌, arith, ◌⊎◌, ◌∙◌, sym, subst, All, All2}
use mathlib.Core.List.{append_assoc, append-nil}
use net_serve.Modules.{
  Module, Manager, State, uninitialized, initialized, started, stopped, error, call, state_number,
  init_one, init_all, start_one, stop_one, cleanup_one, each, start_all, stop_all, shutdown,
}

-- Before and after `module_manager_start`, by state.
abbrev pub MayStart : State → State → Type 0
MayStart uninitialized s = (s ≡ uninitialized) ⊎ ((s ≡ started) ⊎ (s ≡ error))
MayStart initialized s = (s ≡ started) ⊎ (s ≡ error)
MayStart t s = s ≡ t

-- Before and after `module_manager_shutdown`: a module that is not uninitialized afterwards is one
-- whose cleanup failed.
abbrev pub MayShutDown : State → State → Type 0
MayShutDown uninitialized s = s ≡ uninitialized
MayShutDown started s = (s ≡ uninitialized) ⊎ ((s ≡ started) ⊎ (s ≡ stopped))
MayShutDown t s = (s ≡ uninitialized) ⊎ (s ≡ t)

abbrev pub MayInit : State → State → Type 0
MayInit s t = (t ≡ s) ⊎ ((s ≡ uninitialized) × ((t ≡ initialized) ⊎ (t ≡ error)))

abbrev pub MayStop : State → State → Type 0
MayStop s t = (t ≡ s) ⊎ ((s ≡ started) × (t ≡ stopped))

module _ {W : Type 0} where
  -- `m'` is `m` with a state that `R` allows.
  abbrev pub Restated : (State → State → Type 0) → Module W → Module W → Type 0
  Restated R m m' = (m' ≡ record m { state = m'.state }) × R m.state m'.state

  init_one-Restated :
      (ms : List (Module W)) (m : Module W) (w : W) → Restated MayInit m (init_one ms m w).0
  unfolding init_one
  init_one-Restated ms m w = ground arith

  start_one-Restated :
      (m m₁ : Module W) (w : W) → Restated MayInit m m₁ → Restated MayStart m (start_one m₁ w).0
  unfolding start_one
  start_one-Restated m m₁ w h = ground arith

  stop_one-Restated : (m : Module W) (w : W) → Restated MayStop m (stop_one m w).0
  unfolding stop_one
  stop_one-Restated m w = ground arith

  cleanup_one-Restated :
      (m m₁ : Module W) (w : W)
      → Restated MayStop m m₁
      → Restated MayShutDown m (cleanup_one m₁ w).0
  unfolding cleanup_one
  cleanup_one-Restated m m₁ w h = ground arith

  -- A loop over the array, when its array is already related to an earlier one.
  pub each-All2 :
      (R S : Module W → Module W → Type 0) (f : Module W → W → Module W × W)
      → ((m m₁ : Module W) (w : W) → R m m₁ → S m (f m₁ w).0)
      → (ms ns : List (Module W)) (w : W) → All2 R ms ns
      → All2 S ms (each f ns w).0
  unfolding each
  each-All2 R S f keep [] [] w h = tt
  each-All2 R S f keep [] (n ∷ ns) w h = absurd h
  each-All2 R S f keep (m ∷ ms) [] w h = absurd h
  each-All2 R S f keep (m ∷ ms) (n ∷ ns) w h =
      (keep m n w h.0, each-All2 R S f keep ms ns (f n w).1 h.1)

  pub All2-refl :
      (R : Module W → Module W → Type 0)
      → ((m : Module W) → R m m)
      → (ms : List (Module W)) → All2 R ms ms
  All2-refl R r [] = tt
  All2-refl R r (m ∷ ms) = (r m, All2-refl R r ms)

  -- The first loop keeps what it has passed, and restates the rest.
  pub init_all_split :
      (done ms : List (Module W)) (w : W)
      → (ms' : List (Module W)) × ((init_all done ms w).0 ≡ done ++ ms')
        × All2 (Restated MayInit) ms ms'
  unfolding init_all
  init_all_split done [] w = ([], sym (append-nil done), tt)
  init_all_split done (m ∷ ms) w =
      let one = init_one (done ++ m ∷ ms) m w in
      let (ms', e, h) = init_all_split (done ++ one.0 ∷ []) ms one.1 in
      (
        one.0 ∷ ms',
        e ∙ append_assoc done (one.0 ∷ []) ms',
        (init_one-Restated (done ++ m ∷ ms) m w, h),
      )

  -- `module_manager_start` keeps the modules, their order and all but their states. None is left
  -- merely initialized: one that was uninitialized is so still, started or in error, one that was
  -- initialized is started or in error, and any other has the state that it had.
  pub start_all-Started :
      (mgr : Manager W) (w : W) → All2 (Restated MayStart) mgr.modules (start_all mgr w).0.modules
  unfolding start_all
  start_all-Started mgr w =
      let (ms', e, h) = init_all_split [] mgr.modules w in
      each-All2 (Restated MayInit) (Restated MayStart) start_one start_one-Restated mgr.modules
        (init_all [] mgr.modules w).0 (init_all [] mgr.modules w).1
        (subst (All2 (Restated MayInit) mgr.modules) (sym e) h)

  -- `module_manager_stop` changes states only, and those only from started to stopped.
  pub stop_all-Stopped :
      (mgr : Manager W) (w : W) → All2 (Restated MayStop) mgr.modules (stop_all mgr w).0.modules
  unfolding stop_all
  stop_all-Stopped mgr w =
      each-All2 (λ m n. m ≡ n) (Restated MayStop) stop_one
        (λ m n w e.
          subst (λ k. Restated MayStop k (stop_one n w).0) (sym e) (stop_one-Restated n w))
        mgr.modules mgr.modules w (All2-refl (λ m n. m ≡ n) (λ m. refl) mgr.modules)

  -- `module_manager_shutdown` keeps the modules and their order. Each is uninitialized afterwards,
  -- or has the state that it had, or was started and is stopped.
  pub shutdown-ShutDown :
      (mgr : Manager W) (w : W) → All2 (Restated MayShutDown) mgr.modules (shutdown mgr w).0.modules
  unfolding shutdown
  shutdown-ShutDown mgr w =
      each-All2 (Restated MayStop) (Restated MayShutDown) cleanup_one cleanup_one-Restated
        mgr.modules (stop_all mgr w).0.modules (stop_all mgr w).1 (stop_all-Stopped mgr w)

  -- A module's cleanup returns 0 in every world.
  abbrev pub CleansUp : Module W → Type 0
  CleansUp m = (w : W) → (call m.cleanup w).0 ≡ true

  cleanup_one-uninitialized :
      (m : Module W) (w : W) → CleansUp m → (cleanup_one m w).0.state ≡ uninitialized
  unfolding cleanup_one state_number
  cleanup_one-uninitialized m w h = ground (arith, h w)

  each_cleanup :
      (ms : List (Module W)) (w : W)
      → All CleansUp ms
      → All (λ m. m.state ≡ uninitialized) (each cleanup_one ms w).0
  unfolding each
  each_cleanup [] w h = tt
  each_cleanup (m ∷ ms) w h =
      (cleanup_one-uninitialized m w h.0, each_cleanup ms (cleanup_one m w).1 h.1)

  pub Restated-CleansUp :
      (R : State → State → Type 0) (ms ns : List (Module W))
      → All2 (Restated R) ms ns
      → All CleansUp ms
      → All CleansUp ns
  Restated-CleansUp R [] [] r h = tt
  Restated-CleansUp R [] (n ∷ ns) r h = absurd r
  Restated-CleansUp R (m ∷ ms) [] r h = absurd r
  Restated-CleansUp R (m ∷ ms) (n ∷ ns) r h =
      (subst CleansUp (sym r.0.0) h.0, Restated-CleansUp R ms ns r.1 h.1)

  -- If the cleanup of every module returns 0, a shutdown leaves every module uninitialized, from
  -- whatever states.
  pub shutdown_complete :
      (mgr : Manager W) (w : W)
      → All CleansUp mgr.modules
      → All (λ m. m.state ≡ uninitialized) (shutdown mgr w).0.modules
  unfolding shutdown
  shutdown_complete mgr w h =
      each_cleanup (stop_all mgr w).0.modules (stop_all mgr w).1 (
        Restated-CleansUp MayStop mgr.modules (stop_all mgr w).0.modules (stop_all-Stopped mgr w) h)

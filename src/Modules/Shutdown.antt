-- ===== src/Modules/Shutdown.antt =====
-- What is left of each module when the manager shut down, whatever the cleanups answer.
use net_serve.Prelude.{◌≡◌, ap, sym, ◌∙◌, ◌⊎◌, inl, inr, false, List, [], ◌∷◌, arith, All2}
use net_serve.Modules.{
  Module, Manager, uninitialized, call, state_number, stop_one, cleanup_one, start_all, stop_all,
  shutdown,
}
use net_serve.Modules.Lifecycle.{MayStart, Restated, each-All2, start_all-Started}

module _ {W : Type 0} where
  -- The same module, maybe in another state.
  abbrev pub Same : Module W → Module W → Type 0
  Same m m' = m' ≡ record m { state = m'.state }

  -- The same module, which is uninitialized or has a cleanup that refused in some world.
  abbrev pub IsLeft : Module W → Module W → Type 0
  IsLeft m m' =
      Same m m' × ((m'.state ≡ uninitialized) ⊎ ((v : W) × ((call m.cleanup v).0 ≡ false)))

  stop_one-Same : (m n : Module W) (w : W) → Same m n → Same m (stop_one n w).0
  unfolding stop_one
  stop_one-Same m n w h = ground arith

  cleanup_one-Same : (m n : Module W) (w : W) → Same m n → Same m (cleanup_one n w).0
  unfolding cleanup_one
  cleanup_one-Same m n w h = ground arith

  cleanup_one-cases :
      (n : Module W) (w : W)
      → ((cleanup_one n w).0.state ≡ uninitialized) ⊎ ((call n.cleanup w).0 ≡ false)
  unfolding cleanup_one state_number
  cleanup_one-cases n w = ground arith

  cleanup_one-IsLeft : (m n : Module W) (w : W) → Same m n → IsLeft m (cleanup_one n w).0
  cleanup_one-IsLeft m n w h = (
    cleanup_one-Same m n w h,
    elim (cleanup_one-cases n w) [
      | inl e ↦ inl e
      | inr e ↦ inr (w, ap (λ k. (call k w).0) (sym (ap (λ k. k.cleanup) h)) ∙ e)
    ],
  )

  All2-Same : (ms ns : List (Module W)) → All2 IsLeft ms ns → All2 Same ms ns
  All2-Same [] [] h = tt
  All2-Same [] (n ∷ ns) h = absurd h
  All2-Same (m ∷ ms) [] h = absurd h
  All2-Same (m ∷ ms) (n ∷ ns) h = (h.0.0, All2-Same ms ns h.1)

  All2-Started : (ms ns : List (Module W)) → All2 (Restated MayStart) ms ns → All2 Same ms ns
  All2-Started [] [] h = tt
  All2-Started [] (n ∷ ns) h = absurd h
  All2-Started (m ∷ ms) [] h = absurd h
  All2-Started (m ∷ ms) (n ∷ ns) h = (h.0.0, All2-Started ms ns h.1)

  pub start_all-Same : (mgr : Manager W) (w : W) → All2 Same mgr.modules (start_all mgr w).0.modules
  start_all-Same mgr w =
      All2-Started mgr.modules (start_all mgr w).0.modules (start_all-Started mgr w)

  shutdown-IsLeft :
      (ms : List (Module W)) (mgr : Manager W) (w : W)
      → All2 Same ms mgr.modules
      → All2 IsLeft ms (shutdown mgr w).0.modules
  unfolding shutdown stop_all
  shutdown-IsLeft ms mgr w h =
      each-All2 Same IsLeft cleanup_one cleanup_one-IsLeft ms (stop_all mgr w).0.modules
        (stop_all mgr w).1 (each-All2 Same Same stop_one stop_one-Same ms mgr.modules w h)

  -- Two shutdowns, one after the other.
  pub shutdown_twice :
      (ms : List (Module W)) (mgr : Manager W) (w : W)
      → All2 Same ms mgr.modules
      → All2 IsLeft ms (shutdown (shutdown mgr w).0 (shutdown mgr w).1).0.modules
  shutdown_twice ms mgr w h =
      let (stopped, w') = shutdown mgr w in
      shutdown-IsLeft ms stopped w' (All2-Same ms stopped.modules (shutdown-IsLeft ms mgr w h))

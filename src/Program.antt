-- ===== src/Program.antt =====
-- src/main.c over the module manager. The modules act on a world `W`. The signal handler calls
-- `cleanup_and_exit` from within the event loop, so it is one of the ways in which the loop ends.
use net_serve.Prelude.{ℕ, Bool, true, false, ◌&&◌, Option, none, some, List, [], ◌∷◌, if◌then◌else◌}
use net_serve.Modules.{Module, Manager, create, register_module, start_all, shutdown, destroy}
pub mod Whole
mod Tests

-- How `uv_run` ends: with 0, with an error, or in the signal handler.
pub data Ended : Type 0 where
  finished failed signalled : Ended

-- The answers of `access`, `uv_default_loop`, the allocations of `module_manager_create` and of
-- `realloc`; `register_http_routes` and the event loop as functions on the world.
pub record Machine (W : Type 0) : Type 0 where
  pub config_there : Bool
  pub loop_ok : Bool
  pub manager_ok : Bool
  pub realloc_ok : Bool
  pub register_http_routes : W → W
  pub run : W → Ended × W

-- The exit status, the modules that the freed manager held, which are variables of their own, and the
-- world at the end.
pub record Exit (W : Type 0) : Type 0 where
  pub status : ℕ
  pub modules : List (Module W)
  pub world : W

abbrev pub status_of : Ended → ℕ
status_of finished = 0
status_of failed = 1
status_of signalled = 0

module _ {W : Type 0} where
  -- The calls of `module_manager_register_module`, one after the other, up to the first that fails.
  unfoldable pub register_all : Bool → List (Module W) → Manager W → Option (Manager W)
  register_all ok [] mgr = some mgr
  register_all ok (m ∷ ms) mgr = elim (register_module ok mgr m) [
    | none ↦ none
    | some mgr' ↦ register_all ok ms mgr'
  ]

  unfoldable pub initialize_program : Machine W → List (Module W) → Option (Manager W)
  unfolding register_all
  initialize_program e ms =
      if e.config_there && (e.loop_ok && e.manager_ok)
      then register_all e.realloc_ok ms create
      else none

  unfoldable pub cleanup_and_exit : ℕ → Manager W → W → Exit W
  unfolding destroy
  cleanup_and_exit code mgr w =
      let (mgr', w') = shutdown mgr w in
      let (ms, w'') = destroy mgr' w' in record { status = code; modules = ms; world = w'' }

  -- `run_program`, and the exit behind it. `module_manager_start` returns 0 whatever the modules do.
  unfoldable pub run_program : Machine W → Manager W → W → Exit W
  unfolding cleanup_and_exit
  run_program e mgr w =
      let (mgr', w') = start_all mgr w in
      let (ended, w'') = e.run (e.register_http_routes w') in
      cleanup_and_exit (status_of ended) mgr' w''

  -- A failure before leaves at once, without a shutdown; no module was initialized.
  unfoldable pub main : Machine W → List (Module W) → W → Exit W
  unfolding initialize_program run_program
  main e ms w = elim (initialize_program e ms) [
    | none ↦ record { status = 1; modules = ms; world = w }
    | some mgr ↦ run_program e mgr w
  ]

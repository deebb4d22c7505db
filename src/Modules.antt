-- ===== src/Modules.antt =====
-- The module manager: src/modules/module_manager.{h,c}.
-- A manager that exists is a record, so the checks for a NULL manager have no counterpart here. The
-- array `modules` with its `module_count` is a list; the callbacks of a module act on a world `W`
-- (its private data and all else), and leave the manager alone. What `realloc` answers is an argument.
pub mod Registry
pub mod Lifecycle
pub mod Shutdown
pub mod Ready
pub mod Dependencies
mod Tests
use net_serve.Prelude.{
  ℕ, ◌*◌, ◌≡◌, Bool, true, false, ◌&&◌, Option, none, some, List, [], ◌∷◌, ◌++◌, ltb, leb,
  if◌then◌else◌, Bytes, str_eq, length,
}

pub data State : Type 0 where
  uninitialized initialized started stopped error : State

-- The number of a state, by which the code compares states.
unfoldable pub state_number : State → ℕ
state_number uninitialized = 0
state_number initialized = 1
state_number started = 2
state_number stopped = 3
state_number error = 4

pub is_uninitialized : State → Bool
is_uninitialized uninitialized = true
is_uninitialized _ = false

pub is_initialized : State → Bool
is_initialized initialized = true
is_initialized _ = false

pub is_started : State → Bool
is_started started = true
is_started _ = false

-- `NULL`, or a function that changes the world and says whether it returned 0.
abbrev pub Callback : Type 0 → Type 0
Callback W = Option (W → Bool × W)

pub record Module (W : Type 0) : Type 0 where
  pub name : Bytes
  pub init : Callback W
  pub start : Callback W
  pub stop : Callback W
  pub cleanup : Callback W
  pub state : State
  pub dependencies : List Bytes

pub record Manager (W : Type 0) : Type 0 where
  pub modules : List (Module W)
  pub capacity : ℕ

module _ {W : Type 0} where
  unfoldable pub create : Manager W
  create = record { modules = []; capacity = 16 }

  -- The first module of this name.
  pub find : Bytes → List (Module W) → Option (Module W)
  find n [] = none
  find n (m ∷ ms) = if str_eq m.name n then some m else find n ms

  unfoldable pub is_registered : Bytes → List (Module W) → Bool
  is_registered n [] = false
  is_registered n (m ∷ ms) = if str_eq m.name n then true else is_registered n ms

  -- realloc refuses an array of more than 2 ^ 63 bytes, so a capacity that was granted is below
  -- 2 ^ 60 and its double does not wrap.
  pub expand_capacity : Bool → Manager W → Option (Manager W)
  expand_capacity realloc_ok mgr =
      if realloc_ok then some (record mgr { capacity = mgr.capacity * 2 }) else none

  -- `modules[module_count++] = module`.
  append : Module W → Manager W → Manager W
  append m mgr = record mgr { modules = mgr.modules ++ m ∷ [] }

  -- The new manager, or `none` where the code returns -1 and changes nothing.
  unfoldable pub register_module : Bool → Manager W → Module W → Option (Manager W)
  unfolding append expand_capacity
  register_module realloc_ok mgr m =
      if is_registered m.name mgr.modules
      then none
      else if leb mgr.capacity (length mgr.modules)
      then elim (expand_capacity realloc_ok mgr) [ none ↦ none | some mgr' ↦ some (append m mgr') ]
      else some (append m mgr)

  -- The first module of this name is taken out, and those behind it move down.
  pub remove : Bytes → List (Module W) → List (Module W)
  remove n [] = []
  remove n (m ∷ ms) = if str_eq m.name n then ms else m ∷ remove n ms

  pub unregister_module : Manager W → Bytes → Option (Manager W)
  unregister_module mgr n =
      if is_registered n mgr.modules
      then some (record mgr { modules = remove n mgr.modules })
      else none

  pub get_module : Manager W → Bytes → Option (Module W)
  get_module mgr n = find n mgr.modules

  pub get_module_state : Manager W → Bytes → State
  get_module_state mgr n = elim (get_module mgr n) [ none ↦ uninitialized | some m ↦ m.state ]

  -- A dependency is met if it is registered with a state of at least INITIALIZED.
  pub is_met : List (Module W) → Bytes → Bool
  unfolding state_number
  is_met ms n = elim (find n ms) [ none ↦ false | some d ↦ leb 1 (state_number d.state) ]

  pub check_dependencies : List (Module W) → List Bytes → Bool
  check_dependencies ms [] = true
  check_dependencies ms (d ∷ ds) = if is_met ms d then check_dependencies ms ds else false

  -- A callback that is NULL counts as a failure.
  unfoldable pub call : Callback W → W → Bool × W
  call none w = (false, w)
  call (some f) w = f w

  -- What the first loop of `module_manager_start` does to one module; `ms` is the whole array.
  pub init_one : List (Module W) → Module W → W → Module W × W
  unfolding is_uninitialized call
  init_one ms m w =
      if is_uninitialized m.state && check_dependencies ms m.dependencies
      then (let (ok, w') = call m.init w in
          (record m { state = if ok then initialized else error }, w'))
      else (m, w)

  -- The loop: `done` stands in front of the index, the rest behind it.
  pub init_all : List (Module W) → List (Module W) → W → List (Module W) × W
  init_all done [] w = (done, w)
  init_all done (m ∷ ms) w =
      let (m', w') = init_one (done ++ m ∷ ms) m w in init_all (done ++ m' ∷ []) ms w'

  -- The second loop, on one module.
  pub start_one : Module W → W → Module W × W
  unfolding is_initialized call
  start_one m w =
      if is_initialized m.state
      then (let (ok, w') = call m.start w in
          (record m { state = if ok then started else error }, w'))
      else (m, w)

  -- The loop of `module_manager_stop`, on one module.
  pub stop_one : Module W → W → Module W × W
  unfolding is_started call
  stop_one m w =
      if is_started m.state
      then (let (ok, w') = call m.stop w in
          (record m { state = if ok then stopped else m.state }, w'))
      else (m, w)

  -- The cleaning loop of `module_manager_shutdown`, on one module.
  pub cleanup_one : Module W → W → Module W × W
  unfolding state_number call
  cleanup_one m w =
      if ltb 0 (state_number m.state)
      then (let (ok, w') = call m.cleanup w in
          (record m { state = if ok then uninitialized else m.state }, w'))
      else (m, w)

  -- A loop over the array that changes one module after the other.
  pub each : (Module W → W → Module W × W) → List (Module W) → W → List (Module W) × W
  each f [] w = ([], w)
  each f (m ∷ ms) w = let (m', w') = f m w in let (ms', w'') = each f ms w' in (m' ∷ ms', w'')

  pub start_all : Manager W → W → Manager W × W
  start_all mgr w =
      let (inited, w') = init_all [] mgr.modules w in
      let (ms, w'') = each start_one inited w' in (record mgr { modules = ms }, w'')

  pub stop_all : Manager W → W → Manager W × W
  stop_all mgr w = let (ms, w') = each stop_one mgr.modules w in (record mgr { modules = ms }, w')

  pub shutdown : Manager W → W → Manager W × W
  unfolding stop_all
  shutdown mgr w =
      let (stopped_mgr, w') = stop_all mgr w in
      let (ms, w'') = each cleanup_one stopped_mgr.modules w' in (record mgr { modules = ms }, w'')

  -- `module_manager_destroy` shuts down, and frees the array and the manager; the modules are variables of
  -- their own.
  unfoldable pub destroy : Manager W → W → List (Module W) × W
  destroy mgr w = let (mgr', w') = shutdown mgr w in (mgr'.modules, w')

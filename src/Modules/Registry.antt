-- ===== src/Modules/Registry.antt =====
-- Registering, unregistering and looking up modules: a finite map from names to modules.
use net_serve.Prelude.{
  ◌≤◌, ◌≡◌, ◌↔◌, refl, Bool, true, false, not, ◌&&◌, ◌||◌, none, some, List, [], ◌∷◌, ◌++◌, arith,
  leb, if◌then◌else◌, Bytes, str_eq, str_eq_iff, str_eq_refl, length, length-append,
}
use net_serve.Modules.{
  Module, Manager, find, is_registered, remove, register_module, unregister_module, get_module,
  create,
}

module _ {W : Type 0} where
  -- No two modules have one name.
  abbrev pub Distinct : List (Module W) → Type 0
  Distinct [] = Unit
  Distinct (m ∷ ms) = (is_registered m.name ms ≡ false) × Distinct ms

  pub record IsValid (mgr : Manager W) : Type 0 where
    pub distinct : Distinct mgr.modules
    pub fits : length mgr.modules ≤ mgr.capacity
    pub room : 16 ≤ mgr.capacity

  pub is_registered-append :
      (n : Bytes) (ms : List (Module W)) (m : Module W)
      → is_registered n (ms ++ m ∷ []) ≡ (is_registered n ms || str_eq m.name n)
  unfolding is_registered
  is_registered-append n [] m = ground arith
  is_registered-append n (x ∷ ms) m = ground (arith, is_registered-append n ms m)

  Distinct-append :
      (ms : List (Module W)) (m : Module W)
      → Distinct ms
      → is_registered m.name ms ≡ false
      → Distinct (ms ++ m ∷ [])
  unfolding is_registered
  Distinct-append [] m d h = (refl, tt)
  Distinct-append (x ∷ ms) m d h = (
    ground (
      arith,
      is_registered-append x.name ms m,
      str_eq_iff x.name m.name,
      str_eq_iff m.name x.name,
    ),
    Distinct-append ms m d.1 (ground arith),
  )

  is_registered-remove_ne :
      (n k : Bytes) (ms : List (Module W))
      → is_registered k ms ≡ false
      → is_registered k (remove n ms) ≡ false
  unfolding is_registered remove
  is_registered-remove_ne n k [] h = refl
  is_registered-remove_ne n k (m ∷ ms) h = ground (arith, is_registered-remove_ne n k ms)

  Distinct-remove : (n : Bytes) (ms : List (Module W)) → Distinct ms → Distinct (remove n ms)
  unfolding remove
  Distinct-remove n [] d = tt
  Distinct-remove n (m ∷ ms) d =
      ground (arith, Distinct-remove n ms d.1, is_registered-remove_ne n m.name ms d.0)

  length-remove-le : (n : Bytes) (ms : List (Module W)) → length (remove n ms) ≤ length ms
  unfolding remove
  length-remove-le n [] = omega arith
  length-remove-le n (m ∷ ms) = ground (arith, length-remove-le n ms)

  find-append :
      (n : Bytes) (ms : List (Module W)) (m : Module W)
      → is_registered m.name ms ≡ false
      → find n (ms ++ m ∷ []) ≡ (if str_eq m.name n then some m else find n ms)
  unfolding find is_registered
  find-append n [] m h = refl
  find-append n (x ∷ ms) m h = ground (
    arith,
    find-append n ms m,
    str_eq_iff x.name n,
    str_eq_iff m.name n,
    str_eq_iff x.name m.name,
  )

  find_unregistered :
      (n : Bytes) (ms : List (Module W)) → is_registered n ms ≡ false → find n ms ≡ none
  unfolding find is_registered
  find_unregistered n [] h = refl
  find_unregistered n (m ∷ ms) h = ground (arith, find_unregistered n ms)

  find-remove :
      (n k : Bytes) (ms : List (Module W))
      → Distinct ms
      → find k (remove n ms) ≡ (if str_eq n k then none else find k ms)
  unfolding find remove
  find-remove n k [] d = ground arith
  find-remove n k (m ∷ ms) d = ground (
    arith,
    find-remove n k ms d.1,
    find_unregistered m.name ms d.0,
    str_eq_iff m.name n,
    str_eq_iff m.name k,
    str_eq_iff n k,
  )

  remove-append :
      (ms : List (Module W)) (m : Module W)
      → is_registered m.name ms ≡ false
      → remove m.name (ms ++ m ∷ []) ≡ ms
  unfolding remove is_registered
  remove-append [] m h = rw (str_eq_refl m.name)
  remove-append (x ∷ ms) m h = ground (arith, remove-append ms m)

  -- The first manager is valid, with no modules.
  pub create-IsValid : IsValid (create {W = W})
  unfolding create
  create-IsValid = omega arith

  -- Registering keeps the names distinct and the array within its capacity.
  pub register_module-IsValid :
      (ok : Bool) (mgr : Manager W) (m : Module W) {mgr' : Manager W}
      → IsValid mgr
      → register_module ok mgr m ≡ some mgr'
      → IsValid mgr'
  unfolding register_module
  register_module-IsValid ok mgr m v h =
      ground (arith, Distinct-append mgr.modules m v.distinct, length-append mgr.modules (m ∷ []))

  -- Registering fails exactly when the name is taken, or the array is full and does not grow.
  pub register_module-none_iff :
      (ok : Bool) (mgr : Manager W) (m : Module W)
      → (register_module ok mgr m ≡ none) ↔ (
          (is_registered m.name mgr.modules || (leb mgr.capacity (length mgr.modules) && not ok))
          ≡ true)
  unfolding register_module
  register_module-none_iff ok mgr m = ground arith

  -- After a registration the module is found under its name, and every other name as before.
  get_module-register_module :
      (ok : Bool) (mgr : Manager W) (m : Module W) (n : Bytes) {mgr' : Manager W}
      → register_module ok mgr m ≡ some mgr'
      → get_module mgr' n ≡ (if str_eq m.name n then some m else get_module mgr n)
  unfolding register_module get_module
  get_module-register_module ok mgr m n h = ground (arith, find-append n mgr.modules m)

  -- Unregistering keeps a manager valid.
  pub unregister_module-IsValid :
      (mgr : Manager W) (n : Bytes) {mgr' : Manager W}
      → IsValid mgr
      → unregister_module mgr n ≡ some mgr'
      → IsValid mgr'
  unfolding unregister_module
  unregister_module-IsValid mgr n v h =
      ground (arith, Distinct-remove n mgr.modules v.distinct, length-remove-le n mgr.modules)

  -- After a valid manager unregistered a name, that name is not found, and every other as before.
  get_module-unregister_module :
      (mgr : Manager W) (n k : Bytes) {mgr' : Manager W}
      → IsValid mgr
      → unregister_module mgr n ≡ some mgr'
      → get_module mgr' k ≡ (if str_eq n k then none else get_module mgr k)
  unfolding unregister_module get_module
  get_module-unregister_module mgr n k v h = ground (arith, find-remove n k mgr.modules v.distinct)

  -- Registering a module and unregistering the name `k` keep a valid manager valid. After the first
  -- the module is found under its name, after the second nothing is found under `k`, and every other
  -- name is found as before.
  pub registry_lem :
      (ok : Bool) (mgr : Manager W) (m : Module W) (k n : Bytes) {added removed : Manager W}
      → IsValid mgr
      → register_module ok mgr m ≡ some added
      → unregister_module mgr k ≡ some removed
      → IsValid added
        × (get_module added n ≡ (if str_eq m.name n then some m else get_module mgr n))
        × IsValid removed
        × (get_module removed n ≡ (if str_eq k n then none else get_module mgr n))
  registry_lem ok mgr m k n v a r = (
    register_module-IsValid ok mgr m v a,
    get_module-register_module ok mgr m n a,
    unregister_module-IsValid mgr k v r,
    get_module-unregister_module mgr k n v r,
  )

  -- Unregistering what was just registered gives back the modules in their order.
  pub unregister_module-register_module :
      (ok : Bool) (mgr : Manager W) (m : Module W) {mgr' : Manager W}
      → register_module ok mgr m ≡ some mgr'
      → unregister_module mgr' m.name ≡ some (record mgr' { modules = mgr.modules })
  unfolding register_module unregister_module
  unregister_module-register_module ok mgr m h = ground (
    arith,
    remove-append mgr.modules m,
    is_registered-append m.name mgr.modules m,
    str_eq_refl m.name,
  )

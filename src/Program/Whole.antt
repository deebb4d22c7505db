-- ===== src/Program/Whole.antt =====
-- A run of the whole program, from its start to its exit.
use net_serve.Prelude.{◌≡◌, false, List, All}
use net_serve.Modules.{Module, is_registered}

module _ {W : Type 0} where
  -- None of the modules has a name of the second list.
  abbrev Apart : List (Module W) → List (Module W) → Type 0
  Apart ms ns = All (λ m. is_registered m.name ns ≡ false) ms

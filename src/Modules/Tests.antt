-- ===== src/Modules/Tests.antt =====
-- Runs of the module manager, and its theorems at concrete modules. The world is the list of the
-- callbacks that were made.
use net_serve.Prelude.{
  ℕ, ◌≡◌, refl, true, false, none, some, List, [], ◌∷◌, ◌++◌, arith, map, str_eq,
}
use net_serve.Modules.{
  create, Module, Manager, uninitialized, started, register_module, unregister_module, get_module,
  is_registered, start_all, init_one, init_all, each, start_one, check_dependencies, is_met, find,
  remove, Callback,
}
use net_serve.Modules.Registry.{IsValid, registry_lem}
use net_serve.Modules.Ready.{AllSettled}
use net_serve.Modules.Dependencies.{created, registered, ran, Reach-AllSettled}

abbrev World : Type 0
World = List ℕ

abbrev good : ℕ → Callback World
good n = some (λ w. (true, w ++ n ∷ []))

abbrev bad : Callback World
bad = some (λ w. (false, w))

abbrev logger : Module World
logger = record {
  name = b'l' ∷ [];
  init = good 1;
  start = good 2;
  stop = good 3;
  cleanup = good 4;
  state = uninitialized;
  dependencies = [];
}

abbrev net : Module World
net = record logger { name = b'n' ∷ []; dependencies = (b'l' ∷ []) ∷ [] }

abbrev broken : Module World
broken = record logger { init = bad }

abbrev one : Manager World
one = record { modules = logger ∷ []; capacity = 16 }

abbrev two : Manager World
two = record { modules = logger ∷ net ∷ []; capacity = 16 }

abbrev failing : Manager World
failing = record { modules = broken ∷ net ∷ []; capacity = 16 }

start_two : map (λ m. m.state) (start_all two []).0.modules ≡ started ∷ started ∷ []
unfolding start_all init_all init_one start_one check_dependencies is_met find each str_eq
start_two = refl

one-IsValid : IsValid one
unfolding is_registered
one-IsValid = record { distinct = (refl, tt); fits = omega arith; room = omega arith }

register_net : register_module true one net ≡ some two
unfolding register_module is_registered str_eq
register_net = refl

unregister_logger : unregister_module one logger.name ≡ some (record one { modules = [] })
unfolding unregister_module is_registered remove str_eq
unregister_logger = refl

registry_lem_example :
    IsValid two
    × (get_module two net.name ≡ some net)
    × IsValid (record one { modules = [] })
    × (get_module (record one { modules = [] }) net.name ≡ none)
unfolding str_eq get_module find
registry_lem_example =
    registry_lem true one net logger.name net.name one-IsValid register_net unregister_logger

register_logger : register_module true create logger ≡ some one
unfolding register_module create is_registered
register_logger = refl

Reach-AllSettled_example : AllSettled (start_all two []).0.modules
Reach-AllSettled_example = Reach-AllSettled (
    ran []
      (registered true net (registered true logger created refl register_logger) refl register_net))

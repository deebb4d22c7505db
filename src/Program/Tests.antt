-- ===== src/Program/Tests.antt =====
-- A run of the program with two modules, of which the second fails to start.
use net_serve.Prelude.{ℕ, true, false, some, List, [], ◌∷◌, ◌++◌}
use net_serve.Modules.{Module, Callback, uninitialized}
use net_serve.Program.{Machine, signalled}

abbrev World : Type 0
World = List ℕ

abbrev good : ℕ → Callback World
good n = some (λ w. (true, w ++ n ∷ []))

abbrev logger : Module World
logger = record {
  name = b'l' ∷ [];
  init = good 1;
  start = good 2;
  stop = good 3;
  cleanup = good 4;
  state = uninitialized;
  dependencies = [];
}

abbrev database : Module World
database = record logger {
  name = b'd' ∷ [];
  start = some (λ w. (false, w));
  cleanup = some (λ w. (false, w));
}

abbrev machine : Machine World
machine = record {
  config_there = true;
  loop_ok = true;
  manager_ok = true;
  realloc_ok = false;
  register_http_routes = λ w. w ++ 9 ∷ [];
  run = λ w. (signalled, w);
}

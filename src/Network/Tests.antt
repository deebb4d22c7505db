-- ===== src/Network/Tests.antt =====
-- Runs of the network modules, and their theorems at concrete inputs.
use net_serve.Prelude.{◌||◌, ◌≡◌, refl, true, false, none, some, [], ◌∷◌, if◌then◌else◌}
use net_serve.Network.{
  Server, broken, default_config, init_server, has, add_client, close, on_new_connection, on_read,
  on_client_close, module_stop,
}
use net_serve.Network.Clients.{
  IsValid, Reach, here, next, connect, read, closed, init_server-IsValid, Reach-IsValid,
}
use net_serve.Network.Closing.{meets, push_all, module_stop_lem}
use net_serve.Network.Enhanced.{Request, Enhanced, Memory, process_request}
use net_serve.Network.System
use net_serve.Network.System.{System}
use net_serve.Threadpool.{Pool, finish_item}
use net_serve.Threadpool

abbrev fresh : Server
fresh = init_server default_config

abbrev one : Server
one = record fresh { table = record { clients = 7 ∷ []; capacity = 16 }; alive = 7 ∷ [] }

abbrev leaving : Server
leaving = record one { closing = 7 ∷ [] }

-- A client connects, and then its connection breaks.
to_leaving : Reach fresh leaving
unfolding has on_new_connection add_client on_read close
to_leaving = next (next here (connect true true true 7 refl refl)) (read true 7 broken refl refl)

Reach-IsValid_example : IsValid (on_client_close 7 leaving)
unfolding has
Reach-IsValid_example =
    Reach-IsValid (init_server-IsValid default_config) (next to_leaving (closed 7 refl))

-- A stop before the close callback.
module_stop_lem_example : module_stop leaving ≡ (
    if meets (7 ∷ []) (7 ∷ []) || false
    then none
    else some (record leaving {
      closing = push_all (7 ∷ []) (7 ∷ []);
      listening = false;
      server_closing = true;
    }))
module_stop_lem_example =
    module_stop_lem leaving (Reach-IsValid (init_server-IsValid default_config) to_leaving)

abbrev net : Enhanced
net = record { server = one; enable_threadpool = true; total_requests = 0; active_requests = 0 }

abbrev memory : Memory
memory = record { context_ok = true; data_ok = true; item_ok = true; response_ok = true }

abbrev pool : Pool Request
pool = record {
  work_queue = [];
  priority_queue = [];
  shutdown = false;
  active_threads = 0;
  queued_work = 0;
  max_queue_size = 1000;
  thread_slots = 4;
  config = Threadpool.default_config;
}

abbrev request : Request
request = record { client = 7; data' = b'x' ∷ []; size = 1 }

abbrev queued : Pool Request
queued = record pool { work_queue = request ∷ []; queued_work = 1 }

abbrev working : Pool Request
working = record pool { active_threads = 1 }

abbrev reply : Server → Server
reply s = process_request true 5 request s

-- A request comes, a worker takes and answers it before the loop counts it, and finishes.
abbrev finished : System
finished = record {
  net = record net { server = reply one; total_requests = 1; active_requests = 1 };
  run = record {
    pool = finish_item working;
    taken_in = request ∷ [];
    running = [];
    done = request ∷ [];
  };
  counting = false;
  busy = [];
  responded = [];
  silent = 0;
}

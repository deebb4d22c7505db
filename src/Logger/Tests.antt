-- ===== src/Logger/Tests.antt =====
-- Runs of the logger, and its theorems at concrete inputs.
use net_serve.Prelude.{◌≡◌, false, refl, true, false, none, [], ◌∷◌}
use net_serve.Logger.{info, error, Message, Logger, default_config, module_init, testing, console}
use net_serve.Logger.Runs.{Run}

abbrev hello : Message
hello = record { level = info; text = b'h' ∷ []; timestamp = none }

abbrev bye : Message
bye = record { level = error; text = b'b' ∷ []; timestamp = none }

abbrev ready : Logger
ready = record {
  messages = [];
  size = 0;
  max_size = 2;
  worker_running = true;
  file_open = false;
  config = record default_config { enable_timestamp = false };
  global_level = info;
  events = [];
}

first_init : (module_init info []).messages ≡ []
unfolding module_init
first_init = refl

abbrev begin : Run
begin = record { logger = ready; worker = testing; taken = []; entries = [] }

abbrev two : Logger
two = record ready { messages = hello ∷ bye ∷ []; size = 2 }

abbrev one_left : Logger
one_left = record ready { messages = bye ∷ []; size = 1 }

-- The worker is told to stop while it holds a message, which it still writes.
abbrev finished : Run
finished = record {
  logger = record one_left { worker_running = false; events = console info (b'h' ∷ []) ∷ [] };
  worker = testing;
  taken = hello ∷ bye ∷ [];
  entries = record { message = hello; on_console = true; in_file = false; by_worker = true } ∷ [];
}

-- ===== src/Network/Requests.antt =====
-- The requests of the enhanced network module in the thread pool.
use net_serve.Prelude.{false, List, []}
use mathlib.Core.List.{Perm}
use mathlib.Core.List.Perm
use net_serve.Network.Enhanced.{Request, Enhanced}
use net_serve.Threadpool.{Pool}
use net_serve.Threadpool.Steps
use net_serve.Network.System.{System}

-- The module and a pool without work, as they begin.
abbrev pub begin : Enhanced → Pool Request → System
begin n p = record {
  net = n;
  run = Steps.begin p;
  counting = false;
  busy = [];
  responded = [];
  silent = 0;
}

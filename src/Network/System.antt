-- ===== src/Network/System.antt =====
-- The enhanced network module beside the thread pool: the steps of the event loop and of the workers.
use net_serve.Prelude.{
  ℕ, ◌+◌, not, ◌≡◌, Bool, true, false, Option, none, some, List, ◌∷◌, ◌++◌, length, if◌then◌else◌,
}
use mathlib.Core.List.{Perm}
use net_serve.Network.{Read}
use net_serve.Network.Enhanced.{
  Request, Enhanced, Memory, goes, enhanced_read, enhanced_connection, enhanced_close,
  process_request, count_request,
}
use net_serve.Threadpool.{
  Pool, worker_turn, runs, finish_item, module_stop, module_set_config, Config,
}
use net_serve.Threadpool.Steps

-- The module with the pool and its history. `counting` says that the event loop stands in `on_read`
-- between the submission and the counters. Of the requests that workers run, `busy` are those that are
-- not answered yet, and `responded` those that are; `silent` counts the answers for which memory did
-- not suffice.
pub record System : Type 0 where
  pub net : Enhanced
  pub run : Steps.Run Request
  pub counting : Bool
  pub busy : List Request
  pub responded : List Request
  pub silent : ℕ

abbrev pub take_in : Option Request → List Request → List Request
take_in none rs = rs
take_in (some r) rs = r ∷ rs

abbrev pub is_taken : Option Request → Bool
is_taken none = false
is_taken (some r) = true

abbrev pub one_if : Bool → ℕ
one_if b = if b then 1 else 0

-- The event loop makes a step when it does not stand in `on_read`. A worker takes a request, answers
-- it and finishes it, and others step in between.
pub data Step (s : System) : System → Type 0 where
  connect :
      (status_ok accept_ok realloc_ok : Bool) (handle : Option ℕ) {n : Enhanced}
      → s.counting ≡ false
      → enhanced_connection status_ok handle accept_ok realloc_ok s.net ≡ some n
      → Step s (record s { net = n })
  receive :
      (m : Memory) (c : ℕ) (r : Read) {req : Option Request} {n : Enhanced} {q : Pool Request}
      → s.counting ≡ false
      → enhanced_read m c r s.net s.run.pool ≡ goes req n q
      → Step s (record s {
        net = n;
        run = record (s.run) { pool = q; taken_in = take_in req s.run.taken_in };
        counting = is_taken req;
      })
  count : s.counting ≡ true → Step s (record s { net = count_request s.net; counting = false })
  closed : (c : ℕ) → s.counting ≡ false → Step s (record s { net = enhanced_close c s.net })
  take :
      (j : Request) {q : Pool Request}
      → worker_turn s.run.pool ≡ runs j q
      → Step s (record s {
        run = record (s.run) { pool = q; running = j ∷ s.run.running };
        busy = j ∷ s.busy;
      })
  respond :
      (ok : Bool) (random : ℕ) (xs ys : List Request) (r : Request)
      → s.busy ≡ xs ++ r ∷ ys
      → Step s (record s {
        net = record (s.net) { server = process_request ok random r s.net.server };
        busy = xs ++ ys;
        responded = r ∷ s.responded;
        silent = s.silent + one_if (not ok);
      })
  finish :
      (us xs : List Request) (j : Request) (ys vs : List Request)
      → s.responded ≡ us ++ j ∷ vs
      → s.run.running ≡ xs ++ j ∷ ys
      → Step s (record s {
        run = record (s.run) {
          pool = finish_item s.run.pool;
          running = xs ++ ys;
          done = j ∷ s.run.done;
        };
        responded = us ++ vs;
      })
  stop : Step s (record s { run = record (s.run) { pool = module_stop s.run.pool } })
  configure :
      (c : Config)
      → Step s (record s { run = record (s.run) { pool = module_set_config c s.run.pool } })

pub data Reach (s : System) : System → Type 0 where
  here : Reach s s
  next : {t u : System} → Reach s t → Step t u → Reach s u

pub record IsAccounted (s : System) : Type 0 where
  pub total : s.net.total_requests + one_if s.counting ≡ length s.run.taken_in
  pub active : s.net.active_requests ≡ s.net.total_requests
  pub kept : Perm s.run.taken_in (Steps.everywhere s.run)
  pub pooled : s.net.enable_threadpool ≡ true
  pub split : length s.run.running ≡ length s.busy + length s.responded
  pub answered : length s.net.server.sent + s.silent ≡ length s.run.done + length s.responded

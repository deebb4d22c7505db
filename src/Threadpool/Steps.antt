-- ===== src/Threadpool/Steps.antt =====
-- All that submitters, workers and the owner of the pool may do, in any order, and what it keeps.
use mathlib.Core.List.{Perm, perm_middle, append_assoc, perm_append_singleton}
use mathlib.Core.List.Perm
use net_serve.Prelude.{
  ◌+◌, ◌-◌, ◌≡◌, ◌≤◌, ◌<◌, ◌⊎◌, inl, refl, ap, subst, Bool, false, some, List, [], ◌∷◌, ◌++◌, arith,
  length, length-append,
}
use net_serve.Threadpool.{
  Pool, Config, accepted, runs, submit_work, submit_priority_work, worker_turn, take_item,
  finish_item, module_stop, module_set_config,
}

-- The pool with what happened so far: the items accepted, those being run, and those done, each
-- list with its newest item first.
pub record Run (J : Type 0) : Type 0 where
  pub pool : Pool J
  pub taken_in : List J
  pub running : List J
  pub done : List J

abbrev pub begin : {J : Type 0} → Pool J → Run J
begin p = record { pool = p; taken_in = []; running = []; done = [] }

module _ {J : Type 0} where
  pub data Step (s : Run J) : Run J → Type 0 where
    submit :
        (j : J) (item_ok : Bool) {q : Pool J}
        → submit_work (some j) item_ok s.pool ≡ accepted q
        → Step s (record s { pool = q; taken_in = j ∷ s.taken_in })
    submit_priority :
        (j : J) (item_ok : Bool) {q : Pool J}
        → submit_priority_work (some j) item_ok s.pool ≡ accepted q
        → Step s (record s { pool = q; taken_in = j ∷ s.taken_in })
    take :
        (j : J) {q : Pool J}
        → worker_turn s.pool ≡ runs j q
        → Step s (record s { pool = q; running = j ∷ s.running })
    finish :
        (xs : List J) (j : J) (ys : List J)
        → s.running ≡ xs ++ j ∷ ys
        → Step s (record s { pool = finish_item s.pool; running = xs ++ ys; done = j ∷ s.done })
    stop : Step s (record s { pool = module_stop s.pool })
    configure : (c : Config) → Step s (record s { pool = module_set_config c s.pool })

  pub data Reach (s : Run J) : Run J → Type 0 where
    here : Reach s s
    next : {t u : Run J} → Reach s t → Step t u → Reach s u

  -- The counters agree with the queues and with the items being run.
  pub record Counts (s : Run J) : Type 0 where
    pub queued : s.pool.queued_work ≡ length s.pool.work_queue + length s.pool.priority_queue
    pub active : s.pool.active_threads ≡ length s.running

  pub submit_work-accepted :
      (j : J) (ok : Bool) (p : Pool J) {q : Pool J}
      → submit_work (some j) ok p ≡ accepted q
      → (q ≡ record p { work_queue = p.work_queue ++ j ∷ []; queued_work = p.queued_work + 1 })
        × (p.shutdown ≡ false)
        × (p.queued_work < p.max_queue_size)
  unfolding submit_work
  submit_work-accepted j ok p e = ground arith

  pub submit_priority_work-accepted :
      (j : J) (ok : Bool) (p : Pool J) {q : Pool J}
      → submit_priority_work (some j) ok p ≡ accepted q
      → (q ≡ record p { priority_queue = j ∷ p.priority_queue; queued_work = p.queued_work + 1 })
        × (p.shutdown ≡ false)
        × (p.queued_work < p.max_queue_size)
  unfolding submit_priority_work
  submit_priority_work-accepted j ok p e = ground arith

  -- `q` is `p` with the item `j` taken, off the priority queue if that has any.
  pub record Takes (p : Pool J) (j : J) (q : Pool J) : Type 0 where
    pub order : p.priority_queue ++ p.work_queue ≡ j ∷ (q.priority_queue ++ q.work_queue)
    pub queued : q.queued_work ≡ p.queued_work - 1
    pub active : q.active_threads ≡ p.active_threads + 1
    pub shut : q.shutdown ≡ p.shutdown
    pub limit : q.max_queue_size ≡ p.max_queue_size

  take_item-Takes :
      (priority work : List J) (p : Pool J) {j : J} {q : Pool J}
      → p.priority_queue ≡ priority
      → p.work_queue ≡ work
      → take_item priority work p ≡ runs j q
      → Takes p j q
  unfolding take_item
  take_item-Takes (x ∷ rest) work p d e h = ground arith
  take_item-Takes [] (x ∷ rest) p d e h = ground arith
  take_item-Takes [] [] p d e h = absurd (cc)

  pub worker_turn-runs :
      (p : Pool J) {j : J} {q : Pool J}
      → worker_turn p ≡ runs j q
      → (p.shutdown ≡ false) × Takes p j q
  unfolding worker_turn
  worker_turn-runs p h = ground (arith, take_item-Takes p.priority_queue p.work_queue p refl refl)

  queue_length :
      (p : Pool J)
      → length (p.priority_queue ++ p.work_queue) ≡ length p.work_queue + length p.priority_queue
  queue_length p = omega (arith, length-append p.priority_queue p.work_queue)

  Step-Counts : {s t : Run J} → Step s t → Counts s → Counts t
  unfolding finish_item module_stop module_set_config
  Step-Counts {s} (submit j ok e) c =
      ground (arith, submit_work-accepted j ok s.pool e, length-append s.pool.work_queue (j ∷ []))
  Step-Counts {s} (submit_priority j ok e) c =
      ground (arith, submit_priority_work-accepted j ok s.pool e)
  Step-Counts {s} (take j {q} e) c =
      let (up, t) = worker_turn-runs s.pool e in
      record {
        queued =
            omega
              (arith, t.queued, c.queued, queue_length s.pool, queue_length q, ap length t.order);
        active = omega (arith, t.active, c.active);
      }
  Step-Counts (finish xs j ys e) c = record {
    queued = c.queued;
    active = omega (arith, c.active, ap length e, length-append xs (j ∷ ys), length-append xs ys);
  }
  Step-Counts stop c = record { queued = c.queued; active = c.active }
  Step-Counts (configure k) c = record { queued = c.queued; active = c.active }

  -- Whatever submitters and workers do, from a pool with nothing in it: `queued_work` is the number
  -- of items in the two queues, and `active_threads` that of the items being run.
  pub Reach-Counts : (p : Pool J) {t : Run J} → Counts (begin p) → Reach (begin p) t → Counts t
  Reach-Counts p c here = c
  Reach-Counts p c (next r st) = Step-Counts st (Reach-Counts p c r)

  -- A step goes over the limit on the queued items only if it lowers the limit.
  pub Step-limit :
      {s t : Run J}
      → Step s t
      → Counts s
      → s.pool.queued_work ≤ s.pool.max_queue_size
      → (t.pool.queued_work ≤ t.pool.max_queue_size)
        ⊎ (t.pool.max_queue_size < s.pool.max_queue_size)
  unfolding finish_item module_stop module_set_config
  Step-limit {s} (submit j ok e) c h = ground (arith, submit_work-accepted j ok s.pool e)
  Step-limit {s} (submit_priority j ok e) c h =
      ground (arith, submit_priority_work-accepted j ok s.pool e)
  Step-limit {s} (take j e) c h =
      let (up, t) = worker_turn-runs s.pool e in inl (omega (arith, t.queued, t.limit))
  Step-limit (finish xs j ys e) c h = inl h
  Step-limit stop c h = inl h
  Step-limit (configure k) c h = omega arith

  -- All items that were accepted, wherever they are now.
  abbrev pub everywhere : Run J → List J
  everywhere s = s.done ++ (s.running ++ (s.pool.priority_queue ++ s.pool.work_queue))

  -- An item that comes in front of the third part of three.
  push_in :
      (ds rs zs zs' l : List J) (j : J)
      → Perm (j ∷ zs) zs'
      → Perm l (ds ++ (rs ++ zs))
      → Perm (j ∷ l) (ds ++ (rs ++ zs'))
  push_in ds rs zs zs' l j k h = Perm.trans (Perm.cons j h) (
      Perm.trans (Perm.symm (perm_middle ds (rs ++ zs))) (
        Perm.append (Perm.refl ds)
          (Perm.trans (Perm.symm (perm_middle rs zs)) (Perm.append (Perm.refl rs) k))))

  pub Step-Perm :
      {s t : Run J} → Step s t → Perm s.taken_in (everywhere s) → Perm t.taken_in (everywhere t)
  unfolding finish_item module_stop module_set_config
  Step-Perm {s} (submit j ok e) h = rw (submit_work-accepted j ok s.pool e).0 (
      push_in s.done s.running (s.pool.priority_queue ++ s.pool.work_queue)
        (s.pool.priority_queue ++ (s.pool.work_queue ++ j ∷ [])) s.taken_in j
        (rw (← append_assoc s.pool.priority_queue s.pool.work_queue (j ∷ []))
          (Perm.symm (perm_append_singleton j (s.pool.priority_queue ++ s.pool.work_queue))))
        h)
  Step-Perm {s} (submit_priority j ok e) h = rw (submit_priority_work-accepted j ok s.pool e).0 (
      push_in s.done s.running (s.pool.priority_queue ++ s.pool.work_queue)
        (j ∷ (s.pool.priority_queue ++ s.pool.work_queue)) s.taken_in j (Perm.refl _) h)
  Step-Perm {s} (take j {q} e) h =
      let waiting = q.priority_queue ++ q.work_queue in
      Perm.trans
        (subst (λ k. Perm s.taken_in (s.done ++ (s.running ++ k)))
          (worker_turn-runs s.pool e).1.order h)
        (Perm.append (Perm.refl s.done) (perm_middle s.running waiting))
  Step-Perm {s} (finish xs j ys e) h =
      let waiting = s.pool.priority_queue ++ s.pool.work_queue in
      Perm.trans (subst (λ k. Perm s.taken_in (s.done ++ (k ++ waiting))) e h) (
        Perm.trans
          (Perm.append (Perm.refl s.done) (Perm.append (perm_middle xs ys) (Perm.refl waiting)))
          (perm_middle s.done ((xs ++ ys) ++ waiting)))
  Step-Perm stop h = h
  Step-Perm (configure k) h = h

  -- No item is lost, made up or run twice, whatever submitters and workers do: those accepted are, up
  -- to their order, those done, those being run and those in the queues.
  pub Reach-Perm :
      (p : Pool J) {t : Run J}
      → p.work_queue ≡ []
      → p.priority_queue ≡ []
      → Reach (begin p) t
      → Perm t.taken_in (everywhere t)
  Reach-Perm p w q here = rw (w, q) Perm.nil
  Reach-Perm p w q (next r st) = Step-Perm st (Reach-Perm p w q r)

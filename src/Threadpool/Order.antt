-- ===== src/Threadpool/Order.antt =====
-- The order in which items are taken: the pool as one queue with two entrances.
use net_serve.Prelude.{
  ℕ, ◌+◌, ◌≡◌, refl, Bool, true, some, List, [], ◌∷◌, ◌++◌, arith, length, length-append, leb,
  if◌then◌else◌,
}
use mathlib.Core.List.{append_assoc}
use net_serve.Threadpool.{
  Pool, Attempt, blocked, refused, accepted, Turn, idle, leaves, runs, submit_work,
  submit_priority_work, worker_turn, take_item,
}

-- A queue of at most `limit` items that may be closed.
pub record Queue (J : Type 0) : Type 0 where
  pub items : List J
  pub closed : Bool
  pub limit : ℕ

pub data Reply (A : Type 0) : Type 0 where
  waits : Reply A
  no_more : Reply A
  yields : A → Reply A

module _ {J : Type 0} where
  abbrev pub view : Pool J → Queue J
  view p = record {
    items = p.priority_queue ++ p.work_queue;
    closed = p.shutdown;
    limit = p.max_queue_size;
  }

  abbrev pub view_attempt : Attempt J → Reply (Queue J)
  view_attempt blocked = waits
  view_attempt refused = no_more
  view_attempt (accepted p) = yields (view p)

  abbrev pub view_turn : Turn J → Reply (J × Queue J)
  view_turn idle = waits
  view_turn leaves = no_more
  view_turn (runs j p) = yields (j, view p)

  -- An entrance: `place` puts the item in. A full queue makes the caller wait, a closed one refuses.
  abbrev pub enter : (List J → List J) → Queue J → Reply (Queue J)
  enter place q =
      if q.closed
      then no_more
      else if leb q.limit (length q.items)
      then waits
      else yields (record q { items = place q.items })

  abbrev pub take_front : List J → Queue J → Reply (J × Queue J)
  take_front [] q = waits
  take_front (j ∷ rest) q = yields (j, record q { items = rest })

  abbrev pub leave : Queue J → Reply (J × Queue J)
  leave q = if q.closed then no_more else take_front q.items q

  -- The counter agrees with the queues.
  abbrev pub IsCounted : Pool J → Type 0
  IsCounted p = p.queued_work ≡ length p.work_queue + length p.priority_queue

  submit_work-enter :
      (j : J) (p : Pool J)
      → IsCounted p
      → view_attempt (submit_work (some j) true p) ≡ enter (λ items. items ++ j ∷ []) (view p)
  unfolding submit_work
  submit_work-enter j p c = ground (
    arith,
    length-append p.priority_queue p.work_queue,
    append_assoc p.priority_queue p.work_queue (j ∷ []),
  )

  submit_priority_work-enter :
      (j : J) (p : Pool J)
      → IsCounted p
      → view_attempt (submit_priority_work (some j) true p) ≡ enter (λ items. j ∷ items) (view p)
  unfolding submit_priority_work
  submit_priority_work-enter j p c = ground (arith, length-append p.priority_queue p.work_queue)

  take_item-take_front :
      (priority work : List J) (p : Pool J)
      → p.priority_queue ≡ priority
      → p.work_queue ≡ work
      → view_turn (take_item priority work p) ≡ take_front (priority ++ work) (view p)
  unfolding take_item
  take_item-take_front (j ∷ rest) work p d e = ground arith
  take_item-take_front [] (j ∷ rest) p d e = ground arith
  take_item-take_front [] [] p d e = refl

  worker_turn-leave : (p : Pool J) → view_turn (worker_turn p) ≡ leave (view p)
  unfolding worker_turn
  worker_turn-leave p =
      ground (arith, take_item-take_front p.priority_queue p.work_queue p refl refl)

  -- A pool whose counter agrees with its queues is one queue with two entrances. Where memory for the
  -- item is given, `threadpool_submit_work` puts it at the back and `threadpool_submit_priority_work`
  -- at the front, a full queue makes them wait and a closed one refuses. A worker takes the item at
  -- the front, so priority items newest first, then the others oldest first; on an empty queue it
  -- waits, and from a closed one it takes nothing.
  pub pool_is_queue :
      (j : J) (p : Pool J)
      → IsCounted p
      → (view_attempt (submit_work (some j) true p) ≡ enter (λ items. items ++ j ∷ []) (view p))
        × (view_attempt (submit_priority_work (some j) true p)
            ≡ enter (λ items. j ∷ items) (view p))
        × (view_turn (worker_turn p) ≡ leave (view p))
  pool_is_queue j p c =
      (submit_work-enter j p c, submit_priority_work-enter j p c, worker_turn-leave p)

-- ===== src/Memory/Reuse.antt =====
-- Blocks that come back to a pool, and the cleaning of a pool.
use net_serve.Prelude.{
  ℕ, zero, suc, ◌+◌, ◌-◌, ◌≡◌, ◌≢◌, ◌<◌, refl, List, [], ◌∷◌, length, arith, some, ◌∙◌, ap,
}
use net_serve.Memory.Pool.{
  Heap, Event, freed, Pool, push_block, header_size, free_to_pool, cleanup_loop, cleanup_pool,
}
use net_serve.Memory.FreeList.{Chain, Lacks, Holds, push_block-Holds}

free_to_pool_nonnull :
    (ptr : ℕ) (p : Pool) (h : Heap)
    → ptr ≢ 0
    → free_to_pool ptr p h ≡ push_block (ptr - header_size) p h
unfolding free_to_pool
free_to_pool_nonnull ptr p h nz = ground arith

pub free_to_pool_push :
    (b : ℕ) (p : Pool) (h : Heap) → free_to_pool (b + header_size) p h ≡ push_block b p h
free_to_pool_push b p h =
    free_to_pool_nonnull (b + header_size) p h (omega arith)
    ∙ ap (λ (a : ℕ). push_block a p h) (omega arith)

-- A block that is not free already goes to the front of the free list.
pub free_to_pool-Holds :
    (b : ℕ) (p : Pool) (h : Heap) (xs : List ℕ)
    → b ≢ 0
    → Lacks b xs
    → Holds h p xs
    → Holds (free_to_pool (b + header_size) p h).1 (free_to_pool (b + header_size) p h).0 (b ∷ xs)
free_to_pool-Holds b p h xs nz l v = rw (free_to_pool_push b p h) (push_block-Holds b p h xs nz l v)

-- What the log holds after the blocks were freed in their order.
abbrev pub freed_all : List ℕ → List Event → List Event
freed_all [] log = log
freed_all (x ∷ xs) log = freed_all xs (freed x ∷ log)

cleanup_loop_lem :
    (fuel head : ℕ) (h : Heap) (xs : List ℕ)
    → Chain h.next head xs
    → length xs < fuel
    → cleanup_loop fuel head h ≡ some (record h { log = freed_all xs h.log })
unfolding cleanup_loop
cleanup_loop_lem zero head h xs c lt = elim lt [ ]
cleanup_loop_lem (suc fuel) head h [] c lt = ground arith
cleanup_loop_lem (suc fuel) head h (x ∷ xs) c lt =
    ground (arith, cleanup_loop_lem fuel (h.next x) (record h { log = freed x ∷ h.log }) xs c.2)

-- `memory_pool_cleanup_pool` ends, with any fuel above the number of free blocks. It frees each
-- block of the free list once, in the order of the list, and leaves an empty pool.
pub cleanup_pool_lem :
    (fuel : ℕ) (p : Pool) (h : Heap) (xs : List ℕ)
    → Holds h p xs
    → length xs < fuel
    → (p' : Pool) × (cleanup_pool fuel p h ≡ some (p', record h { log = freed_all xs h.log }))
      × Holds h p' []
      × (p'.total_blocks ≡ 0)
unfolding cleanup_pool
cleanup_pool_lem fuel p h xs v lt = (
  record p { free_list = 0; total_blocks = 0; free_blocks = 0 },
  ground (arith, cleanup_loop_lem fuel p.free_list h xs v.chain),
  record { chain = refl; distinct = tt; counted = refl },
  refl,
)

-- ===== src/Memory/Tests.antt =====
-- Runs of the memory pools, and their theorems at a small heap.
use net_serve.Prelude.{
  ℕ, ◌≡◌, ◌↔◌, refl, List, [], ◌∷◌, arith, true, none, some, ◌==◌, if◌then◌else◌,
}
use net_serve.Memory.Pool.{
  Heap, freed, zeroed, Pool, allocate_from_pool, cleanup_pool, malloc, expand_pool, expand_loop,
}
use net_serve.Memory.FreeList.{Holds}
use net_serve.Memory.Growth.{allocate_from_pool_grows}
use net_serve.Memory.Reuse.{cleanup_pool_lem}
use net_serve.Memory.Requests.{memory_pool_alloc-none_iff, fails_to_grow, memory_pool_alloc_hit}
use net_serve.Memory.Service.{
  Service, World, PoolName, small, medium, large, huge, pool, default_config, select_memory_pool,
  memory_pool_alloc, memory_pool_calloc, record_event, count_allocation,
}

-- Two blocks, 100 and 200, in this order.
abbrev heap : Heap
heap = record { next = λ x. if x == 100 then 200 else 0; answers = 1000 ∷ 2000 ∷ 0 ∷ []; log = [] }

abbrev two_blocks : Pool
two_blocks = record { block_size = 256; total_blocks = 2; free_blocks = 2; free_list = 100 }

abbrev no_blocks : Pool
no_blocks = record { block_size = 64; total_blocks = 0; free_blocks = 0; free_list = 0 }

abbrev used_up : Pool
used_up = record no_blocks { total_blocks = 2 }

two_blocks-Holds : Holds heap two_blocks (100 ∷ 200 ∷ [])
two_blocks-Holds = record {
  chain = (refl, omega arith, (refl, omega arith, refl));
  distinct = ((omega arith, tt), (tt, tt));
  counted = refl;
}

no_blocks-Holds : Holds heap no_blocks []
no_blocks-Holds = record { chain = refl; distinct = tt; counted = refl }

used_up-Holds : Holds heap used_up []
used_up-Holds = record { chain = refl; distinct = tt; counted = refl }

abbrev service : Service
service = record {
  small_pool = no_blocks;
  medium_pool = two_blocks;
  large_pool = no_blocks;
  huge_pool = no_blocks;
  config = default_config;
  total_allocated = 0;
  total_freed = 0;
  allocation_count = 0;
  free_count = 0;
}

abbrev world : World
world = record { global = some service; heap = heap }

Holds-all : (name : PoolName) → (xs : List ℕ) × Holds heap (pool name service) xs
Holds-all medium = (100 ∷ 200 ∷ [], two_blocks-Holds)
Holds-all small = ([], no_blocks-Holds)
Holds-all large = ([], no_blocks-Holds)
Holds-all huge = ([], no_blocks-Holds)

abbrev system_world : World
system_world = record world { global = none }

calloc_run :
    memory_pool_calloc 3 5 system_world
    ≡ some (
      1000,
      record_event
          (zeroed 1000 15)
          (record system_world { heap = record heap { answers = 2000 ∷ 0 ∷ [] } }),
    )
unfolding memory_pool_calloc memory_pool_alloc malloc
calloc_run = refl

allocate_from_pool_grows_example :
    (p' : Pool) × (h' : Heap) × (allocate_from_pool true used_up heap ≡ some (2008, p', h'))
    × Holds h' p' (1000 ∷ [])
    × (p'.total_blocks ≡ 4)
    × (h'.answers ≡ 0 ∷ [])
allocate_from_pool_grows_example =
    allocate_from_pool_grows used_up heap 1000 (2000 ∷ []) (0 ∷ []) used_up-Holds refl
      (omega arith, tt, (omega arith, (omega arith, tt), tt)) refl

cleanup_pool_lem_example :
    (p' : Pool) × (cleanup_pool 3 two_blocks heap
      ≡ some (p', record heap { log = freed 200 ∷ freed 100 ∷ [] }))
    × Holds heap p' []
    × (p'.total_blocks ≡ 0)
cleanup_pool_lem_example =
    cleanup_pool_lem 3 two_blocks heap (100 ∷ 200 ∷ []) two_blocks-Holds (omega arith)

-- There is no large block, and the first answer of `malloc` is a failure.
abbrev refusing : Heap
refusing = record heap { answers = 0 ∷ [] }

abbrev refusing_world : World
refusing_world = record world { heap = refusing }

refusing-Holds : (name : PoolName) → (xs : List ℕ) × Holds refusing (pool name service) xs
refusing-Holds medium = (
  100 ∷ 200 ∷ [],
  record { chain = two_blocks-Holds.chain; distinct = two_blocks-Holds.distinct; counted = refl },
)
refusing-Holds small = ([], record { chain = refl; distinct = tt; counted = refl })
refusing-Holds large = ([], record { chain = refl; distinct = tt; counted = refl })
refusing-Holds huge = ([], record { chain = refl; distinct = tt; counted = refl })

memory_pool_alloc-none_iff_example :
    (memory_pool_alloc 1000 refusing_world ≡ none) ↔ (fails_to_grow true no_blocks refusing ≡ true)
unfolding select_memory_pool
memory_pool_alloc-none_iff_example =
    memory_pool_alloc-none_iff 1000 service refusing_world refl (λ e. cc) refusing-Holds

stuck_run : fails_to_grow true no_blocks refusing ≡ true
unfolding expand_pool expand_loop malloc
stuck_run = refl

memory_pool_alloc_hit_example :
    (p : Pool) × (memory_pool_alloc 100 world
      ≡ some (
        108,
        record world {
          global =
              some
                (record service { medium_pool = p; total_allocated = 100; allocation_count = 1 });
        },
      ))
    × Holds heap p (200 ∷ [])
    × (p.total_blocks ≡ 2)
unfolding select_memory_pool count_allocation
memory_pool_alloc_hit_example =
    memory_pool_alloc_hit 100 service world medium 100 (200 ∷ []) refl (omega arith) refl
      two_blocks-Holds

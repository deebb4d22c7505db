-- ===== src/Memory/Service.antt =====
-- The four pools behind `memory_pool_alloc` and its companions.
-- The global pointer and the module's `private_data` are one `Option`; a NULL `self` or `loop` has no
-- counterpart here. The statistics timer and the log lines change nothing else and are left out.
use net_serve.Prelude.{
  ℕ, ◌+◌, ◌*◌, ◌%◌, ◌^◌, Bool, true, ◌&&◌, Option, none, some, ◌∷◌, ◌==◌, leb, if◌then◌else◌,
}
use net_serve.Memory.Pool.{
  Heap, Event, copied, zeroed, Pool, malloc, free, allocate_from_pool, free_to_pool,
}

abbrev pub small_block_size : ℕ
small_block_size = 64

abbrev pub medium_block_size : ℕ
medium_block_size = 256

abbrev pub large_block_size : ℕ
large_block_size = 1024

abbrev pub huge_block_size : ℕ
huge_block_size = 4096

-- `size_t` is 64 bits wide.
abbrev pub size_mod : ℕ
size_mod = 2 ^ 64

pub record Config : Type 0 where
  pub enable_small_pool : Bool
  pub enable_medium_pool : Bool
  pub enable_large_pool : Bool
  pub enable_huge_pool : Bool
  pub small_pool_blocks : ℕ
  pub medium_pool_blocks : ℕ
  pub large_pool_blocks : ℕ
  pub huge_pool_blocks : ℕ
  pub enable_statistics : Bool
  pub enable_auto_resize : Bool

abbrev pub default_config : Config
default_config = record {
  enable_small_pool = true;
  enable_medium_pool = true;
  enable_large_pool = true;
  enable_huge_pool = true;
  small_pool_blocks = 1000;
  medium_pool_blocks = 500;
  large_pool_blocks = 200;
  huge_pool_blocks = 50;
  enable_statistics = true;
  enable_auto_resize = true;
}

-- The module's private data. The counters of calls do not wrap here.
pub record Service : Type 0 where
  pub small_pool : Pool
  pub medium_pool : Pool
  pub large_pool : Pool
  pub huge_pool : Pool
  pub config : Config
  pub total_allocated : ℕ
  pub total_freed : ℕ
  pub allocation_count : ℕ
  pub free_count : ℕ

pub record World : Type 0 where
  pub global : Option Service
  pub heap : Heap

pub data PoolName : Type 0 where
  small medium large huge : PoolName

abbrev pub pool : PoolName → Service → Pool
pool small s = s.small_pool
pool medium s = s.medium_pool
pool large s = s.large_pool
pool huge s = s.huge_pool

abbrev pub set_pool : PoolName → Pool → Service → Service
set_pool small p s = record s { small_pool = p }
set_pool medium p s = record s { medium_pool = p }
set_pool large p s = record s { large_pool = p }
set_pool huge p s = record s { huge_pool = p }

unfoldable pub select_memory_pool : Config → ℕ → Option PoolName
select_memory_pool c size =
    if leb size small_block_size && c.enable_small_pool
    then some small
    else if leb size medium_block_size && c.enable_medium_pool
    then some medium
    else if leb size large_block_size && c.enable_large_pool
    then some large
    else if leb size huge_block_size && c.enable_huge_pool
    then some huge
    else none

unfoldable pub count_allocation : ℕ → Service → Service
count_allocation size s =
    if s.config.enable_statistics
    then record s {
      total_allocated = (s.total_allocated + size) % size_mod;
      allocation_count = s.allocation_count + 1;
    }
    else s

-- The fallback to the system's `malloc`.
unfoldable pub system_alloc : ℕ → Service → Heap → ℕ × World
unfolding malloc count_allocation
system_alloc size s h =
    let (ptr, h') = malloc h in
    (ptr, record { global = some (if ptr == 0 then s else count_allocation size s); heap = h' })

-- The second half of `memory_pool_alloc`, behind the attempt on the pool.
unfoldable pub alloc_in : PoolName → ℕ → Service → Heap → Option (ℕ × World)
alloc_in name size s h = elim (allocate_from_pool s.config.enable_auto_resize (pool name s) h) [
  | none ↦ none
  | some (ptr, p, h') ↦ some (
      if ptr == 0
      then system_alloc size (set_pool name p s) h'
      else (ptr, record { global = some (count_allocation size (set_pool name p s)); heap = h' }))
]

-- `none` is undefined behaviour in `allocate_from_pool`.
unfoldable pub memory_pool_alloc : ℕ → World → Option (ℕ × World)
memory_pool_alloc size w = if size == 0 then some (0, w) else elim w.global [
  | none ↦ (let (ptr, h') = malloc w.heap in some (ptr, record { global = none; heap = h' }))
  | some s ↦ elim (select_memory_pool s.config size) [
    | none ↦ some (system_alloc size s w.heap)
    | some name ↦ alloc_in name size s w.heap
  ]
]

unfoldable pub count_free : ℕ → Service → Service
count_free size s =
    if s.config.enable_statistics
    then record s { total_freed = (s.total_freed + size) % size_mod; free_count = s.free_count + 1 }
    else s

-- The loop over the four pools returns in its first round, since the first pool's address is not
-- NULL: each pointer goes to the small pool.
unfoldable pub memory_pool_free : ℕ → World → World
memory_pool_free ptr w = if ptr == 0 then w else elim w.global [
  | none ↦ record w { heap = free ptr w.heap }
  | some s ↦
      (let (p, h') = free_to_pool ptr s.small_pool w.heap in
        record {
          global = some (count_free s.small_pool.block_size (record s { small_pool = p }));
          heap = h';
        })
]

unfoldable pub record_event : Event → World → World
record_event e w = record w { heap = record (w.heap) { log = e ∷ w.heap.log } }

unfoldable pub memory_pool_realloc : ℕ → ℕ → World → Option (ℕ × World)
unfolding record_event
memory_pool_realloc ptr new_size w =
    if ptr == 0
    then memory_pool_alloc new_size w
    else if new_size == 0
    then some (0, memory_pool_free ptr w)
    else elim (memory_pool_alloc new_size w) [
      | none ↦ none
      | some (new_ptr, w₁) ↦ some (
          if new_ptr == 0
          then (0, w₁)
          else (new_ptr, memory_pool_free ptr (record_event (copied new_ptr ptr new_size) w₁)))
    ]

unfoldable pub memory_pool_calloc : ℕ → ℕ → World → Option (ℕ × World)
unfolding record_event
memory_pool_calloc count size w =
    let total = count * size % size_mod in
    elim (memory_pool_alloc total w) [
      | none ↦ none
      | some (ptr, w') ↦ some (ptr, if ptr == 0 then w' else record_event (zeroed ptr total) w')
    ]

-- ===== src/Memory/Module.antt =====
-- The life cycle of the memory pool module, its configuration and its statistics.
use net_serve.Prelude.{ℕ, Bool, true, false, Option, none, some, ◌==◌, if◌then◌else◌}
use net_serve.Memory.Pool.{Heap, Pool, malloc, free, init_pool, cleanup_pool}
use net_serve.Memory.Service.{
  Config, Service, World, PoolName, small, medium, large, huge, set_pool, default_config,
  small_block_size, medium_block_size, large_block_size, huge_block_size,
}

abbrev pub no_pool : Pool
no_pool = record { block_size = 0; total_blocks = 0; free_blocks = 0; free_list = 0 }

-- The flag is the return of 0.
unfoldable pub module_init : World → Bool × World
unfolding malloc
module_init w =
    let (data_ptr, h) = malloc w.heap in
    if data_ptr == 0 then (false, record w { heap = h }) else (
      true,
      record {
        global = some (record {
          small_pool = no_pool;
          medium_pool = no_pool;
          large_pool = no_pool;
          huge_pool = no_pool;
          config = default_config;
          total_allocated = 0;
          total_freed = 0;
          allocation_count = 0;
          free_count = 0;
        });
        heap = h;
      },
    )

-- One of the four blocks of `memory_pool_module_start`.
unfoldable pub start_pool : PoolName → Bool → Bool → ℕ → ℕ → Service × Heap → Bool × Service × Heap
unfolding init_pool
start_pool name mutex_ok enabled size blocks (s, h) =
    if enabled
    then (let (ok, p, h') = init_pool mutex_ok size blocks h in (ok, set_pool name p s, h'))
    else (true, s, h)

-- `mutex_ok` says what `uv_mutex_init` answers for each pool.
unfoldable pub start_pools : (PoolName → Bool) → Service → Heap → Bool × Service × Heap
unfolding start_pool
start_pools mutex_ok s h =
    let c = s.config in
    let (ok₁, s₁, h₁) =
      start_pool small (mutex_ok small) c.enable_small_pool small_block_size c.small_pool_blocks
        (s, h) in
    let (ok₂, s₂, h₂) =
      start_pool medium (mutex_ok medium) c.enable_medium_pool medium_block_size
        c.medium_pool_blocks (s₁, h₁) in
    let (ok₃, s₃, h₃) =
      start_pool large (mutex_ok large) c.enable_large_pool large_block_size c.large_pool_blocks
        (s₂, h₂) in
    let last =
      start_pool huge (mutex_ok huge) c.enable_huge_pool huge_block_size c.huge_pool_blocks
        (s₃, h₃) in
    if ok₁
    then (if ok₂ then (if ok₃ then last else (false, s₃, h₃)) else (false, s₂, h₂))
    else (false, s₁, h₁)

unfoldable pub module_start : (PoolName → Bool) → World → Bool × World
unfolding start_pools
module_start mutex_ok w = elim w.global [
  | none ↦ (false, w)
  | some s ↦
      (let (ok, s', h) = start_pools mutex_ok s w.heap in
        (ok, record { global = some s'; heap = h }))
]

unfoldable pub module_stop : World → Bool × World
module_stop w = elim w.global [ none ↦ (false, w) | some s ↦ (true, w) ]

unfoldable pub clean : ℕ → Bool → Pool → Heap → Option Heap
unfolding cleanup_pool
clean fuel enabled p h =
    if enabled
    then elim (cleanup_pool fuel p h) [ none ↦ none | some (p', h') ↦ some h' ]
    else some h

infixl 5 ◌>>=◌
abbrev ◌>>=◌ : Option Heap → (Heap → Option (Bool × World)) → Option (Bool × World)
none >>= f = none
some h >>= f = f h

-- `data_ptr` is the address of the private data, `fuel` bounds the length of each free list.
unfoldable pub module_cleanup : ℕ → ℕ → World → Option (Bool × World)
unfolding clean free
module_cleanup fuel data_ptr w = elim w.global [
  | none ↦ some (false, w)
  | some s ↦ do
    h₁ ← clean fuel s.config.enable_small_pool s.small_pool w.heap
    h₂ ← clean fuel s.config.enable_medium_pool s.medium_pool h₁
    h₃ ← clean fuel s.config.enable_large_pool s.large_pool h₂
    h₄ ← clean fuel s.config.enable_huge_pool s.huge_pool h₃
    some (true, record { global = none; heap = free data_ptr h₄ })
]

unfoldable pub module_set_config : Config → World → Bool × World
module_set_config c w = elim w.global [
  | none ↦ (false, w)
  | some s ↦ (true, record w { global = some (record s { config = c }) })
]

unfoldable pub module_get_config : World → Option Config
module_get_config w = elim w.global [ none ↦ none | some s ↦ some s.config ]

unfoldable pub get_total_allocated : World → ℕ
get_total_allocated w = elim w.global [ none ↦ 0 | some s ↦ s.total_allocated ]

unfoldable pub get_total_freed : World → ℕ
get_total_freed w = elim w.global [ none ↦ 0 | some s ↦ s.total_freed ]

unfoldable pub get_allocation_count : World → ℕ
get_allocation_count w = elim w.global [ none ↦ 0 | some s ↦ s.allocation_count ]

unfoldable pub get_free_count : World → ℕ
get_free_count w = elim w.global [ none ↦ 0 | some s ↦ s.free_count ]

unfoldable pub validate_ptr : ℕ → Bool
validate_ptr ptr = if ptr == 0 then false else true

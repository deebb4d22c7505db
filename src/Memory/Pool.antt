-- ===== src/Memory/Pool.antt =====
-- One pool: `init_memory_pool`, `memory_pool_expand_pool`, `allocate_from_pool`, `free_to_pool` and
-- `memory_pool_cleanup_pool`. Addresses are numbers and NULL is 0. A block is its header, the
-- pointer `next`, with the data 8 bytes behind it. `malloc` and `free` are the C library's: what
-- `malloc` will answer is a list in the heap, 0 for a failure, and what is freed is logged.
-- The calls on one pool are those of one thread.
use net_serve.Prelude.{
  ℕ, zero, suc, ◌+◌, ◌-◌, ◌/◌, Bool, true, false, Option, none, some, List, [], ◌∷◌, ◌==◌,
  if◌then◌else◌,
}

-- What the memory functions of the C library were called with.
pub data Event : Type 0 where
  freed : ℕ → Event
  copied : ℕ → ℕ → ℕ → Event
  zeroed : ℕ → ℕ → Event

pub record Heap : Type 0 where
  pub next : ℕ → ℕ
  pub answers : List ℕ
  pub log : List Event

pub record Pool : Type 0 where
  pub block_size : ℕ
  pub total_blocks : ℕ
  pub free_blocks : ℕ
  pub free_list : ℕ

abbrev pub update : (ℕ → ℕ) → ℕ → ℕ → ℕ → ℕ
update f a v x = if x == a then v else f x

abbrev pub take_answer : List ℕ → ℕ × List ℕ
take_answer [] = (0, [])
take_answer (a ∷ as') = (a, as')

unfoldable pub malloc : Heap → ℕ × Heap
malloc h = ((take_answer h.answers).0, record h { answers = (take_answer h.answers).1 })

unfoldable pub free : ℕ → Heap → Heap
free a h = record h { log = freed a ∷ h.log }

-- `sizeof(memory_block_t)`, which is `offsetof(memory_block_t, data)`.
abbrev pub header_size : ℕ
header_size = 8

-- `block->next = pool->free_list; pool->free_list = block; pool->free_blocks++`.
unfoldable pub push_block : ℕ → Pool → Heap → Pool × Heap
push_block block p h = (
  record p { free_list = block; free_blocks = p.free_blocks + 1 },
  record h { next = update h.next block p.free_list },
)

-- The loop of `memory_pool_expand_pool`, with the rounds left. The flag is the return of 0.
unfoldable pub expand_loop : ℕ → Pool → Heap → Bool × Pool × Heap
unfolding malloc push_block
expand_loop zero p h = (true, p, h)
expand_loop (suc n) p h =
    let (block, h₁) = malloc h in
    let (p₂, h₂) = push_block block p h₁ in
    let rest = expand_loop n (record p₂ { total_blocks = p₂.total_blocks + 1 }) h₂ in
    if block == 0 then (false, p, h₁) else rest

-- A number of blocks that is not positive is refused; a negative one is 0 here.
unfoldable pub expand_pool : ℕ → Pool → Heap → Bool × Pool × Heap
unfolding expand_loop
expand_pool additional p h = if additional == 0 then (false, p, h) else expand_loop additional p h

-- `uv_mutex_init` answers `mutex_ok`.
unfoldable pub init_pool : Bool → ℕ → ℕ → Heap → Bool × Pool × Heap
unfolding expand_pool
init_pool mutex_ok size initial h =
    let p : Pool = record { block_size = size; total_blocks = 0; free_blocks = 0; free_list = 0 } in
    if mutex_ok then expand_pool initial p h else (false, p, h)

-- The first block of the free list; `none` is the read through a NULL `free_list`.
unfoldable pub pop_block : Pool → Heap → Option (ℕ × Pool × Heap)
pop_block p h =
    if p.free_list == 0
    then none
    else some (
      p.free_list + header_size,
      record p { free_list = h.next p.free_list; free_blocks = p.free_blocks - 1 },
      h,
    )

-- The pointer is 0 where the code returns NULL. `auto` is the setting `enable_auto_resize`. `none` is
-- undefined behaviour: behind a growth that failed the code unlocks `pool_mutex` a second time.
unfoldable pub allocate_from_pool : Bool → Pool → Heap → Option (ℕ × Pool × Heap)
unfolding expand_pool pop_block
allocate_from_pool auto p h =
    if p.free_blocks == 0
    then (if auto
        then (let (ok, p₁, h₁) = expand_pool (p.total_blocks / 2 + 1) p h in
            if ok then pop_block p₁ h₁ else none)
        else some (0, p, h))
    else pop_block p h

unfoldable pub free_to_pool : ℕ → Pool → Heap → Pool × Heap
unfolding push_block
free_to_pool ptr p h = if ptr == 0 then (p, h) else push_block (ptr - header_size) p h

-- The loop of `memory_pool_cleanup_pool`, on fuel; `none` means that the fuel ran out.
unfoldable pub cleanup_loop : ℕ → ℕ → Heap → Option Heap
unfolding free
cleanup_loop zero block h = none
cleanup_loop (suc fuel) block h =
    let rest = cleanup_loop fuel (h.next block) (free block h) in
    if block == 0 then some h else rest

unfoldable pub cleanup_pool : ℕ → Pool → Heap → Option (Pool × Heap)
unfolding cleanup_loop
cleanup_pool fuel p h = elim (cleanup_loop fuel p.free_list h) [
  | none ↦ none
  | some h' ↦ some (record p { free_list = 0; total_blocks = 0; free_blocks = 0 }, h')
]

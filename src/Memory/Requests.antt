-- ===== src/Memory/Requests.antt =====
-- The choice of a pool, and `memory_pool_alloc` over the four pools.
use net_serve.Prelude.{
  ℕ, zero, suc, ◌+◌, ◌/◌, ◌≡◌, ◌≢◌, ◌<◌, ◌≤◌, refl, List, [], ◌∷◌, arith, Bool, true, false, none,
  some, ◌∙◌, inl, inr, Option-cases, ◌⊎◌, ◌↔◌, ◌&&◌, ◌==◌, not, Option,
}
use net_serve.Memory.Pool.{
  Heap, Pool, header_size, allocate_from_pool, push_block, expand_loop, expand_pool, pop_block,
  malloc,
}
use net_serve.Memory.FreeList.{Holds}
use net_serve.Memory.Growth.{allocate_from_pool_hit, expand_pool_loop}
use net_serve.Memory.Service.{
  Config, Service, World, PoolName, small, medium, large, huge, pool, set_pool, small_block_size,
  medium_block_size, large_block_size, huge_block_size, select_memory_pool, count_allocation,
  alloc_in, memory_pool_alloc,
}

abbrev pub size_of : PoolName → ℕ
size_of small = small_block_size
size_of medium = medium_block_size
size_of large = large_block_size
size_of huge = huge_block_size

abbrev pub is_enabled : Config → PoolName → Bool
is_enabled c small = c.enable_small_pool
is_enabled c medium = c.enable_medium_pool
is_enabled c large = c.enable_large_pool
is_enabled c huge = c.enable_huge_pool

-- The pool that is selected is enabled, its blocks are large enough, and no enabled pool with large
-- enough blocks has smaller ones.
pub select_memory_pool_best :
    (c : Config) (size : ℕ) (name other : PoolName)
    → select_memory_pool c size ≡ some name
    → (is_enabled c name ≡ true)
      × (size ≤ size_of name)
      × (is_enabled c other ≡ true → size ≤ size_of other → size_of name ≤ size_of other)
unfolding select_memory_pool
select_memory_pool_best c size name small e = ground arith
select_memory_pool_best c size name _ e = ground arith

-- If none is selected, the blocks of each enabled pool are too small.
pub select_memory_pool-none :
    (c : Config) (size : ℕ) (name : PoolName)
    → select_memory_pool c size ≡ none
    → is_enabled c name ≡ true
    → size_of name < size
unfolding select_memory_pool
select_memory_pool-none c size small e h = ground arith
select_memory_pool-none c size _ e h = ground arith

expand_loop_nonnull :
    (n : ℕ) (p : Pool) (h : Heap)
    → (p.free_list ≢ 0) ⊎ (n ≢ 0)
    → (expand_loop n p h).0 ≡ true
    → (expand_loop n p h).1.free_list ≢ 0
unfolding expand_loop
expand_loop_nonnull zero p h d e = ground arith
expand_loop_nonnull (suc n) p h d e =
    let (block, h₁) = malloc h in
    let (p₂, h₂) = push_block block p h₁ in
    ground (arith, expand_loop_nonnull n (record p₂ { total_blocks = p₂.total_blocks + 1 }) h₂)

expand_pool_nonnull :
    (n : ℕ) (p : Pool) (h : Heap)
    → (expand_pool (n + 1) p h).0 ≡ true
    → (expand_pool (n + 1) p h).1.free_list ≢ 0
expand_pool_nonnull n p h =
    rw (expand_pool_loop (n + 1) (n + 1) p h (omega arith) refl)
      (expand_loop_nonnull (n + 1) p h (inr (omega arith)))

pop_block-ne-none : (p : Pool) (h : Heap) → p.free_list ≢ 0 → pop_block p h ≢ none
unfolding pop_block
pop_block-ne-none p h nz = ground arith

-- The pool is empty and may grow, and `malloc` refuses a block of the growth.
abbrev pub fails_to_grow : Bool → Pool → Heap → Bool
fails_to_grow auto p h =
    auto && (p.free_blocks == 0 && not (expand_pool (p.total_blocks / 2 + 1) p h).0)

allocate_from_pool-none_empty :
    (auto : Bool) (p : Pool) (h : Heap)
    → p.free_blocks ≡ 0
    → (allocate_from_pool auto p h ≡ none) ↔ (fails_to_grow auto p h ≡ true)
unfolding allocate_from_pool
allocate_from_pool-none_empty false p h z = (λ e. ground arith, λ e. ground arith)
allocate_from_pool-none_empty true p h z =
    let (ok, p₁, h₁) = expand_pool (p.total_blocks / 2 + 1) p h in
    let full = expand_pool_nonnull (p.total_blocks / 2) p h in
    (λ e. ground (arith, full, pop_block-ne-none p₁ h₁), λ e. ground arith)

-- An allocation from a pool that agrees with its free list.
pub allocate_from_pool-none_iff :
    (auto : Bool) (p : Pool) (h : Heap) (xs : List ℕ)
    → Holds h p xs
    → (allocate_from_pool auto p h ≡ none) ↔ (fails_to_grow auto p h ≡ true)
allocate_from_pool-none_iff auto p h (x ∷ xs) v =
    let (p', e, w, t) = allocate_from_pool_hit auto p h x xs v in
    (λ q. cc (e, q), λ q. ground (arith, v.counted))
allocate_from_pool-none_iff auto p h [] v = allocate_from_pool-none_empty auto p h v.counted

alloc_in-none :
    (name : PoolName) (size : ℕ) (s : Service) (h : Heap)
    → alloc_in name size s h ≡ none
    → allocate_from_pool s.config.enable_auto_resize (pool name s) h ≡ none
unfolding alloc_in
alloc_in-none name size s h e =
    elim (Option-cases (allocate_from_pool s.config.enable_auto_resize (pool name s) h)) [
      | inl q ↦ q
      | inr (x, q) ↦ absurd (ground (arith, e, q))
    ]

alloc_in-none_from :
    (name : PoolName) (size : ℕ) (s : Service) (h : Heap)
    → allocate_from_pool s.config.enable_auto_resize (pool name s) h ≡ none
    → alloc_in name size s h ≡ none
unfolding alloc_in
alloc_in-none_from name size s h e = rw (e, alloc_in) refl

alloc_in-none_iff :
    (name : PoolName) (size : ℕ) (s : Service) (h : Heap) (xs : List ℕ)
    → Holds h (pool name s) xs
    → (alloc_in name size s h ≡ none)
      ↔ (fails_to_grow s.config.enable_auto_resize (pool name s) h ≡ true)
alloc_in-none_iff name size s h xs v =
    let (to, from) = allocate_from_pool-none_iff s.config.enable_auto_resize (pool name s) h xs v in
    (λ e. to (alloc_in-none name size s h e), λ e. alloc_in-none_from name size s h (from e))

alloc_in_given :
    (name : PoolName) (size : ℕ) (s : Service) (h : Heap) (ptr : ℕ) (p : Pool) (h' : Heap)
    → allocate_from_pool s.config.enable_auto_resize (pool name s) h ≡ some (ptr, p, h')
    → ptr ≢ 0
    → alloc_in name size s h
      ≡ some (ptr, record { global = some (count_allocation size (set_pool name p s)); heap = h' })
unfolding alloc_in
alloc_in_given name size s h ptr p h' e nz = rw (e, alloc_in) (ground arith)

memory_pool_alloc_selected :
    (size : ℕ) (s : Service) (w : World) (name : PoolName)
    → w.global ≡ some s
    → size ≢ 0
    → select_memory_pool s.config size ≡ some name
    → memory_pool_alloc size w ≡ alloc_in name size s w.heap
unfolding memory_pool_alloc
memory_pool_alloc_selected size s w name e nz sel = ground arith

memory_pool_alloc-ne-none_system :
    (size : ℕ) (s : Service) (w : World)
    → w.global ≡ some s
    → select_memory_pool s.config size ≡ none
    → memory_pool_alloc size w ≢ none
unfolding memory_pool_alloc
memory_pool_alloc-ne-none_system size s w e sel = ground arith

-- What the pool that was selected, if any, comes to.
abbrev pub stuck : Service → Heap → Option PoolName → Bool
stuck s h none = false
stuck s h (some name) = fails_to_grow s.config.enable_auto_resize (pool name s) h

-- If each pool agrees with some free list, `memory_pool_alloc` has undefined behaviour just if it
-- selects a pool that has no free block and may grow, and `malloc` refuses a block of the growth:
-- then the mutex is unlocked twice. In every other case it returns.
pub memory_pool_alloc-none_iff :
    (size : ℕ) (s : Service) (w : World)
    → w.global ≡ some s
    → size ≢ 0
    → ((name : PoolName) → (xs : List ℕ) × Holds w.heap (pool name s) xs)
    → (memory_pool_alloc size w ≡ none) ↔ (stuck s w.heap (select_memory_pool s.config size) ≡ true)
memory_pool_alloc-none_iff size s w e nz v =
    elim (Option-cases (select_memory_pool s.config size)) [
      | inl n ↦ rw n (λ q. absurd (memory_pool_alloc-ne-none_system size s w e n q), λ q. cc)
      | inr (name, n) ↦
          rw (n, memory_pool_alloc_selected size s w name e nz n)
            (alloc_in-none_iff name size s w.heap (v name).0 (v name).1)
    ]

-- `memory_pool_alloc` of a size for which a pool with a free block is selected: the caller gets the
-- data of the first free block, that pool has the other blocks left, no other pool changes, and
-- the statistics grow by the size and by one call, if they are kept.
pub memory_pool_alloc_hit :
    (size : ℕ) (s : Service) (w : World) (name : PoolName) (x : ℕ) (xs : List ℕ)
    → w.global ≡ some s
    → size ≢ 0
    → select_memory_pool s.config size ≡ some name
    → Holds w.heap (pool name s) (x ∷ xs)
    → (p : Pool) × (memory_pool_alloc size w
        ≡ some (
          x + header_size,
          record w { global = some (count_allocation size (set_pool name p s)) },
        ))
      × Holds w.heap p xs
      × (p.total_blocks ≡ (pool name s).total_blocks)
memory_pool_alloc_hit size s w name x xs e nz sel v =
    let (p, out, rest, total) =
      allocate_from_pool_hit s.config.enable_auto_resize (pool name s) w.heap x xs v in
    (
      p,
      memory_pool_alloc_selected size s w name e nz sel
          ∙ alloc_in_given name size s w.heap (x + header_size) p w.heap out (omega arith),
      rest,
      total,
    )

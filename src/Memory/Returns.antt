-- ===== src/Memory/Returns.antt =====
-- `memory_pool_free` and `memory_pool_calloc`, and what freeing does to a block of another pool.
use net_serve.Prelude.{
  ℕ, ◌+◌, ◌*◌, ◌%◌, ◌≡◌, ◌≢◌, ◌<◌, ◌≤◌, refl, List, ◌∷◌, length, arith, some, ◌∙◌, sym, ap, subst,
}
use net_serve.Memory.Pool.{Heap, zeroed, Pool, header_size, push_block, free_to_pool}
use net_serve.Memory.FreeList.{Lacks, Holds, push_block-Holds}
use net_serve.Memory.Requests.{memory_pool_alloc_hit}
use net_serve.Memory.Reuse.{free_to_pool_push}
use net_serve.Memory.Service.{
  Service, World, PoolName, small, pool, set_pool, size_mod, select_memory_pool, count_allocation,
  count_free, record_event, memory_pool_alloc, memory_pool_free, memory_pool_calloc,
}

memory_pool_free_given :
    (s : Service) (w : World) (ptr : ℕ) (p : Pool) (h : Heap)
    → w.global ≡ some s
    → ptr ≢ 0
    → free_to_pool ptr s.small_pool w.heap ≡ (p, h)
    → memory_pool_free ptr w ≡ record {
      global = some (count_free s.small_pool.block_size (record s { small_pool = p }));
      heap = h;
    }
unfolding memory_pool_free
memory_pool_free_given s w ptr p h e nz f = ground arith

-- `memory_pool_free` of a block, of whatever pool, puts it on the free list of the small pool, whose
-- total stays as it was. No other pool changes, and the statistics grow by the small pool's block
-- size, if they are kept.
pub memory_pool_free_small :
    (s : Service) (w : World) (b : ℕ) (ys : List ℕ)
    → w.global ≡ some s
    → b ≢ 0
    → Lacks b ys
    → Holds w.heap s.small_pool ys
    → (p : Pool) × (h : Heap) × (memory_pool_free (b + header_size) w ≡ record {
      global = some (count_free s.small_pool.block_size (record s { small_pool = p }));
      heap = h;
    })
      × Holds h p (b ∷ ys)
      × (p.total_blocks ≡ s.small_pool.total_blocks)
memory_pool_free_small s w b ys e nz l v =
    let (p, h) = push_block b s.small_pool w.heap in
    (
      p,
      h,
      memory_pool_free_given s w (b + header_size) p h e (omega arith)
          (free_to_pool_push b s.small_pool w.heap),
      push_block-Holds b s.small_pool w.heap ys nz l v,
      unfold push_block in refl,
    )

memory_pool_calloc_given :
    (count size : ℕ) (w w' : World) (ptr : ℕ)
    → memory_pool_alloc (count * size % size_mod) w ≡ some (ptr, w')
    → ptr ≢ 0
    → memory_pool_calloc count size w
      ≡ some (ptr, record_event (zeroed ptr (count * size % size_mod)) w')
unfolding memory_pool_calloc
memory_pool_calloc_given count size w w' ptr e nz = rw (e, memory_pool_calloc) (ground arith)

-- A request of `count * size` bytes that `size_t` holds: the memory that is handed out is zeroed
-- over all of them.
pub memory_pool_calloc_zeroes :
    (count size : ℕ) (w w' : World) (ptr : ℕ)
    → count * size < size_mod
    → memory_pool_alloc (count * size) w ≡ some (ptr, w')
    → ptr ≢ 0
    → memory_pool_calloc count size w ≡ some (ptr, record_event (zeroed ptr (count * size)) w')
memory_pool_calloc_zeroes count size w w' ptr lt e nz =
    let fits : count * size % size_mod ≡ count * size = omega arith in
    memory_pool_calloc_given count size w w' ptr (rw fits e) nz
    ∙ ap (λ (n : ℕ). some (ptr, record_event (zeroed ptr n) w')) fits

-- There is no check for a product that wraps: the request is served as one for what is left of the
-- product, which is less than was asked for.
pub memory_pool_calloc_wraps :
    (count size : ℕ) (w w' : World) (ptr : ℕ)
    → size_mod ≤ count * size
    → memory_pool_alloc (count * size % size_mod) w ≡ some (ptr, w')
    → ptr ≢ 0
    → (n : ℕ) × (n < count * size)
      × (memory_pool_calloc count size w ≡ some (ptr, record_event (zeroed ptr n) w'))
memory_pool_calloc_wraps count size w w' ptr le e nz =
    (count * size % size_mod, omega arith, memory_pool_calloc_given count size w w' ptr e nz)

small_pool-alloc :
    (size : ℕ) (name : PoolName) (p : Pool) (s : Service)
    → name ≢ small
    → (count_allocation size (set_pool name p s)).small_pool ≡ s.small_pool
unfolding count_allocation
small_pool-alloc size small p s ns = absurd (ns refl)
small_pool-alloc size _ p s ns = ground arith

small_pool-count_free : (n : ℕ) (s : Service) → (count_free n s).small_pool ≡ s.small_pool
unfolding count_free
small_pool-count_free n s = ground arith

-- The bug of `memory_pool_free`: a block of another pool than the small one is allocated and freed,
-- and now stands in the small pool. If all blocks of that pool were free, it has more free blocks
-- than blocks.
pub memory_pool_free_misfiles :
    (size : ℕ) (s : Service) (w : World) (name : PoolName) (x : ℕ) (xs ys : List ℕ)
    → w.global ≡ some s
    → size ≢ 0
    → select_memory_pool s.config size ≡ some name
    → name ≢ small
    → Holds w.heap (pool name s) (x ∷ xs)
    → Holds w.heap s.small_pool ys
    → Lacks x ys
    → s.small_pool.total_blocks ≡ length ys
    → (w₁ : World) × (s₂ : Service) × (memory_pool_alloc size w ≡ some (x + header_size, w₁))
      × ((memory_pool_free (x + header_size) w₁).global ≡ some s₂)
      × (s₂.small_pool.total_blocks < s₂.small_pool.free_blocks)
memory_pool_free_misfiles size s w name x xs ys e nz sel ns v u l t =
    let (p, out, rest, total) = memory_pool_alloc_hit size s w name x xs e nz sel v in
    let s₁ = count_allocation size (set_pool name p s) in
    let w₁ : World = record w { global = some s₁ } in
    let (q, h, freed, held, same) =
      memory_pool_free_small s₁ w₁ x ys refl v.chain.1 l
        (subst (λ k. Holds w.heap k ys) (sym (small_pool-alloc size name p s ns)) u) in
    let s₂ = count_free s₁.small_pool.block_size (record s₁ { small_pool = q }) in
    (
      w₁,
      s₂,
      out,
      ap (λ (k : World). k.global) freed,
      omega (
        arith,
        held.counted,
        same,
        t,
        ap (λ (k : Pool). k.total_blocks) (small_pool-alloc size name p s ns),
        ap (λ (k : Pool). k.total_blocks)
            (small_pool-count_free (s₁.small_pool.block_size) (record s₁ { small_pool = q })),
        ap (λ (k : Pool). k.free_blocks)
            (small_pool-count_free (s₁.small_pool.block_size) (record s₁ { small_pool = q })),
      ),
    )

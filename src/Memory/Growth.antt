-- ===== src/Memory/Growth.antt =====
-- What the operations of one pool do to its free list.
use net_serve.Prelude.{
  ℕ, suc, ◌+◌, ◌-◌, ◌/◌, ◌≡◌, ◌≢◌, ◌<◌, refl, List, [], ◌∷◌, ◌++◌, length, arith, Bool, true, false,
  some, ◌∙◌, ap, subst,
}
use native.Mathlib.Nat.{zero-add}
use net_serve.Memory.Pool.{
  Heap, Pool, update, pop_block, header_size, expand_loop, expand_pool, allocate_from_pool,
}
use net_serve.Memory.FreeList.{Chain-update, Lacks, Holds, pop_block-Holds}

-- What `malloc` promises: addresses that are not NULL, not in use, and not given twice.
abbrev pub Fresh : List ℕ → List ℕ → Type 0
Fresh used [] = Unit
Fresh used (b ∷ bs) = (b ≢ 0) × Lacks b used × Fresh (b ∷ used) bs

-- The blocks in the order in which the loop pushes them.
abbrev pub pushed : List ℕ → List ℕ → List ℕ
pushed xs [] = xs
pushed xs (b ∷ bs) = pushed (b ∷ xs) bs

pub length-pushed : (xs bs : List ℕ) → length (pushed xs bs) ≡ length xs + length bs
length-pushed xs [] = omega arith
length-pushed xs (b ∷ bs) = omega (arith, length-pushed (b ∷ xs) bs)

-- `p'` is `p` grown by the blocks `bs`.
pub record Grown (p : Pool) (xs bs : List ℕ) (p' : Pool) (h' : Heap) : Type 0 where
  pub holds : Holds h' p' (pushed xs bs)
  pub total : p'.total_blocks ≡ p.total_blocks + length bs
  pub size : p'.block_size ≡ p.block_size

-- The pool and the heap after one more block, `b`, with `rest` left of the answers.
abbrev grown_pool : ℕ → Pool → Pool
grown_pool b p = record p {
  total_blocks = p.total_blocks + 1;
  free_blocks = p.free_blocks + 1;
  free_list = b;
}

abbrev grown_heap : ℕ → List ℕ → Pool → Heap → Heap
grown_heap b rest p h = record h { next = update h.next b p.free_list; answers = rest }

expand_loop_step :
    (n b : ℕ) (rest : List ℕ) (p : Pool) (h : Heap)
    → h.answers ≡ b ∷ rest
    → b ≢ 0
    → expand_loop (suc n) p h ≡ expand_loop n (grown_pool b p) (grown_heap b rest p h)
unfolding expand_loop
expand_loop_step n b rest p h e nz = rw e (ground arith)

expand_loop_stop :
    (n : ℕ) (rest : List ℕ) (p : Pool) (h : Heap)
    → h.answers ≡ 0 ∷ rest
    → expand_loop (suc n) p h ≡ (false, p, record h { answers = rest })
unfolding expand_loop
expand_loop_stop n rest p h e = rw e refl

grown-Holds :
    (b : ℕ) (rest : List ℕ) (p : Pool) (h : Heap) (xs : List ℕ)
    → b ≢ 0
    → Lacks b xs
    → Holds h p xs
    → Holds (grown_heap b rest p h) (grown_pool b p) (b ∷ xs)
grown-Holds b rest p h xs nz l v = record {
  chain = (refl, nz, ground (arith, Chain-update h.next b p.free_list p.free_list xs l v.chain));
  distinct = (l, v.distinct);
  counted = omega (arith, v.counted);
}

-- The rounds in which `malloc` gives the blocks `bs` push them, and the loop goes on with the rest.
pub expand_loop-append :
    (bs rest xs : List ℕ) (n : ℕ) (p : Pool) (h : Heap)
    → h.answers ≡ bs ++ rest
    → Fresh xs bs
    → Holds h p xs
    → (p' : Pool) × (h' : Heap) × (expand_loop (length bs + n) p h ≡ expand_loop n p' h')
      × Grown p xs bs p' h'
      × (h'.answers ≡ rest)
expand_loop-append [] rest xs n p h e f v =
    (p, h, rw (zero-add n) refl, record { holds = v; total = omega arith; size = refl }, e)
expand_loop-append (b ∷ bs) rest xs n p h e f v =
    let (p', h', run, g, left) =
      expand_loop-append bs rest (b ∷ xs) n (grown_pool b p) (grown_heap b (bs ++ rest) p h) refl
        f.2 (grown-Holds b (bs ++ rest) p h xs f.0 f.1 v) in
    (
      p',
      h',
      ap (λ (k : ℕ). expand_loop k p h) (omega arith)
          ∙ expand_loop_step (length bs + n) b (bs ++ rest) p h e f.0
          ∙ run,
      record { holds = g.holds; total = omega (arith, g.total); size = g.size },
      left,
    )

expand_loop_done : (p : Pool) (h : Heap) → expand_loop 0 p h ≡ (true, p, h)
unfolding expand_loop
expand_loop_done p h = refl

pub expand_pool_loop :
    (n m : ℕ) (p : Pool) (h : Heap) → n ≢ 0 → n ≡ m → expand_pool n p h ≡ expand_loop m p h
unfolding expand_pool
expand_pool_loop n m p h nz e = rw (← e) (ground arith)

-- `memory_pool_expand_pool` by a positive number of blocks, which `malloc` gives: it succeeds, the
-- blocks stand on the free list in front of the old ones, the last one first, and both counters grow
-- by their number.
pub expand_pool_all :
    (bs rest xs : List ℕ) (p : Pool) (h : Heap)
    → bs ≢ []
    → h.answers ≡ bs ++ rest
    → Fresh xs bs
    → Holds h p xs
    → (p' : Pool) × (h' : Heap) × (expand_pool (length bs) p h ≡ (true, p', h'))
      × Grown p xs bs p' h'
      × (h'.answers ≡ rest)
expand_pool_all [] rest xs p h ne e f v = absurd (ne refl)
expand_pool_all (b ∷ bs) rest xs p h ne e f v =
    let (p', h', run, g, left) = expand_loop-append (b ∷ bs) rest xs 0 p h e f v in
    (
      p',
      h',
      expand_pool_loop (length (b ∷ bs)) (length (b ∷ bs) + 0) p h (omega arith) (omega arith)
          ∙ run
          ∙ expand_loop_done p' h',
      g,
      left,
    )

-- If `malloc` gives fewer blocks than asked for, it fails, and the pool keeps the blocks it got.
pub expand_pool_some :
    (bs rest xs : List ℕ) (n : ℕ) (p : Pool) (h : Heap)
    → h.answers ≡ bs ++ 0 ∷ rest
    → Fresh xs bs
    → Holds h p xs
    → length bs < n
    → (p' : Pool) × (h' : Heap) × (expand_pool n p h ≡ (false, p', h'))
      × Grown p xs bs p' h'
      × (h'.answers ≡ rest)
expand_pool_some bs rest xs n p h e f v lt =
    let (p', h', run, g, left) =
      expand_loop-append bs (0 ∷ rest) xs (suc (n - length bs - 1)) p h e f v in
    (
      p',
      record h' { answers = rest },
      expand_pool_loop n (length bs + suc (n - length bs - 1)) p h (omega arith) (omega arith)
          ∙ run
          ∙ expand_loop_stop (n - length bs - 1) rest p' h' left,
      record {
        holds = record {
          chain = g.holds.chain;
          distinct = g.holds.distinct;
          counted = g.holds.counted;
        };
        total = g.total;
        size = g.size;
      },
      refl,
    )

-- `allocate_from_pool` on a pool with a free block hands out the first one, and asks `malloc` for
-- nothing.
pub allocate_from_pool_hit :
    (auto : Bool) (p : Pool) (h : Heap) (x : ℕ) (xs : List ℕ)
    → Holds h p (x ∷ xs)
    → (p' : Pool) × (allocate_from_pool auto p h ≡ some (x + header_size, p', h))
      × Holds h p' xs
      × (p'.total_blocks ≡ p.total_blocks)
unfolding allocate_from_pool
allocate_from_pool_hit auto p h x xs v =
    let (p', e, w, t) = pop_block-Holds p h x xs v in (p', ground (arith, v.counted), w, t)

-- On a pool with no free block that may not grow it returns NULL and changes nothing.
pub allocate_from_pool_fixed :
    (p : Pool) (h : Heap) → Holds h p [] → allocate_from_pool false p h ≡ some (0, p, h)
unfolding allocate_from_pool
allocate_from_pool_fixed p h v = ground (arith, v.counted)

allocate_from_pool_empty :
    (p : Pool) (h : Heap) {p₁ : Pool} {h₁ : Heap}
    → p.free_blocks ≡ 0
    → expand_pool (p.total_blocks / 2 + 1) p h ≡ (true, p₁, h₁)
    → allocate_from_pool true p h ≡ pop_block p₁ h₁
unfolding allocate_from_pool
allocate_from_pool_empty p h z e = ground arith

-- The end of `pushed` that is handed out: the last block that came.
abbrev pub last_block : ℕ → List ℕ → ℕ
last_block b [] = b
last_block b (c ∷ bs) = last_block c bs

abbrev pub but_last : List ℕ → ℕ → List ℕ → List ℕ
but_last xs b [] = xs
but_last xs b (c ∷ bs) = but_last (b ∷ xs) c bs

pushed_split :
    (xs : List ℕ) (b : ℕ) (bs : List ℕ) → pushed xs (b ∷ bs) ≡ last_block b bs ∷ but_last xs b bs
pushed_split xs b [] = refl
pushed_split xs b (c ∷ bs) = pushed_split (b ∷ xs) c bs

-- On a pool with no free block that may grow, and where `malloc` gives blocks for half its total
-- and one, it hands out the last of these and keeps the others.
pub allocate_from_pool_grows :
    (p : Pool) (h : Heap) (b : ℕ) (bs rest : List ℕ)
    → Holds h p []
    → h.answers ≡ b ∷ (bs ++ rest)
    → Fresh [] (b ∷ bs)
    → length (b ∷ bs) ≡ p.total_blocks / 2 + 1
    → (p' : Pool) × (h' : Heap) × (allocate_from_pool true p h
        ≡ some (last_block b bs + header_size, p', h'))
      × Holds h' p' (but_last [] b bs)
      × (p'.total_blocks ≡ p.total_blocks + p.total_blocks / 2 + 1)
      × (h'.answers ≡ rest)
allocate_from_pool_grows p h b bs rest v e f n =
    let (p₁, h₁, run, g, left) = expand_pool_all (b ∷ bs) rest [] p h (λ x. cc) e f v in
    let (p₂, out, w, t) =
      pop_block-Holds p₁ h₁ (last_block b bs) (but_last [] b bs)
        (subst (Holds h₁ p₁) (pushed_split [] b bs) g.holds) in
    (
      p₂,
      h₁,
      allocate_from_pool_empty p h v.counted
            (subst (λ (k : ℕ). expand_pool k p h ≡ (true, p₁, h₁)) n run)
          ∙ out,
      w,
      omega (arith, t, g.total),
      left,
    )

-- ===== src/Memory/FreeList.antt =====
-- The free list of a pool as a linked list in the heap, and when the pool agrees with it.
use net_serve.Prelude.{ℕ, ◌+◌, ◌≡◌, ◌≢◌, refl, List, [], ◌∷◌, All, length, arith, some}
use net_serve.Memory.Pool.{Heap, Pool, update, pop_block, push_block, header_size}

-- `next` links `head`, by the addresses of the list, to NULL.
abbrev pub Chain : (ℕ → ℕ) → ℕ → List ℕ → Type 0
Chain next head [] = head ≡ 0
Chain next head (x ∷ xs) = (head ≡ x) × (x ≢ 0) × Chain next (next x) xs

abbrev pub Lacks : ℕ → List ℕ → Type 0
Lacks b = All (λ x. x ≢ b)

abbrev pub Distinct : List ℕ → Type 0
Distinct [] = Unit
Distinct (x ∷ xs) = Lacks x xs × Distinct xs

-- The pool's free list is `xs`, with no block twice, and its counter says how many there are.
pub record Holds (h : Heap) (p : Pool) (xs : List ℕ) : Type 0 where
  pub chain : Chain h.next p.free_list xs
  pub distinct : Distinct xs
  pub counted : p.free_blocks ≡ length xs

-- A write to another block leaves a chain alone.
pub Chain-update :
    (next : ℕ → ℕ) (b v head : ℕ) (xs : List ℕ)
    → Lacks b xs
    → Chain next head xs
    → Chain (update next b v) head xs
Chain-update next b v head [] l c = c
Chain-update next b v head (x ∷ xs) l c =
    (c.0, c.1, ground (arith, Chain-update next b v (next x) xs l.1 c.2))

pub pop_block-Holds :
    (p : Pool) (h : Heap) (x : ℕ) (xs : List ℕ)
    → Holds h p (x ∷ xs)
    → (p' : Pool) × (pop_block p h ≡ some (x + header_size, p', h))
      × Holds h p' xs
      × (p'.total_blocks ≡ p.total_blocks)
unfolding pop_block
pop_block-Holds p h x xs v = (
  record p { free_list = h.next x; free_blocks = length xs },
  ground arith,
  record { chain = v.chain.2; distinct = v.distinct.1; counted = refl },
  refl,
)

pub push_block-Holds :
    (b : ℕ) (p : Pool) (h : Heap) (xs : List ℕ)
    → b ≢ 0
    → Lacks b xs
    → Holds h p xs
    → Holds (push_block b p h).1 (push_block b p h).0 (b ∷ xs)
unfolding push_block
push_block-Holds b p h xs nz l v = record {
  chain = (refl, nz, ground (arith, Chain-update h.next b p.free_list p.free_list xs l v.chain));
  distinct = (l, v.distinct);
  counted = omega (arith, v.counted);
}

-- ===== src/Network/Handles.antt =====
-- Lists of handles in which none stands twice.
use net_serve.Prelude.{
  ℕ, ◌+◌, ◌≡◌, refl, true, false, List, [], ◌∷◌, ◌++◌, ◌==◌, length, if◌then◌else◌, arith,
  Bool-cases, inl, inr,
}
use net_serve.Network.{remove_first, has}

-- No handle stands twice.
abbrev pub Distinct : List ℕ → Type 0
Distinct [] = Unit
Distinct (x ∷ xs) = (has x xs ≡ false) × Distinct xs

pub has-append :
    (c d : ℕ) (xs : List ℕ) → has c (xs ++ d ∷ []) ≡ (if has c xs then true else d == c)
unfolding has
has-append c d [] = ground arith
has-append c d (x ∷ xs) = ground (arith, has-append c d xs)

pub Distinct-append :
    (c : ℕ) (xs : List ℕ) → Distinct xs → has c xs ≡ false → Distinct (xs ++ c ∷ [])
unfolding has
Distinct-append c [] d h = (refl, tt)
Distinct-append c (x ∷ xs) (a, d) h =
    (ground (arith, has-append x c xs, a, h), Distinct-append c xs d (ground (arith, h)))

pub has-remove_first :
    (c d : ℕ) (xs : List ℕ)
    → Distinct xs
    → has c (remove_first d xs) ≡ (if d == c then false else has c xs)
unfolding has remove_first
has-remove_first c d [] h = ground arith
has-remove_first c d (x ∷ xs) (a, h) = ground (arith, a, has-remove_first c d xs h)

pub Distinct-remove_first : (d : ℕ) (xs : List ℕ) → Distinct xs → Distinct (remove_first d xs)
unfolding has remove_first
Distinct-remove_first d [] h = tt
Distinct-remove_first d (x ∷ xs) (a, h) = elim (Bool-cases (x == d)) [
  | inl e ↦ rw e h
  | inr e ↦ rw e (ground (arith, has-remove_first x d xs h, a), Distinct-remove_first d xs h)
]

pub length-remove_first :
    (c : ℕ) (xs : List ℕ) → length xs ≡ length (remove_first c xs) + (if has c xs then 1 else 0)
unfolding has remove_first
length-remove_first c [] = refl
length-remove_first c (x ∷ xs) = ground (arith, length-remove_first c xs)

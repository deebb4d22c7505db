-- ===== src/Json/Merging.antt =====
-- `json_merge` on objects without a common key.
use net_serve.Prelude.{
  ℕ, suc, ◌≤◌, ◌≡◌, ◌⊎◌, inl, inr, refl, Bool, true, Option, none, some, Bytes, arith, str_eq_iff,
  str_eq_refl, leb, Bool-cases,
}
use mathlib.Core.Option
use net_serve.Json.Value.{Value, object, Pairs, no_pairs, pair, clone, count_pairs}
use net_serve.Json.Store.{
  done, object_get, object_set, object_add, find_pair, append_pair, merge, merge_pairs, grown,
}
use net_serve.Json.Objects.{find_pair-append_pair, count_pairs-append_pair}

-- What each allocation answers where memory suffices.
abbrev pub enough : ℕ → Bool × Bool
enough i = (true, true)

module _ {F : Type 0} where
  abbrev pub DistinctKeys : Pairs F → Type 0
  DistinctKeys no_pairs = Unit
  DistinctKeys (pair k v ps) = (find_pair k ps ≡ none) × DistinctKeys ps

  -- No key is in both.
  abbrev pub Apart : Pairs F → Pairs F → Type 0
  Apart ps qs = (n : Bytes) → (find_pair n ps ≡ none) ⊎ (find_pair n qs ≡ none)

  -- The first object's value, or else a clone of the second's.
  abbrev pub either : Option (Value F) → Option (Value F) → Option (Value F)
  either (some v) o = some v
  either none o = Option.map clone o

  object_set-append_pair :
      (k : Bytes) (v : Value F) (c : ℕ) (qs : Pairs F)
      → find_pair k qs ≡ none
      → count_pairs qs ≤ c
      → (d : ℕ) × (object_set true true k v (object c qs)
          ≡ done (object d (append_pair qs k (clone v))))
        × (count_pairs (append_pair qs k (clone v)) ≤ d)
  unfolding object_set object_add
  object_set-append_pair k v c qs h fits = elim (Bool-cases (leb c (count_pairs qs))) [
    | inl e ↦ (grown c, ground arith, ground (arith, count_pairs-append_pair k (clone v) qs))
    | inr e ↦ (c, ground arith, ground (arith, count_pairs-append_pair k (clone v) qs))
  ]

  Apart-append_pair :
      (k : Bytes) (v w : Value F) (ps qs : Pairs F)
      → find_pair k ps ≡ none
      → find_pair k qs ≡ none
      → Apart (pair k v ps) qs
      → Apart ps (append_pair qs k w)
  unfolding find_pair
  Apart-append_pair k v w ps qs h g a n =
      ground (arith, find_pair-append_pair k n w qs g, str_eq_iff k n, a n)

  Apart-head :
      (k : Bytes) (v : Value F) (ps qs : Pairs F) → Apart (pair k v ps) qs → find_pair k qs ≡ none
  unfolding find_pair
  Apart-head k v ps qs a = ground (arith, a k, str_eq_refl k)

  merge_pairs-Apart :
      (i : ℕ) (ps : Pairs F) (c : ℕ) (qs : Pairs F)
      → DistinctKeys ps
      → Apart ps qs
      → count_pairs qs ≤ c
      → (t : Value F) × (merge_pairs enough i ps (object c qs) ≡ done t)
        × ((n : Bytes) → object_get t n ≡ either (find_pair n qs) (find_pair n ps))
  unfolding merge_pairs object_get find_pair
  merge_pairs-Apart i no_pairs c qs d a f = (object c qs, refl, λ n. ground arith)
  merge_pairs-Apart i (pair k v ps) c qs d a f =
      let g = Apart-head k v ps qs a in
      let (c', e, f') = object_set-append_pair k v c qs g f in
      let (t, e', h) =
        merge_pairs-Apart (suc i) ps c' (append_pair qs k (clone v)) d.1
          (Apart-append_pair k v (clone v) ps qs d.0 g a) f' in
      (
        t,
        rw (e, merge_pairs) e',
        λ n. ground (arith, h n, find_pair-append_pair k n (clone v) qs g, str_eq_iff k n, a n),
      )

  -- Where memory suffices, and no key is twice in the source or in both objects, `json_merge`
  -- returns 0. Each key then leads to what it led to in the target, or else to a clone of what it
  -- leads to in the source.
  pub merge-Apart :
      (c d : ℕ) (qs ps : Pairs F)
      → DistinctKeys ps
      → Apart ps qs
      → count_pairs qs ≤ c
      → (t : Value F) × (merge enough (object c qs) (object d ps) ≡ done t)
        × ((n : Bytes)
            → object_get t n ≡ either (object_get (object c qs) n) (object_get (object d ps) n))
  unfolding merge object_get
  merge-Apart c d qs ps h a f = merge_pairs-Apart 0 ps c qs h a f

-- ===== src/Json/Objects.antt =====
-- Objects as maps from keys to values, and arrays as sequences.
use net_serve.Prelude.{
  ℕ, zero, suc, ◌+◌, ◌≤◌, ◌≡◌, inl, inr, refl, true, none, some, ◌==◌, Bytes, arith, str_eq,
  str_eq_iff, if◌then◌else◌, Bool-cases, leb,
}
use net_serve.Json.Value.{
  Value, array, object, Values, no_values, value, Pairs, no_pairs, pair, clone, count_values,
  count_pairs,
}
use net_serve.Json.Store.{
  done, object_get, object_set, object_add, object_size, find_pair, append_pair, array_get,
  array_add, array_size, append_value, nth_value, grown,
}

module _ {F : Type 0} where
  pub find_pair-append_pair :
      (k n : Bytes) (w : Value F) (ps : Pairs F)
      → find_pair k ps ≡ none
      → find_pair n (append_pair ps k w) ≡ (if str_eq k n then some w else find_pair n ps)
  unfolding find_pair append_pair
  find_pair-append_pair k n w no_pairs h = ground arith
  find_pair-append_pair k n w (pair m v ps) h =
      ground (arith, find_pair-append_pair k n w ps, str_eq_iff m n, str_eq_iff k n, str_eq_iff m k)

  pub count_pairs-append_pair :
      (k : Bytes) (w : Value F) (ps : Pairs F)
      → count_pairs (append_pair ps k w) ≡ count_pairs ps + 1
  unfolding count_pairs append_pair
  count_pairs-append_pair k w no_pairs = refl
  count_pairs-append_pair k w (pair m v ps) = omega (arith, count_pairs-append_pair k w ps)

  -- The count is within the capacity.
  abbrev pub Fits : Value F → Type 0
  Fits (array c vs) = count_values vs ≤ c
  Fits (object c ps) = count_pairs ps ≤ c
  Fits _ = Unit

  -- On an object without the key, where memory suffices, `json_object_set` returns 0: the key leads
  -- to a clone of the value, each other key to what it led to before, the count is one more, and it
  -- stays within the capacity.
  pub object_set_fresh :
      (k : Bytes) (v : Value F) (c : ℕ) (ps : Pairs F)
      → object_get (object c ps) k ≡ none
      → Fits (object c ps)
      → (t : Value F) × (object_set true true k v (object c ps) ≡ done t)
        × ((n : Bytes)
            → object_get t n ≡ (if str_eq k n then some (clone v) else object_get (object c ps) n))
        × (object_size t ≡ object_size (object c ps) + 1)
        × Fits t
  unfolding object_set object_get object_add object_size
  object_set_fresh k v c ps h fits = elim (Bool-cases (leb c (count_pairs ps))) [
    | inl e ↦ (
      object (grown c) (append_pair ps k (clone v)),
      ground arith,
      λ n. find_pair-append_pair k n (clone v) ps h,
      count_pairs-append_pair k (clone v) ps,
      ground (arith, count_pairs-append_pair k (clone v) ps),
    )
    | inr e ↦ (
      object c (append_pair ps k (clone v)),
      ground arith,
      λ n. find_pair-append_pair k n (clone v) ps h,
      count_pairs-append_pair k (clone v) ps,
      ground (arith, count_pairs-append_pair k (clone v) ps),
    )
  ]

  nth_value-append_value :
      (i : ℕ) (w : Value F) (vs : Values F)
      → nth_value i (append_value vs w) ≡ (if i == count_values vs then some w else nth_value i vs)
  unfolding nth_value append_value count_values
  nth_value-append_value zero w no_values = refl
  nth_value-append_value (suc i) w no_values = ground arith
  nth_value-append_value zero w (value v vs) = ground arith
  nth_value-append_value (suc i) w (value v vs) = ground (arith, nth_value-append_value i w vs)

  count_values-append_value :
      (w : Value F) (vs : Values F) → count_values (append_value vs w) ≡ count_values vs + 1
  unfolding count_values append_value
  count_values-append_value w no_values = refl
  count_values-append_value w (value v vs) = omega (arith, count_values-append_value w vs)

  -- Where memory suffices, `json_array_add` returns 0: a clone of the value stands behind the last
  -- element, each index below leads to what it led to before, the count is one more, and it stays
  -- within the capacity.
  pub array_add_end :
      (v : Value F) (c : ℕ) (vs : Values F)
      → Fits (array c vs)
      → (t : Value F) × (array_add true true v (array c vs) ≡ done t)
        × ((i : ℕ)
            → array_get t i
              ≡ (if i == array_size (array c vs) then some (clone v) else array_get (array c vs) i))
        × (array_size t ≡ array_size (array c vs) + 1)
        × Fits t
  unfolding array_add array_get array_size
  array_add_end v c vs fits = elim (Bool-cases (leb c (count_values vs))) [
    | inl e ↦ (
      array (grown c) (append_value vs (clone v)),
      ground arith,
      λ i. nth_value-append_value i (clone v) vs,
      count_values-append_value (clone v) vs,
      ground (arith, count_values-append_value (clone v) vs),
    )
    | inr e ↦ (
      array c (append_value vs (clone v)),
      ground arith,
      λ i. nth_value-append_value i (clone v) vs,
      count_values-append_value (clone v) vs,
      ground (arith, count_values-append_value (clone v) vs),
    )
  ]

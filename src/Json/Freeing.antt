-- ===== src/Json/Freeing.antt =====
-- `json_free`, and the operations that call it on a part of a value.
use net_serve.Prelude.{
  ℕ, ◌≡◌, ◌≢◌, ◌↔◌, refl, Bool, true, false, none, some, Bytes, arith, Option-cases, inl, inr, ◌⊎◌,
}
use net_serve.Json.Value.{
  Value, null, bool, number, string, array, object, Values, no_values, value, Pairs, no_pairs, pair,
  free, free_values, free_pairs,
}
use net_serve.Json.Store.{
  fault, failed, array_get, array_set, object_get, object_set, object_add, object_remove, find_pair,
  nth_value,
}

module _ {F : Type 0} where
  -- Not an array with elements, and not an object with pairs.
  abbrev pub IsFlat : Value F → Type 0
  IsFlat (array c vs) = vs ≡ no_values
  IsFlat (object c ps) = ps ≡ no_pairs
  IsFlat _ = Unit

  -- A pointer that no `malloc` gave is never freed well.
  pub free_inner : (v : Value F) → free false v ≡ false
  unfolding free
  free_inner null = refl
  free_inner (bool b) = refl
  free_inner (number x) = refl
  free_inner (string s) = refl
  free_inner (array c vs) = ground arith
  free_inner (object c ps) = ground arith

  free_values_dead : (first : Bool) (vs : Values F) → free_values false first vs ≡ false
  unfolding free_values
  free_values_dead first no_values = refl
  free_values_dead first (value v vs) = refl

  free_values_some : (v : Value F) (vs : Values F) → free_values true true (value v vs) ≡ false
  unfolding free_values
  free_values_some v vs = ground (arith, free_values_dead false vs)

  free_pairs_some : (k : Bytes) (v : Value F) (ps : Pairs F) → free_pairs (pair k v ps) ≡ false
  unfolding free_pairs
  free_pairs_some k v ps = ground (arith, free_inner v)

  -- `json_free` of a value that is a block of its own is well defined just if the value is no
  -- array with elements and no object with pairs.
  pub free-IsFlat : (v : Value F) → (free true v ≡ true) ↔ IsFlat v
  unfolding free
  free-IsFlat null = (λ e. tt, λ h. refl)
  free-IsFlat (bool b) = (λ e. tt, λ h. refl)
  free-IsFlat (number x) = (λ e. tt, λ h. refl)
  free-IsFlat (string s) = (λ e. tt, λ h. refl)
  free-IsFlat (array c no_values) = (λ e. refl, λ h. refl)
  free-IsFlat (array c (value v vs)) = (λ e. ground (arith, free_values_some v vs), λ h. cc)
  free-IsFlat (object c no_pairs) = (λ e. refl, λ h. refl)
  free-IsFlat (object c (pair k v ps)) = (λ e. ground (arith, free_pairs_some k v ps), λ h. cc)

  object_add-ne-fault :
      (r c : Bool) (k : Bytes) (v : Value F) (n : ℕ) (ps : Pairs F)
      → object_add r c k v n ps ≢ fault
  unfolding object_add
  object_add-ne-fault r c k v n ps = ground arith

  pub object_set-fault_iff :
      (r c : Bool) (k : Bytes) (v t : Value F)
      → (object_set r c k v t ≡ fault) ↔ ((old : Value F) × (object_get t k ≡ some old))
  unfolding object_set object_get
  object_set-fault_iff r c k v (object n ps) = elim (Option-cases (find_pair k ps)) [
    | inl e ↦ (λ h. absurd (object_add-ne-fault r c k v n ps (ground arith)), λ h. ground arith)
    | inr (old, e) ↦ (λ h. (old, e), λ h. ground (arith, free_inner old))
  ]
  object_set-fault_iff r c k v null = (λ h. cc, λ h. cc)
  object_set-fault_iff r c k v (bool b) = (λ h. cc, λ h. cc)
  object_set-fault_iff r c k v (number x) = (λ h. cc, λ h. cc)
  object_set-fault_iff r c k v (string s) = (λ h. cc, λ h. cc)
  object_set-fault_iff r c k v (array n vs) = (λ h. cc, λ h. cc)

  -- `json_object_remove` has undefined behaviour if the key is there, and else returns -1 and
  -- changes nothing: it never returns 0.
  pub object_remove_cases :
      (k : Bytes) (t : Value F)
      → ((object_get t k ≡ none) × (object_remove k t ≡ failed t))
        ⊎ ((object_get t k ≢ none) × (object_remove k t ≡ fault))
  unfolding object_remove object_get
  object_remove_cases k (object n ps) = elim (Option-cases (find_pair k ps)) [
    | inl e ↦ inl (e, ground arith)
    | inr (old, e) ↦ inr (ground arith, ground (arith, free_inner old))
  ]
  object_remove_cases k null = inl (refl, refl)
  object_remove_cases k (bool b) = inl (refl, refl)
  object_remove_cases k (number x) = inl (refl, refl)
  object_remove_cases k (string s) = inl (refl, refl)
  object_remove_cases k (array n vs) = inl (refl, refl)

  -- Where memory suffices, `json_array_set` has undefined behaviour if the index is in range, and
  -- else returns -1 and changes nothing.
  pub array_set_cases :
      (i : ℕ) (v t : Value F)
      → ((array_get t i ≡ none) × (array_set true i v t ≡ failed t))
        ⊎ ((array_get t i ≢ none) × (array_set true i v t ≡ fault))
  unfolding array_set array_get
  array_set_cases i v (array n vs) = elim (Option-cases (nth_value i vs)) [
    | inl e ↦ inl (e, ground arith)
    | inr (old, e) ↦ inr (ground arith, ground (arith, free_inner old))
  ]
  array_set_cases i v null = inl (refl, refl)
  array_set_cases i v (bool b) = inl (refl, refl)
  array_set_cases i v (number x) = inl (refl, refl)
  array_set_cases i v (string s) = inl (refl, refl)
  array_set_cases i v (object n ps) = inl (refl, refl)

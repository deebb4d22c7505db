-- ===== src/Json/Shallow.antt =====
-- The shallow values, and what keeps them so.
use net_serve.Prelude.{
  ℕ, ◌≡◌, subst, sym, refl, true, Option, none, some, Bytes, arith, Bool-cases, Option-cases, inl,
  inr, leb,
}
use net_serve.Json.Value.{
  Value, null, bool, number, string, array, object, Values, value, no_values, Pairs, pair, no_pairs,
  clone, count_values, count_pairs,
}
use net_serve.Json.Store.{
  object_get, array_add, object_set, object_add, append_value, append_pair, find_pair,
}
use net_serve.Json.Freeing.{IsFlat, object_set-fault_iff}
use net_serve.Json.Parser.{left, put}

module _ {F : Type 0} where
  abbrev AllFlat : Values F → Type 0
  AllFlat no_values = Unit
  AllFlat (value v vs) = IsFlat v × AllFlat vs

  abbrev AllFlatPairs : Pairs F → Type 0
  AllFlatPairs no_pairs = Unit
  AllFlatPairs (pair k v ps) = IsFlat v × AllFlatPairs ps

  -- No element of it is an array with elements or an object with pairs.
  abbrev pub IsShallow : Value F → Type 0
  IsShallow (array c vs) = AllFlat vs
  IsShallow (object c ps) = AllFlatPairs ps
  IsShallow _ = Unit

  clone-IsFlat : (v : Value F) → IsFlat v → IsFlat (clone v)
  unfolding clone
  clone-IsFlat null h = tt
  clone-IsFlat (bool b) h = tt
  clone-IsFlat (number x) h = tt
  clone-IsFlat (string s) h = tt
  clone-IsFlat (array c no_values) h = refl
  clone-IsFlat (array c (value v vs)) h = cc
  clone-IsFlat (object c no_pairs) h = refl
  clone-IsFlat (object c (pair k v ps)) h = cc

  append_value-AllFlat :
      (vs : Values F) (v : Value F) → AllFlat vs → IsFlat v → AllFlat (append_value vs v)
  unfolding append_value
  append_value-AllFlat no_values v h k = (k, tt)
  append_value-AllFlat (value x vs) v h k = (h.0, append_value-AllFlat vs v h.1 k)

  append_pair-AllFlat :
      (ps : Pairs F) (n : Bytes) (v : Value F)
      → AllFlatPairs ps
      → IsFlat v
      → AllFlatPairs (append_pair ps n v)
  unfolding append_pair
  append_pair-AllFlat no_pairs n v h k = (k, tt)
  append_pair-AllFlat (pair m x ps) n v h k = (h.0, append_pair-AllFlat ps n v h.1 k)

  abbrev pub LeftShallow : Option (Value F) → Type 0
  LeftShallow none = Unit
  LeftShallow (some a) = IsShallow a

  pub array_add-IsShallow :
      (v a : Value F) → IsFlat v → IsShallow a → LeftShallow (left (array_add true true v a))
  unfolding array_add
  array_add-IsShallow v (array c vs) f h = elim (Bool-cases (leb c (count_values vs))) [
    | inl e ↦ rw e (append_value-AllFlat vs (clone v) h (clone-IsFlat v f))
    | inr e ↦ rw e (append_value-AllFlat vs (clone v) h (clone-IsFlat v f))
  ]
  array_add-IsShallow v null f h = tt
  array_add-IsShallow v (bool b) f h = tt
  array_add-IsShallow v (number x) f h = tt
  array_add-IsShallow v (string s) f h = tt
  array_add-IsShallow v (object c ps) f h = h

  object_add-IsShallow :
      (k : Bytes) (v : Value F) (c : ℕ) (ps : Pairs F)
      → IsFlat v
      → AllFlatPairs ps
      → LeftShallow (left (object_add true true k v c ps))
  unfolding object_add
  object_add-IsShallow k v c ps f h = elim (Bool-cases (leb c (count_pairs ps))) [
    | inl e ↦ rw e (append_pair-AllFlat ps k (clone v) h (clone-IsFlat v f))
    | inr e ↦ rw e (append_pair-AllFlat ps k (clone v) h (clone-IsFlat v f))
  ]

  object_set-none :
      (k : Bytes) (v : Value F) (c : ℕ) (ps : Pairs F)
      → find_pair k ps ≡ none
      → object_set true true k v (object c ps) ≡ object_add true true k v c ps
  unfolding object_set
  object_set-none k v c ps h = ground arith

  object_set-IsShallow :
      (k : Bytes) (v o : Value F)
      → IsFlat v
      → IsShallow o
      → LeftShallow (left (object_set true true k v o))
  unfolding object_get object_set
  object_set-IsShallow k v (object c ps) f h = elim (Option-cases (find_pair k ps)) [
    | inl e ↦
        subst (λ r. LeftShallow (left r)) (sym (object_set-none k v c ps e))
          (object_add-IsShallow k v c ps f h)
    | inr (old, e) ↦
        subst (λ r. LeftShallow (left r))
          (sym ((object_set-fault_iff true true k v (object c ps)).1 (old, e))) tt
  ]
  object_set-IsShallow k v null f h = tt
  object_set-IsShallow k v (bool b) f h = tt
  object_set-IsShallow k v (number x) f h = tt
  object_set-IsShallow k v (string s) f h = tt
  object_set-IsShallow k v (array c vs) f h = h

  pub put-IsShallow :
      (k : Option Bytes) (v o : Value F) → IsFlat v → IsShallow o → LeftShallow (left (put k v o))
  put-IsShallow none v o f h = h
  put-IsShallow (some k) v o f h = object_set-IsShallow k v o f h

-- ===== src/Json/Clones.antt =====
-- What `json_clone` keeps: the text of a value, and what its keys and indices lead to.
use net_serve.Prelude.{ℕ, zero, suc, ◌≡◌, refl, Bool, true, false, Bytes, arith}
use mathlib.Core.Option
use net_serve.Json.Value.{
  Value, null, bool, number, string, array, object, Values, no_values, value, Pairs, no_pairs, pair,
  clone, clone_values, clone_pairs, stringify, stringify_values, stringify_pairs,
}
use net_serve.Json.Store.{object_get, find_pair, array_get, nth_value}

module _ {F : Type 0} where
  mutual
    unfolding stringify clone

    stringify-clone_lem :
        (print : F → Bytes) (v : Value F) → stringify print (clone v) ≡ stringify print v
    stringify-clone_lem print null = refl
    stringify-clone_lem print (bool b) = refl
    stringify-clone_lem print (number x) = refl
    stringify-clone_lem print (string s) = refl
    stringify-clone_lem print (array c vs) = rw (stringify_values-clone print true vs) refl
    stringify-clone_lem print (object c ps) = rw (stringify_pairs-clone print true ps) refl

    stringify_values-clone :
        (print : F → Bytes) (first : Bool) (vs : Values F)
        → stringify_values print first (clone_values vs) ≡ stringify_values print first vs
    stringify_values-clone print first no_values = refl
    stringify_values-clone print first (value v vs) =
        rw (stringify-clone_lem print v, stringify_values-clone print false vs) refl

    stringify_pairs-clone :
        (print : F → Bytes) (first : Bool) (ps : Pairs F)
        → stringify_pairs print first (clone_pairs ps) ≡ stringify_pairs print first ps
    stringify_pairs-clone print first no_pairs = refl
    stringify_pairs-clone print first (pair k v ps) =
        rw (stringify-clone_lem print v, stringify_pairs-clone print false ps) refl

  pub find_pair-clone_pairs :
      (k : Bytes) (ps : Pairs F) → find_pair k (clone_pairs ps) ≡ Option.map clone (find_pair k ps)
  unfolding find_pair clone
  find_pair-clone_pairs k no_pairs = refl
  find_pair-clone_pairs k (pair n v ps) = ground (arith, find_pair-clone_pairs k ps)

  nth_value-clone_values :
      (i : ℕ) (vs : Values F) → nth_value i (clone_values vs) ≡ Option.map clone (nth_value i vs)
  unfolding nth_value clone
  nth_value-clone_values i no_values = refl
  nth_value-clone_values zero (value v vs) = refl
  nth_value-clone_values (suc i) (value v vs) = nth_value-clone_values i vs

  -- A clone has the text of its original, and each key and index of it leads to the clone of what
  -- it leads to in the original.
  pub clone-keeps :
      (print : F → Bytes) (v : Value F)
      → (stringify print (clone v) ≡ stringify print v)
        × ((k : Bytes) → object_get (clone v) k ≡ Option.map clone (object_get v k))
        × ((i : ℕ) → array_get (clone v) i ≡ Option.map clone (array_get v i))
  unfolding clone object_get array_get
  clone-keeps print null = (refl, λ k. refl, λ i. refl)
  clone-keeps print (bool b) = (refl, λ k. refl, λ i. refl)
  clone-keeps print (number x) = (refl, λ k. refl, λ i. refl)
  clone-keeps print (string s) = (refl, λ k. refl, λ i. refl)
  clone-keeps print (array c vs) =
      (stringify-clone_lem print (array c vs), λ k. refl, λ i. nth_value-clone_values i vs)
  clone-keeps print (object c ps) =
      (stringify-clone_lem print (object c ps), λ k. find_pair-clone_pairs k ps, λ i. refl)

-- ===== src/Json/Store.antt =====
-- The arrays and objects of JSON. An answer of `realloc` and the first one of `json_clone` are
-- arguments; the allocations inside a clone succeed. `NULL` arguments have no counterpart.
use net_serve.Prelude.{
  ℕ, zero, suc, ◌*◌, Bool, true, false, Option, none, some, ◌==◌, leb, if◌then◌else◌, Bytes, str_eq,
}
use net_serve.Json.Value.{
  Value, array, object, Values, no_values, value, Pairs, no_pairs, pair, count_values, count_pairs,
  clone, free,
}

-- What a call comes to: undefined behaviour, -1 with the new value, -1 with a freed part in the
-- value, or 0 with the new value.
pub data Outcome (A : Type 0) : Type 0 where
  fault : Outcome A
  dangling : Outcome A
  failed : A → Outcome A
  done : A → Outcome A

-- `expand_array_capacity` and `expand_object_capacity`.
abbrev pub grown : ℕ → ℕ
grown c = if c == 0 then 8 else c * 2

module _ {F : Type 0} where
  -- `json_create_array` and `json_create_object`; the second `malloc` succeeds.
  unfoldable pub create_array : Bool → Option (Value F)
  create_array memory_ok = if memory_ok then some (array 0 no_values) else none

  unfoldable pub create_object : Bool → Option (Value F)
  create_object memory_ok = if memory_ok then some (object 0 no_pairs) else none

  unfoldable pub append_value : Values F → Value F → Values F
  append_value no_values v = value v no_values
  append_value (value x xs) v = value x (append_value xs v)

  unfoldable pub nth_value : ℕ → Values F → Option (Value F)
  nth_value i no_values = none
  nth_value zero (value x xs) = some x
  nth_value (suc i) (value x xs) = nth_value i xs

  unfoldable pub set_nth : ℕ → Value F → Values F → Values F
  set_nth i v no_values = no_values
  set_nth zero v (value x xs) = value v xs
  set_nth (suc i) v (value x xs) = value x (set_nth i v xs)

  unfoldable pub array_add : Bool → Bool → Value F → Value F → Outcome (Value F)
  unfolding append_value
  array_add realloc_ok clone_ok v (array c vs) =
      if leb c (count_values vs)
      then (if realloc_ok
          then (if clone_ok
              then done (array (grown c) (append_value vs (clone v)))
              else failed (array (grown c) vs))
          else failed (array c vs))
      else if clone_ok
      then done (array c (append_value vs (clone v)))
      else failed (array c vs)
  array_add realloc_ok clone_ok v x = failed x

  unfoldable pub array_get : Value F → ℕ → Option (Value F)
  unfolding nth_value
  array_get (array c vs) i = nth_value i vs
  array_get _ i = none

  -- Freeing the first element frees the array `values`, which is then written to.
  unfoldable pub array_set : Bool → ℕ → Value F → Value F → Outcome (Value F)
  unfolding set_nth
  array_set clone_ok i v (array c vs) = elim (nth_value i vs) [
    | none ↦ failed (array c vs)
    | some old ↦
        (if free (i == 0) old
          then (if clone_ok
              then (if i == 0 then fault else done (array c (set_nth i (clone v) vs)))
              else dangling)
          else fault)
  ]
  array_set clone_ok i v x = failed x

  unfoldable pub array_size : Value F → ℕ
  array_size (array c vs) = count_values vs
  array_size _ = 0

  -- The value of the first pair with this key.
  unfoldable pub find_pair : Bytes → Pairs F → Option (Value F)
  find_pair k no_pairs = none
  find_pair k (pair n v ps) = if str_eq n k then some v else find_pair k ps

  unfoldable pub update_pair : Bytes → Value F → Pairs F → Pairs F
  update_pair k w no_pairs = no_pairs
  update_pair k w (pair n v ps) = if str_eq n k then pair n w ps else pair n v (update_pair k w ps)

  unfoldable pub append_pair : Pairs F → Bytes → Value F → Pairs F
  append_pair no_pairs k w = pair k w no_pairs
  append_pair (pair n v ps) k w = pair n v (append_pair ps k w)

  unfoldable pub remove_pair : Bytes → Pairs F → Pairs F
  remove_pair k no_pairs = no_pairs
  remove_pair k (pair n v ps) = if str_eq n k then ps else pair n v (remove_pair k ps)

  -- The second half of `json_object_set`, for a key that is not there.
  unfoldable pub object_add : Bool → Bool → Bytes → Value F → ℕ → Pairs F → Outcome (Value F)
  object_add realloc_ok clone_ok k v c ps =
      if leb c (count_pairs ps)
      then (if realloc_ok
          then (if clone_ok
              then done (object (grown c) (append_pair ps k (clone v)))
              else failed (object (grown c) ps))
          else failed (object c ps))
      else if clone_ok
      then done (object c (append_pair ps k (clone v)))
      else failed (object c ps)

  unfoldable pub object_set : Bool → Bool → Bytes → Value F → Value F → Outcome (Value F)
  object_set realloc_ok clone_ok k v (object c ps) = elim (find_pair k ps) [
    | none ↦ object_add realloc_ok clone_ok k v c ps
    | some old ↦
        (if free false old
          then (if clone_ok then done (object c (update_pair k (clone v) ps)) else dangling)
          else fault)
  ]
  object_set realloc_ok clone_ok k v x = failed x

  unfoldable pub object_get : Value F → Bytes → Option (Value F)
  unfolding find_pair
  object_get (object c ps) k = find_pair k ps
  object_get _ k = none

  unfoldable pub object_remove : Bytes → Value F → Outcome (Value F)
  object_remove k (object c ps) = elim (find_pair k ps) [
    | none ↦ failed (object c ps)
    | some old ↦ if free false old then done (object c (remove_pair k ps)) else fault
  ]
  object_remove k x = failed x

  unfoldable pub object_size : Value F → ℕ
  object_size (object c ps) = count_pairs ps
  object_size _ = 0

  -- The loop of `json_merge` from pair `i`, for a target other than the source; the results of `json_object_set` are not looked at.
  unfoldable pub merge_pairs : (ℕ → Bool × Bool) → ℕ → Pairs F → Value F → Outcome (Value F)
  merge_pairs ok i no_pairs t = done t
  merge_pairs ok i (pair k v ps) t = elim (object_set (ok i).0 (ok i).1 k v t) [
    | fault ↦ fault
    | dangling ↦ dangling
    | failed t' ↦ merge_pairs ok (suc i) ps t'
    | done t' ↦ merge_pairs ok (suc i) ps t'
  ]

  -- `target->type == source->type`.
  unfoldable pub same_type : Value F → Value F → Bool
  same_type Value.null Value.null = true
  same_type (Value.bool a) (Value.bool b) = true
  same_type (Value.number a) (Value.number b) = true
  same_type (Value.string a) (Value.string b) = true
  same_type (array c a) (array d b) = true
  same_type (object c a) (object d b) = true
  same_type _ _ = false

  abbrev merge_into : (ℕ → Bool × Bool) → Value F → Value F → Outcome (Value F)
  merge_into ok (object c ps) t = merge_pairs ok 0 ps t
  merge_into ok _ t = done t

  unfoldable pub merge : (ℕ → Bool × Bool) → Value F → Value F → Outcome (Value F)
  unfolding merge_pairs same_type
  merge ok t s = if same_type t s then merge_into ok s t else failed t

-- ===== src/Config/Lookup.antt =====
-- The setters and the loader seen through `find_config_item`: a map whose keys keep their types.
use net_serve.Prelude.{
  ◌≡◌, ◌≢◌, inl, inr, refl, ap, ◌∙◌, Bool, true, false, Option, none, some, List, [], ◌∷◌, ◌++◌,
  arith, Bytes, str_eq, str_eq_iff, if◌then◌else◌, Option-cases,
}
use net_serve.Config.Store.{
  ℤ, Value, int, Item, find_config_item, overwrite, update_item, add_config_item, set_value,
  set_int, get_int, as_int,
}

module _ {F : Type 0} where
  abbrev pub has_key : Bytes → List (Item F) → Bool
  has_key k [] = false
  has_key k (i ∷ is) = if str_eq i.key k then true else has_key k is

  -- No two items have one key.
  abbrev pub Distinct : List (Item F) → Type 0
  Distinct [] = Unit
  Distinct (i ∷ is) = (has_key i.key is ≡ false) × Distinct is

  -- What a setter leaves behind under its key.
  abbrev pub stored : Bool → Option (Value F) → Value F → Option (Value F)
  stored memory_ok (some old) v = some (overwrite old v)
  stored memory_ok none v = if memory_ok then some v else none

  find-update_item :
      (j k : Bytes) (v : Value F) (is : List (Item F))
      → find_config_item k (update_item j v is)
        ≡ (if str_eq j k then stored false (find_config_item k is) v else find_config_item k is)
  unfolding find_config_item update_item
  find-update_item j k v [] = ground arith
  find-update_item j k v (i ∷ is) =
      ground
        (arith, find-update_item j k v is, str_eq_iff i.key j, str_eq_iff i.key k, str_eq_iff j k)

  find-add_config_item :
      (i : Item F) (k : Bytes) (is : List (Item F))
      → find_config_item i.key is ≡ none
      → find_config_item k (add_config_item i is)
        ≡ (if str_eq i.key k then some i.value else find_config_item k is)
  unfolding find_config_item add_config_item
  find-add_config_item i k [] h = refl
  find-add_config_item i k (x ∷ is) h = ground (
    arith,
    find-add_config_item i k is,
    str_eq_iff x.key i.key,
    str_eq_iff x.key k,
    str_eq_iff i.key k,
  )

  pub set_value_old :
      (memory_ok : Bool) (j : Bytes) (v : Value F) (is : List (Item F)) {old : Value F}
      → find_config_item j is ≡ some old
      → set_value memory_ok j v is ≡ (true, update_item j v is)
  unfolding set_value
  set_value_old memory_ok j v is e = rw (e, set_value)

  pub set_value_new :
      (memory_ok : Bool) (j : Bytes) (v : Value F) (is : List (Item F))
      → find_config_item j is ≡ none
      → (set_value memory_ok j v is).1
        ≡ (if memory_ok then add_config_item (record { key = j; value = v }) is else is)
  unfolding set_value
  set_value_new memory_ok j v is e = rw (e, set_value) (ground arith)

  -- After a setter its key holds what `stored` says: the new value, unless an item of another type
  -- was there, which stays, or there was no memory for a new item. No other key changes.
  pub find_config_item-set_value :
      (memory_ok : Bool) (j k : Bytes) (v : Value F) (is : List (Item F))
      → find_config_item k (set_value memory_ok j v is).1
        ≡ (if str_eq j k then stored memory_ok (find_config_item k is) v else find_config_item k is)
  find_config_item-set_value memory_ok j k v is = elim (Option-cases (find_config_item j is)) [
    | inl e ↦ rw (set_value_new memory_ok j v is e) (
        ground
          (arith, find-add_config_item (record { key = j; value = v }) k is, str_eq_iff j k, e))
    | inr (old, e) ↦
        rw (set_value_old memory_ok j v is e)
          (ground (arith, find-update_item j k v is, str_eq_iff j k, e))
  ]

  -- `config_get_int` after `config_set_int` on the same key returns the number, unless the key holds
  -- a value of another type: then it returns the default, though the setter returned 0.
  pub get_int-set_int :
      (k : Bytes) (n d : ℤ) (is : List (Item F))
      → get_int k d (set_int true k n is).1 ≡ as_int (stored true (find_config_item k is) (int n)) d
  unfolding get_int set_int
  get_int-set_int k n d is =
      ap (λ o. as_int o d) {y = stored true (find_config_item k is) (int n)}
        (find_config_item-set_value true k k (int n) is ∙ ground (arith, str_eq_iff k k))

  pub has_key-find :
      (k : Bytes) (is : List (Item F)) → has_key k is ≡ false → find_config_item k is ≡ none
  unfolding find_config_item
  has_key-find k [] h = refl
  has_key-find k (i ∷ is) h = ground (arith, has_key-find k is)

  find-has_key :
      (k : Bytes) (is : List (Item F)) → find_config_item k is ≡ none → has_key k is ≡ false
  unfolding find_config_item
  find-has_key k [] h = refl
  find-has_key k (i ∷ is) h = ground (arith, find-has_key k is)

  has_key-update_item :
      (k j : Bytes) (v : Value F) (is : List (Item F))
      → has_key k (update_item j v is) ≡ has_key k is
  unfolding update_item
  has_key-update_item k j v [] = refl
  has_key-update_item k j v (i ∷ is) = ground (arith, has_key-update_item k j v is)

  Distinct-update_item :
      (j : Bytes) (v : Value F) (is : List (Item F)) → Distinct is → Distinct (update_item j v is)
  unfolding update_item
  Distinct-update_item j v [] d = tt
  Distinct-update_item j v (i ∷ is) d =
      ground (arith, Distinct-update_item j v is d.1, has_key-update_item i.key j v is)

  has_key-add :
      (k : Bytes) (i : Item F) (is : List (Item F))
      → has_key k is ≡ false
      → k ≢ i.key
      → has_key k (is ++ i ∷ []) ≡ false
  has_key-add k i [] h ne = ground (arith, str_eq_iff i.key k)
  has_key-add k i (x ∷ is) h ne = ground (arith, has_key-add k i is)

  Distinct-add :
      (i : Item F) (is : List (Item F))
      → Distinct is
      → has_key i.key is ≡ false
      → Distinct (is ++ i ∷ [])
  Distinct-add i [] d h = (refl, tt)
  Distinct-add i (x ∷ is) d h = (
    ground (arith, has_key-add x.key i is, str_eq_iff x.key i.key),
    Distinct-add i is d.1 (ground arith),
  )

  -- A setter keeps the keys distinct.
  pub set_value-Distinct :
      (memory_ok : Bool) (j : Bytes) (v : Value F) (is : List (Item F))
      → Distinct is
      → Distinct (set_value memory_ok j v is).1
  unfolding add_config_item
  set_value-Distinct memory_ok j v is d = elim (Option-cases (find_config_item j is)) [
    | inl e ↦
        rw (set_value_new memory_ok j v is e)
          (ground (arith, Distinct-add (record { key = j; value = v }) is d (find-has_key j is e)))
    | inr (old, e) ↦ rw (set_value_old memory_ok j v is e) (Distinct-update_item j v is d)
  ]

-- ===== src/Config/Store.antt =====
-- The items, `config_set_*` and `config_get_*`.
use net_serve.Prelude.{
  ℕ, Bool, true, false, Option, none, some, List, [], ◌∷◌, ◌++◌, Bytes, str_eq, if◌then◌else◌,
}

-- C's `int`; `negsuc n` is -(n + 1).
pub data ℤ : Type 0 where
  pos : ℕ → ℤ
  negsuc : ℕ → ℤ

-- The tag `config_type_t` with its member of the union. A `string` may be NULL.
pub data Value (F : Type 0) : Type 0 where
  string : Option Bytes → Value F
  int : ℤ → Value F
  float : F → Value F
  bool : Bool → Value F

pub record Item (F : Type 0) : Type 0 where
  pub key : Bytes
  pub value : Value F

unfoldable pub is_nonzero : ℤ → Bool
is_nonzero (pos ℕ.zero) = false
is_nonzero _ = true

module _ {F : Type 0} where
  -- `find_config_item`: the value of the first item with this key.
  unfoldable pub find_config_item : Bytes → List (Item F) → Option (Value F)
  find_config_item k [] = none
  find_config_item k (i ∷ is) = if str_eq i.key k then some i.value else find_config_item k is

  -- An item of another type keeps its value.
  abbrev pub overwrite : Value F → Value F → Value F
  overwrite (string a) (string b) = string b
  overwrite (int a) (int b) = int b
  overwrite (float a) (float b) = float b
  overwrite (bool a) (bool b) = bool b
  overwrite old new = old

  -- The write through the pointer that `find_config_item` returned.
  unfoldable pub update_item : Bytes → Value F → List (Item F) → List (Item F)
  update_item k v [] = []
  update_item k v (i ∷ is) =
      if str_eq i.key k
      then record i { value = overwrite i.value v } ∷ is
      else i ∷ update_item k v is

  -- `create_config_item`, with the value that the caller stores in it.
  unfoldable pub create_config_item : Bool → Bytes → Value F → Option (Item F)
  create_config_item memory_ok k v =
      if memory_ok then some (record { key = k; value = v }) else none

  -- `add_config_item`: behind the last item.
  unfoldable pub add_config_item : Item F → List (Item F) → List (Item F)
  add_config_item i is = is ++ i ∷ []

  -- The body that the four setters share. The flag is the return of 0.
  unfoldable pub set_value : Bool → Bytes → Value F → List (Item F) → Bool × List (Item F)
  unfolding create_config_item
  set_value memory_ok k v is = elim (find_config_item k is) [
    | some old ↦ (true, update_item k v is)
    | none ↦ elim (create_config_item memory_ok k v) [
      | some i ↦ (true, add_config_item i is)
      | none ↦ (false, is)
    ]
  ]

  unfoldable pub set_string : Bool → Bytes → Bytes → List (Item F) → Bool × List (Item F)
  set_string memory_ok k v = set_value memory_ok k (string (some v))

  unfoldable pub set_int : Bool → Bytes → ℤ → List (Item F) → Bool × List (Item F)
  set_int memory_ok k v = set_value memory_ok k (int v)

  unfoldable pub set_float : Bool → Bytes → F → List (Item F) → Bool × List (Item F)
  set_float memory_ok k v = set_value memory_ok k (float v)

  unfoldable pub set_bool : Bool → Bytes → ℤ → List (Item F) → Bool × List (Item F)
  unfolding is_nonzero
  set_bool memory_ok k v = set_value memory_ok k (bool (is_nonzero v))

  abbrev pub as_string : Option (Value F) → Bytes → Bytes
  as_string (some (string (some s))) d = s
  as_string _ d = d

  abbrev pub as_int : Option (Value F) → ℤ → ℤ
  as_int (some (int n)) d = n
  as_int _ d = d

  abbrev pub as_float : Option (Value F) → F → F
  as_float (some (float x)) d = x
  as_float _ d = d

  -- `bool_value` is an `int`, 1 or 0.
  abbrev pub as_bool : Option (Value F) → ℤ → ℤ
  as_bool (some (bool b)) d = if b then pos 1 else pos 0
  as_bool _ d = d

  unfoldable pub get_string : Bytes → Bytes → List (Item F) → Bytes
  get_string k d is = as_string (find_config_item k is) d

  unfoldable pub get_int : Bytes → ℤ → List (Item F) → ℤ
  get_int k d is = as_int (find_config_item k is) d

  unfoldable pub get_float : Bytes → F → List (Item F) → F
  get_float k d is = as_float (find_config_item k is) d

  unfoldable pub get_bool : Bytes → ℤ → List (Item F) → ℤ
  get_bool k d is = as_bool (find_config_item k is) d

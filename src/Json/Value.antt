-- ===== src/Json/Value.antt =====
-- The values of JSON, with `json_clone`, `json_free` and `json_stringify`, where memory suffices.
-- A number is of a type `F`. `data.array_value` and `data.object_value` are not NULL here; a
-- `string_value` may be.
use net_serve.Prelude.{
  ℕ, suc, Bool, true, false, not, ◌&&◌, Option, none, some, [], ◌∷◌, ◌++◌, Bytes, if◌then◌else◌,
}
use net_serve.Json.Text.{stringify_string}

mutual
  pub data Value (F : Type 0) : Type 0 where
    null : Value F
    bool : Bool → Value F
    number : F → Value F
    string : Option Bytes → Value F
    array : ℕ → Values F → Value F
    object : ℕ → Pairs F → Value F

  -- The elements of an array in front of its `count`. The number in an array is its `capacity`.
  pub data Values (F : Type 0) : Type 0 where
    no_values : Values F
    value : Value F → Values F → Values F

  pub data Pairs (F : Type 0) : Type 0 where
    no_pairs : Pairs F
    pair : Bytes → Value F → Pairs F → Pairs F

module _ {F : Type 0} where
  unfoldable pub count_values : Values F → ℕ
  count_values no_values = 0
  count_values (value v vs) = suc (count_values vs)

  unfoldable pub count_pairs : Pairs F → ℕ
  count_pairs no_pairs = 0
  count_pairs (pair k v ps) = suc (count_pairs ps)

  -- `json_clone` and its two loops. A clone's capacity is its count.
  unfoldable mutual
    pub clone : Value F → Value F
    clone null = null
    clone (bool b) = bool b
    clone (number x) = number x
    clone (string s) = string s
    clone (array c vs) = array (count_values vs) (clone_values vs)
    clone (object c ps) = object (count_pairs ps) (clone_pairs ps)

    pub clone_values : Values F → Values F
    clone_values no_values = no_values
    clone_values (value v vs) = value (clone v) (clone_values vs)

    pub clone_pairs : Pairs F → Pairs F
    clone_pairs no_pairs = no_pairs
    clone_pairs (pair k v ps) = pair k (clone v) (clone_pairs ps)

  -- `json_free` and its two loops; `false` is undefined behaviour. `own` says that the pointer is
  -- the start of a block that `malloc` gave and that is not freed yet. In an array this is so for
  -- the first element, which stands where `values` points: freeing it frees `values`, and what the
  -- loop reads and the function frees after that is gone. A value in a pair stands behind the key.
  unfoldable mutual
    pub free : Bool → Value F → Bool
    free own null = own
    free own (bool b) = own
    free own (number x) = own
    free own (string s) = own
    free own (array c vs) = free_values true true vs && own
    free own (object c ps) = free_pairs ps && own

    -- `live` says that `values` is not freed yet, as it has to be behind the loop.
    pub free_values : Bool → Bool → Values F → Bool
    free_values live first no_values = live
    free_values live first (value v vs) =
        live && free first v && free_values (live && not first) false vs

    pub free_pairs : Pairs F → Bool
    free_pairs no_pairs = true
    free_pairs (pair k v ps) = free false v && free_pairs ps

-- What `snprintf` writes for a number.
module _ {F : Type 0} (print : F → Bytes) where
  abbrev separator : Bool → Bytes
  separator first = if first then [] else b',' ∷ []

  abbrev join : Bytes → Option Bytes → Option Bytes → Option Bytes
  join sep (some a) (some b) = some (sep ++ (a ++ b))
  join sep _ _ = none

  abbrev close : ℕ → ℕ → Option Bytes → Option Bytes
  close l r none = none
  close l r (some s) = some (l ∷ (s ++ r ∷ []))

  abbrev with_key : Bytes → Option Bytes → Option Bytes
  with_key k none = none
  with_key k (some s) = some (stringify_string k ++ (b':' ∷ s))

  -- `json_stringify` and its two loops; `none` is the read of a NULL string.
  unfoldable mutual
    pub stringify : Value F → Option Bytes
    stringify null = some (b'n' ∷ b'u' ∷ b'l' ∷ b'l' ∷ [])
    stringify (bool true) = some (b't' ∷ b'r' ∷ b'u' ∷ b'e' ∷ [])
    stringify (bool false) = some (b'f' ∷ b'a' ∷ b'l' ∷ b's' ∷ b'e' ∷ [])
    stringify (number x) = some (print x)
    stringify (string none) = none
    stringify (string (some s)) = some (stringify_string s)
    stringify (array c vs) = close b'[' b']' (stringify_values true vs)
    stringify (object c ps) = close b'{' b'}' (stringify_pairs true ps)

    pub stringify_values : Bool → Values F → Option Bytes
    stringify_values first no_values = some []
    stringify_values first (value v vs) =
        join (separator first) (stringify v) (stringify_values false vs)

    pub stringify_pairs : Bool → Pairs F → Option Bytes
    stringify_pairs first no_pairs = some []
    stringify_pairs first (pair k v ps) =
        join (separator first) (with_key k (stringify v)) (stringify_pairs false ps)

-- ===== src/Config/Types.antt =====
-- Loading a file: it ends, keeps the keys distinct, and keeps the type of each key.
use net_serve.Prelude.{
  ℕ, zero, suc, ◌≡◌, ◌≢◌, ◌≤◌, ◌+◌, inl, inr, refl, ap, ◌∙◌, Bool, true, none, some, List, [], ◌∷◌,
  arith, Bytes, str_eq, str_eq_iff, Option-cases, length,
}
use net_serve.Config.Store.{
  ℤ, Value, string, int, float, bool, Item, find_config_item, overwrite, set_value, get_int,
  set_int, update_item,
}
use net_serve.Config.Text.{fgets, parse_line, parse_value, text_one}
use net_serve.Config.File.{FloatLib, load_line, load_lines, load_from_file}
use net_serve.Config.Lookup.{
  Distinct, find_config_item-set_value, set_value-Distinct, set_value_old,
}

-- The number of `config_type_t`.
abbrev pub type_of : {F : Type 0} → Value F → ℕ
type_of (string s) = 0
type_of (int n) = 1
type_of (float x) = 2
type_of (bool b) = 3

fgets-length : (n : ℕ) (text : Bytes) → length (fgets n text).1 ≤ length text
unfolding fgets
fgets-length zero text = omega arith
fgets-length (suc n) [] = omega arith
fgets-length (suc n) (c ∷ cs) = ground (arith, fgets-length n cs)

fgets_shortens : (n c : ℕ) (cs : Bytes) → length (fgets (suc n) (c ∷ cs)).1 ≤ length cs
unfolding fgets
fgets_shortens n c cs = ground (arith, fgets-length n cs)

update_item_mismatch :
    {F : Type 0} (k : Bytes) (v : Value F) (is : List (Item F)) {old : Value F}
    → find_config_item k is ≡ some old
    → overwrite old v ≡ old
    → update_item k v is ≡ is
unfolding find_config_item update_item
update_item_mismatch k v [] e o = refl
update_item_mismatch k v (i ∷ is) {old} e o =
    ground (arith, update_item_mismatch k v is {old = old})

overwrite_mismatch :
    {F : Type 0} (old v : Value F) → type_of old ≢ type_of v → overwrite old v ≡ old
overwrite_mismatch (string s) (string t) ne = absurd (ne refl)
overwrite_mismatch (int n) (int m) ne = absurd (ne refl)
overwrite_mismatch (float x) (float y) ne = absurd (ne refl)
overwrite_mismatch (bool b) (bool c) ne = absurd (ne refl)
overwrite_mismatch _ _ ne = refl

-- A setter of one type on a key of another returns 0 and changes nothing.
pub set_value_mismatch :
    {F : Type 0} (memory_ok : Bool) (k : Bytes) (v : Value F) (is : List (Item F)) {old : Value F}
    → find_config_item k is ≡ some old
    → type_of old ≢ type_of v
    → set_value memory_ok k v is ≡ (true, is)
set_value_mismatch memory_ok k v is {old} e ne =
    set_value_old memory_ok k v is e
    ∙ ap (λ r. (true, r)) (update_item_mismatch k v is e (overwrite_mismatch old v ne))

get_int-bool :
    {F : Type 0} (k : Bytes) (d : ℤ) (is : List (Item F)) {b : Bool}
    → find_config_item k is ≡ some (bool b)
    → get_int k d is ≡ d
unfolding get_int
get_int-bool k d is e = rw e

module _ (lib : FloatLib) where
  open lib use {F, atof}

  abbrev Items : Type 0
  Items = List (Item F)

  -- The loader ends, and keeps what each line keeps.
  load_lines_keeps :
      (P : Items → Type 0)
      → ((memory_ok : Bool) (line : Bytes) (is : Items)
          → P is
          → P (load_line lib memory_ok line is))
      → (fuel count : ℕ) (memory_ok : ℕ → Bool) (text : Bytes) (is : Items) → length text ≤ fuel
      → P is
      → (is' : Items) × (load_lines lib fuel count memory_ok text is ≡ some is') × P is'
  unfolding load_lines
  load_lines_keeps P keep zero count memory_ok [] is h v = (is, refl, v)
  load_lines_keeps P keep (suc fuel) count memory_ok [] is h v = (is, refl, v)
  load_lines_keeps P keep zero count memory_ok (c ∷ cs) is h v = absurd (omega arith)
  load_lines_keeps P keep (suc fuel) count memory_ok (c ∷ cs) is h v =
      let (line, rest) = fgets 255 (c ∷ cs) in
      load_lines_keeps P keep fuel (count + 1) memory_ok rest
        (load_line lib (memory_ok count) line is) (omega (arith, fgets_shortens 254 c cs))
        (keep (memory_ok count) line is v)

  load_from_file_keeps :
      (P : Items → Type 0)
      → ((memory_ok : Bool) (line : Bytes) (is : Items)
          → P is
          → P (load_line lib memory_ok line is))
      → (memory_ok : ℕ → Bool) (text : Bytes) (is : Items) → P is
      → (is' : Items) × (load_from_file lib memory_ok (some text) is ≡ some (true, is')) × P is'
  unfolding load_from_file
  load_from_file_keeps P keep memory_ok text is v =
      let (is', e, w) = load_lines_keeps P keep (length text) 1 memory_ok text is (omega arith) v in
      (is', rw (e, load_from_file) refl, w)

  load_line_cases :
      (P : Items → Type 0) (memory_ok : Bool) (line : Bytes) (is : Items)
      → P is
      → ((k : Bytes) (v : Value F) → P (set_value memory_ok k v is).1)
      → P (load_line lib memory_ok line is)
  unfolding load_line
  load_line_cases P memory_ok line is v keep = elim (Option-cases (parse_line line)) [
    | inl e ↦ rw (e, load_line) v
    | inr ((k, value), e) ↦ rw (e, load_line) (keep k (parse_value atof value))
  ]

  pub load_from_file-Distinct :
      (memory_ok : ℕ → Bool) (text : Bytes) (is : Items)
      → Distinct is
      → (is' : Items) × (load_from_file lib memory_ok (some text) is ≡ some (true, is'))
        × Distinct is'
  load_from_file-Distinct = load_from_file_keeps Distinct (λ ok line is d.
      load_line_cases Distinct ok line is d (λ k v. set_value-Distinct ok k v is d))

  -- The key has a value of this type.
  abbrev pub HasType : Bytes → ℕ → Items → Type 0
  HasType k n is = (v : Value F) × (find_config_item k is ≡ some v) × (type_of v ≡ n)

  load_line_one :
      (k line : Bytes) (is : Items)
      → parse_line line ≡ some (k, text_one)
      → load_line lib true line is ≡ (set_value true k (bool true) is).1
  unfolding load_line parse_value str_eq
  load_line_one k line is e = rw (e, load_line) refl

  -- A line that gives a new key the value 1 makes it a bool: `config_get_int` then returns its
  -- default, and `config_set_int` changes nothing, though it returns 0.
  pub one-IsBool :
      (k line : Bytes) (n d : ℤ) (is : Items)
      → parse_line line ≡ some (k, text_one)
      → find_config_item k is ≡ none
      → (get_int k d (load_line lib true line is) ≡ d)
        × (set_int true k n (load_line lib true line is) ≡ (true, load_line lib true line is))
  unfolding set_int
  one-IsBool k line n d is e f =
      let loaded = load_line lib true line is in
      let found : find_config_item k loaded ≡ some (bool true) =
        rw (load_line_one k line is e)
          (find_config_item-set_value true k k (bool true) is ∙ ground (arith, str_eq_iff k k)) in
      (get_int-bool k d loaded found, set_value_mismatch true k (int n) loaded found (λ q. cc))

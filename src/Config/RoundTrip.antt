-- ===== src/Config/RoundTrip.antt =====
-- What is saved is loaded again.
use mathlib.Core.List.{append_assoc, append-nil}
use net_serve.Prelude.{
  ℕ, zero, suc, ◌≡◌, ◌≢◌, ◌≤◌, ◌<◌, ◌+◌, refl, sym, ap, ◌∙◌, subst, Bool, true, false, none, some,
  List, [], ◌∷◌, ◌++◌, arith, Bytes, str_eq, str_eq_iff, ◌-◌, length, length-append, All,
  All-append,
}
use net_serve.Config.Store.{Item, set_value, add_config_item}
use net_serve.Config.Text.{parse_line, parse_value, before, strtok}
use net_serve.Config.File.{
  FloatLib, load_line, load_lines, load_from_file, print_item, print_items, save_to_file, heading,
  warning,
}
use net_serve.Config.Lookup.{Distinct, has_key, set_value_new, has_key-find}
use net_serve.Config.Lines.{IsWord, fgets_line, pair_line, parse_line-pair_line, All-map}

module _ (lib : FloatLib) where
  open lib use {F, atof}

  -- The item is written as one line that `fgets` reads whole, and that stands for its value.
  pub record IsPrintable (i : Item F) : Type 0 where
    pub text : Bytes
    pub line : print_item lib i ≡ pair_line i.key text
    pub key_word : IsWord i.key
    pub text_word : IsWord text
    pub short : length i.key + length text < 254
    pub means : parse_value atof text ≡ i.value

  load_lines_step :
      (fuel count : ℕ) (ok : ℕ → Bool) (s rest : Bytes) (is : List (Item F))
      → All (λ x. x ≢ b'\n') s
      → length s < 255
      → load_lines lib (suc fuel) count ok (s ++ b'\n' ∷ rest) is
        ≡ load_lines lib fuel (count + 1) ok rest (load_line lib (ok count) (s ++ b'\n' ∷ []) is)
  unfolding load_lines
  load_lines_step fuel count ok [] rest is h lt = rw (fgets_line 255 [] rest h lt, load_lines) refl
  load_lines_step fuel count ok (c ∷ cs) rest is h lt =
      rw (fgets_line 255 (c ∷ cs) rest h lt, load_lines) refl

  load_line_skip :
      (ok : Bool) (line : Bytes) (is : List (Item F))
      → parse_line line ≡ none
      → load_line lib ok line is ≡ is
  unfolding load_line
  load_line_skip ok line is e = rw (e, load_line) refl

  load_line_sets :
      (ok : Bool) (line k v : Bytes) (is : List (Item F))
      → parse_line line ≡ some (k, v)
      → load_line lib ok line is ≡ (set_value ok k (parse_value atof v) is).1
  unfolding load_line
  load_line_sets ok line k v is e = rw (e, load_line) refl

  load_line-print_item :
      (i : Item F) (is : List (Item F))
      → IsPrintable i
      → has_key i.key is ≡ false
      → load_line lib true (print_item lib i) is ≡ is ++ i ∷ []
  unfolding add_config_item
  load_line-print_item i is v h =
      load_line_sets true (print_item lib i) i.key v.text is
        (ap parse_line v.line ∙ parse_line-pair_line i.key v.text v.key_word v.text_word)
      ∙ set_value_new true i.key (parse_value atof v.text) is (has_key-find i.key is h)
      ∙ ap (λ w. is ++ record { key = i.key; value = w } ∷ []) v.means

  no_newline : (i : Item F) (v : IsPrintable i) → All (λ x. x ≢ b'\n') (i.key ++ b'=' ∷ v.text)
  no_newline i v =
      All-append (λ x. x ≢ b'\n') i.key (b'=' ∷ v.text)
        (All-map i.key (λ x p. p.1) v.key_word.plain)
        (omega arith, All-map v.text (λ x p. p.1) v.text_word.plain)

  -- One round of the loader, on the line of a printable item with a new key.
  load_lines_round :
      (fuel count : ℕ) (i : Item F) (rest : Bytes) (acc : List (Item F))
      → IsPrintable i
      → has_key i.key acc ≡ false
      → load_lines lib (suc fuel) count (λ _. true) (print_item lib i ++ rest) acc
        ≡ load_lines lib fuel (count + 1) (λ _. true) rest (acc ++ i ∷ [])
  load_lines_round fuel count i rest acc v h =
      let body = i.key ++ b'=' ∷ v.text in
      let whole : body ++ b'\n' ∷ [] ≡ print_item lib i =
        append_assoc i.key (b'=' ∷ v.text) (b'\n' ∷ []) ∙ sym v.line in
      ap (λ t. load_lines lib (suc fuel) count (λ _. true) t acc)
        (ap (λ t. t ++ rest) (sym whole) ∙ append_assoc body (b'\n' ∷ []) rest)
      ∙ load_lines_step fuel count (λ _. true) body rest acc (no_newline i v)
          (omega (arith, length-append i.key (b'=' ∷ v.text), v.short))
      ∙ ap (λ t. load_lines lib fuel (count + 1) (λ _. true) rest (load_line lib true t acc)) whole
      ∙ ap (load_lines lib fuel (count + 1) (λ _. true) rest) (load_line-print_item i acc v h)

  has_key-front :
      (k : Bytes) (acc : List (Item F)) (i : Item F) (is : List (Item F))
      → has_key k (acc ++ i ∷ is) ≡ false
      → str_eq i.key k ≡ false
  has_key-front k [] i is h = ground arith
  has_key-front k (x ∷ acc) i is h = ground (arith, has_key-front k acc i is)

  Distinct-front :
      (acc : List (Item F)) (i : Item F) (is : List (Item F))
      → Distinct (acc ++ i ∷ is)
      → has_key i.key acc ≡ false
  Distinct-front [] i is d = refl
  Distinct-front (x ∷ acc) i is d = ground (
    arith,
    Distinct-front acc i is d.1,
    has_key-front x.key acc i is d.0,
    str_eq_iff x.key i.key,
    str_eq_iff i.key x.key,
  )

  load_lines_end :
      (fuel count : ℕ) (ok : ℕ → Bool) (acc : List (Item F))
      → load_lines lib fuel count ok [] acc ≡ some acc
  unfolding load_lines
  load_lines_end zero count ok acc = refl
  load_lines_end (suc fuel) count ok acc = refl

  load_lines-print_items :
      (fuel count : ℕ) (is acc : List (Item F))
      → length is ≤ fuel
      → All IsPrintable is
      → Distinct (acc ++ is)
      → load_lines lib fuel count (λ _. true) (print_items lib is) acc ≡ some (acc ++ is)
  unfolding print_items
  load_lines-print_items fuel count [] acc h v d =
      load_lines_end fuel count (λ _. true) acc ∙ ap some (sym (append-nil acc))
  load_lines-print_items zero count (i ∷ is) acc h v d = absurd (omega arith)
  load_lines-print_items (suc fuel) count (i ∷ is) acc h v d =
      load_lines_round fuel count i (print_items lib is) acc v.0 (Distinct-front acc i is d)
      ∙ load_lines-print_items fuel (count + 1) is (acc ++ i ∷ []) (omega arith) v.1
          (subst Distinct (sym (append_assoc acc (i ∷ []) is)) d)
      ∙ ap some (append_assoc acc (i ∷ []) is)

  skipped :
      (fuel count : ℕ) (s rest : Bytes)
      → All (λ x. x ≢ b'\n') s
      → length s < 255
      → parse_line (s ++ b'\n' ∷ []) ≡ none
      → load_lines lib (suc fuel) count (λ _. true) (s ++ b'\n' ∷ rest) []
        ≡ load_lines lib fuel (count + 1) (λ _. true) rest []
  skipped fuel count s rest h lt e =
      load_lines_step fuel count (λ _. true) s rest [] h lt
      ∙ ap (load_lines lib fuel (count + 1) (λ _. true) rest)
          (load_line_skip true (s ++ b'\n' ∷ []) [] e)

  length-print_items :
      (is : List (Item F)) → All IsPrintable is → length is ≤ length (print_items lib is)
  unfolding print_items
  length-print_items [] v = omega arith
  length-print_items (i ∷ is) v = omega (
    arith,
    length-print_items is v.1,
    length-append (print_item lib i) (print_items lib is),
    ap length v.0.line,
    length-append i.key (b'=' ∷ (v.0.text ++ b'\n' ∷ [])),
  )

  length-save_to_file :
      (is : List (Item F)) → All IsPrintable is → length is + 3 ≤ length (save_to_file lib is)
  unfolding save_to_file
  length-save_to_file is v =
      let behind = b'\n' ∷ b'\n' ∷ print_items lib is in
      omega (
        arith,
        length-print_items is v,
        length-append heading (b'\n' ∷ (warning ++ behind)),
        length-append warning behind,
      )

  -- The two comments and the empty line in front are skipped.
  load_lines_front :
      (fuel : ℕ) (is : List (Item F))
      → load_lines lib (suc (suc (suc fuel))) 1 (λ _. true) (save_to_file lib is) []
        ≡ load_lines lib fuel (1 + 1 + 1 + 1) (λ _. true) (print_items lib is) []
  unfolding save_to_file parse_line before strtok
  load_lines_front fuel is =
      let behind = b'\n' ∷ b'\n' ∷ print_items lib is in
      skipped (suc (suc fuel)) 1 heading (warning ++ behind) (omega arith) (omega arith) refl
      ∙ skipped (suc fuel) (1 + 1) warning (b'\n' ∷ print_items lib is) (omega arith) (omega arith)
          refl
      ∙ skipped fuel (1 + 1 + 1) [] (print_items lib is) tt (omega arith) refl

  -- Loading the file that was saved into an empty store gives back the items in their order, if
  -- their keys are distinct, each is printable, and memory lasts.
  pub load_from_file-save_to_file :
      (is : List (Item F))
      → All IsPrintable is
      → Distinct is
      → load_from_file lib (λ _. true) (some (save_to_file lib is)) [] ≡ some (true, is)
  unfolding load_from_file
  load_from_file-save_to_file is v d =
      let text = save_to_file lib is in
      let loaded : load_lines lib (length text) 1 (λ _. true) text [] ≡ some is =
        ap (λ (n : ℕ). load_lines lib n 1 (λ _. true) text [])
          (omega (arith, length-save_to_file is v))
        ∙ load_lines_front (length text - 3) is
        ∙ load_lines-print_items (length text - 3) (1 + 1 + 1 + 1) is []
            (omega (arith, length-save_to_file is v)) v d in
      rw (loaded, load_from_file) refl

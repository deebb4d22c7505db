-- ===== src/Config/File.antt =====
-- `config_load_from_file` and `config_save_to_file`. A file that cannot be opened is `none`; else
-- it is its bytes. `memory_ok` says for each line whether `malloc` succeeds there.
use net_serve.Prelude.{
  ℕ, zero, suc, ◌+◌, ◌/◌, ◌%◌, Bool, true, false, Option, none, some, List, [], ◌∷◌, ◌++◌, ◌==◌,
  Bytes, length, if◌then◌else◌,
}
use net_serve.Config.Store.{ℤ, pos, negsuc, string, int, float, bool, Item, set_value}
use net_serve.Config.Text.{fgets, parse_line, parse_value, text_true, text_false}

-- What the C library does with floats.
pub record FloatLib : Type 1 where
  pub F : Type 0
  pub atof : Bytes → F
  pub print : F → Bytes

-- `%d` of a number that is not negative, its digits in front of `rest`; the fuel is above it.
unfoldable pub print_digits : ℕ → ℕ → Bytes → Bytes
print_digits zero n rest = rest
print_digits (suc fuel) n rest =
    let more = print_digits fuel (n / 10) ((b'0' + n % 10) ∷ rest) in
    if n / 10 == 0 then (b'0' + n % 10) ∷ rest else more

unfoldable pub print_int : ℤ → Bytes
unfolding print_digits
print_int (pos n) = print_digits (n + 1) n []
print_int (negsuc n) = b'-' ∷ print_digits (n + 2) (n + 1) []

-- The two comments in front, in UTF-8 and without their newlines.
abbrev pub heading : Bytes
heading =
    35 ∷ 32 ∷ 233 ∷ 133 ∷ 141 ∷ 231 ∷ 189 ∷ 174 ∷ 230 ∷ 150 ∷ 135 ∷ 228 ∷ 187 ∷ 182 ∷ 32 ∷ 45 ∷ 32
    ∷ 232 ∷ 135 ∷ 170 ∷ 229 ∷ 138 ∷ 168 ∷ 231 ∷ 148 ∷ 159 ∷ 230 ∷ 136 ∷ 144 ∷ []

abbrev pub warning : Bytes
warning =
    35 ∷ 32 ∷ 232 ∷ 175 ∷ 183 ∷ 229 ∷ 139 ∷ 191 ∷ 230 ∷ 137 ∷ 139 ∷ 229 ∷ 138 ∷ 168 ∷ 231 ∷ 188
    ∷ 150 ∷ 232 ∷ 190 ∷ 145 ∷ 230 ∷ 173 ∷ 164 ∷ 230 ∷ 150 ∷ 135 ∷ 228 ∷ 187 ∷ 182 ∷ []

module _ (lib : FloatLib) where
  open lib use {F, atof, print}

  -- The line is `config_set_*` on the parsed value; what the setters return is not looked at.
  unfoldable pub load_line : Bool → Bytes → List (Item F) → List (Item F)
  load_line memory_ok line is = elim (parse_line line) [
    | none ↦ is
    | some (k, v) ↦ (set_value memory_ok k (parse_value atof v) is).1
  ]

  -- The loop over the lines, on fuel. `fgets` reads 255 bytes at most.
  unfoldable pub load_lines : ℕ → ℕ → (ℕ → Bool) → Bytes → List (Item F) → Option (List (Item F))
  load_lines fuel count memory_ok [] is = some is
  load_lines zero count memory_ok (c ∷ cs) is = none
  load_lines (suc fuel) count memory_ok (c ∷ cs) is =
      let (line, rest) = fgets 255 (c ∷ cs) in
      load_lines fuel (count + 1) memory_ok rest (load_line (memory_ok count) line is)

  -- The flag is the return of 0. Each round reads a byte, so the length is fuel enough.
  unfoldable pub load_from_file :
      (ℕ → Bool) → Option Bytes → List (Item F) → Option (Bool × List (Item F))
  load_from_file memory_ok none is = some (false, is)
  load_from_file memory_ok (some text) is = elim (load_lines (length text) 1 memory_ok text is) [
    | none ↦ none
    | some is' ↦ some (true, is')
  ]

  abbrev pub print_pair : Bytes → Bytes → Bytes
  print_pair k v = k ++ (b'=' ∷ (v ++ b'\n' ∷ []))

  unfoldable pub print_item : Item F → Bytes
  unfolding print_int
  print_item i = elim (i.value) [
    | string none ↦ []
    | string (some s) ↦ print_pair i.key s
    | int n ↦ print_pair i.key (print_int n)
    | float x ↦ print_pair i.key (print x)
    | bool b ↦ print_pair i.key (if b then text_true else text_false)
  ]

  unfoldable pub print_items : List (Item F) → Bytes
  unfolding print_item
  print_items [] = []
  print_items (i ∷ is) = print_item i ++ print_items is

  -- The text that `config_save_to_file` writes.
  unfoldable pub save_to_file : List (Item F) → Bytes
  save_to_file is = heading ++ (b'\n' ∷ (warning ++ (b'\n' ∷ b'\n' ∷ print_items is)))

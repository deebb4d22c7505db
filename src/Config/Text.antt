-- ===== src/Config/Text.antt =====
-- One line of a configuration file: the middle of `config_load_from_file`, with the functions of the
-- C library that it calls.
use net_serve.Prelude.{
  ℕ, zero, suc, ◌+◌, ◌-◌, ◌*◌, Bool, true, false, ◌&&◌, ◌||◌, Option, none, some, [], ◌∷◌, ◌==◌,
  leb, Bytes, str_eq, if◌then◌else◌,
}
use net_serve.Config.Store.{ℤ, pos, negsuc, Value, string, int, float, bool, is_nonzero}

-- `fgets(line, n + 1, fp)`: up to `n` bytes, a newline the last of them, and what is left.
unfoldable pub fgets : ℕ → Bytes → Bytes × Bytes
fgets zero text = ([], text)
fgets (suc n) [] = ([], [])
fgets (suc n) (c ∷ cs) =
    let rest = fgets n cs in if c == b'\n' then (c ∷ [], cs) else (c ∷ rest.0, rest.1)

-- The bytes in front of the first `c`, or all.
unfoldable pub before : ℕ → Bytes → Bytes
before c [] = []
before c (x ∷ xs) = if x == c then [] else x ∷ before c xs

-- The bytes behind the first `c`, or none.
unfoldable pub after : ℕ → Bytes → Bytes
after c [] = []
after c (x ∷ xs) = if x == c then xs else after c xs

-- `strchr(s, c) != NULL`.
unfoldable pub has_char : ℕ → Bytes → Bool
has_char c [] = false
has_char c (x ∷ xs) = if x == c then true else has_char c xs

unfoldable pub skip_char : ℕ → Bytes → Bytes
skip_char c [] = []
skip_char c (x ∷ xs) = if x == c then skip_char c xs else x ∷ xs

abbrev pub token_of : ℕ → Bytes → Option (Bytes × Bytes)
token_of c [] = none
token_of c (x ∷ xs) = some (before c (x ∷ xs), after c (x ∷ xs))

-- `strtok` with one delimiter: the token, and where it goes on.
unfoldable pub strtok : ℕ → Bytes → Option (Bytes × Bytes)
unfolding skip_char before after
strtok c s = token_of c (skip_char c s)

abbrev pub is_blank : ℕ → Bool
is_blank c = c == b' ' || c == b'\t'

abbrev pub is_trailing : ℕ → Bool
is_trailing c = c == b' ' || c == b'\t' || c == b'\n' || c == b'\r'

unfoldable pub skip_blanks : Bytes → Bytes
skip_blanks [] = []
skip_blanks (c ∷ cs) = if is_blank c then skip_blanks cs else c ∷ cs

abbrev pub cons_stripped : ℕ → Bytes → Bytes
cons_stripped c [] = if is_trailing c then [] else c ∷ []
cons_stripped c (x ∷ xs) = c ∷ x ∷ xs

unfoldable pub strip_end : Bytes → Bytes
strip_end [] = []
strip_end (c ∷ cs) = cons_stripped c (strip_end cs)

-- The loop over `end` stops at the first byte, which therefore stays.
abbrev pub trim_end : Bytes → Bytes
trim_end [] = []
trim_end (c ∷ cs) = c ∷ strip_end cs

unfoldable pub trim : Bytes → Bytes
unfolding skip_blanks strip_end
trim s = trim_end (skip_blanks s)

abbrev pub is_space : ℕ → Bool
is_space c = c == b' ' || (leb 9 c && leb c 13)

abbrev pub is_digit : ℕ → Bool
is_digit c = leb b'0' c && leb c b'9'

unfoldable pub skip_space : Bytes → Bytes
skip_space [] = []
skip_space (c ∷ cs) = if is_space c then skip_space cs else c ∷ cs

-- The value of the digits in front, on top of `acc`.
unfoldable pub digits_value : ℕ → Bytes → ℕ
digits_value acc [] = acc
digits_value acc (c ∷ cs) =
    let more = digits_value (acc * 10 + (c - b'0')) cs in if is_digit c then more else acc

abbrev pub negate : ℕ → ℤ
negate zero = pos 0
negate (suc n) = negsuc n

abbrev pub signed : Bytes → ℤ
signed [] = pos 0
signed (c ∷ cs) =
    if c == b'-'
    then negate (digits_value 0 cs)
    else if c == b'+'
    then pos (digits_value 0 cs)
    else pos (digits_value 0 (c ∷ cs))

-- `atoi`, for numbers that an `int` holds.
unfoldable pub atoi : Bytes → ℤ
unfolding skip_space digits_value
atoi s = signed (skip_space s)

abbrev pub text_true : Bytes
text_true = b't' ∷ b'r' ∷ b'u' ∷ b'e' ∷ []

abbrev pub text_false : Bytes
text_false = b'f' ∷ b'a' ∷ b'l' ∷ b's' ∷ b'e' ∷ []

abbrev pub text_one : Bytes
text_one = b'1' ∷ []

abbrev pub text_zero : Bytes
text_zero = b'0' ∷ []

-- Which setter is called for a value, and with what.
unfoldable pub parse_value : {F : Type 0} → (Bytes → F) → Bytes → Value F
unfolding is_nonzero has_char atoi
parse_value atof v =
    if str_eq v text_true || str_eq v text_one
    then bool true
    else if str_eq v text_false || str_eq v text_zero
    then bool false
    else if has_char b'.' v
    then float (atof v)
    else if is_nonzero (atoi v) || str_eq v text_zero
    then int (atoi v)
    else string (some v)

-- The bytes up to a NUL.
abbrev pub c_string : Bytes → Bytes
c_string = before 0

abbrev pub is_skipped : Bytes → Bool
is_skipped [] = false
is_skipped (c ∷ cs) = c == b'\n' || c == b'\r' || c == b'#'

-- The key and the value of a line that `fgets` read, each trimmed; `none` where the line is skipped.
unfoldable pub parse_line : Bytes → Option (Bytes × Bytes)
parse_line line =
    if is_skipped (c_string line) then none else elim (strtok b'=' (before b'#' (c_string line))) [
      | none ↦ none
      | some (key, more) ↦ elim (strtok b'=' more) [
        | none ↦ none
        | some (value, rest) ↦ some (trim key, trim value)
      ]
    ]

-- ===== src/Json/Strings.antt =====
-- The strings of JSON: what is written is read back, and fits its buffer.
use net_serve.Prelude.{
  ℕ, ◌+◌, ◌*◌, ◌≤◌, ◌≡◌, ◌≢◌, ◌∙◌, refl, true, false, some, [], ◌∷◌, ◌++◌, length, Bytes, arith,
  All, length-append,
}
use mathlib.Core.List.{append_assoc}
use net_serve.Config.Text.{before}
use net_serve.Json.Text.{
  quote, escape_byte, escape, stringify_string, escaped_size, unescape, unescape_byte, closed, scan,
  parsed, parse_string,
}

-- No byte is NUL.
abbrev pub IsText : Bytes → Type 0
IsText = All (λ c. c ≢ 0)

scan-escape_byte :
    (c : ℕ) (cs rest : Bytes) (s : Bytes)
    → scan false cs ≡ closed s rest
    → scan false (escape_byte c ++ cs) ≡ closed (escape_byte c ++ s) rest
unfolding scan escape_byte
scan-escape_byte c cs rest s h = ground arith

scan-escape : (s rest : Bytes) → scan false (escape s ++ quote ∷ rest) ≡ closed (escape s) rest
unfolding escape scan
scan-escape [] rest = refl
scan-escape (c ∷ cs) rest =
    rw (append_assoc (escape_byte c) (escape cs) (quote ∷ rest))
      (scan-escape_byte c (escape cs ++ quote ∷ rest) rest (escape cs) (scan-escape cs rest))

unescape-escape_byte :
    (c : ℕ) (cs : Bytes) → unescape false (escape_byte c ++ cs) ≡ c ∷ unescape false cs
unfolding unescape escape_byte unescape_byte
unescape-escape_byte c cs = ground arith

unescape-escape : (s : Bytes) → unescape false (escape s) ≡ s
unfolding escape unescape
unescape-escape [] = refl
unescape-escape (c ∷ cs) = rw (unescape-escape_byte c (escape cs), unescape-escape cs) refl

before-escape_byte :
    (c : ℕ) (cs : Bytes) → c ≢ 0 → before 0 (escape_byte c ++ cs) ≡ escape_byte c ++ before 0 cs
unfolding before escape_byte
before-escape_byte c cs h = ground arith

before-escape : (s : Bytes) → IsText s → before 0 (escape s) ≡ escape s
unfolding escape before
before-escape [] h = refl
before-escape (c ∷ cs) h = rw (before-escape_byte c (escape cs) h.0, before-escape cs h.1) refl

parse_string-closed :
    (c : ℕ) (cs s rest : Bytes)
    → scan false cs ≡ closed s rest
    → parse_string true true (c ∷ cs) ≡ parsed (some (unescape false (before 0 s))) rest
unfolding parse_string
parse_string-closed c cs s rest h = rw (h, parse_string) refl

-- Where memory suffices, `parse_string` reads back what `json_stringify` wrote for a string
-- without NUL, and stops right behind it, whatever follows.
pub parse_string-stringify_string :
    (s rest : Bytes)
    → IsText s
    → parse_string true true (stringify_string s ++ rest) ≡ parsed (some s) rest
unfolding stringify_string
parse_string-stringify_string s rest h = rw (append_assoc (escape s) (quote ∷ []) rest) (
    parse_string-closed quote (escape s ++ quote ∷ rest) (escape s) rest (scan-escape s rest)
    ∙ rw (before-escape s h, unescape-escape s) refl)

length-escape_byte : (c : ℕ) → length (escape_byte c) ≤ 2
unfolding escape_byte
length-escape_byte c = ground arith

length-escape : (s : Bytes) → length (escape s) ≤ length s * 2
unfolding escape
length-escape [] = omega arith
length-escape (c ∷ cs) =
    omega (arith, length-append (escape_byte c) (escape cs), length-escape_byte c, length-escape cs)

-- The text of a string and its final NUL fit the buffer that `json_stringify` asks for.
pub stringify_string_fits : (s : Bytes) → length (stringify_string s) + 1 ≤ escaped_size s
unfolding stringify_string escaped_size
stringify_string_fits s = omega (arith, length-append (escape s) (quote ∷ []), length-escape s)

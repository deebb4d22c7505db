-- ===== src/Json/Tests.antt =====
-- Runs of the JSON code, and its theorems at concrete inputs.
use net_serve.Prelude.{ℕ, ◌≡◌, refl, true, some, [], ◌∷◌, ◌++◌, Bytes, arith, str_eq, str_eq_iff}
use net_serve.Json.Text.{
  parse_string, stringify_string, parsed, failed, unterminated_string, scan, escape, escape_byte,
}
use net_serve.Json.Strings.{parse_string-stringify_string}
use net_serve.Json.Value.{
  Value, number, array, object, value, no_values, pair, no_pairs, count_pairs,
}
use net_serve.Json.Store.{done, object_get, find_pair, merge}
use net_serve.Json.Merging.{enough, either, merge-Apart}

-- A letter, a newline, a quote and a backslash.
abbrev odd : Bytes
odd = b'a' ∷ b'\n' ∷ 34 ∷ 92 ∷ []

written : stringify_string odd ≡ 34 ∷ b'a' ∷ 92 ∷ b'n' ∷ 92 ∷ 34 ∷ 92 ∷ 92 ∷ 34 ∷ []
unfolding stringify_string escape escape_byte
written = refl

open_end : parse_string true true (34 ∷ b'a' ∷ []) ≡ failed unterminated_string
unfolding parse_string scan
open_end = refl

parse_string-stringify_string_example :
    parse_string true true (stringify_string odd ++ b',' ∷ []) ≡ parsed (some odd) (b',' ∷ [])
parse_string-stringify_string_example =
    parse_string-stringify_string odd (b',' ∷ []) (λ e. cc, (λ e. cc, (λ e. cc, (λ e. cc, tt))))

abbrev nested : Value ℕ
nested = array 8 (value (number 1) no_values)

abbrev port : Bytes
port = b'p' ∷ []

abbrev host : Bytes
host = b'h' ∷ []

abbrev settings : Value ℕ
settings = object 8 (pair port (number 80) no_pairs)

merge-Apart_example :
    (t : Value ℕ) × (merge enough settings (object 1 (pair host nested no_pairs)) ≡ done t)
    × ((n : Bytes)
        → object_get t n
          ≡ either (object_get settings n) (object_get (object 1 (pair host nested no_pairs)) n))
unfolding find_pair str_eq count_pairs
merge-Apart_example =
    merge-Apart 8 1 (pair port (number 80) no_pairs) (pair host nested no_pairs) (refl, tt)
      (λ n. ground (arith, str_eq_iff host n, str_eq_iff port n)) (omega arith)

-- ===== src/Json/ParserTests.antt =====
-- Runs of the parser of JSON, and its theorems at concrete inputs.
use net_serve.Prelude.{ℕ, ◌-◌, ◌≡◌, refl, Option, none, some, [], ◌∷◌, ◌++◌, Bytes}
use net_serve.Json.Value.{Value, number, array, value, no_values, clone, free, count_values}
use net_serve.Json.Store.{array_add, append_value}
use net_serve.Json.Parser.{
  parse, parse_value, parse_items, start_at, start_lead, enter, lead, take_item, parse_number,
  after_item, parsed, fault,
}
use net_serve.Config.Text.{skip_space}

abbrev nested : Value ℕ
nested = array 8 (value (number 1) no_values)

-- A `strtod` that reads one digit.
abbrev one_digit : Bytes → Option (ℕ × Bytes)
one_digit [] = none
one_digit (c ∷ cs) = some (c - b'0', cs)

abbrev flat_text : Bytes
flat_text = b'[' ∷ b'1' ∷ b']' ∷ []

abbrev nested_text : Bytes
nested_text = b'[' ∷ (flat_text ++ b']' ∷ [])

parse_flat : parse one_digit flat_text ≡ parsed nested []
unfolding parse parse_value parse_items start_at start_lead enter lead take_item array_add free
    clone parse_number after_item skip_space append_value count_values
parse_flat = refl

-- An array within an array is undefined behaviour.
parse_nested : parse one_digit nested_text ≡ fault
unfolding parse parse_value parse_items start_at start_lead enter lead take_item array_add free
    clone parse_number after_item skip_space append_value count_values
parse_nested = refl

-- ===== src/Json/Parser.antt =====
-- `json_parse`, `parse_value`, `parse_array`, `parse_object` and the rest of the parser, where memory
-- suffices. The input ends with a NUL at `length`, and stands from `position` on.
use net_serve.Prelude.{
  ℕ, zero, suc, ◌+◌, ◌*◌, Bool, true, false, Option, none, some, [], ◌∷◌, length, Bytes,
  if◌then◌else◌,
}
use net_serve.Config.Text.{skip_space}
use net_serve.Json.Text.{
  Error, unexpected_token, unterminated_string, depth_exceeded, invalid_syntax, parse_string,
  StringResult,
}
use net_serve.Json.Value.{Value, bool, number, string, array, object, no_values, no_pairs, free}
use net_serve.Json.Store.{Outcome, array_add, object_set}
unfoldable pub use net_serve.Json.Input.{lead, behind, after_item, parse_key, enter}
pub use net_serve.Json.Input.{
  Lead, After, after_byte, Key, colon, with_colon, quoted_key, tail, Enter, after_opening, brace,
  bracket, quoted, truth, nothing, numeric, other, ends, goes_on, bad, no_key, key, too_deep, empty,
  opened,
}

-- What a function of the parser comes to: undefined behaviour, -1 with the error, 0 without a write
-- to `*result`, or 0 with the value; and the end of the fuel.
pub data Result (F : Type 0) : Type 0 where
  out_of_fuel : Result F
  fault : Result F
  failed : Error → Result F
  unset : Bytes → Result F
  parsed : Value F → Bytes → Result F

-- How a value begins: all of it is read, or it is an object or an array that is not empty.
pub data Start (F : Type 0) : Type 0 where
  finished : Result F → Start F
  pairs : Bytes → Start F
  items : Bytes → Start F

module _ {F : Type 0} where
  abbrev pub string_result : StringResult → Result F
  string_result (StringResult.failed e) = failed e
  string_result (StringResult.parsed s rest) = parsed (string s) rest

  abbrev pub word : Value F → Option Bytes → Result F → Result F
  word v (some rest) r = parsed v rest
  word v none r = r

  -- The value in the result of a call whose return is not looked at, unless it is undefined.
  abbrev pub left : Outcome (Value F) → Option (Value F)
  left (Outcome.done v) = some v
  left (Outcome.failed v) = some v
  left _ = none

  abbrev pub put : Option Bytes → Value F → Value F → Outcome (Value F)
  put none v o = Outcome.failed o
  put (some k) v o = object_set true true k v o

  unfoldable pub parse_bool : Bytes → Result F
  unfolding behind
  parse_bool s = word (bool true) (behind (b't' ∷ b'r' ∷ b'u' ∷ b'e' ∷ []) s) (
      word (bool false) (behind (b'f' ∷ b'a' ∷ b'l' ∷ b's' ∷ b'e' ∷ []) s)
        (failed unexpected_token))

  abbrev pub unset_or : Option Bytes → Result F
  unset_or (some rest) = unset rest
  unset_or none = failed unexpected_token

  abbrev pub number_or : Option (F × Bytes) → Result F
  number_or (some (x, rest)) = parsed (number x) rest
  number_or none = failed unexpected_token

  -- `parse_null` is not given `result`.
  unfoldable pub parse_null : Bytes → Result F
  unfolding behind
  parse_null s = unset_or (behind (b'n' ∷ b'u' ∷ b'l' ∷ b'l' ∷ []) s)

  abbrev pub in_object : Enter → Start F
  in_object too_deep = finished (failed depth_exceeded)
  in_object (empty rest) = finished (parsed (object 0 no_pairs) rest)
  in_object (opened rest) = pairs rest

  abbrev pub in_array : Enter → Start F
  in_array too_deep = finished (failed depth_exceeded)
  in_array (empty rest) = finished (parsed (array 0 no_values) rest)
  in_array (opened rest) = items rest

  abbrev pub resume : (Bytes → Result F) → (Bytes → Result F) → Start F → Result F
  resume f g (finished r) = r
  resume f g (pairs rest) = f rest
  resume f g (items rest) = g rest

  abbrev pub with_key : (Option Bytes → Bytes → Result F) → Key → Result F
  with_key f (no_key e) = failed e
  with_key f (key k rest) = f k rest

  -- Behind an element: the container with it, whether freeing the element is well defined, and
  -- what stands there.
  abbrev pub go_on : (Value F → Bytes → Result F) → Option (Value F) → Bool → After → Result F
  go_on k none f z = fault
  go_on k (some a) false z = fault
  go_on k (some a) true (ends rest) = parsed a rest
  go_on k (some a) true (goes_on rest) = k a rest
  go_on k (some a) true bad = failed unexpected_token

  -- An element is put into its container, which clones it, and then freed. One that was not set
  -- is read all the same.
  unfoldable pub take_item :
      (Value F → Outcome (Value F)) → ℕ → (Value F → Bytes → Result F) → Result F → Result F
  take_item add close k out_of_fuel = out_of_fuel
  take_item add close k fault = fault
  take_item add close k (failed e) = failed e
  take_item add close k (unset rest) = fault
  take_item add close k (parsed v rest) =
      go_on k (left (add v)) (free true v) (after_item close rest)

  -- What is left behind a value that was read: it is an error, and the value is freed.
  abbrev pub finish_value : Value F → Bytes → Result F
  finish_value v [] = parsed v []
  finish_value v (c ∷ cs) = if free true v then failed invalid_syntax else fault

  abbrev pub finish_unset : Bytes → Result F
  finish_unset [] = unset []
  finish_unset (c ∷ cs) = fault

  abbrev pub finish : Result F → Result F
  finish (parsed v rest) = finish_value v (skip_space rest)
  finish (unset rest) = finish_unset (skip_space rest)
  finish r = r

module _ {F : Type 0} (strtod : Bytes → Option (F × Bytes)) where
  unfoldable pub parse_number : Bytes → Result F
  parse_number s = number_or (strtod s)

  unfoldable pub start_lead : ℕ → Lead → Bytes → Start F
  unfolding enter parse_string
  start_lead depth brace s = in_object (enter depth b'}' (tail s))
  start_lead depth bracket s = in_array (enter depth b']' (tail s))
  start_lead depth quoted s = finished (string_result (parse_string true true s))
  start_lead depth truth s = finished (parse_bool s)
  start_lead depth nothing s = finished (parse_null s)
  start_lead depth numeric s = finished (parse_number s)
  start_lead depth other s = finished (failed unexpected_token)

  -- How a value begins, at a depth: it is all read, or it is an object or an array.
  unfoldable pub start_at : ℕ → Bytes → Start F
  unfolding start_lead
  start_at depth [] = finished (failed unexpected_token)
  start_at depth (c ∷ cs) = start_lead depth (lead c) (c ∷ cs)

  -- `parse_value`, and the loops of `parse_object` and `parse_array` with the value so far. The
  -- depth of a loop is that inside of the value.
  unfoldable mutual
    pub parse_value : ℕ → ℕ → Bytes → Result F
    parse_value zero depth s = out_of_fuel
    parse_value (suc fuel) depth s =
        resume (λ rest. parse_pairs fuel (depth + 1) (object 0 no_pairs) rest)
          (λ rest. parse_items fuel (depth + 1) (array 0 no_values) rest)
          (start_at depth (skip_space s))

    pub parse_items : ℕ → ℕ → Value F → Bytes → Result F
    parse_items zero depth a s = out_of_fuel
    parse_items (suc fuel) depth a [] = failed unterminated_string
    parse_items (suc fuel) depth a (c ∷ cs) =
        take_item (λ v. array_add true true v a) b']' (λ a' rest. parse_items fuel depth a' rest)
          (parse_value fuel depth (c ∷ cs))

    pub parse_pairs : ℕ → ℕ → Value F → Bytes → Result F
    parse_pairs zero depth o s = out_of_fuel
    parse_pairs (suc fuel) depth o s =
        with_key
          (λ k more.
            take_item (λ v. put k v o) b'}' (λ o' rest. parse_pairs fuel depth o' rest)
              (parse_value fuel depth more))
          (parse_key s)

  -- `json_parse`. A value and the loop in it read a byte between them, so the fuel is enough.
  unfoldable pub parse : Bytes → Result F
  parse s = finish (parse_value (length s * 2 + 1) 0 s)

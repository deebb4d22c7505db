-- ===== src/Json/Parsing.antt =====
-- The parser ends, and its values are shallow.
use net_serve.Prelude.{
  ℕ, zero, suc, ◌+◌, ◌*◌, ◌<◌, ◌≡◌, subst, true, Option, some, [], ◌∷◌, length, Bytes, arith,
}
use net_serve.Config.Text.{skip_space}
use net_serve.Json.Text.{parse_string}
use net_serve.Json.Value.{Value, array, object, no_values, no_pairs}
use net_serve.Json.Store.{array_add}
use net_serve.Json.Parser.{
  start_at, start_lead, Lead, brace, bracket, quoted, truth, nothing, numeric, other,
}
use net_serve.Json.Shallow.{IsShallow, array_add-IsShallow, put-IsShallow}
use net_serve.Json.Parser.{
  parsed, parse_key, take_item, parse_number, put, parse_value, parse_items, parse_pairs, parse,
  lead,
}
use net_serve.Json.Lengths.{length-skip_space-le, length-parse_string-lt, length-parse_key-lt}
use net_serve.Json.Progress.{
  Good, take_item-Good, Good-le, StartGood, number_or-Good, with_key-Good, resume-Good,
  in_object-StartGood, in_array-StartGood, string_result-Good, parse_bool-Good, parse_null-Good,
  Fine, finish-Fine,
}

module _ {F : Type 0} (strtod : Bytes → Option (F × Bytes)) where
  -- A number that `strtod` reads is one byte at least.
  abbrev pub Reads : Type 0
  Reads = (s : Bytes) (x : F) (rest : Bytes) → strtod s ≡ some (x, rest) → length rest < length s

  parse_number-Good : Reads → (s : Bytes) → Good (length s) (parse_number strtod s)
  unfolding parse_number
  parse_number-Good h s = number_or-Good (length s) (strtod s) (h s)

  start_lead-StartGood :
      Reads
      → (depth : ℕ) (l : Lead) (c : ℕ) (cs : Bytes)
      → StartGood (suc (length cs)) (start_lead strtod depth l (c ∷ cs))
  unfolding start_lead
  start_lead-StartGood h depth brace c cs =
      in_object-StartGood F depth (suc (length cs)) cs (omega arith)
  start_lead-StartGood h depth bracket c cs =
      in_array-StartGood F depth (suc (length cs)) cs (omega arith)
  start_lead-StartGood h depth quoted c cs =
      string_result-Good F (suc (length cs)) (parse_string true true (c ∷ cs))
        (length-parse_string-lt (c ∷ cs))
  start_lead-StartGood h depth truth c cs = parse_bool-Good F (c ∷ cs)
  start_lead-StartGood h depth nothing c cs = parse_null-Good F (c ∷ cs)
  start_lead-StartGood h depth numeric c cs = parse_number-Good h (c ∷ cs)
  start_lead-StartGood h depth other c cs = tt

  start_at-StartGood :
      Reads → (depth : ℕ) (s : Bytes) → StartGood (length s) (start_at strtod depth s)
  unfolding start_at
  start_at-StartGood h depth [] = tt
  start_at-StartGood h depth (c ∷ cs) = start_lead-StartGood h depth (lead c) c cs

  mutual
    unfolding parse_value

    parse_value-Good :
        Reads
        → (fuel depth : ℕ) (s : Bytes) → length s * 2 < fuel
        → Good (length s) (parse_value strtod fuel depth s)
    parse_value-Good h zero depth s f = omega arith
    parse_value-Good h (suc fuel) depth s f =
        let le = length-skip_space-le s in
        resume-Good (length (skip_space s)) (length s)
          (λ rest. parse_pairs strtod fuel (depth + 1) (object 0 no_pairs) rest)
          (λ rest. parse_items strtod fuel (depth + 1) (array 0 no_values) rest) le
          (λ r lt.
            parse_pairs-Good h fuel (depth + 1) (object 0 no_pairs) r (omega (arith, lt, le)) tt)
          (λ r lt.
            parse_items-Good h fuel (depth + 1) (array 0 no_values) r (omega (arith, lt, le)) tt)
          (start_at strtod depth (skip_space s)) (start_at-StartGood h depth (skip_space s))

    parse_items-Good :
        Reads
        → (fuel depth : ℕ) (a : Value F) (s : Bytes) → length s * 2 + 1 < fuel
        → IsShallow a
        → Good (length s) (parse_items strtod fuel depth a s)
    parse_items-Good h zero depth a s f k = omega arith
    parse_items-Good h (suc fuel) depth a [] f k = tt
    parse_items-Good h (suc fuel) depth a (c ∷ cs) f k =
        take_item-Good (λ v. array_add true true v a) b']' (suc (length cs))
          (λ a' rest. parse_items strtod fuel depth a' rest) (λ v e. array_add-IsShallow v a e k)
          (λ a' rest lt e.
            Good-le (length rest) (suc (length cs)) (omega (arith, lt))
              (parse_items strtod fuel depth a' rest)
              (parse_items-Good h fuel depth a' rest (omega (arith, lt, f)) e))
          (parse_value strtod fuel depth (c ∷ cs))
          (parse_value-Good h fuel depth (c ∷ cs) (omega (arith, f)))

    parse_pairs-Good :
        Reads
        → (fuel depth : ℕ) (o : Value F) (s : Bytes) → length s * 2 + 1 < fuel
        → IsShallow o
        → Good (length s) (parse_pairs strtod fuel depth o s)
    parse_pairs-Good h zero depth o s f k = omega arith
    parse_pairs-Good h (suc fuel) depth o s f k =
        with_key-Good (length s)
          (λ n more.
            take_item (λ v. put n v o) b'}' (λ o' rest. parse_pairs strtod fuel depth o' rest)
              (parse_value strtod fuel depth more))
          (λ n more lt.
            Good-le (length more) (length s) (omega (arith, lt))
              (take_item (λ v. put n v o) b'}' (λ o' rest. parse_pairs strtod fuel depth o' rest)
                (parse_value strtod fuel depth more))
              (take_item-Good (λ v. put n v o) b'}' (length more)
                (λ o' rest. parse_pairs strtod fuel depth o' rest) (λ v e. put-IsShallow n v o e k)
                (λ o' rest lt' e.
                  Good-le (length rest) (length more) (omega (arith, lt'))
                    (parse_pairs strtod fuel depth o' rest)
                    (parse_pairs-Good h fuel depth o' rest (omega (arith, lt, lt', f)) e))
                (parse_value strtod fuel depth more)
                (parse_value-Good h fuel depth more (omega (arith, lt, f)))))
          (parse_key s) (length-parse_key-lt s)

  parse-Fine : Reads → (s : Bytes) → Fine (parse strtod s)
  unfolding parse
  parse-Fine h s =
      finish-Fine (length s) (parse_value strtod (length s * 2 + 1) 0 s)
        (parse_value-Good h (length s * 2 + 1) 0 s (omega arith))

  -- If `strtod` reads a byte at least for each number, a value that `json_parse` returns has no
  -- array with elements and no object with pairs among its elements.
  pub parse-IsShallow :
      Reads → (s : Bytes) (v : Value F) (t : Bytes) → parse strtod s ≡ parsed v t → IsShallow v
  parse-IsShallow h s v t e = subst Fine e (parse-Fine h s)

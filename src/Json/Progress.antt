-- ===== src/Json/Progress.antt =====
-- The parser makes progress: it does not run out of fuel, and its values are shallow.
use net_serve.Prelude.{
  ℕ, ◌≤◌, ◌<◌, ◌≡◌, refl, Bool, true, false, Option, none, some, [], ◌∷◌, length, Bytes, arith,
  Bool-cases, inl, inr,
}
use net_serve.Config.Text.{skip_space}
use net_serve.Json.Text.{unexpected_token, StringResult}
use net_serve.Json.Value.{Value, bool, free}
use net_serve.Json.Store.{Outcome}
use net_serve.Json.Freeing.{IsFlat, free-IsFlat}
use net_serve.Json.Parser.{
  Start, finished, pairs, items, resume, in_object, in_array, string_result, word, finish_value,
  finish_unset, with_key, unset_or, number_or,
}
use net_serve.Json.Shallow.{IsShallow, LeftShallow}
use net_serve.Json.Parser.{
  Result, out_of_fuel, fault, failed, unset, parsed, behind, After, ends, goes_on, bad, after_item,
  Key, key, no_key, enter, go_on, take_item, parse_bool, parse_null, left, finish,
}
use net_serve.Json.Lengths.{
  length-skip_space-le, StringRest, KeyRest, AfterRest, length-after_item-lt, behind_lt,
}

module _ {F : Type 0} where
  -- What a call on an input of `n` bytes or less may come to.
  abbrev pub Good : ℕ → Result F → Type 0
  Good n out_of_fuel = ⊥
  Good n fault = Unit
  Good n (failed e) = Unit
  Good n (unset rest) = length rest < n
  Good n (parsed v rest) = (length rest < n) × IsShallow v

  pub go_on-Good :
      (m n : ℕ) (k : Value F → Bytes → Result F)
      → ((a : Value F) (rest : Bytes) → length rest < m → IsShallow a → Good n (k a rest))
      → m ≤ n
      → (o : Option (Value F)) (b : Bool) (z : After) → (b ≡ true → LeftShallow o)
      → AfterRest m z
      → Good n (go_on k o b z)
  go_on-Good m n k h le none b z s r = tt
  go_on-Good m n k h le (some a) false z s r = tt
  go_on-Good m n k h le (some a) true (ends rest) s r = (omega arith, s refl)
  go_on-Good m n k h le (some a) true (goes_on rest) s r = h a rest r (s refl)
  go_on-Good m n k h le (some a) true bad s r = tt

  pub take_item-Good :
      (add : Value F → Outcome (Value F)) (close m : ℕ) (k : Value F → Bytes → Result F)
      → ((v : Value F) → IsFlat v → LeftShallow (left (add v)))
      → ((a : Value F) (rest : Bytes) → length rest < m → IsShallow a → Good m (k a rest))
      → (r : Result F) → Good m r
      → Good m (take_item add close k r)
  unfolding take_item
  take_item-Good add close m k s h out_of_fuel g = g
  take_item-Good add close m k s h fault g = tt
  take_item-Good add close m k s h (failed e) g = tt
  take_item-Good add close m k s h (unset rest) g = tt
  take_item-Good add close m k s h (parsed v rest) g =
      go_on-Good (length rest) m k (λ a rest' lt. h a rest' (omega (arith, lt))) (omega arith)
        (left (add v)) (free true v) (after_item close rest) (λ e. s v ((free-IsFlat v).0 e))
        (length-after_item-lt close rest)

  pub Good-le : (m n : ℕ) → m ≤ n → (r : Result F) → Good m r → Good n r
  Good-le m n h out_of_fuel g = g
  Good-le m n h fault g = tt
  Good-le m n h (failed e) g = tt
  Good-le m n h (unset rest) g = omega arith
  Good-le m n h (parsed v rest) g = (omega (arith, g.0), g.1)

  abbrev pub StartGood : ℕ → Start F → Type 0
  StartGood n (finished r) = Good n r
  StartGood n (pairs rest) = length rest < n
  StartGood n (items rest) = length rest < n

  pub word-Good :
      (v : Value F) (n : ℕ) (o : Option Bytes) (r : Result F)
      → IsShallow v
      → ((rest : Bytes) → o ≡ some rest → length rest < n)
      → Good n r
      → Good n (word v o r)
  word-Good v n none r h k g = g
  word-Good v n (some rest) r h k g = (k rest refl, h)

  pub number_or-Good :
      (n : ℕ) (o : Option (F × Bytes))
      → ((x : F) (rest : Bytes) → o ≡ some (x, rest) → length rest < n)
      → Good n (number_or o)
  number_or-Good n none k = tt
  number_or-Good n (some (x, rest)) k = (k x rest refl, tt)

  pub with_key-Good :
      (n : ℕ) (f : Option Bytes → Bytes → Result F)
      → ((k : Option Bytes) (more : Bytes) → length more < n → Good n (f k more))
      → (z : Key) → KeyRest n z
      → Good n (with_key f z)
  with_key-Good n f h (no_key e) k = tt
  with_key-Good n f h (key m more) k = h m more k

  pub resume-Good :
      (m n : ℕ) (f g : Bytes → Result F)
      → m ≤ n
      → ((s : Bytes) → length s < m → Good (length s) (f s))
      → ((s : Bytes) → length s < m → Good (length s) (g s))
      → (z : Start F) → StartGood m z
      → Good n (resume f g z)
  resume-Good m n f g h hf hg (finished r) k = Good-le m n h r k
  resume-Good m n f g h hf hg (pairs s) k = Good-le (length s) n (omega arith) (f s) (hf s k)
  resume-Good m n f g h hf hg (items s) k = Good-le (length s) n (omega arith) (g s) (hg s k)

module _ (F : Type 0) where
  pub in_object-StartGood :
      (depth n : ℕ) (s : Bytes)
      → length s < n
      → StartGood {F = F} n (in_object (enter depth b'}' s))
  unfolding enter
  in_object-StartGood depth n s h = ground (arith, length-skip_space-le s)

  pub in_array-StartGood :
      (depth n : ℕ) (s : Bytes) → length s < n → StartGood {F = F} n (in_array (enter depth b']' s))
  unfolding enter
  in_array-StartGood depth n s h = ground (arith, length-skip_space-le s)

  pub string_result-Good :
      (n : ℕ) (r : StringResult) → StringRest n r → Good {F = F} n (string_result r)
  string_result-Good n (StringResult.failed e) h = tt
  string_result-Good n (StringResult.parsed s rest) h = (h, tt)

  pub unset_or-Good :
      (n : ℕ) (o : Option Bytes)
      → ((rest : Bytes) → o ≡ some rest → length rest < n)
      → Good {F = F} n (unset_or o)
  unset_or-Good n none k = tt
  unset_or-Good n (some rest) k = k rest refl

  pub parse_bool-Good : (s : Bytes) → Good {F = F} (length s) (parse_bool s)
  unfolding parse_bool
  parse_bool-Good s =
      let t = b't' ∷ b'r' ∷ b'u' ∷ b'e' ∷ [] in
      let f = b'f' ∷ b'a' ∷ b'l' ∷ b's' ∷ b'e' ∷ [] in
      let no = word {F = F} (bool false) (behind f s) (failed unexpected_token) in
      word-Good (bool true) (length s) (behind t s) no tt
        (λ rest. behind_lt b't' (b'r' ∷ b'u' ∷ b'e' ∷ []) s rest)
        (word-Good (bool false) (length s) (behind f s) (failed unexpected_token) tt
          (λ rest. behind_lt b'f' (b'a' ∷ b'l' ∷ b's' ∷ b'e' ∷ []) s rest) tt)

  pub parse_null-Good : (s : Bytes) → Good {F = F} (length s) (parse_null s)
  unfolding parse_null
  parse_null-Good s =
      unset_or-Good (length s) (behind (b'n' ∷ b'u' ∷ b'l' ∷ b'l' ∷ []) s)
        (λ rest. behind_lt b'n' (b'u' ∷ b'l' ∷ b'l' ∷ []) s rest)

module _ {F : Type 0} where
  abbrev pub Fine : Result F → Type 0
  Fine out_of_fuel = ⊥
  Fine (parsed v rest) = IsShallow v
  Fine _ = Unit

  pub finish_value-Fine : (v : Value F) (s : Bytes) → IsShallow v → Fine (finish_value v s)
  finish_value-Fine v [] h = h
  finish_value-Fine v (c ∷ cs) h = elim (Bool-cases (free true v)) [
    | inl e ↦ rw e tt
    | inr e ↦ rw e tt
  ]

module _ (F : Type 0) where
  pub finish_unset-Fine : (s : Bytes) → Fine {F = F} (finish_unset s)
  finish_unset-Fine [] = tt
  finish_unset-Fine (c ∷ cs) = tt

module _ {F : Type 0} where
  pub finish-Fine : (n : ℕ) (r : Result F) → Good n r → Fine (finish r)
  finish-Fine n out_of_fuel g = g
  finish-Fine n fault g = tt
  finish-Fine n (failed x) g = tt
  finish-Fine n (unset t) g = finish_unset-Fine F (skip_space t)
  finish-Fine n (parsed v t) g = finish_value-Fine v (skip_space t) g.1

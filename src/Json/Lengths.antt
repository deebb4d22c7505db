-- ===== src/Json/Lengths.antt =====
-- What each part of the parser leaves of its input.
use net_serve.Prelude.{
  ℕ, suc, ◌+◌, ◌≤◌, ◌<◌, ◌≡◌, refl, subst, Bool, true, false, Option, some, [], ◌∷◌, length, Bytes,
  arith, Bool-cases, inl, inr, ◌==◌, ◌⊎◌,
}
use net_serve.Config.Text.{skip_space}
use net_serve.Json.Text.{
  Error, parse_string, scan, StringResult, Scan, stopped, closed, keep, quote, backslash,
}
use net_serve.Json.Parser.{
  behind, After, ends, goes_on, bad, after_item, after_byte, quoted_key, with_colon, colon, Key,
  key, no_key, parse_key,
}

pub length-skip_space-le : (s : Bytes) → length (skip_space s) ≤ length s
unfolding skip_space
length-skip_space-le [] = omega arith
length-skip_space-le (c ∷ cs) = ground (arith, length-skip_space-le cs)

-- The rest that a result has is shorter than `n`.
abbrev pub ScanRest : ℕ → Scan → Type 0
ScanRest n (closed s rest) = length rest < n
ScanRest n (stopped e) = Unit

pub ScanRest-keep : (c n : ℕ) (r : Scan) → ScanRest n r → ScanRest (suc n) (keep c r)
ScanRest-keep c n (stopped e) h = tt
ScanRest-keep c n (closed s rest) h = omega arith

pub length-scan-lt : (b : Bool) (s : Bytes) → ScanRest (length s) (scan b s)
unfolding scan
length-scan-lt true [] = tt
length-scan-lt false [] = tt
length-scan-lt true (c ∷ cs) = ScanRest-keep c (length cs) (scan false cs) (length-scan-lt false cs)
length-scan-lt false (c ∷ cs) = elim (Bool-cases (c == quote)) [
  | inl e ↦ rw e (omega arith)
  | inr e ↦
      rw e (
        ScanRest-keep c (length cs) (scan (c == backslash) cs) (length-scan-lt (c == backslash) cs))
]

pub behind_rest : (w s rest : Bytes) → behind w s ≡ some rest → length rest + length w ≤ length s
unfolding behind
behind_rest [] s rest h = ground arith
behind_rest (x ∷ w) [] rest h = cc
behind_rest (x ∷ w) (c ∷ cs) rest h = ground (arith, behind_rest w cs rest)

abbrev pub StringRest : ℕ → StringResult → Type 0
StringRest n (StringResult.failed e) = Unit
StringRest n (StringResult.parsed s rest) = length rest < n

pub StringRest-le : (m n : ℕ) → m ≤ n → (r : StringResult) → StringRest m r → StringRest n r
StringRest-le m n h (StringResult.failed e) k = tt
StringRest-le m n h (StringResult.parsed s rest) k = omega arith

pub Scan-cases :
    (r : Scan)
    → ((e : Error) × (r ≡ stopped e)) ⊎ ((s : Bytes) × (rest : Bytes) × (r ≡ closed s rest))
Scan-cases (stopped e) = inl (e, refl)
Scan-cases (closed s rest) = inr (s, rest, refl)

pub length-parse_string-lt : (s : Bytes) → StringRest (length s) (parse_string true true s)
unfolding parse_string
length-parse_string-lt [] = tt
length-parse_string-lt (c ∷ cs) = elim (Scan-cases (scan false cs)) [
  | inl (e, h) ↦ rw (h, parse_string) tt
  | inr (s, rest, h) ↦
      let lt = subst (ScanRest (length cs)) h (length-scan-lt false cs) in
      rw (h, parse_string) (omega arith)
]

abbrev pub KeyRest : ℕ → Key → Type 0
KeyRest n (no_key e) = Unit
KeyRest n (key k rest) = length rest < n

pub colon-KeyRest : (k : Option Bytes) (n : ℕ) (s : Bytes) → length s < n → KeyRest n (colon k s)
colon-KeyRest k n [] h = tt
colon-KeyRest k n (c ∷ cs) h = ground arith

pub with_colon-KeyRest : (n : ℕ) (r : StringResult) → StringRest n r → KeyRest n (with_colon r)
with_colon-KeyRest n (StringResult.failed e) h = tt
with_colon-KeyRest n (StringResult.parsed k rest) h =
    colon-KeyRest k n (skip_space rest) (omega (arith, length-skip_space-le rest))

pub quoted_key-KeyRest : (n : ℕ) (s : Bytes) → length s ≤ n → KeyRest n (quoted_key s)
quoted_key-KeyRest n [] h = tt
quoted_key-KeyRest n (c ∷ cs) h = elim (Bool-cases (c == quote)) [
  | inl e ↦ rw e (
      with_colon-KeyRest n (parse_string true true (c ∷ cs)) (
        StringRest-le (length (c ∷ cs)) n h (parse_string true true (c ∷ cs))
          (length-parse_string-lt (c ∷ cs))))
  | inr e ↦ rw e tt
]

pub length-parse_key-lt : (s : Bytes) → KeyRest (length s) (parse_key s)
unfolding parse_key
length-parse_key-lt s = quoted_key-KeyRest (length s) (skip_space s) (length-skip_space-le s)

abbrev pub AfterRest : ℕ → After → Type 0
AfterRest n (ends rest) = length rest < n
AfterRest n (goes_on rest) = length rest < n
AfterRest n bad = Unit

pub after_byte-AfterRest :
    (close n : ℕ) (s : Bytes) → length s ≤ n → AfterRest n (after_byte close s)
after_byte-AfterRest close n [] h = tt
after_byte-AfterRest close n (c ∷ cs) h = ground arith

pub length-after_item-lt : (close : ℕ) (s : Bytes) → AfterRest (length s) (after_item close s)
unfolding after_item
length-after_item-lt close s =
    after_byte-AfterRest close (length s) (skip_space s) (length-skip_space-le s)

pub behind_lt : (c : ℕ) (w s rest : Bytes) → behind (c ∷ w) s ≡ some rest → length rest < length s
behind_lt c w s rest h = omega (arith, behind_rest (c ∷ w) s rest h)

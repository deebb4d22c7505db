-- ===== src/Xml/Loop.antt =====
-- When the loop of `parse_attributes` ends.
use net_serve.Prelude.{
  ℕ, zero, suc, ◌+◌, ◌≤◌, ◌<◌, ◌≡◌, ◌∙◌, ap, refl, true, false, Option, none, some, List, [], ◌∷◌,
  Bytes, length, if◌then◌else◌, arith, ◌⊎◌, inl, inr, Bool-cases,
}
use net_serve.Xml.Text.{is_name_byte}
use net_serve.Xml.Attributes.{
  Attribute, is_space, skip_whitespace, parse_name, split_quote, closed, parse_quoted_string,
  with_value, after_name, named, parse_attribute, push_attribute, ends, parse_attributes,
}

length-skip_whitespace-le : (s : Bytes) → length (skip_whitespace s) ≤ length s
unfolding skip_whitespace
length-skip_whitespace-le [] = omega arith
length-skip_whitespace-le (c ∷ cs) = ground (arith, length-skip_whitespace-le cs)

length-parse_name : (s : Bytes) → length (parse_name s).0 + length (parse_name s).1 ≡ length s
unfolding parse_name
length-parse_name [] = refl
length-parse_name (c ∷ cs) = ground (arith, length-parse_name cs)

length-split_quote-le : (q : ℕ) (s : Bytes) → length (closed (split_quote q s)).1 ≤ length s
unfolding split_quote
length-split_quote-le q [] = omega arith
length-split_quote-le q (c ∷ cs) = ground (arith, length-split_quote-le q cs)

length-parse_quoted_string-le : (s : Bytes) → length (parse_quoted_string s).1 ≤ length s
unfolding parse_quoted_string
length-parse_quoted_string-le [] = omega arith
length-parse_quoted_string-le (q ∷ cs) = ground (arith, length-split_quote-le q cs)

with_value-rest : (n : Bytes) (p : Option Bytes × Bytes) → (with_value n p).1 ≡ p.1
with_value-rest n (none, s) = refl
with_value-rest n (some v, s) = refl

length-after_name-le : (n s : Bytes) → length (after_name n s).1 ≤ length s
unfolding after_name
length-after_name-le n [] = omega arith
length-after_name-le n (c ∷ cs) =
    let v = parse_quoted_string (skip_whitespace cs) in
    ground (
      arith,
      ap length (with_value-rest n v),
      length-parse_quoted_string-le (skip_whitespace cs),
      length-skip_whitespace-le cs,
    )

length-named-lt : (n s : Bytes) → 0 < length n → length (named (n, s)).1 < length n + length s
length-named-lt [] s h = ground (arith, h)
length-named-lt (c ∷ n) s h =
    omega (arith, length-after_name-le (c ∷ n) (skip_whitespace s), length-skip_whitespace-le s)

parse_name-cons :
    (c : ℕ) (cs : Bytes)
    → is_name_byte c ≡ true
    → parse_name (c ∷ cs) ≡ (c ∷ (parse_name cs).0, (parse_name cs).1)
unfolding parse_name
parse_name-cons c cs e = ground arith

-- An attribute that starts with a byte of a name is read, if only in part.
parse_attribute-lt :
    (c : ℕ) (cs : Bytes)
    → is_name_byte c ≡ true
    → length (parse_attribute (c ∷ cs)).1 < length (c ∷ cs)
unfolding parse_attribute
parse_attribute-lt c cs e =
    let (n, s) = parse_name cs in
    omega (
      arith,
      ap (λ p. length (named p).1) (parse_name-cons c cs e),
      length-named-lt (c ∷ (parse_name cs).0) (parse_name cs).1 (omega arith),
      length-parse_name cs,
    )

parse_attribute-none :
    (c : ℕ) (cs : Bytes) → is_name_byte c ≡ false → parse_attribute (c ∷ cs) ≡ (none, c ∷ cs)
unfolding parse_attribute parse_name
parse_attribute-none c cs e = ground arith

-- A byte that nothing in the loop reads.
abbrev pub Sticks : ℕ → Type 0
Sticks c = (is_space c ≡ false) × (ends c ≡ false) × (is_name_byte c ≡ false)

list_cases : (s : Bytes) → (s ≡ []) ⊎ ((c : ℕ) × (cs : Bytes) × (s ≡ c ∷ cs))
list_cases [] = inl refl
list_cases (c ∷ cs) = inr (c, cs, refl)

parse_attributes_end :
    (f : ℕ) (attrs : List Attribute) (s : Bytes)
    → skip_whitespace s ≡ []
    → parse_attributes (suc f) attrs s ≡ some (attrs, [])
unfolding parse_attributes
parse_attributes_end f attrs s e = ground (arith, e)

pub parse_attributes_round :
    (f : ℕ) (attrs : List Attribute) (s cs : Bytes) (c : ℕ)
    → skip_whitespace s ≡ c ∷ cs
    → parse_attributes (suc f) attrs s ≡ (
        if ends c
        then some (attrs, c ∷ cs)
        else parse_attributes f
            (push_attribute (parse_attribute (c ∷ cs)).0 attrs)
            (parse_attribute (c ∷ cs)).1)
unfolding parse_attributes
parse_attributes_round f attrs s cs c e = rw (e, parse_attributes) refl

pub skip_whitespace_idle :
    (c : ℕ) (cs : Bytes) → is_space c ≡ false → skip_whitespace (c ∷ cs) ≡ c ∷ cs
unfolding skip_whitespace
skip_whitespace_idle c cs e = ground arith

skip_whitespace-head : (s cs : Bytes) (c : ℕ) → skip_whitespace s ≡ c ∷ cs → is_space c ≡ false
unfolding skip_whitespace
skip_whitespace-head [] cs c e = ground (arith, e)
skip_whitespace-head (x ∷ xs) cs c e = elim (Bool-cases (is_space x)) [
  | inl y ↦ skip_whitespace-head xs cs c (ground (arith, e, y))
  | inr n ↦ ground (arith, e, n)
]

next_fails :
    (attrs : List Attribute) (s cs : Bytes) (c : ℕ)
    → skip_whitespace s ≡ c ∷ cs
    → ends c ≡ false
    → ((n : ℕ)
        → parse_attributes n
            (push_attribute (parse_attribute (c ∷ cs)).0 attrs)
            (parse_attribute (c ∷ cs)).1
          ≡ none)
    → (n : ℕ) → parse_attributes n attrs s ≡ none
unfolding parse_attributes
next_fails attrs s cs c e b fails zero = refl
next_fails attrs s cs c e b fails (suc n) = parse_attributes_round n attrs s cs c e ∙ rw b (fails n)

parse_attributes-Sticks :
    (attrs : List Attribute) (s cs : Bytes) (c : ℕ)
    → skip_whitespace s ≡ c ∷ cs
    → Sticks c
    → (n : ℕ) → parse_attributes n attrs s ≡ none
unfolding parse_attributes
parse_attributes-Sticks attrs s cs c e k zero = refl
parse_attributes-Sticks attrs s cs c e (a, b, d) (suc n) =
    let again =
      parse_attributes-Sticks attrs (c ∷ cs) cs c (skip_whitespace_idle c cs a) (a, b, d) n in
    parse_attributes_round n attrs s cs c e ∙ rw (b, parse_attribute-none c cs d) again

-- The loop from `attrs` and `s` ends on this fuel, or on none.
abbrev pub IsDecided : ℕ → List Attribute → Bytes → Type 0
IsDecided fuel attrs s =
    ((r : List Attribute × Bytes) × (parse_attributes fuel attrs s ≡ some r))
    ⊎ ((n : ℕ) → parse_attributes n attrs s ≡ none)

go_on :
    (fuel : ℕ) (attrs : List Attribute) (s cs : Bytes) (c : ℕ)
    → skip_whitespace s ≡ c ∷ cs
    → ends c ≡ false
    → IsDecided fuel
        (push_attribute (parse_attribute (c ∷ cs)).0 attrs)
        (parse_attribute (c ∷ cs)).1
    → IsDecided (suc fuel) attrs s
go_on fuel attrs s cs c e b (inl (r, h)) =
    inl (r, parse_attributes_round fuel attrs s cs c e ∙ rw b h)
go_on fuel attrs s cs c e b (inr fails) = inr (next_fails attrs s cs c e b fails)

parse_attributes-IsDecided :
    (fuel : ℕ) (attrs : List Attribute) (s : Bytes) → length s < fuel → IsDecided fuel attrs s
parse_attributes-IsDecided zero attrs s lt = ground (arith, lt)
parse_attributes-IsDecided (suc fuel) attrs s lt = elim (list_cases (skip_whitespace s)) [
  | inl e ↦ inl ((attrs, []), parse_attributes_end fuel attrs s e)
  | inr (c, cs, e) ↦ elim (Bool-cases (ends c)) [
    | inl b ↦ inl ((attrs, c ∷ cs), parse_attributes_round fuel attrs s cs c e ∙ rw b refl)
    | inr b ↦ elim (Bool-cases (is_name_byte c)) [
      | inl d ↦ go_on fuel attrs s cs c e b (
          parse_attributes-IsDecided fuel (push_attribute (parse_attribute (c ∷ cs)).0 attrs)
            (parse_attribute (c ∷ cs)).1
            (omega
              (arith, parse_attribute-lt c cs d, length-skip_whitespace-le s, ap length e, lt)))
      | inr d ↦ inr (parse_attributes-Sticks attrs s cs c e (skip_whitespace-head s cs c e, b, d))
    ]
  ]
]

-- On fuel above the number of bytes left, the loop of `parse_attributes` ends on any text `t`, or it
-- never ends. It never ends on a text whose first byte behind the blanks is none of a name, `>` or
-- `/`, for then no round reads anything.
pub parse_attributes_lem :
    (attrs : List Attribute) (s t cs : Bytes) (c : ℕ)
    → skip_whitespace s ≡ c ∷ cs
    → Sticks c
    → IsDecided (length t + 1) attrs t × ((n : ℕ) → parse_attributes n attrs s ≡ none)
parse_attributes_lem attrs s t cs c e k = (
  parse_attributes-IsDecided (length t + 1) attrs t (omega arith),
  parse_attributes-Sticks attrs s cs c e k,
)

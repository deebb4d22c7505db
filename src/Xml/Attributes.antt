-- ===== src/Xml/Attributes.antt =====
-- Attributes in src/xml/xml_parser_module.c: setting and reading them, and their parser. The parser's
-- state is the bytes from `position` on; they hold no 0 byte, and memory suffices.
use net_serve.Prelude.{
  ℕ, zero, suc, Bool, true, false, ◌&&◌, ◌||◌, Option, none, some, List, [], ◌∷◌, ◌==◌, Bytes, leb,
  str_eq, if◌then◌else◌,
}
use net_serve.Xml.Text.{is_name_byte}

pub data NodeType : Type 0 where
  element text attribute comment cdata processing document : NodeType

pub record Attribute : Type 0 where
  pub name : Bytes
  pub value : Option Bytes

-- A node without its relatives.
pub record Node : Type 0 where
  pub type : NodeType
  pub name : Option Bytes
  pub value : Option Bytes
  pub attributes : List Attribute

abbrev pub is_element : NodeType → Bool
is_element element = true
is_element _ = false

unfoldable pub update_attribute : Bytes → Option Bytes → List Attribute → Option (List Attribute)
update_attribute n v [] = none
update_attribute n v (a ∷ as') =
    if str_eq a.name n
    then some (record a { value = v } ∷ as')
    else elim (update_attribute n v as') [ none ↦ none | some bs ↦ some (a ∷ bs) ]

-- The flag is the return of 0.
unfoldable pub set_attribute : Bytes → Option Bytes → Node → Bool × Node
unfolding update_attribute
set_attribute n v x =
    if is_element x.type
    then elim (update_attribute n v x.attributes) [
      | some bs ↦ (true, record x { attributes = bs })
      | none ↦ (true, record x { attributes = record { name = n; value = v } ∷ x.attributes })
    ]
    else (false, x)

unfoldable pub find_attribute : Bytes → List Attribute → Option (Option Bytes)
find_attribute n [] = none
find_attribute n (a ∷ as') = if str_eq a.name n then some a.value else find_attribute n as'

-- `none` is -1.
unfoldable pub get_attribute : Bytes → Node → Option (Option Bytes)
unfolding find_attribute
get_attribute n x = if is_element x.type then find_attribute n x.attributes else none

abbrev pub is_space : ℕ → Bool
is_space c = c == 32 || (leb 9 c && leb c 13)

unfoldable pub skip_whitespace : Bytes → Bytes
skip_whitespace [] = []
skip_whitespace (c ∷ cs) = let rest = skip_whitespace cs in if is_space c then rest else c ∷ cs

abbrev cons_name : ℕ → Bytes × Bytes → Bytes × Bytes
cons_name c (n, s) = (c ∷ n, s)

-- `parse_name`; an empty name is NULL.
unfoldable pub parse_name : Bytes → Bytes × Bytes
parse_name [] = ([], [])
parse_name (c ∷ cs) =
    let rest = parse_name cs in if is_name_byte c then cons_name c rest else ([], c ∷ cs)

abbrev cons_value : ℕ → Option (Bytes × Bytes) → Option (Bytes × Bytes)
cons_value c none = none
cons_value c (some (v, s)) = some (c ∷ v, s)

unfoldable pub split_quote : ℕ → Bytes → Option (Bytes × Bytes)
split_quote q [] = none
split_quote q (c ∷ cs) =
    let rest = split_quote q cs in if c == q then some ([], cs) else cons_value c rest

abbrev pub closed : Option (Bytes × Bytes) → Option Bytes × Bytes
closed none = (none, [])
closed (some (v, s)) = (some v, s)

-- What it returns, and what it leaves; without an end it reads everything.
unfoldable pub parse_quoted_string : Bytes → Option Bytes × Bytes
unfolding split_quote
parse_quoted_string [] = (none, [])
parse_quoted_string (q ∷ cs) =
    if q == 34 || q == 39 then closed (split_quote q cs) else (none, q ∷ cs)

abbrev pub with_value : Bytes → Option Bytes × Bytes → Option Attribute × Bytes
with_value n (none, s) = (none, s)
with_value n (some v, s) = (some (record { name = n; value = some v }), s)

unfoldable pub after_name : Bytes → Bytes → Option Attribute × Bytes
unfolding parse_quoted_string
after_name n [] = (none, [])
after_name n (c ∷ cs) =
    if c == 61 then with_value n (parse_quoted_string (skip_whitespace cs)) else (none, c ∷ cs)

abbrev pub named : Bytes × Bytes → Option Attribute × Bytes
named ([], s) = (none, s)
named (c ∷ n, s) = after_name (c ∷ n) (skip_whitespace s)

unfoldable pub parse_attribute : Bytes → Option Attribute × Bytes
unfolding after_name
parse_attribute s = named (parse_name s)

abbrev pub push_attribute : Option Attribute → List Attribute → List Attribute
push_attribute none attrs = attrs
push_attribute (some a) attrs = a ∷ attrs

abbrev pub ends : ℕ → Bool
ends c = c == 62 || c == 47

-- The loop on fuel, from the attributes of the node so far; `none` is out of fuel.
unfoldable pub parse_attributes : ℕ → List Attribute → Bytes → Option (List Attribute × Bytes)
unfolding skip_whitespace parse_attribute
parse_attributes zero attrs s = none
parse_attributes (suc fuel) attrs s = elim (skip_whitespace s) [
  | [] ↦ some (attrs, [])
  | (c ∷ cs) ↦
      let tried = parse_attribute (c ∷ cs) in
      let more = parse_attributes fuel (push_attribute tried.0 attrs) tried.1 in
      if ends c then some (attrs, c ∷ cs) else more
]

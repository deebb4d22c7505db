-- ===== src/Xml/Tests.antt =====
-- Runs of the XML code, and its theorems at concrete inputs.
use net_serve.Prelude.{ℕ, ◌≤◌, ◌≡◌, refl, none, some, [], ◌∷◌, Bytes, length}
use net_serve.Xml.Text.{escape, escaped_len, unescape, read_entity, unescape_loop, starts, lt}
use net_serve.Xml.Escaping.{unescape-escape}
use net_serve.Xml.Attributes.{
  parse_attributes, skip_whitespace, parse_attribute, parse_name, after_name, parse_quoted_string,
  split_quote,
}
use net_serve.Xml.Loop.{IsDecided, parse_attributes_lem}

abbrev odd : Bytes
odd = b'a' ∷ 38 ∷ 60 ∷ []

unescape-escape_example :
    (unescape (escape odd) ≡ odd)
    × (length (escape odd) ≡ escaped_len odd)
    × (length (unescape (38 ∷ lt)) ≤ 4)
unescape-escape_example = unescape-escape odd (38 ∷ lt)

-- An `&` that starts no entity stays.
lone : unescape (38 ∷ b'a' ∷ []) ≡ 38 ∷ b'a' ∷ []
unfolding unescape unescape_loop read_entity starts
lone = refl

-- A tag's ` a="1">`.
abbrev good : Bytes
good = b' ' ∷ b'a' ∷ b'=' ∷ 34 ∷ b'1' ∷ 34 ∷ b'>' ∷ []

one_attribute :
    parse_attributes 3 [] good
    ≡ some (record { name = b'a' ∷ []; value = some (b'1' ∷ []) } ∷ [], b'>' ∷ [])
unfolding parse_attributes skip_whitespace parse_attribute parse_name after_name parse_quoted_string
    split_quote
one_attribute = refl

-- A tag whose attribute has no name.
abbrev nameless : Bytes
nameless = b' ' ∷ b'=' ∷ 34 ∷ 34 ∷ b'>' ∷ []

parse_attributes_lem_example :
    IsDecided 8 [] good × ((n : ℕ) → parse_attributes n [] nameless ≡ none)
unfolding skip_whitespace
parse_attributes_lem_example =
    parse_attributes_lem [] nameless good (34 ∷ 34 ∷ b'>' ∷ []) b'=' refl (refl, refl, refl)

-- ===== src/Xml/Tags.antt =====
-- The parsers below an element, on texts as they are written.
use net_serve.Prelude.{
  ℕ, zero, suc, ◌+◌, ◌≤◌, ◌<◌, ◌≡◌, ◌≢◌, ◌∙◌, refl, true, false, some, List, [], ◌∷◌, ◌++◌, Bytes,
  length, length-append, All, str_eq_refl, arith,
}
use net_serve.Xml.Text.{starts, is_name_byte}
use net_serve.Xml.Attributes.{
  Attribute, is_space, skip_whitespace, parse_name, split_quote, parse_quoted_string, after_name,
  parse_attribute, parse_attributes, ends,
}
use net_serve.Xml.Loop.{parse_attributes_round, skip_whitespace_idle}
use net_serve.Xml.Pieces.{
  element_node, until, find_close, right, parse_start_tag, parse_end_tag, behind_close, drop,
}
use net_serve.Xml.Markup.{IsName, IsAttribute, render_attributes, attributes_of, closing}

pub starts-append : (p r : Bytes) → starts p (p ++ r) ≡ true
unfolding starts
starts-append [] r = refl
starts-append (c ∷ p) r = ground (arith, starts-append p r)

-- An end whose first byte does not occur is found where it stands.
pub until-append :
    (c : ℕ) (end t r : Bytes)
    → All (λ b. b ≢ c) t
    → until (c ∷ end) (t ++ ((c ∷ end) ++ r)) ≡ (t, (c ∷ end) ++ r)
unfolding until starts
until-append c end [] r h = ground (arith, starts-append end r)
until-append c end (b ∷ t) r (n, h) = ground (arith, until-append c end t r h)

pub parse_name-append :
    (n : Bytes) (c : ℕ) (r : Bytes)
    → All (λ b. is_name_byte b ≡ true) n
    → is_name_byte c ≡ false
    → parse_name (n ++ c ∷ r) ≡ (n, c ∷ r)
unfolding parse_name
parse_name-append [] c r h e = ground (arith, e)
parse_name-append (b ∷ n) c r (k, h) e = ground (arith, k, parse_name-append n c r h e)

split_quote-append :
    (v r : Bytes) → All (λ b. b ≢ 34) v → split_quote 34 (v ++ 34 ∷ r) ≡ some (v, r)
unfolding split_quote
split_quote-append [] r h = ground arith
split_quote-append (b ∷ v) r (n, h) = ground (arith, split_quote-append v r h)

parse_attribute-append :
    (n v r : Bytes)
    → IsAttribute (n, v)
    → parse_attribute (n ++ 61 ∷ 34 ∷ (v ++ 34 ∷ r))
      ≡ (some (record { name = n; value = some v }), r)
unfolding parse_attribute after_name parse_quoted_string skip_whitespace
parse_attribute-append [] v r (h, k) = absurd h
parse_attribute-append (c ∷ n) v r (h, k) =
    rw (parse_name-append (c ∷ n) 61 (34 ∷ (v ++ 34 ∷ r)) h refl, split_quote-append v r k) refl

pub name_byte_cases :
    (c : ℕ)
    → is_name_byte c ≡ true
    → (is_space c ≡ false) × (ends c ≡ false) × (c ≢ 33) × (c ≢ 63) × (c ≢ 47)
name_byte_cases c h = ground arith

parse_attributes-render_attributes :
    (bs : List (Bytes × Bytes)) (f : ℕ) (attrs : List Attribute) (r : Bytes)
    → All IsAttribute bs
    → length bs < f
    → parse_attributes f attrs (render_attributes bs (62 ∷ r))
      ≡ some (attributes_of bs attrs, 62 ∷ r)
unfolding render_attributes attributes_of skip_whitespace
parse_attributes-render_attributes bs zero attrs r h lt = ground (arith, lt)
parse_attributes-render_attributes [] (suc f) attrs r h lt =
    parse_attributes_round f attrs (62 ∷ r) r 62 refl
parse_attributes-render_attributes (([], v) ∷ bs) (suc f) attrs r ((h, k), hs) lt = absurd h
parse_attributes-render_attributes ((c ∷ n, v) ∷ bs) (suc f) attrs r (h, hs) lt =
    let rest = render_attributes bs (62 ∷ r) in
    let tail = n ++ 61 ∷ 34 ∷ (v ++ 34 ∷ rest) in
    let (space, ended, x, y, z) = name_byte_cases c h.0.0 in
    let more =
      parse_attributes-render_attributes bs f (record { name = c ∷ n; value = some v } ∷ attrs) r hs
        (omega (arith, lt)) in
    parse_attributes_round f attrs (32 ∷ c ∷ tail) tail c (skip_whitespace_idle c tail space)
    ∙ rw (ended, parse_attribute-append (c ∷ n) v rest h) more

length-render_attributes-le :
    (bs : List (Bytes × Bytes)) (r : Bytes) → length bs + length r ≤ length (render_attributes bs r)
unfolding render_attributes
length-render_attributes-le [] r = omega arith
length-render_attributes-le ((n, v) ∷ bs) r =
    let rest = render_attributes bs r in
    omega (
      arith,
      length-render_attributes-le bs r,
      length-append n (61 ∷ 34 ∷ (v ++ 34 ∷ rest)),
      length-append v (34 ∷ rest),
    )

-- A name ends in front of attributes and the end of the tag.
parse_name-render_attributes :
    (n : Bytes) (bs : List (Bytes × Bytes)) (r : Bytes)
    → All (λ b. is_name_byte b ≡ true) n
    → parse_name (n ++ render_attributes bs (62 ∷ r)) ≡ (n, render_attributes bs (62 ∷ r))
unfolding render_attributes
parse_name-render_attributes n [] r h = parse_name-append n 62 r h refl
parse_name-render_attributes n ((m, v) ∷ bs) r h = parse_name-append n 32 _ h refl

pub parse_start_tag-render_attributes :
    (n : Bytes) (bs : List (Bytes × Bytes)) (r : Bytes)
    → IsName n
    → All IsAttribute bs
    → parse_start_tag (60 ∷ (n ++ render_attributes bs (62 ∷ r)))
      ≡ right (n, element_node n (attributes_of bs []), false) r
unfolding parse_start_tag drop find_close
parse_start_tag-render_attributes [] bs r h k = absurd h
parse_start_tag-render_attributes (c ∷ n) bs r h k =
    let s = render_attributes bs (62 ∷ r) in
    rw
      (
        parse_name-render_attributes (c ∷ n) bs r h,
        parse_attributes-render_attributes bs (length s + 1) [] r k
            (omega (arith, length-render_attributes-le bs (62 ∷ r))),
      )
      refl

pub parse_end_tag-closing : (n r : Bytes) → IsName n → parse_end_tag n (closing n r) ≡ right tt r
unfolding parse_end_tag drop behind_close
parse_end_tag-closing [] r h = absurd h
parse_end_tag-closing (c ∷ n) r h =
    rw (parse_name-append (c ∷ n) 62 r h refl, str_eq_refl (c ∷ n)) refl

-- ===== src/Xml/Lookup.antt =====
-- Setting an attribute and reading it.
use net_serve.Prelude.{
  ◌≡◌, true, Option, some, List, [], ◌∷◌, Bytes, str_eq, str_eq_iff, if◌then◌else◌, arith, inl, inr,
  Option-cases,
}
use net_serve.Xml.Attributes.{
  Attribute, Node, is_element, update_attribute, set_attribute, find_attribute, get_attribute,
}

find_attribute-update_attribute :
    (n k : Bytes) (v : Option Bytes) (attrs bs : List Attribute)
    → update_attribute n v attrs ≡ some bs
    → find_attribute k bs ≡ (if str_eq n k then some v else find_attribute k attrs)
unfolding find_attribute update_attribute
find_attribute-update_attribute n k v [] bs e = ground (arith, e)
find_attribute-update_attribute n k v (a ∷ attrs) bs e =
    elim (Option-cases (update_attribute n v attrs)) [
      | inl h ↦ ground (arith, e, h, str_eq_iff a.name n, str_eq_iff a.name k, str_eq_iff n k)
      | inr (cs, h) ↦ ground (
        arith,
        e,
        h,
        str_eq_iff a.name n,
        str_eq_iff a.name k,
        str_eq_iff n k,
        find_attribute-update_attribute n k v attrs cs h,
      )
    ]

-- After `xml_set_attribute` on an element the attribute reads as set, and every other as before.
pub get_attribute-set_attribute :
    (n k : Bytes) (v : Option Bytes) (x : Node)
    → is_element x.type ≡ true
    → get_attribute k (set_attribute n v x).1 ≡ (if str_eq n k then some v else get_attribute k x)
unfolding get_attribute set_attribute find_attribute
get_attribute-set_attribute n k v x e = elim (Option-cases (update_attribute n v x.attributes)) [
  | inl h ↦ ground (arith, e, h)
  | inr (bs, h) ↦ ground (arith, e, h, find_attribute-update_attribute n k v x.attributes bs h)
]

-- ===== src/Xml/Markup.antt =====
-- XML texts as they are written: a description of elements that is independent of the parser.
use net_serve.Prelude.{
  ℕ, suc, ◌+◌, ◌<◌, ◌≡◌, ◌≢◌, true, false, none, some, List, [], ◌∷◌, ◌++◌, Bytes, All,
}
use net_serve.Xml.Text.{is_name_byte}
use net_serve.Xml.Attributes.{Attribute, is_space, text, comment, cdata}
use net_serve.Xml.Pieces.{
  Tree, Trees, tree, no_trees, cons_tree, leaf, element_node, comment_end, cdata_start, cdata_end,
}
use net_serve.Xml.Elements.{max_depth}

mutual
  -- Text, a comment, a CDATA section, or an element with its attributes and its content.
  pub data Piece : Type 0 where
    words : Bytes → Piece
    remark : Bytes → Piece
    raw : Bytes → Piece
    markup : Bytes → List (Bytes × Bytes) → Content → Piece

  pub data Content : Type 0 where
    nothing : Content
    piece : Piece → Content → Content

-- The start of an end tag, and what follows.
abbrev pub closing : Bytes → Bytes → Bytes
closing n r = 60 ∷ b'/' ∷ (n ++ 62 ∷ r)

-- Attributes, each behind a blank, in front of `r`.
unfoldable pub render_attributes : List (Bytes × Bytes) → Bytes → Bytes
render_attributes [] r = r
render_attributes ((n, v) ∷ bs) r = 32 ∷ (n ++ 61 ∷ 34 ∷ (v ++ 34 ∷ render_attributes bs r))

unfoldable mutual
  unfolding render_attributes

  -- The text of a piece in front of `r`.
  pub render : Piece → Bytes → Bytes
  render (words t) r = t ++ r
  render (remark t) r = 60 ∷ b'!' ∷ b'-' ∷ b'-' ∷ (t ++ (comment_end ++ r))
  render (raw t) r = 60 ∷ (cdata_start ++ (t ++ (cdata_end ++ r)))
  render (markup n bs ps) r =
      60 ∷ (n ++ render_attributes bs (62 ∷ render_content ps (closing n r)))

  pub render_content : Content → Bytes → Bytes
  render_content nothing r = r
  render_content (piece p ps) r = render p (render_content ps r)

-- The list of a node's attributes has the last one first.
unfoldable pub attributes_of : List (Bytes × Bytes) → List Attribute → List Attribute
attributes_of [] attrs = attrs
attributes_of ((n, v) ∷ bs) attrs = attributes_of bs (record { name = n; value = some v } ∷ attrs)

unfoldable mutual
  unfolding attributes_of

  -- The nodes that a piece stands for.
  pub tree_of : Piece → Tree
  tree_of (words t) = leaf text none t
  tree_of (remark t) = leaf comment none t
  tree_of (raw t) = leaf cdata none t
  tree_of (markup n bs ps) = tree (element_node n (attributes_of bs [])) (trees_of ps)

  pub trees_of : Content → Trees
  trees_of nothing = no_trees
  trees_of (piece p ps) = cons_tree (tree_of p) (trees_of ps)

abbrev pub IsName : Bytes → Type 0
IsName [] = ⊥
IsName (c ∷ cs) = All (λ b. is_name_byte b ≡ true) (c ∷ cs)

-- Text starts with no blank, which the parser would skip, and holds no `<`.
abbrev pub IsWords : Bytes → Type 0
IsWords [] = ⊥
IsWords (c ∷ cs) = (is_space c ≡ false) × All (λ b. b ≢ 60) (c ∷ cs)

abbrev pub IsAttribute : Bytes × Bytes → Type 0
IsAttribute (n, v) = IsName n × All (λ b. b ≢ 34) v

-- Two texts in a row would be read as one.
abbrev pub NoWords : Content → Type 0
NoWords (piece (words t) ps) = ⊥
NoWords _ = Unit

abbrev pub Separate : Piece → Content → Type 0
Separate (words t) ps = NoWords ps
Separate _ ps = Unit

abbrev mutual
  -- What is needed at a depth: a comment holds no `-` and a CDATA section no `]`.
  pub IsFine : ℕ → Piece → Type 0
  IsFine d (words t) = IsWords t
  IsFine d (remark t) = All (λ b. b ≢ b'-') t
  IsFine d (raw t) = All (λ b. b ≢ 93) t
  IsFine d (markup n bs ps) = IsName n × All IsAttribute bs × (d < max_depth) × AreFine (d + 1) ps

  pub AreFine : ℕ → Content → Type 0
  AreFine d nothing = Unit
  AreFine d (piece p ps) = IsFine d p × Separate p ps × AreFine d ps

unfoldable mutual
  -- Enough rounds for the loops in an element.
  pub rounds : Piece → ℕ
  rounds (markup n bs ps) = suc (all_rounds ps)
  rounds _ = 0

  pub all_rounds : Content → ℕ
  all_rounds nothing = 1
  all_rounds (piece p ps) = suc (rounds p + all_rounds ps)

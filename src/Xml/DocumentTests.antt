-- ===== src/Xml/DocumentTests.antt =====
-- Runs of the parser of documents, and its theorems at concrete inputs.
use net_serve.Prelude.{◌≡◌, refl, none, some, List, [], ◌∷◌, Bytes, arith}
use net_serve.Xml.Text.{starts}
use net_serve.Xml.Attributes.{skip_whitespace}
use net_serve.Xml.Pieces.{tree, no_trees, element_node, no_error, invalid_syntax}
use net_serve.Xml.Elements.{parse_string, parse_children}
use net_serve.Xml.Markup.{
  Content, words, remark, markup, nothing, piece, render, tree_of, rounds, render_attributes,
  IsFine,
}
use net_serve.Xml.Documents.{
  document_of, parse_string-render, parse_string_misreads, parse_children_loops,
}

-- `<a k="v">hi<!--c--><b></b></a>`.
abbrev inner : Content
inner =
    piece (words (b'h' ∷ b'i' ∷ []))
      (piece (remark (b'c' ∷ [])) (piece (markup (b'b' ∷ []) [] nothing) nothing))

abbrev values : List (Bytes × Bytes)
values = (b'k' ∷ [], b'v' ∷ []) ∷ []

rendered :
    render (markup (b'a' ∷ []) values inner) []
    ≡ 60 ∷ b'a' ∷ 32 ∷ b'k' ∷ 61 ∷ 34 ∷ b'v' ∷ 34 ∷ 62 ∷ b'h' ∷ b'i' ∷ 60 ∷ b'!' ∷ b'-' ∷ b'-'
      ∷ b'c' ∷ b'-' ∷ b'-' ∷ 62 ∷ 60 ∷ b'b' ∷ 62 ∷ 60 ∷ b'/' ∷ b'b' ∷ 62 ∷ 60 ∷ b'/' ∷ b'a' ∷ 62
      ∷ []
unfolding render render_attributes
rendered = refl

inner-IsFine : IsFine 0 (markup (b'a' ∷ []) values inner)
inner-IsFine = (
  (refl, tt),
  (((refl, tt), (λ e. cc, tt)), tt),
  omega arith,
  (
    (refl, (λ e. cc, (λ e. cc, tt))),
    tt,
    ((λ e. cc, tt), tt, (((refl, tt), tt, omega arith, tt), tt, tt)),
  ),
)

parse_string-render_example :
    parse_string 9 (render (markup (b'a' ∷ []) values inner) (b' ' ∷ []))
    ≡ some (some (document_of (tree_of (markup (b'a' ∷ []) values inner))), no_error)
unfolding rounds skip_whitespace
parse_string-render_example =
    parse_string-render (b'a' ∷ []) values inner (b' ' ∷ []) 9 inner-IsFine refl (omega arith)

parse_string_misreads_example :
    (parse_string 2 (60 ∷ b'a' ∷ 47 ∷ 62 ∷ []) ≡ some (none, invalid_syntax))
    × (parse_string 2 (60 ∷ b'a' ∷ 62 ∷ [])
        ≡ some (some (document_of (tree (element_node (b'a' ∷ []) []) no_trees)), no_error))
parse_string_misreads_example = parse_string_misreads (b'a' ∷ []) 0 (refl, tt)

parse_children_loops_example :
    (parse_children 50 1 (b'a' ∷ []) no_trees no_error (60 ∷ []) ≡ none)
    × (parse_children 50 1 (b'a' ∷ []) no_trees no_error (60 ∷ 33 ∷ b'D' ∷ []) ≡ none)
    × (parse_children 50 100 (b'a' ∷ []) no_trees no_error (60 ∷ b'b' ∷ 62 ∷ []) ≡ none)
unfolding starts
parse_children_loops_example =
    parse_children_loops 50 1 100 b'b' (b'a' ∷ []) (62 ∷ []) (b'D' ∷ []) no_trees no_error refl
      (omega arith) refl refl

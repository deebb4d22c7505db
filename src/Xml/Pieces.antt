-- ===== src/Xml/Pieces.antt =====
-- The parsers of src/xml/xml_parser_module.c below an element: text, comments, CDATA, processing
-- instructions, start and end tags. The parser's state is the bytes from `position` on; they hold no 0
-- byte, and memory suffices. Line and column numbers are left out.
use net_serve.Prelude.{
  ℕ, zero, suc, ◌+◌, Bool, false, Option, none, some, List, [], ◌∷◌, ◌==◌, Bytes, length, str_eq,
  if◌then◌else◌,
}
use net_serve.Xml.Text.{starts}
use net_serve.Xml.Attributes.{
  NodeType, element, text, comment, cdata, processing, Attribute, Node, skip_whitespace, parse_name,
  parse_attributes, ends,
}

mutual
  -- A node with its children, from `first_child` to `last_child`.
  pub data Tree : Type 0 where
    tree : Node → Trees → Tree

  pub data Trees : Type 0 where
    no_trees : Trees
    cons_tree : Tree → Trees → Trees

abbrev pub leaf : NodeType → Option Bytes → Bytes → Tree
leaf k n v = tree (record { type = k; name = n; value = some v; attributes = [] }) no_trees

-- The codes of the errors that the parser sets.
pub data Error : Type 0 where
  no_error invalid_syntax unterminated_tag depth_exceeded : Error

-- `position += n`, which may go past the end.
unfoldable pub drop : ℕ → Bytes → Bytes
drop zero s = s
drop (suc n) [] = []
drop (suc n) (c ∷ cs) = drop n cs

abbrev cons_taken : ℕ → Bytes × Bytes → Bytes × Bytes
cons_taken c (t, r) = (c ∷ t, r)

-- What stands in front of the first `end`, and the rest from there.
unfoldable pub until : Bytes → Bytes → Bytes × Bytes
unfolding starts
until end [] = ([], [])
until end (c ∷ cs) =
    let more = until end cs in if starts end (c ∷ cs) then ([], c ∷ cs) else cons_taken c more

abbrev pub nonempty_text : Bytes × Bytes → Option Tree × Bytes
nonempty_text ([], r) = (none, r)
nonempty_text (c ∷ t, r) = (some (leaf text none (c ∷ t)), r)

unfoldable pub parse_text : Bytes → Option Tree × Bytes
unfolding until
parse_text s = nonempty_text (until (60 ∷ []) s)

abbrev pub comment_end : Bytes
comment_end = b'-' ∷ b'-' ∷ b'>' ∷ []

abbrev pub cdata_start : Bytes
cdata_start = b'!' ∷ 91 ∷ b'C' ∷ b'D' ∷ b'A' ∷ b'T' ∷ b'A' ∷ 91 ∷ []

abbrev pub cdata_end : Bytes
cdata_end = 93 ∷ 93 ∷ b'>' ∷ []

abbrev pub pi_end : Bytes
pi_end = b'?' ∷ b'>' ∷ []

-- The node, and what is left behind `n` bytes of an end.
abbrev pub closed_by : ℕ → NodeType → Option Bytes → Bytes × Bytes → Tree × Bytes
closed_by n k name (t, r) = (leaf k name t, drop n r)

unfoldable pub parse_comment : Bytes → Tree × Bytes
unfolding until drop
parse_comment s = closed_by 3 comment none (until comment_end (drop 4 s))

unfoldable pub parse_cdata : Bytes → Tree × Bytes
unfolding until drop
parse_cdata s = closed_by 3 cdata none (until cdata_end (drop 9 s))

abbrev some_tree : Tree × Bytes → Option Tree × Bytes
some_tree (t, r) = (some t, r)

abbrev with_target : Bytes × Bytes → Option Tree × Bytes
with_target ([], r) = (none, r)
with_target (c ∷ n, r) =
    some_tree (closed_by 2 processing (some (c ∷ n)) (until pi_end (skip_whitespace r)))

unfoldable pub parse_processing_instruction : Bytes → Option Tree × Bytes
unfolding until drop
parse_processing_instruction s = with_target (parse_name (drop 2 s))

-- How a tag ends: out of fuel in the loop over the attributes, with an error, or with its result.
pub data Tag (A : Type 0) : Type 0 where
  loops : Tag A
  wrong : Error → Bytes → Tag A
  right : A → Bytes → Tag A

-- The loop that looks for the end of a start tag; whether the byte that it passed is a `/`.
unfoldable pub find_close : Bytes → Bool × Bytes
find_close [] = (false, [])
find_close (c ∷ cs) = let more = find_close cs in if ends c then (c == 47, cs) else more

abbrev pub element_node : Bytes → List Attribute → Node
element_node n attrs = record { type = element; name = some n; value = none; attributes = attrs }

abbrev pub close_tag : Bytes → Option (List Attribute × Bytes) → Tag (Bytes × Node × Bool)
close_tag n none = loops
close_tag n (some (attrs, r)) = right (n, element_node n attrs, (find_close r).0) (find_close r).1

abbrev pub open_tag : Bytes × Bytes → Tag (Bytes × Node × Bool)
open_tag ([], r) = wrong invalid_syntax r
open_tag (c ∷ n, r) = close_tag (c ∷ n) (parse_attributes (length r + 1) [] r)

-- The byte at `position` is not looked at.
unfoldable pub parse_start_tag : Bytes → Tag (Bytes × Node × Bool)
unfolding drop find_close
parse_start_tag s = open_tag (parse_name (drop 1 s))

unfoldable pub behind_close : Bytes → Bytes
behind_close [] = []
behind_close (c ∷ cs) = let more = behind_close cs in if c == 62 then cs else more

abbrev pub matched : Bytes → Bytes × Bytes → Tag (Unit {0})
matched expected ([], r) = wrong invalid_syntax r
matched expected (c ∷ n, r) =
    if str_eq (c ∷ n) expected then right tt (behind_close r) else wrong unterminated_tag r

unfoldable pub parse_end_tag : Bytes → Bytes → Tag (Unit {0})
unfolding drop behind_close
parse_end_tag expected s = matched expected (parse_name (drop 2 s))

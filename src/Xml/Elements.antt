-- ===== src/Xml/Elements.antt =====
-- `parse_element` of src/xml/xml_parser_module.c and the document around it.
use net_serve.Prelude.{
  ℕ, zero, suc, ◌+◌, Bool, true, false, Option, none, some, [], ◌∷◌, ◌==◌, Bytes, length, leb,
  if◌then◌else◌,
}
use net_serve.Xml.Text.{starts}
use net_serve.Xml.Attributes.{Node, skip_whitespace, parse_quoted_string}
use net_serve.Xml.Pieces.{
  Tree, Trees, tree, no_trees, cons_tree, Error, no_error, invalid_syntax, unterminated_tag,
  depth_exceeded, drop, until, parse_text, cdata_start, parse_comment, parse_cdata,
  parse_processing_instruction, pi_end, Tag, loops, wrong, right, parse_start_tag, parse_end_tag,
}

-- `xml_add_child` puts the new child behind the last.
unfoldable pub add_last : Trees → Tree → Trees
add_last no_trees t = cons_tree t no_trees
add_last (cons_tree u us) t = cons_tree u (add_last us t)

abbrev pub add_some : Trees → Option Tree → Trees
add_some us none = us
add_some us (some t) = add_last us t

-- What a round of the loop over the children does at a byte that is no blank: leave the loop behind
-- an end tag, fail, go on with or without a new leaf, or parse an element.
pub data Move : Type 0 where
  leaves : Bytes → Move
  fails : Error → Bytes → Move
  goes : Option Tree → Bytes → Move
  enters : Bytes → Move

abbrev at_end : Tag (Unit {0}) → Move
at_end loops = fails no_error []
at_end (wrong e r) = fails e r
at_end (right u r) = leaves r

abbrev adds : Tree × Bytes → Move
adds (t, r) = goes (some t) r

abbrev adds_some : Option Tree × Bytes → Move
adds_some (t, r) = goes t r

abbrev pub is_dash : Bytes → Bool
is_dash [] = false
is_dash (c ∷ cs) = c == b'-'

-- Behind `<!`, of which `s` is the whole and `cs` the rest.
unfoldable pub at_mark : Bytes → Bytes → Move
unfolding starts parse_comment parse_cdata
at_mark s cs =
    if is_dash cs
    then adds (parse_comment s)
    else if starts cdata_start (b'!' ∷ cs)
    then adds (parse_cdata s)
    else goes none s

-- Behind `<`.
unfoldable pub at_angle : Bytes → Bytes → Bytes → Move
unfolding at_mark parse_end_tag parse_processing_instruction
at_angle n s [] = goes none s
at_angle n s (c ∷ cs) =
    if c == b'/'
    then at_end (parse_end_tag n s)
    else if c == b'!'
    then at_mark s cs
    else if c == b'?'
    then adds_some (parse_processing_instruction s)
    else enters s

unfoldable pub move : Bytes → ℕ → Bytes → Move
unfolding at_angle parse_text
move n c cs = if c == 60 then at_angle n (c ∷ cs) cs else adds_some (parse_text (c ∷ cs))

-- What a call leaves: its result, `last_error` and the bytes from `position` on.
abbrev pub Left : Type 0 → Type 0
Left A = Option A × Error × Bytes

abbrev pub max_depth : ℕ
max_depth = 100

-- The test for a tag that closes itself comes before the loop; at the end of the input both give the
-- element without children.
abbrev pub is_closed : Bool → Bytes → Bool
is_closed slash [] = false
is_closed slash (c ∷ cs) = slash

abbrev pub close : Node → Left Trees → Left Tree
close x (none, e, r) = (none, e, r)
close x (some us, e, r) = (some (tree x us), e, r)

abbrev pub close_loop : Node → Option (Left Trees) → Option (Left Tree)
close_loop x none = none
close_loop x (some l) = some (close x l)

-- Both on fuel, where `none` is out of fuel. `depth` is the one of the caller; each return gives it
-- back.
unfoldable mutual
  unfolding parse_start_tag

  pub parse_element : ℕ → ℕ → Error → Bytes → Option (Left Tree)
  parse_element zero depth e s = none
  parse_element (suc f) depth e s = elim (leb max_depth depth) [
    | true ↦ some (none, depth_exceeded, s)
    | false ↦ elim (parse_start_tag s) [
      | loops ↦ none
      | wrong e' r ↦ some (none, e', r)
      | right (n, x, slash) r ↦ elim (is_closed slash r) [
        | true ↦ some (some (tree x no_trees), e, r)
        | false ↦ close_loop x (parse_children f (depth + 1) n no_trees e r)
      ]
    ]
  ]

  -- The `while` loop, with the children so far.
  pub parse_children : ℕ → ℕ → Bytes → Trees → Error → Bytes → Option (Left Trees)
  parse_children zero depth n us e s = none
  parse_children (suc f) depth n us e s = elim s [
    | [] ↦ some (some us, e, [])
    | (b ∷ bs) ↦ elim (skip_whitespace (b ∷ bs)) [
      | [] ↦ some (none, unterminated_tag, [])
      | (c ∷ cs) ↦ elim (move n c cs) [
        | leaves r ↦ some (some us, e, r)
        | fails e' r ↦ some (none, e', r)
        | goes t r ↦ parse_children f depth n (add_some us t) e r
        | enters r ↦ elim (parse_element f depth e r) [
          | none ↦ none
          | some (t, e', r') ↦ parse_children f depth n (add_some us t) e' r'
        ]
      ]
    ]
  ]

pub record Document : Type 0 where
  pub root : Option Tree
  pub version : Option Bytes
  pub encoding : Option Bytes
  pub standalone : Option Bytes

abbrev pub new_document : Document
new_document = record { root = none; version = none; encoding = none; standalone = none }

abbrev key_value : Bytes → Option Bytes × Bytes
key_value [] = (none, [])
key_value (c ∷ cs) = if c == b'=' then parse_quoted_string (skip_whitespace cs) else (none, c ∷ cs)

-- One of the three fields of the declaration, and the blanks in front of it.
unfoldable pub read_field : Bytes → Bytes → Option Bytes × Bytes
unfolding starts drop
read_field key s =
    let t = skip_whitespace s in
    if starts key t then key_value (skip_whitespace (drop (length key) t)) else (none, t)

abbrev pub version_key : Bytes
version_key = b'v' ∷ b'e' ∷ b'r' ∷ b's' ∷ b'i' ∷ b'o' ∷ b'n' ∷ []

abbrev pub encoding_key : Bytes
encoding_key = b'e' ∷ b'n' ∷ b'c' ∷ b'o' ∷ b'd' ∷ b'i' ∷ b'n' ∷ b'g' ∷ []

abbrev pub standalone_key : Bytes
standalone_key = b's' ∷ b't' ∷ b'a' ∷ b'n' ∷ b'd' ∷ b'a' ∷ b'l' ∷ b'o' ∷ b'n' ∷ b'e' ∷ []

abbrev pub xml_key : Bytes
xml_key = b'x' ∷ b'm' ∷ b'l' ∷ []

unfoldable pub parse_declaration : Bytes → Document × Bytes
unfolding read_field until
parse_declaration s =
    let t = drop 2 s in
    let (v, a) = read_field version_key (if starts xml_key t then drop 3 t else t) in
    let (w, b) = read_field encoding_key a in
    let (x, c) = read_field standalone_key b in
    (
      record new_document { version = v; encoding = w; standalone = x },
      drop 2 (until pi_end (skip_whitespace c)).1,
    )

abbrev pub declaration_start : Bytes
declaration_start = b'<' ∷ b'?' ∷ []

unfoldable pub start_document : Bytes → Document × Bytes
unfolding starts parse_declaration
start_document s = if starts declaration_start s then parse_declaration s else (new_document, s)

abbrev at_last : Document → Tree → Error → Bytes → Option Document × Error
at_last d t e [] = (some (record d { root = some t }), e)
at_last d t e (c ∷ cs) = (none, invalid_syntax)

abbrev finish : Document → Left Tree → Option Document × Error
finish d (none, e, r) = (none, e)
finish d (some t, e, r) = at_last d t e (skip_whitespace r)

-- `xml_parse_string`, with `global_last_error`.
abbrev report : Option Document × Error → Option Document × Error
report (none, e) = (none, e)
report (some d, e) = (some d, no_error)

abbrev pub finish_all : Document → Option (Left Tree) → Option (Option Document × Error)
finish_all d none = none
finish_all d (some l) = some (report (finish d l))

-- On fuel, where `none` is out of fuel.
unfoldable pub parse_string : ℕ → Bytes → Option (Option Document × Error)
unfolding start_document parse_element
parse_string f s =
    let (d, r) = start_document (skip_whitespace s) in
    finish_all d (parse_element f 0 no_error (skip_whitespace r))

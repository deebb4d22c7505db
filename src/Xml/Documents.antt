-- ===== src/Xml/Documents.antt =====
-- `xml_parse_string` on documents, and the texts on which it goes wrong.
use net_serve.Prelude.{
  ℕ, zero, suc, ◌+◌, ◌≤◌, ◌<◌, ◌≡◌, ◌∙◌, refl, true, false, none, some, List, [], ◌∷◌, ◌++◌, ◌==◌,
  Bytes, length, leb, arith,
}
use net_serve.Xml.Text.{starts, is_name_byte}
use net_serve.Xml.Attributes.{is_space, ends, skip_whitespace, parse_attributes}
use net_serve.Xml.Loop.{skip_whitespace_idle, parse_attributes_round}
use net_serve.Xml.Pieces.{
  Tree, Trees, tree, no_trees, Error, no_error, invalid_syntax, depth_exceeded, drop, cdata_start,
  find_close, right, parse_start_tag, element_node,
}
use net_serve.Xml.Elements.{
  goes, is_dash, at_mark, at_angle, move, max_depth, parse_element, parse_children, Document,
  new_document, start_document, parse_string, finish_all,
}
use net_serve.Xml.Markup.{Content, markup, render, tree_of, IsName, IsFine, rounds}
use net_serve.Xml.Tags.{parse_name-append, name_byte_cases}
use net_serve.Xml.Reading.{
  parse_element-render, parse_children_goes, parse_children_enters, move-markup,
}

start_document-element :
    (c : ℕ) (s : Bytes)
    → is_name_byte c ≡ true
    → start_document (60 ∷ c ∷ s) ≡ (new_document, 60 ∷ c ∷ s)
unfolding start_document starts
start_document-element c s h = let (a, b, x, y, z) = name_byte_cases c h in ground (arith, y)

parse_string-element :
    (f c : ℕ) (s : Bytes)
    → is_name_byte c ≡ true
    → parse_string f (60 ∷ c ∷ s)
      ≡ finish_all new_document (parse_element f 0 no_error (60 ∷ c ∷ s))
unfolding parse_string skip_whitespace
parse_string-element f c s h = rw (start_document-element c s h) refl

abbrev pub document_of : Tree → Document
document_of t = record new_document { root = some t }

-- A text of one element with attributes, nested elements, texts, comments and CDATA sections, and
-- blanks behind it, is read as the tree that it stands for, on enough fuel. The nesting is at most
-- 100 deep, names are made of name bytes, no value holds a `"`, texts start with no blank and hold no
-- `<`, no two of them are neighbours, comments hold no `-` and CDATA sections no `]`.
pub parse_string-render :
    (n : Bytes) (bs : List (Bytes × Bytes)) (ps : Content) (blanks : Bytes) (f : ℕ)
    → IsFine 0 (markup n bs ps)
    → skip_whitespace blanks ≡ []
    → rounds (markup n bs ps) ≤ f
    → parse_string f (render (markup n bs ps) blanks)
      ≡ some (some (document_of (tree_of (markup n bs ps))), no_error)
unfolding render
parse_string-render [] bs ps blanks f (name, attrs, depth, fine) w le = absurd name
parse_string-render (c ∷ n) bs ps blanks f (name, attrs, depth, fine) w le =
    parse_string-element f c _ name.0
    ∙ rw (parse_element-render (c ∷ n) bs ps f 0 no_error blanks (name, attrs, depth, fine) le, w)
        refl

parse_attributes_stops :
    (f c : ℕ) (r : Bytes)
    → 0 < f
    → ends c ≡ true
    → is_space c ≡ false
    → parse_attributes f [] (c ∷ r) ≡ some ([], c ∷ r)
parse_attributes_stops zero c r lt e sp = ground (arith, lt)
parse_attributes_stops (suc f) c r lt e sp =
    parse_attributes_round f [] (c ∷ r) r c (skip_whitespace_idle c r sp) ∙ rw e refl

-- A start tag whose first end byte is `c`.
parse_start_tag-ends :
    (n : Bytes) (c : ℕ) (r : Bytes)
    → IsName n
    → ends c ≡ true
    → is_name_byte c ≡ false
    → is_space c ≡ false
    → parse_start_tag (60 ∷ (n ++ c ∷ r)) ≡ right (n, element_node n [], c == 47) r
unfolding parse_start_tag drop find_close
parse_start_tag-ends [] c r h e m sp = absurd h
parse_start_tag-ends (b ∷ n) c r h e m sp =
    rw
      (
        parse_name-append (b ∷ n) c r h m,
        parse_attributes_stops (length (c ∷ r) + 1) c r (omega arith) e sp,
        e,
      )
      refl

-- A root that closes itself, as in `<a/>`, is refused, though `xml_pretty_print` writes an element
-- without children so; and a root that is never closed, as in `<a>`, is taken.
pub parse_string_misreads :
    (n : Bytes) (f : ℕ)
    → IsName n
    → (parse_string (suc (suc f)) (60 ∷ (n ++ 47 ∷ 62 ∷ [])) ≡ some (none, invalid_syntax))
      × (parse_string (suc (suc f)) (60 ∷ (n ++ 62 ∷ []))
          ≡ some (some (document_of (tree (element_node n []) no_trees)), no_error))
unfolding parse_element skip_whitespace
parse_string_misreads [] f h = absurd h
parse_string_misreads (c ∷ n) f h = (
  parse_string-element (suc (suc f)) c _ h.0
      ∙ rw (parse_start_tag-ends (c ∷ n) 47 (62 ∷ []) h refl refl refl, parse_element) refl,
  parse_string-element (suc (suc f)) c _ h.0
      ∙ rw (parse_start_tag-ends (c ∷ n) 62 [] h refl refl refl, parse_element) refl,
)

loops_idle :
    (f d c : ℕ) (n cs : Bytes) (us : Trees) (e : Error)
    → is_space c ≡ false
    → move n c cs ≡ goes none (c ∷ cs)
    → parse_children f d n us e (c ∷ cs) ≡ none
unfolding parse_element
loops_idle zero d c n cs us e sp m = refl
loops_idle (suc f) d c n cs us e sp m =
    parse_children_goes f d n us e c cs (c ∷ cs) none sp m ∙ loops_idle f d c n cs us e sp m

parse_element_deep :
    (f d : ℕ) (e : Error) (s : Bytes)
    → max_depth ≤ d
    → parse_element (suc f) d e s ≡ some (none, depth_exceeded, s)
unfolding parse_element
parse_element_deep f d e s le =
    let deep : leb max_depth d ≡ true = ground (arith, le) in rw (deep, parse_element) refl

no_element :
    (d c : ℕ) (n s : Bytes) (us : Trees) (e : Error)
    → is_name_byte c ≡ true
    → parse_children (suc zero) d n us e (60 ∷ c ∷ s) ≡ none
unfolding parse_element
no_element d c n s us e h =
    rw (skip_whitespace_idle 60 (c ∷ s) refl, move-markup n s c h, parse_children) refl

loops_deep :
    (f d c : ℕ) (n s : Bytes) (us : Trees) (e : Error)
    → is_name_byte c ≡ true
    → max_depth ≤ d
    → parse_children f d n us e (60 ∷ c ∷ s) ≡ none
unfolding parse_element
loops_deep zero d c n s us e h le = refl
loops_deep (suc zero) d c n s us e h le = no_element d c n s us e h
loops_deep (suc (suc f)) d c n s us e h le =
    parse_children_enters (suc f) d n us e depth_exceeded 60 (c ∷ s) (60 ∷ c ∷ s) (60 ∷ c ∷ s) none
      refl (move-markup n s c h) (parse_element_deep f d e (60 ∷ c ∷ s) le)
    ∙ loops_deep (suc f) d c n s us depth_exceeded h le

move-mark :
    (n x : Bytes)
    → is_dash x ≡ false
    → starts cdata_start (33 ∷ x) ≡ false
    → move n 60 (33 ∷ x) ≡ goes none (60 ∷ 33 ∷ x)
unfolding move at_angle at_mark
move-mark n x a b = rw (a, b) refl

move-last : (n : Bytes) → move n 60 [] ≡ goes none (60 ∷ [])
unfolding move at_angle
move-last n = refl

-- The loop over the children never ends at a `<` that ends the text, at a `<!` that starts neither a
-- comment nor a CDATA section, at any depth `d`, and at an element that is nested more than 100 deep,
-- which is behind a depth `deep` of 100 or more.
pub parse_children_loops :
    (f d deep c : ℕ) (n s x : Bytes) (us : Trees) (e : Error)
    → is_name_byte c ≡ true
    → max_depth ≤ deep
    → is_dash x ≡ false
    → starts cdata_start (33 ∷ x) ≡ false
    → (parse_children f d n us e (60 ∷ []) ≡ none)
      × (parse_children f d n us e (60 ∷ 33 ∷ x) ≡ none)
      × (parse_children f deep n us e (60 ∷ c ∷ s) ≡ none)
parse_children_loops f d deep c n s x us e h le a b = (
  loops_idle f d 60 n [] us e refl (move-last n),
  loops_idle f d 60 n (33 ∷ x) us e refl (move-mark n x a b),
  loops_deep f deep c n s us e h le,
)

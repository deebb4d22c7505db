-- ===== src/Xml/Reading.antt =====
-- The parser reads back what a text of elements stands for.
use net_serve.Prelude.{
  ℕ, zero, suc, ◌+◌, ◌≤◌, ◌<◌, ◌≡◌, ◌≢◌, ◌∙◌, ap, sym, refl, true, false, Option, none, some, List,
  [], ◌∷◌, ◌++◌, Bytes, All, leb, arith,
}
use net_serve.Xml.Text.{starts, is_name_byte}
use net_serve.Xml.Attributes.{Node, is_space, text, comment, cdata}
use net_serve.Xml.Loop.{skip_whitespace_idle}
use net_serve.Xml.Pieces.{
  Tree, Trees, no_trees, cons_tree, leaf, Error, drop, parse_text, nonempty_text, comment_end,
  cdata_start, cdata_end, parse_comment, parse_cdata, right, parse_start_tag, element_node,
}
use net_serve.Xml.Elements.{
  add_last, add_some, leaves, goes, enters, at_mark, at_angle, move, Left, max_depth, parse_element,
  parse_children, close_loop, is_closed,
}
use net_serve.Xml.Markup.{
  Content, words, remark, raw, markup, nothing, piece, closing, render, render_content,
  render_attributes, tree_of, trees_of, IsName, IsWords, NoWords, IsFine, AreFine, rounds,
  all_rounds, attributes_of,
}
use net_serve.Xml.Tags.{
  until-append, parse_start_tag-render_attributes, parse_end_tag-closing, name_byte_cases,
}

unfoldable append : Trees → Trees → Trees
append no_trees ts = ts
append (cons_tree u us) ts = cons_tree u (append us ts)

append-add_last :
    (us ts : Trees) (t : Tree) → append (add_last us t) ts ≡ append us (cons_tree t ts)
unfolding append add_last
append-add_last no_trees ts t = refl
append-add_last (cons_tree u us) ts t = ap (cons_tree u) (append-add_last us ts t)

append-no_trees : (us : Trees) → append us no_trees ≡ us
unfolding append
append-no_trees no_trees = refl
append-no_trees (cons_tree u us) = ap (cons_tree u) (append-no_trees us)

move-closing : (n r : Bytes) → IsName n → move n 60 (b'/' ∷ (n ++ 62 ∷ r)) ≡ leaves r
unfolding move at_angle
move-closing n r h = rw (parse_end_tag-closing n r h) refl

parse_text-append :
    (c : ℕ) (t r : Bytes)
    → All (λ b. b ≢ 60) (c ∷ t)
    → parse_text (c ∷ (t ++ 60 ∷ r)) ≡ (some (leaf text none (c ∷ t)), 60 ∷ r)
unfolding parse_text
parse_text-append c t r h = ap nonempty_text (until-append 60 [] (c ∷ t) r h)

move-words :
    (n : Bytes) (c : ℕ) (t r : Bytes)
    → All (λ b. b ≢ 60) (c ∷ t)
    → move n c (t ++ 60 ∷ r) ≡ goes (some (leaf text none (c ∷ t))) (60 ∷ r)
unfolding move
move-words n c t r h = ground (arith, h.0, parse_text-append c t r h)

move-remark :
    (n t r : Bytes)
    → All (λ b. b ≢ b'-') t
    → move n 60 (b'!' ∷ b'-' ∷ b'-' ∷ (t ++ (comment_end ++ r)))
      ≡ goes (some (leaf comment none t)) r
unfolding move at_angle at_mark parse_comment drop
move-remark n t r h = rw (until-append b'-' (b'-' ∷ b'>' ∷ []) t r h) refl

move-raw :
    (n t r : Bytes)
    → All (λ b. b ≢ 93) t
    → move n 60 (cdata_start ++ (t ++ (cdata_end ++ r))) ≡ goes (some (leaf cdata none t)) r
unfolding move at_angle at_mark parse_cdata drop starts
move-raw n t r h = rw (until-append 93 (93 ∷ b'>' ∷ []) t r h) refl

pub move-markup :
    (n s : Bytes) (c : ℕ) → is_name_byte c ≡ true → move n 60 (c ∷ s) ≡ enters (60 ∷ c ∷ s)
unfolding move at_angle
move-markup n s c h = let (a, b, x, y, z) = name_byte_cases c h in ground (arith, x, y, z)

pub parse_children_goes :
    (f d : ℕ) (n : Bytes) (us : Trees) (e : Error) (c : ℕ) (cs r : Bytes) (t : Option Tree)
    → is_space c ≡ false
    → move n c cs ≡ goes t r
    → parse_children (suc f) d n us e (c ∷ cs) ≡ parse_children f d n (add_some us t) e r
unfolding parse_element
parse_children_goes f d n us e c cs r t sp m =
    rw (skip_whitespace_idle c cs sp, m, parse_children) refl

parse_children_leaves :
    (f d : ℕ) (n : Bytes) (us : Trees) (e : Error) (c : ℕ) (cs r : Bytes)
    → is_space c ≡ false
    → move n c cs ≡ leaves r
    → parse_children (suc f) d n us e (c ∷ cs) ≡ some (some us, e, r)
unfolding parse_element
parse_children_leaves f d n us e c cs r sp m =
    rw (skip_whitespace_idle c cs sp, m, parse_children) refl

pub parse_children_enters :
    (f d : ℕ) (n : Bytes) (us : Trees) (e e' : Error) (c : ℕ) (cs s r : Bytes) (t : Option Tree)
    → is_space c ≡ false
    → move n c cs ≡ enters s
    → parse_element f d e s ≡ some (t, e', r)
    → parse_children (suc f) d n us e (c ∷ cs) ≡ parse_children f d n (add_some us t) e' r
unfolding parse_element
parse_children_enters f d n us e e' c cs s r t sp m p =
    rw (skip_whitespace_idle c cs sp, m, p, parse_children) refl

is_closed-false : (r : Bytes) → is_closed false r ≡ false
is_closed-false [] = refl
is_closed-false (c ∷ cs) = refl

pub parse_element_opens :
    (f d : ℕ) (n : Bytes) (x : Node) (e : Error) (s r : Bytes)
    → d < max_depth
    → parse_start_tag s ≡ right (n, x, false) r
    → parse_element (suc f) d e s ≡ close_loop x (parse_children f (d + 1) n no_trees e r)
unfolding parse_element
parse_element_opens f d n x e s r lt h =
    let shallow : leb max_depth d ≡ false = ground (arith, lt) in
    rw (shallow, h, is_closed-false r, parse_element) refl

-- Behind a text stands a `<`.
starts_angle :
    (ps : Content) (q : Bytes) → NoWords ps → (q' : Bytes) × (render_content ps (60 ∷ q) ≡ 60 ∷ q')
unfolding render
starts_angle nothing q w = (q, refl)
starts_angle (piece (words t) ps) q w = absurd w
starts_angle (piece (remark t) ps) q w = (_, refl)
starts_angle (piece (raw t) ps) q w = (_, refl)
starts_angle (piece (markup n bs ps') ps) q w = (_, refl)

next_words :
    (f d : ℕ) (n t q : Bytes) (us : Trees) (e : Error) (ps : Content)
    → IsWords t
    → NoWords ps
    → parse_children (suc f) d n us e (t ++ render_content ps (60 ∷ q))
      ≡ parse_children f d n (add_last us (leaf text none t)) e (render_content ps (60 ∷ q))
next_words f d n [] q us e ps h w = absurd h
next_words f d n (c ∷ t) q us e ps (sp, h) w =
    let (q', a) = starts_angle ps q w in
    rw a (
      parse_children_goes f d n us e c (t ++ 60 ∷ q') (60 ∷ q') (some (leaf text none (c ∷ t))) sp
        (move-words n c t q' h))

enter_markup :
    (f d : ℕ) (n m s r : Bytes) (us : Trees) (e : Error) (t : Tree)
    → IsName m
    → parse_element f d e (60 ∷ (m ++ s)) ≡ some (some t, e, r)
    → parse_children (suc f) d n us e (60 ∷ (m ++ s)) ≡ parse_children f d n (add_last us t) e r
enter_markup f d n [] s r us e t h p = absurd h
enter_markup f d n (c ∷ m) s r us e t h p =
    parse_children_enters f d n us e e 60 (c ∷ (m ++ s)) (60 ∷ c ∷ (m ++ s)) r (some t) refl
      (move-markup n (m ++ s) c h.0) p

abbrev with_children : Trees → Error → Bytes → Option (Left Trees)
with_children us e r = some (some us, e, r)

added :
    (us ts : Trees) (t : Tree) (e : Error) (r : Bytes)
    → with_children (append (add_last us t) ts) e r ≡ with_children (append us (cons_tree t ts)) e r
added us ts t e r = ap (λ vs. with_children vs e r) (append-add_last us ts t)

all_rounds-ge : (ps : Content) → 1 ≤ all_rounds ps
unfolding rounds
all_rounds-ge nothing = omega arith
all_rounds-ge (piece p ps) = omega arith

mutual
  unfolding append render tree_of rounds

  pub parse_element-render :
      (n : Bytes) (bs : List (Bytes × Bytes)) (ps : Content) (f d : ℕ) (e : Error) (r : Bytes)
      → IsFine d (markup n bs ps)
      → rounds (markup n bs ps) ≤ f
      → parse_element f d e (render (markup n bs ps) r)
        ≡ some (some (tree_of (markup n bs ps)), e, r)
  parse_element-render n bs ps zero d e r h le = ground (arith, le)
  parse_element-render n bs ps (suc f) d e r (name, attrs, lt, fine) le =
      let inner = render_content ps (closing n r) in
      parse_element_opens f d n (element_node n (attributes_of bs [])) e (render (markup n bs ps) r)
        inner lt (parse_start_tag-render_attributes n bs inner name attrs)
      ∙ ap (close_loop (element_node n (attributes_of bs [])))
          (parse_children-render_content ps f (d + 1) n no_trees e r name fine (omega (arith, le)))

  parse_children-render_content :
      (ps : Content) (f d : ℕ) (n : Bytes) (us : Trees) (e : Error) (r : Bytes)
      → IsName n
      → AreFine d ps
      → all_rounds ps ≤ f
      → parse_children f d n us e (render_content ps (closing n r))
        ≡ some (some (append us (trees_of ps)), e, r)
  parse_children-render_content ps zero d n us e r name h le = ground (arith, le, all_rounds-ge ps)
  parse_children-render_content nothing (suc f) d n us e r name h le =
      parse_children_leaves f d n us e 60 (b'/' ∷ (n ++ 62 ∷ r)) r refl (move-closing n r name)
      ∙ ap (λ ts. some (some ts, e, r)) (sym (append-no_trees us))
  parse_children-render_content (piece (words t) ps) (suc f) d n us e r name (h, w, hs) le =
      next_words f d n t (b'/' ∷ (n ++ 62 ∷ r)) us e ps h w
      ∙ parse_children-render_content ps f d n (add_last us (tree_of (words t))) e r name hs
          (omega (arith, le))
      ∙ added us (trees_of ps) (tree_of (words t)) e r
  parse_children-render_content (piece (remark t) ps) (suc f) d n us e r name (h, w, hs) le =
      let rest = render_content ps (closing n r) in
      parse_children_goes f d n us e 60 (b'!' ∷ b'-' ∷ b'-' ∷ (t ++ (comment_end ++ rest))) rest
        (some (tree_of (remark t))) refl (move-remark n t rest h)
      ∙ parse_children-render_content ps f d n (add_last us (tree_of (remark t))) e r name hs
          (omega (arith, le))
      ∙ added us (trees_of ps) (tree_of (remark t)) e r
  parse_children-render_content (piece (raw t) ps) (suc f) d n us e r name (h, w, hs) le =
      let rest = render_content ps (closing n r) in
      parse_children_goes f d n us e 60 (cdata_start ++ (t ++ (cdata_end ++ rest))) rest
        (some (tree_of (raw t))) refl (move-raw n t rest h)
      ∙ parse_children-render_content ps f d n (add_last us (tree_of (raw t))) e r name hs
          (omega (arith, le))
      ∙ added us (trees_of ps) (tree_of (raw t)) e r
  parse_children-render_content (piece (markup m bs ps') ps) (suc f) d n us e r name (h, w, hs) le =
      let rest = render_content ps (closing n r) in
      let t = tree_of (markup m bs ps') in
      enter_markup f d n m (render_attributes bs (62 ∷ render_content ps' (closing m rest))) rest us
        e t h.0 (parse_element-render m bs ps' f d e rest h (omega (arith, le)))
      ∙ parse_children-render_content ps f d n (add_last us t) e r name hs (omega (arith, le))
      ∙ added us (trees_of ps) t e r

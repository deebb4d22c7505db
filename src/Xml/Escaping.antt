-- ===== src/Xml/Escaping.antt =====
-- Escaping and unescaping of XML strings.
use net_serve.Prelude.{
  ℕ, zero, suc, ◌+◌, ◌≤◌, ◌≡◌, ◌≢◌, ◌∙◌, ap, refl, [], ◌∷◌, ◌++◌, Bytes, length, length-append,
  arith, ◌⊎◌, inl, inr,
}
use net_serve.Xml.Text.{
  escape_byte, escape, added_size, added_sizes, escaped_len, starts, read_entity, unescape_loop,
  unescape,
}

byte_cases :
    (c : ℕ)
    → (c ≡ 38)
      ⊎ ((c ≡ 60) ⊎ ((c ≡ 62) ⊎ ((c ≡ 34) ⊎ ((c ≡ 39) ⊎ ((escape_byte c ≡ c ∷ []) × (c ≢ 38))))))
unfolding escape_byte
byte_cases c = ground arith

unescape_loop-escape_byte :
    (c : ℕ) (s : Bytes) → unescape_loop 0 (escape_byte c ++ s) ≡ c ∷ unescape_loop 0 s
unfolding unescape_loop escape_byte read_entity starts
unescape_loop-escape_byte c s = elim (byte_cases c) [
  | inl e ↦ rw e refl
  | inr (inl e) ↦ rw e refl
  | inr (inr (inl e)) ↦ rw e refl
  | inr (inr (inr (inl e))) ↦ rw e refl
  | inr (inr (inr (inr (inl e)))) ↦ rw e refl
  | inr (inr (inr (inr (inr (e, n))))) ↦ rw e (ground arith)
]

unescape_loop-escape : (s : Bytes) → unescape_loop 0 (escape s) ≡ s
unfolding escape unescape_loop
unescape_loop-escape [] = refl
unescape_loop-escape (c ∷ cs) =
    unescape_loop-escape_byte c (escape cs) ∙ ap (λ t. c ∷ t) (unescape_loop-escape cs)

length-escape_byte : (c : ℕ) → length (escape_byte c) ≡ added_size c + 1
unfolding escape_byte
length-escape_byte c = ground arith

length-escape : (s : Bytes) → length (escape s) ≡ length s + added_sizes s
unfolding escape added_sizes
length-escape [] = refl
length-escape (c ∷ cs) =
    omega (arith, length-append (escape_byte c) (escape cs), length-escape_byte c, length-escape cs)

length-unescape_loop-le : (k : ℕ) (s : Bytes) → length (unescape_loop k s) ≤ length s
unfolding unescape_loop
length-unescape_loop-le k [] = omega arith
length-unescape_loop-le (suc k) (c ∷ cs) = omega (arith, length-unescape_loop-le k cs)
length-unescape_loop-le zero (c ∷ cs) =
    omega (arith, length-unescape_loop-le (read_entity c cs).1 cs)

-- `xml_unescape_string` gives back what `xml_escape_string` got. The escaped text has the length
-- that was computed for its allocation, and unescaping writes no more bytes than it reads.
pub unescape-escape :
    (s t : Bytes)
    → (unescape (escape s) ≡ s)
      × (length (escape s) ≡ escaped_len s)
      × (length (unescape t) ≤ length t)
unfolding unescape escaped_len
unescape-escape s t = (unescape_loop-escape s, length-escape s, length-unescape_loop-le 0 t)

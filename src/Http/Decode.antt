-- ===== src/Http/Decode.antt =====
-- What `url_decode` makes of encoded strings.
use net_serve.Prelude.{
  ℕ, ◌+◌, ◌*◌, ◌/◌, ◌%◌, ◌≤◌, ◌<◌, ◌≡◌, ◌≢◌, ◌∙◌, refl, Bool, true, ◌&&◌, ◌||◌, some, [], ◌∷◌, ◌==◌,
  leb, ltb, Bytes, length, if◌then◌else◌, arith, All, Bool-cases, Option-cases, inl, inr,
}
use net_serve.Config.Text.{before}
use net_serve.Http.Url.{HexReader, percent, decode, url_decode, plain}

-- The unreserved characters of RFC 3986: letters, digits and `-._~`.
abbrev is_unreserved : ℕ → Bool
is_unreserved c =
    (leb b'A' c && leb c b'Z')
    || (leb b'a' c && leb c b'z')
    || (leb b'0' c && leb c b'9')
    || c == b'-'
    || c == b'.'
    || c == b'_'
    || c == b'~'

abbrev pub hex_digit : ℕ → ℕ
hex_digit n = if ltb n 10 then b'0' + n else 55 + n

-- Percent-encoding: an unreserved byte stands for itself, any other is a `%` and two digits.
unfoldable pub encode : Bytes → Bytes
encode [] = []
encode (c ∷ cs) =
    let rest = encode cs in
    if is_unreserved c then c ∷ rest else percent ∷ hex_digit (c / 16) ∷ hex_digit (c % 16) ∷ rest

-- `sscanf` with "%x" reads two digits as their number.
abbrev pub ReadsHex : HexReader → Type 0
ReadsHex hex = (a b : ℕ) → a < 16 → b < 16 → hex (hex_digit a) (hex_digit b) ≡ some (a * 16 + b)

decode_plain :
    (hex : HexReader) (c : ℕ) (cs : Bytes)
    → c ≢ percent
    → decode hex (c ∷ cs) ≡ plain c ∷ decode hex cs
unfolding decode
decode_plain hex c [] h = refl
decode_plain hex c (d ∷ []) h = refl
decode_plain hex c (d ∷ e ∷ cs) h = ground arith

decode_escape :
    (hex : HexReader) (d e v : ℕ) (cs : Bytes)
    → hex d e ≡ some v
    → decode hex (percent ∷ d ∷ e ∷ cs) ≡ (v % 256) ∷ decode hex cs
unfolding decode
decode_escape hex d e v cs h = rw h refl

hex_number : (c : ℕ) → c < 256 → (c / 16 * 16 + c % 16) % 256 ≡ c
hex_number c h = omega arith

-- No byte is NUL.
abbrev pub IsText : Bytes → Type 0
IsText = All (λ c. (c ≢ 0) × (c < 256))

unreserved_plain : (c : ℕ) → is_unreserved c ≡ true → (c ≢ percent) × (plain c ≡ c)
unreserved_plain c h = (λ e. ground arith, ground arith)

decode-encode :
    (hex : HexReader) → ReadsHex hex → (s : Bytes) → IsText s → decode hex (encode s) ≡ s
unfolding encode decode
decode-encode hex r [] h = refl
decode-encode hex r (c ∷ cs) h = elim (Bool-cases (is_unreserved c)) [
  | inl e ↦
      let (ne, p) = unreserved_plain c e in
      rw e (decode_plain hex c (encode cs) ne ∙ rw (p, decode-encode hex r cs h.1) refl)
  | inr e ↦
      let back = r (c / 16) (c % 16) (omega (arith, h.0.1)) (omega arith) in
      rw e (
        decode_escape hex (hex_digit (c / 16)) (hex_digit (c % 16)) (c / 16 * 16 + c % 16)
          (encode cs) back
        ∙ rw (hex_number c h.0.1, decode-encode hex r cs h.1) refl)
]

before-IsText : (s : Bytes) → IsText s → before 0 s ≡ s
unfolding before
before-IsText [] h = refl
before-IsText (c ∷ cs) h = ground (arith, before-IsText cs h.1)

-- Decoding what was percent-encoded, with any choice of the library's digits that reads two
-- hexadecimal digits right, gives back each string of bytes without NUL.
pub url_decode-encode :
    (hex : HexReader) → ReadsHex hex → (s : Bytes) → IsText s → url_decode hex (encode s) ≡ s
unfolding url_decode
url_decode-encode hex r s h = rw (decode-encode hex r s h) (before-IsText s h)

length-before-le : (s : Bytes) → length (before 0 s) ≤ length s
unfolding before
length-before-le [] = omega arith
length-before-le (c ∷ cs) = ground (arith, length-before-le cs)

length-decode-le : (hex : HexReader) (s : Bytes) → length (decode hex s) ≤ length s
unfolding decode
length-decode-le hex [] = omega arith
length-decode-le hex (c ∷ []) = omega arith
length-decode-le hex (c ∷ d ∷ []) = omega arith
length-decode-le hex (c ∷ d ∷ e ∷ cs) = elim (Option-cases (hex d e)) [
  | inl h ↦ ground (arith, h, length-decode-le hex (d ∷ e ∷ cs), length-decode-le hex cs)
  | inr (v, h) ↦ ground (arith, h, length-decode-le hex (d ∷ e ∷ cs), length-decode-le hex cs)
]

-- A decoded string with its NUL fits the buffer, which is as long as the encoded one with its NUL.
pub length-url_decode-le : (hex : HexReader) (s : Bytes) → length (url_decode hex s) ≤ length s
unfolding url_decode
length-url_decode-le hex s = omega (arith, length-before-le (decode hex s), length-decode-le hex s)

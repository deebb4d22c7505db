-- ===== src/Xml/Text.antt =====
-- Strings of src/xml/xml_parser_module.c: escaping, and the tests of names and values.
use net_serve.Prelude.{
  ℕ, zero, suc, ◌+◌, Bool, true, false, not, ◌&&◌, ◌||◌, [], ◌∷◌, ◌++◌, ◌==◌, Bytes, leb, length,
  if◌then◌else◌,
}

abbrev pub amp : Bytes
amp = b'a' ∷ b'm' ∷ b'p' ∷ b';' ∷ []

abbrev pub lt : Bytes
lt = b'l' ∷ b't' ∷ b';' ∷ []

abbrev pub gt : Bytes
gt = b'g' ∷ b't' ∷ b';' ∷ []

abbrev pub quot : Bytes
quot = b'q' ∷ b'u' ∷ b'o' ∷ b't' ∷ b';' ∷ []

abbrev pub apos : Bytes
apos = b'a' ∷ b'p' ∷ b'o' ∷ b's' ∷ b';' ∷ []

unfoldable pub escape_byte : ℕ → Bytes
escape_byte c =
    if c == 38
    then 38 ∷ amp
    else if c == 60
    then 38 ∷ lt
    else if c == 62
    then 38 ∷ gt
    else if c == 34
    then 38 ∷ quot
    else if c == 39
    then 38 ∷ apos
    else c ∷ []

-- The text that `escape_xml_string` writes.
unfoldable pub escape : Bytes → Bytes
unfolding escape_byte
escape [] = []
escape (c ∷ cs) = escape_byte c ++ escape cs

abbrev pub added_size : ℕ → ℕ
added_size c =
    if c == 38
    then 4
    else if c == 60
    then 3
    else if c == 62
    then 3
    else if c == 34
    then 5
    else if c == 39
    then 5
    else 0

unfoldable pub added_sizes : Bytes → ℕ
added_sizes [] = 0
added_sizes (c ∷ cs) = added_size c + added_sizes cs

-- `escaped_len`, for the allocation.
unfoldable pub escaped_len : Bytes → ℕ
unfolding added_sizes
escaped_len s = length s + added_sizes s

unfoldable pub starts : Bytes → Bytes → Bool
starts [] s = true
starts (a ∷ p) [] = false
starts (a ∷ p) (c ∷ cs) = let rest = starts p cs in if a == c then rest else false

-- The byte that a round of the loop writes, and how many of the bytes behind it the loop skips.
unfoldable pub read_entity : ℕ → Bytes → ℕ × ℕ
unfolding starts
read_entity c cs =
    if c == 38
    then (if starts amp cs
        then (38, 4)
        else if starts lt cs
        then (60, 3)
        else if starts gt cs
        then (62, 3)
        else if starts quot cs
        then (34, 5)
        else if starts apos cs
        then (39, 5)
        else (c, 0))
    else (c, 0)

unfoldable pub unescape_loop : ℕ → Bytes → Bytes
unescape_loop k [] = []
unescape_loop (suc k) (c ∷ cs) = unescape_loop k cs
unescape_loop zero (c ∷ cs) = (read_entity c cs).0 ∷ unescape_loop (read_entity c cs).1 cs

-- `unescape_xml_string`.
unfoldable pub unescape : Bytes → Bytes
unfolding unescape_loop
unescape s = unescape_loop 0 s

abbrev between : ℕ → ℕ → ℕ → Bool
between a b c = leb a c && leb c b

abbrev pub is_alpha : ℕ → Bool
is_alpha c = between b'a' b'z' c || between b'A' b'Z' c

-- What a name may go on with.
abbrev pub is_name_byte : ℕ → Bool
is_name_byte c =
    is_alpha c || (between b'0' b'9' c || (c == 95 || (c == 45 || (c == 58 || c == 46))))

unfoldable pub all_name_bytes : Bytes → Bool
all_name_bytes [] = true
all_name_bytes (c ∷ cs) = is_name_byte c && all_name_bytes cs

unfoldable pub is_valid_xml_name : Bytes → Bool
unfolding all_name_bytes
is_valid_xml_name [] = false
is_valid_xml_name (c ∷ cs) = (is_alpha c || c == 95) && all_name_bytes cs

unfoldable pub is_valid_attribute_value : Bytes → Bool
is_valid_attribute_value [] = true
is_valid_attribute_value (c ∷ cs) = not (c == 60 || c == 38) && is_valid_attribute_value cs

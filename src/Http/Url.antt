-- ===== src/Http/Url.antt =====
-- `url_decode` and `parse_url`, where memory suffices.
use net_serve.Prelude.{ℕ, ◌%◌, Option, none, some, [], ◌∷◌, ◌==◌, Bytes, if◌then◌else◌}
use net_serve.Config.Text.{before, after, has_char, c_string}

abbrev pub percent : ℕ
percent = b'%'

-- What `sscanf` with "%x" reads of a string of two bytes; `none` if it reads nothing.
abbrev pub HexReader : Type 0
HexReader = ℕ → ℕ → Option ℕ

abbrev pub cons_or : Option ℕ → Bytes → Bytes → Bytes
cons_or (some v) skipped kept = (v % 256) ∷ skipped
cons_or none skipped kept = percent ∷ kept

abbrev pub plain : ℕ → ℕ
plain c = if c == b'+' then b' ' else c

-- The loop of `url_decode`.
unfoldable pub decode : HexReader → Bytes → Bytes
decode hex [] = []
decode hex (c ∷ []) = plain c ∷ []
decode hex (c ∷ d ∷ []) = plain c ∷ plain d ∷ []
decode hex (c ∷ d ∷ e ∷ cs) =
    let skipped = decode hex cs in
    let kept = decode hex (d ∷ e ∷ cs) in
    if c == percent then cons_or (hex d e) skipped kept else plain c ∷ kept

-- As a C string: a decoded NUL ends it.
unfoldable pub url_decode : HexReader → Bytes → Bytes
unfolding decode
url_decode hex s = c_string (decode hex s)

-- The path and the query string behind the first `?`.
unfoldable pub parse_url : HexReader → Bytes → Bytes × Option Bytes
unfolding url_decode
parse_url hex url =
    if has_char b'?' url
    then (url_decode hex (before b'?' url), some (url_decode hex (after b'?' url)))
    else (url_decode hex url, none)

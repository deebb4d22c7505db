-- ===== src/Json/Text.antt =====
-- Strings of JSON: the escaping in `json_stringify`, `parse_string` and `unescape_string`.
-- The input stands from the parser's `position` on; `position` is what was read of it.
use net_serve.Prelude.{
  ℕ, ◌+◌, ◌*◌, Bool, true, false, not, ◌&&◌, Option, none, some, [], ◌∷◌, ◌++◌, ◌==◌, length, Bytes,
  if◌then◌else◌,
}
use net_serve.Config.Text.{c_string}

pub data Error : Type 0 where
  no_error invalid_syntax unexpected_token unterminated_string invalid_escape : Error
  number_too_large string_too_long depth_exceeded memory_allocation file_io : Error

abbrev pub quote : ℕ
quote = 34

abbrev pub backslash : ℕ
backslash = 92

-- What is written for one byte of a string.
unfoldable pub escape_byte : ℕ → Bytes
escape_byte c =
    if c == quote
    then backslash ∷ quote ∷ []
    else if c == backslash
    then backslash ∷ backslash ∷ []
    else if c == 8
    then backslash ∷ b'b' ∷ []
    else if c == 12
    then backslash ∷ b'f' ∷ []
    else if c == b'\n'
    then backslash ∷ b'n' ∷ []
    else if c == b'\r'
    then backslash ∷ b'r' ∷ []
    else if c == b'\t'
    then backslash ∷ b't' ∷ []
    else c ∷ []

unfoldable pub escape : Bytes → Bytes
unfolding escape_byte
escape [] = []
escape (c ∷ cs) = escape_byte c ++ escape cs

-- `json_stringify` on a string.
unfoldable pub stringify_string : Bytes → Bytes
stringify_string s = quote ∷ (escape s ++ quote ∷ [])

-- The size that it asks `malloc` for.
unfoldable pub escaped_size : Bytes → ℕ
escaped_size s = length s * 2 + 3

-- What stands for the byte behind a backslash.
unfoldable pub unescape_byte : ℕ → ℕ
unescape_byte c =
    if c == b'b'
    then 8
    else if c == b'f'
    then 12
    else if c == b'n'
    then b'\n'
    else if c == b'r'
    then b'\r'
    else if c == b't'
    then b'\t'
    else c

-- The loop of `unescape_string`. The flag says that the byte in front was a backslash not yet
-- copied; one at the end is.
unfoldable pub unescape : Bool → Bytes → Bytes
unfolding unescape_byte
unescape false [] = []
unescape true [] = backslash ∷ []
unescape true (c ∷ cs) = unescape_byte c ∷ unescape false cs
unescape false (c ∷ cs) =
    let rest = unescape (c == backslash) cs in if c == backslash then rest else c ∷ rest

-- The bytes up to the closing quote and those behind it, or the error.
pub data Scan : Type 0 where
  stopped : Error → Scan
  closed : Bytes → Bytes → Scan

abbrev pub keep : ℕ → Scan → Scan
keep c (stopped e) = stopped e
keep c (closed s rest) = closed (c ∷ s) rest

-- The loop of `parse_string`. The flag says that the byte in front was a backslash.
unfoldable pub scan : Bool → Bytes → Scan
scan true [] = stopped invalid_escape
scan false [] = stopped unterminated_string
scan escaped (c ∷ cs) =
    let rest = scan (not escaped && c == backslash) cs in
    if not escaped && c == quote then closed [] cs else keep c rest

-- `*result` may be NULL although 0 is returned: the answer of `unescape_string`.
pub data StringResult : Type 0 where
  failed : Error → StringResult
  parsed : Option Bytes → Bytes → StringResult

-- `copy_ok` and `result_ok` are what the two calls of `malloc` answer.
unfoldable pub parse_string : Bool → Bool → Bytes → StringResult
unfolding unescape scan
parse_string copy_ok result_ok [] = failed unterminated_string
parse_string copy_ok result_ok (c ∷ cs) = elim (scan false cs) [
  | stopped e ↦ failed e
  | closed s rest ↦
      (if copy_ok
        then parsed (if result_ok then some (unescape false (c_string s)) else none) rest
        else failed memory_allocation)
]

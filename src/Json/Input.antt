-- ===== src/Json/Input.antt =====
-- The bytes between the values of JSON: what begins a value, a container or a pair, and what ends it.
use net_serve.Prelude.{
  ℕ, true, ◌&&◌, ◌||◌, Option, none, some, [], ◌∷◌, ◌==◌, leb, Bytes, if◌then◌else◌,
}
use net_serve.Config.Text.{skip_space}
use net_serve.Json.Text.{
  Error, unexpected_token, unterminated_string, quote, parse_string, StringResult,
}

-- What the first byte of a value says.
pub data Lead : Type 0 where
  brace bracket quoted truth nothing numeric other : Lead

unfoldable pub lead : ℕ → Lead
lead c =
    if c == b'{'
    then brace
    else if c == b'['
    then bracket
    else if c == quote
    then quoted
    else if c == b't' || c == b'f'
    then truth
    else if c == b'n'
    then nothing
    else if c == b'-' || (leb b'0' c && leb c b'9')
    then numeric
    else other

-- The rest of the input behind a word in front of it.
unfoldable pub behind : Bytes → Bytes → Option Bytes
behind [] s = some s
behind (w ∷ ws) [] = none
behind (w ∷ ws) (c ∷ cs) = if c == w then behind ws cs else none

-- What stands behind an element: the closing byte, a comma, or something else.
pub data After : Type 0 where
  ends : Bytes → After
  goes_on : Bytes → After
  bad : After

abbrev pub after_byte : ℕ → Bytes → After
after_byte close [] = bad
after_byte close (c ∷ cs) = if c == close then ends cs else if c == b',' then goes_on cs else bad

unfoldable pub after_item : ℕ → Bytes → After
unfolding skip_space
after_item close s = after_byte close (skip_space s)

-- The key of a pair with what stands behind its colon, or the error.
pub data Key : Type 0 where
  no_key : Error → Key
  key : Option Bytes → Bytes → Key

abbrev pub colon : Option Bytes → Bytes → Key
colon k [] = no_key unexpected_token
colon k (c ∷ cs) = if c == b':' then key k cs else no_key unexpected_token

abbrev pub with_colon : StringResult → Key
with_colon (StringResult.failed e) = no_key e
with_colon (StringResult.parsed k rest) = colon k (skip_space rest)

abbrev pub quoted_key : Bytes → Key
quoted_key [] = no_key unterminated_string
quoted_key (c ∷ cs) =
    if c == quote then with_colon (parse_string true true (c ∷ cs)) else no_key unexpected_token

unfoldable pub parse_key : Bytes → Key
unfolding skip_space parse_string
parse_key s = quoted_key (skip_space s)

abbrev max_depth : ℕ
max_depth = 100

abbrev pub tail : Bytes → Bytes
tail [] = []
tail (c ∷ cs) = cs

-- How an array or object begins.
pub data Enter : Type 0 where
  too_deep : Enter
  empty : Bytes → Enter
  opened : Bytes → Enter

abbrev pub after_opening : ℕ → Bytes → Enter
after_opening close [] = opened []
after_opening close (c ∷ cs) = if c == close then empty cs else opened (c ∷ cs)

unfoldable pub enter : ℕ → ℕ → Bytes → Enter
unfolding skip_space
enter depth close s = if leb max_depth depth then too_deep else after_opening close (skip_space s)

-- ===== src/Http/Request.antt =====
-- `parse_http_request`, where memory suffices. The searches of the code go on to a NUL and do not look
-- at `length`, so the input of the model is the string at `data` up to its first NUL. That is what was
-- read, and behind it what is left in the buffer of earlier reads, which `on_client_read` does not
-- clear; that there is a NUL is an assumption.
use net_serve.Prelude.{
  ℕ, ◌+◌, Bool, true, false, ◌&&◌, ◌||◌, Option, none, some, List, [], ◌∷◌, ◌==◌, leb, Bytes,
  str_eq, length, if◌then◌else◌,
}
use net_serve.Config.Text.{before, after, has_char, strtok, skip_char}
use net_serve.Http.Url.{HexReader, parse_url}

pub data Method : Type 0 where
  get post put delete patch head options unknown : Method

-- `http_method_to_string`.
unfoldable pub method_to_string : Method → Bytes
method_to_string get = b'G' ∷ b'E' ∷ b'T' ∷ []
method_to_string post = b'P' ∷ b'O' ∷ b'S' ∷ b'T' ∷ []
method_to_string put = b'P' ∷ b'U' ∷ b'T' ∷ []
method_to_string delete = b'D' ∷ b'E' ∷ b'L' ∷ b'E' ∷ b'T' ∷ b'E' ∷ []
method_to_string patch = b'P' ∷ b'A' ∷ b'T' ∷ b'C' ∷ b'H' ∷ []
method_to_string head = b'H' ∷ b'E' ∷ b'A' ∷ b'D' ∷ []
method_to_string options = b'O' ∷ b'P' ∷ b'T' ∷ b'I' ∷ b'O' ∷ b'N' ∷ b'S' ∷ []
method_to_string unknown = b'U' ∷ b'N' ∷ b'K' ∷ b'N' ∷ b'O' ∷ b'W' ∷ b'N' ∷ []

-- `http_string_to_method`, which compares with the same strings.
unfoldable pub string_to_method : Bytes → Method
unfolding method_to_string
string_to_method s =
    if str_eq s (method_to_string get)
    then get
    else if str_eq s (method_to_string post)
    then post
    else if str_eq s (method_to_string put)
    then put
    else if str_eq s (method_to_string delete)
    then delete
    else if str_eq s (method_to_string patch)
    then patch
    else if str_eq s (method_to_string head)
    then head
    else if str_eq s (method_to_string options)
    then options
    else unknown

pub record Header : Type 0 where
  pub name : Bytes
  pub value : Bytes

-- `headers` with its `header_count` is a list.
pub record Request : Type 0 where
  pub method : Method
  pub path : Bytes
  pub query_string : Option Bytes
  pub body : Option Bytes
  pub body_length : ℕ
  pub content_type : Option Bytes
  pub user_agent : Option Bytes
  pub authorization : Option Bytes
  pub headers : List Header

-- The bytes behind the pattern, if the string starts with it.
unfoldable pub behind : Bytes → Bytes → Option Bytes
behind [] s = some s
behind (p ∷ ps) [] = none
behind (p ∷ ps) (c ∷ cs) = if c == p then behind ps cs else none

abbrev cons_before : ℕ → Option (Bytes × Bytes) → Option (Bytes × Bytes)
cons_before c none = none
cons_before c (some (a, b)) = some (c ∷ a, b)

-- `strstr`: the bytes in front of the pattern and behind it. A pattern is not empty here.
unfoldable pub split_on : Bytes → Bytes → Option (Bytes × Bytes)
unfolding behind
split_on p [] = none
split_on p (c ∷ cs) =
    let rest = split_on p cs in
    elim (behind p (c ∷ cs)) [ some b ↦ some ([], b) | none ↦ cons_before c rest ]

abbrev pub crlf : Bytes
crlf = b'\r' ∷ b'\n' ∷ []

abbrev pub blank_line : Bytes
blank_line = b'\r' ∷ b'\n' ∷ b'\r' ∷ b'\n' ∷ []

abbrev is_break : ℕ → Bool
is_break c = c == b'\r' || c == b'\n'

abbrev flush : Bytes → List Bytes → List Bytes
flush [] ls = ls
flush (c ∷ cs) ls = (c ∷ cs) ∷ ls

abbrev add_to_first : ℕ → Bytes × List Bytes → Bytes × List Bytes
add_to_first c (line, ls) = (c ∷ line, ls)

-- The token that begins here, and those behind it, of `strtok` with the delimiters "\r\n".
unfoldable pub break_lines : Bytes → Bytes × List Bytes
break_lines [] = ([], [])
break_lines (c ∷ cs) =
    let rest = break_lines cs in
    if is_break c then ([], flush rest.0 rest.1) else add_to_first c rest

unfoldable pub lines : Bytes → List Bytes
unfolding break_lines
lines s = flush (break_lines s).0 (break_lines s).1

abbrev lower : ℕ → ℕ
lower c = if leb b'A' c && leb c b'Z' then c + 32 else c

-- `strcasecmp(a, b) == 0`.
unfoldable pub case_eq : Bytes → Bytes → Bool
case_eq [] [] = true
case_eq (x ∷ xs) (y ∷ ys) = lower x == lower y && case_eq xs ys
case_eq _ _ = false

abbrev pub content_type_name : Bytes
content_type_name =
    b'C' ∷ b'o' ∷ b'n' ∷ b't' ∷ b'e' ∷ b'n' ∷ b't' ∷ b'-' ∷ b'T' ∷ b'y' ∷ b'p' ∷ b'e' ∷ []

abbrev pub user_agent_name : Bytes
user_agent_name = b'U' ∷ b's' ∷ b'e' ∷ b'r' ∷ b'-' ∷ b'A' ∷ b'g' ∷ b'e' ∷ b'n' ∷ b't' ∷ []

abbrev pub authorization_name : Bytes
authorization_name =
    b'A' ∷ b'u' ∷ b't' ∷ b'h' ∷ b'o' ∷ b'r' ∷ b'i' ∷ b'z' ∷ b'a' ∷ b't' ∷ b'i' ∷ b'o' ∷ b'n' ∷ []

-- One line of the headers: only three of them are kept.
unfoldable pub read_header : Bytes → Request → Request
unfolding case_eq skip_char
read_header line r =
    let name = before b':' line in
    let value = skip_char b' ' (after b':' line) in
    if has_char b':' line
    then (if case_eq name content_type_name
        then record r { content_type = some value }
        else if case_eq name user_agent_name
        then record r { user_agent = some value }
        else if case_eq name authorization_name
        then record r { authorization = some value }
        else r)
    else r

unfoldable pub read_headers : List Bytes → Request → Request
unfolding read_header
read_headers [] r = r
read_headers (l ∷ ls) r = read_headers ls (read_header l r)

-- The headers and the body, where the blank line was found.
unfoldable pub read_rest : Bytes → Request → Request
unfolding split_on lines read_headers
read_rest s r = elim (split_on blank_line s) [
  | none ↦ r
  | some (h, b) ↦ record (read_headers (lines h) r) { body = some b; body_length = length b }
]

-- What stands in the request line.
abbrev pub start : HexReader → Bytes → Bytes → Request
start hex method url = record {
  method = string_to_method method;
  path = (parse_url hex url).0;
  query_string = (parse_url hex url).1;
  body = none;
  body_length = 0;
  content_type = none;
  user_agent = none;
  authorization = none;
  headers = [];
}

-- The method, the url and the version.
unfoldable pub request_line : Bytes → Option (Bytes × Bytes × Bytes)
unfolding strtok
request_line s = elim (strtok b' ' s) [
  | none ↦ none
  | some (method, more) ↦ elim (strtok b' ' more) [
    | none ↦ none
    | some (url, more') ↦ elim (strtok b' ' more') [
      | none ↦ none
      | some (version, rest) ↦ some (method, url, version)
    ]
  ]
]

-- `none` is -1.
unfoldable pub parse_http_request : HexReader → Bytes → Option Request
unfolding read_rest parse_url string_to_method
parse_http_request hex s = elim (split_on crlf s) [
  | none ↦ none
  | some (line, rest) ↦ elim (request_line line) [
    | none ↦ none
    | some (method, url, version) ↦ some (read_rest rest (start hex method url))
  ]
]

-- `http_get_header`.
unfoldable pub get_header : List Header → Bytes → Option Bytes
get_header [] n = none
get_header (h ∷ hs) n = if case_eq h.name n then some h.value else get_header hs n

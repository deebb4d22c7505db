-- ===== src/Http/Response.antt =====
-- Responses: `create_http_response`, the functions that fill in a response, and the text that
-- `send_response` puts together. Memory suffices.
use net_serve.Prelude.{
  ℕ, ◌+◌, Bool, true, false, Option, none, some, List, [], ◌∷◌, ◌++◌, ◌==◌, Bytes, ltb, length,
  first_bytes, if◌then◌else◌,
}
use net_serve.Config.Store.{pos}
use net_serve.Config.File.{print_int}
use net_serve.Http.Request.{Request, Header, content_type_name}
use net_serve.Http.Routes.{Table, find_matching_route}

-- `headers` with its `header_count` is a list.
pub record Response : Type 0 where
  pub status : ℕ
  pub content_type : Option Bytes
  pub body : Option Bytes
  pub body_length : ℕ
  pub headers : List Header

-- What `memset` leaves.
abbrev pub blank : Response
blank = record { status = 0; content_type = none; body = none; body_length = 0; headers = [] }

-- `http_status_to_string`.
unfoldable pub status_to_string : ℕ → Bytes
status_to_string s =
    if s == 200
    then b'O' ∷ b'K' ∷ []
    else if s == 201
    then b'C' ∷ b'r' ∷ b'e' ∷ b'a' ∷ b't' ∷ b'e' ∷ b'd' ∷ []
    else if s == 204
    then b'N' ∷ b'o' ∷ b' ' ∷ b'C' ∷ b'o' ∷ b'n' ∷ b't' ∷ b'e' ∷ b'n' ∷ b't' ∷ []
    else if s == 400
    then b'B' ∷ b'a' ∷ b'd' ∷ b' ' ∷ b'R' ∷ b'e' ∷ b'q' ∷ b'u' ∷ b'e' ∷ b's' ∷ b't' ∷ []
    else if s == 401
    then b'U' ∷ b'n' ∷ b'a' ∷ b'u' ∷ b't' ∷ b'h' ∷ b'o' ∷ b'r' ∷ b'i' ∷ b'z' ∷ b'e' ∷ b'd' ∷ []
    else if s == 403
    then b'F' ∷ b'o' ∷ b'r' ∷ b'b' ∷ b'i' ∷ b'd' ∷ b'd' ∷ b'e' ∷ b'n' ∷ []
    else if s == 404
    then b'N' ∷ b'o' ∷ b't' ∷ b' ' ∷ b'F' ∷ b'o' ∷ b'u' ∷ b'n' ∷ b'd' ∷ []
    else if s == 405
    then b'M' ∷ b'e' ∷ b't' ∷ b'h' ∷ b'o' ∷ b'd' ∷ b' ' ∷ b'N' ∷ b'o' ∷ b't' ∷ b' ' ∷ b'A' ∷ b'l'
      ∷ b'l' ∷ b'o' ∷ b'w' ∷ b'e' ∷ b'd' ∷ []
    else if s == 500
    then b'I' ∷ b'n' ∷ b't' ∷ b'e' ∷ b'r' ∷ b'n' ∷ b'a' ∷ b'l' ∷ b' ' ∷ b'S' ∷ b'e' ∷ b'r' ∷ b'v'
      ∷ b'e' ∷ b'r' ∷ b' ' ∷ b'E' ∷ b'r' ∷ b'r' ∷ b'o' ∷ b'r' ∷ []
    else if s == 501
    then b'N' ∷ b'o' ∷ b't' ∷ b' ' ∷ b'I' ∷ b'm' ∷ b'p' ∷ b'l' ∷ b'e' ∷ b'm' ∷ b'e' ∷ b'n' ∷ b't'
      ∷ b'e' ∷ b'd' ∷ []
    else if s == 503
    then b'S' ∷ b'e' ∷ b'r' ∷ b'v' ∷ b'i' ∷ b'c' ∷ b'e' ∷ b' ' ∷ b'U' ∷ b'n' ∷ b'a' ∷ b'v' ∷ b'a'
      ∷ b'i' ∷ b'l' ∷ b'a' ∷ b'b' ∷ b'l' ∷ b'e' ∷ []
    else b'U' ∷ b'n' ∷ b'k' ∷ b'n' ∷ b'o' ∷ b'w' ∷ b'n' ∷ []

-- `http_add_header`, which is `add_header_to_response`.
unfoldable pub add_header : Bytes → Bytes → Response → Response
add_header n v r = record r { headers = r.headers ++ record { name = n; value = v } ∷ [] }

abbrev pub json_type : Bytes
json_type =
    b'a' ∷ b'p' ∷ b'p' ∷ b'l' ∷ b'i' ∷ b'c' ∷ b'a' ∷ b't' ∷ b'i' ∷ b'o' ∷ b'n' ∷ b'/' ∷ b'j' ∷ b's'
    ∷ b'o' ∷ b'n' ∷ []

-- `http_create_json_response`, and `http_send_ok_response` with the status 200.
unfoldable pub create_json_response : ℕ → Bytes → Response → Response
create_json_response status json r = record r {
  status = status;
  content_type = some json_type;
  body = some json;
  body_length = length json;
}

abbrev pub error_start : Bytes
error_start =
    b'{' ∷ 34 ∷ b'e' ∷ b'r' ∷ b'r' ∷ b'o' ∷ b'r' ∷ 34 ∷ b':' ∷ b' ' ∷ b't' ∷ b'r' ∷ b'u' ∷ b'e'
    ∷ b',' ∷ b' ' ∷ 34 ∷ b's' ∷ b't' ∷ b'a' ∷ b't' ∷ b'u' ∷ b's' ∷ 34 ∷ b':' ∷ b' ' ∷ []

abbrev pub error_middle : Bytes
error_middle =
    b',' ∷ b' ' ∷ 34 ∷ b'm' ∷ b'e' ∷ b's' ∷ b's' ∷ b'a' ∷ b'g' ∷ b'e' ∷ 34 ∷ b':' ∷ b' ' ∷ 34 ∷ []

abbrev pub error_end : Bytes
error_end = 34 ∷ b'}' ∷ []

-- The text of an error, as `snprintf` cuts it off for a buffer of 512 bytes.
unfoldable pub error_json : ℕ → Bytes → Bytes
unfolding first_bytes print_int
error_json status message =
    first_bytes 511
      (error_start ++ (print_int (pos status) ++ (error_middle ++ (message ++ error_end))))

-- `http_send_error_response`, and with its two companions.
unfoldable pub send_error_response : ℕ → Bytes → Response → Response
unfolding error_json create_json_response
send_error_response status message r = create_json_response status (error_json status message) r

abbrev pub not_found : Bytes
not_found = b'N' ∷ b'o' ∷ b't' ∷ b' ' ∷ b'F' ∷ b'o' ∷ b'u' ∷ b'n' ∷ b'd' ∷ []

abbrev pub server_error : Bytes
server_error =
    b'I' ∷ b'n' ∷ b't' ∷ b'e' ∷ b'r' ∷ b'n' ∷ b'a' ∷ b'l' ∷ b' ' ∷ b'S' ∷ b'e' ∷ b'r' ∷ b'v' ∷ b'e'
    ∷ b'r' ∷ b' ' ∷ b'E' ∷ b'r' ∷ b'r' ∷ b'o' ∷ b'r' ∷ []

abbrev pub allow_origin : Bytes
allow_origin =
    b'A' ∷ b'c' ∷ b'c' ∷ b'e' ∷ b's' ∷ b's' ∷ b'-' ∷ b'C' ∷ b'o' ∷ b'n' ∷ b't' ∷ b'r' ∷ b'o' ∷ b'l'
    ∷ b'-' ∷ b'A' ∷ b'l' ∷ b'l' ∷ b'o' ∷ b'w' ∷ b'-' ∷ b'O' ∷ b'r' ∷ b'i' ∷ b'g' ∷ b'i' ∷ b'n' ∷ []

abbrev pub allow_methods : Bytes
allow_methods =
    b'A' ∷ b'c' ∷ b'c' ∷ b'e' ∷ b's' ∷ b's' ∷ b'-' ∷ b'C' ∷ b'o' ∷ b'n' ∷ b't' ∷ b'r' ∷ b'o' ∷ b'l'
    ∷ b'-' ∷ b'A' ∷ b'l' ∷ b'l' ∷ b'o' ∷ b'w' ∷ b'-' ∷ b'M' ∷ b'e' ∷ b't' ∷ b'h' ∷ b'o' ∷ b'd'
    ∷ b's' ∷ []

abbrev pub allow_headers : Bytes
allow_headers =
    b'A' ∷ b'c' ∷ b'c' ∷ b'e' ∷ b's' ∷ b's' ∷ b'-' ∷ b'C' ∷ b'o' ∷ b'n' ∷ b't' ∷ b'r' ∷ b'o' ∷ b'l'
    ∷ b'-' ∷ b'A' ∷ b'l' ∷ b'l' ∷ b'o' ∷ b'w' ∷ b'-' ∷ b'H' ∷ b'e' ∷ b'a' ∷ b'd' ∷ b'e' ∷ b'r'
    ∷ b's' ∷ []

abbrev pub methods : Bytes
methods =
    b'G' ∷ b'E' ∷ b'T' ∷ b',' ∷ b' ' ∷ b'P' ∷ b'O' ∷ b'S' ∷ b'T' ∷ b',' ∷ b' ' ∷ b'P' ∷ b'U' ∷ b'T'
    ∷ b',' ∷ b' ' ∷ b'D' ∷ b'E' ∷ b'L' ∷ b'E' ∷ b'T' ∷ b'E' ∷ b',' ∷ b' ' ∷ b'O' ∷ b'P' ∷ b'T'
    ∷ b'I' ∷ b'O' ∷ b'N' ∷ b'S' ∷ []

abbrev pub header_names : Bytes
header_names =
    b'C' ∷ b'o' ∷ b'n' ∷ b't' ∷ b'e' ∷ b'n' ∷ b't' ∷ b'-' ∷ b'T' ∷ b'y' ∷ b'p' ∷ b'e' ∷ b',' ∷ b' '
    ∷ b'A' ∷ b'u' ∷ b't' ∷ b'h' ∷ b'o' ∷ b'r' ∷ b'i' ∷ b'z' ∷ b'a' ∷ b't' ∷ b'i' ∷ b'o' ∷ b'n' ∷ []

unfoldable pub send_not_found_response : Response → Response
unfolding send_error_response
send_not_found_response r = send_error_response 404 not_found r

-- The headers for other origins, if they are enabled.
unfoldable pub add_cors : Option Bytes → Response → Response
unfolding add_header
add_cors none r = r
add_cors (some origin) r =
    add_header allow_headers header_names
      (add_header allow_methods methods (add_header allow_origin origin r))

-- A handler says whether it returned 0. `cors` is `cors_origin`, where `enable_cors` is set.
abbrev pub Handler : Type 0
Handler = Request → Response → Bool × Response

abbrev handled : Bool × Response → Response
handled (true, r) = r
handled (false, r) = send_error_response 500 server_error r

unfoldable pub create_http_response : Option Bytes → Table Handler → Request → Response
create_http_response cors t q = elim (find_matching_route q t) [
  | some route ↦ add_cors cors (handled (route.handler q blank))
  | none ↦ add_cors cors (send_not_found_response blank)
]

abbrev pub colon_space : Bytes
colon_space = b':' ∷ b' ' ∷ []

abbrev pub crlf : Bytes
crlf = b'\r' ∷ b'\n' ∷ []

abbrev pub content_length_name : Bytes
content_length_name =
    b'C' ∷ b'o' ∷ b'n' ∷ b't' ∷ b'e' ∷ b'n' ∷ b't' ∷ b'-' ∷ b'L' ∷ b'e' ∷ b'n' ∷ b'g' ∷ b't' ∷ b'h'
    ∷ []

abbrev pub http_version : Bytes
http_version = b'H' ∷ b'T' ∷ b'T' ∷ b'P' ∷ b'/' ∷ b'1' ∷ b'.' ∷ b'1' ∷ b' ' ∷ []

-- The status line and a header, as `snprintf` cuts them off for a buffer of 256 bytes.
unfoldable pub status_line : ℕ → Bytes
unfolding status_to_string
status_line s =
    first_bytes 255 (http_version ++ (print_int (pos s) ++ (b' ' ∷ (status_to_string s ++ crlf))))

unfoldable pub header_line : Bytes → Bytes → Bytes
header_line n v = first_bytes 255 (n ++ (colon_space ++ (v ++ crlf)))

unfoldable pub header_lines : List Header → Bytes
unfolding header_line
header_lines [] = []
header_lines (h ∷ hs) = header_line h.name h.value ++ header_lines hs

abbrev pub type_line : Option Bytes → Bytes
type_line none = []
type_line (some t) = header_line content_type_name t

abbrev pub length_line : Option Bytes → ℕ → Bytes
length_line none n = []
length_line (some b) n = header_line content_length_name (print_int (pos n))

-- What `headers_buffer` holds at the end.
unfoldable pub headers_text : Response → Bytes
unfolding header_lines
headers_text r =
    type_line r.content_type
    ++ (length_line r.body r.body_length ++ (header_lines r.headers ++ crlf))

-- The first bytes of the body; a body is as long as its length says.
abbrev pub body_text : Option Bytes → ℕ → Bytes
body_text none n = []
body_text (some b) n = first_bytes n b

-- The bytes that are written; `none` if `strcat` writes behind the 1024 bytes of `headers_buffer`.
unfoldable pub response_text : Response → Option Bytes
response_text r =
    if ltb (length (headers_text r)) 1024
    then some (status_line r.status ++ (headers_text r ++ body_text r.body r.body_length))
    else none

abbrev pub body_size : Option Bytes → ℕ → ℕ
body_size none n = 0
body_size (some b) n = n

unfoldable pub header_sizes : List Header → ℕ
header_sizes [] = 0
header_sizes (h ∷ hs) = length (header_line h.name h.value) + header_sizes hs

-- `response_length`, as it is added up.
unfoldable pub response_length : Response → ℕ
response_length r =
    length (status_line r.status)
    + length (type_line r.content_type)
    + length (length_line r.body r.body_length)
    + header_sizes r.headers
    + 2
    + body_size r.body r.body_length

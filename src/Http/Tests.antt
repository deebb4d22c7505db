-- ===== src/Http/Tests.antt =====
-- Runs of the HTTP code, and its theorems at concrete inputs.
use net_serve.Prelude.{
  ℕ, ◌+◌, ◌*◌, ◌-◌, ◌≡◌, ◌↔◌, refl, true, false, ◌&&◌, some, [], ◌∷◌, ◌++◌, Bytes, ltb, length,
  if◌then◌else◌, arith, str_eq,
}
use net_serve.Http.Url.{HexReader, url_decode, percent}
use net_serve.Http.Decode.{ReadsHex, encode, url_decode-encode}
use net_serve.Http.Request.{get, Request}
use net_serve.Http.Routes.{Route, Table, add_route, remove_route, find_route, same_method}
use net_serve.Http.Dispatch.{stack, top, pop, IsCounted, route_table_lem}
use net_serve.Http.Response.{
  Response, blank, response_text, response_length, status_line, headers_text,
}
use net_serve.Prelude.{first_bytes}
use net_serve.Config.File.{print_int, print_digits}
use net_serve.Http.Response.{header_line, header_lines}
use net_serve.Http.Sizes.{length-response_text}

abbrev digit_value : ℕ → ℕ
digit_value c = if ltb c 58 then c - b'0' else c - 55

-- A `sscanf` that reads upper-case digits.
abbrev upper : HexReader
upper d e = some (digit_value d * 16 + digit_value e)

upper-ReadsHex : ReadsHex upper
upper-ReadsHex a b h k = ground arith

-- A letter, a blank and a `%`.
abbrev odd : Bytes
odd = b'a' ∷ b' ' ∷ percent ∷ []

url_decode-encode_example : url_decode upper (encode odd) ≡ odd
url_decode-encode_example = url_decode-encode upper upper-ReadsHex odd (
  (λ e. omega (arith, e), omega arith),
  ((λ e. omega (arith, e), omega arith), ((λ e. omega (arith, e), omega arith), tt)),
)

abbrev path : Bytes
path = b'/' ∷ b'a' ∷ []

abbrev version : Bytes
version = b'1' ∷ []

abbrev route : Route ℕ
route = record { method = get; path = path; handler = 1 }

abbrev table : Table ℕ
table = record { routes = route ∷ []; route_count = 1 }

route_table_lem_example :
    (find_route get path table.routes ≡ top (stack get path table.routes))
    × (stack get path (add_route true get path 2 table).1.routes ≡ (
        if same_method get get && str_eq path path
        then record { method = get; path = path; handler = 2 } ∷ stack get path table.routes
        else stack get path table.routes))
    × IsCounted (add_route true get path 2 table).1
    × (stack get path (remove_route get path table).1.routes ≡ (
        if same_method get get && str_eq path path
        then pop (stack get path table.routes)
        else stack get path table.routes))
    × IsCounted (remove_route get path table).1
    × (((remove_route get path table).0 ≡ false) ↔ (stack get path table.routes ≡ []))
route_table_lem_example = route_table_lem get get path path 2 table refl

abbrev found : Response
found = record blank { status = 200; body = some path; body_length = 2 }

abbrev found_text : Bytes
found_text = status_line 200 ++ (headers_text found ++ path)

found_fits : response_text found ≡ some found_text
unfolding response_text headers_text header_line header_lines first_bytes print_int print_digits
found_fits = refl

length-response_text_example :
    (length found_text ≡ response_length found)
    × (found_text ≡ status_line 200 ++ (headers_text found ++ path))
length-response_text_example = length-response_text found path found_text refl refl found_fits

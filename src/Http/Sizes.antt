-- ===== src/Http/Sizes.antt =====
-- The length that `send_response` adds up, and the text that it writes.
use net_serve.Prelude.{
  ◌+◌, ◌≡◌, ◌∙◌, ap, refl, some, List, [], ◌∷◌, ◌++◌, Bytes, length, length-append, first_bytes,
  arith,
}
use net_serve.Http.Request.{Header}
use net_serve.Http.Response.{
  Response, header_line, header_lines, header_sizes, headers_text, status_line, response_text,
  response_length, type_line, length_line, body_size, crlf,
}

length-header_lines : (hs : List Header) → length (header_lines hs) ≡ header_sizes hs
unfolding header_lines header_sizes
length-header_lines [] = refl
length-header_lines (h ∷ hs) =
    omega
      (arith, length-append (header_line h.name h.value) (header_lines hs), length-header_lines hs)

first_bytes_all : (b : Bytes) → first_bytes (length b) b ≡ b
unfolding first_bytes
first_bytes_all [] = refl
first_bytes_all (c ∷ cs) = ap (λ s. c ∷ s) (first_bytes_all cs)

length-headers_text :
    (r : Response)
    → length (headers_text r)
      ≡ length (type_line r.content_type)
        + length (length_line r.body r.body_length)
        + header_sizes r.headers
        + 2
unfolding headers_text
length-headers_text r =
    let rest = header_lines r.headers ++ crlf in
    omega (
      arith,
      length-append (type_line r.content_type) (length_line r.body r.body_length ++ rest),
      length-append (length_line r.body r.body_length) rest,
      length-append (header_lines r.headers) crlf,
      length-header_lines r.headers,
    )

response_text-some :
    (r : Response) (b text : Bytes)
    → r.body ≡ some b
    → r.body_length ≡ length b
    → response_text r ≡ some text
    → text ≡ status_line r.status ++ (headers_text r ++ b)
unfolding response_text
response_text-some r b text e f h = ground (arith, first_bytes_all b)

-- For a response with a body whose `body_length` is its length, and headers that do not overflow
-- their buffer: what is written has the length that was added up for its allocation, and is the
-- status line, the headers and the body.
pub length-response_text :
    (r : Response) (b text : Bytes)
    → r.body ≡ some b
    → r.body_length ≡ length b
    → response_text r ≡ some text
    → (length text ≡ response_length r) × (text ≡ status_line r.status ++ (headers_text r ++ b))
unfolding response_length
length-response_text r b text e f h =
    let t = response_text-some r b text e f h in
    (
      ap length t
          ∙ omega (
            arith,
            length-append (status_line r.status) (headers_text r ++ b),
            length-append (headers_text r) b,
            length-headers_text r,
            f,
            ap (λ o. body_size o r.body_length) e,
          ),
      t,
    )

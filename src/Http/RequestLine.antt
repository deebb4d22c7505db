-- ===== src/Http/RequestLine.antt =====
-- What `parse_http_request` makes of a request line, and what follows it.
use net_serve.Prelude.{◌<◌, ◌≡◌, ◌≢◌, ◌∷◌, ◌++◌, Bytes, length, All}
use net_serve.Http.Request.{Request}

-- Not empty, and without blanks and line breaks.
abbrev pub IsToken : Bytes → Type 0
IsToken s = (0 < length s) × All (λ c. (c ≢ b' ') × (c ≢ b'\r')) s

abbrev pub line_text : Bytes → Bytes → Bytes → Bytes
line_text method url version = method ++ b' ' ∷ (url ++ b' ' ∷ version)

-- The headers change neither the request line nor the array of headers.
abbrev pub SameLine : Request → Request → Type 0
SameLine r q =
    (q.method ≡ r.method)
    × (q.path ≡ r.path)
    × (q.query_string ≡ r.query_string)
    × (q.headers ≡ r.headers)

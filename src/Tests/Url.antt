-- ===== src/Tests/Url.antt =====
-- firmware/src/custom_endpoint.c on concrete URLs.
use p2000t_teletekst_cartrid.CustomEndpoint.Bounds.{IsEndpoint, parse-IsEndpoint, page_path-parse}
use p2000t_teletekst_cartrid.CustomEndpoint.RoundTrip.{render, parse-render-parse}
use p2000t_teletekst_cartrid.CustomEndpoint.{Endpoint, decimal, parse, page_path, page_text}
use p2000t_teletekst_cartrid.Prelude.{ℕ, true, List, [], ◌∷◌, some, ◌≡◌, refl, arith}

-- "HTTPS://p2.nl:8080/x/"
abbrev url : List ℕ
url =
    b'H' ∷ b'T' ∷ b'T' ∷ b'P' ∷ b'S' ∷ b':' ∷ b'/' ∷ b'/' ∷ b'p' ∷ b'2' ∷ b'.' ∷ b'n' ∷ b'l' ∷ b':'
    ∷ b'8' ∷ b'0' ∷ b'8' ∷ b'0' ∷ b'/' ∷ b'x' ∷ b'/' ∷ []

abbrev endpoint : Endpoint
endpoint = record {
  tls = true;
  host = b'p' ∷ b'2' ∷ b'.' ∷ b'n' ∷ b'l' ∷ [];
  port = 8080;
  base_path = b'/' ∷ b'x' ∷ [];
}

parse-url : parse url ≡ some endpoint
unfolding parse
parse-url = refl

parse-IsEndpoint_example : IsEndpoint endpoint
parse-IsEndpoint_example = parse-IsEndpoint url parse-url

page_path-parse_example : page_path endpoint 101 2 96 ≡ (true, page_text endpoint 101 2)
page_path-parse_example =
    page_path-parse url 101 2 parse-url (omega arith) (omega arith) (omega arith)

parse-render-parse_example : parse (render endpoint) ≡ some endpoint
unfolding render decimal
parse-render-parse_example = parse-render-parse url endpoint parse-url (omega arith)

-- ===== src/CustomEndpoint/Bounds.antt =====
-- firmware/src/custom_endpoint.c: what an accepted URL is known to hold.
use p2000t_teletekst_cartrid.CustomEndpoint.{
  Endpoint, url_max, http, https, prefix_equal, host_max, base_path_max, request_path_max,
  is_host_char, is_path_char, all, scan_authority, split_colon, read_port, port_of, build,
  parse_behind, parse, c_string, decimal, json_path, page_text, page_path,
}
use p2000t_teletekst_cartrid.Prelude.{
  ℕ, zero, suc, ◌+◌, ◌-◌, ◌*◌, ◌/◌, ◌%◌, ◌≤◌, ◌<◌, Bool, true, false, ◌&&◌, ◌||◌, List, [], ◌∷◌,
  ◌++◌, Option, none, some, ◌≡◌, refl, arith, ◌⊎◌, inl, inr, length, take, drop, ltb, leb, ◌==◌,
  if◌then◌else◌, >>=-eq-some, length-append, take_all,
}

-- An endpoint that the firmware can connect to.
pub record IsEndpoint (e : Endpoint) : Type 0 where
  pub host_filled : 1 ≤ length e.host
  pub host_fits : length e.host ≤ host_max
  pub host_chars : all is_host_char e.host ≡ true
  pub port_positive : 1 ≤ e.port
  pub port_fits : e.port ≤ 65535
  pub path_fits : length e.base_path ≤ base_path_max
  pub path_chars : all is_path_char e.base_path ≡ true

read_port-le : (cs : List ℕ) (port q : ℕ) → port ≤ 65535 → read_port port cs ≡ some q → q ≤ 65535
unfolding read_port
read_port-le [] port q h e = ground arith
read_port-le (c ∷ cs) port q h e = ground (arith, read_port-le cs (port * 10 + (c - b'0')) q)

pub port_of_bounds :
    (default_port : ℕ) (digits : Option (List ℕ)) {q : ℕ}
    → (default_port ≡ 80) ⊎ (default_port ≡ 443)
    → port_of default_port digits ≡ some q
    → (1 ≤ q) × (q ≤ 65535)
unfolding port_of
port_of_bounds default_port none d e = ground arith
port_of_bounds default_port (some []) d e = cc
port_of_bounds default_port (some (c ∷ cs)) d e =
    let (port, read, last) = >>=-eq-some (read_port 0 (c ∷ cs)) _ e in
    ground (arith, read_port-le (c ∷ cs) 0 port (omega arith) read)

build-IsEndpoint :
    (tls : Bool) (default_port : ℕ) (authority rest : List ℕ) {e : Endpoint}
    → (default_port ≡ 80) ⊎ (default_port ≡ 443)
    → build tls default_port authority rest ≡ some e
    → IsEndpoint e
unfolding build
build-IsEndpoint tls default_port authority rest d h =
    let (host, digits) = split_colon authority in
    let (port, read, last) = >>=-eq-some (port_of default_port digits) _ h in
    ground (arith, port_of_bounds default_port digits d read)

parse_behind-IsEndpoint :
    (tls : Bool) (default_port : ℕ) (text : List ℕ) {e : Endpoint}
    → (default_port ≡ 80) ⊎ (default_port ≡ 443)
    → parse_behind tls default_port text ≡ some e
    → IsEndpoint e
unfolding parse_behind
parse_behind-IsEndpoint tls default_port text d h =
    let (r, scanned, built) = >>=-eq-some (scan_authority text) _ h in
    build-IsEndpoint tls default_port r.0 r.1 d built

pub parse_lem :
    (url : List ℕ)
    → parse url ≡ (
        if length url == 0 || ltb url_max (length url)
        then none
        else if leb 7 (length url) && prefix_equal url http
        then parse_behind false 80 (drop 7 url)
        else if leb 8 (length url) && prefix_equal url https
        then parse_behind true 443 (drop 8 url)
        else none)
unfolding parse
parse_lem url = refl

pub parse_cases :
    (url : List ℕ) {e : Endpoint}
    → parse url ≡ some e
    → (parse_behind false 80 (drop 7 url) ≡ some e) ⊎ (parse_behind true 443 (drop 8 url) ≡ some e)
parse_cases url h = ground (arith, parse_lem url)

-- Every accepted URL gives a host of 1 to 63 host characters, a port from 1 to 65535, and a base
-- path of at most 63 bytes with no space, query or fragment.
pub parse-IsEndpoint : (url : List ℕ) {e : Endpoint} → parse url ≡ some e → IsEndpoint e
parse-IsEndpoint url h = elim (parse_cases url h) [
  | inl plain ↦ parse_behind-IsEndpoint false 80 (drop 7 url) (inl refl) plain
  | inr secure ↦ parse_behind-IsEndpoint true 443 (drop 8 url) (inr refl) secure
]

length-c_string : (bytes : List ℕ) → length (c_string bytes) ≤ length bytes
unfolding c_string
length-c_string [] = omega arith
length-c_string (c ∷ cs) = ground (arith, length-c_string cs)

length-decimal : (fuel n : ℕ) → length (decimal fuel n) ≤ fuel
unfolding decimal
length-decimal zero n = omega arith
length-decimal (suc fuel) n = ground (
  arith,
  length-decimal fuel (n / 10),
  length-append (decimal fuel (n / 10)) ((b'0' + n % 10) ∷ []),
)

length-page_text :
    (e : Endpoint) (page subpage : ℕ) → length (page_text e page subpage) ≤ length e.base_path + 17
unfolding page_text
length-page_text e page subpage = ground (
  arith,
  length-c_string e.base_path,
  length-decimal 5 page,
  length-decimal 5 subpage,
  length-append (c_string e.base_path)
      (json_path ++ (decimal 5 page ++ (if subpage == 0 then [] else b'-' ∷ decimal 5 subpage))),
  length-append (decimal 5 page) (if subpage == 0 then [] else b'-' ∷ decimal 5 subpage),
)

page_path_lem :
    (e : Endpoint) (page subpage capacity : ℕ)
    → page_path e page subpage capacity ≡ (
        if capacity == 0 || ltb page 100 || ltb 899 page || ltb 99 subpage then (false, []) else (
          ltb (length (page_text e page subpage)) capacity,
          take (capacity - 1) (page_text e page subpage),
        ))
unfolding page_path
page_path_lem e page subpage capacity = refl

page_path_whole :
    (e : Endpoint) (page subpage capacity : ℕ)
    → 100 ≤ page
    → page ≤ 899
    → subpage ≤ 99
    → length (page_text e page subpage) < capacity
    → page_path e page subpage capacity ≡ (true, page_text e page subpage)
page_path_whole e page subpage capacity low high sub short =
    rw (page_path_lem e page subpage capacity)
      (ground (arith, take_all (capacity - 1) (page_text e page subpage) (omega arith)))

-- For every accepted URL, a page from 100 to 899 and a subpage up to 99, the request path is made
-- in full in a buffer of 96 bytes, which is what its callers have.
pub page_path-parse :
    (url : List ℕ) {e : Endpoint} (page subpage : ℕ)
    → parse url ≡ some e
    → 100 ≤ page
    → page ≤ 899
    → subpage ≤ 99
    → page_path e page subpage request_path_max ≡ (true, page_text e page subpage)
page_path-parse url {e} page subpage h low high sub =
    let fits = (parse-IsEndpoint url h).path_fits in
    let short : length (page_text e page subpage) < request_path_max =
      omega (arith, length-page_text e page subpage) in
    page_path_whole e page subpage request_path_max low high sub short

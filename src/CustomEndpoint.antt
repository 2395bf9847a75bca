-- ===== src/CustomEndpoint.antt =====
-- firmware/src/custom_endpoint.{h,c}: the base URL of a custom server. A URL is the list of its
-- `url_length` bytes; `none` is the result `false`. The classes of characters are those of the C
-- locale. `host` and `base_path` are the bytes in front of the terminator that the code appends.
pub mod Bounds
pub mod RoundTrip
use p2000t_teletekst_cartrid.Prelude.{
  ℕ, zero, suc, ◌+◌, ◌-◌, ◌*◌, ◌/◌, ◌%◌, Bool, true, false, not, ◌&&◌, ◌||◌, List, [], ◌∷◌, ◌++◌,
  Option, none, some, length, take, drop, ltb, leb, ◌==◌, if◌then◌else◌, ◌>>=◌,
}

abbrev pub url_max : ℕ
url_max = 96

abbrev pub host_max : ℕ
host_max = 63

abbrev pub base_path_max : ℕ
base_path_max = 63

abbrev pub request_path_max : ℕ
request_path_max = 96

-- `custom_endpoint_t`
pub record Endpoint : Type 0 where
  pub tls : Bool
  pub host : List ℕ
  pub port : ℕ
  pub base_path : List ℕ

abbrev pub is_digit : ℕ → Bool
is_digit c = leb b'0' c && leb c b'9'

abbrev pub is_upper : ℕ → Bool
is_upper c = leb b'A' c && leb c b'Z'

abbrev pub is_lower : ℕ → Bool
is_lower c = leb b'a' c && leb c b'z'

-- `isspace`
abbrev pub is_space : ℕ → Bool
is_space c = c == 32 || (leb 9 c && leb c 13)

abbrev pub to_lower : ℕ → ℕ
to_lower c = if is_upper c then c + 32 else c

-- `isalnum(c) || c == '.' || c == '-' || c == '_'`
pub is_host_char : ℕ → Bool
is_host_char c = is_digit c || is_upper c || is_lower c || c == b'.' || c == b'-' || c == b'_'

-- What ends the parse inside the authority.
pub is_bad_authority_char : ℕ → Bool
is_bad_authority_char c = is_space c || c == b'@' || c == b'?' || c == b'#'

pub is_path_char : ℕ → Bool
is_path_char c = not (is_space c || c == b'?' || c == b'#')

abbrev pub all : (ℕ → Bool) → List ℕ → Bool
all p [] = true
all p (c ∷ cs) = p c && all p cs

-- `prefix_equal(value, prefix, strlen(prefix))`, where `value` has that many bytes.
pub prefix_equal : List ℕ → List ℕ → Bool
prefix_equal value [] = true
prefix_equal [] (p ∷ prefix) = false
prefix_equal (c ∷ value) (p ∷ prefix) = to_lower c == to_lower p && prefix_equal value prefix

-- "http://" and "https://"
abbrev pub http : List ℕ
http = b'h' ∷ b't' ∷ b't' ∷ b'p' ∷ b':' ∷ b'/' ∷ b'/' ∷ []

abbrev pub https : List ℕ
https = b'h' ∷ b't' ∷ b't' ∷ b'p' ∷ b's' ∷ b':' ∷ b'/' ∷ b'/' ∷ []

-- The loop up to the first slash: the authority, and what follows it.
pub scan_authority : List ℕ → Option (List ℕ × List ℕ)
scan_authority [] = some ([], [])
scan_authority (c ∷ cs) =
    let later = scan_authority cs >>= λ r. some (c ∷ r.0, r.1) in
    if c == b'/' then some ([], c ∷ cs) else if is_bad_authority_char c then none else later

-- The bytes in front of the first colon, and those behind it if there is one.
pub split_colon : List ℕ → List ℕ × Option (List ℕ)
split_colon [] = ([], none)
split_colon (c ∷ cs) =
    let later = split_colon cs in if c == b':' then ([], some cs) else (c ∷ later.0, later.1)

-- The digits of a port, behind a value read so far.
pub read_port : ℕ → List ℕ → Option ℕ
read_port port [] = some port
read_port port (c ∷ cs) =
    let port' = port * 10 + (c - b'0') in
    let later = read_port port' cs in
    if not (is_digit c) then none else if ltb 65535 port' then none else later

-- The port behind a colon: not empty, no second colon, and not 0.
explicit_port : List ℕ → Option ℕ
explicit_port [] = none
explicit_port (c ∷ cs) = read_port 0 (c ∷ cs) >>= λ port. if port == 0 then none else some port

pub port_of : ℕ → Option (List ℕ) → Option ℕ
unfolding explicit_port
port_of default_port none = some default_port
port_of default_port (some digits) = explicit_port digits

-- `while (path_end > position + 1 && url[path_end - 1] == '/')`, behind the first byte.
pub put_back : ℕ → List ℕ → List ℕ
put_back c [] = if c == b'/' then [] else c ∷ []
put_back c (d ∷ ds) = c ∷ d ∷ ds

pub trim_slashes : List ℕ → List ℕ
unfolding put_back
trim_slashes [] = []
trim_slashes (c ∷ cs) = put_back c (trim_slashes cs)

pub trim_path : List ℕ → List ℕ
trim_path [] = []
trim_path (c ∷ cs) = c ∷ trim_slashes cs

-- What is done with the parts of a URL behind its scheme.
pub build : Bool → ℕ → List ℕ → List ℕ → Option Endpoint
build tls default_port authority rest =
    let (host, digits) = split_colon authority in
    let path = trim_path rest in
    port_of default_port digits >>= λ port.
    if length host == 0 || ltb host_max (length host)
    then none
    else if not (all is_host_char host)
    then none
    else if ltb base_path_max (length path)
    then none
    else if not (all is_path_char path)
    then none
    else some (record { tls = tls; host = host; port = port; base_path = path })

pub parse_behind : Bool → ℕ → List ℕ → Option Endpoint
parse_behind tls default_port text = scan_authority text >>= λ r. build tls default_port r.0 r.1

unfoldable pub parse : List ℕ → Option Endpoint
unfolding parse_behind build trim_path trim_slashes port_of read_port split_colon scan_authority
    prefix_equal is_path_char is_bad_authority_char is_host_char
parse url =
    if length url == 0 || ltb url_max (length url)
    then none
    else if leb 7 (length url) && prefix_equal url http
    then parse_behind false 80 (drop 7 url)
    else if leb 8 (length url) && prefix_equal url https
    then parse_behind true 443 (drop 8 url)
    else none

-- What `%s` prints of an array: the bytes in front of the first NUL.
pub c_string : List ℕ → List ℕ
c_string [] = []
c_string (c ∷ cs) = let rest = c_string cs in if c == 0 then [] else c ∷ rest

-- What `%u` prints, for numbers of as many digits at most as there is fuel.
unfoldable pub decimal : ℕ → ℕ → List ℕ
decimal zero n = []
decimal (suc fuel) n =
    let front = decimal fuel (n / 10) in
    if ltb n 10 then (b'0' + n) ∷ [] else front ++ ((b'0' + n % 10) ∷ [])

-- "/json/"
abbrev pub json_path : List ℕ
json_path = b'/' ∷ b'j' ∷ b's' ∷ b'o' ∷ b'n' ∷ b'/' ∷ []

-- What `snprintf` is to print. A `uint16_t` has five digits at most.
pub page_text : Endpoint → ℕ → ℕ → List ℕ
page_text endpoint page subpage =
    c_string endpoint.base_path
    ++ (json_path ++ (decimal 5 page ++ (if subpage == 0 then [] else b'-' ∷ decimal 5 subpage)))

-- The result, and the text that was written in front of its terminator, cut off by `snprintf`
-- where it does not fit.
unfoldable pub page_path : Endpoint → ℕ → ℕ → ℕ → Bool × List ℕ
unfolding page_text decimal c_string
page_path endpoint page subpage capacity =
    let text = page_text endpoint page subpage in
    if capacity == 0 || ltb page 100 || ltb 899 page || ltb 99 subpage
    then (false, [])
    else (ltb (length text) capacity, take (capacity - 1) text)

-- ===== src/CustomEndpoint/RoundTrip.antt =====
-- firmware/src/custom_endpoint.c: an accepted URL has a normal form that is parsed to the same
-- endpoint.
use p2000t_teletekst_cartrid.CustomEndpoint.Bounds.{
  IsEndpoint, parse-IsEndpoint, parse_lem, parse_cases,
}
use p2000t_teletekst_cartrid.CustomEndpoint.{
  Endpoint, url_max, http, https, prefix_equal, is_host_char, is_bad_authority_char, all,
  scan_authority, split_colon, read_port, explicit_port, port_of, trim_slashes, put_back, trim_path,
  build, parse_behind, parse, decimal,
}
use mathlib.Core.List.{concat-ne-nil}
use native.Mathlib.Nat.{pow-suc}
use p2000t_teletekst_cartrid.Prelude.{
  ℕ, zero, suc, ◌+◌, ◌-◌, ◌*◌, ◌/◌, ◌%◌, ◌^◌, ◌≤◌, ◌<◌, Bool, true, false, not, ◌&&◌, List, [], ◌∷◌,
  ◌++◌, some, ◌≡◌, ◌≢◌, refl, sym, ap, ◌∙◌, arith, ◌⊎◌, inl, inr, length, drop, ltb, ◌==◌,
  if◌then◌else◌, >>=-eq-some, Bool-cases, ltb→lt, Option-cases,
}

and_parts : (a b : Bool) → (a && b) ≡ true → (a ≡ true) × (b ≡ true)
and_parts a b h = ground arith

and_true : {a b : Bool} → a ≡ true → b ≡ true → (a && b) ≡ true
and_true {a} {b} h k = ground arith

-- A path that the parser leaves behind: empty, or a slash and no slash at its end but that one.
pub data IsPath : List ℕ → Type 0 where
  no_path : IsPath []
  slash : {cs : List ℕ} → trim_slashes cs ≡ cs → IsPath (b'/' ∷ cs)

-- The host, the port in digits and the path.
abbrev pub render_behind : Endpoint → List ℕ
render_behind e = (e.host ++ (b':' ∷ decimal 5 e.port)) ++ e.base_path

unfoldable pub render : Endpoint → List ℕ
render e = (if e.tls then https else http) ++ render_behind e

-- Neither a slash nor a byte that ends the parse.
abbrev plain_byte : ℕ → Bool
plain_byte c = not (c == b'/') && not (is_bad_authority_char c)

scan_authority-append :
    (authority path : List ℕ)
    → all plain_byte authority ≡ true
    → IsPath path
    → scan_authority (authority ++ path) ≡ some (authority, path)
unfolding scan_authority
scan_authority-append [] _ plain no_path = refl
scan_authority-append [] _ plain (slash e) = refl
scan_authority-append (c ∷ cs) path plain p = ground (arith, scan_authority-append cs path)

split_colon-host :
    (host digits : List ℕ)
    → all is_host_char host ≡ true
    → split_colon (host ++ (b':' ∷ digits)) ≡ (host, some digits)
unfolding split_colon is_host_char
split_colon-host [] digits h = refl
split_colon-host (c ∷ cs) digits h = ground (arith, split_colon-host cs digits)

read_port_digit :
    (xs : List ℕ) (p q d : ℕ)
    → read_port p xs ≡ some q
    → d < 10
    → q * 10 + d ≤ 65535
    → read_port p (xs ++ ((b'0' + d) ∷ [])) ≡ some (q * 10 + d)
unfolding read_port
read_port_digit [] p q d e small fits = ground arith
read_port_digit (c ∷ cs) p q d e small fits =
    ground (arith, read_port_digit cs (p * 10 + (c - b'0')) q d)

read_port-decimal : (fuel n : ℕ) → n < 10 ^ fuel → n ≤ 65535 → read_port 0 (decimal fuel n) ≡ some n
unfolding decimal read_port
read_port-decimal zero n h fits = ap some (omega arith)
read_port-decimal (suc fuel) n h fits = elim (Bool-cases (ltb n 10)) [
  | inl small ↦
      rw small
        (read_port_digit [] 0 0 n refl (ltb→lt n 10 small) (omega arith) ∙ ap some (omega arith))
  | inr large ↦ rw large (
      read_port_digit (decimal fuel (n / 10)) 0 (n / 10) (n % 10)
        (read_port-decimal fuel (n / 10) (omega (arith, pow-suc 10 fuel)) (omega arith))
        (omega arith) (omega arith)
      ∙ ap some (omega arith))
]

-- Where a host character cannot lie.
IsClear : ℕ → Type 0
IsClear c = (13 < c) × (c ≢ 32) × (c ≢ b'#') × (c ≢ b'/') × (c ≢ b'?') × (c ≢ b'@')

plain_clear : (c : ℕ) → IsClear c → plain_byte c ≡ true
unfolding is_bad_authority_char IsClear
plain_clear c h = ground arith

host-IsClear : (c : ℕ) → is_host_char c ≡ true → IsClear c
unfolding is_host_char IsClear
host-IsClear c h =
    (ground arith, ground arith, ground arith, ground arith, ground arith, ground arith)

plain-host : (cs : List ℕ) → all is_host_char cs ≡ true → all plain_byte cs ≡ true
plain-host [] h = refl
plain-host (c ∷ cs) h =
    let (first, rest) = and_parts (is_host_char c) (all is_host_char cs) h in
    and_true (plain_clear c (host-IsClear c first)) (plain-host cs rest)

plain-append :
    (xs ys : List ℕ)
    → all plain_byte xs ≡ true
    → all plain_byte ys ≡ true
    → all plain_byte (xs ++ ys) ≡ true
plain-append [] ys h k = k
plain-append (x ∷ xs) ys h k = ground (arith, plain-append xs ys)

plain-decimal : (fuel n : ℕ) → all plain_byte (decimal fuel n) ≡ true
unfolding decimal is_bad_authority_char
plain-decimal zero n = refl
plain-decimal (suc fuel) n = ground (
  arith,
  plain-decimal fuel (n / 10),
  plain-append (decimal fuel (n / 10)) ((b'0' + n % 10) ∷ []),
)

trim_path-IsPath : (path : List ℕ) → IsPath path → trim_path path ≡ path
unfolding trim_path
trim_path-IsPath _ no_path = refl
trim_path-IsPath _ (slash e) = ap (◌∷◌ b'/') e

decimal-ne-nil : (fuel n : ℕ) → decimal (suc fuel) n ≢ []
unfolding decimal
decimal-ne-nil fuel n = elim (Bool-cases (ltb n 10)) [
  | inl small ↦ rw small (λ e. cc)
  | inr large ↦ rw large (concat-ne-nil _ (decimal fuel (n / 10)))
]

explicit_port_lem :
    (digits : List ℕ) (port : ℕ)
    → digits ≢ []
    → read_port 0 digits ≡ some port
    → 1 ≤ port
    → explicit_port digits ≡ some port
unfolding explicit_port
explicit_port_lem [] port ne e pos = absurd (ne refl)
explicit_port_lem (c ∷ cs) port ne e pos = rw e (ground arith)

-- Behind the scheme.
module _ (e : Endpoint) (v : IsEndpoint e) (path : IsPath e.base_path) where
  port_of-decimal :
      (default_port : ℕ) → port_of default_port (some (decimal 5 e.port)) ≡ some e.port
  unfolding port_of
  port_of-decimal default_port =
      let fits = v.port_fits in
      explicit_port_lem (decimal 5 e.port) e.port (decimal-ne-nil 4 e.port)
        (read_port-decimal 5 e.port (omega arith) fits) v.port_positive

  parse_behind-render :
      (default_port : ℕ) → parse_behind e.tls default_port (render_behind e) ≡ some e
  unfolding parse_behind build
  parse_behind-render default_port =
      let authority = e.host ++ (b':' ∷ decimal 5 e.port) in
      let plain : all plain_byte authority ≡ true =
        plain-append e.host (b':' ∷ decimal 5 e.port) (plain-host e.host v.host_chars)
          (unfold is_bad_authority_char in plain-decimal 5 e.port) in
      rw (scan_authority-append authority e.base_path plain path) (
        rw (split_colon-host e.host (decimal 5 e.port) v.host_chars)
          (rw (port_of-decimal default_port, trim_path-IsPath e.base_path path) (ground arith)))

parse-http :
    (text : List ℕ)
    → length (http ++ text) ≤ url_max
    → parse (http ++ text) ≡ parse_behind false 80 text
unfolding prefix_equal
parse-http text fits = ground (arith, parse_lem (http ++ text))

parse-https :
    (text : List ℕ)
    → length (https ++ text) ≤ url_max
    → parse (https ++ text) ≡ parse_behind true 443 text
unfolding prefix_equal
parse-https text fits = ground (arith, parse_lem (https ++ text))

-- An endpoint with a path of this form is what the parser makes of its own text.
parse-render :
    (e : Endpoint)
    → IsEndpoint e
    → IsPath e.base_path
    → length (render e) ≤ url_max
    → parse (render e) ≡ some e
parse-render e v path fits = by_scheme e.tls refl
  where
    behind : (tls : Bool) (p : ℕ) → e.tls ≡ tls → parse_behind tls p (render_behind e) ≡ some e
    behind tls p t =
        ap (λ b. parse_behind b p (render_behind e)) (sym t) ∙ parse_behind-render e v path p

    text : (tls : Bool) → e.tls ≡ tls → render e ≡ (if tls then https else http) ++ render_behind e
    text tls t = unfold render in ap (λ b. (if b then https else http) ++ render_behind e) t

    by_scheme : (tls : Bool) → e.tls ≡ tls → parse (render e) ≡ some e
    by_scheme false t =
        ap parse (text false t)
        ∙ parse-http (render_behind e) (rw (text false t) at fits)
        ∙ behind false 80 t
    by_scheme true t =
        ap parse (text true t)
        ∙ parse-https (render_behind e) (rw (text true t) at fits)
        ∙ behind true 443 t

put_back_trimmed :
    (c : ℕ) (rest : List ℕ)
    → trim_slashes rest ≡ rest
    → trim_slashes (put_back c rest) ≡ put_back c rest
unfolding trim_slashes
put_back_trimmed c [] e = ground arith
put_back_trimmed c (d ∷ ds) e = ap (put_back c) e

trim_slashes_twice : (cs : List ℕ) → trim_slashes (trim_slashes cs) ≡ trim_slashes cs
unfolding trim_slashes
trim_slashes_twice [] = refl
trim_slashes_twice (c ∷ cs) = put_back_trimmed c (trim_slashes cs) (trim_slashes_twice cs)

trim_path_slash : (cs : List ℕ) → IsPath (trim_path (b'/' ∷ cs))
unfolding trim_path
trim_path_slash cs = slash (trim_slashes_twice cs)

-- What follows the authority is empty or starts with a slash.
scan_authority-rest :
    (text : List ℕ) (r : List ℕ × List ℕ)
    → scan_authority text ≡ some r
    → (r.1 ≡ []) ⊎ ((cs : List ℕ) × (r.1 ≡ b'/' ∷ cs))
unfolding scan_authority
scan_authority-rest [] r e = ground arith
scan_authority-rest (c ∷ cs) r e = elim (Option-cases (scan_authority cs)) [
  | inl fails ↦ ground arith
  | inr (q, found) ↦ ground (arith, scan_authority-rest cs q found)
]

build-IsPath :
    (tls : Bool) (default_port : ℕ) (authority rest : List ℕ) (e : Endpoint)
    → (rest ≡ []) ⊎ ((cs : List ℕ) × (rest ≡ b'/' ∷ cs))
    → build tls default_port authority rest ≡ some e
    → IsPath e.base_path
unfolding build
build-IsPath tls default_port authority rest e shape h =
    let digits = (split_colon authority).1 in
    let (port, read, last) = >>=-eq-some (port_of default_port digits) _ h in
    let path : e.base_path ≡ trim_path rest = ground arith in rw path (trimmed shape)
  where
    trimmed : (rest ≡ []) ⊎ ((cs : List ℕ) × (rest ≡ b'/' ∷ cs)) → IsPath (trim_path rest)
    trimmed (inl empty) = rw empty (unfold trim_path in no_path)
    trimmed (inr (cs, slashed)) = rw slashed (trim_path_slash cs)

parse_behind-IsPath :
    (tls : Bool) (default_port : ℕ) (text : List ℕ) (e : Endpoint)
    → parse_behind tls default_port text ≡ some e
    → IsPath e.base_path
unfolding parse_behind
parse_behind-IsPath tls default_port text e h =
    let (r, scanned, built) = >>=-eq-some (scan_authority text) _ h in
    build-IsPath tls default_port r.0 r.1 e (scan_authority-rest text r scanned) built

-- An accepted URL has a normal form: the scheme in lower case, the host, the port in digits, and
-- the path without its closing slashes. Where that is at most 96 bytes long, it is accepted too,
-- and gives the same endpoint.
pub parse-render-parse :
    (url : List ℕ) (e : Endpoint)
    → parse url ≡ some e
    → length (render e) ≤ url_max
    → parse (render e) ≡ some e
parse-render-parse url e h fits = parse-render e (parse-IsEndpoint url h) path fits
  where
    path : IsPath e.base_path
    path = elim (parse_cases url h) [
      | inl plain ↦ parse_behind-IsPath false 80 (drop 7 url) e plain
      | inr secure ↦ parse_behind-IsPath true 443 (drop 8 url) e secure
    ]

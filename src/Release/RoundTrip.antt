-- ===== src/Release/RoundTrip.antt =====
-- firmware/src/version.c: a release version in print is read back.
use p2000t_teletekst_cartrid.CustomEndpoint.{is_digit, decimal}
use p2000t_teletekst_cartrid.Release.{
  ReleaseVersion, component_digits, parse_component, field, after_prefix, find_field, is_blank,
  skip_blanks, expect, skip_v, parse_components, parse_value, parse_latest_release,
}
use p2000t_teletekst_cartrid.Prelude.{
  ℕ, ◌+◌, ◌-◌, ◌*◌, ◌/◌, ◌%◌, ◌<◌, true, false, List, [], ◌∷◌, ◌++◌, none, some, ◌≡◌, refl, ◌∙◌,
  arith, length, All, ltb, ◌>>=◌, >>=-eq-some, length-append, Bool-cases, inl, inr,
}

-- The components that a version of the firmware can have.
pub record IsVersion (v : ReleaseVersion) : Type 0 where
  pub major_byte : v.major < 256
  pub minor_byte : v.minor < 256
  pub patch_byte : v.patch < 256

-- A byte other than a digit ends the digits.
module _ (c : ℕ) (rest : List ℕ) (plain : is_digit c ≡ false) where
  component_digits_end : (n : ℕ) → component_digits n (c ∷ rest) ≡ some (n, c ∷ rest)
  unfolding component_digits
  component_digits_end n = rw plain refl

  component_digits_step :
      (parsed d : ℕ) (cs : List ℕ)
      → d < 10
      → parsed * 10 + d < 256
      → component_digits parsed ((b'0' + d) ∷ cs) ≡ component_digits (parsed * 10 + d) cs
  unfolding component_digits
  component_digits_step parsed d cs small fits = ground arith

  parse_component-decimal :
      (n : ℕ) → n < 256 → parse_component (decimal 3 n ++ (c ∷ rest)) ≡ some (n, c ∷ rest)
  unfolding parse_component decimal
  parse_component-decimal n h = ground (
    arith,
    component_digits_end n,
    component_digits_step 0 n (c ∷ rest),
    component_digits_step 0 (n / 10) ((b'0' + n % 10) ∷ c ∷ rest),
    component_digits_step (n / 10) (n % 10) (c ∷ rest),
    component_digits_step 0 (n / 10 / 10) ((b'0' + n / 10 % 10) ∷ (b'0' + n % 10) ∷ c ∷ rest),
    component_digits_step (n / 10 / 10) (n / 10 % 10) ((b'0' + n % 10) ∷ c ∷ rest),
  )

-- What a release's JSON says of its version, with blanks on both sides of the colon.
abbrev version_text : ReleaseVersion → List ℕ → List ℕ
version_text v tail =
    decimal 3 v.major
    ++ (b'.' ∷ (decimal 3 v.minor ++ (b'.' ∷ (decimal 3 v.patch ++ (b'"' ∷ tail)))))

abbrev pub release_text : ReleaseVersion → List ℕ → List ℕ → List ℕ → List ℕ
release_text v blanks blanks' tail =
    field ++ (blanks ++ (b':' ∷ (blanks' ++ (b'"' ∷ b'v' ∷ version_text v tail))))

abbrev pub IsBlank : ℕ → Type 0
IsBlank c = is_blank c ≡ true

-- No occurrence of the field starts in `before`, in front of the text.
abbrev pub IsFirst : List ℕ → List ℕ → Type 0
IsFirst [] text = Unit
IsFirst (c ∷ cs) text = (after_prefix field ((c ∷ cs) ++ text) ≡ none) × IsFirst cs text

parse_components-version_text :
    (v : ReleaseVersion) (tail : List ℕ)
    → IsVersion v
    → parse_components (version_text v tail) ≡ some v
unfolding parse_components expect
parse_components-version_text v tail h =
    rw
      (
        parse_component-decimal b'.'
            (decimal 3 v.minor ++ (b'.' ∷ (decimal 3 v.patch ++ (b'"' ∷ tail)))) refl v.major
            h.major_byte,
        parse_component-decimal b'.' (decimal 3 v.patch ++ (b'"' ∷ tail)) refl v.minor h.minor_byte,
        parse_component-decimal b'"' tail refl v.patch h.patch_byte,
      )
      refl

skip_blanks_lem :
    (blanks : List ℕ) (c : ℕ) (rest : List ℕ)
    → All IsBlank blanks
    → is_blank c ≡ false
    → skip_blanks (blanks ++ (c ∷ rest)) ≡ c ∷ rest
unfolding skip_blanks
skip_blanks_lem [] c rest h plain = rw plain refl
skip_blanks_lem (b ∷ blanks) c rest h plain = rw h.0 (skip_blanks_lem blanks c rest h.1 plain)

find_field_here :
    (text rest : List ℕ) → after_prefix field text ≡ some rest → find_field text ≡ some rest
unfolding find_field after_prefix
find_field_here [] rest e = e
find_field_here (c ∷ cs) rest e = ground (arith, e)

find_field_next :
    (c : ℕ) (cs : List ℕ) → after_prefix field (c ∷ cs) ≡ none → find_field (c ∷ cs) ≡ find_field cs
unfolding find_field
find_field_next c cs e = ground (arith, e)

find_field_first :
    (before text rest : List ℕ)
    → after_prefix field text ≡ some rest
    → IsFirst before text
    → find_field (before ++ text) ≡ some rest
find_field_first [] text rest e first = find_field_here text rest e
find_field_first (b ∷ before) text rest e first =
    find_field_next b (before ++ text) first.0 ∙ find_field_first before text rest e first.1

parse_value-release_text :
    (v : ReleaseVersion) (blanks blanks' tail : List ℕ)
    → IsVersion v
    → All IsBlank blanks
    → All IsBlank blanks'
    → parse_value (blanks ++ (b':' ∷ (blanks' ++ (b'"' ∷ b'v' ∷ version_text v tail)))) ≡ some v
unfolding parse_value expect skip_v
parse_value-release_text v blanks blanks' tail h blank blank' =
    rw
      (
        skip_blanks_lem blanks b':' (blanks' ++ (b'"' ∷ b'v' ∷ version_text v tail)) blank refl,
        skip_blanks_lem blanks' b'"' (b'v' ∷ version_text v tail) blank' refl,
      )
      (parse_components-version_text v tail h)

-- In a JSON text where the first "tag_name" is followed by a colon, with any blanks around it, and
-- by a version of three components up to 255 behind a `v`, this version is read.
pub parse-release_text :
    (v : ReleaseVersion) (before blanks blanks' tail : List ℕ)
    → IsVersion v
    → All IsBlank blanks
    → All IsBlank blanks'
    → IsFirst before (release_text v blanks blanks' tail)
    → parse_latest_release (before ++ release_text v blanks blanks' tail) ≡ some v
unfolding parse_latest_release after_prefix
parse-release_text v before blanks blanks' tail h blank blank' first =
    let behind_field = blanks ++ (b':' ∷ (blanks' ++ (b'"' ∷ b'v' ∷ version_text v tail))) in
    let long : ltb (length (before ++ release_text v blanks blanks' tail)) 11 ≡ false = ground (
      arith,
      length-append before (release_text v blanks blanks' tail),
      length-append blanks (b':' ∷ (blanks' ++ (b'"' ∷ b'v' ∷ version_text v tail))),
    ) in
    rw (long, find_field_first before (release_text v blanks blanks' tail) behind_field refl first)
      (parse_value-release_text v blanks blanks' tail h blank blank')

-- The components that the parser reads.
component_digits-lt :
    (cs : List ℕ) (parsed n : ℕ) (rest : List ℕ)
    → parsed < 256
    → component_digits parsed cs ≡ some (n, rest)
    → n < 256
unfolding component_digits
component_digits-lt [] parsed n rest h e = ground arith
component_digits-lt (c ∷ cs) parsed n rest h e =
    ground (arith, component_digits-lt cs (parsed * 10 + (c - b'0')) n rest)

parse_component-lt : (cs : List ℕ) {r : ℕ × List ℕ} → parse_component cs ≡ some r → r.0 < 256
unfolding parse_component
parse_component-lt [] {r} e = cc
parse_component-lt (c ∷ cs) {r} e = ground (arith, component_digits-lt (c ∷ cs) 0 r.0 r.1)

parse_components-IsVersion :
    (json : List ℕ) {v : ReleaseVersion} → parse_components json ≡ some v → IsVersion v
unfolding parse_components
parse_components-IsVersion json {v} e =
    let (first, read, e) = >>=-eq-some (parse_component json) _ e in
    let (behind, at, e) = >>=-eq-some (expect b'.' first.1) _ e in
    let (second, read', e) = >>=-eq-some (parse_component behind) _ e in
    let (behind', at', e) = >>=-eq-some (expect b'.' second.1) _ e in
    let (third, read'', e) = >>=-eq-some (parse_component behind') _ e in
    let (end, at'', e) = >>=-eq-some (expect b'"' third.1) _ e in
    ground (
      arith,
      parse_component-lt json read,
      parse_component-lt behind read',
      parse_component-lt behind' read'',
    )

parse_value-IsVersion :
    (json : List ℕ) {v : ReleaseVersion} → parse_value json ≡ some v → IsVersion v
unfolding parse_value
parse_value-IsVersion json {v} e =
    let (behind, at, e) = >>=-eq-some (expect b':' (skip_blanks json)) _ e in
    let (behind', at', e) = >>=-eq-some (expect b'"' (skip_blanks behind)) _ e in
    parse_components-IsVersion (skip_v behind') e

-- Every version that is read has three components of a byte.
pub parse_latest_release-IsVersion :
    (json : List ℕ) {v : ReleaseVersion} → parse_latest_release json ≡ some v → IsVersion v
unfolding parse_latest_release
parse_latest_release-IsVersion json {v} e = elim (Bool-cases (ltb (length json) 11)) [
  | inl short ↦ absurd (ground arith)
  | inr long ↦
      let read : (find_field json >>= parse_value) ≡ some v = ground arith in
      let (value, found, e) = >>=-eq-some (find_field json) _ read in parse_value-IsVersion value e
]

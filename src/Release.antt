-- ===== src/Release.antt =====
-- firmware/src/version.{h,c}: the version in the latest release of the firmware. The position in
-- the JSON text is the list of the bytes that follow it; `none` is the result `false`.
pub mod RoundTrip
use p2000t_teletekst_cartrid.CustomEndpoint.{is_digit}
use p2000t_teletekst_cartrid.Prelude.{
  ℕ, ◌+◌, ◌-◌, ◌*◌, Bool, ◌||◌, List, [], ◌∷◌, Option, none, some, length, ltb, ◌==◌, if◌then◌else◌,
  ◌>>=◌,
}

-- `p2wp_release_version_t`
pub record ReleaseVersion : Type 0 where
  pub major : ℕ
  pub minor : ℕ
  pub patch : ℕ

-- The do-while loop, behind a value parsed so far.
pub component_digits : ℕ → List ℕ → Option (ℕ × List ℕ)
component_digits parsed [] = some (parsed, [])
component_digits parsed (c ∷ cs) =
    let parsed' = parsed * 10 + (c - b'0') in
    let later = component_digits parsed' cs in
    if is_digit c then if ltb 255 parsed' then none else later else some (parsed, c ∷ cs)

pub parse_component : List ℕ → Option (ℕ × List ℕ)
parse_component [] = none
parse_component (c ∷ cs) = if is_digit c then component_digits 0 (c ∷ cs) else none

-- "\"tag_name\""
abbrev pub field : List ℕ
field = b'"' ∷ b't' ∷ b'a' ∷ b'g' ∷ b'_' ∷ b'n' ∷ b'a' ∷ b'm' ∷ b'e' ∷ b'"' ∷ []

-- `memcmp(json, prefix, n) == 0` within the text: what follows the prefix.
unfoldable pub after_prefix : List ℕ → List ℕ → Option (List ℕ)
after_prefix [] json = some json
after_prefix (p ∷ prefix) [] = none
after_prefix (p ∷ prefix) (c ∷ cs) = if c == p then after_prefix prefix cs else none

-- The search for the first occurrence of the field: what follows it.
pub find_field : List ℕ → Option (List ℕ)
find_field [] = none
find_field (c ∷ cs) =
    let later = find_field cs in
    elim (after_prefix field (c ∷ cs)) [ none ↦ later | some rest ↦ some rest ]

abbrev pub is_blank : ℕ → Bool
is_blank c = c == 32 || c == 9 || c == 13 || c == 10

unfoldable pub skip_blanks : List ℕ → List ℕ
skip_blanks [] = []
skip_blanks (c ∷ cs) = let rest = skip_blanks cs in if is_blank c then rest else c ∷ cs

-- `position == length || json[position++] != c`
unfoldable pub expect : ℕ → List ℕ → Option (List ℕ)
expect e [] = none
expect e (c ∷ cs) = if c == e then some cs else none

-- The optional `v` or `V`.
pub skip_v : List ℕ → List ℕ
skip_v [] = []
skip_v (c ∷ cs) = if c == b'v' || c == b'V' then cs else c ∷ cs

-- The three components, and the quote behind them.
pub parse_components : List ℕ → Option ReleaseVersion
parse_components json = do
  (major, rest) ← parse_component json
  rest ← expect b'.' rest
  (minor, rest) ← parse_component rest
  rest ← expect b'.' rest
  (patch, rest) ← parse_component rest
  rest ← expect b'"' rest
  some (record { major = major; minor = minor; patch = patch })

-- What is read behind the field.
pub parse_value : List ℕ → Option ReleaseVersion
parse_value json = do
  json ← expect b':' (skip_blanks json)
  json ← expect b'"' (skip_blanks json)
  parse_components (skip_v json)

unfoldable pub parse_latest_release : List ℕ → Option ReleaseVersion
unfolding find_field after_prefix parse_value parse_components parse_component component_digits
    expect skip_blanks skip_v
parse_latest_release json = if ltb (length json) 11 then none else find_field json >>= parse_value

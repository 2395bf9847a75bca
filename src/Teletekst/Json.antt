-- ===== src/Teletekst/Json.antt =====
-- firmware/src/teletekst.c: the search for a string in a JSON text, and its characters. A pointer
-- into the text is the list of the bytes from there to its end.
use p2000t_teletekst_cartrid.CustomEndpoint.{is_digit}
use p2000t_teletekst_cartrid.P2wp.Parser.{byte_at}
use p2000t_teletekst_cartrid.Prelude.{
  ℕ, zero, suc, ◌+◌, ◌-◌, ◌*◌, ◌%◌, ◌^◌, ◌<◌, ◌≤◌, Bool, true, false, not, ◌&&◌, ◌||◌, List, [],
  ◌∷◌, Option, none, some, ◌≡◌, ◌⊎◌, inl, inr, refl, ap, arith, bit_or, length, drop, All, ◌++◌,
  length-append, ltb, leb, ◌==◌, if◌then◌else◌, ◌>>=◌,
}
use p2000t_teletekst_cartrid.Release.{skip_blanks, expect}

-- `memcmp(text, prefix, n) == 0`, where the text has `n` bytes.
unfoldable pub starts_with : List ℕ → List ℕ → Bool
starts_with text [] = true
starts_with [] (p ∷ prefix) = false
starts_with (c ∷ text) (p ∷ prefix) = c == p && starts_with text prefix

-- What follows the quote that opens the value, behind a key that was found.
pub open_value : List ℕ → Option (List ℕ)
open_value cursor = expect b':' (skip_blanks cursor) >>= λ behind. expect b'"' (skip_blanks behind)

unfoldable pub find_json_string : List ℕ → List ℕ → Option (List ℕ)
unfolding starts_with open_value
find_json_string key [] = none
find_json_string key (c ∷ cs) =
    let later = find_json_string key cs in
    if not (ltb (length key + 2) (length (c ∷ cs)))
    then none
    else if c == b'"' && starts_with cs key && byte_at cs (length key) == b'"'
    then open_value (drop (length key + 1) cs)
    else later

-- What `json_string_next` returns: -1, -2 or a code point.
pub data Next : Type 0 where
  closing malformed : Next
  codepoint : ℕ → Next

-- The value of a hexadecimal digit.
pub hex_value : ℕ → Option ℕ
hex_value hex =
    if is_digit hex
    then some (hex - b'0')
    else if leb b'a' hex && leb hex b'f'
    then some (hex - b'a' + 10)
    else if leb b'A' hex && leb hex b'F'
    then some (hex - b'A' + 10)
    else none

-- The loop over the digits of `\u` that are left.
pub hex_digits : ℕ → ℕ → List ℕ → Next × List ℕ
hex_digits zero value cs = (codepoint value, cs)
hex_digits (suc left) value [] = (malformed, [])
hex_digits (suc left) value (hex ∷ cs) = elim (hex_value hex) [
  | none ↦ (malformed, cs)
  | some digit ↦ hex_digits left (bit_or (value * 16 % 2 ^ 32) digit) cs
]

-- What a backslash starts.
pub escaped : List ℕ → Next × List ℕ
escaped [] = (malformed, [])
escaped (c ∷ cs) =
    if c == b'"' || c == 92 || c == b'/'
    then (codepoint c, cs)
    else if c == b'b'
    then (codepoint 8, cs)
    else if c == b'f'
    then (codepoint 12, cs)
    else if c == b'n'
    then (codepoint 10, cs)
    else if c == b'r'
    then (codepoint 13, cs)
    else if c == b't'
    then (codepoint 9, cs)
    else if c == b'u'
    then hex_digits 4 0 cs
    else (malformed, cs)

unfoldable pub json_string_next : List ℕ → Next × List ℕ
unfolding escaped hex_digits hex_value
json_string_next [] = (malformed, [])
json_string_next (c ∷ cs) =
    if c == b'"' then (closing, cs) else if not (c == 92) then (codepoint c, cs) else escaped cs

-- A call's result, in front of those of the later calls.
pub joined : Next → List ℕ × Bool → List ℕ × Bool
joined closing later = ([], true)
joined malformed later = ([], false)
joined (codepoint c) later = (c ∷ later.0, later.1)

-- The code points up to the end of the string, and whether the string ends with a quote.
pub codepoints : ℕ → List ℕ → List ℕ × Bool
codepoints zero cs = ([], false)
codepoints (suc fuel) cs =
    let (next, rest) = json_string_next cs in joined next (codepoints fuel rest)

-- What a loop over `json_string_next` sees: each call takes a byte, so the length is fuel enough.
unfoldable pub string_codepoints : List ℕ → List ℕ × Bool
unfolding codepoints joined
string_codepoints cs = codepoints (suc (length cs)) cs

hex_digits-le : (left value : ℕ) (cs : List ℕ) → length (hex_digits left value cs).1 ≤ length cs
unfolding hex_digits
hex_digits-le zero value cs = omega arith
hex_digits-le (suc left) value [] = omega arith
hex_digits-le (suc left) value (hex ∷ cs) =
    let later : (v : ℕ) → length (hex_digits left v cs).1 ≤ length cs =
      λ v. hex_digits-le left v cs in
    grind arith

escaped-le : (cs : List ℕ) → length (escaped cs).1 ≤ length cs
unfolding escaped
escaped-le [] = omega arith
escaped-le (c ∷ cs) = ground (arith, hex_digits-le 4 0 cs)

pub json_string_next-lt : (c : ℕ) (cs : List ℕ) → length (json_string_next (c ∷ cs)).1 ≤ length cs
unfolding json_string_next
json_string_next-lt c cs = ground (arith, escaped-le cs)

pub json_string_next-le : (cs : List ℕ) → length (json_string_next cs).1 ≤ length cs
unfolding json_string_next
json_string_next-le [] = omega arith
json_string_next-le (c ∷ cs) = omega (arith, json_string_next-lt c cs)

pub Next-cases :
    (next : Next) → (next ≡ closing) ⊎ ((next ≡ malformed) ⊎ ((c : ℕ) × (next ≡ codepoint c)))
Next-cases closing = inl refl
Next-cases malformed = inr (inl refl)
Next-cases (codepoint c) = inr (inr (c, refl))

-- More fuel than the length changes nothing.
codepoints_fuel :
    (fuel more : ℕ) (cs : List ℕ)
    → length cs < fuel
    → length cs < more
    → codepoints fuel cs ≡ codepoints more cs
unfolding codepoints joined json_string_next
codepoints_fuel zero more cs h k = absurd (omega arith)
codepoints_fuel (suc fuel) zero cs h k = absurd (omega arith)
codepoints_fuel (suc fuel) (suc more) [] h k = refl
codepoints_fuel (suc fuel) (suc more) (c ∷ cs) h k =
    let (next, rest) = json_string_next (c ∷ cs) in
    let same =
      codepoints_fuel fuel more rest (omega (arith, json_string_next-lt c cs))
        (omega (arith, json_string_next-lt c cs)) in
    ap (joined next) same

joined-le :
    (next : Next) (later : List ℕ × Bool) (n : ℕ)
    → length later.0 ≤ n
    → length (joined next later).0 ≤ suc n
unfolding joined
joined-le closing later n h = omega arith
joined-le malformed later n h = omega arith
joined-le (codepoint c) later n h = omega arith

codepoints-le : (fuel : ℕ) (cs : List ℕ) → length (codepoints fuel cs).0 ≤ length cs
unfolding codepoints joined json_string_next
codepoints-le zero cs = omega arith
codepoints-le (suc fuel) [] = omega arith
codepoints-le (suc fuel) (c ∷ cs) =
    let (next, rest) = json_string_next (c ∷ cs) in
    let later = codepoints-le fuel rest in
    let shorter = json_string_next-lt c cs in
    joined-le next (codepoints fuel rest) (length cs) (omega arith)

-- A string of a JSON text has no more code points than the text has bytes, and a loop over
-- `json_string_next` with any fuel above the number of bytes reads all of them.
pub codepoints-string_codepoints :
    (fuel : ℕ) (cs : List ℕ)
    → length cs < fuel
    → (codepoints fuel cs ≡ string_codepoints cs) × (length (string_codepoints cs).0 ≤ length cs)
unfolding string_codepoints
codepoints-string_codepoints fuel cs h =
    (codepoints_fuel fuel (suc (length cs)) cs h (omega arith), codepoints-le (suc (length cs)) cs)

-- A byte that stands for itself inside a string.
abbrev pub is_plain : ℕ → Bool
is_plain c = not (c == b'"') && not (c == 92)

codepoints-plain :
    (text rest : List ℕ) (fuel : ℕ)
    → All (λ c. is_plain c ≡ true) text
    → length text < fuel
    → codepoints fuel (text ++ (b'"' ∷ rest)) ≡ (text, true)
unfolding codepoints joined json_string_next
codepoints-plain text rest zero p h = absurd (omega arith)
codepoints-plain [] rest (suc fuel) p h = refl
codepoints-plain (c ∷ text) rest (suc fuel) p h =
    let later = codepoints-plain text rest fuel p.1 (omega arith) in
    let plain = p.0 in ground (arith, later)

-- A text of plain bytes in front of a quote.
pub string_codepoints-plain :
    (text rest : List ℕ)
    → All (λ c. is_plain c ≡ true) text
    → string_codepoints (text ++ (b'"' ∷ rest)) ≡ (text, true)
unfolding string_codepoints
string_codepoints-plain text rest p =
    codepoints-plain text rest (suc (length (text ++ (b'"' ∷ rest)))) p
      (omega (arith, length-append text (b'"' ∷ rest)))

-- ===== src/Teletekst/Binary.antt =====
-- firmware/src/teletekst.c: a screen in base64. The screen is the list of the bytes written to it.
pub mod Outcomes
use p2000t_teletekst_cartrid.CustomEndpoint.{is_digit, is_lower, is_upper}
use p2000t_teletekst_cartrid.P2wp.Frame.{IsByte, u8}
use p2000t_teletekst_cartrid.Prelude.Bits.{bit_or_fields, bit_or_comm}
use p2000t_teletekst_cartrid.Prelude.{
  ℕ, ◌+◌, ◌-◌, ◌*◌, ◌/◌, ◌%◌, ◌^◌, ◌<◌, ◌≤◌, Bool, true, ◌&&◌, List, [], ◌∷◌, ◌++◌, Option, none,
  some, ◌≡◌, ap, ap₂, ◌∙◌, arith, bit_or, length, All, ltb, ◌==◌, if◌then◌else◌, length-append,
  append_assoc, append-nil,
}
use p2000t_teletekst_cartrid.Teletekst.Json.{
  is_plain, string_codepoints-plain, find_json_string, string_codepoints,
}

abbrev pub screen_size : ℕ
screen_size = 960

-- `none` is -1.
pub base64_value : ℕ → Option ℕ
base64_value c =
    if is_upper c
    then some (c - b'A')
    else if is_lower c
    then some (c - b'a' + 26)
    else if is_digit c
    then some (c - b'0' + 52)
    else if c == b'+'
    then some 62
    else if c == b'/'
    then some 63
    else none

-- `binary_display_result_t`
pub data BinaryDisplay : Type 0 where
  absent valid invalid : BinaryDisplay

-- The loop, on the code points that are left and whether the string is closed behind them.
pub decode_groups : List ℕ → Bool → ℕ → ℕ → List ℕ → BinaryDisplay × List ℕ
decode_groups [] closed group sextets screen =
    if closed && sextets == 0 && length screen == screen_size
    then (valid, screen)
    else (invalid, screen)
decode_groups (c ∷ cs) closed group sextets screen = elim (base64_value c) [
  | none ↦ (invalid, screen)
  | some decoded ↦
      let group' = bit_or (group * 2 ^ 6 % 2 ^ 32) decoded in
      let written = screen ++ (u8 (group' / 2 ^ 16) ∷ u8 (group' / 2 ^ 8) ∷ u8 group' ∷ []) in
      let full = decode_groups cs closed 0 0 written in
      let more = decode_groups cs closed group' (sextets + 1) screen in
      if sextets + 1 == 4
      then if ltb (screen_size - 3) (length screen) then (invalid, screen) else full
      else more
]

-- "binaryDisplay"
abbrev pub binary_key : List ℕ
binary_key =
    b'b' ∷ b'i' ∷ b'n' ∷ b'a' ∷ b'r' ∷ b'y' ∷ b'D' ∷ b'i' ∷ b's' ∷ b'p' ∷ b'l' ∷ b'a' ∷ b'y' ∷ []

unfoldable pub parse_binary_display : List ℕ → BinaryDisplay × List ℕ
unfolding decode_groups base64_value
parse_binary_display json = elim (find_json_string binary_key json) [
  | none ↦ (absent, [])
  | some value ↦ let (cs, closed) = string_codepoints value in decode_groups cs closed 0 0 []
]

-- The character of a sextet.
unfoldable pub base64_char : ℕ → ℕ
base64_char v =
    if ltb v 26
    then b'A' + v
    else if ltb v 52
    then b'a' + (v - 26)
    else if ltb v 62
    then b'0' + (v - 52)
    else if v == 62
    then b'+'
    else b'/'

-- The base64 text of bytes, for a number of bytes that three divides.
unfoldable pub base64 : List ℕ → List ℕ
base64 (a ∷ b ∷ c ∷ bytes) =
    base64_char (a / 4)
    ∷ base64_char (a % 4 * 16 + b / 16)
    ∷ base64_char (b % 16 * 4 + c / 64)
    ∷ base64_char (c % 64)
    ∷ base64 bytes
base64 bytes = []

base64_value-base64_char : (v : ℕ) → v < 64 → base64_value (base64_char v) ≡ some v
unfolding base64_value base64_char
base64_value-base64_char v h = ground arith

base64_char-is_plain : (v : ℕ) → v < 64 → is_plain (base64_char v) ≡ true
unfolding base64_char
base64_char-is_plain v h = ground arith

base64-plain : (bytes : List ℕ) → All IsByte bytes → All (λ c. is_plain c ≡ true) (base64 bytes)
unfolding base64
base64-plain [] p = tt
base64-plain (a ∷ []) p = tt
base64-plain (a ∷ b ∷ []) p = tt
base64-plain (a ∷ b ∷ c ∷ bytes) (pa, (pb, (pc, p))) = (
  base64_char-is_plain (a / 4) (omega arith),
  (
    base64_char-is_plain (a % 4 * 16 + b / 16) (omega arith),
    (
      base64_char-is_plain (b % 16 * 4 + c / 64) (omega arith),
      (base64_char-is_plain (c % 64) (omega arith), base64-plain bytes p),
    ),
  ),
)

the_same : (group : ℕ) → group < 2 ^ 18 → group * 2 ^ 6 % 2 ^ 32 ≡ group * 2 ^ 6
the_same group h = omega arith

-- A sextet that is shifted in.
shift_in :
    (group v : ℕ) → group < 2 ^ 18 → v < 64 → bit_or (group * 2 ^ 6 % 2 ^ 32) v ≡ group * 64 + v
shift_in group v h k =
    ap (λ g. bit_or g v) (the_same group h)
    ∙ bit_or_comm (group * 2 ^ 6) v
    ∙ bit_or_fields 6 v group k
    ∙ omega arith

decode_sextet :
    (v : ℕ) (cs : List ℕ) (closed : Bool) (group sextets : ℕ) (screen : List ℕ)
    → v < 64
    → group < 2 ^ 18
    → sextets < 3
    → decode_groups (base64_char v ∷ cs) closed group sextets screen
      ≡ decode_groups cs closed (group * 64 + v) (sextets + 1) screen
unfolding decode_groups
decode_sextet v cs closed group sextets screen h k small =
    ground (arith, base64_value-base64_char v h, shift_in group v k h)

decode_last :
    (v : ℕ) (cs : List ℕ) (closed : Bool) (group : ℕ) (screen : List ℕ)
    → v < 64
    → group < 2 ^ 18
    → length screen ≤ screen_size - 3
    → decode_groups (base64_char v ∷ cs) closed group 3 screen
      ≡ decode_groups cs closed 0 0 (
          screen
          ++ (u8 ((group * 64 + v) / 2 ^ 16)
              ∷ u8 ((group * 64 + v) / 2 ^ 8)
              ∷ u8 (group * 64 + v)
              ∷ []))
unfolding decode_groups
decode_last v cs closed group screen h k room =
    ground (arith, base64_value-base64_char v h, shift_in group v k h)

module _ (a b c : ℕ) (cs : List ℕ) (closed : Bool) (screen : List ℕ) (pa : a < 256) (pb : b < 256)
    (pc : c < 256) (room : length screen ≤ screen_size - 3) where
  -- Four characters of the text bring three bytes.
  decode_triple :
      decode_groups
        (base64_char (a / 4)
          ∷ base64_char (a % 4 * 16 + b / 16)
          ∷ base64_char (b % 16 * 4 + c / 64)
          ∷ base64_char (c % 64)
          ∷ cs)
        closed
        0
        0
        screen
      ≡ decode_groups cs closed 0 0 (screen ++ (a ∷ b ∷ c ∷ []))
  decode_triple =
      let x = a / 4 in
      let y = a % 4 * 16 + b / 16 in
      let z = b % 16 * 4 + c / 64 in
      let w = c % 64 in
      let g = ((0 * 64 + x) * 64 + y) * 64 + z in
      let bytes : (u8 ((g * 64 + w) / 2 ^ 16) ≡ a)
          × (u8 ((g * 64 + w) / 2 ^ 8) ≡ b)
          × (u8 (g * 64 + w) ≡ c) =
        (omega arith, omega arith, omega arith) in
      decode_sextet x (base64_char y ∷ base64_char z ∷ base64_char w ∷ cs) closed 0 0 screen
        (omega arith) (omega arith) (omega arith)
      ∙ decode_sextet y (base64_char z ∷ base64_char w ∷ cs) closed (0 * 64 + x) 1 screen
          (omega arith) (omega arith) (omega arith)
      ∙ decode_sextet z (base64_char w ∷ cs) closed ((0 * 64 + x) * 64 + y) 2 screen (omega arith)
          (omega arith) (omega arith)
      ∙ decode_last w cs closed g screen (omega arith) (omega arith) room
      ∙ ap (λ t. decode_groups cs closed 0 0 (screen ++ t))
          (ap₂ ◌∷◌ bytes.0 (ap₂ (λ p q. p ∷ q ∷ []) bytes.1 bytes.2))

decode_groups-base64 :
    (bytes screen : List ℕ)
    → All IsByte bytes
    → length bytes % 3 ≡ 0
    → length screen + length bytes ≡ screen_size
    → decode_groups (base64 bytes) true 0 0 screen ≡ (valid, screen ++ bytes)
unfolding base64 decode_groups
decode_groups-base64 [] screen p thirds sized = rw append-nil (ground arith)
decode_groups-base64 (a ∷ []) screen p thirds sized = absurd (omega arith)
decode_groups-base64 (a ∷ b ∷ []) screen p thirds sized = absurd (omega arith)
decode_groups-base64 (a ∷ b ∷ c ∷ bytes) screen (pa, (pb, (pc, p))) thirds sized =
    decode_triple a b c (base64 bytes) true screen pa pb pc (omega arith)
    ∙ decode_groups-base64 bytes (screen ++ (a ∷ b ∷ c ∷ [])) p (omega arith)
        (omega (arith, length-append screen (a ∷ b ∷ c ∷ [])))
    ∙ ap (λ t. (valid, t)) (append_assoc screen (a ∷ b ∷ c ∷ []) bytes)

-- Where the text behind the opening quote of "binaryDisplay" is the base64 of 960 bytes and a
-- quote, the screen is valid and holds these bytes.
pub parse_binary_display-base64 :
    (json bytes rest : List ℕ)
    → All IsByte bytes
    → length bytes ≡ screen_size
    → find_json_string binary_key json ≡ some (base64 bytes ++ (b'"' ∷ rest))
    → parse_binary_display json ≡ (valid, bytes)
unfolding parse_binary_display
parse_binary_display-base64 json bytes rest p sized found = ground (
  arith,
  found,
  string_codepoints-plain (base64 bytes) rest (base64-plain bytes p),
  decode_groups-base64 bytes [] p (omega arith) (omega arith),
)

pub decode_groups-valid :
    (cs : List ℕ) (closed : Bool) (group sextets : ℕ) (screen : List ℕ) {out : List ℕ}
    → decode_groups cs closed group sextets screen ≡ (valid, out)
    → length out ≡ screen_size
unfolding decode_groups
decode_groups-valid [] closed group sextets screen {out} e = ground arith
decode_groups-valid (c ∷ cs) closed group sextets screen {out} e =
    let later : (group sextets : ℕ) (screen : List ℕ)
        → decode_groups cs closed group sextets screen ≡ (valid, out)
        → length out ≡ screen_size =
      λ g s t h. decode_groups-valid cs closed g s t h in
    grind arith

-- The bytes that are written never exceed the screen, whatever the text.
decode_groups-le :
    (cs : List ℕ) (closed : Bool) (group sextets : ℕ) (screen : List ℕ)
    → length screen ≤ screen_size
    → length (decode_groups cs closed group sextets screen).1 ≤ screen_size
unfolding decode_groups
decode_groups-le [] closed group sextets screen h = ground arith
decode_groups-le (c ∷ cs) closed group sextets screen h =
    let later : (group sextets : ℕ) (screen : List ℕ)
        → length screen ≤ screen_size
        → length (decode_groups cs closed group sextets screen).1 ≤ screen_size =
      λ g s t k. decode_groups-le cs closed g s t k in
    let three : (x y z : ℕ) → length (screen ++ (x ∷ y ∷ z ∷ [])) ≡ length screen + 3 =
      λ x y z. omega (arith, length-append screen (x ∷ y ∷ z ∷ [])) in
    grind arith

-- No text makes the decoder write behind the 960 bytes of the screen.
parse_binary_display-le : (json : List ℕ) → length (parse_binary_display json).1 ≤ screen_size
unfolding parse_binary_display
parse_binary_display-le json =
    let bounded : (cs : List ℕ) (closed : Bool)
        → length (decode_groups cs closed 0 0 []).1 ≤ screen_size =
      λ cs closed. decode_groups-le cs closed 0 0 [] (omega arith) in
    grind arith

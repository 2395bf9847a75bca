-- ===== src/Teletekst/Characters.antt =====
-- firmware/src/teletekst.c: the entities of a page's content, and the glyphs of the P2000T.
use p2000t_teletekst_cartrid.CustomEndpoint.{is_digit}
use p2000t_teletekst_cartrid.Prelude.{
  ℕ, ◌+◌, ◌-◌, ◌*◌, ◌/◌, ◌^◌, ◌≤◌, ◌<◌, not, ◌&&◌, ◌||◌, List, [], ◌∷◌, Option, none, some, length,
  ltb, leb, ◌==◌, if◌then◌else◌, All, ◌≡◌, refl, sym, arith, ◌⊎◌, inl, inr,
}
use p2000t_teletekst_cartrid.Teletekst.Style.{lookup_name}

-- `UINT32_MAX`
abbrev pub no_codepoint : ℕ
no_codepoint = 2 ^ 32 - 1

entity_digit : ℕ → ℕ → Option ℕ
entity_digit base character =
    if is_digit character
    then some (character - b'0')
    else if base == 16 && leb b'a' character && leb character b'f'
    then some (character - b'a' + 10)
    else if base == 16 && leb b'A' character && leb character b'F'
    then some (character - b'A' + 10)
    else none

-- The loop over the digits of a number.
entity_digits : ℕ → ℕ → List ℕ → ℕ
entity_digits base value [] = value
entity_digits base value (c ∷ cs) = elim (entity_digit base c) [
  | none ↦ no_codepoint
  | some digit ↦
      let later = entity_digits base (value * base + digit) cs in
      if not (ltb digit base) || ltb ((no_codepoint - digit) / base) value
      then no_codepoint
      else later
]

-- Behind `#` and the mark of the base.
entity_number : ℕ → List ℕ → ℕ
entity_number base [] = no_codepoint
entity_number base (c ∷ cs) = entity_digits base 0 (c ∷ cs)

numeric_entity : List ℕ → ℕ
numeric_entity [] = no_codepoint
numeric_entity (c ∷ cs) =
    if c == b'x' || c == b'X' then entity_number 16 cs else entity_number 10 (c ∷ cs)

abbrev named_entities : List (List ℕ × ℕ)
named_entities =
    (b'a' ∷ b'm' ∷ b'p' ∷ [], b'&')
    ∷ (b'l' ∷ b't' ∷ [], b'<')
    ∷ (b'g' ∷ b't' ∷ [], b'>')
    ∷ (b'q' ∷ b'u' ∷ b'o' ∷ b't' ∷ [], b'"')
    ∷ (b'a' ∷ b'p' ∷ b'o' ∷ b's' ∷ [], 0x27)
    ∷ (b'n' ∷ b'b' ∷ b's' ∷ b'p' ∷ [], b' ')
    ∷ (b'p' ∷ b'o' ∷ b'u' ∷ b'n' ∷ b'd' ∷ [], 0x00a3)
    ∷ (b'a' ∷ b'a' ∷ b'c' ∷ b'u' ∷ b't' ∷ b'e' ∷ [], 0x00e1)
    ∷ (b'A' ∷ b'a' ∷ b'c' ∷ b'u' ∷ b't' ∷ b'e' ∷ [], 0x00c1)
    ∷ (b'a' ∷ b'g' ∷ b'r' ∷ b'a' ∷ b'v' ∷ b'e' ∷ [], 0x00e0)
    ∷ (b'A' ∷ b'g' ∷ b'r' ∷ b'a' ∷ b'v' ∷ b'e' ∷ [], 0x00c0)
    ∷ (b'a' ∷ b'u' ∷ b'm' ∷ b'l' ∷ [], 0x00e4)
    ∷ (b'A' ∷ b'u' ∷ b'm' ∷ b'l' ∷ [], 0x00c4)
    ∷ (b'e' ∷ b'a' ∷ b'c' ∷ b'u' ∷ b't' ∷ b'e' ∷ [], 0x00e9)
    ∷ (b'E' ∷ b'a' ∷ b'c' ∷ b'u' ∷ b't' ∷ b'e' ∷ [], 0x00c9)
    ∷ (b'e' ∷ b'g' ∷ b'r' ∷ b'a' ∷ b'v' ∷ b'e' ∷ [], 0x00e8)
    ∷ (b'E' ∷ b'g' ∷ b'r' ∷ b'a' ∷ b'v' ∷ b'e' ∷ [], 0x00c8)
    ∷ (b'e' ∷ b'u' ∷ b'm' ∷ b'l' ∷ [], 0x00eb)
    ∷ (b'E' ∷ b'u' ∷ b'm' ∷ b'l' ∷ [], 0x00cb)
    ∷ (b'i' ∷ b'u' ∷ b'm' ∷ b'l' ∷ [], 0x00ef)
    ∷ (b'I' ∷ b'u' ∷ b'm' ∷ b'l' ∷ [], 0x00cf)
    ∷ (b'o' ∷ b'u' ∷ b'm' ∷ b'l' ∷ [], 0x00f6)
    ∷ (b'O' ∷ b'u' ∷ b'm' ∷ b'l' ∷ [], 0x00d6)
    ∷ (b'u' ∷ b'u' ∷ b'm' ∷ b'l' ∷ [], 0x00fc)
    ∷ (b'U' ∷ b'u' ∷ b'm' ∷ b'l' ∷ [], 0x00dc)
    ∷ (b'c' ∷ b'c' ∷ b'e' ∷ b'd' ∷ b'i' ∷ b'l' ∷ [], 0x00e7)
    ∷ (b'C' ∷ b'c' ∷ b'e' ∷ b'd' ∷ b'i' ∷ b'l' ∷ [], 0x00c7)
    ∷ []

unfoldable pub entity_codepoint : List ℕ → ℕ
unfolding entity_digit entity_digits entity_number numeric_entity lookup_name
entity_codepoint [] = no_codepoint
entity_codepoint (c ∷ cs) =
    if leb 2 (length (c ∷ cs)) && c == b'#'
    then numeric_entity cs
    else elim (lookup_name named_entities (c ∷ cs)) [
      | none ↦ no_codepoint
      | some codepoint ↦ codepoint
    ]

-- The cases of a `switch`, in order.
find_glyph : List (ℕ × ℕ) → ℕ → Option ℕ
find_glyph [] codepoint = none
find_glyph ((c, glyph) ∷ cases) codepoint =
    let later = find_glyph cases codepoint in if codepoint == c then some glyph else later

abbrev exact_glyphs : List (ℕ × ℕ)
exact_glyphs =
    (b'#', 0x5f)
    ∷ (b'|', 0x7c)
    ∷ (b'[', b'(')
    ∷ (92, b'/')
    ∷ (b']', b')')
    ∷ (b'^', 0x5e)
    ∷ (b'_', 0x60)
    ∷ (b'`', 0x27)
    ∷ (b'{', b'(')
    ∷ (b'}', b')')
    ∷ (b'~', 0x60)
    ∷ (0x7f, b'?')
    ∷ (0x00a3, 0x23)
    ∷ (0x00bc, 0x7b)
    ∷ (0x00bd, 0x5c)
    ∷ (0x00be, 0x7d)
    ∷ (0x00f7, 0x7e)
    ∷ (0x2014, 0x60)
    ∷ (0x2190, 0x5b)
    ∷ (0x2191, 0x5e)
    ∷ (0x2192, 0x5d)
    ∷ (0x2588, 0x7f)
    ∷ (0x25a0, 0x7f)
    ∷ []

abbrev plain_letters : List (ℕ × ℕ)
plain_letters =
    (0x00c0, b'A')
    ∷ (0x00c1, b'A')
    ∷ (0x00c2, b'A')
    ∷ (0x00c3, b'A')
    ∷ (0x00c4, b'A')
    ∷ (0x00c5, b'A')
    ∷ (0x00e0, b'a')
    ∷ (0x00e1, b'a')
    ∷ (0x00e2, b'a')
    ∷ (0x00e3, b'a')
    ∷ (0x00e4, b'a')
    ∷ (0x00e5, b'a')
    ∷ (0x00c7, b'C')
    ∷ (0x00e7, b'c')
    ∷ (0x00c8, b'E')
    ∷ (0x00c9, b'E')
    ∷ (0x00ca, b'E')
    ∷ (0x00cb, b'E')
    ∷ (0x00e8, b'e')
    ∷ (0x00e9, b'e')
    ∷ (0x00ea, b'e')
    ∷ (0x00eb, b'e')
    ∷ (0x00cc, b'I')
    ∷ (0x00cd, b'I')
    ∷ (0x00ce, b'I')
    ∷ (0x00cf, b'I')
    ∷ (0x00ec, b'i')
    ∷ (0x00ed, b'i')
    ∷ (0x00ee, b'i')
    ∷ (0x00ef, b'i')
    ∷ (0x00d1, b'N')
    ∷ (0x00f1, b'n')
    ∷ (0x00d2, b'O')
    ∷ (0x00d3, b'O')
    ∷ (0x00d4, b'O')
    ∷ (0x00d5, b'O')
    ∷ (0x00d6, b'O')
    ∷ (0x00f2, b'o')
    ∷ (0x00f3, b'o')
    ∷ (0x00f4, b'o')
    ∷ (0x00f5, b'o')
    ∷ (0x00f6, b'o')
    ∷ (0x00d9, b'U')
    ∷ (0x00da, b'U')
    ∷ (0x00db, b'U')
    ∷ (0x00dc, b'U')
    ∷ (0x00f9, b'u')
    ∷ (0x00fa, b'u')
    ∷ (0x00fb, b'u')
    ∷ (0x00fc, b'u')
    ∷ []

unfoldable pub transliterate : ℕ → ℕ
unfolding find_glyph
transliterate codepoint = elim (find_glyph exact_glyphs codepoint) [
  | some glyph ↦ glyph
  | none ↦
      if leb 0x20 codepoint && leb codepoint 0x7a
      then codepoint
      else elim (find_glyph plain_letters codepoint) [ some glyph ↦ glyph | none ↦ b'?' ]
]

-- A glyph of seven bits that is no control code.
abbrev pub IsPrinted : ℕ → Type 0
IsPrinted glyph = (0x20 ≤ glyph) × (glyph < 0x80)

find_glyph-IsPrinted :
    (cases : List (ℕ × ℕ)) (codepoint glyph : ℕ)
    → All (λ entry. IsPrinted entry.1) cases
    → find_glyph cases codepoint ≡ some glyph
    → IsPrinted glyph
unfolding find_glyph
find_glyph-IsPrinted [] codepoint glyph v e = cc
find_glyph-IsPrinted ((c, g) ∷ cases) codepoint glyph v e =
    ground (arith, find_glyph-IsPrinted cases codepoint glyph v.1)

plain_letters-IsPrinted : All (λ entry. IsPrinted entry.1) plain_letters
plain_letters-IsPrinted = omega arith

exact_glyphs-IsPrinted : All (λ entry. IsPrinted entry.1) exact_glyphs
exact_glyphs-IsPrinted = omega arith

find_glyph-cases :
    (cases : List (ℕ × ℕ)) (codepoint : ℕ)
    → All (λ entry. IsPrinted entry.1) cases
    → ((glyph : ℕ) × (find_glyph cases codepoint ≡ some glyph) × IsPrinted glyph)
      ⊎ (find_glyph cases codepoint ≡ none)
find_glyph-cases cases codepoint v =
    elim (find_glyph cases codepoint)
        as (λ found.
          (found ≡ find_glyph cases codepoint)
          → ((glyph : ℕ) × (find_glyph cases codepoint ≡ some glyph) × IsPrinted glyph)
            ⊎ (find_glyph cases codepoint ≡ none)) [
              | some glyph ↦
                  λ e. inl (glyph, sym e, find_glyph-IsPrinted cases codepoint glyph v (sym e))
              | none ↦ λ e. inr (sym e)
            ]
      refl

-- Every code point has a glyph that can be displayed.
pub transliterate-IsPrinted : (codepoint : ℕ) → IsPrinted (transliterate codepoint)
unfolding transliterate
transliterate-IsPrinted codepoint =
    elim (find_glyph-cases exact_glyphs codepoint exact_glyphs-IsPrinted) [
      | inl (glyph, found, printed) ↦ rw (found, transliterate) printed
      | inr other ↦
          rw (other, transliterate)
            (elim (find_glyph-cases plain_letters codepoint plain_letters-IsPrinted) [
              | inl (glyph, found, printed) ↦ rw found (ground arith)
              | inr unknown ↦ rw unknown (ground arith)
            ])
    ]

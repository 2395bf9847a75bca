-- ===== src/Teletekst/Content.antt =====
-- firmware/src/teletekst.c: the content of a page, from its markup to the cells of 25 rows. The
-- array of cells is flat, row behind row.
pub mod Cells
pub mod Fuel
use p2000t_teletekst_cartrid.Prelude.{
  ℕ, zero, suc, ◌+◌, ◌-◌, ◌*◌, Bool, true, false, not, ◌&&◌, ◌||◌, List, [], ◌∷◌, Option, none,
  some, bit_and, set, replicate, length, ltb, leb, ◌==◌, if◌then◌else◌, ◌>>=◌,
}
use p2000t_teletekst_cartrid.Teletekst.Characters.{no_codepoint, entity_codepoint, transliterate}
use p2000t_teletekst_cartrid.Teletekst.Json.{
  Next, closing, malformed, codepoint, find_json_string, json_string_next,
}
use p2000t_teletekst_cartrid.Teletekst.Row.{Cell, DisplayState, initial, alpha, graphics}
use p2000t_teletekst_cartrid.Teletekst.Style.{Markup, parse_tag, stack_depth}

abbrev pub columns : ℕ
columns = 40

abbrev pub source_rows : ℕ
source_rows = 25

abbrev pub tag_max : ℕ
tag_max = 127

abbrev pub entity_max : ℕ
entity_max = 31

-- The cells, and where the next one goes.
pub record Page : Type 0 where
  pub cells : List Cell
  pub row : ℕ
  pub column : ℕ

abbrev is_mosaic : ℕ → Bool
is_mosaic c = leb 0xf020 c && leb c 0xf07f && not (bit_and c 0x20 == 0)

pub make_cell : DisplayState → ℕ → Cell
make_cell style c = record {
  glyph = if is_mosaic c then c - 0xf000 else transliterate c;
  foreground = style.foreground;
  background = style.background;
  mode = if is_mosaic c then graphics else alpha;
}

-- `none` is false.
unfoldable pub append_cell : Page → DisplayState → ℕ → Option Page
unfolding make_cell
append_cell page style c =
    if c == 13
    then some page
    else if c == 10
    then if not (page.column == columns) || not (ltb page.row source_rows)
      then none
      else some (record page { row = page.row + 1; column = 0 })
    else if not (ltb page.row source_rows) || not (ltb page.column columns)
    then none
    else some (record page {
      cells = set page.cells (page.row * columns + page.column) (make_cell style c);
      column = page.column + 1;
    })

-- The loop over a tag, with room for so many bytes: the tag, and the text behind it.
read_tag : ℕ → List ℕ → Option (List ℕ × List ℕ)
read_tag zero reader = none
read_tag (suc room) reader =
    let (next, rest) = json_string_next reader in
    elim next [
      | closing ↦ none
      | malformed ↦ none
      | codepoint c ↦
          if c == b'>'
          then some ([], rest)
          else (read_tag room rest >>= λ tag.
              some ((if leb c 0x7f then c else b'?') ∷ tag.0, tag.1))
    ]

-- The loop over an entity; `none` where no `;` ends it.
read_entity : ℕ → List ℕ → Option (List ℕ × List ℕ)
read_entity zero reader = none
read_entity (suc room) reader =
    let (next, rest) = json_string_next reader in
    elim next [
      | closing ↦ none
      | malformed ↦ none
      | codepoint c ↦
          if c == b';'
          then some ([], rest)
          else if ltb 0x7f c
          then none
          else (read_entity room rest >>= λ entity. some (c ∷ entity.0, entity.1))
    ]

-- A character that is no tag: its code point, and the text behind it.
read_character : ℕ → List ℕ → ℕ × List ℕ
read_character c rest =
    let entity : ℕ × List ℕ = elim (read_entity entity_max rest) [
      | none ↦ (b'&', rest)
      | some (name, behind) ↦
          if entity_codepoint name == no_codepoint
          then (b'&', rest)
          else (entity_codepoint name, behind)
    ] in
    if c == b'&' then entity else (c, rest)

-- One round of the loop, behind a character: the text that is left, the markup and the page.
unfoldable pub take_character : ℕ → List ℕ → Markup → Page → Option (List ℕ × Markup × Page)
unfolding read_tag read_character read_entity
take_character c rest m page =
    if c == b'<'
    then (read_tag tag_max rest >>= λ tag. parse_tag tag.0 m >>= λ m'. some (tag.1, m', page))
    else (let (c', rest') = read_character c rest in
        append_cell page m.style c' >>= λ page'. some (rest', m, page'))

-- The loop, with fuel; `none` is false.
pub read_content : ℕ → List ℕ → Markup → Page → Option (Markup × Page)
read_content zero reader m page = none
read_content (suc fuel) reader m page =
    let (next, rest) = json_string_next reader in
    elim next [
      | closing ↦ some (m, page)
      | malformed ↦ none
      | codepoint c ↦
          take_character c rest m page >>= λ after. read_content fuel after.0 after.1 after.2
    ]

-- "content"
abbrev pub content_key : List ℕ
content_key = b'c' ∷ b'o' ∷ b'n' ∷ b't' ∷ b'e' ∷ b'n' ∷ b't' ∷ []

-- What is on the stack to begin with is never read.
abbrev pub start_markup : Markup
start_markup = record { style = initial; stack = replicate stack_depth initial; depth = 0 }

-- The cells that were parsed over the given ones. Each round takes a byte, so the length is fuel
-- enough.
unfoldable pub parse_content : List ℕ → List Cell → Option (List Cell)
unfolding read_content take_character
parse_content json cells = find_json_string content_key json >>= λ content.
    read_content (suc (length content)) content start_markup
      (record { cells = cells; row = 0; column = 0 })
    >>= λ (m, page).
        if m.depth == 0 && page.row == source_rows && page.column == 0
        then some page.cells
        else none

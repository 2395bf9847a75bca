-- ===== src/Teletekst/Content/Cells.antt =====
-- firmware/src/teletekst.c: the cells of a content that is accepted.
use mathlib.Core.Path.{subst}
use p2000t_teletekst_cartrid.Prelude.{
  ℕ, zero, suc, ◌+◌, ◌*◌, ◌≤◌, ◌<◌, ◌&&◌, List, [], ◌∷◌, none, some, set, take, length, All,
  All-append, ◌==◌, if◌then◌else◌, >>=-eq-some, ◌≡◌, refl, sym, ap, ◌∙◌, arith, Bool-cases, inl,
  inr, length-set, take-suc-set, take_all,
}
use p2000t_teletekst_cartrid.Teletekst.Characters.{transliterate-IsPrinted}
use p2000t_teletekst_cartrid.Teletekst.Content.{
  columns, source_rows, tag_max, Page, is_mosaic, make_cell, append_cell, read_tag, read_character,
  take_character, read_content, content_key, start_markup, parse_content,
}
use p2000t_teletekst_cartrid.Teletekst.Json.{Next-cases, find_json_string, json_string_next}
use p2000t_teletekst_cartrid.Teletekst.Row.Tables.{IsCell}
use p2000t_teletekst_cartrid.Teletekst.Row.{Cell, DisplayState}
use p2000t_teletekst_cartrid.Teletekst.Style.Bounds.{IsStyle, IsMarkup, parse_tag-IsMarkup}
use p2000t_teletekst_cartrid.Teletekst.Style.{Markup, parse_tag}

make_cell-IsCell : (style : DisplayState) (c : ℕ) → IsStyle style → IsCell (make_cell style c)
unfolding make_cell
make_cell-IsCell style c v =
    let printed = transliterate-IsPrinted c in
    elim (Bool-cases (is_mosaic c)) [
      | inl mosaic ↦ rw mosaic (ground arith)
      | inr letter ↦ rw letter (ground arith)
    ]

-- The cells in front of the place of the next one are made.
pub record IsPage (page : Page) : Type 0 where
  pub array : length page.cells ≡ source_rows * columns
  pub row_bound : page.row ≤ source_rows
  pub column_bound : page.column ≤ columns
  pub last_row : page.row ≡ source_rows → page.column ≡ 0
  pub made : All IsCell (take (page.row * columns + page.column) page.cells)

module _ (page page' : Page) (style : DisplayState) (v : IsPage page) (s : IsStyle style) where
  next_cell-IsPage :
      (cell : Cell)
      → IsCell cell
      → page.row < source_rows
      → page.column < columns
      → IsPage (record page {
        cells = set page.cells (page.row * columns + page.column) cell;
        column = page.column + 1;
      })
  next_cell-IsPage cell made row_room column_room =
      let at = page.row * columns + page.column in
      let array = v.array in
      let one_more : page.row * columns + (page.column + 1) ≡ suc at = omega arith in
      record {
        array = length-set page.cells at cell ∙ v.array;
        row_bound = v.row_bound;
        column_bound = omega arith;
        last_row = λ e. absurd (omega arith);
        made =
            rw (one_more, take-suc-set at page.cells cell (omega arith))
              (All-append IsCell (take at page.cells) (cell ∷ []) v.made (made, tt));
      }

  next_row-IsPage :
      page.row < source_rows
      → page.column ≡ columns
      → IsPage (record page { row = page.row + 1; column = 0 })
  next_row-IsPage room full =
      let same : (page.row + 1) * columns + 0 ≡ page.row * columns + page.column = omega arith in
      record {
        array = v.array;
        row_bound = omega arith;
        column_bound = omega arith;
        last_row = λ e. refl;
        made = rw same v.made;
      }

  append_cell-IsPage : (c : ℕ) → append_cell page style c ≡ some page' → IsPage page'
  unfolding append_cell
  append_cell-IsPage c e = elim (Bool-cases (c == 13)) [
    | inl return ↦ let same : page' ≡ page = ground arith in rw same v
    | inr visible ↦ elim (Bool-cases (c == 10)) [
      | inl newline ↦
          let room : page.row < source_rows = ground arith in
          let full : page.column ≡ columns = ground arith in
          let same : page' ≡ record page { row = page.row + 1; column = 0 } = ground arith in
          rw same (next_row-IsPage room full)
      | inr other ↦
          let row_room : page.row < source_rows = ground arith in
          let column_room : page.column < columns = ground arith in
          let same : page' ≡ record page {
            cells = set page.cells (page.row * columns + page.column) (make_cell style c);
            column = page.column + 1;
          } =
            ground arith in
          rw same
            (next_cell-IsPage (make_cell style c) (make_cell-IsCell style c s) row_room column_room)
    ]
  ]

-- What a round keeps.
pub record IsParsed (m : Markup) (page : Page) : Type 0 where
  pub markup : IsMarkup m
  pub page_kept : IsPage page

take_character-IsParsed :
    (c : ℕ) (rest rest' : List ℕ) (m m' : Markup) (page page' : Page)
    → IsParsed m page
    → take_character c rest m page ≡ some (rest', m', page')
    → IsParsed m' page'
unfolding take_character
take_character-IsParsed c rest rest' m m' page page' v e = elim (Bool-cases (c == b'<')) [
  | inl tag ↦
      let (read, found, more) = >>=-eq-some (read_tag tag_max rest) _ (rw tag at e) in
      let (m'', parsed, last) = >>=-eq-some (parse_tag read.0 m) _ more in
      let same : (m'' ≡ m') × (page ≡ page') = ground arith in
      record {
        markup = rw (sym same.0) (parse_tag-IsMarkup read.0 m m'' v.markup parsed);
        page_kept = rw (sym same.1) v.page_kept;
      }
  | inr letter ↦
      let (page'', appended, last) =
        >>=-eq-some (append_cell page m.style (read_character c rest).0) _ (rw letter at e) in
      let same : (m ≡ m') × (page'' ≡ page') = ground arith in
      record {
        markup = rw (sym same.0) v.markup;
        page_kept = rw (sym same.1) (
            append_cell-IsPage page page'' m.style v.page_kept v.markup.styled
              (read_character c rest).0 appended);
      }
]

read_content-IsParsed :
    (fuel : ℕ) (reader : List ℕ) (m m' : Markup) (page page' : Page)
    → IsParsed m page
    → read_content fuel reader m page ≡ some (m', page')
    → IsParsed m' page'
unfolding read_content
read_content-IsParsed zero reader m m' page page' v e = cc
read_content-IsParsed (suc fuel) reader m m' page page' v e =
    let (next, rest) = json_string_next reader in
    elim (Next-cases next) [
      | inl end ↦
          let same : (m ≡ m') × (page ≡ page') = ground arith in
          record { markup = rw (sym same.0) v.markup; page_kept = rw (sym same.1) v.page_kept }
      | inr (inl bad) ↦ absurd (ground arith)
      | inr (inr (c, read)) ↦
          let (after, taken, later) =
            >>=-eq-some (take_character c rest m page) _ (rw (read, read_content) at e) in
          read_content-IsParsed fuel after.0 after.1 m' after.2 page'
            (take_character-IsParsed c rest after.0 m after.1 page after.2 v taken) later
    ]

start-IsParsed :
    (cells : List Cell)
    → length cells ≡ source_rows * columns
    → IsParsed start_markup (record { cells = cells; row = 0; column = 0 })
start-IsParsed cells size = record {
  markup = record { styled = omega arith; saved = omega arith; array = refl; nested = omega arith };
  page_kept = record {
    array = size;
    row_bound = omega arith;
    column_bound = omega arith;
    last_row = λ e. refl;
    made = tt;
  };
}

content_end :
    (m : Markup) (page : Page) (cells' : List Cell)
    → (if m.depth == 0 && page.row == source_rows && page.column == 0
        then some page.cells
        else none)
      ≡ some cells'
    → (page.row ≡ source_rows) × (page.column ≡ 0) × (page.cells ≡ cells')
content_end m page cells' e = ground arith

full_le :
    (page : Page)
    → page.row ≡ source_rows
    → length page.cells ≡ source_rows * columns
    → length page.cells ≤ page.row * columns + page.column
full_le page e size = omega arith

-- A content that is accepted fills the whole array of 25 rows of 40 cells, whatever it held before:
-- each cell has a glyph of seven bits that is no control code, and a colour as its background.
pub parse_content-IsCell :
    (json : List ℕ) (cells cells' : List Cell)
    → length cells ≡ source_rows * columns
    → parse_content json cells ≡ some cells'
    → All IsCell cells' × (length cells' ≡ source_rows * columns)
unfolding parse_content
parse_content-IsCell json cells cells' size e =
    let (content, found, more) = >>=-eq-some (find_json_string content_key json) _ e in
    let (out, parsed, last) =
      >>=-eq-some
        (read_content (suc (length content)) content start_markup
          (record { cells = cells; row = 0; column = 0 }))
        _ more in
    let parsed_page =
      read_content-IsParsed (suc (length content)) content start_markup out.0
        (record { cells = cells; row = 0; column = 0 }) out.1 (start-IsParsed cells size) parsed in
    let kept = parsed_page.page_kept in
    let full = content_end out.0 out.1 cells' last in
    let whole : take (out.1.row * columns + out.1.column) out.1.cells ≡ cells' =
      take_all (out.1.row * columns + out.1.column) out.1.cells (full_le out.1 full.0 kept.array)
      ∙ full.2 in
    (subst (All IsCell) whole kept.made, sym (ap (length {A = Cell}) full.2) ∙ kept.array)

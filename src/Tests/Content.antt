-- ===== src/Tests/Content.antt =====
-- firmware/src/teletekst.c on whole pages.
use p2000t_teletekst_cartrid.Prelude.{
  ℕ, zero, suc, ◌+◌, ◌*◌, ap, ◌∙◌, ◌-◌, take, drop, ◌≤◌, List, [], ◌∷◌, ◌++◌, some, true, false,
  ◌⊎◌, ◌≡◌, refl, arith, All, length, replicate,
}
use p2000t_teletekst_cartrid.Release.{expect, skip_blanks}
use p2000t_teletekst_cartrid.Teletekst.Binary.{
  absent, base64, base64_char, binary_key, screen_size, parse_binary_display,
}
use p2000t_teletekst_cartrid.Teletekst.Characters.{transliterate}
use p2000t_teletekst_cartrid.Teletekst.Content.Cells.{parse_content-IsCell}
use p2000t_teletekst_cartrid.Teletekst.Content.{
  append_cell, content_key, start_markup, parse_content,
}
use p2000t_teletekst_cartrid.Teletekst.Decode.Accepts.{decode_diagnostic_ok}
use p2000t_teletekst_cartrid.Teletekst.Decode.Shows.{IsScreen, decode_diagnostic-IsScreen}
use p2000t_teletekst_cartrid.Teletekst.Decode.Whole.{IsDecoded, decode_json-IsDecoded}
use p2000t_teletekst_cartrid.Teletekst.Decode.{row_of, ok, Metadata, decode_diagnostic, decode_json}
use p2000t_teletekst_cartrid.Teletekst.Json.{
  starts_with, find_json_string, json_string_next, string_codepoints,
}
use p2000t_teletekst_cartrid.Teletekst.Links.{next_subpage_key, parse_next_subpage}
use p2000t_teletekst_cartrid.Teletekst.Row.Tables.{IsCell}
use p2000t_teletekst_cartrid.Teletekst.Row.{Cell, compile_row}
use p2000t_teletekst_cartrid.Teletekst.Style.{Markup, lookup_name, parse_tag}

abbrev object : List ℕ → List ℕ → List ℕ
object key value = b'"' ∷ (key ++ (b'"' ∷ b':' ∷ b'"' ∷ (value ++ (b'"' ∷ b'}' ∷ []))))

-- Rows of forty letters, each behind its line ending as JSON escapes it.
abbrev rows : ℕ → List ℕ
rows zero = []
rows (suc n) = replicate 40 b'x' ++ (92 ∷ b'n' ∷ rows n)

abbrev page : List ℕ
page = object content_key (rows 25)

abbrev letter : Cell
letter = record { glyph = b'x'; foreground = 7; background = 0; mode = 0 }

abbrev old_cells : List Cell
old_cells = replicate 1000 (record { glyph = 0; foreground = 0; background = 0; mode = 0 })

page_parsed : parse_content page old_cells ≡ some (replicate 1000 letter)
unfolding parse_content find_json_string expect skip_blanks json_string_next append_cell
    transliterate
page_parsed = refl

parse_content-IsCell_example :
    All IsCell (replicate 1000 letter) × (length (replicate 1000 letter) ≡ 1000)
parse_content-IsCell_example =
    parse_content-IsCell page old_cells (replicate 1000 letter) refl page_parsed

-- A page with a base64 text.
abbrev blank_screen : List ℕ
blank_screen = replicate screen_size 32

abbrev no_metadata : Metadata
no_metadata = record { next_subpage = 0; previous_page = 0; next_page = 0 }

abbrev base64_page : List ℕ
base64_page = object next_subpage_key [] ++ object binary_key (base64 blank_screen)

base64_page_decoded : (decode_diagnostic base64_page 101 blank_screen 0 old_cells).result ≡ ok
unfolding decode_diagnostic parse_next_subpage parse_binary_display find_json_string expect
    skip_blanks json_string_next string_codepoints base64 base64_char
base64_page_decoded = refl

-- `span class="red bg-blue"`, and its end.
abbrev span : List ℕ
span =
    b's' ∷ b'p' ∷ b'a' ∷ b'n' ∷ b' ' ∷ b'c' ∷ b'l' ∷ b'a' ∷ b's' ∷ b's' ∷ b'=' ∷ b'"' ∷ b'r' ∷ b'e'
    ∷ b'd' ∷ b' ' ∷ b'b' ∷ b'g' ∷ b'-' ∷ b'b' ∷ b'l' ∷ b'u' ∷ b'e' ∷ b'"' ∷ []

abbrev opened : Markup
opened = record {
  style = record { foreground = 1; background = 4; mode = 0 };
  stack = start_markup.stack;
  depth = 1;
}

span_opened : parse_tag span start_markup ≡ some opened
unfolding parse_tag lookup_name starts_with
span_opened = refl

span_closed : parse_tag (b'/' ∷ span) opened ≡ some start_markup
unfolding parse_tag lookup_name starts_with
span_closed = refl

row_compiled : compile_row (replicate 40 letter) ≡ some (replicate 40 b'x')
unfolding compile_row
row_compiled = refl

-- A page without a base64 text.
abbrev content_page : List ℕ
content_page = object next_subpage_key [] ++ page

content_parsed : parse_content content_page old_cells ≡ some (replicate 1000 letter)
unfolding parse_content find_json_string expect skip_blanks json_string_next append_cell
    transliterate
content_parsed = refl

content_subpage : parse_next_subpage content_page 101 ≡ some 0
unfolding parse_next_subpage find_json_string expect skip_blanks json_string_next string_codepoints
content_subpage = refl

content_no_display : parse_binary_display content_page ≡ (absent, [])
unfolding parse_binary_display find_json_string expect skip_blanks
content_no_display = refl

drop-letters : (k n : ℕ) → drop k (replicate (k + n) letter) ≡ replicate n letter
drop-letters zero n = let same : 0 + n ≡ n = omega arith in ap (λ m. replicate m letter) same
drop-letters (suc k) n =
    let same : suc k + n ≡ suc (k + n) = omega arith in
    ap (λ m. drop (suc k) (replicate m letter)) same ∙ drop-letters k n

take-letters : (k n : ℕ) → k ≤ n → take k (replicate n letter) ≡ replicate k letter
take-letters zero n h = refl
take-letters (suc k) zero h = absurd (omega arith)
take-letters (suc k) (suc n) h = ap (λ t. letter ∷ t) (take-letters k n (omega arith))

-- A row out of letters.
letters_row :
    (n row : ℕ) → row * 40 + 40 ≤ n → row_of row (replicate n letter) ≡ replicate 40 letter
letters_row n row h =
    let same : n ≡ row * 40 + (n - row * 40) = omega arith in
    ap (λ k. take 40 (drop (row * 40) (replicate k letter))) same
    ∙ ap (take 40) (drop-letters (row * 40) (n - row * 40))
    ∙ take-letters 40 (n - row * 40) (omega arith)

content_page_decoded : (decode_diagnostic content_page 101 blank_screen 0 old_cells).result ≡ ok
content_page_decoded =
    decode_diagnostic_ok content_page 101 blank_screen 0 0 old_cells (replicate 1000 letter) refl
      content_subpage content_no_display content_parsed
      (λ i h. (replicate 40 b'x', ap compile_row (letters_row 1000 i (omega arith)) ∙ row_compiled))

decode_diagnostic-IsScreen_example :
    (100 ≤ 101)
    × (101 ≤ 899)
    × (parse_next_subpage content_page 101
        ≡ some (decode_diagnostic content_page 101 blank_screen 0 old_cells).next_subpage)
    × IsScreen content_page old_cells
        (decode_diagnostic content_page 101 blank_screen 0 old_cells).screen
decode_diagnostic-IsScreen_example =
    decode_diagnostic-IsScreen content_page blank_screen 0 old_cells refl refl 101
      content_page_decoded

decode_json-IsDecoded_example :
    (let out = decode_json content_page 101 blank_screen no_metadata old_cells in
      ((out.0 ≡ true) × IsDecoded content_page 101 old_cells out.1 out.2)
      ⊎ ((out.0 ≡ false) × (out.2 ≡ no_metadata)))
decode_json-IsDecoded_example =
    decode_json-IsDecoded content_page 101 blank_screen no_metadata old_cells refl refl

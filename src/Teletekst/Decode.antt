-- ===== src/Teletekst/Decode.antt =====
-- firmware/src/teletekst.c: the entry points of the decoder.
pub mod Slices
pub mod Shows
pub mod Accepts
pub mod Whole
use p2000t_teletekst_cartrid.Prelude.{
  ℕ, zero, suc, ◌+◌, ◌*◌, Bool, true, false, not, ◌||◌, List, [], ◌∷◌, Option, none, some, take,
  drop, length, ltb, ◌==◌, if◌then◌else◌, copy_at,
}
use p2000t_teletekst_cartrid.Teletekst.Binary.{
  BinaryDisplay, absent, valid, invalid, parse_binary_display,
}
use p2000t_teletekst_cartrid.Teletekst.Content.{columns, parse_content}
use p2000t_teletekst_cartrid.Teletekst.Links.{parse_next_subpage, parse_page_link}
use p2000t_teletekst_cartrid.Teletekst.Row.{Cell, compile_row}

abbrev pub display_rows : ℕ
display_rows = 24

-- `teletekst_decode_result_t`
pub data DecodeResult : Type 0 where
  ok invalid_argument invalid_next_subpage invalid_binary_display : DecodeResult
  invalid_content unrepresentable_row : DecodeResult

-- The result, and what the pointers that are passed refer to then.
pub record Decoding : Type 0 where
  pub result : DecodeResult
  pub screen : List ℕ
  pub next_subpage : ℕ
  pub failed_row : ℕ

-- `teletekst_metadata_t`
pub record Metadata : Type 0 where
  pub next_subpage : ℕ
  pub previous_page : ℕ
  pub next_page : ℕ

-- The row of this number, of cells or of a screen.
abbrev pub row_of {ℓ} : {A : Type ℓ} → ℕ → List A → List A
row_of row xs = take columns (drop (row * columns) xs)

-- The loop over the rows that are left: the screen, and the row that cannot be compiled.
pub compile_rows : ℕ → ℕ → List Cell → List ℕ → List ℕ × Option ℕ
compile_rows zero row cells screen = (screen, none)
compile_rows (suc left) row cells screen = elim (compile_row (row_of row cells)) [
  | none ↦ (screen, some row)
  | some bytes ↦ compile_rows left (row + 1) cells (copy_at screen (row * columns) bytes)
]

-- What is made of a page in characters. `cells` is what the static array holds before.
decode_content : List ℕ → ℕ → List ℕ → ℕ → List Cell → Decoding
decode_content json subpage screen next_subpage cells = elim (parse_content json cells) [
  | none ↦ record {
    result = invalid_content;
    screen = screen;
    next_subpage = next_subpage;
    failed_row = 0;
  }
  | some cells' ↦
      let (screen', failed) = compile_rows display_rows 0 cells' screen in
      elim failed [
        | none ↦ record { result = ok; screen = screen'; next_subpage = subpage; failed_row = 0 }
        | some row ↦ record {
          result = unrepresentable_row;
          screen = screen';
          next_subpage = next_subpage;
          failed_row = row + 1;
        }
      ]
]

-- What is made of a page behind the attempt at its base64 text.
decode_behind : BinaryDisplay → List ℕ → ℕ → List ℕ → ℕ → List Cell → Decoding
decode_behind invalid json subpage screen next_subpage cells = record {
  result = invalid_binary_display;
  screen = screen;
  next_subpage = next_subpage;
  failed_row = 0;
}
decode_behind valid json subpage screen next_subpage cells = record {
  result = ok;
  screen = screen;
  next_subpage = subpage;
  failed_row = 0;
}
decode_behind absent json subpage screen next_subpage cells =
    decode_content json subpage screen next_subpage cells

-- What is made of a page behind its next subpage.
decode_display : List ℕ → ℕ → List ℕ → ℕ → List Cell → Decoding
unfolding decode_behind
decode_display json subpage screen next_subpage cells =
    let (display, written) = parse_binary_display json in
    decode_behind display json subpage (copy_at screen 0 written) next_subpage cells

-- `teletekst_decode_nos_json_diagnostic`, where no pointer is null.
unfoldable pub decode_diagnostic : List ℕ → ℕ → List ℕ → ℕ → List Cell → Decoding
unfolding decode_display decode_content compile_rows
decode_diagnostic json requested_page screen next_subpage cells =
    if length json == 0 || ltb requested_page 100 || ltb 899 requested_page
    then record {
      result = invalid_argument;
      screen = screen;
      next_subpage = next_subpage;
      failed_row = 0;
    }
    else elim (parse_next_subpage json requested_page) [
      | none ↦ record {
        result = invalid_next_subpage;
        screen = screen;
        next_subpage = next_subpage;
        failed_row = 0;
      }
      | some subpage ↦ decode_display json subpage screen next_subpage cells
    ]

is_decoded : DecodeResult → Bool
is_decoded ok = true
is_decoded invalid_argument = false
is_decoded invalid_next_subpage = false
is_decoded invalid_binary_display = false
is_decoded invalid_content = false
is_decoded unrepresentable_row = false

-- Whether the page is decoded, the screen, and the next subpage.
unfoldable pub decode_nos_json : List ℕ → ℕ → List ℕ → ℕ → List Cell → Bool × List ℕ × ℕ
unfolding is_decoded
decode_nos_json json requested_page screen next_subpage cells =
    let d = decode_diagnostic json requested_page screen next_subpage cells in
    (is_decoded d.result, d.screen, d.next_subpage)

-- "prevPage"
abbrev pub previous_key : List ℕ
previous_key = b'p' ∷ b'r' ∷ b'e' ∷ b'v' ∷ b'P' ∷ b'a' ∷ b'g' ∷ b'e' ∷ []

-- "nextPage"
abbrev pub next_key : List ℕ
next_key = b'n' ∷ b'e' ∷ b'x' ∷ b't' ∷ b'P' ∷ b'a' ∷ b'g' ∷ b'e' ∷ []

-- Whether the page is decoded, the screen, and the metadata.
unfoldable pub decode_json : List ℕ → ℕ → List ℕ → Metadata → List Cell → Bool × List ℕ × Metadata
decode_json json requested_page screen metadata cells =
    let (decoded, screen', subpage) = decode_nos_json json requested_page screen 0 cells in
    let (previous_found, previous) = parse_page_link previous_key json in
    let (next_found, next) = parse_page_link next_key json in
    if not decoded
    then (false, screen', metadata)
    else if not previous_found || not next_found
    then (false, screen', metadata)
    else (
      true,
      screen',
      record { next_subpage = subpage; previous_page = previous; next_page = next },
    )

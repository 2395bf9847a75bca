-- ===== src/Teletekst/Decode/Accepts.antt =====
-- firmware/src/teletekst.c: a page in characters that is decoded.
use p2000t_teletekst_cartrid.Prelude.{
  ℕ, zero, suc, ◌+◌, ◌*◌, ◌<◌, ◌||◌, List, [], some, none, length, ltb, ◌==◌, copy_at, ◌≡◌, refl,
  arith, false,
}
use p2000t_teletekst_cartrid.Teletekst.Binary.{absent, parse_binary_display}
use p2000t_teletekst_cartrid.Teletekst.Content.{columns, parse_content}
use p2000t_teletekst_cartrid.Teletekst.Decode.{
  ok, display_rows, row_of, compile_rows, decode_content, decode_display, decode_behind,
  decode_diagnostic,
}
use p2000t_teletekst_cartrid.Teletekst.Links.{parse_next_subpage}
use p2000t_teletekst_cartrid.Teletekst.Row.{Cell, compile_row}

-- Rows that are all compiled.
compile_rows_all :
    (left row : ℕ) (cells : List Cell) (screen : List ℕ)
    → left + row ≡ display_rows
    → ((i : ℕ) → i < display_rows → (bytes : List ℕ) × (compile_row (row_of i cells) ≡ some bytes))
    → (compile_rows left row cells screen).1 ≡ none
unfolding compile_rows
compile_rows_all zero row cells screen total each = refl
compile_rows_all (suc left) row cells screen total each =
    let (bytes, compiled) = each row (omega arith) in
    rw (compiled, compile_rows)
      (compile_rows_all left (row + 1) cells (copy_at screen (row * columns) bytes) (omega arith)
        each)

decode_content_ok :
    (json : List ℕ) (screen : List ℕ) (next_subpage subpage : ℕ) (cells cells' : List Cell)
    → parse_content json cells ≡ some cells'
    → ((i : ℕ) → i < display_rows → (bytes : List ℕ) × (compile_row (row_of i cells') ≡ some bytes))
    → (decode_content json subpage screen next_subpage cells).result ≡ ok
unfolding decode_content
decode_content_ok json screen next_subpage subpage cells cells' parsed each =
    let rows = compile_rows_all display_rows 0 cells' screen (omega arith) each in
    rw (parsed, rows, decode_content) refl

-- A page without a base64 text, with a content whose rows can be compiled.
pub decode_diagnostic_ok :
    (json : List ℕ) (requested_page : ℕ) (screen : List ℕ) (next_subpage subpage : ℕ)
    (cells cells' : List Cell)
    → (length json == 0 || ltb requested_page 100 || ltb 899 requested_page) ≡ false
    → parse_next_subpage json requested_page ≡ some subpage
    → parse_binary_display json ≡ (absent, [])
    → parse_content json cells ≡ some cells'
    → ((i : ℕ) → i < display_rows → (bytes : List ℕ) × (compile_row (row_of i cells') ≡ some bytes))
    → (decode_diagnostic json requested_page screen next_subpage cells).result ≡ ok
unfolding decode_diagnostic decode_display decode_behind
decode_diagnostic_ok json requested_page screen next_subpage subpage cells cells' good read
      no_display parsed each =
    rw (good, read, no_display)
      (decode_content_ok json (copy_at screen 0 []) next_subpage subpage cells cells' parsed each)

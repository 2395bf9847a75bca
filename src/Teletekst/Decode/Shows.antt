-- ===== src/Teletekst/Decode/Shows.antt =====
-- firmware/src/teletekst.c: what a decoded page shows.
use p2000t_teletekst_cartrid.Prelude.{
  Option-cases, ℕ, zero, suc, ◌+◌, ◌*◌, ◌≤◌, ◌<◌, ◌||◌, List, [], ◌++◌, none, some, length, ltb,
  ◌==◌, copy_at, drop_all, All, ◌≡◌, refl, sym, ap, ◌∙◌, arith, append-nil, Bool-cases, inl, inr,
  ◌⊎◌,
}
use p2000t_teletekst_cartrid.Teletekst.Binary.{absent, valid, parse_binary_display, screen_size}
use p2000t_teletekst_cartrid.Teletekst.Binary.Outcomes.{parse_binary_display-cases}
use p2000t_teletekst_cartrid.Teletekst.Content.Cells.{parse_content-IsCell}
use p2000t_teletekst_cartrid.Teletekst.Content.{columns, source_rows, parse_content}
use p2000t_teletekst_cartrid.Teletekst.Decode.Slices.{
  row_of-copy_at, row_of-copy_at_above, length-row_written, length-row_of, All-row_of,
}
use p2000t_teletekst_cartrid.Teletekst.Decode.{
  ok, display_rows, row_of, compile_rows, decode_content, decode_display, decode_behind,
  decode_diagnostic,
}
use p2000t_teletekst_cartrid.Teletekst.Links.{parse_next_subpage}
use p2000t_teletekst_cartrid.Teletekst.Row.Optimal.{IsBest, compile_row-IsBest}
use p2000t_teletekst_cartrid.Teletekst.Row.Tables.{IsCell}
use p2000t_teletekst_cartrid.Teletekst.Row.{Cell, compile_row}

-- The bytes of a row, run through the chip from white on black, show the cells of the row with the
-- least loss.
abbrev pub RowShows : List Cell → List ℕ → ℕ → Type 0
RowShows cells screen row = IsBest (row_of row cells) (row_of row screen)

-- The first rows of the screen show the first rows of the cells.
abbrev pub Shows : ℕ → List Cell → List ℕ → Type 0
Shows count cells screen = (row : ℕ) → row < count → RowShows cells screen row

module _ (cells : List Cell) (v : All IsCell cells)
    (size : length cells ≡ source_rows * columns) where
  row_shown :
      (row : ℕ) (screen bytes : List ℕ)
      → row < display_rows
      → length screen ≡ screen_size
      → compile_row (row_of row cells) ≡ some bytes
      → Shows row cells screen
      → Shows (row + 1) cells (copy_at screen (row * columns) bytes)
        × (length (copy_at screen (row * columns) bytes) ≡ screen_size)
  row_shown row screen bytes inside sized compiled above =
      let wide = length-row_of row cells (omega arith) in
      let best =
        compile_row-IsBest (row_of row cells) bytes (All-row_of IsCell row cells v) (omega arith)
          compiled in
      let full : length bytes ≡ columns = best.one_each ∙ wide in
      let room : row * columns + columns ≤ length screen = omega arith in
      (
        λ i below. elim (Bool-cases (i == row)) [
          | inl here ↦
              let same : i ≡ row = ground arith in
              rw same (rw (row_of-copy_at row screen bytes full room) best)
          | inr other ↦
              let before : i < row = ground arith in
              rw (row_of-copy_at_above row screen bytes full room i before) (above i before)
        ],
        length-row_written row screen bytes full room ∙ sized,
      )

  compile_rows-Shows :
      (left row : ℕ) (screen screen' : List ℕ)
      → left + row ≡ display_rows
      → length screen ≡ screen_size
      → Shows row cells screen
      → compile_rows left row cells screen ≡ (screen', none)
      → Shows display_rows cells screen' × (length screen' ≡ screen_size)
  unfolding compile_rows
  compile_rows-Shows zero row screen screen' total sized above e =
      let last : row ≡ display_rows = omega arith in
      let same : screen ≡ screen' = cc in rw (sym same, sym last) (above, sized)
  compile_rows-Shows (suc left) row screen screen' total sized above e =
      elim (Option-cases (compile_row (row_of row cells))) [
        | inl stuck ↦ cc (rw (stuck, compile_rows) at e)
        | inr (bytes, compiled) ↦
            let step = row_shown row screen bytes (omega arith) sized compiled above in
            compile_rows-Shows left (row + 1) (copy_at screen (row * columns) bytes) screen'
              (omega arith) step.1 step.0 (rw (compiled, compile_rows) at e)
      ]

copy_all : (screen out : List ℕ) → length screen ≡ length out → copy_at screen 0 out ≡ out
copy_all screen out same =
    ap (λ t. out ++ t) (drop_all (0 + length out) screen (omega arith)) ∙ append-nil out

-- What a page that is decoded shows.
abbrev pub ShowsContent : List ℕ → List Cell → List ℕ → Type 0
ShowsContent json cells screen =
    (cells' : List Cell) × (parse_content json cells ≡ some cells')
    × All IsCell cells'
    × Shows display_rows cells' screen

-- The screen of a page that is decoded.
abbrev pub IsScreen : List ℕ → List Cell → List ℕ → Type 0
IsScreen json cells screen' =
    (length screen' ≡ screen_size)
    × ((parse_binary_display json ≡ (valid, screen'))
        ⊎ ((parse_binary_display json ≡ (absent, [])) × ShowsContent json cells screen'))

module _ (json : List ℕ) (screen : List ℕ) (next_subpage : ℕ) (cells : List Cell)
    (sized : length screen ≡ screen_size) (array : length cells ≡ source_rows * columns) where
  decode_content-Shows :
      (subpage : ℕ)
      → (decode_content json subpage screen next_subpage cells).result ≡ ok
      → ShowsContent json cells (decode_content json subpage screen next_subpage cells).screen
        × ((decode_content json subpage screen next_subpage cells).next_subpage ≡ subpage)
        × (length (decode_content json subpage screen next_subpage cells).screen ≡ screen_size)
  unfolding decode_content
  decode_content-Shows subpage e = elim (Option-cases (parse_content json cells)) [
    | inl refused ↦ cc (rw (refused, decode_content) at e)
    | inr (cells', parsed) ↦
        let (made, size) = parse_content-IsCell json cells cells' array parsed in
        let out = compile_rows display_rows 0 cells' screen in
        elim (Option-cases out.1) [
          | inr (row, failed) ↦ cc (rw (parsed, failed, decode_content) at e)
          | inl all ↦
              let shown =
                compile_rows-Shows cells' made size display_rows 0 screen out.0 (omega arith) sized
                  (λ i h. absurd (omega arith)) (ap (λ t. (out.0, t)) all) in
              rw (parsed, all, decode_content) ((cells', refl, made, shown.0), refl, shown.1)
        ]
  ]

  decode_display-IsScreen :
      (subpage : ℕ)
      → (decode_display json subpage screen next_subpage cells).result ≡ ok
      → IsScreen json cells (decode_display json subpage screen next_subpage cells).screen
        × ((decode_display json subpage screen next_subpage cells).next_subpage ≡ subpage)
  unfolding decode_display decode_behind
  decode_display-IsScreen subpage e = elim (parse_binary_display-cases json) [
    | inl no_display ↦
        let shown = decode_content-Shows subpage (rw (no_display, decode_display) at e) in
        rw (no_display, decode_display) ((shown.2, inr (refl, shown.0)), shown.1)
    | inr (inl (out, is_valid, full)) ↦
        let written : copy_at screen 0 out ≡ out = copy_all screen out (sized ∙ sym full) in
        rw (is_valid, decode_display, written) ((full, inl refl), refl)
    | inr (inr (out, bad)) ↦ cc (rw (bad, decode_display) at e)
  ]

  -- A page that is decoded was asked for by a number from 100 to 899, states its next subpage as
  -- `parse_next_subpage` reads it, and fills the screen: with the bytes of its base64 text, or,
  -- where it has none, with bytes that show its content, where the screen and the array of cells
  -- have their sizes. The content is then 25 rows of 40 cells, and the 24 rows of the screen, run
  -- through the chip from white on black, show the first 24 of them, each cell as it is or as a
  -- space on its background, with the least loss of glyphs as in `compile_row-IsBest`.
  pub decode_diagnostic-IsScreen :
      (requested_page : ℕ)
      → (decode_diagnostic json requested_page screen next_subpage cells).result ≡ ok
      → (100 ≤ requested_page)
        × (requested_page ≤ 899)
        × (parse_next_subpage json requested_page
            ≡ some (decode_diagnostic json requested_page screen next_subpage cells).next_subpage)
        × IsScreen json cells
            (decode_diagnostic json requested_page screen next_subpage cells).screen
  unfolding decode_diagnostic
  decode_diagnostic-IsScreen requested_page e =
      elim (Bool-cases (length json == 0 || ltb requested_page 100 || ltb 899 requested_page)) [
        | inl bad ↦ cc (rw (bad, decode_diagnostic) at e)
        | inr good ↦ elim (Option-cases (parse_next_subpage json requested_page)) [
          | inl unread ↦ cc (rw (good, unread, decode_diagnostic) at e)
          | inr (subpage, read) ↦
              let shown =
                decode_display-IsScreen subpage (rw (good, read, decode_diagnostic) at e) in
              rw (good, read, decode_diagnostic)
                (ground arith, ground arith, ap some (sym shown.1), shown.0)
        ]
      ]

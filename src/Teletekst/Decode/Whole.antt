-- ===== src/Teletekst/Decode/Whole.antt =====
-- firmware/src/teletekst.c: `teletekst_decode_json`.
use p2000t_teletekst_cartrid.Prelude.{
  ℕ, ◌*◌, ◌≤◌, true, false, not, ◌||◌, List, some, length, ◌≡◌, ◌⊎◌, ap₂, refl, arith, Bool-cases,
  inl, inr,
}
use p2000t_teletekst_cartrid.Teletekst.Binary.{screen_size}
use p2000t_teletekst_cartrid.Teletekst.Content.{columns, source_rows}
use p2000t_teletekst_cartrid.Teletekst.Decode.Shows.{IsScreen, decode_diagnostic-IsScreen}
use p2000t_teletekst_cartrid.Teletekst.Decode.{
  DecodeResult, ok, Metadata, is_decoded, decode_diagnostic, decode_nos_json, decode_json,
  previous_key, next_key,
}
use p2000t_teletekst_cartrid.Teletekst.Links.{
  parse_next_subpage, parse_page_link, parse_page_link-page,
}
use p2000t_teletekst_cartrid.Teletekst.Row.{Cell}

is_decoded-ok : (r : DecodeResult) → is_decoded r ≡ true → r ≡ ok
unfolding is_decoded
is_decoded-ok r e = ground arith

-- No page, or one that can be asked for.
abbrev pub IsLink : ℕ → Type 0
IsLink page = (page ≡ 0) ⊎ ((100 ≤ page) × (page ≤ 899))

-- What a page that is decoded comes with.
pub record IsDecoded (json : List ℕ) (requested_page : ℕ) (cells : List Cell) (screen : List ℕ)
    (metadata : Metadata) : Type 0 where
  pub shown : IsScreen json cells screen
  pub subpage : parse_next_subpage json requested_page ≡ some metadata.next_subpage
  pub previous : parse_page_link previous_key json ≡ (true, metadata.previous_page)
  pub next : parse_page_link next_key json ≡ (true, metadata.next_page)
  pub previous_page : IsLink metadata.previous_page
  pub next_page : IsLink metadata.next_page

module _ (json : List ℕ) (requested_page : ℕ) (screen : List ℕ) (metadata : Metadata)
    (cells : List Cell) where
  -- Where `teletekst_decode_json` is true, the screen shows the page as for `decode_diagnostic`,
  -- the next subpage is the one that is stated, and the previous and the next page are what
  -- `parse_page_link` reads without an error under their keys, each 0 or a page from 100 to 899; where it is false, the metadata is left alone.
  pub decode_json-IsDecoded :
      length screen ≡ screen_size
      → length cells ≡ source_rows * columns
      → (let out = decode_json json requested_page screen metadata cells in
          ((out.0 ≡ true) × IsDecoded json requested_page cells out.1 out.2)
          ⊎ ((out.0 ≡ false) × (out.2 ≡ metadata)))
  unfolding decode_json decode_nos_json
  decode_json-IsDecoded sized array =
      let d = decode_diagnostic json requested_page screen 0 cells in
      let previous = parse_page_link previous_key json in
      let next = parse_page_link next_key json in
      elim (Bool-cases (is_decoded d.result)) [
        | inr failed ↦ rw (failed, decode_json) (inr (refl, refl))
        | inl decoded ↦ elim (Bool-cases (not previous.0 || not next.0)) [
          | inl unread ↦ rw (decoded, unread, decode_json) (inr (refl, refl))
          | inr read ↦
              let page =
                decode_diagnostic-IsScreen json screen 0 cells sized array requested_page
                  (is_decoded-ok d.result decoded) in
              rw (decoded, read, decode_json)
                (inl (
                  refl,
                  record {
                    shown = page.3;
                    subpage = page.2;
                    previous = ap₂ (λ r p. (r, p)) (ground arith) refl;
                    next = ap₂ (λ r p. (r, p)) (ground arith) refl;
                    previous_page = parse_page_link-page previous_key json;
                    next_page = parse_page_link-page next_key json;
                  },
                ))
        ]
      ]

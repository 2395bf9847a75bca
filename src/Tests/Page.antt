-- ===== src/Tests/Page.antt =====
-- firmware/src/teletekst.c on concrete pages.
use p2000t_teletekst_cartrid.CustomEndpoint.{decimal}
use p2000t_teletekst_cartrid.Prelude.{
  ◌≤◌, ℕ, ◌<◌, List, [], ◌∷◌, ◌++◌, some, ◌≡◌, refl, arith, length, replicate,
}
use p2000t_teletekst_cartrid.Release.{expect, skip_blanks}
use p2000t_teletekst_cartrid.Teletekst.Binary.{
  valid, base64, binary_key, parse_binary_display, parse_binary_display-base64, screen_size,
}
use p2000t_teletekst_cartrid.Teletekst.Json.{
  find_json_string, codepoints, string_codepoints, codepoints-string_codepoints,
}
use p2000t_teletekst_cartrid.Teletekst.Links.{
  next_subpage_key, parse_next_subpage, parse_next_subpage-text, subpage_text,
}
use p2000t_teletekst_cartrid.Teletekst.Row.States.{IsDisplayState, state_index-IsDisplayState}
use p2000t_teletekst_cartrid.Teletekst.Row.{
  Cell, state_index, state_from_index, state_count, initial,
}
use p2000t_teletekst_cartrid.Tests.Link.{all-All}

-- A JSON text of one string.
abbrev object : List ℕ → List ℕ → List ℕ
object key value = b'"' ∷ (key ++ (b'"' ∷ b':' ∷ b'"' ∷ (value ++ (b'"' ∷ b'}' ∷ []))))

abbrev blank_screen : List ℕ
blank_screen = replicate screen_size 32

found_screen :
    find_json_string binary_key (object binary_key (base64 blank_screen))
    ≡ some (base64 blank_screen ++ (b'"' ∷ b'}' ∷ []))
unfolding find_json_string expect skip_blanks base64
found_screen = refl

parse_binary_display-base64_example :
    parse_binary_display (object binary_key (base64 blank_screen)) ≡ (valid, blank_screen)
parse_binary_display-base64_example =
    parse_binary_display-base64 (object binary_key (base64 blank_screen)) blank_screen (b'}' ∷ [])
      (all-All blank_screen refl) refl found_screen

codepoints-string_codepoints_example :
    (codepoints 5 (65 ∷ b'"' ∷ []) ≡ string_codepoints (65 ∷ b'"' ∷ []))
    × (length (string_codepoints (65 ∷ b'"' ∷ [])).0 ≤ 2)
codepoints-string_codepoints_example = codepoints-string_codepoints 5 (65 ∷ b'"' ∷ []) (omega arith)

found_subpage :
    find_json_string next_subpage_key (object next_subpage_key (subpage_text 101 2))
    ≡ some (subpage_text 101 2 ++ (b'"' ∷ b'}' ∷ []))
unfolding find_json_string expect skip_blanks decimal
found_subpage = refl

parse_next_subpage-text_example :
    parse_next_subpage (object next_subpage_key (subpage_text 101 2)) 101 ≡ some 2
parse_next_subpage-text_example =
    parse_next_subpage-text (object next_subpage_key (subpage_text 101 2)) (b'}' ∷ []) 101 2
      (omega arith) (omega arith) (omega arith) (omega arith) found_subpage

state_index-IsDisplayState_example :
    (state_index initial < state_count)
    × (state_from_index (state_index initial) ≡ initial)
    × IsDisplayState (state_from_index 111)
    × (state_index (state_from_index 111) ≡ 111)
state_index-IsDisplayState_example =
    state_index-IsDisplayState initial 111
      (record {
        coloured = omega arith;
        foreground_fits = omega arith;
        background_fits = omega arith;
        mode_fits = omega arith;
      })
      (omega arith)

-- A blank, and a red A on black.
abbrev row : List Cell
row =
    record { glyph = 0x20; foreground = 7; background = 0; mode = 0 }
    ∷ record { glyph = b'A'; foreground = 1; background = 0; mode = 0 }
    ∷ []

abbrev row_bytes : List ℕ
row_bytes = 1 ∷ b'A' ∷ []

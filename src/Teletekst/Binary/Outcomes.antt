-- ===== src/Teletekst/Binary/Outcomes.antt =====
-- firmware/src/teletekst.c: how the decoder of the base64 text ends.
use p2000t_teletekst_cartrid.Prelude.{
  ℕ, Bool, List, [], ◌∷◌, ◌≡◌, ◌≢◌, refl, ◌⊎◌, inl, inr, ap, ap₂, arith, length,
}
use p2000t_teletekst_cartrid.Teletekst.Binary.{
  BinaryDisplay, absent, valid, invalid, screen_size, decode_groups, decode_groups-valid,
  parse_binary_display,
}

decode_groups-ne-absent :
    (cs : List ℕ) (closed : Bool) (group sextets : ℕ) (screen : List ℕ)
    → (decode_groups cs closed group sextets screen).0 ≢ absent
unfolding decode_groups
decode_groups-ne-absent [] closed group sextets screen e = ground arith
decode_groups-ne-absent (c ∷ cs) closed group sextets screen e =
    let later : (group sextets : ℕ) (screen : List ℕ)
        → (decode_groups cs closed group sextets screen).0 ≢ absent =
      λ g s t k. decode_groups-ne-absent cs closed g s t k in
    grind arith

parse_binary_display-valid :
    (json : List ℕ)
    → (parse_binary_display json).0 ≡ valid
    → length (parse_binary_display json).1 ≡ screen_size
unfolding parse_binary_display
parse_binary_display-valid json e =
    let full : (cs : List ℕ) (closed : Bool)
        → (decode_groups cs closed 0 0 []).0 ≡ valid
        → length (decode_groups cs closed 0 0 []).1 ≡ screen_size =
      λ cs closed k.
        decode_groups-valid cs closed 0 0 []
          (ap (λ d. (d, (decode_groups cs closed 0 0 []).1)) k) in
    grind arith

parse_binary_display-absent :
    (json : List ℕ) → (parse_binary_display json).0 ≡ absent → (parse_binary_display json).1 ≡ []
unfolding parse_binary_display
parse_binary_display-absent json e =
    let never : (cs : List ℕ) (closed : Bool) → (decode_groups cs closed 0 0 []).0 ≢ absent =
      λ cs closed k. decode_groups-ne-absent cs closed 0 0 [] k in
    grind arith

BinaryDisplay-cases : (d : BinaryDisplay) → (d ≡ absent) ⊎ ((d ≡ valid) ⊎ (d ≡ invalid))
BinaryDisplay-cases absent = inl refl
BinaryDisplay-cases valid = inr (inl refl)
BinaryDisplay-cases invalid = inr (inr refl)

-- There is no base64 text, or it fills the screen, or it is refused.
pub parse_binary_display-cases :
    (json : List ℕ)
    → (parse_binary_display json ≡ (absent, []))
      ⊎ (((out : List ℕ) × (parse_binary_display json ≡ (valid, out)) × (length out ≡ screen_size))
          ⊎ ((out : List ℕ) × (parse_binary_display json ≡ (invalid, out))))
parse_binary_display-cases json =
    let out = (parse_binary_display json).1 in
    elim (BinaryDisplay-cases (parse_binary_display json).0) [
      | inl no_text ↦ inl (
          ap₂ {A = BinaryDisplay} {B = List ℕ} (λ d bytes. (d, bytes)) no_text
            (parse_binary_display-absent json no_text))
      | inr (inl full) ↦
          inr (inl (out, ap (λ d. (d, out)) full, parse_binary_display-valid json full))
      | inr (inr bad) ↦ inr (inr (out, ap (λ d. (d, out)) bad))
    ]

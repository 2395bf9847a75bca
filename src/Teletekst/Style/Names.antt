-- ===== src/Teletekst/Style/Names.antt =====
-- firmware/src/teletekst.c: the fuel of the loop over the class names.
use p2000t_teletekst_cartrid.Prelude.{
  ℕ, zero, suc, ◌+◌, ◌≤◌, Bool, List, [], ◌∷◌, length, ◌==◌, ◌≡◌, ◌≢◌, refl, arith, Bool-cases, inl,
  inr,
}
use p2000t_teletekst_cartrid.Teletekst.Row.{DisplayState}
use p2000t_teletekst_cartrid.Teletekst.Style.{
  skip_spaces, break_at, apply_class, apply_names, apply_classes,
}

break_at-le :
    (stop : ℕ → Bool) (cs : List ℕ)
    → length (break_at stop cs).0 + length (break_at stop cs).1 ≡ length cs
unfolding break_at
break_at-le stop [] = omega arith
break_at-le stop (c ∷ cs) = let later = break_at-le stop cs in ground arith

skip_spaces-le : (cs : List ℕ) → length (skip_spaces cs) ≤ length cs
unfolding skip_spaces
skip_spaces-le [] = omega arith
skip_spaces-le (c ∷ cs) = let later = skip_spaces-le cs in ground arith

apply_names_fuel :
    (fuel more : ℕ) (classes : List ℕ) (style : DisplayState)
    → length classes ≤ fuel
    → length classes ≤ more
    → apply_names fuel classes style ≡ apply_names more classes style
unfolding apply_names skip_spaces break_at
apply_names_fuel zero zero classes style h k = refl
apply_names_fuel zero (suc more) [] style h k = refl
apply_names_fuel zero (suc more) (c ∷ cs) style h k = absurd (omega arith)
apply_names_fuel (suc fuel) zero [] style h k = refl
apply_names_fuel (suc fuel) zero (c ∷ cs) style h k = absurd (omega arith)
apply_names_fuel (suc fuel) (suc more) classes style h k =
    let broken = break_at (λ c. c == b' ') (skip_spaces classes) in
    let parts = break_at-le (λ c. c == b' ') (skip_spaces classes) in
    let spaces = skip_spaces-le classes in
    elim (Bool-cases (length broken.0 == 0)) [
      | inl end ↦ rw end refl
      | inr name ↦
          let taken : length broken.0 ≢ 0 = ground arith in
          rw name (
            apply_names_fuel fuel more broken.1 (apply_class broken.0 style) (omega arith)
              (omega arith))
    ]

-- Any fuel that is not below the number of bytes applies all names.
pub apply_names-apply_classes :
    (fuel : ℕ) (classes : List ℕ) (style : DisplayState)
    → length classes ≤ fuel
    → apply_names fuel classes style ≡ apply_classes classes style
unfolding apply_classes
apply_names-apply_classes fuel classes style h =
    apply_names_fuel fuel (length classes) classes style h (omega arith)

-- ===== src/Teletekst/Row/Lower.antt =====
-- firmware/src/teletekst.c: a step of the row compiler never raises a cost, and each byte that can
-- show a cell lowers the cost of the state behind it.
use mathlib.Core.Path.{subst}
use p2000t_teletekst_cartrid.P2wp.Frame.{u8}
use p2000t_teletekst_cartrid.Prelude.{
  ℕ, ◌+◌, ◌<◌, ◌≤◌, ◌≡◌, ◌≢◌, ◌⊎◌, inl, inr, refl, sym, ap, ◌∙◌, arith, not, true, false, ◌&&◌,
  List, [], ◌∷◌, bit_or, get_or, All, Bool, ◌||◌, ◌==◌, ltb, set, length, if◌then◌else◌, length-set,
  get_or-set_self, get_or-set_ne, Bool-cases,
}
use p2000t_teletekst_cartrid.Teletekst.Row.States.{IsDisplayState, state_index-IsDisplayState}
use p2000t_teletekst_cartrid.Teletekst.Row.Tables.{colours-range, initial-IsDisplayState}
use p2000t_teletekst_cartrid.Teletekst.Row.{
  initial, Cell, DisplayState, Table, black, alpha, graphics, state_count, state_index,
  state_from_index, relax, relax_blank, relax_glyph, relax_inverse, relax_colour, relax_colours,
  relax_foreground, relax_black, relax_background, control_cost,
}

abbrev pub cost_of : Table → ℕ → ℕ
cost_of t j = get_or t.costs j 0

-- The second table has no cost above that of the first.
pub record Lowers (t t' : Table) : Type 0 where
  pub same_size : length t'.costs ≡ length t.costs
  pub lower : (j : ℕ) → cost_of t' j ≤ cost_of t j

pub Lowers-refl : (t : Table) → Lowers t t
Lowers-refl t = record { same_size = refl; lower = λ j. omega arith }

pub Lowers-trans : (t u w : Table) → Lowers t u → Lowers u w → Lowers t w
Lowers-trans t u w p q = record {
  same_size = q.same_size ∙ p.same_size;
  lower = λ j. omega (arith, p.lower j, q.lower j);
}

-- Where a table has all states.
abbrev pub IsFull : Table → Type 0
IsFull t = length t.costs ≡ state_count

relax-Lowers :
    (t : Table) (previous next output cost : ℕ)
    → IsFull t
    → next < state_count
    → Lowers t (relax t previous next output cost)
      × (cost_of (relax t previous next output cost) next ≤ cost)
unfolding relax
relax-Lowers t previous next output cost full range =
    elim (Bool-cases (ltb cost (get_or t.costs next 0))) [
      | inr more ↦ rw more (Lowers-refl t, ground arith)
      | inl less ↦
          let stored = get_or-set_self t.costs next cost 0 (omega arith) in
          rw less (
            record {
              same_size = length-set t.costs next cost;
              lower = λ j. elim (Bool-cases (next == j)) [
                | inl same ↦
                    let e : next ≡ j = ground arith in
                    let here = ap (λ i. get_or (set t.costs next cost) i 0) (sym e) ∙ stored in
                    let there = ap (λ i. get_or t.costs i 0) e in ground arith
                | inr other ↦
                    let ne : next ≢ j = λ e. ground arith in
                    let kept = get_or-set_ne t.costs next j cost 0 ne in omega arith
              ];
            },
            omega arith,
          )
    ]

pub if_Lowers : (b : Bool) (t u : Table) → Lowers t u → Lowers t (if b then u else t)
if_Lowers true t u h = h
if_Lowers false t u h = Lowers-refl t

if_reaches :
    (b : Bool) (t u : Table) (j k : ℕ)
    → b ≡ true
    → cost_of u j ≤ k
    → cost_of (if b then u else t) j ≤ k
if_reaches true t u j k e h = h
if_reaches false t u j k e h = absurd cc

-- The colour is one of the list.
has : ℕ → List ℕ → Bool
has c [] = false
has c (x ∷ xs) = c == x || has c xs

module _ (cell : Cell) (index cost : ℕ) (range : index < state_count) where
  abbrev here : DisplayState
  here = state_from_index index

  here-IsDisplayState : IsDisplayState here
  here-IsDisplayState = (state_index-IsDisplayState initial index initial-IsDisplayState range).2

  -- A control to a state.
  control-Lowers :
      (t : Table) (s : DisplayState) (output : ℕ)
      → IsFull t
      → IsDisplayState s
      → (let t' = relax t index (state_index s) output (control_cost cell index cost) in
          Lowers t t' × (cost_of t' (state_index s) ≤ control_cost cell index cost))
  control-Lowers t s output full d =
      relax-Lowers t index (state_index s) output (control_cost cell index cost) full
        (state_index-IsDisplayState s index d range).0

  abbrev coloured : ℕ → ℕ → DisplayState
  coloured c mode = record here { foreground = c; mode = mode }

  coloured-IsDisplayState :
      (c mode : ℕ) → 1 ≤ c → c ≤ 7 → mode ≤ 1 → IsDisplayState (coloured c mode)
  coloured-IsDisplayState c mode h k m = record {
    coloured = h;
    foreground_fits = k;
    background_fits = here-IsDisplayState.background_fits;
    mode_fits = m;
  }

  relax_colour-Lowers :
      (c : ℕ) (t : Table)
      → IsFull t
      → 1 ≤ c
      → c ≤ 7
      → Lowers t (relax_colour cell index cost c t)
        × (cost_of (relax_colour cell index cost c t) (state_index (coloured c alpha))
            ≤ control_cost cell index cost)
        × (cost_of (relax_colour cell index cost c t) (state_index (coloured c graphics))
            ≤ control_cost cell index cost)
  unfolding relax_colour
  relax_colour-Lowers c t full low high =
      let t₁ = relax t index (state_index (coloured c alpha)) c (control_cost cell index cost) in
      let first =
        control-Lowers t (coloured c alpha) c full
          (coloured-IsDisplayState c alpha low high (omega arith)) in
      let second =
        control-Lowers t₁ (coloured c graphics) (0x10 + c) (first.0.same_size ∙ full)
          (coloured-IsDisplayState c graphics low high (omega arith)) in
      (
        Lowers-trans t t₁ _ first.0 second.0,
        omega (arith, second.0.lower (state_index (coloured c alpha)), first.1),
        second.1,
      )

  relax_colours-Lowers :
      (colours : List ℕ) (t : Table)
      → IsFull t
      → All (λ c. (1 ≤ c) × (c ≤ 7)) colours
      → Lowers t (relax_colours cell index cost colours t)
  unfolding relax_colours
  relax_colours-Lowers [] t full p = Lowers-refl t
  relax_colours-Lowers (c ∷ cs) t full p =
      let first = (relax_colour-Lowers c t full p.0.0 p.0.1).0 in
      Lowers-trans t (relax_colour cell index cost c t) _ first
        (relax_colours-Lowers cs (relax_colour cell index cost c t) (first.same_size ∙ full) p.1)

  relax_colours_reach :
      (colours : List ℕ) (t : Table) (c mode : ℕ)
      → IsFull t
      → All (λ c. (1 ≤ c) × (c ≤ 7)) colours
      → has c colours ≡ true
      → (mode ≡ alpha) ⊎ (mode ≡ graphics)
      → cost_of (relax_colours cell index cost colours t) (state_index (coloured c mode))
        ≤ control_cost cell index cost
  unfolding relax_colours has
  relax_colours_reach [] t c mode full p h m = absurd cc
  relax_colours_reach (x ∷ xs) t c mode full p h m =
      let t₁ = relax_colour cell index cost x t in
      let first = relax_colour-Lowers x t full p.0.0 p.0.1 in
      let full₁ : IsFull t₁ = first.0.same_size ∙ full in
      let later = relax_colours-Lowers xs t₁ full₁ p.1 in
      elim (Bool-cases (c == x)) [
        | inr other ↦ relax_colours_reach xs t₁ c mode full₁ p.1 (ground arith) m
        | inl same ↦
            let e : x ≡ c = ground arith in
            let reached : cost_of t₁ (state_index (coloured x mode))
                ≤ control_cost cell index cost =
              elim m [
                | inl a ↦
                    subst
                      (λ k. cost_of t₁ (state_index (coloured x k)) ≤ control_cost cell index cost)
                      (sym a) first.1
                | inr g ↦
                    subst
                      (λ k. cost_of t₁ (state_index (coloured x k)) ≤ control_cost cell index cost)
                      (sym g) first.2
              ] in
            let there = later.lower (state_index (coloured x mode)) in
            subst
              (λ k.
                cost_of (relax_colours cell index cost xs t₁) (state_index (coloured k mode))
                ≤ control_cost cell index cost)
              e (omega arith)
      ]

  backed-IsDisplayState : (b : ℕ) → b ≤ 7 → IsDisplayState (record here { background = b })
  backed-IsDisplayState b h = record {
    coloured = here-IsDisplayState.coloured;
    foreground_fits = here-IsDisplayState.foreground_fits;
    background_fits = h;
    mode_fits = here-IsDisplayState.mode_fits;
  }

  module _ (t : Table) (full : IsFull t) where
    pub relax_blank-Lowers :
        Lowers t (relax_blank cell index cost t)
        × ((cell.glyph == 0x20 && here.background == cell.background) ≡ true
            → cost_of (relax_blank cell index cost t) index ≤ cost)
    unfolding relax_blank
    relax_blank-Lowers =
        let r = relax-Lowers t index index 0x20 cost full range in
        (if_Lowers _ t _ r.0, λ e. if_reaches _ t _ index cost e r.1)

    pub relax_glyph-Lowers :
        Lowers t (relax_glyph cell index cost t)
        × ((not (cell.glyph == 0x20)
                && here.mode == cell.mode
                && here.foreground == cell.foreground
                && here.background == cell.background)
              ≡ true
            → cost_of (relax_glyph cell index cost t) index ≤ cost)
    unfolding relax_glyph
    relax_glyph-Lowers =
        let r = relax-Lowers t index index cell.glyph cost full range in
        (if_Lowers _ t _ r.0, λ e. if_reaches _ t _ index cost e r.1)

    pub relax_inverse-Lowers :
        Lowers t (relax_inverse cell index cost t)
        × ((not (cell.glyph == 0x20)
                && here.mode == cell.mode
                && here.foreground == cell.background
                && here.background == cell.foreground)
              ≡ true
            → cost_of (relax_inverse cell index cost t) index ≤ cost)
    unfolding relax_inverse
    relax_inverse-Lowers =
        let r = relax-Lowers t index index (u8 (bit_or cell.glyph 0x80)) cost full range in
        (if_Lowers _ t _ r.0, λ e. if_reaches _ t _ index cost e r.1)

    pub relax_foreground-Lowers :
        Lowers t (relax_foreground cell index cost t)
        × ((c mode : ℕ)
            → (cell.background == here.background) ≡ true
            → 1 ≤ c
            → c ≤ 7
            → (mode ≡ alpha) ⊎ (mode ≡ graphics)
            → cost_of (relax_foreground cell index cost t) (state_index (coloured c mode))
              ≤ control_cost cell index cost)
    unfolding relax_foreground has
    relax_foreground-Lowers = (
      if_Lowers _ t _ (relax_colours-Lowers _ t full colours-range),
      λ c mode e low high m.
          if_reaches _ t _ (state_index (coloured c mode)) _ e
            (relax_colours_reach _ t c mode full colours-range (ground arith) m),
    )

    pub relax_black-Lowers :
        Lowers t (relax_black cell index cost t)
        × ((cell.background == black) ≡ true
            → cost_of
                (relax_black cell index cost t)
                (state_index (record here { background = black }))
              ≤ control_cost cell index cost)
    unfolding relax_black
    relax_black-Lowers =
        let s : DisplayState = record here { background = black } in
        let r = control-Lowers t s 0x1c full (backed-IsDisplayState black (omega arith)) in
        (if_Lowers _ t _ r.0, λ e. if_reaches _ t _ (state_index s) _ e r.1)

    pub relax_background-Lowers :
        Lowers t (relax_background cell index cost t)
        × ((cell.background == here.foreground) ≡ true
            → cost_of
                (relax_background cell index cost t)
                (state_index (record here { background = here.foreground }))
              ≤ control_cost cell index cost)
    unfolding relax_background
    relax_background-Lowers =
        let s : DisplayState = record here { background = here.foreground } in
        let r =
          control-Lowers t s 0x1d full
            (backed-IsDisplayState here.foreground here-IsDisplayState.foreground_fits) in
        (if_Lowers _ t _ r.0, λ e. if_reaches _ t _ (state_index s) _ e r.1)

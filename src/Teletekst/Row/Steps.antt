-- ===== src/Teletekst/Row/Steps.antt =====
-- firmware/src/teletekst.c: each step of the row compiler keeps its tables sound.
use mathlib.Core.Path.{subst}
use p2000t_teletekst_cartrid.P2wp.Frame.{u8}
use p2000t_teletekst_cartrid.Prelude.{
  ℕ, ◌+◌, ◌<◌, ◌≤◌, ◌≡◌, ◌≢◌, ◌⊎◌, refl, inl, inr, sym, arith, not, ◌&&◌, List, [], ◌∷◌, All,
  bit_or, get_or, ◌==◌, Bool-cases,
}
use p2000t_teletekst_cartrid.Teletekst.Row.States.{IsDisplayState, state_index-IsDisplayState}
use p2000t_teletekst_cartrid.Teletekst.Row.Tables.{
  IsCell, charge, inverse_byte, Moves, blank-Moves, glyph-Moves, inverse-Moves, alpha-Moves,
  graphics-Moves, black-Moves, background-Moves, relax-IsTable, colours-range,
  initial-IsDisplayState, IsTable,
}
use p2000t_teletekst_cartrid.Teletekst.Row.{
  Cell, DisplayState, Table, black, alpha, graphics, state_count, infinite_cost, state_index,
  state_from_index, relax, relax_blank, relax_glyph, relax_inverse, relax_colour, relax_colours,
  relax_foreground, relax_black, relax_background, control_cost, initial,
}

module _ (cell : Cell) (v : IsCell cell) (costs : List ℕ) (index : ℕ) (range : index < state_count)
    (reached : get_or costs index 0 ≢ infinite_cost)
    (small : get_or costs index 0 + 200 < infinite_cost) where
  abbrev cost : ℕ
  cost = get_or costs index 0

  abbrev here : DisplayState
  here = state_from_index index

  here-IsDisplayState : IsDisplayState here
  here-IsDisplayState = (state_index-IsDisplayState initial index initial-IsDisplayState range).2

  -- The price of a control.
  paid : (output : ℕ) → output < 0x20 → control_cost cell index cost ≡ cost + charge cell output
  unfolding charge
  paid output low = let p = v.printed in ground arith

  -- A transition by a control to a state by its fields.
  control-IsTable :
      (t : Table) (s : DisplayState) (output : ℕ)
      → output < 0x20
      → IsTable cell costs t
      → IsDisplayState s
      → Moves cell here output s
      → IsTable cell costs (relax t index (state_index s) output (control_cost cell index cost))
  control-IsTable t s output low table d moves =
      let number = state_index-IsDisplayState s index d range in
      relax-IsTable cell costs t index (state_index s) output (control_cost cell index cost) table
        range reached number.0 (subst (λ u. Moves cell here output u) (sym number.1) moves)
        (paid output low)

  free :
      (output : ℕ)
      → (output ≡ cell.glyph) ⊎ (output ≡ cell.glyph + 0x80)
      → cost ≡ cost + charge cell output
  unfolding charge
  free output e = ground arith

  pub relax_blank-IsTable :
      (t : Table) → IsTable cell costs t → IsTable cell costs (relax_blank cell index cost t)
  unfolding relax_blank
  relax_blank-IsTable t table =
      elim (Bool-cases (cell.glyph == 0x20 && here.background == cell.background)) [
        | inr other ↦ rw other table
        | inl applies ↦ rw applies (
            relax-IsTable cell costs t index index 0x20 cost table range reached range
              (blank-Moves cell v here (ground arith) (ground arith))
              (free 0x20 (inl (ground arith))))
      ]

  pub relax_glyph-IsTable :
      (t : Table) → IsTable cell costs t → IsTable cell costs (relax_glyph cell index cost t)
  unfolding relax_glyph
  relax_glyph-IsTable t table =
      elim (Bool-cases (
        not (cell.glyph == 0x20)
        && here.mode == cell.mode
        && here.foreground == cell.foreground
        && here.background == cell.background)) [
          | inr other ↦ rw other table
          | inl applies ↦ rw applies (
              relax-IsTable cell costs t index index cell.glyph cost table range reached range
                (glyph-Moves cell v here (ground arith) (ground arith) (ground arith))
                (free cell.glyph (inl refl)))
        ]

  pub relax_inverse-IsTable :
      (t : Table) → IsTable cell costs t → IsTable cell costs (relax_inverse cell index cost t)
  unfolding relax_inverse
  relax_inverse-IsTable t table =
      elim (Bool-cases (
        not (cell.glyph == 0x20)
        && here.mode == cell.mode
        && here.foreground == cell.background
        && here.background == cell.foreground)) [
          | inr other ↦ rw other table
          | inl applies ↦ rw applies (
              relax-IsTable cell costs t index index (u8 (bit_or cell.glyph 0x80)) cost table range
                reached range
                (inverse-Moves cell v here (ground arith) (ground arith) (ground arith))
                (free (u8 (bit_or cell.glyph 0x80)) (inr (inverse_byte cell v))))
        ]

  -- The same state with another foreground.
  coloured-IsDisplayState :
      (colour mode : ℕ)
      → 1 ≤ colour
      → colour ≤ 7
      → mode ≤ 1
      → IsDisplayState (record here { foreground = colour; mode = mode })
  coloured-IsDisplayState colour mode h k m = record {
    coloured = h;
    foreground_fits = k;
    background_fits = here-IsDisplayState.background_fits;
    mode_fits = m;
  }

  pub relax_colours-IsTable :
      (colours : List ℕ) (t : Table)
      → All (λ c. (1 ≤ c) × (c ≤ 7)) colours
      → cell.background ≡ here.background
      → IsTable cell costs t
      → IsTable cell costs (relax_colours cell index cost colours t)
  unfolding relax_colours relax_colour
  relax_colours-IsTable [] t p b table = table
  relax_colours-IsTable (c ∷ cs) t p b table = relax_colours-IsTable cs _ p.1 b (
      control-IsTable _ (record here { foreground = c; mode = graphics }) (0x10 + c)
        (let h = p.0.1 in omega arith)
        (control-IsTable t (record here { foreground = c; mode = alpha }) c
          (let h = p.0.1 in omega arith) table
          (coloured-IsDisplayState c alpha p.0.0 p.0.1 (omega arith))
          (alpha-Moves cell v here c p.0.0 p.0.1 b))
        (coloured-IsDisplayState c graphics p.0.0 p.0.1 (omega arith))
        (graphics-Moves cell v here c p.0.0 p.0.1 b))

  pub relax_foreground-IsTable :
      (t : Table) → IsTable cell costs t → IsTable cell costs (relax_foreground cell index cost t)
  unfolding relax_foreground
  relax_foreground-IsTable t table = elim (Bool-cases (cell.background == here.background)) [
    | inr other ↦ rw other table
    | inl applies ↦ rw applies (
        relax_colours-IsTable (1 ∷ 2 ∷ 3 ∷ 4 ∷ 5 ∷ 6 ∷ 7 ∷ []) t colours-range (ground arith) table)
  ]

  -- The same state with another background.
  backed-IsDisplayState : (b : ℕ) → b ≤ 7 → IsDisplayState (record here { background = b })
  backed-IsDisplayState b h = record {
    coloured = here-IsDisplayState.coloured;
    foreground_fits = here-IsDisplayState.foreground_fits;
    background_fits = h;
    mode_fits = here-IsDisplayState.mode_fits;
  }

  pub relax_black-IsTable :
      (t : Table) → IsTable cell costs t → IsTable cell costs (relax_black cell index cost t)
  unfolding relax_black
  relax_black-IsTable t table = elim (Bool-cases (cell.background == black)) [
    | inr other ↦ rw other table
    | inl applies ↦ rw applies (
        control-IsTable t (record here { background = black }) 0x1c (omega arith) table
          (backed-IsDisplayState black (omega arith)) (black-Moves cell v here (ground arith)))
  ]

  pub relax_background-IsTable :
      (t : Table) → IsTable cell costs t → IsTable cell costs (relax_background cell index cost t)
  unfolding relax_background
  relax_background-IsTable t table = elim (Bool-cases (cell.background == here.foreground)) [
    | inr other ↦ rw other table
    | inl applies ↦ rw applies (
        control-IsTable t (record here { background = here.foreground }) 0x1d (omega arith) table
          (backed-IsDisplayState here.foreground here-IsDisplayState.foreground_fits)
          (background-Moves cell v here (ground arith)))
  ]

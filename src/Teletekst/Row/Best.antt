-- ===== src/Teletekst/Row/Best.antt =====
-- firmware/src/teletekst.c: no bytes draw a row at a lower loss than those of the compiler.
use mathlib.Core.Path.{subst}
use p2000t_teletekst_cartrid.Prelude.{
  ℕ, zero, suc, ◌+◌, ◌-◌, ◌<◌, ◌≤◌, ◌≡◌, ◌≢◌, ◌⊎◌, inl, inr, refl, sym, ◌∙◌, arith, not, true,
  false, ◌&&◌, List, get_or, ◌==◌, ltb, leb, Bool-cases, ==_iff, length-replicate,
}
use p2000t_teletekst_cartrid.Teletekst.Row.States.{IsDisplayState, state_index-IsDisplayState}
use p2000t_teletekst_cartrid.Teletekst.Row.Tables.{
  saa5050, IsCell, Shows, price, charge, Moves, initial-IsDisplayState,
}
use p2000t_teletekst_cartrid.Teletekst.Row.Lower.{
  cost_of, Lowers, Lowers-refl, Lowers-trans, IsFull, relax_blank-Lowers, relax_glyph-Lowers,
  relax_inverse-Lowers, relax_foreground-Lowers, relax_black-Lowers, relax_background-Lowers,
}
use p2000t_teletekst_cartrid.Teletekst.Row.{
  Cell, DisplayState, Table, black, alpha, graphics, state_count, infinite_cost, state_index,
  state_from_index, relax_blank, relax_glyph, relax_inverse, relax_foreground, relax_black,
  relax_background, relax_state, relax_states, control_cost, compile_column, empty_table, initial,
}

-- The ways in which a byte can show a cell, each with the test of the step that takes it.
data Kind (cell : Cell) (s : DisplayState) (byte : ℕ) : DisplayState → Type 0 where
  spaced : (cell.glyph == 0x20 && s.background == cell.background) ≡ true → Kind cell s byte s
  own :
      (not (cell.glyph == 0x20)
          && s.mode == cell.mode
          && s.foreground == cell.foreground
          && s.background == cell.background)
        ≡ true
      → Kind cell s byte s
  swapped :
      (not (cell.glyph == 0x20)
          && s.mode == cell.mode
          && s.foreground == cell.background
          && s.background == cell.foreground)
        ≡ true
      → Kind cell s byte s
  colour :
      (c mode : ℕ)
      → (cell.background == s.background) ≡ true
      → 1 ≤ c
      → c ≤ 7
      → (mode ≡ alpha) ⊎ (mode ≡ graphics)
      → charge cell byte ≡ price cell
      → Kind cell s byte (record s { foreground = c; mode = mode })
  to_black :
      (cell.background == black) ≡ true
      → charge cell byte ≡ price cell
      → Kind cell s byte (record s { background = black })
  to_foreground :
      (cell.background == s.foreground) ≡ true
      → charge cell byte ≡ price cell
      → Kind cell s byte (record s { background = s.foreground })

module _ (cell : Cell) (v : IsCell cell) (s : DisplayState) (d : IsDisplayState s) where
  control_charge : (byte : ℕ) → byte ≤ 0x20 → byte ≢ cell.glyph → charge cell byte ≡ price cell
  unfolding charge
  control_charge byte low other = let p = v.printed in ground arith

  printed-Kind :
      (byte : ℕ)
      → Shows cell (record {
        glyph = byte;
        foreground = s.foreground;
        background = s.background;
        mode = s.mode;
      })
      → Kind cell s byte s
  printed-Kind byte shows = elim (Bool-cases (byte == cell.glyph)) [
    | inl same ↦ elim (Bool-cases (cell.glyph == 0x20)) [
      | inl space ↦ let b = shows.background_kept in spaced (ground arith)
      | inr letter ↦ let b = shows.background_kept in let g = shows.glyph_kept in own (ground arith)
    ]
    | inr other ↦
        let b = shows.background_kept in
        let g = shows.glyph_kept in
        let space : byte ≡ 0x20 = ground arith in
        let m = d.mode_fits in
        colour s.foreground s.mode (ground arith) d.coloured d.foreground_fits (ground arith)
          (control_charge byte (omega arith) (λ e. ground arith))
  ]

  swapped-Kind :
      (byte : ℕ)
      → byte ≢ 0xa0
      → 0x80 ≤ byte
      → Shows cell (record {
        glyph = byte - 0x80;
        foreground = s.background;
        background = s.foreground;
        mode = s.mode;
      })
      → Kind cell s byte s
  swapped-Kind byte plain high shows =
      let b = shows.background_kept in let g = shows.glyph_kept in swapped (ground arith)

  byte-Kind :
      (byte : ℕ) → byte ≢ 0xa0 → Shows cell (saa5050 s byte).0 → Kind cell s byte (saa5050 s byte).1
  unfolding saa5050
  byte-Kind byte plain shows =
      let p = v.printed in
      elim (Bool-cases (leb 1 byte && leb byte 7)) [
        | inl a ↦
            let h = rw a at shows in
            let b = h.background_kept in
            rw a (
              colour byte alpha (ground arith) (ground arith) (ground arith) (inl refl)
                (control_charge byte (ground arith) (λ e. ground arith)))
        | inr a ↦ elim (Bool-cases (leb 0x11 byte && leb byte 0x17)) [
          | inl b ↦
              (let h = rw (a, b) at shows in
                let g = h.background_kept in
                rw (a, b)
                  (colour (byte - 0x10) graphics (ground arith) (ground arith) (ground arith)
                    (inr refl) (control_charge byte (ground arith) (λ e. ground arith))))
          | inr b ↦ elim (Bool-cases (byte == 0x1c)) [
            | inl c ↦
                (let h = rw (a, b, c) at shows in
                  let g = h.background_kept in
                  rw (a, b, c)
                    (to_black (ground arith)
                      (control_charge byte (ground arith) (λ e. ground arith))))
            | inr c ↦ elim (Bool-cases (byte == 0x1d)) [
              | inl e ↦
                  (let h = rw (a, b, c, e) at shows in
                    let g = h.background_kept in
                    rw (a, b, c, e)
                      (to_foreground (ground arith) (
                        let at : byte ≡ 0x1d = (==_iff byte 0x1d).0 e in
                        control_charge byte (omega arith) (λ q. omega arith))))
              | inr e ↦ elim (Bool-cases (ltb byte 0x80)) [
                | inl f ↦
                    (let h = rw (a, b, c, e, f) at shows in
                      rw (a, b, c, e, f) (printed-Kind byte h))
                | inr f ↦
                    (let h = rw (a, b, c, e, f) at shows in
                      rw (a, b, c, e, f) (swapped-Kind byte plain (ground arith) h))
              ]
            ]
          ]
        ]
      ]

-- One state of a column.
module _ (cell : Cell) (v : IsCell cell) (index cost : ℕ) (range : index < state_count) (t : Table)
    (full : IsFull t) where
  abbrev here : DisplayState
  here = state_from_index index

  abbrev t₁ : Table
  t₁ = relax_blank cell index cost t

  abbrev t₂ : Table
  t₂ = relax_glyph cell index cost t₁

  abbrev t₃ : Table
  t₃ = relax_inverse cell index cost t₂

  abbrev t₄ : Table
  t₄ = relax_foreground cell index cost t₃

  abbrev t₅ : Table
  t₅ = relax_black cell index cost t₄

  abbrev t₆ : Table
  t₆ = relax_background cell index cost t₅

  step₁ : Lowers t t₁
  step₁ = (relax_blank-Lowers cell index cost range t full).0

  full₁ : IsFull t₁
  full₁ = step₁.same_size ∙ full

  step₂ : Lowers t₁ t₂
  step₂ = (relax_glyph-Lowers cell index cost range t₁ full₁).0

  full₂ : IsFull t₂
  full₂ = step₂.same_size ∙ full₁

  step₃ : Lowers t₂ t₃
  step₃ = (relax_inverse-Lowers cell index cost range t₂ full₂).0

  full₃ : IsFull t₃
  full₃ = step₃.same_size ∙ full₂

  step₄ : Lowers t₃ t₄
  step₄ = (relax_foreground-Lowers cell index cost range t₃ full₃).0

  full₄ : IsFull t₄
  full₄ = step₄.same_size ∙ full₃

  step₅ : Lowers t₄ t₅
  step₅ = (relax_black-Lowers cell index cost range t₄ full₄).0

  full₅ : IsFull t₅
  full₅ = step₅.same_size ∙ full₄

  step₆ : Lowers t₅ t₆
  step₆ = (relax_background-Lowers cell index cost range t₅ full₅).0

  all_steps : Lowers t t₆
  all_steps = Lowers-trans t t₁ t₆ step₁ (
      Lowers-trans t₁ t₂ t₆ step₂ (
        Lowers-trans t₂ t₃ t₆ step₃
          (Lowers-trans t₃ t₄ t₆ step₄ (Lowers-trans t₄ t₅ t₆ step₅ step₆))))

  control_price : cost + 200 < infinite_cost → control_cost cell index cost ≡ cost + price cell
  unfolding price
  control_price small = ground arith

  stays : (k : ℕ) → cost_of t₆ index ≤ k → cost_of t₆ (state_index here) ≤ k
  stays k h =
      let number = state_index-IsDisplayState initial index initial-IsDisplayState range in
      subst (λ i. cost_of t₆ i ≤ k) (sym number.3) h

  -- A way that stays in the state, or moves to another.
  Kind-le :
      (byte : ℕ) (s' : DisplayState)
      → cost + 200 < infinite_cost
      → Kind cell here byte s'
      → cost_of t₆ (state_index s') ≤ cost + charge cell byte
  Kind-le byte _ small (spaced e) =
      let first = (relax_blank-Lowers cell index cost range t full).1 e in
      stays (cost + charge cell byte) (
        omega (
          arith,
          first,
          step₂.lower index,
          step₃.lower index,
          step₄.lower index,
          step₅.lower index,
          step₆.lower index,
        ))
  Kind-le byte _ small (own e) =
      let first = (relax_glyph-Lowers cell index cost range t₁ full₁).1 e in
      stays (cost + charge cell byte) (
        omega (
          arith,
          first,
          step₃.lower index,
          step₄.lower index,
          step₅.lower index,
          step₆.lower index,
        ))
  Kind-le byte _ small (swapped e) =
      let first = (relax_inverse-Lowers cell index cost range t₂ full₂).1 e in
      stays (cost + charge cell byte)
        (omega (arith, first, step₄.lower index, step₅.lower index, step₆.lower index))
  Kind-le byte _ small (colour c mode e low high m paid) =
      let next = state_index (record here { foreground = c; mode = mode }) in
      let first = (relax_foreground-Lowers cell index cost range t₃ full₃).1 c mode e low high m in
      omega (arith, first, step₅.lower next, step₆.lower next, control_price small, paid)
  Kind-le byte _ small (to_black e paid) =
      let next = state_index (record here { background = black }) in
      let first = (relax_black-Lowers cell index cost range t₄ full₄).1 e in
      omega (arith, first, step₆.lower next, control_price small, paid)
  Kind-le byte _ small (to_foreground e paid) =
      let first = (relax_background-Lowers cell index cost range t₅ full₅).1 e in
      omega (arith, first, control_price small, paid)

  relax_state-Lowers : Lowers t (relax_state cell index cost t)
  unfolding relax_state
  relax_state-Lowers = elim (Bool-cases (cost == infinite_cost)) [
    | inl unreached ↦ rw unreached (Lowers-refl t)
    | inr reached ↦ rw reached all_steps
  ]

  relax_state-le :
      (byte : ℕ) (s' : DisplayState)
      → cost + 200 < infinite_cost
      → Kind cell here byte s'
      → cost_of (relax_state cell index cost t) (state_index s') ≤ cost + charge cell byte
  unfolding relax_state
  relax_state-le byte s' small k =
      let reached : (cost == infinite_cost) ≡ false = ground arith in
      rw reached (Kind-le byte s' small k)

-- A whole column.
module _ (cell : Cell) (v : IsCell cell) (costs : List ℕ) where
  relax_states-Lowers :
      (left index : ℕ) (t : Table)
      → left + index ≤ state_count
      → IsFull t
      → Lowers t (relax_states left index cell costs t)
  unfolding relax_states
  relax_states-Lowers zero index t range full = Lowers-refl t
  relax_states-Lowers (suc left) index t range full =
      let t' = relax_state cell index (get_or costs index 0) t in
      let first = relax_state-Lowers cell v index (get_or costs index 0) (omega arith) t full in
      Lowers-trans t t' _ first
        (relax_states-Lowers left (index + 1) t' (omega arith) (first.same_size ∙ full))

  relax_states-le :
      (left start index byte : ℕ) (t : Table) (s' : DisplayState)
      → left + start ≤ state_count
      → IsFull t
      → start ≤ index
      → index < left + start
      → get_or costs index 0 + 200 < infinite_cost
      → Kind cell (state_from_index index) byte s'
      → cost_of (relax_states left start cell costs t) (state_index s')
        ≤ get_or costs index 0 + charge cell byte
  unfolding relax_states
  relax_states-le zero start index byte t s' room full low high small k = absurd (omega arith)
  relax_states-le (suc left) start index byte t s' room full low high small k =
      let t' = relax_state cell start (get_or costs start 0) t in
      let first = relax_state-Lowers cell v start (get_or costs start 0) (omega arith) t full in
      let full' : IsFull t' = first.same_size ∙ full in
      elim (Bool-cases (start == index)) [
        | inr other ↦
            relax_states-le left (start + 1) index byte t' s' (omega arith) full' (ground arith)
              (omega arith) small k
        | inl same ↦
            let e : index ≡ start = ground arith in
            let later = relax_states-Lowers left (start + 1) t' (omega arith) full' in
            let here =
              relax_state-le cell v start (get_or costs start 0) (omega arith) t full byte s'
                (subst (λ i. get_or costs i 0 + 200 < infinite_cost) e small)
                (subst (λ i. Kind cell (state_from_index i) byte s') e k) in
            subst
              (λ i.
                cost_of (relax_states left (start + 1) cell costs t') (state_index s')
                ≤ get_or costs i 0 + charge cell byte)
              (sym e) (omega (arith, here, later.lower (state_index s')))
      ]

  empty_table-IsFull : IsFull empty_table
  empty_table-IsFull = length-replicate {A = ℕ} state_count infinite_cost

  -- A byte that shows the cell bounds the cost of the state behind it.
  pub compile_column-le :
      (s s' : DisplayState) (byte : ℕ)
      → IsDisplayState s
      → byte ≢ 0xa0
      → get_or costs (state_index s) 0 + 200 < infinite_cost
      → Moves cell s byte s'
      → cost_of (compile_column cell costs) (state_index s')
        ≤ get_or costs (state_index s) 0 + charge cell byte
  compile_column-le s s' byte d plain small moves =
      let number = state_index-IsDisplayState s 0 d (omega arith) in
      let k = subst (λ u. Kind cell s byte u) moves.1 (byte-Kind cell v s d byte plain moves.0) in
      relax_states-le state_count 0 (state_index s) byte empty_table s' (omega arith)
        empty_table-IsFull (omega arith) (omega (arith, number.0)) small
        (subst (λ u. Kind cell u byte s') (sym number.1) k)

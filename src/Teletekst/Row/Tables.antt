-- ===== src/Teletekst/Row/Tables.antt =====
-- firmware/src/teletekst.c: what the tables of the row compiler say of the SAA5050.
use mathlib.Core.Path.{subst}
use p2000t_teletekst_cartrid.P2wp.Frame.{u8}
use p2000t_teletekst_cartrid.Prelude.Bits.{bit_or_fields}
use p2000t_teletekst_cartrid.Prelude.{
  ℕ, ◌+◌, ◌-◌, ◌<◌, ◌≤◌, ◌≡◌, ◌≢◌, ◌⊎◌, inl, inr, refl, sym, ap, ◌∙◌, arith, true, ◌&&◌, ◌||◌, List,
  [], ◌∷◌, All, bit_or, get_or, set, length, ltb, leb, ◌==◌, if◌then◌else◌, length-set,
  get_or-set_self, get_or-set_ne, Bool-cases,
}
use p2000t_teletekst_cartrid.Teletekst.Row.States.{IsDisplayState}
use p2000t_teletekst_cartrid.Teletekst.Row.{
  Cell, DisplayState, Predecessor, Table, black, alpha, graphics, state_count, infinite_cost,
  state_from_index, relax, initial, no_predecessor,
}

-- The SAA5050: the cell that a byte shows, and the state behind it. A colour holds from the next
-- cell on, a background from its own; the highest bit swaps the colours of a glyph, which is what
-- `compile_row` takes it to do.
unfoldable pub saa5050 : DisplayState → ℕ → Cell × DisplayState
saa5050 s byte =
    let space : Cell = record {
      glyph = 0x20;
      foreground = s.foreground;
      background = s.background;
      mode = s.mode;
    } in
    if leb 1 byte && leb byte 7
    then (space, record s { foreground = byte; mode = alpha })
    else if leb 0x11 byte && leb byte 0x17
    then (space, record s { foreground = byte - 0x10; mode = graphics })
    else if byte == 0x1c
    then (record space { background = black }, record s { background = black })
    else if byte == 0x1d
    then (record space { background = s.foreground }, record s { background = s.foreground })
    else if ltb byte 0x80
    then (record space { glyph = byte }, s)
    else (
      record {
        glyph = byte - 0x80;
        foreground = s.background;
        background = s.foreground;
        mode = s.mode;
      },
      s,
    )

-- A cell of a page: its glyph can be printed, and its background is a colour.
pub record IsCell (c : Cell) : Type 0 where
  pub printed : 0x20 ≤ c.glyph
  pub seven_bits : c.glyph < 0x80
  pub coloured : c.background ≤ 7

-- What is shown has the wanted background, and is the wanted cell, or a space in its place.
pub record Shows (wanted shown : Cell) : Type 0 where
  pub background_kept : shown.background ≡ wanted.background
  pub glyph_kept :
      (shown.glyph ≡ 0x20)
      ⊎ ((shown.glyph ≡ wanted.glyph)
          × (shown.foreground ≡ wanted.foreground)
          × (shown.mode ≡ wanted.mode))

-- What is lost where a cell is not shown as it is, nearly nothing for a blank.
unfoldable pub price : Cell → ℕ
price cell = if cell.glyph == 0x20 then 1 else if cell.mode == graphics then 100 else 200

-- What is lost by a byte: nothing where it prints the glyph of the cell.
unfoldable pub charge : Cell → ℕ → ℕ
unfolding price
charge cell byte = if byte == cell.glyph || byte == cell.glyph + 0x80 then 0 else price cell

-- A byte takes the chip from one state to another, and shows the cell.
abbrev pub Moves : Cell → DisplayState → ℕ → DisplayState → Type 0
Moves cell s byte s' = Shows cell (saa5050 s byte).0 × ((saa5050 s byte).1 ≡ s')

-- The byte of a glyph in swapped colours.
pub inverse_byte : (cell : Cell) → IsCell cell → u8 (bit_or cell.glyph 0x80) ≡ cell.glyph + 0x80
inverse_byte cell v =
    let q = v.seven_bits in omega (arith, bit_or_fields 7 cell.glyph 1 v.seven_bits)

module _ (cell : Cell) (v : IsCell cell) (s : DisplayState) where
  pub blank-Moves : cell.glyph ≡ 0x20 → s.background ≡ cell.background → Moves cell s 0x20 s
  unfolding saa5050
  blank-Moves g b = ground arith

  pub glyph-Moves :
      s.mode ≡ cell.mode
      → s.foreground ≡ cell.foreground
      → s.background ≡ cell.background
      → Moves cell s cell.glyph s
  unfolding saa5050
  glyph-Moves m f b = let p = v.printed in let q = v.seven_bits in ground arith

  pub inverse-Moves :
      s.mode ≡ cell.mode
      → s.foreground ≡ cell.background
      → s.background ≡ cell.foreground
      → Moves cell s (u8 (bit_or cell.glyph 0x80)) s
  unfolding saa5050
  inverse-Moves m f b =
      let p = v.printed in let q = v.seven_bits in rw (inverse_byte cell v) (ground arith)

  pub alpha-Moves :
      (colour : ℕ)
      → 1 ≤ colour
      → colour ≤ 7
      → cell.background ≡ s.background
      → Moves cell s colour (record s { foreground = colour; mode = alpha })
  unfolding saa5050
  alpha-Moves colour h k b = ground arith

  pub graphics-Moves :
      (colour : ℕ)
      → 1 ≤ colour
      → colour ≤ 7
      → cell.background ≡ s.background
      → Moves cell s (0x10 + colour) (record s { foreground = colour; mode = graphics })
  unfolding saa5050
  graphics-Moves colour h k b = ground arith

  pub black-Moves : cell.background ≡ black → Moves cell s 0x1c (record s { background = black })
  unfolding saa5050
  black-Moves b = ground arith

  pub background-Moves :
      cell.background ≡ s.foreground → Moves cell s 0x1d (record s { background = s.foreground })
  unfolding saa5050
  background-Moves b = ground arith

pub colours-range : All (λ c. (1 ≤ c) × (c ≤ 7)) (1 ∷ 2 ∷ 3 ∷ 4 ∷ 5 ∷ 6 ∷ 7 ∷ [])
colours-range = (
  (omega arith, omega arith),
  (
    (omega arith, omega arith),
    (
      (omega arith, omega arith),
      (
        (omega arith, omega arith),
        (
          (omega arith, omega arith),
          ((omega arith, omega arith), ((omega arith, omega arith), tt)),
        ),
      ),
    ),
  ),
)

pub initial-IsDisplayState : IsDisplayState initial
initial-IsDisplayState = record {
  coloured = omega arith;
  foreground_fits = omega arith;
  background_fits = omega arith;
  mode_fits = omega arith;
}

-- An entry that has a cost tells a state before it and a byte that leads here.
pub record IsEntry (cell : Cell) (costs : List ℕ) (p : Predecessor) (next cost : ℕ) : Type 0 where
  pub is_valid : p.valid ≡ true
  pub in_range : p.previous_state < state_count
  pub reached : get_or costs p.previous_state 0 ≢ infinite_cost
  pub moves : Moves cell (state_from_index p.previous_state) p.output (state_from_index next)
  pub paid : cost ≡ get_or costs p.previous_state 0 + charge cell p.output

pub record IsTable (cell : Cell) (costs : List ℕ) (t : Table) : Type 0 where
  pub costs_size : length t.costs ≡ state_count
  pub predecessors_size : length t.predecessors ≡ state_count
  pub entries :
      (next : ℕ)
      → next < state_count
      → get_or t.costs next 0 ≢ infinite_cost
      → IsEntry cell costs (get_or t.predecessors next no_predecessor) next (get_or t.costs next 0)

module _ (cell : Cell) (costs : List ℕ) where
  pub relax-IsTable :
      (t : Table) (previous next output cost : ℕ)
      → IsTable cell costs t
      → previous < state_count
      → get_or costs previous 0 ≢ infinite_cost
      → next < state_count
      → Moves cell (state_from_index previous) output (state_from_index next)
      → cost ≡ get_or costs previous 0 + charge cell output
      → IsTable cell costs (relax t previous next output cost)
  unfolding relax
  relax-IsTable t previous next output cost v range reached fits moves paid =
      let p : Predecessor = record { previous_state = previous; output = output; valid = true } in
      let here : (j : ℕ) → next ≡ j → IsEntry cell costs p j cost = λ j e. record {
        is_valid = refl;
        in_range = range;
        reached = reached;
        moves =
            subst (λ k. Moves cell (state_from_index previous) output (state_from_index k)) e moves;
        paid = paid;
      } in
      elim (Bool-cases (ltb cost (get_or t.costs next 0))) [
        | inr more ↦ rw more v
        | inl less ↦ rw less (record {
          costs_size = length-set t.costs next cost ∙ v.costs_size;
          predecessors_size = length-set t.predecessors next p ∙ v.predecessors_size;
          entries = λ j h k. elim (Bool-cases (next == j)) [
            | inl same ↦
                let e : next ≡ j = ground arith in
                let size = v.predecessors_size in
                let size' = v.costs_size in
                let entry = sym (
                  ap (λ i. get_or (set t.predecessors next p) i no_predecessor) (sym e)
                  ∙ get_or-set_self t.predecessors next p no_predecessor (omega arith)) in
                let stored = sym (
                  ap (λ i. get_or (set t.costs next cost) i 0) (sym e)
                  ∙ get_or-set_self t.costs next cost 0 (omega arith)) in
                subst
                  (λ c.
                    IsEntry cell costs (get_or (set t.predecessors next p) j no_predecessor) j c)
                  stored (subst (λ q. IsEntry cell costs q j cost) entry (here j e))
            | inr other ↦
                let ne : next ≢ j = λ e. ground arith in
                let kept = get_or-set_ne t.costs next j cost 0 ne in
                subst
                  (λ c.
                    IsEntry cell costs (get_or (set t.predecessors next p) j no_predecessor) j c)
                  (sym kept)
                  (subst (λ q. IsEntry cell costs q j (get_or t.costs j 0))
                    (sym (get_or-set_ne t.predecessors next j p no_predecessor ne))
                    (v.entries j h (λ e. k (kept ∙ e))))
          ];
        })
      ]

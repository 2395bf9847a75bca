-- ===== src/Teletekst/Row.antt =====
-- firmware/src/teletekst.c: the compiler of one row of cells to the bytes of the SAA5050. The tables
-- are passed explicitly: `compile_history` is the list of its columns, the last one first.
pub mod States
pub mod Tables
pub mod Steps
pub mod Sound
pub mod Lower
pub mod Best
pub mod Optimal
use p2000t_teletekst_cartrid.P2wp.Frame.{u8, u16}
use p2000t_teletekst_cartrid.Prelude.{
  ℕ, zero, suc, ◌+◌, ◌-◌, ◌*◌, ◌/◌, ◌%◌, ◌^◌, Bool, true, false, not, ◌&&◌, ◌||◌, List, [], ◌∷◌,
  Option, none, some, bit_or, get_or, set, replicate, ltb, ◌==◌, if◌then◌else◌,
}

abbrev pub black : ℕ
black = 0

abbrev pub white : ℕ
white = 7

abbrev pub alpha : ℕ
alpha = 0

abbrev pub graphics : ℕ
graphics = 1

-- `visual_cell_t`
pub record Cell : Type 0 where
  pub glyph : ℕ
  pub foreground : ℕ
  pub background : ℕ
  pub mode : ℕ

-- `display_state_t`
pub record DisplayState : Type 0 where
  pub foreground : ℕ
  pub background : ℕ
  pub mode : ℕ

-- `predecessor_t`
pub record Predecessor : Type 0 where
  pub previous_state : ℕ
  pub output : ℕ
  pub valid : Bool

abbrev pub state_count : ℕ
state_count = 112

abbrev pub infinite_cost : ℕ
infinite_cost = 65535

-- The sum is unsigned, and wraps where the foreground is 0.
unfoldable pub state_index : DisplayState → ℕ
state_index s = u8 (((s.mode * 8 + s.background) * 7 + s.foreground + (2 ^ 32 - 1)) % 2 ^ 32)

unfoldable pub state_from_index : ℕ → DisplayState
state_from_index index = record {
  foreground = u8 (index % 7) + 1;
  background = u8 (u8 (index / 7) % 8);
  mode = u8 (u8 (index / 7) / 8);
}

-- The costs and predecessors of the next column.
pub record Table : Type 0 where
  pub costs : List ℕ
  pub predecessors : List Predecessor

pub relax : Table → ℕ → ℕ → ℕ → ℕ → Table
relax t previous next output cost =
    if ltb cost (get_or t.costs next 0)
    then record {
      costs = set t.costs next cost;
      predecessors =
          set t.predecessors next
            (record { previous_state = previous; output = output; valid = true });
    }
    else t

-- One column for one state, with the costs so far.
module _ (cell : Cell) (index cost : ℕ) where
  abbrev current : DisplayState
  current = state_from_index index

  abbrev pub blank : Bool
  blank = cell.glyph == 0x20

  abbrev pub control_cost : ℕ
  control_cost = u16 (cost + (if blank then 1 else if cell.mode == graphics then 100 else 200))

  pub relax_blank : Table → Table
  relax_blank t =
      if blank && current.background == cell.background then relax t index index 0x20 cost else t

  pub relax_glyph : Table → Table
  relax_glyph t =
      if not blank
        && current.mode == cell.mode
        && current.foreground == cell.foreground
        && current.background == cell.background
      then relax t index index cell.glyph cost
      else t

  pub relax_inverse : Table → Table
  relax_inverse t =
      if not blank
        && current.mode == cell.mode
        && current.foreground == cell.background
        && current.background == cell.foreground
      then relax t index index (u8 (bit_or cell.glyph 0x80)) cost
      else t

  -- The two controls of a colour.
  pub relax_colour : ℕ → Table → Table
  relax_colour colour t =
      relax
        (relax t index (state_index (record current { foreground = colour; mode = alpha })) colour
          control_cost)
        index (state_index (record current { foreground = colour; mode = graphics }))
        (0x10 + colour) control_cost

  -- The loop over the colours that are left, from `TT_RED` to `TT_WHITE`.
  pub relax_colours : List ℕ → Table → Table
  relax_colours [] t = t
  relax_colours (colour ∷ colours) t = relax_colours colours (relax_colour colour t)

  pub relax_foreground : Table → Table
  relax_foreground t =
      if cell.background == current.background
      then relax_colours (1 ∷ 2 ∷ 3 ∷ 4 ∷ 5 ∷ 6 ∷ 7 ∷ []) t
      else t

  pub relax_black : Table → Table
  relax_black t =
      if cell.background == black
      then relax t index (state_index (record current { background = black })) 0x1c control_cost
      else t

  pub relax_background : Table → Table
  relax_background t =
      if cell.background == current.foreground
      then relax t index (state_index (record current { background = current.foreground })) 0x1d
          control_cost
      else t

  pub relax_state : Table → Table
  relax_state t =
      if cost == infinite_cost
      then t
      else relax_background
          (relax_black (relax_foreground (relax_inverse (relax_glyph (relax_blank t)))))

abbrev pub no_predecessor : Predecessor
no_predecessor = record { previous_state = 0; output = 0; valid = false }

-- The loop over the states that are left, from `index` on.
pub relax_states : ℕ → ℕ → Cell → List ℕ → Table → Table
relax_states zero index cell costs t = t
relax_states (suc left) index cell costs t =
    relax_states left (index + 1) cell costs (relax_state cell index (get_or costs index 0) t)

abbrev pub empty_table : Table
empty_table = record {
  costs = replicate state_count infinite_cost;
  predecessors = replicate state_count no_predecessor;
}

abbrev pub compile_column : Cell → List ℕ → Table
compile_column cell costs = relax_states state_count 0 cell costs empty_table

-- The loop over the columns: the costs behind the last one, and the history.
pub compile_columns :
    List Cell → List ℕ → List (List Predecessor) → List ℕ × List (List Predecessor)
compile_columns [] costs history = (costs, history)
compile_columns (cell ∷ cells) costs history =
    let t = compile_column cell costs in compile_columns cells t.costs (t.predecessors ∷ history)

-- The loop over the final states that are left: the first of the least costs.
pub cheapest : ℕ → ℕ → List ℕ → ℕ → ℕ → ℕ × ℕ
cheapest zero state costs final_state final_cost = (final_state, final_cost)
cheapest (suc left) state costs final_state final_cost =
    let cost = get_or costs state 0 in
    let less = ltb cost final_cost in
    cheapest left (state + 1) costs (if less then state else final_state)
      (if less then cost else final_cost)

-- The way back: the bytes in front of those of the later columns.
pub backtrack : List (List Predecessor) → ℕ → List ℕ → Option (List ℕ)
backtrack [] final_state output = some output
backtrack (predecessors ∷ history) final_state output =
    let p = get_or predecessors final_state no_predecessor in
    let earlier = backtrack history p.previous_state (p.output ∷ output) in
    if not p.valid then none else earlier

abbrev pub initial : DisplayState
initial = record { foreground = white; background = black; mode = alpha }

unfoldable pub compile_row : List Cell → Option (List ℕ)
unfolding compile_columns cheapest backtrack relax_states relax_state relax_background relax_black
    relax_foreground relax_colours relax_colour relax_inverse relax_glyph relax_blank relax
    state_index state_from_index
compile_row cells =
    let (costs, history) =
      compile_columns cells (set (replicate state_count infinite_cost) (state_index initial) 0)
        [] in
    let (final_state, final_cost) = cheapest state_count 0 costs 0 infinite_cost in
    if final_cost == infinite_cost then none else backtrack history final_state []

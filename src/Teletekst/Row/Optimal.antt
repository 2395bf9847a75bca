-- ===== src/Teletekst/Row/Optimal.antt =====
-- firmware/src/teletekst.c: the bytes of a compiled row draw it at the least loss.
use mathlib.Core.Path.{subst}
use p2000t_teletekst_cartrid.Prelude.{
  ℕ, zero, suc, ◌+◌, ◌<◌, ◌≤◌, ◌≡◌, ◌≢◌, inl, inr, refl, ap, arith, List, [], ◌∷◌, ◌++◌, All,
  All-append_inv, get_or, replicate, some, ◌==◌, ltb, length, if◌then◌else◌, Bool-cases,
  length-replicate, length-append, get_or-set_self,
}
use p2000t_teletekst_cartrid.Teletekst.Row.Best.{compile_column-le}
use p2000t_teletekst_cartrid.Teletekst.Row.Sound.{
  Draws, begin, move, Draws-le, Draws-length, chosen, first_costs, compile_row-chosen,
}
use p2000t_teletekst_cartrid.Teletekst.Row.States.{IsDisplayState, state_index-IsDisplayState}
use p2000t_teletekst_cartrid.Teletekst.Row.Tables.{saa5050, IsCell, initial-IsDisplayState}
use p2000t_teletekst_cartrid.Teletekst.Row.{
  Cell, DisplayState, Predecessor, state_count, infinite_cost, state_index, compile_column,
  compile_columns, compile_row, cheapest, initial,
}

-- Any byte but the space in swapped colours, which the compiler does not use.
abbrev pub IsPlain : ℕ → Type 0
IsPlain byte = byte ≢ 0xa0

saa5050-IsDisplayState :
    (s : DisplayState) (byte : ℕ) → IsDisplayState s → IsDisplayState (saa5050 s byte).1
unfolding saa5050
saa5050-IsDisplayState s byte d =
    let a = d.coloured in
    let b = d.foreground_fits in
    let c = d.background_fits in
    let m = d.mode_fits in
    record {
      coloured = ground arith;
      foreground_fits = ground arith;
      background_fits = ground arith;
      mode_fits = ground arith;
    }

Draws-IsDisplayState :
    {cells : List Cell} {bytes : List ℕ} {s : DisplayState} {loss : ℕ}
    → Draws initial cells bytes s loss
    → IsDisplayState s
Draws-IsDisplayState begin = initial-IsDisplayState
Draws-IsDisplayState (move cells bytes s s' cell byte loss draws moves) =
    subst IsDisplayState moves.1 (saa5050-IsDisplayState s byte (Draws-IsDisplayState draws))

-- The last column, behind the others.
compile_columns-append :
    (cells : List Cell) (cell : Cell) (costs : List ℕ) (history : List (List Predecessor))
    → (compile_columns (cells ++ (cell ∷ [])) costs history).0
      ≡ (compile_column cell (compile_columns cells costs history).0).costs
unfolding compile_columns
compile_columns-append [] cell costs history = refl
compile_columns-append (c ∷ cells) cell costs history =
    let t = compile_column c costs in
    compile_columns-append cells cell t.costs (t.predecessors ∷ history)

abbrev final_costs : List Cell → List ℕ
final_costs cells = (compile_columns cells first_costs []).0

-- No drawing of a row is cheaper than the costs behind its last column say.
final_costs-le :
    {cells : List Cell} {bytes : List ℕ} {s : DisplayState} {loss : ℕ}
    → Draws initial cells bytes s loss
    → All IsCell cells
    → All IsPlain bytes
    → length cells ≤ 300
    → get_or (final_costs cells) (state_index s) 0 ≤ loss
unfolding compile_columns
final_costs-le begin v p few =
    let number = state_index-IsDisplayState initial 0 initial-IsDisplayState (omega arith) in
    let size = length-replicate {A = ℕ} state_count infinite_cost in
    let stored =
      get_or-set_self (replicate state_count infinite_cost) (state_index initial) 0 0
        (omega (arith, number.0, size)) in
    omega (arith, stored)
final_costs-le (move cells bytes s s' cell byte loss draws moves) v p few =
    let (v', (fits, _)) = All-append_inv IsCell cells (cell ∷ []) v in
    let (p', (plain, _)) = All-append_inv IsPlain bytes (byte ∷ []) p in
    let long = length-append cells (cell ∷ []) in
    let before = final_costs-le draws v' p' (omega arith) in
    let small : get_or (final_costs cells) (state_index s) 0 + 200 < infinite_cost =
      omega (arith, Draws-le draws) in
    let step =
      compile_column-le cell fits (final_costs cells) s s' byte (Draws-IsDisplayState draws) plain
        small moves in
    let same =
      ap (λ costs. get_or costs (state_index s') 0)
        (compile_columns-append cells cell first_costs []) in
    omega (arith, same, step, before)

cheapest-le :
    (left state j : ℕ) (costs : List ℕ) (final_state final_cost : ℕ)
    → ((cheapest left state costs final_state final_cost).1 ≤ final_cost)
      × ((state ≤ j)
          → (j < left + state)
          → (cheapest left state costs final_state final_cost).1 ≤ get_or costs j 0)
unfolding cheapest
cheapest-le zero state j costs final_state final_cost = (omega arith, λ h k. absurd (omega arith))
cheapest-le (suc left) state j costs final_state final_cost =
    let cost = get_or costs state 0 in
    let less = ltb cost final_cost in
    let later =
      cheapest-le left (state + 1) j costs (if less then state else final_state)
        (if less then cost else final_cost) in
    (
      ground (arith, later.0),
      λ h k. elim (Bool-cases (state == j)) [
        | inr other ↦ later.1 (ground arith) (omega arith)
        | inl same ↦
            let e : state ≡ j = ground arith in
            subst
              (λ i.
                (cheapest left (state + 1) costs (if less then state else final_state)
                  (if less then cost else final_cost)).1
                ≤ get_or costs i 0)
              e (ground (arith, later.0))
      ],
    )

-- Bytes that draw a row from white on black, and at no greater loss than any other.
pub record IsBest (cells : List Cell) (bytes : List ℕ) : Type 0 where
  pub loss : ℕ
  pub final : DisplayState
  pub draws : Draws initial cells bytes final loss
  pub one_each : length bytes ≡ length cells
  pub least :
      (others : List ℕ) (last : DisplayState) (other_loss : ℕ)
      → Draws initial cells others last other_loss
      → All IsPlain others
      → loss ≤ other_loss

pub compile_row-IsBest :
    (cells : List Cell) (bytes : List ℕ)
    → All IsCell cells
    → length cells ≤ 300
    → compile_row cells ≡ some bytes
    → IsBest cells bytes
compile_row-IsBest cells bytes v few e =
    let (s, draws) = compile_row-chosen cells bytes v few e in
    record {
      loss = (chosen cells).1;
      final = s;
      draws = draws;
      one_each = Draws-length draws;
      least = λ others last other_loss drawn plain.
          let number =
            state_index-IsDisplayState last 0 (Draws-IsDisplayState drawn) (omega arith) in
          let bound =
            (cheapest-le state_count 0 (state_index last) (final_costs cells) 0 infinite_cost).1
              (omega arith) (omega (arith, number.0)) in
          omega (arith, bound, final_costs-le drawn v plain few);
    }

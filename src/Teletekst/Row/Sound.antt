-- ===== src/Teletekst/Row/Sound.antt =====
-- firmware/src/teletekst.c: the bytes of a compiled row show the row.
use mathlib.Core.Path.{subst}
use p2000t_teletekst_cartrid.Prelude.{
  ℕ, zero, suc, ◌+◌, ◌<◌, ◌≤◌, ◌≡◌, ◌≢◌, ◌⊎◌, inl, inr, refl, sym, ap, ◌∙◌, arith, List, [], ◌∷◌,
  ◌++◌, append_assoc, append-nil, none, some, All, get_or, set, length, replicate, ◌==◌,
  if◌then◌else◌, length-append, length-set, get_or-set_ne, get_or-set_self, ◌*◌, Bool-cases,
  length-replicate,
}
use p2000t_teletekst_cartrid.Teletekst.Row.States.{state_index-IsDisplayState}
use p2000t_teletekst_cartrid.Teletekst.Row.Tables.{
  initial-IsDisplayState, IsCell, price, charge, Moves, IsTable,
}
use p2000t_teletekst_cartrid.Teletekst.Row.Steps.{
  relax_blank-IsTable, relax_glyph-IsTable, relax_inverse-IsTable, relax_foreground-IsTable,
  relax_black-IsTable, relax_background-IsTable,
}
use p2000t_teletekst_cartrid.Teletekst.Row.{
  Cell, DisplayState, Predecessor, Table, state_count, infinite_cost, state_index, state_from_index,
  relax_state, relax_states, initial, compile_columns, compile_row, cheapest, backtrack,
  no_predecessor, empty_table, compile_column,
}

get_or-replicate : (n i : ℕ) → i < n → get_or (replicate n infinite_cost) i 0 ≡ infinite_cost
get_or-replicate zero i h = absurd (omega arith)
get_or-replicate (suc n) zero h = refl
get_or-replicate (suc n) (suc i) h = get_or-replicate n i (omega arith)

module _ (cell : Cell) (v : IsCell cell) (costs : List ℕ)
    (small : (index : ℕ)
      → index < state_count
      → get_or costs index 0 ≢ infinite_cost
      → get_or costs index 0 + 200 < infinite_cost) where
  relax_state-IsTable :
      (index : ℕ) (t : Table)
      → index < state_count
      → IsTable cell costs t
      → IsTable cell costs (relax_state cell index (get_or costs index 0) t)
  unfolding relax_state
  relax_state-IsTable index t range table =
      elim (Bool-cases (get_or costs index 0 == infinite_cost)) [
        | inl unreached ↦ rw unreached table
        | inr other ↦
            let reached : get_or costs index 0 ≢ infinite_cost = λ e. ground arith in
            let close = small index range reached in
            rw other (
              relax_background-IsTable cell v costs index range reached close _ (
                relax_black-IsTable cell v costs index range reached close _ (
                  relax_foreground-IsTable cell v costs index range reached close _ (
                    relax_inverse-IsTable cell v costs index range reached close _ (
                      relax_glyph-IsTable cell v costs index range reached close _
                        (relax_blank-IsTable cell v costs index range reached close t table))))))
      ]

  relax_states-IsTable :
      (left index : ℕ) (t : Table)
      → left + index ≤ state_count
      → IsTable cell costs t
      → IsTable cell costs (relax_states left index cell costs t)
  unfolding relax_states
  relax_states-IsTable zero index t range table = table
  relax_states-IsTable (suc left) index t range table =
      relax_states-IsTable left (index + 1) _ (omega arith)
        (relax_state-IsTable index t (omega arith) table)

  empty_table-IsTable : IsTable cell costs empty_table
  empty_table-IsTable = record {
    costs_size = length-replicate {A = ℕ} state_count infinite_cost;
    predecessors_size = length-replicate state_count no_predecessor;
    entries = λ next range reached. absurd (reached (get_or-replicate state_count next range));
  }

  compile_column-IsTable : IsTable cell costs (compile_column cell costs)
  compile_column-IsTable =
      relax_states-IsTable state_count 0 empty_table (omega arith) empty_table-IsTable

-- Bytes that lead the chip from a state to another and show the cells, and what they lose.
pub data Draws (from : DisplayState) : List Cell → List ℕ → DisplayState → ℕ → Type 0 where
  begin : Draws from [] [] from 0
  move :
      (cells : List Cell) (bytes : List ℕ) (s s' : DisplayState) (cell : Cell) (byte loss : ℕ)
      → Draws from cells bytes s loss
      → Moves cell s byte s'
      → Draws from (cells ++ (cell ∷ [])) (bytes ++ (byte ∷ [])) s' (loss + charge cell byte)

charge-le : (cell : Cell) (byte : ℕ) → charge cell byte ≤ 200
unfolding charge price
charge-le cell byte = ground arith

pub Draws-le :
    {from s : DisplayState} {cells : List Cell} {bytes : List ℕ} {loss : ℕ}
    → Draws from cells bytes s loss
    → loss ≤ 200 * length cells
Draws-le begin = omega arith
Draws-le (move cells bytes s s' cell byte loss draws moves) =
    omega (arith, Draws-le draws, charge-le cell byte, length-append cells (cell ∷ []))

-- Each state that the costs reach has bytes that lead to it at that cost, and that the way back finds.
pub record IsHistory (cells : List Cell) (costs : List ℕ) (history : List (List Predecessor))
    : Type 0 where
  pub costs_size : length costs ≡ state_count
  pub paths :
      (state : ℕ)
      → state < state_count
      → get_or costs state 0 ≢ infinite_cost
      → (bytes : List ℕ) × Draws initial cells bytes (state_from_index state) (get_or costs state 0)
        × ((behind : List ℕ) → backtrack history state behind ≡ some (bytes ++ behind))

-- Three hundred columns cost too little to wrap.
history-small :
    (cells : List Cell) (costs : List ℕ) (history : List (List Predecessor))
    → IsHistory cells costs history
    → length cells < 300
    → (index : ℕ) → index < state_count
    → get_or costs index 0 ≢ infinite_cost
    → get_or costs index 0 + 200 < infinite_cost
history-small cells costs history h few index range reached =
    omega (arith, Draws-le (h.paths index range reached).1)

compile_column-IsHistory :
    (cells : List Cell) (cell : Cell) (costs : List ℕ) (history : List (List Predecessor))
    → IsCell cell
    → length cells < 300
    → IsHistory cells costs history
    → IsHistory
        (cells ++ (cell ∷ []))
        (compile_column cell costs).costs
        ((compile_column cell costs).predecessors ∷ history)
unfolding backtrack
compile_column-IsHistory cells cell costs history v few h =
    let t = compile_column cell costs in
    let table = compile_column-IsTable cell v costs (history-small cells costs history h few) in
    record {
      costs_size = table.costs_size;
      paths = λ state range reached.
          let entry = table.entries state range reached in
          let p = get_or t.predecessors state no_predecessor in
          let (bytes, draws, back) = h.paths p.previous_state entry.in_range entry.reached in
          (
            bytes ++ (p.output ∷ []),
            subst
                (λ c.
                  Draws initial (cells ++ (cell ∷ [])) (bytes ++ (p.output ∷ []))
                    (state_from_index state) c)
                (sym entry.paid)
                (move cells bytes (state_from_index p.previous_state) (state_from_index state) cell
                  p.output (get_or costs p.previous_state 0) draws entry.moves),
            λ behind. rw entry.is_valid (
                back (p.output ∷ behind)
                ∙ ap some (sym (append_assoc bytes (p.output ∷ []) behind))),
          );
    }

compile_columns-IsHistory :
    (cells done : List Cell) (costs : List ℕ) (history : List (List Predecessor))
    → All IsCell cells
    → length done + length cells ≤ 300
    → IsHistory done costs history
    → (let out = compile_columns cells costs history in IsHistory (done ++ cells) out.0 out.1)
unfolding compile_columns
compile_columns-IsHistory [] done costs history v few h = rw append-nil h
compile_columns-IsHistory (cell ∷ cells) done costs history v few h =
    let t = compile_column cell costs in
    subst
      (λ all.
        let out = compile_columns cells t.costs (t.predecessors ∷ history) in
        IsHistory all out.0 out.1)
      (append_assoc done (cell ∷ []) cells)
      (compile_columns-IsHistory cells (done ++ (cell ∷ [])) t.costs (t.predecessors ∷ history) v.1
        (omega (arith, length-append done (cell ∷ [])))
        (compile_column-IsHistory done cell costs history v.0 (omega arith) h))

-- The final state that is chosen has the final cost.
cheapest_lem :
    (left state : ℕ) (costs : List ℕ) (final_state final_cost : ℕ)
    → left + state ≡ state_count
    → (final_cost ≡ infinite_cost)
      ⊎ ((final_state < state_count) × (get_or costs final_state 0 ≡ final_cost))
    → (let r = cheapest left state costs final_state final_cost in
        (r.1 ≡ infinite_cost) ⊎ ((r.0 < state_count) × (get_or costs r.0 0 ≡ r.1)))
unfolding cheapest
cheapest_lem zero state costs final_state final_cost e h = h
cheapest_lem (suc left) state costs final_state final_cost e h =
    cheapest_lem left (state + 1) costs _ _ (omega arith) (ground arith)

abbrev pub first_costs : List ℕ
first_costs = set (replicate state_count infinite_cost) (state_index initial) 0

first_costs-IsHistory : IsHistory [] first_costs []
unfolding backtrack
first_costs-IsHistory =
    let number = state_index-IsDisplayState initial 0 initial-IsDisplayState (omega arith) in
    let fresh : List ℕ = replicate state_count infinite_cost in
    let fresh_size = length-replicate {A = ℕ} state_count infinite_cost in
    record {
      costs_size =
          length-set fresh (state_index initial) 0
          ∙ length-replicate {A = ℕ} state_count infinite_cost;
      paths = λ state range reached. elim (Bool-cases (state_index initial == state)) [
        | inl same ↦
            let e : state_index initial ≡ state = ground arith in
            (
              [],
              subst (λ c. Draws initial [] [] (state_from_index state) c)
                  (sym (
                    ap (λ i. get_or first_costs i 0) (sym e)
                    ∙ get_or-set_self fresh (state_index initial) 0 0
                        (omega (arith, number.0, fresh_size))))
                  (subst (λ s. Draws initial [] [] s 0) (sym number.1 ∙ ap state_from_index e)
                    begin),
              λ behind. refl,
            )
        | inr other ↦
            let ne : state_index initial ≢ state = λ e. ground arith in
            absurd (
              reached (
                get_or-set_ne fresh (state_index initial) state 0 0 ne
                ∙ get_or-replicate state_count state range))
      ];
    }

-- The final state and its cost.
abbrev pub chosen : List Cell → ℕ × ℕ
chosen cells = cheapest state_count 0 (compile_columns cells first_costs []).0 0 infinite_cost

compile_row_lem :
    (cells : List Cell)
    → compile_row cells ≡ (
        if (chosen cells).1 == infinite_cost
        then none
        else backtrack (compile_columns cells first_costs []).1 (chosen cells).0 [])
unfolding compile_row
compile_row_lem cells = refl

Option-some : {A : Type 0} {a b : A} → some a ≡ some b → a ≡ b
Option-some e = cc

pub Draws-length :
    {from s : DisplayState} {cells : List Cell} {bytes : List ℕ} {loss : ℕ}
    → Draws from cells bytes s loss
    → length bytes ≡ length cells
Draws-length begin = refl
Draws-length (move cells bytes s s' cell byte loss draws moves) =
    omega
      (arith, Draws-length draws, length-append cells (cell ∷ []), length-append bytes (byte ∷ []))

-- The bytes of a row that is compiled draw it, at the least of the final costs.
pub compile_row-chosen :
    (cells : List Cell) (bytes : List ℕ)
    → All IsCell cells
    → length cells ≤ 300
    → compile_row cells ≡ some bytes
    → (s : DisplayState) × Draws initial cells bytes s (chosen cells).1
compile_row-chosen cells bytes v few e =
    let out = compile_columns cells first_costs [] in
    let history =
      compile_columns-IsHistory cells [] first_costs [] v (omega arith) first_costs-IsHistory in
    let found = sym (compile_row_lem cells) ∙ e in
    elim (Bool-cases ((chosen cells).1 == infinite_cost)) [
      | inl dear ↦ absurd (ground arith)
      | inr finite ↦
          let best = cheapest_lem state_count 0 out.0 0 infinite_cost (omega arith) (inl refl) in
          elim best [
            | inl unreached ↦ absurd (ground arith)
            | inr (range, least) ↦
                let (path, draws, back) =
                  history.paths (chosen cells).0 range (λ unreached. ground arith) in
                let written : backtrack out.1 (chosen cells).0 [] ≡ some bytes = ground arith in
                let same : path ≡ bytes =
                  sym (append-nil path) ∙ Option-some (sym (back []) ∙ written) in
                let final = state_from_index (chosen cells).0 in
                (
                  final,
                  subst (λ c. Draws initial cells bytes final c) least
                      (subst (λ b. Draws initial cells b final (get_or out.0 (chosen cells).0 0))
                        same draws),
                )
          ]
    ]

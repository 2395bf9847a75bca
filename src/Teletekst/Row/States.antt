-- ===== src/Teletekst/Row/States.antt =====
-- firmware/src/teletekst.c: the numbers of the states of the SAA5050.
use p2000t_teletekst_cartrid.Prelude.{ℕ, ◌<◌, ◌≤◌, ◌≡◌, arith}
use p2000t_teletekst_cartrid.Teletekst.Row.{
  DisplayState, state_index, state_from_index, state_count,
}

-- A state that has a number: a colour from red to white on a colour from black to white.
pub record IsDisplayState (s : DisplayState) : Type 0 where
  pub coloured : 1 ≤ s.foreground
  pub foreground_fits : s.foreground ≤ 7
  pub background_fits : s.background ≤ 7
  pub mode_fits : s.mode ≤ 1

-- The states and the numbers below 112 correspond: each way and back, either is itself again.
pub state_index-IsDisplayState :
    (s : DisplayState) (index : ℕ)
    → IsDisplayState s
    → index < state_count
    → (state_index s < state_count)
      × (state_from_index (state_index s) ≡ s)
      × IsDisplayState (state_from_index index)
      × (state_index (state_from_index index) ≡ index)
unfolding state_index state_from_index
state_index-IsDisplayState s index v h = ground arith

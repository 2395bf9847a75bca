-- ===== src/Host/Link.antt =====
-- src/platform.h, src/p2wp.c: the calls of the platform, and the waits for a byte. The platform is
-- machine code: its operations are parameters.
use p2000t_teletekst_cartrid.Prelude.{
  ℕ, zero, suc, ◌+◌, ◌-◌, ◌%◌, ◌^◌, Bool, true, false, not, Option, none, some, bit_and, ltb, ◌==◌,
  if◌then◌else◌, ◌>>=◌,
}

-- `World` is what the platform acts on.
pub record Link (World : Type 0) : Type 0 where
  -- `platform_clock`
  pub clock : World → ℕ × World
  -- `platform_link_status`
  pub status : World → ℕ × World
  -- `platform_link_receive`
  pub receive : World → ℕ × World
  -- `platform_link_send`
  pub send : World → ℕ → World

abbrev pub rx_ready : ℕ
rx_ready = 1

abbrev pub tx_ready : ℕ
tx_ready = 2

module _ {World : Type 0} (link : Link World) where
  -- `(int16_t)(platform_clock() - deadline) >= 0`
  unfoldable pub deadline_reached : ℕ → World → Bool × World
  deadline_reached deadline w =
      let (now, w') = link.clock w in
      (ltb ((now + (2 ^ 16 - deadline % 2 ^ 16)) % 2 ^ 16) (2 ^ 15), w')

  -- `while ((platform_link_status() & mask) == 0u)`: whether the port is ready.
  unfoldable pub wait : ℕ → ℕ → ℕ → World → Option (Bool × World)
  unfolding deadline_reached
  wait zero mask deadline w = none
  wait (suc fuel) mask deadline w =
      let (status, w') = link.status w in
      let (reached, w'') = deadline_reached deadline w' in
      let later = wait fuel mask deadline w'' in
      if not (bit_and status mask == 0)
      then some (true, w')
      else if reached
      then some (false, w'')
      else later

  unfoldable pub send_byte : ℕ → ℕ → ℕ → World → Option (Bool × World)
  unfolding wait
  send_byte fuel value deadline w = wait fuel tx_ready deadline w >>= λ r.
      if r.0 then some (true, link.send r.1 value) else some (false, r.1)

  -- The byte that was received, if one was.
  unfoldable pub receive_byte : ℕ → ℕ → World → Option (Option ℕ × World)
  unfolding wait
  receive_byte fuel deadline w = wait fuel rx_ready deadline w >>= λ r.
      if r.0 then (let (byte, w') = link.receive r.1 in some (some byte, w')) else some (none, r.1)

  -- `&&`: the second call where the first was a success.
  abbrev pub and_then :
      Option (Bool × World) → (World → Option (Bool × World)) → Option (Bool × World)
  and_then first second = first >>= λ r. if r.0 then second r.1 else some (false, r.1)

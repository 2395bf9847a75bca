-- ===== src/Host/Starvation.antt =====
-- src/p2wp.c: a peripheral that keeps sending delimiters.
use p2000t_teletekst_cartrid.Host.Framing.{
  Receiver, again, take_delimiter, take_value, receive_frame,
}
use p2000t_teletekst_cartrid.Host.Link.{Link, rx_ready, wait, receive_byte}
use p2000t_teletekst_cartrid.Host.Rounds.{round_again}
use p2000t_teletekst_cartrid.P2wp.Frame.{delimiter}
use p2000t_teletekst_cartrid.Prelude.{
  ℕ, zero, suc, true, false, some, none, bit_and, ◌==◌, ◌≡◌, refl, arith, ◌∙◌,
}

-- In these states of the world there is always a byte to read, a delimiter, and reading it leads to
-- another such state.
pub record Babbles {World : Type 0} (link : Link World) (Noisy : World → Type 0) : Type 0 where
  pub ready : (w : World) → Noisy w → (bit_and (link.status w).0 rx_ready == 0) ≡ false
  pub reads : (w : World) → Noisy w → (link.receive (link.status w).1).0 ≡ delimiter
  pub goes_on : (w : World) → Noisy w → Noisy (link.receive (link.status w).1).1

module _ {World : Type 0} (link : Link World) (Noisy : World → Type 0) (b : Babbles link Noisy)
    (polls deadline : ℕ) where
  receive_byte_noisy :
      (w : World)
      → Noisy w
      → receive_byte link (suc polls) deadline w
        ≡ some (some delimiter, (link.receive (link.status w).1).1)
  unfolding receive_byte wait
  receive_byte_noisy w n = rw (b.ready w n, b.reads w n) refl

  -- A delimiter with no byte before it only marks the start of a frame.
  take_noise :
      (r : Receiver) → r.count ≡ 0 → take_value r delimiter ≡ again (record r { active = true })
  unfolding take_value take_delimiter
  take_noise r e = ground arith

  -- Where the link always has a delimiter to read, no number of rounds ends the loop of
  -- `receive_frame` that has not stored a byte, whatever the clock shows and wherever the deadline
  -- lies: the deadline is looked at only while no byte is ready.
  pub receive_frame-Babbles :
      (bytes : ℕ) (r : Receiver) (w : World)
      → Noisy w
      → r.count ≡ 0
      → receive_frame link (suc polls) deadline bytes r w ≡ none
  unfolding receive_frame
  receive_frame-Babbles zero r w n e = refl
  receive_frame-Babbles (suc bytes) r w n e =
      round_again link (suc polls) deadline bytes r (record r { active = true }) w
        (link.receive (link.status w).1).1 delimiter (receive_byte_noisy w n) (take_noise r e)
      ∙ receive_frame-Babbles bytes (record r { active = true }) (link.receive (link.status w).1).1
          (b.goes_on w n) e

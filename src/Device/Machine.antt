-- ===== src/Device/Machine.antt =====
-- src/platform.asm: the cartridge's calls of the link, with the device of the emulator on its ports.
use p2000t_teletekst_cartrid.Device.Ports.{
  Device, tx_port, rx_port, status_port, device_out, device_in,
}
use p2000t_teletekst_cartrid.Device.Serving.{outs}
use p2000t_teletekst_cartrid.Host.Link.{Link}
use p2000t_teletekst_cartrid.Host.Receiving.{Offers}
use p2000t_teletekst_cartrid.Host.Sending.{IsOpen, sends}
use p2000t_teletekst_cartrid.P2wp.Parser.{byte_at}
use p2000t_teletekst_cartrid.Prelude.{
  ℕ, suc, ◌+◌, true, List, [], ◌∷◌, ◌++◌, length, ltb, ◌≡◌, refl, sym, ap, ◌∙◌, arith, Bool-cases,
  inl, inr, append_assoc, append-nil, length-append, get_or_at,
}

-- The device, and how often the clock was read.
pub record Machine (Context : Type 0) : Type 0 where
  pub device : Device Context
  pub reads : ℕ

module _ {Context : Type 0} where
  -- The value and the device behind an `in` instruction.
  abbrev port_in : ℕ → Machine Context → ℕ × Machine Context
  port_in port m = let (value, d) = device_in port m.device in (value, record m { device = d })

  -- The monitor clock shows `ticks n` when it is read for the n-th time.
  abbrev pub cartridge_link : (ℕ → ℕ) → Link (Machine Context)
  cartridge_link ticks = record {
    clock = λ m. (ticks m.reads, record m { reads = m.reads + 1 });
    status = port_in status_port;
    receive = port_in rx_port;
    send = λ m value. record m { device = device_out tx_port value m.device };
  }

  module _ (ticks : ℕ → ℕ) where
    pub cartridge_link-IsOpen : IsOpen (cartridge_link ticks)
    unfolding device_in
    cartridge_link-IsOpen = record {
      ready = λ m. elim (Bool-cases (ltb m.device.encoded_position (length m.device.encoded))) [
        | inl more ↦ rw more refl
        | inr end ↦ rw end refl
      ];
      silent = λ m. refl;
    }

    pub sends-outs :
        (bs : List ℕ) (m : Machine Context)
        → sends (cartridge_link ticks) bs m ≡ record m { device = outs bs m.device }
    unfolding sends outs
    sends-outs [] m = refl
    sends-outs (b ∷ bs) m = sends-outs bs (record m { device = device_out tx_port b m.device })

    -- All bytes of the response were read.
    abbrev pub drained : Machine Context → Machine Context
    drained m = record m { device = record m.device { encoded_position = length m.device.encoded } }

    -- What is left of the encoded response is offered.
    pub Offers-encoded :
        (bs before : List ℕ) (m : Machine Context)
        → m.device.encoded ≡ before ++ bs
        → m.device.encoded_position ≡ length before
        → Offers (cartridge_link ticks) bs m (drained m)
    unfolding device_in
    Offers-encoded [] before m e at =
        ap {A = ℕ} (λ n. record m { device = record m.device { encoded_position = n } })
          (at ∙ ap length (sym (append-nil before)) ∙ ap length (sym e))
    Offers-encoded (b ∷ bs) before m e at =
        let d = m.device in
        let size : length d.encoded ≡ length before + suc (length bs) =
          ap length e ∙ length-append before (b ∷ bs) in
        let waiting : ltb d.encoded_position (length d.encoded) ≡ true = ground arith in
        let read : byte_at d.encoded d.encoded_position ≡ b =
          rw e (get_or_at d.encoded_position 0 before (b ∷ bs) 0 (omega arith)) in
        let after = record m { device = record d { encoded_position = d.encoded_position + 1 } } in
        let later =
          Offers-encoded bs (before ++ (b ∷ [])) after (e ∙ sym (append_assoc before (b ∷ []) bs))
            (omega (arith, length-append before (b ∷ []))) in
        rw waiting (refl, refl, read, later)

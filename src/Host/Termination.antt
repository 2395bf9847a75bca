-- ===== src/Host/Termination.antt =====
-- src/p2wp.c against emulator/src/p2wp_device.c: the cartridge never waits for ever on this device.
use mathlib.Core.Path.{subst}
use p2000t_teletekst_cartrid.Device.Machine.{
  Machine, cartridge_link, cartridge_link-IsOpen, sends-outs,
}
use p2000t_teletekst_cartrid.Device.Ports.{
  Device, tx_port, status_port, rx_port, serve, bytes_of, device_out, device_in,
}
use p2000t_teletekst_cartrid.Device.Serving.{outs}
use p2000t_teletekst_cartrid.FirmwareCore.Handle.{handle}
use p2000t_teletekst_cartrid.Host.Framing.{
  Receiver, Received, again, failed, complete, start_receiver, take_value, receive_frame,
}
use p2000t_teletekst_cartrid.Host.Link.{Link, rx_ready, wait, receive_byte}
use p2000t_teletekst_cartrid.Host.Rounds.{
  round_silent, round_again, round_failed, round_complete, attempt_final, attempt_again,
}
use p2000t_teletekst_cartrid.Host.Sending.{framed, sends, send_frame-framed}
use p2000t_teletekst_cartrid.Host.Transaction.{
  Reply, Done, validate_response, is_final, build_request, exchange, attempts, attempt_count,
  transact, link_timeout,
}
use p2000t_teletekst_cartrid.P2wp.Encode.Wire.{encode-wire}
use p2000t_teletekst_cartrid.P2wp.Encode.{encode}
use p2000t_teletekst_cartrid.P2wp.Frame.{Frame, header_size, max_encoded, u16}
use p2000t_teletekst_cartrid.P2wp.Parser.{parser_feed}
use p2000t_teletekst_cartrid.Prelude.{
  Option-cases, ℕ, zero, suc, ◌+◌, ◌-◌, ◌%◌, ◌^◌, ◌≤◌, ◌<◌, Bool, true, false, ◌&&◌, List, [], ◌∷◌,
  Option, some, length, bit_and, ltb, ltb→lt, ◌==◌, if◌then◌else◌, ◌≡◌, ◌≢◌, refl, sym, ap, ◌∙◌,
  arith, ◌⊎◌, Bool-cases, inl, inr,
}

-- The test of the wrapping clock.
abbrev is_reached : ℕ → ℕ → Bool
is_reached deadline now = ltb ((now + (2 ^ 16 - deadline % 2 ^ 16)) % 2 ^ 16) (2 ^ 15)

-- Within this many reads, from any on, the clock passes the deadline. A clock that runs does so for
-- every deadline, since it takes all 2 ^ 16 values.
abbrev pub Passes : (ℕ → ℕ) → ℕ → ℕ → Type 0
Passes ticks reads deadline =
    (n : ℕ) → (k : ℕ) × (k < reads) × (is_reached deadline (ticks (n + k)) ≡ true)

length-encode : (f : Frame) → length (bytes_of (encode f max_encoded)) ≤ max_encoded
length-encode f = ground (arith, encode-wire f max_encoded)

Received-cases :
    (t : Received)
    → ((r : Receiver) × (t ≡ again r))
      ⊎ (((r : Receiver) × (t ≡ failed r)) ⊎ ((r : Receiver) × (t ≡ complete r)))
Received-cases (again r) = inl (r, refl)
Received-cases (failed r) = inr (inl (r, refl))
Received-cases (complete r) = inr (inr (r, refl))

reads_at : (n k : ℕ) → k ≡ 0 → n ≡ n + k
reads_at n k z = omega arith

reads_after : (n k : ℕ) → k ≢ 0 → n + 1 + (k - 1) ≡ n + k
reads_after n k later = omega arith

module _ {Context : Type 0} where
  -- The encoded response fits its array.
  abbrev pub Fits : Machine Context → Type 0
  Fits m = length m.device.encoded ≤ max_encoded

  device_out-length :
      (port value : ℕ) (d : Device Context)
      → length d.encoded ≤ max_encoded
      → length (device_out port value d).encoded ≤ max_encoded
  unfolding device_out serve
  device_out-length port value d h =
      ground
        (arith, length-encode (handle d.firmware_core (parser_feed d.parser value d.stack).2).2)

  outs-length :
      (bs : List ℕ) (d : Device Context)
      → length d.encoded ≤ max_encoded
      → length (outs bs d).encoded ≤ max_encoded
  unfolding outs
  outs-length [] d h = h
  outs-length (b ∷ bs) d h =
      outs-length bs (device_out tx_port b d) (device_out-length tx_port b d h)

  status_silent : (d : Device Context) → (device_in status_port d).1 ≡ d
  unfolding device_in
  status_silent d = refl

  module _ (ticks : ℕ → ℕ) where
    -- What a wait does to the machine: it reads the clock.
    record IsWaited (mask : ℕ) (m : Machine Context) (ready : Bool) (m' : Machine Context)
        : Type 0 where
      same : m'.device ≡ m.device
      tested : ready ≡ true → (bit_and (device_in status_port m.device).0 mask == 0) ≡ false

    wait_ends :
        (fuel mask deadline k : ℕ) (m : Machine Context)
        → k < fuel
        → is_reached deadline (ticks (m.reads + k)) ≡ true
        → (ready : Bool) × (m' : Machine Context) × IsWaited mask m ready m'
          × (wait (cartridge_link ticks) fuel mask deadline m ≡ some (ready, m'))
    unfolding wait
    wait_ends zero mask deadline k m h e = absurd (omega arith)
    wait_ends (suc fuel) mask deadline k m h e =
        let d = (device_in status_port m.device).1 in
        let silent : d ≡ m.device = status_silent m.device in
        elim (Bool-cases (bit_and (device_in status_port m.device).0 mask == 0)) [
          | inr ready ↦ (
            true,
            record m { device = d },
            record { same = silent; tested = λ h. ready },
            rw ready refl,
          )
          | inl idle ↦ elim (Bool-cases (is_reached deadline (ticks m.reads))) [
            | inl over ↦ (
              false,
              record { device = d; reads = m.reads + 1 },
              record { same = silent; tested = λ h. absurd (cc) },
              rw (idle, over) refl,
            )
            | inr early ↦
                let later : k ≢ 0 = λ z.
                  cc (ap (λ n. is_reached deadline (ticks n)) (reads_at m.reads k z), e, early) in
                let (ready, m', w, ends) =
                  wait_ends fuel mask deadline (k - 1) (record { device = d; reads = m.reads + 1 })
                    (omega arith)
                    (ap (λ n. is_reached deadline (ticks n)) (reads_after m.reads k later) ∙ e) in
                (
                  ready,
                  m',
                  record {
                    same = w.same ∙ silent;
                    tested = λ h.
                        ap (λ t. bit_and (device_in status_port t).0 mask == 0) (sym silent)
                        ∙ w.tested h;
                  },
                  rw (idle, early) ends,
                )
          ]
        ]

    -- A byte that was received was one of the encoded response.
    abbrev unread : Machine Context → ℕ
    unread m = length m.device.encoded - m.device.encoded_position

    record IsRead (m : Machine Context) (got : Option ℕ) (m' : Machine Context) : Type 0 where
      encoded : m'.device.encoded ≡ m.device.encoded
      fewer : (b : ℕ) → got ≡ some b → unread m' < unread m

    device_in-encoded : (port : ℕ) (d : Device Context) → (device_in port d).1.encoded ≡ d.encoded
    unfolding device_in
    device_in-encoded port d = ground arith

    device_in_fewer :
        (d : Device Context)
        → (bit_and (device_in status_port d).0 rx_ready == 0) ≡ false
        → length (device_in rx_port d).1.encoded - (device_in rx_port d).1.encoded_position
          < length d.encoded - d.encoded_position
    unfolding device_in
    device_in_fewer d ready = elim (Bool-cases (ltb d.encoded_position (length d.encoded))) [
      | inl more ↦ rw more (omega (arith, ltb→lt _ _ more))
      | inr end ↦ cc (rw end at ready)
    ]

    receive_byte_ends :
        (polls deadline : ℕ) (m : Machine Context)
        → Passes ticks polls deadline
        → (got : Option ℕ) × (m' : Machine Context) × IsRead m got m'
          × (receive_byte (cartridge_link ticks) polls deadline m ≡ some (got, m'))
    unfolding receive_byte
    receive_byte_ends polls deadline m passes =
        let (k, soon, over) = passes m.reads in
        let (ready, m', w, ends) = wait_ends polls rx_ready deadline k m soon over in
        elim (Bool-cases ready) [
          | inl yes_ready ↦ (
            some (device_in rx_port m'.device).0,
            record m' { device = (device_in rx_port m'.device).1 },
            record {
              encoded = device_in-encoded rx_port m'.device ∙ ap (λ d. d.encoded) w.same;
              fewer = λ b h.
                  subst
                    (λ d.
                      length (device_in rx_port d).1.encoded
                        - (device_in rx_port d).1.encoded_position
                      < unread m)
                    (sym w.same) (device_in_fewer m.device (w.tested yes_ready));
            },
            rw (ends, yes_ready) refl,
          )
          | inr not_ready ↦ (
            Option.none,
            m',
            record { encoded = ap (λ d. d.encoded) w.same; fewer = λ b h. cc },
            rw (ends, not_ready) refl,
          )
        ]

    module _ (polls deadline : ℕ) (passes : Passes ticks (suc polls) deadline) where
      -- One round more than there are bytes to read is enough.
      receive_frame_ends :
          (bytes : ℕ) (r : Receiver) (m : Machine Context)
          → Fits m
          → unread m < bytes
          → (valid : Bool) × (r' : Receiver) × (m' : Machine Context) × Fits m'
            × (receive_frame (cartridge_link ticks) (suc polls) deadline bytes r m
                ≡ some (valid, r', m'))
      receive_frame_ends zero r m fits enough = absurd (omega arith)
      receive_frame_ends (suc bytes) r m fits enough =
          let link : Link (Machine Context) = cartridge_link ticks in
          let (got, m', read, received) = receive_byte_ends (suc polls) deadline m passes in
          let fits' : Fits m' = omega (arith, ap (length {A = ℕ}) read.encoded) in
          elim (Option-cases got) [
            | inl silent ↦ (
              false,
              r,
              m',
              fits',
              round_silent link (suc polls) deadline bytes r r m m'
                  (received ∙ ap (λ t. some (t, m')) silent),
            )
            | inr (b, byte) ↦
                let fewer = read.fewer b byte in
                let e = received ∙ ap (λ t. some (t, m')) byte in
                elim (Received-cases (take_value r b)) [
                  | inl (r', next) ↦
                      let (valid, r'', m'', fits'', ends) =
                        receive_frame_ends bytes r' m' fits' (omega arith) in
                      (
                        valid,
                        r'',
                        m'',
                        fits'',
                        round_again link (suc polls) deadline bytes r r' m m' b e next ∙ ends,
                      )
                  | inr (inl (r', stop)) ↦ (
                    false,
                    r',
                    m',
                    fits',
                    round_failed link (suc polls) deadline bytes r r' m m' b e stop,
                  )
                  | inr (inr (r', stop)) ↦ (
                    true,
                    r',
                    m',
                    fits',
                    round_complete link (suc polls) deadline bytes r r' m m' b e stop,
                  )
                ]
          ]

      exchange_ends :
          (bytes version type sequence : ℕ) (payload response : List ℕ) (m : Machine Context)
          → Fits m
          → max_encoded < bytes
          → (valid : Bool) × (response' : List ℕ) × (m' : Machine Context) × Fits m'
            × (exchange
                  (cartridge_link ticks)
                  (suc polls)
                  bytes
                  version
                  type
                  sequence
                  payload
                  deadline
                  response
                  m
                ≡ some (valid, response', m'))
      unfolding exchange
      exchange_ends bytes version type sequence payload response m fits enough =
          let link : Link (Machine Context) = cartridge_link ticks in
          let request = build_request version type sequence payload in
          let count = header_size + length payload in
          let sent =
            send_frame-framed link (cartridge_link-IsOpen ticks) polls deadline request count m in
          let m₁ = record m { device = outs (framed request count) m.device } in
          let at_device : sends link (framed request count) m ≡ m₁ =
            sends-outs ticks (framed request count) m in
          let fits₁ : Fits m₁ = outs-length (framed request count) m.device fits in
          let (valid, r, m', fits', ends) =
            receive_frame_ends bytes (start_receiver response) m₁ fits₁ (omega arith) in
          (valid, r.response, m', fits', rw (sent, at_device, ends) refl)

      attempts_ends :
          (bytes version type sequence : ℕ) (payload : List ℕ) (left : ℕ) (reply : Reply)
          → (response : List ℕ) (m : Machine Context) → Fits m
          → max_encoded < bytes
          → (done : Done (Machine Context)) × Fits done.world
            × (attempts
                  (cartridge_link ticks)
                  (suc polls)
                  bytes
                  version
                  type
                  sequence
                  payload
                  deadline
                  left
                  reply
                  response
                  m
                ≡ some done)
      unfolding attempts
      attempts_ends bytes version type sequence payload zero reply response m fits enough =
          (_, fits, refl)
      attempts_ends bytes version type sequence payload (suc left) reply response m fits enough =
          let link : Link (Machine Context) = cartridge_link ticks in
          let (valid, response', m', fits', e) =
            exchange_ends bytes version type sequence payload response m fits enough in
          let checked = validate_response version type sequence response' reply in
          elim (Bool-cases (valid && is_final checked.0)) [
            | inl ended ↦ (
              record { result = checked.0; reply = checked.1; response = response'; world = m' },
              fits',
              attempt_final link (suc polls) bytes version type sequence payload deadline left reply
                  response response' valid m m' e ended,
            )
            | inr ended ↦
                let (done, fits'', later) =
                  attempts_ends bytes version type sequence payload left
                    (if valid then checked.1 else reply) response' m' fits' enough in
                (
                  done,
                  fits'',
                  attempt_again link (suc polls) bytes version type sequence payload deadline left
                        reply response response' valid m m' e ended
                      ∙ later,
                )
          ]

    -- A transaction ends: where the clock passes every deadline within a number of reads, with fuel
    -- for so many polls in each wait, and for one byte more than an encoded frame has in each frame,
    -- `transact` returns, whatever it sends and whatever state the device and its command processor
    -- are in.
    pub transact_ends :
        (polls bytes version type sequence : ℕ) (payload : List ℕ) (reply : Reply)
        → (response : List ℕ) (m : Machine Context)
        → ((deadline : ℕ) → Passes ticks (suc polls) deadline)
        → Fits m
        → max_encoded < bytes
        → (done : Done (Machine Context)) × (transact
              (cartridge_link ticks)
              (suc polls)
              bytes
              version
              type
              sequence
              payload
              reply
              response
              m
            ≡ some done)
    unfolding transact
    transact_ends polls bytes version type sequence payload reply response m passes fits enough =
        let deadline = u16 (ticks m.reads + link_timeout) in
        let (done, fits', ends) =
          attempts_ends polls deadline (passes deadline) bytes version type sequence payload
            attempt_count reply response (record m { reads = m.reads + 1 }) fits enough in
        (done, ends)

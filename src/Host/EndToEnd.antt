-- ===== src/Host/EndToEnd.antt =====
-- src/p2wp.c against emulator/src/p2wp_device.c: one request of the cartridge, and the device's
-- response to it.
use p2000t_teletekst_cartrid.Device.Machine.{
  Machine, cartridge_link, cartridge_link-IsOpen, sends-outs, drained, Offers-encoded,
}
use p2000t_teletekst_cartrid.Device.Ports.{serve, bytes_of}
use p2000t_teletekst_cartrid.Device.Serving.{outs-wire}
use p2000t_teletekst_cartrid.FirmwareCore.Handle.{handle, zero_frame}
use p2000t_teletekst_cartrid.FirmwareCore.State.{Core}
use p2000t_teletekst_cartrid.Host.Framing.{
  Receiver, host_limit, host_max_body, start_receiver, send_frame, receive_frame,
}
use p2000t_teletekst_cartrid.Host.Link.{Link}
use p2000t_teletekst_cartrid.Host.Receiving.{receive_frame-stuffed}
use p2000t_teletekst_cartrid.Host.Sending.{framed, sends, send_frame-framed}
use p2000t_teletekst_cartrid.Host.Transaction.{build_request, exchange}
use p2000t_teletekst_cartrid.P2wp.Encode.Wire.{
  stuffed, sealed_body, wire, length-sealed_body, encode_total, length-wire,
}
use p2000t_teletekst_cartrid.P2wp.Encode.{frame_body}
use p2000t_teletekst_cartrid.P2wp.Frame.{
  Frame, IsFrame, IsByte, header_size, max_payload, max_encoded, delimiter, u8,
}
use p2000t_teletekst_cartrid.P2wp.Parser.Decode.{decoded}
use p2000t_teletekst_cartrid.P2wp.Parser.Stream.{IsIdle}
use p2000t_teletekst_cartrid.P2wp.RoundTrip.{
  IsSendable, parts, decode_sealed, sealed-ne-nil, length-parts,
}
use p2000t_teletekst_cartrid.Prelude.{
  ℕ, zero, suc, ◌+◌, ◌-◌, ◌/◌, ◌^◌, ◌≤◌, ◌<◌, true, List, [], ◌∷◌, ◌++◌, some, length, take,
  replicate, All, ◌≡◌, refl, sym, ap, ◌∙◌, arith, take_at, length-append, length-replicate,
  All-append, ◌>>=◌,
}

-- The request of `transact` as a frame of the firmware.
abbrev pub request_frame : ℕ → ℕ → ℕ → List ℕ → Frame
request_frame version type sequence payload = record {
  version = version;
  flags = 0;
  type = type;
  sequence = sequence;
  payload_length = length payload;
  payload = payload ++ replicate (max_payload - length payload) 0;
}

pub All-zeros : (n : ℕ) → All IsByte (replicate n 0)
All-zeros zero = tt
All-zeros (suc n) = (omega arith, All-zeros n)

-- The arguments of a request fit their C types, and its payload the limit of the host.
pub record IsRequest (version type sequence : ℕ) (payload : List ℕ) : Type 0 where
  pub version_byte : version < 256
  pub type_byte : type < 256
  pub sequence_byte : sequence < 256
  pub payload_bytes : All IsByte payload
  pub small : length payload ≤ host_limit

module _ (version type sequence : ℕ) (payload : List ℕ) where
  request_frame-IsSendable :
      IsRequest version type sequence payload
      → IsSendable (request_frame version type sequence payload)
  request_frame-IsSendable v =
      let small = v.small in
      record {
        typed = record {
          version_byte = v.version_byte;
          flags_byte = omega arith;
          type_byte = v.type_byte;
          sequence_byte = v.sequence_byte;
          length_fits = omega arith;
          array_size = omega (
            arith,
            length-append payload (replicate (max_payload - length payload) 0),
            length-replicate {A = ℕ} (max_payload - length payload) 0,
          );
          payload_bytes =
              All-append IsByte payload _ v.payload_bytes
                (All-zeros (max_payload - length payload));
        };
        small = omega arith;
      }

  wire-request_frame :
      wire (request_frame version type sequence payload)
      ≡ framed (build_request version type sequence payload) (header_size + length payload)
  unfolding wire sealed_body frame_body build_request
  wire-request_frame =
      ap
        (λ t.
          let body =
            version ∷ 0 ∷ type ∷ sequence ∷ u8 (length payload) ∷ u8 (length payload / 2 ^ 8) ∷ t in
          framed body (header_size + length payload))
        (take_at (length payload) payload (replicate (max_payload - length payload) 0) refl)

module _ {Context : Type 0} where
  -- The frame that the parser of an idle device delivers for a frame on the wire.
  abbrev pub delivered_frame : Frame → Machine Context → Frame
  delivered_frame q m = decoded (parts q) m.device.stack

  -- What the command processor makes of it: the core and the response.
  abbrev pub served : Frame → Machine Context → Core Context × Frame
  served q m =
      let (core, request, response) = handle m.device.firmware_core (delivered_frame q m) in
      (core, response)

  -- A response was received: its body, checksum included, stands in the workspace, the device is
  -- between frames, and its core is the one that made the response.
  pub record IsServed (q : Frame) (m : Machine Context) (r : List ℕ) (m' : Machine Context)
      : Type 0 where
    pub body : take (length (sealed_body (served q m).1)) r ≡ sealed_body (served q m).1
    pub array : length r ≡ host_max_body
    pub core : m'.device.firmware_core ≡ (served q m).0
    pub idle : IsIdle m'.device.parser

  module _ (ticks : ℕ → ℕ) (polls bytes deadline : ℕ) where
    abbrev machine_link : Link (Machine Context)
    machine_link = cartridge_link ticks

    -- The device behind a request that was sent.
    sent_frame :
        (q : Frame) (m : Machine Context)
        → IsSendable q
        → IsIdle m.device.parser
        → IsFrame (served q m).1
        → (served q m).1.payload_length ≤ max_payload
        → (m' : Machine Context) × IsIdle m'.device.parser
          × (m'.device.firmware_core ≡ (served q m).0)
          × (m'.device.encoded ≡ wire (served q m).1)
          × (m'.device.encoded_position ≡ 0)
          × (sends machine_link (wire q) m ≡ m')
    unfolding serve
    sent_frame q m v idle typed small =
        let (p, between, steps) = outs-wire q m.device v idle in
        (
          record m { device = serve p (delivered_frame q m) m.device },
          between,
          refl,
          ap bytes_of (encode_total (served q m).1 max_encoded small (omega arith)),
          refl,
          sends-outs ticks (wire q) m ∙ ap (λ d. record m { device = d }) steps,
        )

    -- The response that is offered is received.
    received_frame :
        (response : List ℕ) (m : Machine Context) (f : Frame)
        → length response ≡ host_max_body
        → IsFrame f
        → f.payload_length ≤ host_limit
        → max_encoded ≤ bytes
        → m.device.encoded ≡ wire f
        → m.device.encoded_position ≡ 0
        → (r : Receiver) × (receive_frame machine_link
              (suc polls)
              deadline
              bytes
              (start_receiver response)
              m
            ≡ some (true, r, drained ticks m))
          × (take (length (sealed_body f)) r.response ≡ sealed_body f)
          × (length r.response ≡ host_max_body)
    unfolding wire
    received_frame response m f size typed small enough e start =
        let v : IsSendable f = record { typed = typed; small = omega arith } in
        receive_frame-stuffed machine_link polls deadline (sealed_body f) response bytes m
          (drained ticks m) zero_frame (decoded (parts f) zero_frame) size (sealed-ne-nil f v)
          (omega (arith, length-sealed_body f))
          (λ array held. decode_sealed f v array zero_frame held) (omega (arith, length-parts f v))
          (Offers-encoded ticks (delimiter ∷ (stuffed (sealed_body f) ++ (delimiter ∷ []))) [] m e
            start)
          (omega (arith, length-wire f))

    module _ (version type sequence : ℕ) (payload : List ℕ) where
      exchange_steps :
          (response : List ℕ) (m m' : Machine Context)
          → sends machine_link (wire (request_frame version type sequence payload)) m ≡ m'
          → exchange machine_link
              (suc polls)
              bytes
              version
              type
              sequence
              payload
              deadline
              response
              m
            ≡ (receive_frame machine_link (suc polls) deadline bytes (start_receiver response) m'
                >>= λ got. some (got.0, got.1.response, got.2))
      unfolding exchange
      exchange_steps response m m' e =
          let request = build_request version type sequence payload in
          let sent : send_frame machine_link (suc polls) deadline request
                (header_size + length payload) m
              ≡ some (true, m') =
            send_frame-framed machine_link (cartridge_link-IsOpen ticks) polls deadline request
              (header_size + length payload) m
            ∙ ap (λ w. some (true, w))
                (ap (λ t. sends machine_link t m)
                    (sym (wire-request_frame version type sequence payload))
                  ∙ e) in
          rw sent refl

      -- A request whose arguments fit, to a device that is between frames and responds with a frame
      -- within the limit of the host: the exchange ends with that response in the workspace,
      -- whatever the monitor clock shows, and the request was handled once.
      pub exchange-handle :
          (response : List ℕ) (m : Machine Context)
          → IsRequest version type sequence payload
          → IsIdle m.device.parser
          → length response ≡ host_max_body
          → IsFrame (served (request_frame version type sequence payload) m).1
          → (served (request_frame version type sequence payload) m).1.payload_length ≤ host_limit
          → max_encoded ≤ bytes
          → (r : List ℕ) × (m' : Machine Context) × IsServed
              (request_frame version type sequence payload)
              m
              r
              m'
            × (exchange machine_link
                  (suc polls)
                  bytes
                  version
                  type
                  sequence
                  payload
                  deadline
                  response
                  m
                ≡ some (true, r, m'))
      exchange-handle response m v idle size typed small enough =
          let q = request_frame version type sequence payload in
          let (m₁, between, core, encoded, start, sent) =
            sent_frame q m (request_frame-IsSendable version type sequence payload v) idle typed
              (omega arith) in
          let (r, got, body, array) =
            received_frame response m₁ (served q m).1 size typed small enough encoded start in
          (
            r.response,
            drained ticks m₁,
            record { body = body; array = array; core = core; idle = between },
            exchange_steps response m m₁ sent
                ∙ ap (λ o. o >>= λ got. some (got.0, got.1.response, got.2)) got,
          )

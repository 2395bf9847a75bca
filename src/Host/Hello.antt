-- ===== src/Host/Hello.antt =====
-- src/p2wp.c against emulator/src/p2wp_device.c: the session that `p2wp_hello` opens.
use p2000t_teletekst_cartrid.Device.Machine.{Machine, cartridge_link}
use p2000t_teletekst_cartrid.FirmwareCore.Handle.Negotiation.{
  IsHello, IsNegotiated, handle-welcome, handle-IsNegotiated,
}
use p2000t_teletekst_cartrid.FirmwareCore.Handle.{
  handle, zero_frame, magic, capability_byte, is_retransmission, refusal, valid_hello, make_success,
}
use p2000t_teletekst_cartrid.FirmwareCore.State.{Core}
use p2000t_teletekst_cartrid.Host.EndToEnd.{
  request_frame, delivered_frame, served, IsRequest, exchange-handle, All-zeros,
}
use p2000t_teletekst_cartrid.Host.Framing.{host_max_body}
use p2000t_teletekst_cartrid.Host.Link.{Link}
use p2000t_teletekst_cartrid.Host.Transaction.{
  ok, Session, Reply, reply_of, validate_response, Done, attempts, transact, validate_hello,
  hello_payload, exchange, hello, link_timeout,
}
use p2000t_teletekst_cartrid.P2wp.Encode.Wire.{sealed_body}
use p2000t_teletekst_cartrid.P2wp.Frame.{Frame, IsFrame, max_encoded, u16}
use p2000t_teletekst_cartrid.P2wp.Parser.Decode.{flat}
use p2000t_teletekst_cartrid.P2wp.Parser.Stream.{IsIdle}
use p2000t_teletekst_cartrid.P2wp.Protocol.{bootstrap_version, min_version, max_version, type_hello}
use p2000t_teletekst_cartrid.P2wp.RoundTrip.{parts, sealed_body-parts}
use p2000t_teletekst_cartrid.P2wp.Version.{IsShared, select_version, select_version_lem}
use p2000t_teletekst_cartrid.Prelude.{
  ℕ, suc, ◌+◌, ◌≤◌, ◌<◌, true, false, List, [], ◌∷◌, ◌++◌, some, length, take, drop, bit_and,
  copy_at, ◌≡◌, ◌≢◌, refl, sym, ap, ◌∙◌, arith, take-append-drop,
}

-- A HELLO response of the firmware to the cartridge.
abbrev greeting : ℕ → ℕ → Frame
greeting v capabilities = record zero_frame {
  version = bootstrap_version;
  flags = 1;
  type = type_hello;
  payload_length = 8;
  payload = copy_at zero_frame.payload 0 (magic ++ (v ∷ capabilities ∷ 240 ∷ 0 ∷ []));
}

greeting-IsFrame :
    (v capabilities : ℕ) → v < 256 → capabilities < 256 → IsFrame (greeting v capabilities)
greeting-IsFrame v capabilities h k = record {
  version_byte = omega arith;
  flags_byte = omega arith;
  type_byte = omega arith;
  sequence_byte = omega arith;
  length_fits = omega arith;
  array_size = refl;
  payload_bytes = (
    omega arith,
    (
      omega arith,
      (omega arith, (omega arith, (h, (k, (omega arith, (omega arith, All-zeros 504)))))),
    ),
  );
}

-- The workspace that holds this response, with its checksum.
abbrev holding : ℕ → ℕ → List ℕ → List ℕ
holding v capabilities rest = flat (parts (greeting v capabilities)) ++ rest

module _ (v capabilities : ℕ) (rest : List ℕ) where
  validate_response-greeting :
      (reply : Reply)
      → validate_response bootstrap_version type_hello 0 (holding v capabilities rest) reply
        ≡ (ok, reply_of type_hello 0 (holding v capabilities rest) 0)
  unfolding validate_response
  validate_response-greeting reply = refl

  validate_hello-greeting :
      (session : Session)
      → min_version ≤ v
      → v ≤ max_version
      → bit_and capabilities 0x0e ≡ 0x0e
      → validate_hello session (reply_of type_hello 0 (holding v capabilities rest) 0) ≡ (
        ok,
        record { version = v; capabilities = capabilities; receive_limit = 240; next_sequence = 1 },
      )
  unfolding validate_hello
  validate_hello-greeting session low high able = ground arith

module _ {World : Type 0} (link : Link World) (polls bytes : ℕ) where
  -- The first attempt is enough.
  transact_first :
      (version type sequence : ℕ) (payload : List ℕ) (reply reply' : Reply) (response r : List ℕ)
      → (w w' : World)
      → exchange link polls bytes version type sequence payload
          (u16 ((link.clock w).0 + link_timeout))
          response
          (link.clock w).1
        ≡ some (true, r, w')
      → validate_response version type sequence r reply ≡ (ok, reply')
      → transact link polls bytes version type sequence payload reply response w
        ≡ some (record { result = ok; reply = reply'; response = r; world = w' })
  unfolding transact attempts
  transact_first version type sequence payload reply reply' response r w w' e valid =
      rw (e, valid) refl

  hello_opened :
      (session session' : Session) (reply reply' : Reply) (response r : List ℕ) (w w' : World)
      → transact link polls bytes bootstrap_version type_hello 0 hello_payload reply response w
        ≡ some (record { result = ok; reply = reply'; response = r; world = w' })
      → validate_hello session reply' ≡ (ok, session')
      → hello link polls bytes session reply response w
        ≡ some (ok, session', record { result = ok; reply = reply'; response = r; world = w' })
  unfolding hello
  hello_opened session session' reply reply' response r w w' e opens = rw (e, opens) refl

hello-IsRequest : IsRequest bootstrap_version type_hello 0 hello_payload
hello-IsRequest = record {
  version_byte = omega arith;
  type_byte = omega arith;
  sequence_byte = omega arith;
  payload_bytes = omega arith;
  small = omega arith;
}

-- The workspace behind a greeting.
holding_lem :
    (v capabilities : ℕ) (r : List ℕ) (f : Frame)
    → f ≡ greeting v capabilities
    → take (length (sealed_body f)) r ≡ sealed_body f
    → (rest : List ℕ) × (r ≡ holding v capabilities rest)
holding_lem v capabilities r f e held = (
  drop (length (sealed_body f)) r,
  sym (take-append-drop (length (sealed_body f)) r)
      ∙ ap (λ t. t ++ drop (length (sealed_body f)) r)
          (held ∙ ap sealed_body e ∙ sealed_body-parts (greeting v capabilities)),
)

module _ {Context : Type 0} where
  -- What the device's parser delivers for the HELLO of the cartridge.
  abbrev pub hello_request : Machine Context → Frame
  hello_request m = delivered_frame (request_frame bootstrap_version type_hello 0 hello_payload) m

  -- The greatest revision of both sides, and the capabilities of the device.
  abbrev pub shared_version : Core Context → ℕ
  shared_version core =
      select_version min_version max_version core.protocol_minimum core.protocol_maximum

  abbrev pub offered_capabilities : Core Context → ℕ
  offered_capabilities core = (capability_byte core.operations core.platform_context).0

  -- The device is ready for a HELLO of the cartridge: its parser is between frames, the request is
  -- not the last one again, there is a shared revision, and the capabilities are those that the
  -- cartridge needs.
  pub record IsReady (m : Machine Context) : Type 0 where
    pub idle : IsIdle m.device.parser
    pub new : is_retransmission m.device.firmware_core (hello_request m) ≡ false
    pub shared : shared_version m.device.firmware_core ≢ 0
    pub able : bit_and (offered_capabilities m.device.firmware_core) 0x0e ≡ 0x0e
    pub one_byte : offered_capabilities m.device.firmware_core < 256

  module _ (m : Machine Context) (ready : IsReady m) where
    hello_request-IsHello : IsHello (hello_request m) min_version max_version 240
    unfolding valid_hello
    hello_request-IsHello = record { valid = refl; least = refl; greatest = refl; largest = refl }

    hello_request_accepted : refusal m.device.firmware_core (hello_request m) ≡ 0
    unfolding refusal
    hello_request_accepted = refl

    served-greeting :
        (handle m.device.firmware_core (hello_request m)).2
        ≡ greeting
            (shared_version m.device.firmware_core)
            (offered_capabilities m.device.firmware_core)
    unfolding make_success
    served-greeting =
        handle-welcome m.device.firmware_core (hello_request m) min_version max_version 240
          ready.new hello_request_accepted refl hello_request-IsHello (omega arith) ready.shared

    version_shared :
        (min_version ≤ shared_version m.device.firmware_core)
        × (shared_version m.device.firmware_core ≤ max_version)
    version_shared =
        let core = m.device.firmware_core in
        let known =
          (select_version_lem min_version max_version core.protocol_minimum core.protocol_maximum).0
            ready.shared in
        (known.0, known.1)

    served-IsNegotiated :
        IsNegotiated m.device.firmware_core
          (hello_request m)
          min_version
          max_version
          240
          (shared_version m.device.firmware_core)
          (handle m.device.firmware_core (hello_request m)).0
          (handle m.device.firmware_core (hello_request m)).2
    served-IsNegotiated =
        handle-IsNegotiated m.device.firmware_core (hello_request m) min_version max_version 240
          ready.new hello_request_accepted refl hello_request-IsHello (omega arith) ready.shared

  -- Both sides agree: the session of the cartridge has the revision of the device's session, which
  -- is the greatest of both ranges, and the device's capabilities.
  pub record IsOpened (m : Machine Context) (session : Session) (m' : Machine Context)
      : Type 0 where
    pub device_session : m'.device.firmware_core.session_valid ≡ true
    pub device_version :
        m'.device.firmware_core.session_version ≡ shared_version m.device.firmware_core
    pub opened : session ≡ record {
      version = shared_version m.device.firmware_core;
      capabilities = offered_capabilities m.device.firmware_core;
      receive_limit = 240;
      next_sequence = 1;
    }
    pub idle : IsIdle m'.device.parser
    pub shared :
        IsShared min_version max_version m.device.firmware_core.protocol_minimum
          m.device.firmware_core.protocol_maximum session.version
    pub greatest :
        (v : ℕ)
        → IsShared min_version max_version m.device.firmware_core.protocol_minimum
            m.device.firmware_core.protocol_maximum v
        → v ≤ session.version

  -- With a device that is ready for it, `p2wp_hello` succeeds, whatever the monitor clock shows, if
  -- the loop over the received bytes has fuel for an encoded frame. Both sides then have a session of
  -- one revision, which both support, and no greater revision is supported by both.
  pub hello-IsOpened :
      (ticks : ℕ → ℕ) (polls bytes : ℕ) (session : Session) (reply : Reply) (response : List ℕ)
      → (m : Machine Context) → IsReady m
      → length response ≡ host_max_body
      → max_encoded ≤ bytes
      → (session' : Session) × (done : Done (Machine Context)) × IsOpened m session' done.world
        × (hello (cartridge_link ticks) (suc polls) bytes session reply response m
            ≡ some (ok, session', done))
  hello-IsOpened ticks polls bytes session reply response m ready size enough =
      let link : Link (Machine Context) = cartridge_link ticks in
      let core = m.device.firmware_core in
      let v = shared_version core in
      let capabilities = offered_capabilities core in
      let range = version_shared m ready in
      let m₁ = record m { reads = m.reads + 1 } in
      let q = request_frame bootstrap_version type_hello 0 hello_payload in
      let answer = served-greeting m ready in
      let (r, m', at_end, exchanged) =
        exchange-handle ticks polls bytes (u16 (ticks m.reads + link_timeout)) bootstrap_version
          type_hello 0 hello_payload response m₁ hello-IsRequest ready.idle size
          (rw answer (greeting-IsFrame v capabilities (omega arith) ready.one_byte))
          (rw answer (omega arith)) enough in
      let (rest, held) = holding_lem v capabilities r (served q m).1 answer at_end.body in
      let reply' = reply_of type_hello 0 (holding v capabilities rest) 0 in
      let opened : Session = record {
        version = v;
        capabilities = capabilities;
        receive_limit = 240;
        next_sequence = 1;
      } in
      let first =
        transact_first link (suc polls) bytes bootstrap_version type_hello 0 hello_payload reply
          reply' response r m m' exchanged
          (ap (λ t. validate_response bootstrap_version type_hello 0 t reply) held
            ∙ validate_response-greeting v capabilities rest reply) in
      let negotiated = served-IsNegotiated m ready in
      let known =
        select_version_lem min_version max_version core.protocol_minimum core.protocol_maximum in
      (
        opened,
        record { result = ok; reply = reply'; response = r; world = m' },
        record {
          device_session = ap (λ c. c.session_valid) at_end.core ∙ negotiated.session;
          device_version = ap (λ c. c.session_version) at_end.core ∙ negotiated.selected;
          opened = refl;
          idle = at_end.idle;
          shared = known.0 ready.shared;
          greatest = known.1;
        },
        hello_opened link (suc polls) bytes session opened reply reply' response r m m' first
            (validate_hello-greeting v capabilities rest session range.0 range.1 ready.able),
      )

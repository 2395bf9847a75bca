-- ===== src/FirmwareCore/Handle/Negotiation.antt =====
-- firmware/src/firmware_core.c: what a HELLO request negotiates.
use p2000t_teletekst_cartrid.FirmwareCore.Handle.Retry.{handle_lem}
use p2000t_teletekst_cartrid.FirmwareCore.Handle.Runs.{respond_lem}
use p2000t_teletekst_cartrid.FirmwareCore.Handle.Session.{dispatch_lem}
use p2000t_teletekst_cartrid.FirmwareCore.Handle.{
  valid_hello, hello, negotiate, is_retransmission, refusal, remember, respond,
  clear_sensitive_request, handle, make_success, capability_byte, zero_frame, magic,
}
use p2000t_teletekst_cartrid.FirmwareCore.State.{Core}
use p2000t_teletekst_cartrid.P2wp.Frame.{Frame, max_payload, u8}
use p2000t_teletekst_cartrid.P2wp.Parser.{byte_at, le16}
use p2000t_teletekst_cartrid.P2wp.Protocol.{type_hello}
use p2000t_teletekst_cartrid.P2wp.Version.{select_version, IsShared, select_version_lem}
use p2000t_teletekst_cartrid.Prelude.{
  ℕ, ◌+◌, ◌*◌, ◌/◌, ◌^◌, ◌≤◌, ◌<◌, min, true, false, [], ◌∷◌, ◌++◌, ltb, if◌then◌else◌, copy_at,
  ◌≡◌, ◌≢◌, arith,
}

-- The request offers this range of revisions and this largest payload.
pub record IsHello (request : Frame) (minimum maximum limit : ℕ) : Type 0 where
  pub valid : valid_hello request ≡ true
  pub least : byte_at request.payload 4 ≡ minimum
  pub greatest : byte_at request.payload 5 ≡ maximum
  pub largest : le16 request.payload 6 ≡ limit

module _ {Context : Type 0} (core : Core Context) (request : Frame)
    (minimum maximum limit : ℕ) where
  -- The response carries the revision and the payload limit, and both sides keep to them.
  pub record IsNegotiated (v : ℕ) (after : Core Context) (response : Frame) : Type 0 where
    pub session : after.session_valid ≡ true
    pub selected : after.session_version ≡ v
    pub told_version : byte_at response.payload 4 ≡ v
    pub told_limit :
        byte_at response.payload 6 + byte_at response.payload 7 * 2 ^ 8 ≡ min limit max_payload
    pub no_error : response.flags ≡ 1
    pub sized : response.payload_length ≡ 8

  negotiate-IsNegotiated :
      IsHello request minimum maximum limit
      → 0 < limit
      → select_version minimum maximum core.protocol_minimum core.protocol_maximum ≢ 0
      → (let d = hello core request in
          IsNegotiated
            (select_version minimum maximum core.protocol_minimum core.protocol_maximum)
            d.core
            d.response
          × (d.cache_response ≡ true))
  unfolding hello negotiate make_success
  negotiate-IsNegotiated h pos ne = ground (arith, h.valid, h.least, h.greatest, h.largest)

  -- The cache and the erasure leave what was negotiated.
  finished :
      (v : ℕ) (after : Core Context) (response : Frame)
      → IsNegotiated v after response
      → IsNegotiated v
          (clear_sensitive_request (remember after request response) request).0
          response
  unfolding clear_sensitive_request remember
  finished v after response n = ground arith

  respond-hello :
      is_retransmission core request ≡ false
      → refusal core request ≡ 0
      → request.type ≡ type_hello
      → (hello core request).cache_response ≡ true
      → respond core request ≡ (
        remember (hello core request).core request (hello core request).response,
        (hello core request).response,
      )
  respond-hello new pass is_hello caches =
      ground (arith, respond_lem core request, dispatch_lem core request)

  pub handle-IsNegotiated :
      is_retransmission core request ≡ false
      → refusal core request ≡ 0
      → request.type ≡ type_hello
      → IsHello request minimum maximum limit
      → 0 < limit
      → select_version minimum maximum core.protocol_minimum core.protocol_maximum ≢ 0
      → IsNegotiated
          (select_version minimum maximum core.protocol_minimum core.protocol_maximum)
          (handle core request).0
          (handle core request).2
  handle-IsNegotiated new pass is_hello h pos ne =
      let d = negotiate-IsNegotiated h pos ne in
      rw (handle_lem core request, respond-hello new pass is_hello d.1)
        (finished _ (hello core request).core (hello core request).response d.0)

  -- A HELLO that passes the checks in front of the switch, offers a revision range that shares a
  -- revision above 0 with the supported one and a payload limit above 0 opens a session: with the
  -- greatest shared revision, which the response tells along with the smaller of the offered limit
  -- and 512.
  pub handle-hello :
      (shared : ℕ)
      → is_retransmission core request ≡ false
      → refusal core request ≡ 0
      → request.type ≡ type_hello
      → IsHello request minimum maximum limit
      → 0 < limit
      → IsShared minimum maximum core.protocol_minimum core.protocol_maximum shared
      → 0 < shared
      → (v : ℕ) × IsShared minimum maximum core.protocol_minimum core.protocol_maximum v
        × (shared ≤ v)
        × IsNegotiated v (handle core request).0 (handle core request).2
  handle-hello shared new pass is_hello h pos common above =
      let v = select_version minimum maximum core.protocol_minimum core.protocol_maximum in
      let best = select_version_lem minimum maximum core.protocol_minimum core.protocol_maximum in
      let newest = best.1 shared common in
      let positive : v ≢ 0 = omega arith in
      (v, best.0 positive, newest, handle-IsNegotiated new pass is_hello h pos positive)

  -- The response to a HELLO, with the selected revision, the capabilities and the payload limit.
  abbrev pub welcome : ℕ → ℕ → ℕ → Frame
  welcome v capabilities agreed = record (make_success core request) {
    payload_length = 8;
    payload =
        copy_at zero_frame.payload 0
          (magic ++ (v ∷ capabilities ∷ u8 agreed ∷ u8 (agreed / 2 ^ 8) ∷ []));
  }

  hello-welcome :
      IsHello request minimum maximum limit
      → 0 < limit
      → select_version minimum maximum core.protocol_minimum core.protocol_maximum ≢ 0
      → (hello core request).response
        ≡ welcome
            (select_version minimum maximum core.protocol_minimum core.protocol_maximum)
            (capability_byte core.operations core.platform_context).0
            (if ltb limit max_payload then limit else max_payload)
  unfolding hello negotiate
  hello-welcome h pos ne = ground (arith, h.valid, h.least, h.greatest, h.largest)

  -- As for `handle-hello`: the response in full.
  pub handle-welcome :
      is_retransmission core request ≡ false
      → refusal core request ≡ 0
      → request.type ≡ type_hello
      → IsHello request minimum maximum limit
      → 0 < limit
      → select_version minimum maximum core.protocol_minimum core.protocol_maximum ≢ 0
      → (handle core request).2
        ≡ welcome
            (select_version minimum maximum core.protocol_minimum core.protocol_maximum)
            (capability_byte core.operations core.platform_context).0
            (if ltb limit max_payload then limit else max_payload)
  handle-welcome new pass is_hello h pos ne =
      rw
        (
          handle_lem core request,
          respond-hello new pass is_hello (negotiate-IsNegotiated h pos ne).1,
        )
        (hello-welcome h pos ne)

-- ===== src/FirmwareCore/Handle/Retry.antt =====
-- firmware/src/firmware_core.c: a request that is sent again.
use p2000t_teletekst_cartrid.FirmwareCore.Handle.{
  dispatch, is_retransmission, refusal, respond, remember, clear_sensitive_request, handle,
}
use p2000t_teletekst_cartrid.FirmwareCore.State.{Core}
use p2000t_teletekst_cartrid.P2wp.Crc.{frame_identity}
use p2000t_teletekst_cartrid.P2wp.Frame.{Frame}
use p2000t_teletekst_cartrid.Prelude.{
  Bool, true, false, ◌&&◌, ◌||◌, not, ◌≡◌, refl, ap, ap₂, ◌∙◌, arith, ◌==◌, ==_refl,
}

module _ {Context : Type 0} (core : Core Context) (request : Frame) where
  -- The request is new, it passes the checks, and the switch answered it without an error.
  abbrev pub is_fulfilled : Bool
  is_fulfilled =
      not (is_retransmission core request)
      && refusal core request == 0
      && (dispatch core request).cache_response

  pub remember-is_retransmission :
      (response : Frame) → is_retransmission (remember core request response) request ≡ true
  unfolding remember
  remember-is_retransmission response =
      ground
        (arith, ==_refl request.type, ==_refl request.sequence, ==_refl (frame_identity request))

  -- What the switch does not answer, it does not cache.
  dispatch_uncached :
      (dispatch core request).cache_response ≡ false
      → (is_retransmission (dispatch core request).core request ≡ is_retransmission core request)
        × ((dispatch core request).core.cached_response ≡ core.cached_response)
  unfolding dispatch
  dispatch_uncached e = ground arith

  respond-is_retransmission :
      is_retransmission (respond core request).0 request
      ≡ (is_retransmission core request || is_fulfilled)
  unfolding respond
  respond-is_retransmission =
      ground (arith, dispatch_uncached, remember-is_retransmission (dispatch core request).response)

  respond-cached :
      is_retransmission (respond core request).0 request ≡ true
      → (respond core request).0.cached_response ≡ (respond core request).1
  unfolding respond remember
  respond-cached h = ground (arith, dispatch_uncached)

-- The erasure leaves the session and the cache alone.
pub clear-keeps :
    {Context : Type 0} (core : Core Context) (erased request : Frame)
    → (is_retransmission (clear_sensitive_request core erased).0 request
        ≡ is_retransmission core request)
      × ((clear_sensitive_request core erased).0.cached_response ≡ core.cached_response)
unfolding clear_sensitive_request
clear-keeps core erased request = ground arith

-- The parts of a call.
pub handle_lem :
    {Context : Type 0} (core : Core Context) (request : Frame)
    → handle core request ≡ (
      (clear_sensitive_request (respond core request).0 request).0,
      (clear_sensitive_request core request).1,
      (respond core request).1,
    )
unfolding handle
handle_lem core request = refl

clear-request :
    {Context : Type 0} (core other : Core Context) (request : Frame)
    → (clear_sensitive_request core request).1 ≡ (clear_sensitive_request other request).1
unfolding clear_sensitive_request
clear-request core other request = refl

respond_retransmission :
    {Context : Type 0} (core : Core Context) (request : Frame)
    → is_retransmission core request ≡ true
    → respond core request ≡ (core, core.cached_response)
unfolding respond
respond_retransmission core request h = rw h

module _ {Context : Type 0} (core : Core Context) (request : Frame) where
  -- After a call, the request is taken for a retransmission exactly if it was one before, or the
  -- call fulfilled it: a refused or failed request may be tried again.
  pub handle-is_retransmission :
      is_retransmission (handle core request).0 request
      ≡ (is_retransmission core request || is_fulfilled core request)
  handle-is_retransmission =
      ap (λ t. is_retransmission t.0 request) (handle_lem core request)
      ∙ (clear-keeps (respond core request).0 request request).0
      ∙ respond-is_retransmission core request

  -- A request that is sent again after it was fulfilled gets the same response once more, and no
  -- operation of the platform runs but the erasure of its secrets.
  pub handle_twice :
      is_fulfilled core request ≡ true
      → (let first = handle core request in
          handle first.0 request ≡ ((clear_sensitive_request first.0 request).0, first.1, first.2))
  handle_twice h =
      let first = respond core request in
      let kept = clear-keeps first.0 request request in
      let hit : is_retransmission first.0 request ≡ true =
        respond-is_retransmission core request ∙ ground arith in
      let again =
        respond_retransmission (clear_sensitive_request first.0 request).0 request (kept.0 ∙ hit) in
      let same = kept.1 ∙ respond-cached core request hit in
      rw (handle_lem core request) (
        handle_lem (clear_sensitive_request first.0 request).0 request
        ∙ rw again (
            ap₂
              (λ q r. (
                (clear_sensitive_request (clear_sensitive_request first.0 request).0 request).0,
                q,
                r,
              ))
              (clear-request (clear_sensitive_request first.0 request).0 core request) same))

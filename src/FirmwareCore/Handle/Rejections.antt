-- ===== src/FirmwareCore/Handle/Rejections.antt =====
-- firmware/src/firmware_core.c: requests that are turned down without an effect.
use p2000t_teletekst_cartrid.FirmwareCore.Commands.{command_for_type, platform_payload_is_valid}
use mathlib.Core.Path.{subst}
use p2000t_teletekst_cartrid.FirmwareCore.Commands.Bounds.{IsFetch, platform_payload-IsFetch}
use p2000t_teletekst_cartrid.FirmwareCore.Handle.Retry.{handle_lem}
use p2000t_teletekst_cartrid.FirmwareCore.Handle.Runs.{respond_lem}
use p2000t_teletekst_cartrid.FirmwareCore.Handle.Session.{dispatch_lem}
use p2000t_teletekst_cartrid.FirmwareCore.Handle.{
  make_error, is_retransmission, refusal, run_command, respond, clear_sensitive_request, handle,
  secret,
}
use p2000t_teletekst_cartrid.FirmwareCore.State.{Command, Core}
use p2000t_teletekst_cartrid.P2wp.Frame.{Frame}
use p2000t_teletekst_cartrid.P2wp.Protocol.{
  type_teletekst_fetch_start, type_hello, type_device_info, type_echo, error_unknown_type,
  error_invalid_payload,
}
use p2000t_teletekst_cartrid.Prelude.{
  ℕ, Bool, true, false, not, ◌&&◌, Option, none, some, ◌≡◌, ◌≢◌, Option-cases, Bool-cases, inl, inr,
  ap, ◌∙◌, arith, ◌==◌, if◌then◌else◌,
}

module _ {Context : Type 0} (core : Core Context) (request : Frame) where
  -- The call answers with an error, and only erases the secrets of the request.
  abbrev pub IsTurnedDown : ℕ → Type 0
  IsTurnedDown error =
      let cleared = clear_sensitive_request core request in
      handle core request ≡ (cleared.0, cleared.1, make_error request error)

  turned_down :
      (error : ℕ) → respond core request ≡ (core, make_error request error) → IsTurnedDown error
  turned_down error e =
      handle_lem core request
      ∙ ap
          (λ r. (
            (clear_sensitive_request r.0 request).0,
            (clear_sensitive_request core request).1,
            r.1,
          ))
          e

  -- The type is one that a platform operation would serve.
  abbrev is_platform_type : Bool
  is_platform_type =
      not (request.type == type_hello)
      && not (request.type == type_device_info)
      && not (request.type == type_echo)

  -- The error of a request for which no operation is to run: none for 0.
  abbrev pub rejection : Option (Command Context) → ℕ
  rejection command =
      if not (refusal core request == 0)
      then refusal core request
      else if not is_platform_type
      then 0
      else elim command [
        | none ↦ error_unknown_type
        | some c ↦ if platform_payload_is_valid request then 0 else error_invalid_payload
      ]

  run_command_rejected :
      (command : Option (Command Context))
      → refusal core request ≡ 0
      → rejection command ≢ 0
      → is_platform_type ≡ true
      → run_command command core request ≡ record {
        core = core;
        response = make_error request (rejection command);
        cache_response = false;
      }
  unfolding run_command
  run_command_rejected none pass ne platform = ground arith
  run_command_rejected (some c) pass ne platform = ground arith

  abbrev pub rejection_of : ℕ
  rejection_of = rejection (command_for_type core.operations request.type)

  respond_rejected :
      is_retransmission core request ≡ false
      → rejection_of ≢ 0
      → respond core request ≡ (core, make_error request rejection_of)
  respond_rejected new ne =
      let command = command_for_type core.operations request.type in
      ground
        (arith, respond_lem core request, dispatch_lem core request, run_command_rejected command)

  -- A new request that fails a check in front of the switch, or has a type that no operation
  -- serves, or a payload that is not valid for its type, gets that error; no operation runs but
  -- the erasure of secrets, and neither the session nor the cache changes.
  pub handle_rejected :
      is_retransmission core request ≡ false → rejection_of ≢ 0 → IsTurnedDown rejection_of
  handle_rejected new ne = turned_down rejection_of (respond_rejected new ne)

  -- What a fetch needs passes the checks of its payload, or the request is rejected.
  fetch_checked :
      request.type ≡ type_teletekst_fetch_start
      → rejection_of ≡ 0
      → (platform_payload_is_valid request ≡ true) × (request.version ≡ core.session_version)
  unfolding refusal
  fetch_checked type pass = elim (Option-cases (command_for_type core.operations request.type)) [
    | inl unserved ↦ absurd (ground arith)
    | inr (c, served) ↦ (ground arith, ground arith)
  ]

  fetch_unsecret :
      request.type ≡ type_teletekst_fetch_start → (clear_sensitive_request core request).0 ≡ core
  unfolding clear_sensitive_request secret
  fetch_unsecret type = ground arith

  -- A new request for a fetch whose payload is not that of a fetch, by the revision of the session,
  -- gets an error: no operation runs, and the core is as it was.
  pub handle_not_fetch :
      is_retransmission core request ≡ false
      → request.type ≡ type_teletekst_fetch_start
      → ¬ IsFetch core.session_version request
      → ((error : ℕ) × ((handle core request).2 ≡ make_error request error))
        × ((handle core request).0 ≡ core)
  handle_not_fetch new type bad = elim (Bool-cases (rejection_of == 0)) [
    | inl pass ↦
        let (valid, current) = fetch_checked type (ground arith) in
        absurd (
          bad
            (subst (λ v. IsFetch v request) current (platform_payload-IsFetch request type valid)))
    | inr turned ↦
        let down = handle_rejected new (λ e. ground arith) in
        ((rejection_of, ap (λ t. t.2) down), ap (λ t. t.0) down ∙ fetch_unsecret type)
  ]

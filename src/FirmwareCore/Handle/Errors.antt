-- ===== src/FirmwareCore/Handle/Errors.antt =====
-- firmware/src/firmware_core.c: what a call that answers with an error leaves behind.
use p2000t_teletekst_cartrid.FirmwareCore.Commands.{
  command_for_type, platform_payload_is_valid, empty_request,
}
use p2000t_teletekst_cartrid.FirmwareCore.Handle.Retry.{
  handle_lem, clear-keeps, remember-is_retransmission,
}
use p2000t_teletekst_cartrid.FirmwareCore.Handle.Runs.{respond_lem}
use p2000t_teletekst_cartrid.FirmwareCore.Handle.Session.{dispatch_lem}
use p2000t_teletekst_cartrid.FirmwareCore.Handle.{
  Dispatched, make_error, make_success, is_retransmission, refusal, refuse, hello, negotiate,
  device_info, echo, answered, run_command, dispatch, respond, valid_hello, clear_sensitive_request,
  handle, secret, call_clear_sensitive,
}
use p2000t_teletekst_cartrid.FirmwareCore.State.{Command, Operations, Core}
use p2000t_teletekst_cartrid.P2wp.Frame.{Frame, max_payload}
use p2000t_teletekst_cartrid.P2wp.Parser.{byte_at, le16}
use p2000t_teletekst_cartrid.P2wp.Protocol.{flag_response, type_hello, type_device_info, type_echo}
use p2000t_teletekst_cartrid.P2wp.Version.{select_version}
use p2000t_teletekst_cartrid.Prelude.{
  ℕ, true, false, Option, none, some, ◌≡◌, ◌⊎◌, inl, inr, refl, ap, ◌∙◌, arith, ◌==◌, ltb,
  if◌then◌else◌, Bool-cases,
}

module _ {Context : Type 0} where
  -- The operations leave the flags of a response that they fill in.
  abbrev pub AllKeepFlags : Option (Operations Context) → Type 0
  AllKeepFlags operations =
      (type : ℕ) (command : Command Context)
      → command_for_type operations type ≡ some command
      → (context : Context) (request response : Frame)
      → (command context request response).error ≡ 0
      → (command context request response).response.flags ≡ response.flags

  -- The core is as before but for the state of the platform.
  abbrev pub OnlyPlatform : Core Context → Core Context → Type 0
  OnlyPlatform core core' = core' ≡ record core { platform_context = core'.platform_context }

  -- The two ways that a request ends: a success that is kept for a retransmission, or an error.
  abbrev Ends : Core Context → Frame → Dispatched Context → Type 0
  Ends core request d =
      ((d.cache_response ≡ true) × (d.response.flags ≡ flag_response))
      ⊎ ((d.cache_response ≡ false)
          × OnlyPlatform core d.core
          × ((error : ℕ) × (d.response ≡ make_error request error)))

  module _ (core : Core Context) (request : Frame) where
    refuse-Ends : (error : ℕ) → Ends core request (refuse core request error)
    refuse-Ends error = inr (refl, refl, (error, refl))

    negotiate-Ends : Ends core request (negotiate core request)
    unfolding negotiate make_success
    negotiate-Ends =
        let selected =
          select_version (byte_at request.payload 4) (byte_at request.payload 5)
            core.protocol_minimum core.protocol_maximum in
        let limit =
          if ltb (le16 request.payload 6) max_payload
          then le16 request.payload 6
          else max_payload in
        elim (Bool-cases (selected == 0)) [
          | inl none_shared ↦ rw none_shared (refuse-Ends _)
          | inr shared ↦ elim (Bool-cases (limit == 0)) [
            | inl no_room ↦ rw (shared, no_room) (refuse-Ends _)
            | inr room ↦ rw (shared, room) (inl (refl, refl))
          ]
        ]

    hello-Ends : Ends core request (hello core request)
    unfolding hello
    hello-Ends = elim (Bool-cases (valid_hello request)) [
      | inl valid ↦ rw valid negotiate-Ends
      | inr bad ↦ rw bad (refuse-Ends _)
    ]

    device_info-Ends : Ends core request (device_info core request)
    unfolding device_info make_success
    device_info-Ends = elim (Bool-cases (empty_request request)) [
      | inl empty ↦ rw empty (inl (refl, refl))
      | inr full ↦ rw full (refuse-Ends _)
    ]

    echo-Ends : Ends core request (echo core request)
    unfolding echo make_success
    echo-Ends = inl (refl, refl)

    run_command-Ends :
        (command : Option (Command Context))
        → ((c : Command Context)
            → command ≡ some c
            → (context : Context) (response : Frame) → (c context request response).error ≡ 0
            → (c context request response).response.flags ≡ response.flags)
        → Ends core request (run_command command core request)
    unfolding run_command answered make_success
    run_command-Ends none keeps = refuse-Ends _
    run_command-Ends (some c) keeps = elim (Bool-cases (platform_payload_is_valid request)) [
      | inr bad ↦ rw bad (refuse-Ends _)
      | inl valid ↦
          let answer = c core.platform_context request (make_success core request) in
          elim (Bool-cases (answer.error == 0)) [
            | inl fine ↦
                rw (valid, fine)
                  (inl (
                    refl,
                    keeps c refl core.platform_context (make_success core request) (ground arith),
                  ))
            | inr failed ↦ rw (valid, failed) (inr (refl, refl, (answer.error, refl)))
          ]
    ]

    dispatch-Ends : AllKeepFlags core.operations → Ends core request (dispatch core request)
    dispatch-Ends keeps =
        rw (dispatch_lem core request) (elim (Bool-cases (request.type == type_hello)) [
          | inl is_hello ↦ rw is_hello hello-Ends
          | inr a ↦ elim (Bool-cases (request.type == type_device_info)) [
            | inl is_info ↦ rw (a, is_info) device_info-Ends
            | inr b ↦ elim (Bool-cases (request.type == type_echo)) [
              | inl is_echo ↦ rw (a, b, is_echo) echo-Ends
              | inr c ↦
                  rw (a, b, c)
                    (run_command-Ends (command_for_type core.operations request.type)
                      (λ command e context response.
                        keeps request.type command e context request response))
            ]
          ]
        ])

    -- What a new request has come to: a success that is remembered, or an error that is not, and that
    -- changes nothing but the state of the platform.
    abbrev pub IsAnswered : Core Context → Frame → Type 0
    IsAnswered core' response =
        ((response.flags ≡ flag_response) × (is_retransmission core' request ≡ true))
        ⊎ (((error : ℕ) × (response ≡ make_error request error))
            × (is_retransmission core' request ≡ false)
            × OnlyPlatform core core')

    forgotten :
        (core' : Core Context)
        → is_retransmission core request ≡ false
        → OnlyPlatform core core'
        → is_retransmission core' request ≡ false
    forgotten core' new same = ap (λ c. is_retransmission c request) same ∙ new

    respond-IsAnswered :
        AllKeepFlags core.operations
        → is_retransmission core request ≡ false
        → IsAnswered (respond core request).0 (respond core request).1
    respond-IsAnswered keeps new =
        rw (respond_lem core request, new)
          (elim (Bool-cases (refusal core request == 0)) [
            | inr refused ↦ rw refused (inr ((refusal core request, refl), new, refl))
            | inl passed ↦ elim (dispatch-Ends keeps) [
              | inl (kept, flags) ↦
                  rw (passed, kept)
                    (inl (
                      flags,
                      remember-is_retransmission (dispatch core request).core request
                          (dispatch core request).response,
                    ))
              | inr (left, same, error) ↦
                  rw (passed, left)
                    (inr (error, forgotten (dispatch core request).core new same, same))
            ]
          ])

    clear-OnlyPlatform :
        (core' : Core Context)
        → OnlyPlatform core core'
        → OnlyPlatform core (clear_sensitive_request core' request).0
    unfolding clear_sensitive_request
    clear-OnlyPlatform core' same = elim (Bool-cases ((secret request).0 == 0)) [
      | inl unsecret ↦ rw unsecret same
      | inr found ↦
          let context = call_clear_sensitive core'.operations core'.platform_context in
          let swap : Core Context → Core Context = λ c. record c { platform_context = context } in
          rw found (ap swap same)
    ]

    -- Where the operations leave the flags of a response as they are, a request that is not sent again
    -- either succeeds, and is remembered for a retransmission, or gets an error: then it may be tried
    -- again, and the session, the cache and all else but the state of the platform are as before.
    pub handle-IsAnswered :
        AllKeepFlags core.operations
        → is_retransmission core request ≡ false
        → IsAnswered (handle core request).0 (handle core request).2
    handle-IsAnswered keeps new =
        let (core', response) = respond core request in
        let kept = (clear-keeps core' request request).0 in
        rw (handle_lem core request) (elim (respond-IsAnswered keeps new) [
          | inl (flags, hit) ↦ inl (flags, kept ∙ hit)
          | inr (error, miss, same) ↦ inr (error, kept ∙ miss, clear-OnlyPlatform core' same)
        ])

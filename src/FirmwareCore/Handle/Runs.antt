-- ===== src/FirmwareCore/Handle/Runs.antt =====
-- firmware/src/firmware_core.c: the invariant over all calls of the command processor.
use p2000t_teletekst_cartrid.FirmwareCore.Handle.Session.{
  IsReply, AllRespond, IsCore, IsDispatched, make_error-IsReply, reset-IsCore,
  dispatch-IsDispatched, dispatch_lem,
}
use p2000t_teletekst_cartrid.FirmwareCore.Handle.Retry.{handle_lem}
use p2000t_teletekst_cartrid.FirmwareCore.Commands.{command_for_type}
use p2000t_teletekst_cartrid.FirmwareCore.Handle.{
  Dispatched, init, reset, set_protocol_range, dispatch, is_retransmission, refusal, respond,
  remember, clear_sensitive_request, handle, make_error, hello, negotiate, device_info, echo,
  answered, run_command,
}
use p2000t_teletekst_cartrid.FirmwareCore.State.{Command, Operations, Core}
use p2000t_teletekst_cartrid.P2wp.Frame.{Frame, max_payload}
use p2000t_teletekst_cartrid.P2wp.Protocol.{type_hello}
use mathlib.Core.Path.{subst}
use p2000t_teletekst_cartrid.Prelude.{
  ℕ, ◌≤◌, ◌≢◌, true, List, [], ◌∷◌, Option, none, some, ◌≡◌, refl, sym, ◌∙◌, inl, inr, arith, ◌==◌,
  if◌then◌else◌, not, All, Bool-cases, ==_iff,
}

module _ {Context : Type 0} where
  refusal-session :
      (core : Core Context) (request : Frame)
      → refusal core request ≡ 0
      → request.type ≢ type_hello
      → core.session_valid ≡ true
  unfolding refusal
  refusal-session core request h ne = ground arith

  remember-IsCore :
      (core : Core Context) (request : Frame) (d : Dispatched Context)
      → IsDispatched core request d
      → d.cache_response ≡ true
      → IsCore (remember d.core request d.response)
  unfolding remember
  remember-IsCore core request d h e = record {
    in_range = h.core_kept.in_range;
    cached_in_session = λ t. h.in_session e;
    cached_reply = λ t. h.reply;
  }

  pub respond_lem :
      (core : Core Context) (request : Frame)
      → respond core request ≡ (
          if is_retransmission core request
          then (core, core.cached_response)
          else if not (refusal core request == 0)
          then (core, make_error request (refusal core request))
          else (
            if (dispatch core request).cache_response
                then remember (dispatch core request).core request (dispatch core request).response
                else (dispatch core request).core,
            (dispatch core request).response,
          ))
  unfolding respond
  respond_lem core request = refl

  clear-IsCore :
      (core : Core Context) (request : Frame)
      → IsCore core
      → IsCore (clear_sensitive_request core request).0
  unfolding clear_sensitive_request
  clear-IsCore core request v = ground arith

  module _ (core : Core Context) (request : Frame) (v : IsCore core) where
    abbrev Kept : Core Context × Frame → Type 0
    Kept r = IsCore r.0 × IsReply request.type request.sequence r.1

    dispatched-Kept :
        IsDispatched core request (dispatch core request)
        → (let d = dispatch core request in
            Kept
              (if d.cache_response then remember d.core request d.response else d.core, d.response))
    dispatched-Kept h = elim (Bool-cases (dispatch core request).cache_response) [
      | inl e ↦ rw e (remember-IsCore core request (dispatch core request) h e, h.reply)
      | inr e ↦ rw e (h.core_kept, h.reply)
    ]

    cached-IsReply :
        is_retransmission core request ≡ true
        → IsReply request.type request.sequence core.cached_response
    cached-IsReply hit = ground (arith, v.cached_reply)

    pub respond-Kept :
        AllRespond core.operations
        → request.payload_length ≤ max_payload
        → Kept (respond core request)
    respond-Kept responds small =
        rw (respond_lem core request) (elim (Bool-cases (is_retransmission core request)) [
          | inl hit ↦ rw hit (v, cached-IsReply hit)
          | inr miss ↦ rw miss (elim (Bool-cases (refusal core request == 0)) [
            | inl pass ↦ rw pass (
                dispatched-Kept (
                  dispatch-IsDispatched core request v responds small
                    (refusal-session core request ((==_iff _ 0).0 pass))))
            | inr fail ↦ rw fail (v, make_error-IsReply request (refusal core request))
          ])
        ])

    -- A call keeps the invariant, and its response is a reply to its request.
    handle-Kept :
        AllRespond core.operations
        → request.payload_length ≤ max_payload
        → IsCore (handle core request).0
          × IsReply request.type request.sequence (handle core request).2
    handle-Kept responds small =
        let kept = respond-Kept responds small in
        rw (handle_lem core request) (clear-IsCore (respond core request).0 request kept.0, kept.1)

-- No call changes the operations, the hardware model or the supported range.
abbrev pub SameConfig : {Context : Type 0} → Core Context → Core Context → Type 0
SameConfig core other =
    (other.operations ≡ core.operations)
    × (other.hardware_model ≡ core.hardware_model)
    × (other.protocol_minimum ≡ core.protocol_minimum)
    × (other.protocol_maximum ≡ core.protocol_maximum)

module _ {Context : Type 0} (core : Core Context) (request : Frame) where
  run_command-SameConfig :
      (command : Option (Command Context)) → SameConfig core (run_command command core request).core
  unfolding run_command answered
  run_command-SameConfig none = (refl, refl, refl, refl)
  run_command-SameConfig (some c) = ground arith

  hello-SameConfig : SameConfig core (hello core request).core
  unfolding hello negotiate
  hello-SameConfig = ground arith

  device_info-SameConfig : SameConfig core (device_info core request).core
  unfolding device_info
  device_info-SameConfig = ground arith

  dispatch-SameConfig : SameConfig core (dispatch core request).core
  unfolding echo
  dispatch-SameConfig = rw (dispatch_lem core request) (
      ground (
        arith,
        hello-SameConfig,
        device_info-SameConfig,
        run_command-SameConfig (command_for_type core.operations request.type),
      ))

  respond-SameConfig : SameConfig core (respond core request).0
  unfolding remember
  respond-SameConfig = rw (respond_lem core request) (ground (arith, dispatch-SameConfig))

  clear-SameConfig : SameConfig core (clear_sensitive_request core request).0
  unfolding clear_sensitive_request
  clear-SameConfig = ground arith

-- A call leaves the operations, the hardware model and the supported range as they are.
pub handle-SameConfig :
    {Context : Type 0} (core : Core Context) (request : Frame)
    → SameConfig core (handle core request).0
handle-SameConfig core request =
    let first = respond-SameConfig core request in
    let second = clear-SameConfig (respond core request).0 request in
    rw (handle_lem core request)
      (second.0 ∙ first.0, second.1 ∙ first.1, second.2 ∙ first.2, second.3 ∙ first.3)

-- What happens to a command processor: a decoded request, a reset, a change of its range.
pub data Event : Type 0 where
  request : Frame → Event
  restart : Event
  range : ℕ → ℕ → Event

-- A request from the parser is no longer than a frame.
abbrev pub IsDecoded : Event → Type 0
IsDecoded (request frame) = frame.payload_length ≤ max_payload
IsDecoded restart = Unit
IsDecoded (range minimum maximum) = Unit

module _ {Context : Type 0} where
  step : Core Context → Event → Core Context
  step core (request frame) = (handle core frame).0
  step core restart = reset core
  step core (range minimum maximum) = set_protocol_range core minimum maximum

  pub run : Core Context → List Event → Core Context
  unfolding step
  run core [] = core
  run core (event ∷ events) = run (step core event) events

  module _ {core : Core Context} (v : IsCore core) (responds : AllRespond core.operations) where
    step-IsCore : (event : Event) → IsDecoded event → IsCore (step core event)
    unfolding step set_protocol_range
    step-IsCore (request frame) small = (handle-Kept core frame v responds small).0
    step-IsCore restart small = reset-IsCore core
    step-IsCore (range minimum maximum) small =
        reset-IsCore (set_protocol_range core minimum maximum)

  step-operations :
      (core : Core Context) (event : Event) → (step core event).operations ≡ core.operations
  unfolding step set_protocol_range reset
  step-operations core (request frame) = (handle-SameConfig core frame).0
  step-operations core restart = refl
  step-operations core (range minimum maximum) = refl

  run-IsCore :
      (events : List Event) (core : Core Context)
      → IsCore core
      → AllRespond core.operations
      → All IsDecoded events
      → IsCore (run core events)
  unfolding run
  run-IsCore [] core v responds small = v
  run-IsCore (event ∷ events) core v responds small =
      run-IsCore events (step core event) (step-IsCore v responds event small.0)
        (subst AllRespond (sym (step-operations core event)) responds) small.1

  -- From its start, whatever requests, resets and range changes a command processor goes through:
  -- a session in force has a revision of the supported range, a request is only remembered in a
  -- session, and what is remembered is a reply to it. This needs platform operations that answer
  -- with a reply.
  pub run-init-IsCore :
      (operations : Option (Operations Context)) (context : Context) (hardware_model : ℕ)
      (events : List Event)
      → AllRespond operations
      → All IsDecoded events
      → IsCore (run (init operations context hardware_model) events)
  unfolding init reset
  run-init-IsCore operations context hardware_model events responds small =
      run-IsCore events (init operations context hardware_model)
        (reset-IsCore (init operations context hardware_model)) responds small

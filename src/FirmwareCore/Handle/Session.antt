-- ===== src/FirmwareCore/Handle/Session.antt =====
-- firmware/src/firmware_core.c: what every run of the command processor keeps true.
use p2000t_teletekst_cartrid.FirmwareCore.Commands.{command_for_type}
use p2000t_teletekst_cartrid.FirmwareCore.Handle.{
  Dispatched, reset, dispatch, make_error, make_success, hello, negotiate, device_info, echo,
  answered, run_command,
}
use p2000t_teletekst_cartrid.FirmwareCore.State.{Command, Operations, Core}
use p2000t_teletekst_cartrid.P2wp.Frame.{Frame, max_payload}
use p2000t_teletekst_cartrid.P2wp.Parser.{byte_at}
use p2000t_teletekst_cartrid.P2wp.Protocol.{
  error_invalid_payload, type_hello, type_echo, type_device_info,
}
use p2000t_teletekst_cartrid.P2wp.Version.{select_version_lem}
use p2000t_teletekst_cartrid.Prelude.{
  ℕ, ◌%◌, ◌≤◌, ◌<◌, ◌≢◌, true, false, Option, none, some, ◌≡◌, refl, arith, ◌==◌, if◌then◌else◌,
}

-- A response to a request of this type and sequence number, short enough to be encoded.
pub record IsReply (type sequence : ℕ) (response : Frame) : Type 0 where
  pub same_type : response.type ≡ type
  pub same_sequence : response.sequence ≡ sequence
  pub is_response : response.flags % 2 ≡ 1
  pub encodable : response.payload_length ≤ max_payload

pub make_error-IsReply :
    (request : Frame) (error : ℕ) → IsReply request.type request.sequence (make_error request error)
unfolding make_error
make_error-IsReply request error = record {
  same_type = refl;
  same_sequence = refl;
  is_response = refl;
  encodable = omega arith;
}

module _ {Context : Type 0} where
  -- A platform operation fills in a response that stays a reply.
  abbrev pub Responds : Command Context → Type 0
  Responds command =
      (context : Context) (request response : Frame)
      → IsReply request.type request.sequence response
      → (command context request response).error ≡ 0
      → IsReply request.type request.sequence (command context request response).response

  -- All operations do so.
  abbrev pub AllRespond : Option (Operations Context) → Type 0
  AllRespond operations =
      (type : ℕ) (command : Command Context)
      → command_for_type operations type ≡ some command
      → Responds command

  pub record IsCore (core : Core Context) : Type 0 where
    pub in_range :
        core.session_valid ≡ true
        → (core.protocol_minimum ≤ core.session_version)
          × (core.session_version ≤ core.protocol_maximum)
          × (0 < core.session_version)
    pub cached_in_session : core.cached_request_valid ≡ true → core.session_valid ≡ true
    pub cached_reply :
        core.cached_request_valid ≡ true
        → IsReply core.cached_request_type core.cached_request_sequence core.cached_response

  pub reset-IsCore : (core : Core Context) → IsCore (reset core)
  unfolding reset
  reset-IsCore core = record {
    in_range = λ h. cc;
    cached_in_session = λ h. cc;
    cached_reply = λ h. absurd (cc);
  }

  make_success-IsReply :
      (core : Core Context) (request : Frame)
      → IsReply request.type request.sequence (make_success core request)
  unfolding make_success
  make_success-IsReply core request = record {
    same_type = refl;
    same_sequence = refl;
    is_response = refl;
    encodable = omega arith;
  }

  -- What the switch promises: its core keeps the session, and its response is a reply.
  pub record IsDispatched (core : Core Context) (request : Frame) (d : Dispatched Context)
      : Type 0 where
    pub core_kept : IsCore d.core
    pub reply : IsReply request.type request.sequence d.response
    pub in_session : d.cache_response ≡ true → d.core.session_valid ≡ true

  pub dispatch_lem :
      (core : Core Context) (request : Frame)
      → dispatch core request ≡ (
          if request.type == type_hello
          then hello core request
          else if request.type == type_device_info
          then device_info core request
          else if request.type == type_echo
          then echo core request
          else run_command (command_for_type core.operations request.type) core request)
  unfolding dispatch
  dispatch_lem core request = refl

  module _ (core : Core Context) (request : Frame) (v : IsCore core) where
    refused :
        (error : ℕ) (context : Context)
        → IsDispatched core request (record {
          core = record core { platform_context = context };
          response = make_error request error;
          cache_response = false;
        })
    refused error context = record {
      core_kept = record {
        in_range = v.in_range;
        cached_in_session = v.cached_in_session;
        cached_reply = v.cached_reply;
      };
      reply = make_error-IsReply request error;
      in_session = λ h. cc;
    }

    negotiate-IsDispatched : IsDispatched core request (negotiate core request)
    unfolding negotiate make_success make_error
    negotiate-IsDispatched = ground (
      arith,
      (select_version_lem (byte_at request.payload 4) (byte_at request.payload 5)
          core.protocol_minimum core.protocol_maximum).0,
    )

    -- A response that the switch caches in a session that is valid.
    cached :
        (context : Context) (response : Frame)
        → IsReply request.type request.sequence response
        → core.session_valid ≡ true
        → IsDispatched core request (record {
          core = record core { platform_context = context };
          response = response;
          cache_response = true;
        })
    cached context response reply session = record {
      core_kept = record {
        in_range = v.in_range;
        cached_in_session = v.cached_in_session;
        cached_reply = v.cached_reply;
      };
      reply = reply;
      in_session = λ h. session;
    }

    hello-IsDispatched : IsDispatched core request (hello core request)
    unfolding hello
    hello-IsDispatched =
        ground (arith, negotiate-IsDispatched, refused error_invalid_payload core.platform_context)

    run_command-IsDispatched :
        (command : Option (Command Context))
        → ((c : Command Context) → command ≡ some c → Responds c)
        → core.session_valid ≡ true
        → IsDispatched core request (run_command command core request)
    unfolding run_command answered
    run_command-IsDispatched none responds session = refused _ core.platform_context
    run_command-IsDispatched (some c) responds session =
        let answer = c core.platform_context request (make_success core request) in
        ground (
          arith,
          refused error_invalid_payload core.platform_context,
          refused answer.error answer.context,
          cached answer.context answer.response,
          responds c refl core.platform_context request (make_success core request)
              (make_success-IsReply core request),
        )

    device_info-IsDispatched :
        core.session_valid ≡ true → IsDispatched core request (device_info core request)
    unfolding device_info make_success
    device_info-IsDispatched session =
        ground
          (arith, refused error_invalid_payload core.platform_context, cached core.platform_context)

    echo-IsDispatched :
        request.payload_length ≤ max_payload
        → core.session_valid ≡ true
        → IsDispatched core request (echo core request)
    unfolding echo make_success
    echo-IsDispatched small session =
        cached core.platform_context _
          (record { same_type = refl; same_sequence = refl; is_response = refl; encodable = small })
          session

    pub dispatch-IsDispatched :
        AllRespond core.operations
        → request.payload_length ≤ max_payload
        → (request.type ≢ type_hello → core.session_valid ≡ true)
        → IsDispatched core request (dispatch core request)
    dispatch-IsDispatched responds small session = rw (dispatch_lem core request) (
        ground (
          arith,
          hello-IsDispatched,
          device_info-IsDispatched,
          echo-IsDispatched small,
          run_command-IsDispatched (command_for_type core.operations request.type)
              (responds request.type),
          session,
        ))

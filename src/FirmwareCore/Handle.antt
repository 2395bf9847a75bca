-- ===== src/FirmwareCore/Handle.antt =====
-- firmware/src/firmware_core.c: the replies, the session and the dispatcher.
pub mod Retry
pub mod Session
pub mod Negotiation
pub mod Rejections
pub mod Errors
pub mod Secrets
pub mod Runs
use p2000t_teletekst_cartrid.FirmwareCore.Commands.{
  command_for_type, platform_payload_is_valid, empty_request,
}
use p2000t_teletekst_cartrid.FirmwareCore.State.{Answer, Command, Operations, Core}
use p2000t_teletekst_cartrid.P2wp.Crc.{frame_identity}
use p2000t_teletekst_cartrid.P2wp.Frame.{Frame, max_payload, u8}
use p2000t_teletekst_cartrid.P2wp.Parser.{byte_at, le16}
use p2000t_teletekst_cartrid.P2wp.Protocol.{
  bootstrap_version, min_version, max_version, flag_response, flag_error, type_hello, type_echo,
  type_device_info, type_wifi_connect, type_wifi_profile_save, error_unsupported_version,
  error_unknown_type, error_invalid_payload, error_sequence_conflict, capability_echo,
}
use p2000t_teletekst_cartrid.P2wp.Version.{select_version}
use p2000t_teletekst_cartrid.Prelude.{
  ℕ, zero, suc, ◌+◌, ◌-◌, ◌/◌, ◌^◌, Bool, true, false, not, ◌&&◌, ◌||◌, List, [], ◌∷◌, ◌++◌, Option,
  none, some, bit_and, bit_or, set, take, drop, replicate, ltb, leb, ◌==◌, if◌then◌else◌, copy_at,
}

-- `memset(frame, 0, sizeof(*frame))`
abbrev pub zero_frame : Frame
zero_frame = record {
  version = 0;
  flags = 0;
  type = 0;
  sequence = 0;
  payload_length = 0;
  payload = replicate max_payload 0;
}

unfoldable pub make_error : Frame → ℕ → Frame
make_error request error = record zero_frame {
  version = request.version;
  flags = bit_or flag_response flag_error;
  type = request.type;
  sequence = request.sequence;
  payload_length = 1;
  payload = set zero_frame.payload 0 error;
}

-- `P`, `2`, `W`, `P`
abbrev pub magic : List ℕ
magic = b'P' ∷ b'2' ∷ b'W' ∷ b'P' ∷ []

unfoldable pub valid_hello : Frame → Bool
valid_hello request =
    request.payload_length == 8
    && byte_at request.payload 0 == b'P'
    && byte_at request.payload 1 == b'2'
    && byte_at request.payload 2 == b'W'
    && byte_at request.payload 3 == b'P'
    && leb (byte_at request.payload 4) (byte_at request.payload 5)

-- `while (length-- != 0u) { *secret++ = 0u; }`
wipe : ℕ → ℕ → List ℕ → List ℕ
wipe zero at bytes = bytes
wipe (suc left) at bytes = wipe left (at + 1) (set bytes at 0)

-- Where the secret of a request starts, and its stated length; (0, 0) for no secret.
secret : Frame → ℕ × ℕ
secret request =
    if request.type == type_wifi_connect && leb 2 request.payload_length
    then (2, byte_at request.payload 1)
    else if request.type == type_wifi_profile_save && leb 1 request.payload_length
    then (1, byte_at request.payload 0)
    else (0, 0)

wiped_request : Frame → Frame
wiped_request request =
    let (offset, stated) = secret request in
    let available =
      if ltb offset request.payload_length then request.payload_length - offset else 0 in
    let length = if ltb available stated then available else stated in
    record request { payload = wipe length offset request.payload }

-- What the switch of `p2wp_firmware_core_handle` leaves behind.
pub record Dispatched (Context : Type 0) : Type 0 where
  pub core : Core Context
  pub response : Frame
  pub cache_response : Bool

module _ {Context : Type 0} where
  unfoldable pub make_success : Core Context → Frame → Frame
  make_success core request = record zero_frame {
    version = if request.type == type_hello then bootstrap_version else core.session_version;
    flags = flag_response;
    type = request.type;
    sequence = request.sequence;
  }

  -- `operations->clear_sensitive(platform_context)`, where both pointers are set.
  call_clear_sensitive : Option (Operations Context) → Context → Context
  call_clear_sensitive none context = context
  call_clear_sensitive (some operations) context = elim operations.clear_sensitive [
    | none ↦ context
    | some clear ↦ clear context
  ]

  unfoldable pub clear_sensitive_request : Core Context → Frame → Core Context × Frame
  unfolding wipe secret wiped_request call_clear_sensitive
  clear_sensitive_request core request = (
    if not ((secret request).0 == 0)
        then record core {
          platform_context = call_clear_sensitive core.operations core.platform_context;
        }
        else core,
    wiped_request request,
  )

  unfoldable pub reset : Core Context → Core Context
  reset core = record core {
    session_version = bootstrap_version;
    session_valid = false;
    cached_request_valid = false;
  }

  unfoldable pub init : Option (Operations Context) → Context → ℕ → Core Context
  unfolding reset
  init operations context hardware_model = reset (record {
    operations = operations;
    platform_context = context;
    hardware_model = hardware_model;
    protocol_minimum = min_version;
    protocol_maximum = max_version;
    session_version = 0;
    session_valid = false;
    cached_request_valid = false;
    cached_request_type = 0;
    cached_request_sequence = 0;
    cached_request_identity = 0;
    cached_response = zero_frame;
  })

  unfoldable pub set_protocol_range : Core Context → ℕ → ℕ → Core Context
  unfolding reset
  set_protocol_range core minimum maximum =
      reset (record core { protocol_minimum = minimum; protocol_maximum = maximum })

  -- The capability byte of a HELLO response, and the platform's state behind the call.
  unfoldable pub capability_byte : Option (Operations Context) → Context → ℕ × Context
  capability_byte none context = (capability_echo, context)
  capability_byte (some operations) context = elim operations.capabilities [
    | none ↦ (capability_echo, context)
    | some capabilities ↦ capabilities context
  ]

  abbrev refuse : Core Context → Frame → ℕ → Dispatched Context
  refuse core request error = record {
    core = core;
    response = make_error request error;
    cache_response = false;
  }

  -- `case P2WP_TYPE_HELLO`, for a payload that is valid.
  negotiate : Core Context → Frame → Dispatched Context
  negotiate core request =
      let selected =
        select_version (byte_at request.payload 4) (byte_at request.payload 5) core.protocol_minimum
          core.protocol_maximum in
      let host_limit = le16 request.payload 6 in
      let negotiated_limit = if ltb host_limit max_payload then host_limit else max_payload in
      if selected == 0
      then refuse core request error_unsupported_version
      else if negotiated_limit == 0
      then refuse core request error_invalid_payload
      else (let (capabilities, context) = capability_byte core.operations core.platform_context in
          record {
            core = record core {
              platform_context = context;
              cached_request_valid = false;
              session_version = selected;
              session_valid = true;
            };
            response = record (make_success core request) {
              payload_length = 8;
              payload = copy_at zero_frame.payload 0 (
                  magic
                  ++ (selected
                      ∷ capabilities
                      ∷ u8 negotiated_limit
                      ∷ u8 (negotiated_limit / 2 ^ 8)
                      ∷ []));
            };
            cache_response = true;
          })

  pub hello : Core Context → Frame → Dispatched Context
  hello core request =
      if valid_hello request
      then negotiate core request
      else refuse core request error_invalid_payload

  -- `case P2WP_TYPE_DEVICE_INFO`; the firmware's release is v0.5.0.
  pub device_info : Core Context → Frame → Dispatched Context
  device_info core request =
      if empty_request request
      then record {
        core = core;
        response = record (make_success core request) {
          payload_length = 4;
          payload = copy_at zero_frame.payload 0 (core.hardware_model ∷ 0 ∷ 5 ∷ 0 ∷ []);
        };
        cache_response = true;
      }
      else refuse core request error_invalid_payload

  -- `case P2WP_TYPE_ECHO`
  pub echo : Core Context → Frame → Dispatched Context
  echo core request = record {
    core = core;
    response = record (make_success core request) {
      payload_length = request.payload_length;
      payload = copy_at zero_frame.payload 0 (take request.payload_length request.payload);
    };
    cache_response = true;
  }

  -- What is made of a command's answer.
  answered : Core Context → Frame → Answer Context → Dispatched Context
  answered core request answer =
      let core' = record core { platform_context = answer.context } in
      if answer.error == 0
      then record { core = core'; response = answer.response; cache_response = true }
      else refuse core' request answer.error

  pub run_command : Option (Command Context) → Core Context → Frame → Dispatched Context
  run_command none core request = refuse core request error_unknown_type
  run_command (some command) core request =
      if platform_payload_is_valid request
      then answered core request (command core.platform_context request (make_success core request))
      else refuse core request error_invalid_payload

  unfoldable pub dispatch : Core Context → Frame → Dispatched Context
  unfolding hello device_info echo run_command negotiate valid_hello answered capability_byte
  dispatch core request =
      if request.type == type_hello
      then hello core request
      else if request.type == type_device_info
      then device_info core request
      else if request.type == type_echo
      then echo core request
      else run_command (command_for_type core.operations request.type) core request

  -- The request is the one that was answered last.
  abbrev pub is_retransmission : Core Context → Frame → Bool
  is_retransmission core request =
      core.cached_request_valid
      && request.type == core.cached_request_type
      && request.sequence == core.cached_request_sequence
      && frame_identity request == core.cached_request_identity

  -- The checks in front of the switch; 0 if all of them pass.
  unfoldable pub refusal : Core Context → Frame → ℕ
  refusal core request =
      if not (bit_and request.flags flag_response == 0)
      then error_invalid_payload
      else if request.type == type_hello && not (request.version == bootstrap_version)
      then error_unsupported_version
      else if not (request.type == type_hello)
          && (not core.session_valid || not (request.version == core.session_version))
      then error_unsupported_version
      else if not (request.type == type_hello)
          && core.cached_request_valid
          && request.sequence == core.cached_request_sequence
      then error_sequence_conflict
      else 0

  pub remember : Core Context → Frame → Frame → Core Context
  remember core request response = record core {
    cached_request_type = request.type;
    cached_request_sequence = request.sequence;
    cached_request_identity = frame_identity request;
    cached_response = response;
    cached_request_valid = true;
  }

  -- The core and the response in front of `finish`.
  unfoldable pub respond : Core Context → Frame → Core Context × Frame
  unfolding remember dispatch refusal
  respond core request =
      let d = dispatch core request in
      if is_retransmission core request
      then (core, core.cached_response)
      else if not (refusal core request == 0)
      then (core, make_error request (refusal core request))
      else (if d.cache_response then remember d.core request d.response else d.core, d.response)

  -- The core, the request with its secret erased, and the response.
  unfoldable pub handle : Core Context → Frame → Core Context × Frame × Frame
  unfolding respond clear_sensitive_request
  handle core request =
      let (core', response) = respond core request in
      let (core'', request') = clear_sensitive_request core' request in (core'', request', response)

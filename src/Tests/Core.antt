-- ===== src/Tests/Core.antt =====
-- firmware/src/firmware_core.c on concrete requests.
use p2000t_teletekst_cartrid.FirmwareCore.Commands.Bounds.{
  IsFetch, IsWithin, text_offset, stated_length, text_limit, text-IsWithin,
}
use p2000t_teletekst_cartrid.FirmwareCore.Commands.{
  command_for_type, platform_payload_is_valid, payload_is_valid_for, wifi_connect_is_valid,
}
use p2000t_teletekst_cartrid.FirmwareCore.Handle.Negotiation.{IsNegotiated, handle-hello}
use p2000t_teletekst_cartrid.FirmwareCore.Handle.Rejections.{handle_not_fetch}
use p2000t_teletekst_cartrid.FirmwareCore.Handle.Errors.{
  AllKeepFlags, IsAnswered, handle-IsAnswered,
}
use p2000t_teletekst_cartrid.FirmwareCore.Handle.Retry.{is_fulfilled, handle_twice}
use p2000t_teletekst_cartrid.FirmwareCore.Handle.Runs.{
  request, restart, range, run, run-init-IsCore,
}
use p2000t_teletekst_cartrid.FirmwareCore.Handle.Secrets.{handle-password}
use p2000t_teletekst_cartrid.FirmwareCore.Handle.Session.{AllRespond, IsCore}
use p2000t_teletekst_cartrid.FirmwareCore.Handle.{
  zero_frame, make_error, init, dispatch, refusal, valid_hello, clear_sensitive_request, handle,
}
use p2000t_teletekst_cartrid.FirmwareCore.State.{Command, Operations, Core}
use p2000t_teletekst_cartrid.P2wp.Frame.{Frame}
use p2000t_teletekst_cartrid.P2wp.Parser.{byte_at}
use p2000t_teletekst_cartrid.P2wp.Protocol.{
  bootstrap_version, type_hello, type_wifi_connect, type_teletekst_fetch_start,
}
use p2000t_teletekst_cartrid.P2wp.Version.{IsShared}
use p2000t_teletekst_cartrid.Prelude.{
  ℕ, suc, ◌≤◌, true, false, [], ◌∷◌, Option, none, some, inl, ◌≡◌, refl, arith, copy_at,
}

-- A platform that connects to a network and counts its calls.
abbrev connect : Command ℕ
connect calls asked response = record { error = 0; response = response; context = suc calls }

abbrev platform : Option (Operations ℕ)
platform = some (record {
  capabilities = none;
  version_check_start = none;
  version_check_status = none;
  wifi_scan_start = none;
  wifi_scan_status = none;
  wifi_scan_result = none;
  wifi_connect = some connect;
  wifi_status = none;
  wifi_profile_status = none;
  wifi_profile_connect = none;
  wifi_profile_save = none;
  wifi_profile_delete = none;
  teletekst_fetch_start = none;
  teletekst_fetch_status = none;
  teletekst_fetch_rows = none;
  teletekst_custom_url_load = none;
  teletekst_custom_url_save = none;
  teletekst_settings_load = none;
  teletekst_settings_save = none;
  clear_sensitive = none;
})

-- A session of revision 7.
abbrev session : Core ℕ
session = record {
  operations = platform;
  platform_context = 0;
  hardware_model = 2;
  protocol_minimum = 1;
  protocol_maximum = 7;
  session_version = 7;
  session_valid = true;
  cached_request_valid = false;
  cached_request_type = 0;
  cached_request_sequence = 0;
  cached_request_identity = 0;
  cached_response = zero_frame;
}

-- A connection to network 1, with the password "abc".
abbrev join : Frame
join = record zero_frame {
  version = 7;
  type = type_wifi_connect;
  sequence = 4;
  payload_length = 5;
  payload = copy_at zero_frame.payload 0 (1 ∷ 3 ∷ 97 ∷ 98 ∷ 99 ∷ []);
}

-- A fetch of page 101, subpage 0, that this platform does not serve.
abbrev fetch : Frame
fetch = record zero_frame {
  version = 7;
  type = type_teletekst_fetch_start;
  sequence = 5;
  payload_length = 4;
  payload = copy_at zero_frame.payload 0 (101 ∷ 0 ∷ 0 ∷ 0 ∷ []);
}

-- An offer of the revisions 1 to 9 and of 600 payload bytes.
abbrev offer : Frame
offer = record zero_frame {
  version = bootstrap_version;
  type = type_hello;
  sequence = 1;
  payload_length = 8;
  payload = copy_at zero_frame.payload 0 (b'P' ∷ b'2' ∷ b'W' ∷ b'P' ∷ 1 ∷ 9 ∷ 88 ∷ 2 ∷ []);
}

join-is_fulfilled : is_fulfilled session join ≡ true
unfolding refusal dispatch command_for_type platform_payload_is_valid
join-is_fulfilled = refl

handle_twice_example : handle (handle session join).0 join ≡ (
  (clear_sensitive_request (handle session join).0 join).0,
  (handle session join).1,
  (handle session join).2,
)
handle_twice_example = handle_twice session join join-is_fulfilled

platform-AllKeepFlags : AllKeepFlags platform
unfolding command_for_type
platform-AllKeepFlags type command served = λ context asked response fine. ground arith

handle-IsAnswered_example : IsAnswered session join (handle session join).0 (handle session join).2
handle-IsAnswered_example = handle-IsAnswered session join platform-AllKeepFlags refl

handle-password_example : byte_at (handle session join).1.payload 3 ≡ 0
handle-password_example = handle-password session join 3

-- A fetch of page 99.
abbrev early : Frame
early = record fetch { payload = copy_at zero_frame.payload 0 (99 ∷ 0 ∷ 0 ∷ 0 ∷ []) }

early-IsFetch : ¬ IsFetch 7 early
early-IsFetch f = let low = f.page_low in absurd (omega arith)

handle_not_fetch_example :
    ((error : ℕ) × ((handle session early).2 ≡ make_error early error))
    × ((handle session early).0 ≡ session)
handle_not_fetch_example = handle_not_fetch session early refl refl early-IsFetch

handle-hello_example :
    (v : ℕ) × IsShared 1 9 1 7 v
    × (5 ≤ v)
    × IsNegotiated session offer 1 9 600 v (handle session offer).0 (handle session offer).2
unfolding refusal valid_hello
handle-hello_example =
    handle-hello session offer 1 9 600 5 refl refl refl
      (record { valid = refl; least = refl; greatest = refl; largest = refl }) (omega arith)
      (omega arith, omega arith, omega arith, omega arith) (omega arith)

platform-AllRespond : AllRespond platform
unfolding command_for_type
platform-AllRespond type command served = ground arith

run-init-IsCore_example :
    IsCore (run (init platform 0 2) (request offer ∷ request join ∷ restart ∷ range 1 3 ∷ []))
run-init-IsCore_example =
    run-init-IsCore platform 0 2 (request offer ∷ request join ∷ restart ∷ range 1 3 ∷ [])
      platform-AllRespond (omega arith, (omega arith, (tt, (tt, tt))))

text-IsWithin_example : IsWithin join (text_offset join) (stated_length join) (text_limit join)
unfolding platform_payload_is_valid payload_is_valid_for wifi_connect_is_valid
text-IsWithin_example = text-IsWithin join (inl refl) refl

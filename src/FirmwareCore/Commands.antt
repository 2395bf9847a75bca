-- ===== src/FirmwareCore/Commands.antt =====
-- firmware/src/firmware_core.c: which operation serves a message type, and which payloads it is
-- handed. A switch is a chain of tests.
pub mod Bounds
use p2000t_teletekst_cartrid.FirmwareCore.State.{Operations, Command}
use p2000t_teletekst_cartrid.P2wp.Frame.{Frame, u16}
use p2000t_teletekst_cartrid.P2wp.Parser.{byte_at, le16}
use p2000t_teletekst_cartrid.P2wp.Protocol.{
  type_version_check_start, type_version_check_status, type_wifi_scan_start, type_wifi_scan_status,
  type_wifi_scan_result, type_wifi_connect, type_wifi_status, type_wifi_profile_status,
  type_wifi_profile_connect, type_wifi_profile_save, type_wifi_profile_delete,
  type_teletekst_fetch_start, type_teletekst_fetch_status, type_teletekst_fetch_rows,
  type_teletekst_custom_url_load, type_teletekst_custom_url_save, type_teletekst_settings_load,
  type_teletekst_settings_save, source_p2000t, source_custom, source_archive, autostart_disabled,
  menu_source_archive,
}
use p2000t_teletekst_cartrid.Prelude.{
  ℕ, ◌+◌, Bool, true, false, not, ◌&&◌, ◌||◌, List, [], ◌∷◌, Option, none, some, ◌≡◌, refl, ltb,
  leb, ◌==◌, if◌then◌else◌,
}

unfoldable pub command_for_type :
    {Context : Type 0} → Option (Operations Context) → ℕ → Option (Command Context)
command_for_type none type = none
command_for_type (some operations) type =
    if type == type_version_check_start
    then operations.version_check_start
    else if type == type_version_check_status
    then operations.version_check_status
    else if type == type_wifi_scan_start
    then operations.wifi_scan_start
    else if type == type_wifi_scan_status
    then operations.wifi_scan_status
    else if type == type_wifi_scan_result
    then operations.wifi_scan_result
    else if type == type_wifi_connect
    then operations.wifi_connect
    else if type == type_wifi_status
    then operations.wifi_status
    else if type == type_wifi_profile_status
    then operations.wifi_profile_status
    else if type == type_wifi_profile_connect
    then operations.wifi_profile_connect
    else if type == type_wifi_profile_save
    then operations.wifi_profile_save
    else if type == type_wifi_profile_delete
    then operations.wifi_profile_delete
    else if type == type_teletekst_fetch_start
    then operations.teletekst_fetch_start
    else if type == type_teletekst_fetch_status
    then operations.teletekst_fetch_status
    else if type == type_teletekst_fetch_rows
    then operations.teletekst_fetch_rows
    else if type == type_teletekst_custom_url_load
    then operations.teletekst_custom_url_load
    else if type == type_teletekst_custom_url_save
    then operations.teletekst_custom_url_save
    else if type == type_teletekst_settings_load
    then operations.teletekst_settings_load
    else if type == type_teletekst_settings_save
    then operations.teletekst_settings_save
    else none

abbrev wifi_max_password : ℕ
wifi_max_password = 63

abbrev teletekst_chunk_count : ℕ
teletekst_chunk_count = 4

abbrev pub custom_url_max : ℕ
custom_url_max = 96

abbrev pub empty_request : Frame → Bool
empty_request request = request.payload_length == 0

-- `case P2WP_TYPE_TELETEKST_FETCH_START`
unfoldable pub fetch_start_is_valid : Frame → Bool
fetch_start_is_valid request =
    let page = le16 request.payload 0 in
    let subpage = byte_at request.payload 2 in
    let source = byte_at request.payload 3 in
    let url_length = byte_at request.payload 4 in
    if ltb request.payload_length 4
    then false
    else if ltb page 100 || ltb 899 page || ltb 99 subpage
    then false
    else if leb source source_p2000t
    then request.payload_length == 4
    else if source == source_archive
    then leb 7 request.version && request.payload_length == 4
    else if not (source == source_custom) || ltb request.version 4 || ltb request.payload_length 5
    then false
    else ltb 0 url_length
      && leb url_length custom_url_max
      && request.payload_length == u16 (5 + url_length)

settings_save_is_valid : Frame → Bool
settings_save_is_valid request =
    leb 6 request.version
    && request.payload_length == 1
    && (byte_at request.payload 0 == autostart_disabled
        || leb (byte_at request.payload 0) menu_source_archive)

unfoldable pub wifi_connect_is_valid : Frame → Bool
wifi_connect_is_valid request =
    leb 2 request.payload_length
    && leb (byte_at request.payload 1) wifi_max_password
    && request.payload_length == u16 (2 + byte_at request.payload 1)

wifi_profile_save_is_valid : Frame → Bool
wifi_profile_save_is_valid request =
    leb 1 request.payload_length
    && leb (byte_at request.payload 0) wifi_max_password
    && request.payload_length == u16 (1 + byte_at request.payload 0)

custom_url_save_is_valid : Frame → Bool
custom_url_save_is_valid request =
    leb 5 request.version
    && leb 2 request.payload_length
    && ltb 0 (byte_at request.payload 0)
    && leb (byte_at request.payload 0) custom_url_max
    && request.payload_length == u16 (1 + byte_at request.payload 0)

-- The types that share `return empty_request(request)`.
abbrev takes_no_payload : ℕ → Bool
takes_no_payload type =
    type == type_version_check_start
    || type == type_version_check_status
    || type == type_wifi_scan_start
    || type == type_wifi_scan_status
    || type == type_wifi_status
    || type == type_wifi_profile_status
    || type == type_wifi_profile_connect
    || type == type_wifi_profile_delete
    || type == type_teletekst_fetch_status

-- The switch on the type.
unfoldable pub payload_is_valid_for : ℕ → Frame → Bool
unfolding fetch_start_is_valid settings_save_is_valid wifi_connect_is_valid
    wifi_profile_save_is_valid custom_url_save_is_valid
payload_is_valid_for type request =
    if takes_no_payload type
    then empty_request request
    else if type == type_teletekst_custom_url_load
    then leb 5 request.version && empty_request request
    else if type == type_teletekst_settings_load
    then leb 6 request.version && empty_request request
    else if type == type_teletekst_settings_save
    then settings_save_is_valid request
    else if type == type_wifi_scan_result
    then request.payload_length == 1
    else if type == type_wifi_connect
    then wifi_connect_is_valid request
    else if type == type_wifi_profile_save
    then wifi_profile_save_is_valid request
    else if type == type_teletekst_fetch_start
    then fetch_start_is_valid request
    else if type == type_teletekst_fetch_rows
    then request.payload_length == 1 && ltb (byte_at request.payload 0) teletekst_chunk_count
    else if type == type_teletekst_custom_url_save
    then custom_url_save_is_valid request
    else false

unfoldable pub platform_payload_is_valid : Frame → Bool
unfolding payload_is_valid_for
platform_payload_is_valid request = payload_is_valid_for request.type request

-- ===== src/P2wp/Protocol.antt =====
-- firmware/src/p2wp.h: the flags, the message types and the error codes of the link protocol.
use p2000t_teletekst_cartrid.Prelude.{ℕ}

abbrev pub bootstrap_version : ℕ
bootstrap_version = 2

abbrev pub min_version : ℕ
min_version = 2

abbrev pub max_version : ℕ
max_version = 7

-- `enum p2wp_flag`
abbrev pub flag_response : ℕ
flag_response = 1

abbrev pub flag_error : ℕ
flag_error = 2

-- `enum p2wp_type`
abbrev pub type_hello : ℕ
type_hello = 0x01

abbrev pub type_echo : ℕ
type_echo = 0x02

abbrev pub type_device_info : ℕ
type_device_info = 0x04

abbrev pub type_version_check_start : ℕ
type_version_check_start = 0x05

abbrev pub type_version_check_status : ℕ
type_version_check_status = 0x06

abbrev pub type_wifi_scan_start : ℕ
type_wifi_scan_start = 0x10

abbrev pub type_wifi_scan_status : ℕ
type_wifi_scan_status = 0x11

abbrev pub type_wifi_scan_result : ℕ
type_wifi_scan_result = 0x12

abbrev pub type_wifi_connect : ℕ
type_wifi_connect = 0x13

abbrev pub type_wifi_status : ℕ
type_wifi_status = 0x14

abbrev pub type_wifi_profile_status : ℕ
type_wifi_profile_status = 0x20

abbrev pub type_wifi_profile_connect : ℕ
type_wifi_profile_connect = 0x21

abbrev pub type_wifi_profile_save : ℕ
type_wifi_profile_save = 0x22

abbrev pub type_wifi_profile_delete : ℕ
type_wifi_profile_delete = 0x23

abbrev pub type_teletekst_fetch_start : ℕ
type_teletekst_fetch_start = 0x30

abbrev pub type_teletekst_fetch_status : ℕ
type_teletekst_fetch_status = 0x31

abbrev pub type_teletekst_fetch_rows : ℕ
type_teletekst_fetch_rows = 0x32

abbrev pub type_teletekst_custom_url_load : ℕ
type_teletekst_custom_url_load = 0x33

abbrev pub type_teletekst_custom_url_save : ℕ
type_teletekst_custom_url_save = 0x34

abbrev pub type_teletekst_settings_load : ℕ
type_teletekst_settings_load = 0x35

abbrev pub type_teletekst_settings_save : ℕ
type_teletekst_settings_save = 0x36

-- `enum p2wp_error_code`
abbrev pub error_unsupported_version : ℕ
error_unsupported_version = 1

abbrev pub error_unknown_type : ℕ
error_unknown_type = 2

abbrev pub error_invalid_payload : ℕ
error_invalid_payload = 3

abbrev pub error_sequence_conflict : ℕ
error_sequence_conflict = 4

-- `enum p2wp_teletekst_source`
abbrev pub source_p2000t : ℕ
source_p2000t = 1

abbrev pub source_custom : ℕ
source_custom = 2

abbrev pub source_archive : ℕ
source_archive = 3

abbrev pub autostart_disabled : ℕ
autostart_disabled = 0xff

abbrev pub menu_source_archive : ℕ
menu_source_archive = 3

abbrev pub capability_echo : ℕ
capability_echo = 1

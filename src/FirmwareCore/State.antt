-- ===== src/FirmwareCore/State.antt =====
-- firmware/src/firmware_core.h: the platform operations and the state of the command processor.
-- `Context` is what the platform keeps behind its `void *`.
use p2000t_teletekst_cartrid.P2wp.Frame.{Frame}
use p2000t_teletekst_cartrid.Prelude.{ℕ, Bool, Option}

-- What a platform operation returns: its error code, and what it made of the response and of the
-- platform's own state.
pub record Answer (Context : Type 0) : Type 0 where
  pub error : ℕ
  pub response : Frame
  pub context : Context

-- `p2wp_firmware_command_fn`: the state, the request and the response to fill.
abbrev pub Command : Type 0 → Type 0
Command Context = Context → Frame → Frame → Answer Context

-- `p2wp_firmware_operations_t`. A null pointer is `none`.
pub record Operations (Context : Type 0) : Type 0 where
  pub capabilities : Option (Context → ℕ × Context)
  pub version_check_start : Option (Command Context)
  pub version_check_status : Option (Command Context)
  pub wifi_scan_start : Option (Command Context)
  pub wifi_scan_status : Option (Command Context)
  pub wifi_scan_result : Option (Command Context)
  pub wifi_connect : Option (Command Context)
  pub wifi_status : Option (Command Context)
  pub wifi_profile_status : Option (Command Context)
  pub wifi_profile_connect : Option (Command Context)
  pub wifi_profile_save : Option (Command Context)
  pub wifi_profile_delete : Option (Command Context)
  pub teletekst_fetch_start : Option (Command Context)
  pub teletekst_fetch_status : Option (Command Context)
  pub teletekst_fetch_rows : Option (Command Context)
  pub teletekst_custom_url_load : Option (Command Context)
  pub teletekst_custom_url_save : Option (Command Context)
  pub teletekst_settings_load : Option (Command Context)
  pub teletekst_settings_save : Option (Command Context)
  pub clear_sensitive : Option (Context → Context)

-- `p2wp_firmware_core_t`
pub record Core (Context : Type 0) : Type 0 where
  pub operations : Option (Operations Context)
  pub platform_context : Context
  pub hardware_model : ℕ
  pub protocol_minimum : ℕ
  pub protocol_maximum : ℕ
  pub session_version : ℕ
  pub session_valid : Bool
  pub cached_request_valid : Bool
  pub cached_request_type : ℕ
  pub cached_request_sequence : ℕ
  pub cached_request_identity : ℕ
  pub cached_response : Frame

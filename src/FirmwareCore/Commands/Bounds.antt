-- ===== src/FirmwareCore/Commands/Bounds.antt =====
-- firmware/src/firmware_core.c: what a valid payload is known to hold.
use p2000t_teletekst_cartrid.FirmwareCore.Commands.{
  platform_payload_is_valid, payload_is_valid_for, fetch_start_is_valid, wifi_connect_is_valid,
  wifi_profile_save_is_valid, custom_url_save_is_valid, custom_url_max,
}
use p2000t_teletekst_cartrid.P2wp.Frame.{Frame}
use p2000t_teletekst_cartrid.P2wp.Parser.{byte_at, le16}
use p2000t_teletekst_cartrid.P2wp.Protocol.{
  type_teletekst_fetch_start, type_wifi_connect, type_wifi_profile_save,
  type_teletekst_custom_url_save, source_custom, source_archive,
}
use p2000t_teletekst_cartrid.Prelude.{
  ℕ, ◌+◌, ◌≤◌, true, ◌≡◌, ◌⊎◌, inl, inr, sym, ap, ◌∙◌, arith, ◌==◌, if◌then◌else◌,
}

-- The page request of a fetch: in range, from a source that the revision knows, and with the URL
-- of a custom source inside the payload.
pub record IsFetch (version : ℕ) (request : Frame) : Type 0 where
  pub page_low : 100 ≤ le16 request.payload 0
  pub page_high : le16 request.payload 0 ≤ 899
  pub subpage : byte_at request.payload 2 ≤ 99
  pub source : byte_at request.payload 3 ≤ source_archive
  pub archive : byte_at request.payload 3 ≡ source_archive → 7 ≤ version
  pub custom : byte_at request.payload 3 ≡ source_custom → 4 ≤ version
  pub url_bounds :
      byte_at request.payload 3 ≡ source_custom
      → (1 ≤ byte_at request.payload 4) × (byte_at request.payload 4 ≤ custom_url_max)
  pub extent :
      request.payload_length
      ≡ (if byte_at request.payload 3 == source_custom then 5 + byte_at request.payload 4 else 4)

module _ (request : Frame) where
  valid_as :
      (type : ℕ)
      → request.type ≡ type
      → platform_payload_is_valid request ≡ true
      → payload_is_valid_for type request ≡ true
  unfolding platform_payload_is_valid
  valid_as type e valid = ap (λ t. payload_is_valid_for t request) (sym e) ∙ valid

  fetch_start_is_valid-IsFetch :
      fetch_start_is_valid request ≡ true → IsFetch request.version request
  unfolding fetch_start_is_valid
  fetch_start_is_valid-IsFetch valid = ground arith

-- A fetch whose payload is valid.
pub platform_payload-IsFetch :
    (request : Frame)
    → request.type ≡ type_teletekst_fetch_start
    → platform_payload_is_valid request ≡ true
    → IsFetch request.version request
unfolding payload_is_valid_for
platform_payload-IsFetch request type valid =
    fetch_start_is_valid-IsFetch request (valid_as request type_teletekst_fetch_start type valid)

-- The offset of the text that a request brings, the length that it states, and its limit.
abbrev pub text_offset : Frame → ℕ
text_offset request = if request.type == type_wifi_connect then 2 else 1

abbrev pub stated_length : Frame → ℕ
stated_length request =
    if request.type == type_wifi_connect
    then byte_at request.payload 1
    else byte_at request.payload 0

abbrev pub text_limit : Frame → ℕ
text_limit request = if request.type == type_teletekst_custom_url_save then 96 else 63

-- The text ends exactly where the payload ends, and keeps within the limit of its store.
abbrev pub IsWithin : Frame → ℕ → ℕ → ℕ → Type 0
IsWithin request offset stated limit = (offset + stated ≡ request.payload_length) × (stated ≤ limit)

module _ (request : Frame) where
  connect-IsWithin :
      wifi_connect_is_valid request ≡ true → IsWithin request 2 (byte_at request.payload 1) 63
  unfolding wifi_connect_is_valid
  connect-IsWithin valid = ground arith

  profile-IsWithin :
      wifi_profile_save_is_valid request ≡ true → IsWithin request 1 (byte_at request.payload 0) 63
  unfolding wifi_profile_save_is_valid
  profile-IsWithin valid = ground arith

  url-IsWithin :
      custom_url_save_is_valid request ≡ true → IsWithin request 1 (byte_at request.payload 0) 96
  unfolding custom_url_save_is_valid
  url-IsWithin valid = ground arith

-- The password or URL of a valid request to connect, to save a profile or to save a URL ends
-- exactly where the payload ends, and keeps within the limit of the store that takes it.
pub text-IsWithin :
    (request : Frame)
    → (request.type ≡ type_wifi_connect)
      ⊎ (request.type ≡ type_wifi_profile_save)
      ⊎ (request.type ≡ type_teletekst_custom_url_save)
    → platform_payload_is_valid request ≡ true
    → IsWithin request (text_offset request) (stated_length request) (text_limit request)
unfolding payload_is_valid_for
text-IsWithin request (inl e) valid =
    ground (arith, connect-IsWithin request (valid_as request type_wifi_connect e valid))
text-IsWithin request (inr (inl e)) valid =
    ground (arith, profile-IsWithin request (valid_as request type_wifi_profile_save e valid))
text-IsWithin request (inr (inr e)) valid =
    ground (arith, url-IsWithin request (valid_as request type_teletekst_custom_url_save e valid))

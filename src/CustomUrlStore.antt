-- ===== src/CustomUrlStore.antt =====
-- firmware/src/custom_url_store.{h,c}: the URL of the custom server and the source that starts by
-- itself, in one record of the flash. The static page buffer is written in full before each use and
-- cleared behind it, so it is no part of the state.
pub mod Record
pub mod Sealed
pub mod Saved
use p2000t_teletekst_cartrid.CustomEndpoint.{parse, url_max}
use p2000t_teletekst_cartrid.Flash.{FlashDevice, page_size}
use p2000t_teletekst_cartrid.P2wp.Frame.{u8}
use p2000t_teletekst_cartrid.P2wp.Parser.{byte_at}
use p2000t_teletekst_cartrid.Prelude.{
  ℕ, ◌+◌, ◌*◌, ◌/◌, ◌%◌, ◌^◌, Bool, true, false, not, ◌&&◌, ◌||◌, List, [], ◌∷◌, ◌++◌, Option, none,
  some, bit_xor, length, take, drop, replicate, copy_at, ltb, ◌==◌, if◌then◌else◌,
}

abbrev pub format_version : ℕ
format_version = 2

abbrev pub legacy_format_version : ℕ
legacy_format_version = 1

abbrev pub disabled : ℕ
disabled = 0xff

abbrev pub max_source : ℕ
max_source = 3

-- `custom_url_store_result_t`
pub data StoreResult : Type 0 where
  ok not_found corrupt failed invalid_data unchanged : StoreResult

-- `custom_url_record_t`
pub record UrlRecord : Type 0 where
  pub magic : List ℕ
  pub version : ℕ
  pub url_length : ℕ
  pub auto_start_source : ℕ
  pub reserved : ℕ
  pub checksum : ℕ
  pub url : List ℕ

-- "P2WPURL1"
abbrev pub url_magic : List ℕ
url_magic = b'P' ∷ b'2' ∷ b'W' ∷ b'P' ∷ b'U' ∷ b'R' ∷ b'L' ∷ b'1' ∷ []

-- `memcmp(a, b, n) == 0`, for lists of `n` bytes.
unfoldable pub same_bytes : List ℕ → List ℕ → Bool
same_bytes [] [] = true
same_bytes [] (y ∷ ys) = false
same_bytes (x ∷ xs) [] = false
same_bytes (x ∷ xs) (y ∷ ys) = x == y && same_bytes xs ys

-- The packed record as the bytes of memory, and back.
unfoldable pub to_bytes : UrlRecord → List ℕ
to_bytes r =
    r.magic
    ++ (r.version
        ∷ r.url_length
        ∷ r.auto_start_source
        ∷ r.reserved
        ∷ u8 r.checksum
        ∷ u8 (r.checksum / 2 ^ 8)
        ∷ u8 (r.checksum / 2 ^ 16)
        ∷ u8 (r.checksum / 2 ^ 24)
        ∷ r.url)

unfoldable pub from_bytes : List ℕ → UrlRecord
from_bytes bytes = record {
  magic = take 8 bytes;
  version = byte_at bytes 8;
  url_length = byte_at bytes 9;
  auto_start_source = byte_at bytes 10;
  reserved = byte_at bytes 11;
  checksum =
      byte_at bytes 12
      + byte_at bytes 13 * 2 ^ 8
      + byte_at bytes 14 * 2 ^ 16
      + byte_at bytes 15 * 2 ^ 24;
  url = take url_max (drop 16 bytes);
}

-- A loop of the FNV-1a checksum, on the bytes that are left.
pub mix : ℕ → List ℕ → ℕ
mix checksum [] = checksum
mix checksum (byte ∷ bytes) = mix (bit_xor checksum byte * 16777619 % 2 ^ 32) bytes

pub checksum_of : UrlRecord → ℕ
checksum_of r =
    mix (mix 2166136261 (r.version ∷ r.url_length ∷ r.auto_start_source ∷ r.reserved ∷ []))
      (take r.url_length r.url)

-- The checks of a record that was read.
pub is_stored_url : UrlRecord → Bool
is_stored_url r =
    r.url_length == 0
    || elim (parse (take r.url_length r.url)) [ none ↦ false | some endpoint ↦ true ]

unfoldable pub check_record : UrlRecord → StoreResult
unfolding is_stored_url
check_record r =
    if not (same_bytes r.magic url_magic)
    then not_found
    else if (not (r.version == format_version) && not (r.version == legacy_format_version))
        || ltb url_max r.url_length
        || not (r.checksum == checksum_of r)
    then corrupt
    else if r.version == legacy_format_version && r.url_length == 0
    then corrupt
    else if r.version == format_version
        && not (r.auto_start_source == disabled)
        && ltb max_source r.auto_start_source
    then corrupt
    else if is_stored_url r
    then ok
    else corrupt

-- `memset(record, 0, sizeof(*record))`
abbrev pub zero_record : UrlRecord
zero_record = record {
  magic = replicate 8 0;
  version = 0;
  url_length = 0;
  auto_start_source = 0;
  reserved = 0;
  checksum = 0;
  url = replicate url_max 0;
}

abbrev pub is_ok : StoreResult → Bool
is_ok ok = true
is_ok not_found = false
is_ok corrupt = false
is_ok failed = false
is_ok invalid_data = false
is_ok unchanged = false

-- The record that a save starts from.
pub new_record : UrlRecord → StoreResult → UrlRecord
new_record existing existing_result =
    let fresh = record zero_record {
      magic = url_magic;
      version = format_version;
      auto_start_source = disabled;
    } in
    if is_ok existing_result
    then record fresh {
      url_length = existing.url_length;
      url = copy_at fresh.url 0 (take existing.url_length existing.url);
      auto_start_source =
          if existing.version == format_version then existing.auto_start_source else disabled;
    }
    else fresh

abbrev pub sealed : UrlRecord → UrlRecord
sealed r = record r { checksum = checksum_of r }

-- The page to program.
abbrev pub page_of : UrlRecord → List ℕ
page_of r = copy_at (replicate page_size 0xff) 0 (to_bytes r)

-- The record that `save` writes.
pub with_url : List ℕ → UrlRecord → UrlRecord
with_url url r =
    sealed (record r { url_length = u8 (length url); url = copy_at (replicate url_max 0) 0 url })

-- The record that `settings_save` writes.
pub with_source : ℕ → UrlRecord → UrlRecord
with_source source r = sealed (record r { auto_start_source = source })

module _ {Flash : Type 0} (device : FlashDevice Flash) where
  -- `custom_url_read_record`. The record is not read by a caller unless the result is `ok`.
  unfoldable pub read_record : Flash → StoreResult × UrlRecord
  unfolding check_record
  read_record flash =
      let r = from_bytes (device.mapped flash) in
      if device.region_available then (check_record r, r) else (failed, zero_record)

  -- The URL, which is as long as the length that is returned.
  unfoldable pub load : Flash → StoreResult × List ℕ
  unfolding read_record
  load flash =
      let (result, r) = read_record flash in
      if not (is_ok result)
      then (result, [])
      else if r.url_length == 0
      then (not_found, [])
      else (ok, take r.url_length r.url)

  -- `custom_url_flash_update`, where the page is the static buffer.
  pub flash_update : Bool → List ℕ → Flash → Flash
  flash_update program page flash =
      let erased = device.range_erase flash in
      if program then device.range_program erased page else erased

  unfoldable pub write_record : UrlRecord → UrlRecord → StoreResult → Flash → StoreResult × Flash
  unfolding flash_update
  write_record r existing existing_result flash =
      let (done, flash') = device.safe_execute flash (flash_update true (page_of r)) in
      if is_ok existing_result && same_bytes (to_bytes existing) (to_bytes r)
      then (unchanged, flash)
      else if not device.region_available
      then (failed, flash)
      else (if done then ok else failed, flash')

  unfoldable pub save : List ℕ → Flash → StoreResult × Flash
  unfolding read_record write_record
  save url flash =
      let (existing_result, existing) = read_record flash in
      let written =
        write_record (with_url url (new_record existing existing_result)) existing existing_result
          flash in
      if length url == 0 || ltb url_max (length url)
      then (invalid_data, flash)
      else elim (parse url) [ none ↦ (invalid_data, flash) | some endpoint ↦ written ]

  -- The result, and the source that starts by itself.
  unfoldable pub settings_load : Flash → StoreResult × ℕ
  unfolding read_record
  settings_load flash =
      let (result, r) = read_record flash in
      if not (is_ok result)
      then (result, disabled)
      else (ok, if r.version == format_version then r.auto_start_source else disabled)

  unfoldable pub settings_save : ℕ → Flash → StoreResult × Flash
  unfolding read_record write_record
  settings_save source flash =
      let (existing_result, existing) = read_record flash in
      let written =
        write_record (with_source source (new_record existing existing_result)) existing
          existing_result flash in
      if not (source == disabled) && ltb max_source source then (invalid_data, flash) else written

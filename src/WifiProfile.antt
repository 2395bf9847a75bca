-- ===== src/WifiProfile.antt =====
-- firmware/src/wifi_profile.{h,c}: the Wi-Fi profile, encrypted in the last sector of the flash. The
-- cipher, the hash and the random numbers are code of mbedTLS and of the SDK. Keys, plaintexts and
-- the static page are overwritten before each function returns, so they are no part of the state.
pub mod Pages
pub mod Accepted
pub mod Kept
pub mod Loaded
pub mod Saved
use p2000t_teletekst_cartrid.CustomUrlStore.{same_bytes}
use p2000t_teletekst_cartrid.Flash.{FlashDevice, page_size}
use p2000t_teletekst_cartrid.P2wp.Frame.{IsByte, u8}
use p2000t_teletekst_cartrid.P2wp.Parser.{byte_at}
use p2000t_teletekst_cartrid.Prelude.{
  ℕ, zero, suc, ◌+◌, ◌-◌, ◌*◌, ◌/◌, ◌^◌, Bool, true, false, not, ◌&&◌, ◌||◌, List, [], ◌∷◌, ◌++◌,
  Option, none, some, length, take, drop, set, replicate, copy_at, All, ltb, ◌==◌, if◌then◌else◌,
  ◌>>=◌, ◌≡◌,
}

abbrev pub max_ssid : ℕ
max_ssid = 32

abbrev pub max_password : ℕ
max_password = 63

abbrev pub profile_version : ℕ
profile_version = 2

abbrev pub nonce_size : ℕ
nonce_size = 12

abbrev pub tag_size : ℕ
tag_size = 16

-- `sizeof(wifi_profile_plaintext_t)`
abbrev pub plaintext_size : ℕ
plaintext_size = 104

-- The bytes in front of the ciphertext.
abbrev pub header_length : ℕ
header_length = 24

-- `wifi_profile_result_t`
pub data ProfileResult : Type 0 where
  ok not_found corrupt storage_failed invalid_data : ProfileResult

-- What the profile store calls. `none` is an error of the library.
pub record Platform (Gcm Seed : Type 0) : Type 0 where
  -- `pico_get_unique_board_id`
  pub board_id : List ℕ
  -- `get_rand_64`
  pub random : Seed → ℕ × Seed
  -- `mbedtls_sha256` over these parts, one behind the other.
  pub sha256 : List (List ℕ) → Option (List ℕ)
  -- `mbedtls_gcm_setkey`
  pub setkey : List ℕ → Option Gcm
  -- `mbedtls_gcm_crypt_and_tag`: from nonce, additional data and plaintext to ciphertext and tag.
  pub crypt_and_tag : Gcm → List ℕ → List ℕ → List ℕ → Option (List ℕ × List ℕ)
  -- `mbedtls_gcm_auth_decrypt`: from nonce, additional data, tag and ciphertext to the plaintext.
  pub auth_decrypt : Gcm → List ℕ → List ℕ → List ℕ → List ℕ → Option (List ℕ)

-- `wifi_profile_plaintext_t`
pub record Plaintext : Type 0 where
  pub version : ℕ
  pub ssid_length : ℕ
  pub password_length : ℕ
  pub auth : ℕ
  pub ssid : List ℕ
  pub password : List ℕ

-- `wifi_profile_credentials_t`
pub record Credentials : Type 0 where
  pub ssid_length : ℕ
  pub ssid : List ℕ
  pub password_length : ℕ
  pub password : List ℕ
  pub auth : ℕ

-- "P2WPPRF2"
abbrev pub profile_magic : List ℕ
profile_magic = b'P' ∷ b'2' ∷ b'W' ∷ b'P' ∷ b'P' ∷ b'R' ∷ b'F' ∷ b'2' ∷ []

-- "P2WP Pico W profile key v2"
abbrev key_context : List ℕ
key_context =
    b'P' ∷ b'2' ∷ b'W' ∷ b'P' ∷ b' ' ∷ b'P' ∷ b'i' ∷ b'c' ∷ b'o' ∷ b' ' ∷ b'W' ∷ b' ' ∷ b'p' ∷ b'r'
    ∷ b'o' ∷ b'f' ∷ b'i' ∷ b'l' ∷ b'e' ∷ b' ' ∷ b'k' ∷ b'e' ∷ b'y' ∷ b' ' ∷ b'v' ∷ b'2' ∷ []

-- The packed plaintext as bytes, its reserved byte 0, and back.
unfoldable pub plaintext_bytes : Plaintext → List ℕ
plaintext_bytes p =
    p.version
    ∷ p.ssid_length
    ∷ p.password_length
    ∷ 0
    ∷ u8 p.auth
    ∷ u8 (p.auth / 2 ^ 8)
    ∷ u8 (p.auth / 2 ^ 16)
    ∷ u8 (p.auth / 2 ^ 24)
    ∷ (p.ssid ++ p.password)

pub plaintext_from : List ℕ → Plaintext
plaintext_from bytes = record {
  version = byte_at bytes 0;
  ssid_length = byte_at bytes 1;
  password_length = byte_at bytes 2;
  auth =
      byte_at bytes 4
      + byte_at bytes 5 * 2 ^ 8
      + byte_at bytes 6 * 2 ^ 16
      + byte_at bytes 7 * 2 ^ 24;
  ssid = take max_ssid (drop 8 bytes);
  password = take (max_password + 1) (drop (8 + max_ssid) bytes);
}

-- The lengths do not fit each other or the way of authentication.
unfoldable pub lengths_are_bad : ℕ → ℕ → ℕ → Bool
lengths_are_bad ssid_length password_length auth =
    ssid_length == 0
    || ltb max_ssid ssid_length
    || ltb max_password password_length
    || (auth == 0 && not (password_length == 0))
    || (not (auth == 0) && ltb password_length 8)

-- The bytes of a profile record in front of the ciphertext.
abbrev pub record_header : List ℕ → List ℕ
record_header nonce = profile_magic ++ (profile_version ∷ 0 ∷ 0 ∷ 0 ∷ nonce)

abbrev pub new_plaintext : List ℕ → List ℕ → ℕ → Plaintext
new_plaintext ssid password auth = record {
  version = profile_version;
  ssid_length = u8 (length ssid);
  password_length = u8 (length password);
  auth = auth;
  ssid = copy_at (replicate max_ssid 0) 0 ssid;
  password = copy_at (replicate (max_password + 1) 0) 0 password;
}

-- `memset(credentials, 0, sizeof(*credentials))`
abbrev pub no_credentials : Credentials
no_credentials = record {
  ssid_length = 0;
  ssid = replicate (max_ssid + 1) 0;
  password_length = 0;
  password = replicate (max_password + 1) 0;
  auth = 0;
}

-- A text of this length in an array, with its end mark.
abbrev ended : List ℕ → ℕ → List ℕ → List ℕ
ended array count text = set (copy_at array 0 (take count text)) count 0

abbrev pub credentials_of : Plaintext → Credentials
credentials_of p = record {
  ssid_length = p.ssid_length;
  ssid = ended no_credentials.ssid p.ssid_length p.ssid;
  password_length = p.password_length;
  password = ended no_credentials.password p.password_length p.password;
  auth = p.auth;
}

-- What a plaintext is taken for.
pub accept : Plaintext → ProfileResult × Credentials
accept p =
    if not (p.version == profile_version) || lengths_are_bad p.ssid_length p.password_length p.auth
    then (corrupt, no_credentials)
    else (ok, credentials_of p)

-- The bytes of a random number, lowest first.
unfoldable pub low_bytes : ℕ → ℕ → List ℕ
low_bytes zero n = []
low_bytes (suc count) n = u8 n ∷ low_bytes count (n / 2 ^ 8)

module _ {Flash Gcm Seed : Type 0} (device : FlashDevice Flash) (platform : Platform Gcm Seed) where
  pub present : Flash → Bool
  present flash = device.region_available && same_bytes (take 8 (device.mapped flash)) profile_magic

  -- The key, set for the cipher.
  unfoldable pub device_cipher : Option Gcm
  device_cipher =
      platform.sha256 (key_context ∷ platform.board_id ∷ []) >>= λ key. platform.setkey key

  -- The additional data of a record with these first bytes.
  unfoldable pub aad : List ℕ → List ℕ
  aad header = take header_length header ++ platform.board_id

  -- The rounds of `wifi_profile_random_bytes`; each takes eight bytes or fewer, so the length is
  -- fuel enough.
  unfoldable pub random_bytes : ℕ → ℕ → Seed → List ℕ × Seed
  random_bytes zero left seed = ([], seed)
  random_bytes (suc fuel) left seed =
      let (number, seed') = platform.random seed in
      let chunk = if ltb left 8 then left else 8 in
      let more = random_bytes fuel (left - chunk) seed' in
      if left == 0 then ([], seed) else (low_bytes chunk number ++ more.0, more.1)

  unfoldable pub commit : Option (List ℕ) → Flash → ProfileResult × Flash
  commit page flash =
      let update : Flash → Flash = λ f. elim page [
        | none ↦ device.range_erase f
        | some bytes ↦ device.range_program (device.range_erase f) bytes
      ] in
      let (done, flash') = device.safe_execute flash update in
      if not device.region_available
      then (storage_failed, flash)
      else (if done then ok else storage_failed, flash')

  -- The page with the record of an encrypted profile.
  abbrev pub profile_page : List ℕ → List ℕ × List ℕ → List ℕ
  profile_page nonce out =
      copy_at (replicate page_size 0xff) 0 (record_header nonce ++ (out.0 ++ out.1))

  -- The page of a profile, or `none` where the library has an error.
  unfoldable pub encrypt : List ℕ → Plaintext → Option (List ℕ)
  encrypt nonce plaintext = device_cipher >>= λ gcm.
      platform.crypt_and_tag gcm nonce (aad (record_header nonce)) (plaintext_bytes plaintext)
      >>= λ out. some (profile_page nonce out)

  unfoldable pub store : List ℕ → List ℕ → ℕ → Flash → Seed → ProfileResult × Flash × Seed
  unfolding encrypt commit random_bytes low_bytes lengths_are_bad device_cipher aad
  store ssid password auth flash seed =
      let (nonce, seed') = random_bytes nonce_size nonce_size seed in
      if lengths_are_bad (length ssid) (length password) auth
      then (invalid_data, flash, seed)
      else elim (encrypt nonce (new_plaintext ssid password auth)) [
        | none ↦ (storage_failed, flash, seed')
        | some page ↦ (let (result, flash') = commit (some page) flash in (result, flash', seed'))
      ]

  -- The plaintext of the record at the start of these bytes.
  pub decrypt : List ℕ → Option Plaintext
  decrypt bytes = device_cipher >>= λ gcm.
      platform.auth_decrypt gcm (take nonce_size (drop nonce_size bytes)) (aad bytes)
        (take tag_size (drop (header_length + plaintext_size) bytes))
        (take plaintext_size (drop header_length bytes))
      >>= λ plaintext. some (plaintext_from plaintext)

  unfoldable pub load : Flash → ProfileResult × Credentials
  unfolding present decrypt accept lengths_are_bad device_cipher aad
  load flash =
      if not (present flash)
      then (not_found, no_credentials)
      else if not (byte_at (device.mapped flash) 8 == profile_version)
      then (corrupt, no_credentials)
      else elim (decrypt (device.mapped flash)) [
        | none ↦ (corrupt, no_credentials)
        | some p ↦ accept p
      ]

  unfoldable pub erase : Flash → ProfileResult × Flash
  unfolding commit
  erase flash = commit none flash

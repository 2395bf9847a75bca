-- ===== src/P2wp/Frame.antt =====
-- firmware/src/p2wp.h: the constants of the link protocol and `p2wp_frame_t`.
use p2000t_teletekst_cartrid.Prelude.{
  ℕ, ◌+◌, ◌*◌, ◌/◌, ◌%◌, ◌^◌, ◌<◌, List, [], ◌∷◌, ◌≡◌, length, take, All,
}

abbrev pub max_payload : ℕ
max_payload = 512

abbrev pub header_size : ℕ
header_size = 6

abbrev pub crc_size : ℕ
crc_size = 2

abbrev pub max_body : ℕ
max_body = header_size + max_payload + crc_size

abbrev pub max_encoded : ℕ
max_encoded = 2 + 2 * max_body

abbrev pub delimiter : ℕ
delimiter = 0x7e

abbrev pub escape : ℕ
escape = 0x7d

abbrev pub escape_xor : ℕ
escape_xor = 0x20

-- The casts of C.
abbrev pub u8 : ℕ → ℕ
u8 n = n % 2 ^ 8

abbrev pub u16 : ℕ → ℕ
u16 n = n % 2 ^ 16

-- `p2wp_frame_t`. The payload is the whole array, used up to `payload_length`.
pub record Frame : Type 0 where
  pub version : ℕ
  pub flags : ℕ
  pub type : ℕ
  pub sequence : ℕ
  pub payload_length : ℕ
  pub payload : List ℕ

-- The six header bytes of a frame, as `p2wp_encode` and `p2wp_frame_identity` lay them out.
abbrev pub header : Frame → List ℕ
header f =
    f.version
    ∷ f.flags
    ∷ f.type
    ∷ f.sequence
    ∷ u8 f.payload_length
    ∷ u8 (f.payload_length / 2 ^ 8)
    ∷ []

abbrev pub IsByte : ℕ → Type 0
IsByte b = b < 256

-- The ranges that the C types give to a frame's fields.
pub record IsFrame (f : Frame) : Type 0 where
  pub version_byte : f.version < 256
  pub flags_byte : f.flags < 256
  pub type_byte : f.type < 256
  pub sequence_byte : f.sequence < 256
  pub length_fits : f.payload_length < 2 ^ 16
  pub array_size : length f.payload ≡ max_payload
  pub payload_bytes : All IsByte f.payload

-- What a frame says, with the unused end of its array forgotten.
pub record Message : Type 0 where
  pub version : ℕ
  pub flags : ℕ
  pub type : ℕ
  pub sequence : ℕ
  pub content : List ℕ

abbrev pub message : Frame → Message
message f = record {
  version = f.version;
  flags = f.flags;
  type = f.type;
  sequence = f.sequence;
  content = take f.payload_length f.payload;
}

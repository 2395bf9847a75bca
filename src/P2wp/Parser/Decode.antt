-- ===== src/P2wp/Parser/Decode.antt =====
-- firmware/src/p2wp.c: `decode_body` on a body that is given by its parts.
use p2000t_teletekst_cartrid.P2wp.Crc.{crc_loop, crc16}
use p2000t_teletekst_cartrid.P2wp.Frame.{Frame, header_size, max_payload, IsByte}
use p2000t_teletekst_cartrid.P2wp.Parser.{frame, error, le16, decode_body}
use p2000t_teletekst_cartrid.Prelude.Bits.{bit_or_fields}
use p2000t_teletekst_cartrid.Prelude.{
  ℕ, ◌+◌, ◌*◌, ◌^◌, Bool, ◌&&◌, List, [], ◌∷◌, ◌++◌, ◌≡◌, refl, arith, length, take, drop, leb,
  ◌==◌, if◌then◌else◌, copy_at, take_at, get_or_at, append_assoc,
}

-- A received body: the header bytes, the payload, and the checksum bytes.
pub record Body : Type 0 where
  pub version : ℕ
  pub flags : ℕ
  pub type : ℕ
  pub sequence : ℕ
  pub length_low : ℕ
  pub length_high : ℕ
  pub content : List ℕ
  pub crc_low : ℕ
  pub crc_high : ℕ

abbrev pub covered : Body → List ℕ
covered b = b.version ∷ b.flags ∷ b.type ∷ b.sequence ∷ b.length_low ∷ b.length_high ∷ b.content

abbrev pub flat : Body → List ℕ
flat b = covered b ++ (b.crc_low ∷ b.crc_high ∷ [])

-- The bytes that are joined are bytes.
abbrev pub LowBytes : Body → Type 0
LowBytes b = IsByte b.length_low × IsByte b.crc_low

abbrev pub decoded : Body → Frame → Frame
decoded b out = record {
  version = b.version;
  flags = b.flags;
  type = b.type;
  sequence = b.sequence;
  payload_length = length b.content;
  payload = copy_at out.payload 0 b.content;
}

-- Length and checksum are right.
abbrev pub accepts : Body → Bool
accepts b =
    leb (length b.content) max_payload
    && (b.length_low + b.length_high * 2 ^ 8 == length b.content)
    && (crc_loop 0xffff (covered b) == b.crc_low + b.crc_high * 2 ^ 8)

module _ (b : Body) (junk : List ℕ) where
  abbrev array : List ℕ
  array = flat b ++ junk

  array-covered : array ≡ covered b ++ (b.crc_low ∷ b.crc_high ∷ junk)
  array-covered = append_assoc (covered b) (b.crc_low ∷ b.crc_high ∷ []) junk

  field_length : LowBytes b → le16 array 4 ≡ b.length_low + b.length_high * 2 ^ 8
  field_length h = bit_or_fields 8 b.length_low b.length_high h.0

  field_crc :
      LowBytes b → le16 array (header_size + length b.content) ≡ b.crc_low + b.crc_high * 2 ^ 8
  field_crc h =
      rw
        (
          array-covered,
          get_or_at (6 + length b.content) 0 (covered b) (b.crc_low ∷ b.crc_high ∷ junk) 0
              (omega arith),
          get_or_at (6 + length b.content + 1) 1 (covered b) (b.crc_low ∷ b.crc_high ∷ junk) 0
              (omega arith),
        )
        (bit_or_fields 8 b.crc_low b.crc_high h.1)

  covered_bytes : take (header_size + length b.content) array ≡ covered b
  covered_bytes = rw array-covered (take_at _ (covered b) _ (omega arith))

  content_bytes : take (length b.content) (drop header_size array) ≡ b.content
  content_bytes =
      rw (append_assoc b.content (b.crc_low ∷ b.crc_high ∷ []) junk) (take_at _ b.content _ refl)

  pub decode_flat :
      (out : Frame)
      → LowBytes b
      → decode_body array (8 + length b.content) out
        ≡ (if accepts b then (frame, decoded b out) else (error, out))
  unfolding decode_body crc16
  decode_flat out h = ground (arith, field_length h, field_crc h, covered_bytes, content_bytes)

-- ===== src/P2wp/Crc.antt =====
-- firmware/src/p2wp.c: the checksum CRC-16/CCITT-FALSE and the identity of a frame.
pub mod Detect
use p2000t_teletekst_cartrid.Prelude.{
  ℕ, zero, suc, ◌*◌, ◌^◌, Bool, not, List, [], ◌∷◌, ◌++◌, bit_and, bit_xor, take, ◌==◌,
  if◌then◌else◌,
}
use p2000t_teletekst_cartrid.P2wp.Frame.{Frame, header, u16}

-- One round of the inner loop: a shift out of 16 bits, and the polynomial if a one fell out.
pub crc_bit : ℕ → ℕ
crc_bit crc =
    if not (bit_and crc 0x8000 == 0) then u16 (bit_xor (crc * 2) 0x1021) else u16 (crc * 2)

-- `for (bit = 0; bit < 8; ++bit)`, on the count of rounds left.
pub crc_bits : ℕ → ℕ → ℕ
crc_bits zero crc = crc
crc_bits (suc left) crc = crc_bits left (crc_bit crc)

pub crc_update : ℕ → ℕ → ℕ
crc_update crc byte = crc_bits 8 (bit_xor crc (byte * 2 ^ 8))

-- The outer loop over the bytes that are left.
pub crc_loop : ℕ → List ℕ → ℕ
crc_loop crc [] = crc
crc_loop crc (byte ∷ bytes) = crc_loop (crc_update crc byte) bytes

unfoldable pub crc16 : List ℕ → ℕ → ℕ
unfolding crc_loop crc_update crc_bits crc_bit
crc16 bytes count = crc_loop 0xffff (take count bytes)

unfoldable pub frame_identity : Frame → ℕ
unfolding crc_loop crc_update crc_bits crc_bit
frame_identity f = crc_loop (crc_loop 0xffff (header f)) (take f.payload_length f.payload)

-- ===== src/P2wp/Crc/Detect.antt =====
-- firmware/src/p2wp.c: what a change of one byte does to the checksum.
use p2000t_teletekst_cartrid.P2wp.Crc.{crc_bit, crc_bits, crc_update, crc_loop}
use p2000t_teletekst_cartrid.P2wp.Frame.{IsByte, u16}
use p2000t_teletekst_cartrid.Prelude.Bits.{
  bit_and_bit, bit_xor-div, bit_xor-mod, bit_xor-injective, bit_xor_comm, bit_xor-lt,
}
use p2000t_teletekst_cartrid.Prelude.{
  ℕ, zero, suc, ◌*◌, ◌/◌, ◌^◌, ◌≤◌, ◌<◌, List, [], ◌∷◌, ◌++◌, bit_xor, ◌≡◌, refl, sym, ap, ◌∙◌, ◌⊎◌,
  arith, All,
}

-- The bit that falls out decides the branch.
crc_bit-cases :
    (c : ℕ)
    → c < 2 ^ 16
    → (c < 2 ^ 15 × (crc_bit c ≡ c * 2))
      ⊎ ((2 ^ 15 ≤ c) × (crc_bit c ≡ u16 (bit_xor (c * 2) 0x1021)))
unfolding crc_bit
crc_bit-cases c h = ground (arith, bit_and_bit 15 c)

pub crc_bit-lt : (c : ℕ) → crc_bit c < 2 ^ 16
unfolding crc_bit
crc_bit-lt c = ground arith

-- With the bit out, the 17th bit is always set before the cast.
overflow_is_one : (c : ℕ) → 2 ^ 15 ≤ c → c < 2 ^ 16 → bit_xor (c * 2) 0x1021 / 2 ^ 16 ≡ 1
overflow_is_one c low high =
    let one : c * 2 / 2 ^ 16 ≡ 1 = omega arith in
    bit_xor-div 16 (c * 2) 0x1021 ∙ ap (λ t. bit_xor t 0) one

crc_bit_both :
    (c d : ℕ)
    → 2 ^ 15 ≤ c
    → c < 2 ^ 16
    → 2 ^ 15 ≤ d
    → d < 2 ^ 16
    → u16 (bit_xor (c * 2) 0x1021) ≡ u16 (bit_xor (d * 2) 0x1021)
    → c ≡ d
crc_bit_both c d p q r s e =
    let whole : bit_xor (c * 2) 0x1021 ≡ bit_xor (d * 2) 0x1021 =
      omega (arith, overflow_is_one c p q, overflow_is_one d r s) in
    omega (arith, bit_xor-injective (c * 2) (d * 2) 0x1021 whole)

-- One round is a bijection of the 16-bit numbers: the polynomial is odd.
crc_bit-injective : (c d : ℕ) → c < 2 ^ 16 → d < 2 ^ 16 → crc_bit c ≡ crc_bit d → c ≡ d
crc_bit-injective c d p q e = ground (
  arith,
  crc_bit-cases c p,
  crc_bit-cases d q,
  crc_bit_both c d,
  bit_xor-mod (c * 2) 0x1021,
  bit_xor-mod (d * 2) 0x1021,
)

crc_bits-lt : (n c : ℕ) → c < 2 ^ 16 → crc_bits n c < 2 ^ 16
unfolding crc_bits
crc_bits-lt zero c h = h
crc_bits-lt (suc n) c h = crc_bits-lt n (crc_bit c) (crc_bit-lt c)

crc_bits-injective : (n c d : ℕ) → c < 2 ^ 16 → d < 2 ^ 16 → crc_bits n c ≡ crc_bits n d → c ≡ d
unfolding crc_bits
crc_bits-injective zero c d p q e = e
crc_bits-injective (suc n) c d p q e =
    crc_bit-injective c d p q
      (crc_bits-injective n (crc_bit c) (crc_bit d) (crc_bit-lt c) (crc_bit-lt d) e)

pub crc_update-lt : (crc b : ℕ) → crc < 2 ^ 16 → b < 256 → crc_update crc b < 2 ^ 16
unfolding crc_update
crc_update-lt crc b p q = crc_bits-lt 8 _ (bit_xor-lt 16 crc (b * 2 ^ 8) p (omega arith))

update_step :
    (c d a b : ℕ)
    → c < 2 ^ 16
    → d < 2 ^ 16
    → a < 256
    → b < 256
    → crc_update c a ≡ crc_update d b
    → bit_xor c (a * 2 ^ 8) ≡ bit_xor d (b * 2 ^ 8)
unfolding crc_update
update_step c d a b p q r s =
    crc_bits-injective 8 _ _ (bit_xor-lt 16 c (a * 2 ^ 8) p (omega arith))
      (bit_xor-lt 16 d (b * 2 ^ 8) q (omega arith))

crc_update-injective_byte :
    (crc a b : ℕ) → crc < 2 ^ 16 → a < 256 → b < 256 → crc_update crc a ≡ crc_update crc b → a ≡ b
crc_update-injective_byte crc a b p q r e = omega (
  arith,
  bit_xor-injective (a * 2 ^ 8) (b * 2 ^ 8) crc (
      bit_xor_comm (a * 2 ^ 8) crc
      ∙ update_step crc crc a b p p q r e
      ∙ bit_xor_comm crc (b * 2 ^ 8)),
)

crc_update-injective_crc :
    (c d b : ℕ) → c < 2 ^ 16 → d < 2 ^ 16 → b < 256 → crc_update c b ≡ crc_update d b → c ≡ d
crc_update-injective_crc c d b p q r e =
    bit_xor-injective c d (b * 2 ^ 8) (update_step c d b b p q r r e)

pub crc_loop-lt : (xs : List ℕ) (crc : ℕ) → All IsByte xs → crc < 2 ^ 16 → crc_loop crc xs < 2 ^ 16
unfolding crc_loop
crc_loop-lt [] crc bytes h = h
crc_loop-lt (x ∷ xs) crc bytes h =
    crc_loop-lt xs (crc_update crc x) bytes.1 (crc_update-lt crc x h bytes.0)

crc_loop-injective :
    (xs : List ℕ) (c d : ℕ)
    → All IsByte xs
    → c < 2 ^ 16
    → d < 2 ^ 16
    → crc_loop c xs ≡ crc_loop d xs
    → c ≡ d
unfolding crc_loop
crc_loop-injective [] c d bytes p q e = e
crc_loop-injective (x ∷ xs) c d bytes p q e = crc_update-injective_crc c d x p q bytes.0 (
    crc_loop-injective xs (crc_update c x) (crc_update d x) bytes.1 (crc_update-lt c x p bytes.0)
      (crc_update-lt d x q bytes.0) e)

pub crc_loop-append :
    (xs ys : List ℕ) (crc : ℕ) → crc_loop crc (xs ++ ys) ≡ crc_loop (crc_loop crc xs) ys
unfolding crc_loop
crc_loop-append [] ys crc = refl
crc_loop-append (x ∷ xs) ys crc = crc_loop-append xs ys (crc_update crc x)

-- From one checksum, two texts that differ in one byte at most have the same checksum only if
-- they are the same.
pub crc_loop_detects :
    (xs ys : List ℕ) (crc a b : ℕ)
    → crc < 2 ^ 16
    → All IsByte xs
    → All IsByte ys
    → a < 256
    → b < 256
    → crc_loop crc (xs ++ (a ∷ ys)) ≡ crc_loop crc (xs ++ (b ∷ ys))
    → a ≡ b
unfolding crc_loop
crc_loop_detects xs ys crc a b h p q r s e =
    let start = crc_loop-lt xs crc p h in
    crc_update-injective_byte (crc_loop crc xs) a b start r s (
      crc_loop-injective ys _ _ q (crc_update-lt _ a start r) (crc_update-lt _ b start s)
        (sym (crc_loop-append xs (a ∷ ys) crc) ∙ e ∙ crc_loop-append xs (b ∷ ys) crc))

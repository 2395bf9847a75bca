-- ===== src/Prelude/Bits.antt =====
-- The binary operations at variables, from the recursion on digits that they stand for.
use Prim.Native.Nat.{
  ℕ, zero, suc, ◌+◌, ◌*◌, ◌/◌, ◌%◌, ◌^◌, ◌≤◌, ◌<◌, min, max, digits, differ, bit_and, bit_or,
  bit_xor, bit_and-bitwise, bit_or-bitwise, bit_xor-bitwise,
}
use mathlib.Core.Logic.{◌⊎◌, inl, inr}
use mathlib.Core.Path.{◌≡◌, refl, sym, ap, ◌∙◌}
use native.Mathlib.Nat.{pow-suc, div-div-eq-div-mul, mul_comm}
use native.Mathlib.Omega.{arith}

-- The count of digits only has to reach the first number.
module _ (z : ℕ → ℕ) (f : ℕ → ℕ → ℕ) where
  digits_enough : (n m a b : ℕ) → a ≤ n → a ≤ m → digits z f n a b ≡ digits z f m a b
  digits_enough zero zero zero b p q = refl
  digits_enough zero (suc m) zero b p q = refl
  digits_enough (suc n) zero zero b p q = refl
  digits_enough (suc n) (suc m) zero b p q = refl
  digits_enough zero m (suc a) b p q = absurd (omega arith)
  digits_enough (suc n) zero (suc a) b p q = absurd (omega arith)
  digits_enough (suc n) (suc m) (suc a) b p q =
      ap (λ (t : ℕ). t * 2 + f (suc a % 2) (b % 2))
        (digits_enough n m (suc a / 2) (b / 2) (omega arith) (omega arith))

  -- One step of the recursion at a positive number.
  digits_step :
      (a b : ℕ)
      → digits z f (suc a) (suc a) b
        ≡ digits z f (suc a / 2) (suc a / 2) (b / 2) * 2 + f (suc a % 2) (b % 2)
  digits_step a b =
      ap (λ (t : ℕ). t * 2 + f (suc a % 2) (b % 2))
        (digits_enough a (suc a / 2) (suc a / 2) (b / 2) (omega arith) (omega arith))

pub bit_or_step : (a b : ℕ) → bit_or a b ≡ bit_or (a / 2) (b / 2) * 2 + max (a % 2) (b % 2)
bit_or_step zero b = omega (arith, bit_or-bitwise 0 b, bit_or-bitwise 0 (b / 2))
bit_or_step (suc a) b = omega (
  arith,
  bit_or-bitwise (suc a) b,
  bit_or-bitwise (suc a / 2) (b / 2),
  digits_step (λ y. y) max a b,
)

pub bit_and_step : (a b : ℕ) → bit_and a b ≡ bit_and (a / 2) (b / 2) * 2 + min (a % 2) (b % 2)
bit_and_step zero b = omega (arith, bit_and-bitwise 0 b, bit_and-bitwise 0 (b / 2))
bit_and_step (suc a) b = omega (
  arith,
  bit_and-bitwise (suc a) b,
  bit_and-bitwise (suc a / 2) (b / 2),
  digits_step (λ y. 0) min a b,
)

digit-cases : (x : ℕ) → x < 2 → (x ≡ 0) ⊎ (x ≡ 1)
digit-cases zero h = inl refl
digit-cases (suc zero) h = inr refl
digit-cases (suc (suc x)) h = absurd (omega arith)

differ_digits : (x y : ℕ) → x < 2 → y < 2 → differ x y ≡ (x + y) % 2
differ_digits zero y p q = omega arith
differ_digits (suc zero) zero p q = refl
differ_digits (suc zero) (suc zero) p q = refl
differ_digits (suc zero) (suc (suc y)) p q = absurd (omega arith)
differ_digits (suc (suc x)) y p q = absurd (omega arith)

pub bit_xor_step : (a b : ℕ) → bit_xor a b ≡ bit_xor (a / 2) (b / 2) * 2 + (a % 2 + b % 2) % 2
bit_xor_step zero b = omega (arith, bit_xor-bitwise 0 b, bit_xor-bitwise 0 (b / 2))
bit_xor_step (suc a) b = omega (
  arith,
  bit_xor-bitwise (suc a) b,
  bit_xor-bitwise (suc a / 2) (b / 2),
  digits_step (λ y. y) differ a b,
  differ_digits (suc a % 2) (b % 2) (omega arith) (omega arith),
)

-- Two fields that share no bit are joined by `|` as by a sum.
pub bit_or_fields : (k low high : ℕ) → low < 2 ^ k → bit_or low (high * 2 ^ k) ≡ low + high * 2 ^ k
bit_or_fields zero zero high h = bit_or-bitwise 0 (high * 1) ∙ omega arith
bit_or_fields zero (suc low) high h = absurd (omega arith)
bit_or_fields (suc k) low high h =
    let e : high * 2 ^ suc k ≡ 2 * (high * 2 ^ k) =
      omega (arith, ap (λ (t : ℕ). high * t) (pow-suc 2 k)) in
    let half : high * 2 ^ suc k / 2 ≡ high * 2 ^ k = omega arith in
    omega (
      arith,
      bit_or_step low (high * 2 ^ suc k),
      ap (bit_or (low / 2)) half,
      bit_or_fields k (low / 2) high (omega (arith, pow-suc 2 k)),
    )

or_comm_fuel : (fuel a b : ℕ) → a + b ≤ fuel → bit_or a b ≡ bit_or b a
or_comm_fuel zero zero zero h = refl
or_comm_fuel zero zero (suc b) h = absurd (omega arith)
or_comm_fuel zero (suc a) b h = absurd (omega arith)
or_comm_fuel (suc fuel) a b h =
    omega (arith, bit_or_step a b, bit_or_step b a, or_comm_fuel fuel (a / 2) (b / 2) (omega arith))

pub bit_or_comm : (a b : ℕ) → bit_or a b ≡ bit_or b a
bit_or_comm a b = or_comm_fuel (a + b) a b (omega arith)

bit_xor-half : (a b : ℕ) → bit_xor a b / 2 ≡ bit_xor (a / 2) (b / 2)
bit_xor-half a b = omega (arith, bit_xor_step a b)

pub bit_xor-mod : (a b : ℕ) → bit_xor a b % 2 ≡ (a % 2 + b % 2) % 2
bit_xor-mod a b = omega (arith, bit_xor_step a b)

twice_fuel : (fuel a b : ℕ) → a + b ≤ fuel → bit_xor (bit_xor a b) b ≡ a
twice_fuel zero zero zero h = refl
twice_fuel zero zero (suc b) h = absurd (omega arith)
twice_fuel zero (suc a) b h = absurd (omega arith)
twice_fuel (suc fuel) a b h = omega (
  arith,
  bit_xor_step (bit_xor a b) b,
  bit_xor-mod a b,
  ap (λ t. bit_xor t (b / 2)) (bit_xor-half a b),
  twice_fuel fuel (a / 2) (b / 2) (omega arith),
)

-- Exclusive or with the same number twice changes nothing.
pub bit_xor_twice : (a b : ℕ) → bit_xor (bit_xor a b) b ≡ a
bit_xor_twice a b = twice_fuel (a + b) a b (omega arith)

pub bit_xor-injective : (a b k : ℕ) → bit_xor a k ≡ bit_xor b k → a ≡ b
bit_xor-injective a b k e = sym (bit_xor_twice a k) ∙ ap (λ t. bit_xor t k) e ∙ bit_xor_twice b k

comm_fuel : (fuel a b : ℕ) → a + b ≤ fuel → bit_xor a b ≡ bit_xor b a
comm_fuel zero zero zero h = refl
comm_fuel zero zero (suc b) h = absurd (omega arith)
comm_fuel zero (suc a) b h = absurd (omega arith)
comm_fuel (suc fuel) a b h =
    omega (arith, bit_xor_step a b, bit_xor_step b a, comm_fuel fuel (a / 2) (b / 2) (omega arith))

pub bit_xor_comm : (a b : ℕ) → bit_xor a b ≡ bit_xor b a
bit_xor_comm a b = comm_fuel (a + b) a b (omega arith)

pub bit_xor-lt : (k a b : ℕ) → a < 2 ^ k → b < 2 ^ k → bit_xor a b < 2 ^ k
bit_xor-lt zero zero zero p q = omega arith
bit_xor-lt zero zero (suc b) p q = absurd (omega arith)
bit_xor-lt zero (suc a) b p q = absurd (omega arith)
bit_xor-lt (suc k) a b p q = omega (
  arith,
  pow-suc 2 k,
  bit_xor_step a b,
  bit_xor-lt k (a / 2) (b / 2) (omega (arith, pow-suc 2 k)) (omega (arith, pow-suc 2 k)),
)

and-zero_fuel : (fuel a : ℕ) → a ≤ fuel → bit_and a 0 ≡ 0
and-zero_fuel zero zero h = refl
and-zero_fuel zero (suc a) h = absurd (omega arith)
and-zero_fuel (suc fuel) a h =
    omega (arith, bit_and_step a 0, and-zero_fuel fuel (a / 2) (omega arith))

pub bit_and-zero : (a : ℕ) → bit_and a 0 ≡ 0
bit_and-zero a = and-zero_fuel a a (omega arith)

-- A mask with the lowest bit.
pub bit_and-one : (a : ℕ) → bit_and a 1 ≡ a % 2
bit_and-one a = omega (arith, bit_and_step a 1, bit_and-zero (a / 2))

-- A mask with one bit, by the halves of both sides.
and-double : (a m : ℕ) → bit_and a (m * 2) ≡ bit_and (a / 2) m * 2
and-double a m =
    let half : m * 2 / 2 ≡ m = omega arith in
    omega (arith, bit_and_step a (m * 2), ap (bit_and (a / 2)) half)

-- The test of one bit.
pub bit_and_bit : (k a : ℕ) → bit_and a (2 ^ k) ≡ a / 2 ^ k % 2 * 2 ^ k
bit_and_bit zero a = bit_and-one a ∙ omega arith
bit_and_bit (suc k) a =
    rw (pow-suc 2 k, and-double a (2 ^ k), bit_and_bit k (a / 2), div-div-eq-div-mul a 2 (2 ^ k))
      (rw (mul_comm 2 (2 ^ k)) (omega arith))

pub bit_xor-div : (k a b : ℕ) → bit_xor a b / 2 ^ k ≡ bit_xor (a / 2 ^ k) (b / 2 ^ k)
bit_xor-div zero a b =
    let one_a : a / 1 ≡ a = omega arith in
    let one_b : b / 1 ≡ b = omega arith in rw (one_a, one_b) (omega arith)
bit_xor-div (suc k) a b =
    rw (pow-suc 2 k, mul_comm (2 ^ k) 2)
      (rw
        (
          ← div-div-eq-div-mul (bit_xor a b) 2 (2 ^ k),
          ← div-div-eq-div-mul a 2 (2 ^ k),
          ← div-div-eq-div-mul b 2 (2 ^ k),
          bit_xor-half a b,
        )
        (bit_xor-div k (a / 2) (b / 2)))

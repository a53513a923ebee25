-- ===== src/Base/Bits.antt =====
-- The bitwise operations on native numbers as arithmetic: one law for the lowest digit of each,
-- and from it shifted fields, low masks and the complement, at every width.
use Prim.Native.Nat.{ℕ, zero, suc, ◌+◌, ◌-◌, ◌*◌, ◌/◌, ◌%◌, ◌^◌, ◌≤◌, ◌<◌, min, max}
use Prim.Native.Nat.{bit_and, bit_or, bit_xor, digits, bitwise, differ}
use Prim.Native.Nat.{bit_and-bitwise, bit_or-bitwise, bit_xor-bitwise}
use mathlib.Core.Path.{◌≡◌, refl, ap}
use native.Mathlib.Nat.{pow-suc, one-le-pow, mod-lt, mod-add-div'}
use scutedb.Base.Test.{ltb, if◌then◌else◌}
use native.Mathlib.Omega.{arith}

-- `digits` reads the same number with any fuel that covers its argument.
module _ (z : ℕ → ℕ) (f : ℕ → ℕ → ℕ) where
  digits_enough : (n m a b : ℕ) → a ≤ n → a ≤ m → digits z f n a b ≡ digits z f m a b
  digits_enough zero zero a b p q = refl
  digits_enough zero (suc m) zero b p q = refl
  digits_enough zero (suc m) (suc a) b p q = absurd (omega arith)
  digits_enough (suc n) zero zero b p q = refl
  digits_enough (suc n) zero (suc a) b p q = absurd (omega arith)
  digits_enough (suc n) (suc m) zero b p q = refl
  digits_enough (suc n) (suc m) (suc a) b p q =
      ap (λ (t : ℕ). t * 2 + f (suc a % 2) (b % 2))
        (digits_enough n m (suc a / 2) (b / 2) (omega arith) (omega arith))

  bitwise_low :
      (a b : ℕ)
      → bitwise z f (suc a) b ≡ bitwise z f (suc a / 2) (b / 2) * 2 + f (suc a % 2) (b % 2)
  bitwise_low a b =
      ap (λ (t : ℕ). t * 2 + f (suc a % 2) (b % 2))
        (digits_enough a (suc a / 2) (suc a / 2) (b / 2) (omega arith) (omega arith))

pub bit_and_low : (a b : ℕ) → bit_and a b ≡ bit_and (a / 2) (b / 2) * 2 + min (a % 2) (b % 2)
bit_and_low zero b = simp bit_and-bitwise (omega arith)
bit_and_low (suc a) b = simp bit_and-bitwise (bitwise_low (λ y. 0) min a b)

pub bit_or_low : (a b : ℕ) → bit_or a b ≡ bit_or (a / 2) (b / 2) * 2 + max (a % 2) (b % 2)
bit_or_low zero b = simp bit_or-bitwise (omega arith)
bit_or_low (suc a) b = simp bit_or-bitwise (bitwise_low (λ y. y) max a b)

pub bit_xor_low : (a b : ℕ) → bit_xor a b ≡ bit_xor (a / 2) (b / 2) * 2 + differ (a % 2) (b % 2)
bit_xor_low zero b = simp bit_xor-bitwise (omega arith)
bit_xor_low (suc a) b = simp bit_xor-bitwise (bitwise_low (λ y. y) differ a b)

-- One binary digit taken off a shifted number.
shift-suc : (q k : ℕ) → q * 2 ^ suc k ≡ 2 * (q * 2 ^ k)
shift-suc q k = omega (arith, ap (λ (t : ℕ). q * t) (pow-suc 2 k))

bit_or-zero_upto : (n a : ℕ) → a ≤ n → bit_or a 0 ≡ a
bit_or-zero_upto n zero h = refl
bit_or-zero_upto zero (suc a) h = absurd (omega arith)
bit_or-zero_upto (suc n) (suc a) h =
    omega (arith, bit_or_low (suc a) 0, bit_or-zero_upto n (suc a / 2) (omega arith))

bit_or_zero_left : (b : ℕ) → bit_or 0 b ≡ b
bit_or_zero_left b = bit_or-bitwise 0 b

-- `x | q << k` is a sum when `x` lies below the shifted part.
pub bit_or_shifted : (k x q : ℕ) → x < 2 ^ k → bit_or x (q * 2 ^ k) ≡ x + q * 2 ^ k
bit_or_shifted zero zero q h = rw bit_or_zero_left (omega arith)
bit_or_shifted zero (suc x) q h = absurd (omega arith)
bit_or_shifted (suc k) x q h = ground (
  arith,
  bit_or_low x (q * 2 ^ suc k),
  shift-suc q k,
  pow-suc 2 k,
  bit_or_shifted k (x / 2) q (omega (arith, pow-suc 2 k)),
)

bit_and-zero_upto : (n a : ℕ) → a ≤ n → bit_and a 0 ≡ 0
bit_and-zero_upto n zero h = refl
bit_and-zero_upto zero (suc a) h = absurd (omega arith)
bit_and-zero_upto (suc n) (suc a) h =
    omega (arith, bit_and_low (suc a) 0, bit_and-zero_upto n (suc a / 2) (omega arith))

-- A number above `k` low bits `r`, masked to those bits.
bit_and_ones_parts : (k q r : ℕ) → r < 2 ^ k → bit_and (r + q * 2 ^ k) (2 ^ k - 1) ≡ r
bit_and_ones_parts zero q zero h = bit_and-zero_upto (0 + q * 1) (0 + q * 1) (omega arith)
bit_and_ones_parts zero q (suc r) h = absurd (omega arith)
bit_and_ones_parts (suc k) q r h = ground (
  arith,
  bit_and_low (r + q * 2 ^ suc k) (2 ^ suc k - 1),
  shift-suc q k,
  pow-suc 2 k,
  one-le-pow k 2,
  bit_and_ones_parts k q (r / 2),
)

-- `a & (1 << k - 1)` is the remainder by `2 ^ k`.
pub bit_and_ones : (k a : ℕ) → bit_and a (2 ^ k - 1) ≡ a % 2 ^ k
bit_and_ones k a = ground (
  arith,
  one-le-pow k 2,
  mod-lt a {m = 2 ^ k} (one-le-pow k 2 (omega arith)),
  mod-add-div' a (2 ^ k),
  bit_and_ones_parts k (a / 2 ^ k) (a % 2 ^ k),
)

differ_bits : (x y : ℕ) → x < 2 → y < 2 → differ x y ≡ (x + y) % 2
differ_bits zero zero h g = refl
differ_bits zero (suc zero) h g = refl
differ_bits zero (suc (suc y)) h g = absurd (omega arith)
differ_bits (suc zero) zero h g = refl
differ_bits (suc zero) (suc zero) h g = refl
differ_bits (suc zero) (suc (suc y)) h g = absurd (omega arith)
differ_bits (suc (suc x)) y h g = absurd (omega arith)

bit_xor_step : (a b : ℕ) → bit_xor a b ≡ bit_xor (a / 2) (b / 2) * 2 + (a + b) % 2
bit_xor_step a b =
    omega (arith, bit_xor_low a b, differ_bits (a % 2) (b % 2) (omega arith) (omega arith))

bit_xor-zero_upto : (n a : ℕ) → a ≤ n → bit_xor a 0 ≡ a
bit_xor-zero_upto n zero h = refl
bit_xor-zero_upto zero (suc a) h = absurd (omega arith)
bit_xor-zero_upto (suc n) (suc a) h =
    omega (arith, bit_xor_step (suc a) 0, bit_xor-zero_upto n (suc a / 2) (omega arith))

pub bit_xor-zero : (a : ℕ) → bit_xor a 0 ≡ a
bit_xor-zero a = bit_xor-zero_upto a a (omega arith)

-- `^x` at `k` bits: the exclusive or with `k` ones.
pub bit_xor_ones : (k x : ℕ) → x < 2 ^ k → bit_xor x (2 ^ k - 1) ≡ 2 ^ k - 1 - x
bit_xor_ones zero zero h = refl
bit_xor_ones zero (suc x) h = absurd (omega arith)
bit_xor_ones (suc k) x h = ground (
  arith,
  bit_xor_step x (2 ^ suc k - 1),
  pow-suc 2 k,
  one-le-pow k 2,
  bit_xor_ones k (x / 2) (omega (arith, pow-suc 2 k)),
)

-- The exclusive or with one bit above a number sets it, and with that bit in place clears it.
bit_xor_set_top : (k x : ℕ) → x < 2 ^ k → bit_xor x (2 ^ k) ≡ x + 2 ^ k
bit_xor_set_top zero zero h = refl
bit_xor_set_top zero (suc x) h = absurd (omega arith)
bit_xor_set_top (suc k) x h =
    ground (arith, bit_xor_step x (2 ^ suc k), pow-suc 2 k, bit_xor_set_top k (x / 2))

bit_xor_clear_top : (k x : ℕ) → x < 2 ^ k → bit_xor (x + 2 ^ k) (2 ^ k) ≡ x
bit_xor_clear_top zero zero h = refl
bit_xor_clear_top zero (suc x) h = absurd (omega arith)
bit_xor_clear_top (suc k) x h =
    ground
      (arith, bit_xor_step (x + 2 ^ suc k) (2 ^ suc k), pow-suc 2 k, bit_xor_clear_top k (x / 2))

-- At a word of `k + 1` bits, the exclusive or with the sign bit moves by half the range.
pub bit_xor_top :
    (k x : ℕ) → x < 2 ^ suc k → bit_xor x (2 ^ k) ≡ (if ltb x (2 ^ k) then x + 2 ^ k else x - 2 ^ k)
bit_xor_top k x h =
    ground (arith, pow-suc 2 k, bit_xor_set_top k x, bit_xor_clear_top k (x - 2 ^ k))

bit_and_top_unset : (k b : ℕ) → b < 2 ^ k → bit_and b (2 ^ k) ≡ 0
bit_and_top_unset zero zero h = refl
bit_and_top_unset zero (suc b) h = absurd (omega arith)
bit_and_top_unset (suc k) b h =
    ground (arith, bit_and_low b (2 ^ suc k), pow-suc 2 k, bit_and_top_unset k (b / 2))

bit_and_top_set : (k b : ℕ) → b < 2 ^ k → bit_and (b + 2 ^ k) (2 ^ k) ≡ 2 ^ k
bit_and_top_set zero zero h = refl
bit_and_top_set zero (suc b) h = absurd (omega arith)
bit_and_top_set (suc k) b h =
    ground (arith, bit_and_low (b + 2 ^ suc k) (2 ^ suc k), pow-suc 2 k, bit_and_top_set k (b / 2))

-- The sign bit of a word of `k + 1` bits, tested by a mask.
pub bit_and_top :
    (k b : ℕ) → b < 2 ^ suc k → bit_and b (2 ^ k) ≡ (if ltb b (2 ^ k) then 0 else 2 ^ k)
bit_and_top k b h =
    ground (arith, pow-suc 2 k, bit_and_top_unset k b, bit_and_top_set k (b - 2 ^ k))

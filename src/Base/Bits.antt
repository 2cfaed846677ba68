-- ===== src/Base/Bits.antt =====
-- Bitwise operations as arithmetic, at every width.
mod Step
pub use Step.{bit_or_step, bit_and_step, bit_xor_step}
use Prim.Native.Nat.{
  ℕ, zero, suc, ◌+◌, ◌-◌, ◌*◌, ◌/◌, ◌%◌, ◌^◌, ◌≤◌, ◌<◌, bit_and, bit_or, bit_xor, min,
}
use Prim.Native.Nat.{bit_or-bitwise}
use mathlib.Core.Path.{◌≡◌, refl, sym, ap}
use anonymous_communication.Base.Tests.{◌==◌, if◌then◌else◌}
use native.Mathlib.Nat.{pow-suc, pow-succ', one-le-pow, div-div-eq-div-mul}
use native.Mathlib.Omega.{arith}

or_zero_fuel : (n a : ℕ) → a ≤ n → bit_or a 0 ≡ a
or_zero_fuel n zero h = refl
or_zero_fuel zero (suc a) h = absurd (omega arith)
or_zero_fuel (suc n) (suc a) h =
    omega (arith, bit_or_step (suc a) 0, or_zero_fuel n (suc a / 2) (omega arith))

pub bit_or-zero : (a : ℕ) → bit_or a 0 ≡ a
bit_or-zero a = or_zero_fuel a a (omega arith)

and_zero_fuel : (n a : ℕ) → a ≤ n → bit_and a 0 ≡ 0
and_zero_fuel n zero h = refl
and_zero_fuel zero (suc a) h = absurd (omega arith)
and_zero_fuel (suc n) (suc a) h =
    omega (arith, bit_and_step (suc a) 0, and_zero_fuel n (suc a / 2) (omega arith))

pub bit_and-zero : (a : ℕ) → bit_and a 0 ≡ 0
bit_and-zero a = and_zero_fuel a a (omega arith)

pub zero-bit_or : (a : ℕ) → bit_or 0 a ≡ a
zero-bit_or a = bit_or-bitwise 0 a

mul_pow_suc : (q k : ℕ) → q * 2 ^ suc k ≡ 2 * (q * 2 ^ k)
mul_pow_suc q k = omega (arith, ap (λ (t : ℕ). q * t) (pow-suc 2 k))

-- `(q << k) | r` is a sum when `r` fits `k` bits.
pub bit_or_sum : (k q r : ℕ) → r < 2 ^ k → bit_or (q * 2 ^ k) r ≡ q * 2 ^ k + r
bit_or_sum zero q r fits = ground (arith, bit_or-zero q)
bit_or_sum (suc k) q r fits =
    ground
      (arith, bit_or_step (q * 2 ^ suc k) r, mul_pow_suc q k, bit_or_sum k q (r / 2) (omega arith))

-- A mask of `k` low bits is the remainder by `2 ^ k`.
mask_sum : (k q r : ℕ) → r < 2 ^ k → bit_and (q * 2 ^ k + r) (2 ^ k - 1) ≡ r
mask_sum zero q r fits = rw bit_and-zero (omega arith)
mask_sum (suc k) q r fits = ground (
  arith,
  bit_and_step (q * 2 ^ suc k + r) (2 ^ suc k - 1),
  mul_pow_suc q k,
  pow-suc 2 k,
  mask_sum k q (r / 2) (omega arith),
)

pub bit_and_mask : (k a : ℕ) → bit_and a (2 ^ k - 1) ≡ a % 2 ^ k
bit_and_mask k a = ground (arith, one-le-pow k 2, mask_sum k (a / 2 ^ k) (a % 2 ^ k))

-- `|` acts on the digits above and below bit `k` apart.
pub bit_or_split :
    (k q r s t : ℕ)
    → r < 2 ^ k
    → t < 2 ^ k
    → (bit_or (q * 2 ^ k + r) (s * 2 ^ k + t) ≡ bit_or q s * 2 ^ k + bit_or r t)
      × (bit_or r t < 2 ^ k)
bit_or_split zero q r s t hr ht = ground (arith, zero_digit r hr, zero_digit t ht)
  where
    zero_digit : (x : ℕ) → x < 1 → x ≡ 0
    zero_digit x h = omega arith
bit_or_split (suc k) q r s t hr ht = ground (
  arith,
  bit_or_step (q * 2 ^ suc k + r) (s * 2 ^ suc k + t),
  bit_or_step r t,
  mul_pow_suc q k,
  mul_pow_suc s k,
  mul_pow_suc (bit_or q s) k,
  pow-suc 2 k,
  bit_or_split k q (r / 2) s (t / 2) (omega (arith, pow-suc 2 k)) (omega (arith, pow-suc 2 k)),
)

-- The `i`-th binary digit.
abbrev pub bit_at : ℕ → ℕ → ℕ
bit_at x i = x / 2 ^ i % 2

div_pow_suc : (x i : ℕ) → x / 2 ^ suc i ≡ x / 2 / 2 ^ i
div_pow_suc x i = rw (pow-succ' 2 i) (sym (div-div-eq-div-mul x 2 (2 ^ i)))

pub bit_at-suc : (x i : ℕ) → bit_at x (suc i) ≡ bit_at (x / 2) i
bit_at-suc x i = rw (div_pow_suc x i)

pub bit_at-xor : (a b i : ℕ) → bit_at (bit_xor a b) i ≡ (bit_at a i + bit_at b i) % 2
bit_at-xor a b zero = omega (arith, bit_xor_step a b)
bit_at-xor a b (suc i) =
    rw (bit_at-suc (bit_xor a b) i, bit_at-suc a i, bit_at-suc b i, ← bit_at-xor (a / 2) (b / 2) i)
      (ap (λ (t : ℕ). bit_at t i) (omega (arith, bit_xor_step a b)))

pub bit_at-and : (a b i : ℕ) → bit_at (bit_and a b) i ≡ min (bit_at a i) (bit_at b i)
bit_at-and a b zero = omega (arith, bit_and_step a b)
bit_at-and a b (suc i) =
    rw (bit_at-suc (bit_and a b) i, bit_at-suc a i, bit_at-suc b i, ← bit_at-and (a / 2) (b / 2) i)
      (ap (λ (t : ℕ). bit_at t i) (omega (arith, bit_and_step a b)))

half_pow : (k : ℕ) → 2 ^ suc k / 2 ≡ 2 ^ k
half_pow k = omega (arith, pow-suc 2 k)

pub bit_at_pow : (k i : ℕ) → bit_at (2 ^ k) i ≡ (if k == i then 1 else 0)
bit_at_pow zero zero = refl
bit_at_pow zero (suc i) = ground (arith, bit_at-suc 1 i)
bit_at_pow (suc k) zero = ground (arith, pow-suc 2 k)
bit_at_pow (suc k) (suc i) =
    rw (bit_at-suc (2 ^ suc k) i) (ground (arith, half_pow k, bit_at_pow k i))

pub bit_at_ones : (k i : ℕ) → i < k → bit_at (2 ^ k - 1) i ≡ 1
bit_at_ones zero i h = absurd (omega arith)
bit_at_ones (suc k) zero h = omega (arith, pow-suc 2 k, one-le-pow k 2)
bit_at_ones (suc k) (suc i) h =
    rw (bit_at-suc (2 ^ suc k - 1) i, half_ones) (bit_at_ones k i (omega arith))
  where
    half_ones : (2 ^ suc k - 1) / 2 ≡ 2 ^ k - 1
    half_ones = omega (arith, pow-suc 2 k, one-le-pow k 2)

-- Numbers with the same digits are equal.
pub bit_at_ext : (n a b : ℕ) → a ≤ n → b ≤ n → ((i : ℕ) → bit_at a i ≡ bit_at b i) → a ≡ b
bit_at_ext zero a b p q h = omega arith
bit_at_ext (suc n) a b p q h = omega (
  arith,
  h 0,
  bit_at_ext n (a / 2) (b / 2) (omega arith) (omega arith)
      (λ i. rw (← bit_at-suc a i, ← bit_at-suc b i) (h (suc i))),
)

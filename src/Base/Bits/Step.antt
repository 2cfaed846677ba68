-- ===== src/Base/Bits/Step.antt =====
-- What each bitwise operation does with the lowest digit of its operands.
use Prim.Native.Nat.{ℕ, zero, suc, ◌+◌, ◌*◌, ◌/◌, ◌%◌, ◌≤◌, ◌<◌, min, max, bit_and, bit_or, bit_xor}
use Prim.Native.Nat.{digits, bitwise, bit_and-bitwise, bit_or-bitwise, bit_xor-bitwise, differ}
use mathlib.Core.Path.{◌≡◌, refl}
use native.Mathlib.Nat.{le_refl}
use native.Mathlib.Omega.{arith}

-- `digits` recurses on fuel; every fuel that is at least the first operand gives the same.
module _ (rest : ℕ → ℕ) (op : ℕ → ℕ → ℕ) where
  digits_enough : (x y k l : ℕ) → x ≤ l → x ≤ k → digits rest op k x y ≡ digits rest op l x y
  digits_enough zero y zero zero hl hk = refl
  digits_enough zero y (suc k) (suc l) hl hk = refl
  digits_enough zero y zero (suc l) hl hk = refl
  digits_enough zero zero (suc k) zero hl hk = refl
  digits_enough zero (suc y) (suc k) zero hl hk = refl
  digits_enough (suc x) y k zero hl hk = absurd (omega arith)
  digits_enough (suc x) y zero (suc l) hl hk = absurd (omega arith)
  digits_enough (suc x) y (suc k) (suc l) hl hk =
      omega (arith, digits_enough (suc x / 2) (y / 2) k l (omega arith) (omega arith))

  bitwise_step :
      (x y : ℕ)
      → bitwise rest op (suc x) y ≡ bitwise rest op (suc x / 2) (y / 2) * 2 + op (suc x % 2) (y % 2)
  bitwise_step x y =
      omega (arith, digits_enough (suc x / 2) (y / 2) x (suc x / 2) (le_refl _) (omega arith))

pub bit_and_step : (x y : ℕ) → bit_and x y ≡ bit_and (x / 2) (y / 2) * 2 + min (x % 2) (y % 2)
bit_and_step (suc x) y = simp bit_and-bitwise (bitwise_step (λ _. 0) min x y)
bit_and_step zero y = simp bit_and-bitwise (omega arith)

differ_digits : (x y : ℕ) → x < 2 → y < 2 → differ x y ≡ (x + y) % 2
differ_digits zero zero p q = refl
differ_digits zero (suc zero) p q = refl
differ_digits zero (suc (suc y)) p q = absurd (omega arith)
differ_digits (suc zero) zero p q = refl
differ_digits (suc zero) (suc zero) p q = refl
differ_digits (suc zero) (suc (suc y)) p q = absurd (omega arith)
differ_digits (suc (suc x)) y p q = absurd (omega arith)

-- The lowest digit of an exclusive or is the sum of the digits, modulo 2.
pub bit_xor_step : (x y : ℕ) → bit_xor x y ≡ bit_xor (x / 2) (y / 2) * 2 + (x % 2 + y % 2) % 2
bit_xor_step (suc x) y = simp bit_xor-bitwise (
    rw (← differ_digits (suc x % 2) (y % 2) (omega arith) (omega arith))
      (bitwise_step (λ kept. kept) differ x y))
bit_xor_step zero y = simp bit_xor-bitwise (omega arith)

pub bit_or_step : (x y : ℕ) → bit_or x y ≡ bit_or (x / 2) (y / 2) * 2 + max (x % 2) (y % 2)
bit_or_step (suc x) y = simp bit_or-bitwise (bitwise_step (λ kept. kept) max x y)
bit_or_step zero y = simp bit_or-bitwise (omega arith)

-- ===== src/Routing/Bit.antt =====
-- The assignment of one bit.
use anonymous_communication.Base.{ℕ, ◌^◌, ◌<◌, ◌≡◌, arith, if◌then◌else◌, ◌==◌, zero, suc}
use anonymous_communication.Base.Bits.{bit_at, bit_at-xor, bit_at-and, bit_at_pow, bit_at_ones}
use anonymous_communication.Routing.{assign_bit}
use native.Mathlib.Nat.{mod-eq_of_lt, pow-le-pow_right, pow-suc, one-le-pow}

bit_at-zero : (j : ℕ) → bit_at 0 j ≡ 0
bit_at-zero j = omega arith

pow_fits : (i : ℕ) → i < 64 → 2 ^ i < 2 ^ 64
pow_fits i h = omega (
  arith,
  pow-le-pow_right {n = 2} (omega arith) {i = suc i} {j = 64} h,
  pow-suc 2 i,
  one-le-pow i 2,
)

-- Bit `i` becomes `bit`, and the others stay.
pub assign_bit_lem :
    (x i bit j : ℕ)
    → bit < 2
    → i < 64
    → bit_at (assign_bit x i bit) j ≡ (if i == j then bit else bit_at x j)
unfolding assign_bit
assign_bit_lem x i zero j hb hi =
    rw (mod-eq_of_lt (pow_fits i hi), bit_at-xor, bit_at-and, bit_at-xor, bit_at_pow i j)
      (ground (arith, bit_at-zero j))
assign_bit_lem x i (suc zero) j hb hi =
    rw (mod-eq_of_lt (pow_fits i hi), bit_at-xor, bit_at-and, bit_at-xor, bit_at_pow i j)
      (ground (arith, bit_at_ones 64 j))
assign_bit_lem x i (suc (suc b)) j hb hi = absurd (omega arith)

-- ===== src/Serial/Exact.antt =====
-- On which 64-bit numbers the codec is a round trip.
use anonymous_communication.Base.{
  ℕ, zero, suc, ◌-◌, ◌*◌, ◌/◌, ◌%◌, ◌^◌, ◌<◌, ◌≤◌, bit_or, [], ok, ◌≡◌, refl, ap, arith, sym, Bool,
  true, false, append-nil, ◌∙◌, ◌↔◌, ◌⊎◌, inl, inr,
}
use anonymous_communication.Base.Bits.{zero-bit_or, bit_or_step}
use native.Mathlib.Nat.{pow-suc, one-le-pow}
use anonymous_communication.Serial.{
  serialize_number, deserialize_loop, deserialize_number, shift_int,
}
use anonymous_communication.Serial.Number.{
  byte_of, low_bits, sign_bit, pattern_of, bit_or-lt, loop64, byte_eq, u64_round_trip,
}

low_bits-lt : (left n low : ℕ) → low < 2 ^ 32 → low_bits left n low < 2 ^ 32
low_bits-lt zero n low h = h
low_bits-lt (suc left) n low h =
    low_bits-lt left n (bit_or low (shift_int (byte_of left n) (8 * left)))
      (bit_or-lt low (shift_int (byte_of left n) (8 * left)) h (omega arith))

ones_or : (k x : ℕ) → x < 2 ^ k → bit_or (2 ^ k - 1) x ≡ 2 ^ k - 1
ones_or zero x h = ground (arith, zero-bit_or x)
ones_or (suc k) x h = omega (
  arith,
  bit_or_step (2 ^ suc k - 1) x,
  pow-suc 2 k,
  one-le-pow k 2,
  ap (λ (t : ℕ). bit_or t (x / 2)) (half_ones k),
  ones_or k (x / 2) (omega (arith, pow-suc 2 k)),
)
  where
    half_ones : (j : ℕ) → (2 ^ suc j - 1) / 2 ≡ 2 ^ j - 1
    half_ones j = omega (arith, pow-suc 2 j, one-le-pow j 2)

low_bits_ones : (left n : ℕ) → low_bits left n (2 ^ 32 - 1) ≡ 2 ^ 32 - 1
low_bits_ones zero n = refl
low_bits_ones (suc left) n =
    rw (ones_or 32 (shift_int (byte_of left n) (8 * left)) (omega arith)) (low_bits_ones left n)

-- The high word is all ones, or a number of 32 bits has its top bit set.
sign_high : (n : ℕ) → 2 ^ 31 ≤ n → n < 2 ^ 32 → sign_bit 8 n false ≡ true
sign_high n h k = ground (arith, byte_eq 3 n, byte_eq 7 n, byte_eq 6 n, byte_eq 5 n, byte_eq 4 n)

all_ones : (n : ℕ) → n / 2 ^ 32 ≡ 2 ^ 32 - 1 → low_bits 8 n 0 ≡ 2 ^ 32 - 1
all_ones n h =
    rw
      (
        full 7 n (omega arith),
        full 6 n (omega arith),
        full 5 n (omega arith),
        full 4 n (omega arith),
      )
      (low_bits_ones 4 n)
  where
    full : (left m : ℕ) → m / 2 ^ (8 * left) % 2 ^ 8 ≡ 255 → byte_of left m ≡ 255
    full left m e = byte_eq left m ∙ e

sign_exact :
    (n low : ℕ) (sign : Bool)
    → n < 2 ^ 64
    → low < 2 ^ 32
    → sign_bit 8 n false ≡ sign
    → low_bits 8 n 0 ≡ low
    → pattern_of sign low ≡ n
    → (n < 2 ^ 31) ⊎ (n ≡ 2 ^ 64 - 1)
sign_exact n low true h b es el e = ground (arith, all_ones n)
sign_exact n low false h b es el e = ground (arith, sign_high n)

-- A number below 2 ^ 64 comes back from its eight bytes exactly if it is below 2 ^ 31 or is 2 ^ 64
-- - 1.
pub u64_round_trip_iff :
    (n : ℕ)
    → n < 2 ^ 64
    → (deserialize_number 8 (serialize_number 8 n) ≡ ok (n, [])) ↔ ((n < 2 ^ 31) ⊎ (n ≡ 2 ^ 64 - 1))
unfolding deserialize_number
u64_round_trip_iff n h = (there, back)
  where
    read :
        deserialize_loop 8 8 0 (serialize_number 8 n)
        ≡ ok (pattern_of (sign_bit 8 n false) (low_bits 8 n 0), [])
    read = rw append-nil at (loop64 8 n 0 false [] (omega arith))

    there :
        deserialize_loop 8 8 0 (serialize_number 8 n) ≡ ok (n, []) → (n < 2 ^ 31) ⊎ (n ≡ 2 ^ 64 - 1)
    there e =
        sign_exact n (low_bits 8 n 0) (sign_bit 8 n false) h (low_bits-lt 8 n 0 (omega arith)) refl
          refl (cc (sym read, e))

    back :
        (n < 2 ^ 31) ⊎ (n ≡ 2 ^ 64 - 1) → deserialize_loop 8 8 0 (serialize_number 8 n) ≡ ok (n, [])
    back (inl small) = rw append-nil at (u64_round_trip n [] small)
    back (inr top) = rw top (unfold serialize_number deserialize_loop in refl)

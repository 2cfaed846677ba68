-- ===== src/Serial/Number.antt =====
-- The number codec on numbers that it carries.
use anonymous_communication.Base.{
  ℕ, zero, suc, ◌+◌, ◌-◌, ◌*◌, ◌/◌, ◌%◌, ◌^◌, ◌<◌, bit_and, bit_or, List, ◌∷◌, ◌++◌, ok, ◌≡◌, refl,
  ap, arith, length, if◌then◌else◌, sign_extend, Bool, true, false, ◌||◌, leb, ◌∙◌,
}
use anonymous_communication.Base.Bits.{bit_and_mask, bit_or_sum, zero-bit_or, bit_or_split}
use anonymous_communication.Serial.{
  serialize_number, deserialize_loop, deserialize_number, shift_int,
}

pub length-serialize_number : (size n : ℕ) → length (serialize_number size n) ≡ size
unfolding serialize_number
length-serialize_number zero n = refl
length-serialize_number (suc left) n = ap suc (length-serialize_number left n)

-- One byte.
pub u8_round_trip :
    (n : ℕ) (rest : List ℕ)
    → n < 2 ^ 8
    → deserialize_number 1 (serialize_number 1 n ++ rest) ≡ ok (n, rest)
unfolding serialize_number deserialize_number
u8_round_trip n rest h = ground (arith, bit_and_mask 8 (n / 1), zero-bit_or n)

-- The 32 bits that the rounds leave in the low word, and whether some round set the sign.
abbrev pub byte_of : ℕ → ℕ → ℕ
byte_of left n = bit_and (n / 2 ^ (8 * left)) 0xff

abbrev pub low_bits : ℕ → ℕ → ℕ → ℕ
low_bits zero n low = low
low_bits (suc left) n low = low_bits left n (bit_or low (shift_int (byte_of left n) (8 * left)))

abbrev pub sign_bit : ℕ → ℕ → Bool → Bool
sign_bit zero n sign = sign
sign_bit (suc left) n sign =
    sign_bit left n (sign || leb (2 ^ 31) (shift_int (byte_of left n) (8 * left)))

abbrev pub pattern_of : Bool → ℕ → ℕ
pattern_of sign low = (if sign then 2 ^ 32 - 1 else 0) * 2 ^ 32 + low

pub bit_or-lt : (a b : ℕ) → a < 2 ^ 32 → b < 2 ^ 32 → bit_or a b < 2 ^ 32
bit_or-lt a b p q = (bit_or_split 32 0 a 0 b p q).1

-- One round, on a 64-bit result.
pattern_step :
    (sign : Bool) (low x : ℕ)
    → low < 2 ^ 32
    → x < 2 ^ 32
    → bit_or (pattern_of sign low) (sign_extend x) % 2 ^ 64
      ≡ pattern_of (sign || leb (2 ^ 31) x) (bit_or low x)
pattern_step true low x p q = ground (
  arith,
  bit_or_split 32 (2 ^ 32 - 1) low 0 x p q,
  bit_or_split 32 (2 ^ 32 - 1) low (2 ^ 32 - 1) x p q,
)
pattern_step false low x p q =
    ground (arith, bit_or_split 32 0 low 0 x p q, bit_or_split 32 0 low (2 ^ 32 - 1) x p q)

pub loop64 :
    (left n low : ℕ) (sign : Bool) (rest : List ℕ)
    → low < 2 ^ 32
    → deserialize_loop 8 left (pattern_of sign low) (serialize_number left n ++ rest)
      ≡ ok (pattern_of (sign_bit left n sign) (low_bits left n low), rest)
unfolding serialize_number deserialize_loop
loop64 zero n low sign rest h = refl
loop64 (suc left) n low sign rest h =
    rw (pattern_step sign low (shift_int (byte_of left n) (8 * left)) h (omega arith)) (
      loop64 left n (bit_or low (shift_int (byte_of left n) (8 * left)))
        (sign || leb (2 ^ 31) (shift_int (byte_of left n) (8 * left))) rest
        (bit_or-lt low (shift_int (byte_of left n) (8 * left)) h (omega arith)))

word_step :
    (low x : ℕ) → low < 2 ^ 32 → x < 2 ^ 32 → bit_or low (sign_extend x) % 2 ^ 32 ≡ bit_or low x
word_step low x p q =
    ground (arith, bit_or_split 32 0 low 0 x p q, bit_or_split 32 0 low (2 ^ 32 - 1) x p q)

loop32 :
    (left n low : ℕ) (rest : List ℕ)
    → low < 2 ^ 32
    → deserialize_loop 4 left low (serialize_number left n ++ rest) ≡ ok (low_bits left n low, rest)
unfolding serialize_number deserialize_loop
loop32 zero n low rest h = refl
loop32 (suc left) n low rest h =
    rw (word_step low (shift_int (byte_of left n) (8 * left)) h (omega arith)) (
      loop32 left n (bit_or low (shift_int (byte_of left n) (8 * left))) rest
        (bit_or-lt low (shift_int (byte_of left n) (8 * left)) h (omega arith)))

pub byte_eq : (left n : ℕ) → byte_of left n ≡ n / 2 ^ (8 * left) % 2 ^ 8
byte_eq left n = bit_and_mask 8 (n / 2 ^ (8 * left))

-- A byte that was put there as it is.
pub u8_read : (b : ℕ) (rest : List ℕ) → b < 2 ^ 8 → deserialize_number 1 (b ∷ rest) ≡ ok (b, rest)
unfolding deserialize_number deserialize_loop
u8_read b rest h = ground (arith, zero-bit_or b)

-- Bytes that are nothing above bit 31 and below it.
shifted_high : (left n : ℕ) → n / 2 ^ (8 * left) ≡ 0 → shift_int (byte_of left n) (8 * left) ≡ 0
shifted_high left n h = rw (byte_eq left n, h) (omega arith)

-- The four lowest bytes make up the low word.
low_word : (n : ℕ) → low_bits 4 n 0 ≡ n % 2 ^ 32
low_word n =
    rw
      (
        zero-bit_or (shift_int (byte_of 3 n) 24),
        top,
        second,
        bit_or_sum 24 (n / 2 ^ 24 % 2 ^ 8) (n / 2 ^ 16 % 2 ^ 8 * 2 ^ 16) (omega arith),
        two,
        third,
        bit_or_sum 16 (n / 2 ^ 16 % 2 ^ 16) (n / 2 ^ 8 % 2 ^ 8 * 2 ^ 8) (omega arith),
        three,
        fourth,
        bit_or_sum 8 (n / 2 ^ 8 % 2 ^ 24) (n % 2 ^ 8) (omega arith),
      )
      (omega arith)
  where
    top : shift_int (byte_of 3 n) 24 ≡ n / 2 ^ 24 % 2 ^ 8 * 2 ^ 24
    top = omega (arith, byte_eq 3 n)

    second : shift_int (byte_of 2 n) 16 ≡ n / 2 ^ 16 % 2 ^ 8 * 2 ^ 16
    second = omega (arith, byte_eq 2 n)

    third : shift_int (byte_of 1 n) 8 ≡ n / 2 ^ 8 % 2 ^ 8 * 2 ^ 8
    third = omega (arith, byte_eq 1 n)

    fourth : shift_int (byte_of 0 n) 0 ≡ n % 2 ^ 8
    fourth = omega (arith, byte_eq 0 n)

    two : n / 2 ^ 24 % 2 ^ 8 * 2 ^ 24 + n / 2 ^ 16 % 2 ^ 8 * 2 ^ 16 ≡ n / 2 ^ 16 % 2 ^ 16 * 2 ^ 16
    two = omega arith

    three : n / 2 ^ 16 % 2 ^ 16 * 2 ^ 16 + n / 2 ^ 8 % 2 ^ 8 * 2 ^ 8 ≡ n / 2 ^ 8 % 2 ^ 24 * 2 ^ 8
    three = omega arith

pub u32_round_trip :
    (n : ℕ) (rest : List ℕ)
    → n < 2 ^ 32
    → deserialize_number 4 (serialize_number 4 n ++ rest) ≡ ok (n, rest)
unfolding deserialize_number
u32_round_trip n rest h =
    loop32 4 n 0 rest (omega arith) ∙ ap (λ (t : ℕ). ok (t, rest)) (omega (arith, low_word n))

low_double : (n : ℕ) → n < 2 ^ 31 → low_bits 8 n 0 ≡ n
low_double n h =
    rw
      (
        shifted_high 7 n (omega arith),
        shifted_high 6 n (omega arith),
        shifted_high 5 n (omega arith),
        shifted_high 4 n (omega arith),
      )
      (omega (arith, low_word n))

sign_double : (n : ℕ) → n < 2 ^ 31 → sign_bit 8 n false ≡ false
sign_double n h = ground (
  arith,
  byte_eq 7 n,
  byte_eq 6 n,
  byte_eq 5 n,
  byte_eq 4 n,
  byte_eq 3 n,
  byte_eq 2 n,
  byte_eq 1 n,
  byte_eq 0 n,
)

pub u64_round_trip :
    (n : ℕ) (rest : List ℕ)
    → n < 2 ^ 31
    → deserialize_number 8 (serialize_number 8 n ++ rest) ≡ ok (n, rest)
unfolding deserialize_number
u64_round_trip n rest h =
    loop64 8 n 0 false rest (omega arith) ∙ rw (sign_double n h, low_double n h) (ground arith)

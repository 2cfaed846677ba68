-- ===== src/Serial.antt =====
-- include/serialization.h: numbers and vectors as bytes.
pub mod Number
pub mod Exact
pub mod Reads
pub mod Bind
pub mod Vec
pub mod Pointers
use anonymous_communication.Base.{
  ℕ, zero, suc, ◌+◌, ◌*◌, ◌%◌, ◌^◌, ◌/◌, bit_and, bit_or, List, [], ◌∷◌, ◌++◌, Result, ok, err,
  undefined, ltb, if◌then◌else◌, sign_extend, ◌<<<◌, ◌>>>◌, length, ◌≡◌, All,
}

-- A `deserialize` function reads the bytes of `working_vec` from `cur` on, and returns with them
-- from the new `cur` on. A read past the end is undefined.
abbrev pub Reader {ℓ} : Type ℓ → Type ℓ
Reader A = List ℕ → Result (A × List ℕ)

infixl 5 ◌>>=◌
abbrev pub ◌>>=◌ {ℓ κ} : {A : Type ℓ} {B : Type κ} → Reader A → (A → Reader B) → Reader B
◌>>=◌ m f bytes = elim (m bytes) [ err e ↦ err e | ok (a, rest) ↦ f a rest ]

abbrev pub return {ℓ} : {A : Type ℓ} → A → Reader A
return a rest = ok (a, rest)

-- `serialize_number<T>`: the bytes it appends, `sizeof (T)` being `size`, highest first. The
-- argument is the number of rounds that the loop has left.
unfoldable pub serialize_number : ℕ → ℕ → List ℕ
serialize_number zero number = []
serialize_number (suc left) number =
    bit_and (number >>> (8 * left)) 0xff ∷ serialize_number left number

-- `working_vec[cur + i] << shift`, an `int` of 32 bits as a pattern. The x86-64 instruction, and
-- so every SGX enclave, takes the count modulo 32; C++ defines no count from 32 on.
abbrev pub shift_int : ℕ → ℕ → ℕ
shift_int byte shift = (byte <<< (shift % 32)) % 2 ^ 32

-- The loop of `deserialize_number<T>`: `result |= ...`, converted to the `size` bytes of `T`.
unfoldable pub deserialize_loop : ℕ → ℕ → ℕ → Reader ℕ
deserialize_loop size zero result bytes = ok (result, bytes)
deserialize_loop size (suc left) result [] = err undefined
deserialize_loop size (suc left) result (byte ∷ bytes) =
    deserialize_loop size left
      (bit_or result (sign_extend (shift_int byte (8 * left))) % 2 ^ (8 * size)) bytes

unfoldable pub deserialize_number : ℕ → Reader ℕ
unfolding deserialize_loop
deserialize_number size = deserialize_loop size size 0

-- The class `Serializable`, with the static `deserialize` that its subclasses have.
pub record Serializable (A : Type 0) : Type 0 where
  pub serialize : A → List ℕ
  pub deserialize : Reader A

module _ {A : Type 0} ⦃s : Serializable A⦄ where
  -- The loop over the elements in `serialize_vec`.
  unfoldable pub serialize_elems : List A → List ℕ
  serialize_elems [] = []
  serialize_elems (x ∷ xs) = s.serialize x ++ serialize_elems xs

  unfoldable pub serialize_vec : List A → List ℕ
  unfolding serialize_elems
  serialize_vec vec = serialize_number 8 (length vec) ++ serialize_elems vec

  -- The loop of `deserialize_vec`, with the rounds left.
  unfoldable pub deserialize_elems : ℕ → Reader (List A)
  deserialize_elems zero = return []
  deserialize_elems (suc left) = do x ← s.deserialize; xs ← deserialize_elems left; return (x ∷ xs)

  -- `reserve` throws for a size that no vector has; here the reading ends with the bytes.
  unfoldable pub deserialize_vec : Reader (List A)
  unfolding deserialize_elems
  deserialize_vec = do size ← deserialize_number 8; deserialize_elems size

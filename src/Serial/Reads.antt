-- ===== src/Serial/Reads.antt =====
-- What reading a number takes and gives.
use anonymous_communication.Base.{
  ℕ, zero, suc, ◌+◌, ◌*◌, ◌%◌, ◌^◌, ◌<◌, bit_or, List, [], ◌∷◌, ok, ◌≡◌, ap, arith, length,
  sign_extend, subst, ok-inj,
}
use native.Mathlib.Nat.{one-le-pow, mod-lt}
use anonymous_communication.Serial.{deserialize_loop, deserialize_number, shift_int}

deserialize_loop_takes :
    (size left result v : ℕ) (bytes rest : List ℕ)
    → deserialize_loop size left result bytes ≡ ok (v, rest)
    → length rest + left ≡ length bytes
unfolding deserialize_loop
deserialize_loop_takes size zero result v bytes rest e = ground arith
deserialize_loop_takes size (suc left) result v [] rest e = cc
deserialize_loop_takes size (suc left) result v (b ∷ bytes) rest e = omega (
  arith,
  deserialize_loop_takes size left
      (bit_or result (sign_extend (shift_int b (8 * left))) % 2 ^ (8 * size)) v bytes rest e,
)

-- A number that is read takes as many bytes as its type has.
pub deserialize_number_takes :
    (size v : ℕ) (bytes rest : List ℕ)
    → deserialize_number size bytes ≡ ok (v, rest)
    → length rest + size ≡ length bytes
unfolding deserialize_number
deserialize_number_takes size v bytes rest e = deserialize_loop_takes size size 0 v bytes rest e

deserialize_loop_bound :
    (size left result v : ℕ) (bytes rest : List ℕ)
    → result < 2 ^ (8 * size)
    → deserialize_loop size left result bytes ≡ ok (v, rest)
    → v < 2 ^ (8 * size)
unfolding deserialize_loop
deserialize_loop_bound size zero result v bytes rest h e =
    subst (λ w. w < 2 ^ (8 * size)) (ap (λ r. r.0) (ok-inj e)) h
deserialize_loop_bound size (suc left) result v [] rest h e = cc
deserialize_loop_bound size (suc left) result v (b ∷ bytes) rest h e =
    deserialize_loop_bound size left
      (bit_or result (sign_extend (shift_int b (8 * left))) % 2 ^ (8 * size)) v bytes rest
      (mod-lt _ (one-le-pow (8 * size) 2 (omega arith))) e

-- A number that is read fits its type.
pub deserialize_number_bound :
    (size v : ℕ) (bytes rest : List ℕ)
    → deserialize_number size bytes ≡ ok (v, rest)
    → v < 2 ^ (8 * size)
unfolding deserialize_number
deserialize_number_bound size v bytes rest e =
    deserialize_loop_bound size size 0 v bytes rest (one-le-pow (8 * size) 2 (omega arith)) e

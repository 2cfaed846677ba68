-- ===== src/Serial/Pointers.antt =====
-- The readers of include/serialization.h that are given a pointer to the vector.
use anonymous_communication.Base.{ℕ, List, ◌≡◌, refl}
use anonymous_communication.Serial.{
  Serializable, Reader, ◌>>=◌, deserialize_loop, deserialize_number, deserialize_elems,
  deserialize_vec,
}

unfoldable pub deserialize_number_from_pointer : ℕ → Reader ℕ
unfolding deserialize_loop
deserialize_number_from_pointer size = deserialize_loop size size 0

module _ {A : Type 0} ⦃s : Serializable A⦄ where
  -- The elements are read by their own `deserialize`, from the vector that is pointed to.
  unfoldable pub deserialize_vec_from_pointer : Reader (List A)
  unfolding deserialize_number_from_pointer deserialize_elems
  deserialize_vec_from_pointer = do size ← deserialize_number_from_pointer 8; deserialize_elems size

  -- They read what the readers of a reference read.
  pub vec_from_pointer :
      (bytes : List ℕ) → deserialize_vec_from_pointer bytes ≡ deserialize_vec bytes
  unfolding deserialize_vec_from_pointer deserialize_vec deserialize_number
  vec_from_pointer bytes = refl

-- ===== src/Serial/Vec.antt =====
-- Vectors of serializable objects: the round trip, for every class whose own codec has it.
use anonymous_communication.Base.{
  ℕ, ◌^◌, ◌<◌, List, [], ◌∷◌, ◌++◌, ok, ◌≡◌, refl, length, append_assoc, All,
}
use anonymous_communication.Serial.{
  Serializable, ◌>>=◌, serialize_elems, serialize_vec, deserialize_elems, deserialize_vec,
  serialize_number,
}
use anonymous_communication.Serial.Number.{u64_round_trip}

-- What `deserialize` owes `serialize` on the objects that satisfy `Valid`: it returns the object
-- and stops right behind its bytes.
abbrev pub RoundTrips : {A : Type 0} ⦃s : Serializable A⦄ → (A → Type 0) → Type 0
RoundTrips {A} ⦃s⦄ Valid =
    (a : A) (rest : List ℕ) → Valid a → s.deserialize (s.serialize a ++ rest) ≡ ok (a, rest)

module _ {A : Type 0} ⦃s : Serializable A⦄ {Valid : A → Type 0} (law : RoundTrips Valid) where
  elems_round_trip :
      (xs : List A) (rest : List ℕ)
      → All Valid xs
      → deserialize_elems (length xs) (serialize_elems xs ++ rest) ≡ ok (xs, rest)
  unfolding deserialize_elems serialize_elems
  elems_round_trip [] rest h = refl
  elems_round_trip (x ∷ xs) rest (h, hs) = rw (
    append_assoc (s.serialize x) (serialize_elems xs) rest,
    law x (serialize_elems xs ++ rest) h,
    elems_round_trip xs rest hs,
    ◌>>=◌,
  )

  -- A vector of fewer than 2 ^ 31 valid objects comes back, and the bytes behind it are left.
  pub vec_round_trip :
      (xs : List A) (rest : List ℕ)
      → All Valid xs
      → length xs < 2 ^ 31
      → deserialize_vec (serialize_vec xs ++ rest) ≡ ok (xs, rest)
  unfolding deserialize_vec serialize_vec
  vec_round_trip xs rest hs small =
      rw
        (
          append_assoc (serialize_number 8 (length xs)) (serialize_elems xs) rest,
          u64_round_trip (length xs) (serialize_elems xs ++ rest) small,
          ◌>>=◌,
        )
        (elems_round_trip xs rest hs)

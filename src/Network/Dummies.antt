-- ===== src/Network/Dummies.antt =====
-- What a receiver reads behind a dummy.
use anonymous_communication.Base.{
  take-drop, sym, ℕ, List, [], ◌∷◌, ◌++◌, ok, length, length-take, take, drop, replicate, ◌≡◌, refl,
  ◌∙◌, arith, append_assoc, append-nil,
}
use anonymous_communication.Config.{message_size}
use anonymous_communication.Serial.{
  ◌>>=◌, serialize_number, serialize_elems, serialize_vec, deserialize_number, deserialize_loop,
  deserialize_elems, deserialize_vec,
}
use anonymous_communication.Serial.Number.{u64_round_trip}
use anonymous_communication.Message.{
  Message, create_dummy, serialize_tuple, deserialize_tuple, serialize_pseudonym, serialize_message,
  tuple_serializable,
}
use anonymous_communication.Message.Codec.{tuple_reads_back}
use anonymous_communication.Client.TrafficIn.{deserialize_plain}
use anonymous_communication.Network.{dummy_read, only_dummy}

module _ (unset : Message) (rest : List ℕ) where
  -- The bytes of a dummy behind its source pseudonym, and what follows it.
  abbrev behind_zeros : List ℕ
  behind_zeros = unset.msg ++ (replicate 64 0 ++ (serialize_number 8 0 ++ rest))

  dummy_bytes : serialize_tuple (create_dummy unset) ++ rest ≡ replicate 64 0 ++ behind_zeros
  unfolding serialize_tuple serialize_pseudonym serialize_message create_dummy
  dummy_bytes = simp append_assoc

  dummy_tuple :
      length unset.msg ≡ message_size
      → deserialize_tuple (serialize_tuple (create_dummy unset) ++ rest)
        ≡ ok (dummy_read unset, replicate 56 0 ++ behind_zeros)
  unfolding create_dummy deserialize_number deserialize_loop
  dummy_tuple h =
      tuple_reads_back (create_dummy unset) (take 64 unset.msg) (drop 64 unset.msg) rest
        (refl, h, refl) (sym (take-drop 64 unset.msg)) (ground (arith, length-take 64 unset.msg))
      ∙ rw dummy_bytes refl

  dummy_vec :
      length unset.msg ≡ message_size
      → deserialize_vec (serialize_vec (create_dummy unset ∷ []) ++ rest)
        ≡ ok (dummy_read unset ∷ [], replicate 56 0 ++ behind_zeros)
  unfolding serialize_vec deserialize_vec serialize_elems deserialize_elems
  dummy_vec h =
      rw
        (
          append_assoc (serialize_number 8 1) (serialize_tuple (create_dummy unset) ++ []) rest,
          u64_round_trip 1 ((serialize_tuple (create_dummy unset) ++ []) ++ rest) (omega arith),
          append-nil (serialize_tuple (create_dummy unset)),
          dummy_tuple h,
          ◌>>=◌,
        )
        refl

-- From a plaintext whose first vector has one dummy, the receiver reads that dummy and five empty
-- vectors, whatever stands behind it.
pub dummy_hides_plain :
    (unset : Message) (rest : List ℕ)
    → length unset.msg ≡ message_size
    → deserialize_plain (serialize_vec (create_dummy unset ∷ []) ++ rest) ≡ ok (only_dummy unset)
unfolding deserialize_plain
dummy_hides_plain unset rest h =
    rw (dummy_vec unset rest h)
      (unfold deserialize_vec deserialize_elems deserialize_number deserialize_loop in refl)

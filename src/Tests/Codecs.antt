-- ===== src/Tests/Codecs.antt =====
-- The codecs and the cipher on concrete objects.
use anonymous_communication.Peer.{peer_serializable}
use anonymous_communication.Base.{
  ℕ, ◌≡◌, ◌≢◌, ◌↔◌, ◌⊎◌, ◌-◌, ◌<◌, ◌^◌, ◌++◌, List, [], ◌∷◌, ok, refl, arith, replicate,
}
use anonymous_communication.Serial.{serialize_number, deserialize_number}
use anonymous_communication.Serial.Exact.{u64_round_trip_iff}
use anonymous_communication.Message.{serialize_tuple, deserialize_tuple}
use anonymous_communication.Message.Codec.{tuple_never_returns}
use anonymous_communication.Crypt.{encrypt, decrypt, header}
use anonymous_communication.Crypt.RoundTrip.{decrypt-encrypt}
use anonymous_communication.Overlay.{
  OverlayStructureSchemeMessage, hand_over, serialize_overlay, deserialize_overlay,
}
use anonymous_communication.Overlay.Codec.{overlay_round_trip}
use anonymous_communication.Client.Aad.{AadTuple, serialize_aad, deserialize_aad, aad_round_trip}
use anonymous_communication.Tests.Samples.{peer, sample_tuple, open_crypto, open_crypto-IsLawful}

u64_round_trip_iff_example :
    (deserialize_number 8 (serialize_number 8 (2 ^ 31)) ≡ ok (2 ^ 31, []))
    ↔ ((2 ^ 31 < 2 ^ 31) ⊎ (2 ^ 31 ≡ 2 ^ 64 - 1))
u64_round_trip_iff_example = u64_round_trip_iff (2 ^ 31) (omega arith)

tuple_never_returns_example :
    deserialize_tuple (serialize_tuple (sample_tuple 3 400) ++ []) ≢ ok (sample_tuple 3 400, [])
tuple_never_returns_example =
    tuple_never_returns (sample_tuple 3 400) (sample_tuple 3 400) [] (refl, refl, refl)

abbrev sample_overlay_message : OverlayStructureSchemeMessage
sample_overlay_message = record {
  t = hand_over;
  onid = 1;
  peer_information = peer 0;
  gamma_route = (2, peer 1 ∷ []) ∷ (5, []) ∷ [];
  gamma_receive = peer 6 ∷ [];
}

overlay_round_trip_example :
    deserialize_overlay (serialize_overlay sample_overlay_message ++ (9 ∷ []))
    ≡ ok (sample_overlay_message, 9 ∷ [])
overlay_round_trip_example = overlay_round_trip sample_overlay_message (9 ∷ []) (ground arith)

abbrev sample_aad : AadTuple
sample_aad = record {
  sender = peer 1;
  receiver = peer 2;
  round = 17;
  p_structure = sample_overlay_message ∷ [];
}

aad_round_trip_example : deserialize_aad (serialize_aad sample_aad ++ []) ≡ ok (sample_aad, [])
aad_round_trip_example = aad_round_trip sample_aad [] (ground arith)

abbrev sample_ciphertext : List ℕ
sample_ciphertext =
    header (1 ∷ 2 ∷ []) (3 ∷ []) (replicate 12 8) ++ (replicate 16 0 ++ (1 ∷ 2 ∷ []))

decrypt-encrypt_example : decrypt open_crypto (5 ∷ []) sample_ciphertext ≡ ok (1 ∷ 2 ∷ [], 3 ∷ [])
decrypt-encrypt_example =
    decrypt-encrypt open_crypto (replicate 12 8) (5 ∷ []) (1 ∷ 2 ∷ []) (3 ∷ []) sample_ciphertext
      open_crypto-IsLawful refl (omega arith) (omega arith) sealed
  where
    sealed :
        encrypt open_crypto (replicate 12 8) (5 ∷ []) (1 ∷ 2 ∷ []) (3 ∷ []) ≡ ok sample_ciphertext
    sealed = unfold encrypt in refl

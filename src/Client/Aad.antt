-- ===== src/Client/Aad.antt =====
-- client/trusted/structures/aad_tuple.h: the data that travels authenticated but in the clear.
use anonymous_communication.Base.{
  ℕ, ◌^◌, ◌<◌, List, ◌++◌, length, All, append_assoc, ok, ok-inj, ◌≡◌, ap, subst,
}
use anonymous_communication.Serial.{
  Serializable, Reader, ◌>>=◌, return, serialize_number, deserialize_number, serialize_vec,
  deserialize_vec,
}
use anonymous_communication.Serial.Number.{u64_round_trip}
use anonymous_communication.Serial.Bind.{read-eq-ok}
use anonymous_communication.Serial.Reads.{deserialize_number_bound}
use anonymous_communication.Serial.Vec.{vec_round_trip}
use anonymous_communication.Peer.{PeerInformation, serialize_peer, deserialize_peer, IsPeer}
use anonymous_communication.Peer.Typed.{FitsPeer, deserialize_peer-FitsPeer}
use anonymous_communication.Peer.Codec.{peer_round_trip}
use anonymous_communication.Overlay.{OverlayStructureSchemeMessage, overlay_serializable, IsOverlay}
use anonymous_communication.Overlay.Codec.{overlay_round_trip}

pub record AadTuple : Type 0 where
  pub sender : PeerInformation
  pub receiver : PeerInformation
  pub round : ℕ
  pub p_structure : List OverlayStructureSchemeMessage

unfoldable pub serialize_aad : AadTuple → List ℕ
serialize_aad a =
    serialize_peer a.sender
    ++ (serialize_peer a.receiver ++ (serialize_number 8 a.round ++ serialize_vec a.p_structure))

unfoldable pub deserialize_aad : Reader AadTuple
deserialize_aad = do
  sender ← deserialize_peer
  receiver ← deserialize_peer
  round ← deserialize_number 8
  structure_msg ← deserialize_vec
  return
      (record { sender = sender; receiver = receiver; round = round; p_structure = structure_msg })

instance abbrev pub aad_serializable : Serializable AadTuple
aad_serializable = record { serialize = serialize_aad; deserialize = deserialize_aad }

abbrev pub IsAad : AadTuple → Type 0
IsAad a =
    IsPeer a.sender
    × IsPeer a.receiver
    × (a.round < 2 ^ 31)
    × (length a.p_structure < 2 ^ 31)
    × All IsOverlay a.p_structure

-- Additional data whose numbers and lengths are below 2 ^ 31 and whose messages are valid comes
-- back from its bytes, and the bytes behind it are left.
pub aad_round_trip :
    (a : AadTuple) (rest : List ℕ)
    → IsAad a
    → deserialize_aad (serialize_aad a ++ rest) ≡ ok (a, rest)
unfolding serialize_aad deserialize_aad
aad_round_trip a rest (hs, hr, hl, hn, ho) = simp append_assoc (
    rw (
      peer_round_trip a.sender
          (serialize_peer a.receiver
            ++ (serialize_number 8 a.round ++ (serialize_vec a.p_structure ++ rest)))
          hs,
      peer_round_trip a.receiver
          (serialize_number 8 a.round ++ (serialize_vec a.p_structure ++ rest)) hr,
      u64_round_trip a.round (serialize_vec a.p_structure ++ rest) hl,
      vec_round_trip overlay_round_trip a.p_structure rest ho hn,
      ◌>>=◌,
    ))

-- Whatever the bytes are, additional data that is read has members that fit their types: peers with
-- numbers of 64 bits and addresses of four bytes, and a round of 64 bits.
pub deserialize_aad_typed :
    (a : AadTuple) (bytes rest : List ℕ)
    → deserialize_aad bytes ≡ ok (a, rest)
    → FitsPeer a.sender × FitsPeer a.receiver × (a.round < 2 ^ 64)
unfolding deserialize_aad
deserialize_aad_typed a bytes rest e =
    let (sender, m₁, r₁, e₁) = read-eq-ok _ deserialize_peer bytes e in
    let (receiver, m₂, r₂, e₂) = read-eq-ok _ deserialize_peer m₁ e₁ in
    let (round, m₃, r₃, e₃) = read-eq-ok _ (deserialize_number 8) m₂ e₂ in
    let (structure, m₄, r₄, e₄) = read-eq-ok _ deserialize_vec m₃ e₃ in
    subst (λ a. FitsPeer a.sender × FitsPeer a.receiver × (a.round < 2 ^ 64))
      (ap (λ r. r.0) (ok-inj e₄))
      (
        deserialize_peer-FitsPeer sender bytes m₁ r₁,
        deserialize_peer-FitsPeer receiver m₁ m₂ r₂,
        deserialize_number_bound 8 round m₂ m₃ r₃,
      )

-- ===== src/Peer/Codec.antt =====
-- Round trips of peers and of the pairs that `traffic_out` hands over.
use anonymous_communication.Base.{
  ℕ, ◌<◌, ◌^◌, List, [], ◌∷◌, ◌++◌, ok, ◌≡◌, refl, length, append_assoc, All,
}
use anonymous_communication.Serial.{◌>>=◌, serialize_number}
use anonymous_communication.Serial.Number.{u8_round_trip, u8_read, u64_round_trip}
use anonymous_communication.Peer.{
  Uri, PeerInformation, ReceiverBlobPair, serialize_uri, deserialize_uri, serialize_peer,
  deserialize_peer, serialize_pair, deserialize_pair, deserialize_bytes, IsUri, IsPeer, IsPair,
  uri_serializable, peer_serializable, pair_serializable,
}

pub uri_round_trip :
    (u : Uri) (rest : List ℕ) → IsUri u → deserialize_uri (serialize_uri u ++ rest) ≡ ok (u, rest)
unfolding serialize_uri deserialize_uri
uri_round_trip u rest (h1, h2, h3, h4, hp) = simp append_assoc (
    rw (
      u8_round_trip u.ip1
          (serialize_number 1 u.ip2
            ++ (serialize_number 1 u.ip3
                ++ (serialize_number 1 u.ip4 ++ (serialize_number 8 u.port ++ rest))))
          h1,
      u8_round_trip u.ip2
          (serialize_number 1 u.ip3
            ++ (serialize_number 1 u.ip4 ++ (serialize_number 8 u.port ++ rest)))
          h2,
      u8_round_trip u.ip3 (serialize_number 1 u.ip4 ++ (serialize_number 8 u.port ++ rest)) h3,
      u8_round_trip u.ip4 (serialize_number 8 u.port ++ rest) h4,
      u64_round_trip u.port rest hp,
      ◌>>=◌,
    ))

pub peer_round_trip :
    (p : PeerInformation) (rest : List ℕ)
    → IsPeer p
    → deserialize_peer (serialize_peer p ++ rest) ≡ ok (p, rest)
unfolding serialize_peer deserialize_peer
peer_round_trip p rest (h, hu) =
    simp append_assoc (
      rw (u64_round_trip p.id (serialize_uri p.uri ++ rest) h, uri_round_trip p.uri rest hu, ◌>>=◌))

bytes_round_trip :
    (bs rest : List ℕ)
    → All (λ b. b < 2 ^ 8) bs
    → deserialize_bytes (length bs) (bs ++ rest) ≡ ok (bs, rest)
unfolding deserialize_bytes
bytes_round_trip [] rest h = refl
bytes_round_trip (b ∷ bs) rest (h, hs) =
    rw (u8_read b (bs ++ rest) h, bytes_round_trip bs rest hs, ◌>>=◌)

-- A pair of a receiver and a payload comes back from its bytes, and the bytes behind it are left.
pub pair_round_trip :
    (p : ReceiverBlobPair) (rest : List ℕ)
    → IsPair p
    → deserialize_pair (serialize_pair p ++ rest) ≡ ok (p, rest)
unfolding serialize_pair deserialize_pair
pair_round_trip p rest (hp, small, hb) = simp append_assoc (
    rw (
      peer_round_trip p.i (serialize_number 8 (length p.payload) ++ (p.payload ++ rest)) hp,
      u64_round_trip (length p.payload) (p.payload ++ rest) small,
      bytes_round_trip p.payload rest hb,
      ◌>>=◌,
    ))

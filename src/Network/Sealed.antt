-- ===== src/Network/Sealed.antt =====
-- A message that is sealed by one enclave and opened by another.
use anonymous_communication.Base.{
  ℕ, ◌^◌, ◌<◌, ◌≤◌, true, List, [], ◌++◌, ok, ◌>>=◌, length, length-append, append-nil, ◌≡◌, arith,
  ◌==◌, ◌&&◌, false,
}
use anonymous_communication.Serial.{serialize_number}
use anonymous_communication.Serial.Number.{length-serialize_number}
use anonymous_communication.Peer.{PeerInformation, serialize_peer, serialize_uri}
use anonymous_communication.Crypt.{Primitives, IsLawful, iv_size, encrypt}
use anonymous_communication.Crypt.RoundTrip.{decrypt-encrypt}
use anonymous_communication.Client.{ClientEnclave}
use anonymous_communication.Client.Aad.{AadTuple, IsAad, serialize_aad, aad_round_trip}
use anonymous_communication.Client.TrafficIn.{traffic_in}
use anonymous_communication.Network.{reaction}

peer_not_empty : (p : PeerInformation) (rest : List ℕ) → 1 ≤ length (serialize_peer p ++ rest)
unfolding serialize_peer
peer_not_empty p rest = omega (
  arith,
  length-append (serialize_number 8 p.id) (serialize_uri p.uri),
  length-append (serialize_number 8 p.id ++ serialize_uri p.uri) rest,
  length-serialize_number 8 p.id,
)

aad_not_empty : (a : AadTuple) → 1 ≤ length (serialize_aad a)
unfolding serialize_aad
aad_not_empty a = peer_not_empty a.sender _

some_text :
    (a : AadTuple) (plain : List ℕ) → (length plain == 0 && length (serialize_aad a) == 0) ≡ false
some_text a plain = ground (arith, aad_not_empty a)

-- A message whose lengths fit opens under the same key, and its receiver reacts to the additional
-- data that was sealed and to the plaintext.
pub sealed_reaction :
    (crypto : Primitives) (iv plain c : List ℕ) (aad : AadTuple) (st : ClientEnclave)
    → IsLawful crypto
    → length iv ≡ iv_size
    → length plain < 2 ^ 32
    → length (serialize_aad aad) < 2 ^ 32
    → IsAad aad
    → st.initialized ≡ true
    → encrypt crypto iv st.sk_enc plain (serialize_aad aad) ≡ ok c
    → traffic_in crypto c st ≡ reaction crypto aad plain st
unfolding traffic_in
sealed_reaction crypto iv plain c aad st laws hiv hp ha valid on e =
    rw (on, decrypt-encrypt crypto iv st.sk_enc plain (serialize_aad aad) c laws hiv hp ha e, ◌>>=◌)
      (rw (some_text aad plain, rw append-nil at (aad_round_trip aad [] valid), ◌>>=◌))

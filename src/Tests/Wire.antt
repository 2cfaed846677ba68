-- ===== src/Tests/Wire.antt =====
-- Messages from one node to others, on concrete outputs of a round.
use anonymous_communication.Base.{
  ℕ, ◌<◌, ◌^◌, Bool, true, ◌&&◌, List, [], ◌∷◌, ok, ◌==◌, if◌then◌else◌, ◌≡◌, refl, arith, ltb,
  ltb→lt, Bool-cases, inl, inr, replicate, length, All,
}
use anonymous_communication.Serial.{serialize_vec, serialize_elems, serialize_number}
use anonymous_communication.Peer.{
  peer_less, ReceiverBlobPair, peer_lt, uri_lt, peer_eq, uri_eq, serialize_peer, serialize_uri,
  IsPair, IsPeer,
}
use anonymous_communication.Message.{
  create_dummy, serialize_tuple, serialize_pseudonym, serialize_message,
}
use anonymous_communication.Crypt.{encrypt}
use anonymous_communication.Client.{ClientEnclave}
use anonymous_communication.Client.Aad.{serialize_aad}
use anonymous_communication.Client.TrafficIn.{traffic_in, check_round}
use anonymous_communication.Client.TrafficOut.{Outputs, plain_for, aad_for}
use anonymous_communication.Client.Mailbox.{mail}
use anonymous_communication.Network.{aad_of, only_dummy}
use anonymous_communication.Network.Arrival.{Fits}
use anonymous_communication.Network.Mail.{
  IsNew, with_maintenance, dummy_hides_rest, maintenance_arrives,
}
use anonymous_communication.Std.{find_or, set_count, set_insert}
use anonymous_communication.Overlay.{
  serialize_overlay, serialize_gamma, OverlayStructureSchemeMessage, hand_over,
}
use anonymous_communication.Tests.Samples.{
  peer, open_crypto, open_crypto-IsLawful, sample_client, sample_message, sample_tuple,
}

-- An overlay message and a delivery for `peer 1`, whose announcements are padded, and nothing for
-- `peer 2`.
abbrev hand_over_message : OverlayStructureSchemeMessage
hand_over_message = record {
  t = hand_over;
  onid = 1;
  peer_information = peer 0;
  gamma_route = [];
  gamma_receive = [];
}

abbrev outputs : Outputs
outputs = record {
  out_announce = (peer 1, create_dummy (sample_message 0) ∷ []) ∷ [];
  out_agreement = [];
  out_inject = [];
  out_routing = [];
  out_predeliver = [];
  out_deliver = (peer 1, sample_tuple 3 400 ∷ []) ∷ [];
  out_structure = (peer 1, hand_over_message ∷ []) ∷ [];
}

abbrev pub is_short : List ℕ → Bool
is_short bytes = ltb (length bytes) (2 ^ 32)

short_one : is_short (plain_for outputs (peer 1)) ≡ true
unfolding plain_for find_or peer_lt uri_lt serialize_vec serialize_elems serialize_number
    serialize_tuple serialize_pseudonym serialize_message create_dummy
short_one = refl

short_data : is_short (aad_for sample_client outputs (peer 1)) ≡ true
unfolding aad_for serialize_aad find_or peer_lt uri_lt serialize_vec serialize_elems
    serialize_number serialize_peer serialize_uri serialize_overlay serialize_gamma
short_data = refl

Fits-one : Fits sample_client outputs (peer 1)
unfolding find_or peer_lt uri_lt
Fits-one = (
  ltb→lt _ _ short_one,
  ltb→lt _ _ short_data,
  (
    omega arith,
    omega arith,
    omega arith,
    omega arith,
    ((refl, omega arith, omega arith, omega arith, omega arith, tt, tt, omega arith, tt), tt),
  ),
)

-- The cipher hides nothing, so that the ciphertext has the lengths, the vector, the data, the tag
-- and the plaintext.
sealed_one :
    (c : List ℕ) × (encrypt open_crypto
        (replicate 12 0)
        (2 ∷ [])
        (plain_for outputs (peer 1))
        (aad_for sample_client outputs (peer 1))
      ≡ ok c)
unfolding encrypt
sealed_one = (_, refl)

-- The next round of the network, to which `peer 1` has come already.
abbrev receiver : ClientEnclave
receiver = record sample_client { own_id = peer 1; cur_round = 5 }

padded : find_or (peer 1) [] outputs.out_announce ≡ create_dummy (sample_message 0) ∷ []
unfolding find_or peer_lt uri_lt
padded = refl

dummy_hides_rest_example :
    traffic_in open_crypto (sealed_one.0) receiver
    ≡ check_round open_crypto
        (aad_of sample_client outputs (peer 1))
        (only_dummy (sample_message 0))
        receiver
dummy_hides_rest_example =
    dummy_hides_rest open_crypto (replicate 12 0) (sealed_one.0) sample_client outputs (peer 1)
      (sample_message 0) receiver open_crypto-IsLawful refl Fits-one padded refl refl refl
      (sealed_one.1)

is_new : IsNew (aad_of sample_client outputs (peer 1)) receiver
unfolding peer_eq uri_eq set_count set_insert
is_new = record {
  mine = refl;
  current = omega arith;
  near = omega arith;
  fits = omega arith;
  fresh = refl;
  few = omega arith;
}

maintenance_arrives_example :
    (receiver' : ClientEnclave) × (traffic_in open_crypto (sealed_one.0) receiver ≡ ok receiver')
    × ((round : ℕ)
        → mail receiver' round ≡ (
            if round == 5
            then with_maintenance
                (aad_of sample_client outputs (peer 1))
                (sample_message 0)
                (mail receiver 5)
            else mail receiver round))
maintenance_arrives_example =
    maintenance_arrives open_crypto (replicate 12 0) (sealed_one.0) sample_client outputs (peer 1)
      (sample_message 0) receiver open_crypto-IsLawful refl Fits-one padded refl refl refl is_new
      (sealed_one.1)

unfoldable pub all_bytes : List ℕ → Bool
all_bytes [] = true
all_bytes (b ∷ bs) = ltb b (2 ^ 8) && all_bytes bs

all_bytes_sound : (bs : List ℕ) → all_bytes bs ≡ true → All (λ b. b < 2 ^ 8) bs
unfolding all_bytes
all_bytes_sound [] h = tt
all_bytes_sound (b ∷ bs) h = elim (Bool-cases (ltb b (2 ^ 8))) [
  | inl e ↦ (ltb→lt b (2 ^ 8) e, all_bytes_sound bs (rw e at h))
  | inr e ↦ cc (rw e at h)
]

unfoldable pub all_pairs : List ReceiverBlobPair → Bool
unfolding all_bytes
all_pairs [] = true
all_pairs (p ∷ ps) = ltb (length p.payload) (2 ^ 31) && all_bytes p.payload && all_pairs ps

pub all_pairs_sound :
    (ps : List ReceiverBlobPair)
    → all_pairs ps ≡ true
    → All (λ (p : ReceiverBlobPair). IsPeer p.i) ps
    → All IsPair ps
unfolding all_pairs
all_pairs_sound [] h w = tt
all_pairs_sound (p ∷ ps) h (v, w) = elim (Bool-cases (ltb (length p.payload) (2 ^ 31))) [
  | inr e ↦ cc (rw e at h)
  | inl e ↦ elim (Bool-cases (all_bytes p.payload)) [
    | inr d ↦ cc (rw (e, d) at h)
    | inl d ↦ (
      (v, ltb→lt (length p.payload) (2 ^ 31) e, all_bytes_sound p.payload d),
      all_pairs_sound ps (rw (e, d) at h) w,
    )
  ]
]

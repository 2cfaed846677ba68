-- ===== src/Tests/Traffic.antt =====
-- A round of one node that reaches two others.
use anonymous_communication.Base.{
  ℕ, true, List, [], ◌∷◌, some, ok, ◌≡◌, refl, arith, ltb→lt, length, length-replicate, map, All,
}
use anonymous_communication.Std.{find_or, update as map_update}
use anonymous_communication.Config.{calculate_agreement_time, calculate_subround_from_t}
use anonymous_communication.Serial.{serialize_vec, serialize_elems, serialize_number}
use anonymous_communication.Peer.{
  ReceiverBlobPair, peer_lt, uri_lt, peer_eq, uri_eq, serialize_peer, serialize_uri, IsPeer,
}
use anonymous_communication.Message.{
  MessageTuple, dummy_pseudonym, create_dummy, bytes_eq, serialize_tuple, serialize_pseudonym,
  serialize_message,
}
use anonymous_communication.Overlay.{serialize_overlay, serialize_gamma}
use anonymous_communication.Overlay.Phases.{push_absent, contains, receive_all, forward_all, merge}
use anonymous_communication.Overlay.Update.{update as overlay_update, run_phases, routes}
use anonymous_communication.Vote.{obtain_elements_that_exceed_m_corrupt, count_elems, exceeding}
use anonymous_communication.Routing.{
  route, determine_elements_to_be_cancelled, sort, mark_all, route_loop,
}
use anonymous_communication.Crypt.{encrypt, header}
use anonymous_communication.Client.{ClientEnclave}
use anonymous_communication.Client.Aad.{serialize_aad}
use anonymous_communication.Client.Pseudonyms.{get_time}
use anonymous_communication.Client.Agreements.{
  agreements, update_all, finalize_all, remove_finished,
}
use anonymous_communication.Client.Outgoing.{
  announce_due, received_routing, concat, handed_to_route, inject_all, route_all, predeliver,
  deliver, pad_all, pad_gamma, pad_one,
}
use anonymous_communication.Client.TrafficOut.{
  Outputs, pad, next_round, maintain, run_schemes, receivers, add_peers, seal_all, shift, plain_for,
  aad_for,
}
use anonymous_communication.Untrusted.Sockets.{NetworkManager, SocketCall, address}
use anonymous_communication.Untrusted.Delivery.{arrivals}
use anonymous_communication.Untrusted.Node.{Node, Turn, take_incoming, call_traffic_out}
use anonymous_communication.Network.Arrival.{Fits, node_reaction}
use anonymous_communication.Network.Round.{prepare, round_reaches_nodes}
use anonymous_communication.Tests.Wire.{is_short, all_bytes, all_pairs, all_pairs_sound}
use anonymous_communication.Tests.Samples.{
  peer, is_ok, outcome, sample_turn, open_crypto, open_crypto-IsLawful, sample_client,
  sample_overlay, sample_outside, sample_message,
}

-- A node that sends to `peer 1` and delivers to `peer 2`.
abbrev sender : ClientEnclave
sender = record sample_client { overlay_structure_scheme = sample_overlay }

abbrev dummy : MessageTuple
dummy = record { n_src = dummy_pseudonym; m = sample_message 0; n_dst = dummy_pseudonym; t_dst = 0 }

abbrev dummies : Outputs
dummies = record {
  out_announce = (peer 1, dummy ∷ []) ∷ [];
  out_agreement = [];
  out_inject = [];
  out_routing = [];
  out_predeliver = [];
  out_deliver = (peer 2, dummy ∷ dummy ∷ []) ∷ [];
  out_structure = [];
}

abbrev begun : ClientEnclave
begun = record sender { cur_round = 5; gamma_agree_for_round = [] ∷ [] }

round_prepared : prepare sample_outside (record sender { cur_round = 5 }) ≡ ok (dummies, begun)
round_prepared =
    unfold prepare maintain overlay_update run_phases receive_all forward_all routes merge
      calculate_agreement_time run_schemes announce_due agreements update_all finalize_all
      remove_finished received_routing concat obtain_elements_that_exceed_m_corrupt count_elems
      exceeding handed_to_route inject_all route determine_elements_to_be_cancelled sort mark_all
      route_loop route_all predeliver deliver pad pad_all pad_gamma pad_one map_update find_or
      create_dummy in
    refl

two_receivers : receivers dummies ≡ peer 1 ∷ peer 2 ∷ []
unfolding receivers add_peers push_absent contains peer_eq uri_eq
two_receivers = refl

abbrev FitsIn : ℕ → Type 0
FitsIn n =
    (is_short (plain_for dummies (peer n)) ≡ true)
    × (is_short (aad_for begun dummies (peer n)) ≡ true)

first_short : FitsIn 1
unfolding plain_for aad_for serialize_aad find_or peer_lt uri_lt serialize_vec serialize_elems
    serialize_number serialize_tuple serialize_pseudonym serialize_message serialize_peer
    serialize_uri
first_short = (refl, refl)

second_short : FitsIn 2
unfolding plain_for aad_for serialize_aad find_or peer_lt uri_lt serialize_vec serialize_elems
    serialize_number serialize_tuple serialize_pseudonym serialize_message serialize_peer
    serialize_uri
second_short = (refl, refl)

Fits-both : All (Fits begun dummies) (peer 1 ∷ peer 2 ∷ [])
unfolding find_or
Fits-both = (
  (
    ltb→lt _ _ (first_short.0),
    ltb→lt _ _ (first_short.1),
    (omega arith, omega arith, omega arith, omega arith, tt),
  ),
  (
    (
      ltb→lt _ _ (second_short.0),
      ltb→lt _ _ (second_short.1),
      (omega arith, omega arith, omega arith, omega arith, tt),
    ),
    tt,
  ),
)

sealed_round :
    (pairs : List ReceiverBlobPair) × (seal_all sample_outside begun dummies 0
        (peer 1 ∷ peer 2 ∷ [])
      ≡ ok pairs)
unfolding outcome is_ok seal_all encrypt
sealed_round = outcome (seal_all sample_outside begun dummies 0 (peer 1 ∷ peer 2 ∷ [])) refl

sealed_bytes : all_pairs (sealed_round.0) ≡ true
unfolding all_pairs all_bytes sealed_round seal_all encrypt header plain_for aad_for serialize_aad
    find_or peer_lt uri_lt serialize_vec serialize_elems serialize_number serialize_tuple
    serialize_pseudonym serialize_message serialize_peer serialize_uri serialize_overlay
    serialize_gamma
sealed_bytes = refl

sealed_peers : All (λ (p : ReceiverBlobPair). IsPeer p.i) (sealed_round.0)
unfolding sealed_round seal_all encrypt
sealed_peers = ((omega arith, omega arith), ((omega arith, omega arith), tt))

sealed_uris : All (λ (p : ReceiverBlobPair). p.i.uri ≡ (peer p.i.id).uri) (sealed_round.0)
unfolding sealed_round seal_all encrypt
sealed_uris = (refl, (refl, tt))

two_sealed : length (sealed_round.0) ≡ 2
unfolding sealed_round seal_all encrypt
two_sealed = refl

abbrev due_turn : Turn
due_turn = record sample_turn { due = true; out_clock = some (160, 7 ∷ []) }

abbrev network : NetworkManager
network = record { peers = []; initialized = true; in_port = 5000 }

-- The other nodes are in the round that is sent for.
abbrev node_at : List ℕ → Node
node_at to = record {
  network = network;
  enclave = record sample_client { own_id = peer 1; cur_round = 6 };
}

abbrev turn_at : List ℕ → Turn
turn_at to = sample_turn

sender_time : get_time sender (some (160, 7 ∷ [])) ≡ ok 60
unfolding get_time bytes_eq
sender_time = refl

sender_round : next_round 60 4 ≡ ok (some 5)
unfolding next_round calculate_subround_from_t
sender_round = refl

round_reaches_nodes_example :
    (calls : List SocketCall) × (network' : NetworkManager) × (call_traffic_out due_turn
        (record { network = network; enclave = sender })
      ≡ ok (calls, record { network = network'; enclave = shift begun }))
    × (map (λ a. take_incoming (turn_at (a.0)) (node_at (a.0)) (a.1)) (arrivals [] calls)
        ≡ map
            (λ i. node_reaction open_crypto begun dummies i (node_at (address i.uri)))
            (receivers dummies))
unfolding receivers add_peers push_absent contains peer_eq uri_eq
round_reaches_nodes_example =
    round_reaches_nodes due_turn (record { network = network; enclave = sender }) dummies begun
      turn_at node_at open_crypto-IsLawful (λ k. length-replicate 12 k)
      (λ to. (refl, refl, refl, refl)) 60 5 (λ id. (peer id).uri) (sealed_round.0) refl refl
      sender_time sender_round round_prepared (sealed_round.1) Fits-both tt sealed_uris
      (all_pairs_sound (sealed_round.0) sealed_bytes sealed_peers) (omega (arith, two_sealed))

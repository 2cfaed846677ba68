-- ===== src/Tests/Mailboxes.antt =====
-- The mailboxes of the client enclave on concrete states.
use anonymous_communication.Base.{
  ℕ, ◌≤◌, ◌<◌, false, ◌≡◌, List, [], ◌∷◌, some, none, ok, refl, arith, replicate, length, ◌++◌,
}
use anonymous_communication.Std.{nat_less, find_or, set_count, set_insert, set_insert_all}
use anonymous_communication.Config.{calculate_agreement_time, calculate_subround_from_t}
use anonymous_communication.Serial.{
  serialize_vec, serialize_elems, serialize_number, deserialize_number, deserialize_loop,
  deserialize_vec, deserialize_elems,
}
use anonymous_communication.Peer.{
  peer_less, pair_serializable, ReceiverBlobPair, peer_eq, uri_eq, peer_lt, uri_lt, serialize_peer,
  serialize_uri, deserialize_peer, deserialize_uri,
}
use anonymous_communication.Message.{bytes_eq}
use anonymous_communication.Overlay.Phases.{receive_all, forward_all, merge}
use anonymous_communication.Overlay.Update.{update as overlay_update, run_phases, routes}
use anonymous_communication.Vote.{obtain_elements_that_exceed_m_corrupt, count_elems, exceeding}
use anonymous_communication.Routing.{
  route, determine_elements_to_be_cancelled, sort, mark_all, route_loop,
}
use anonymous_communication.Crypt.{header, decrypt, slice}
use anonymous_communication.Client.{ClientEnclave, empty_inbox}
use anonymous_communication.Client.Aad.{AadTuple, serialize_aad, deserialize_aad}
use anonymous_communication.Client.Pseudonyms.{get_time}
use anonymous_communication.Client.TrafficIn.{
  Plain, deserialize_plain, check_round, traffic_in, admit, store, deliver_box,
}
use anonymous_communication.Client.Agreements.{
  agreements, update_all, finalize_all, remove_finished,
}
use anonymous_communication.Client.Outgoing.{
  announce_due, received_routing, concat, handed_to_route, inject_all, route_all, predeliver,
  deliver, pad_all, pad_gamma, announce_due,
}
use anonymous_communication.Client.TrafficOut.{
  pad, traffic_out, next_round, run_round, maintain, run_schemes, receivers, add_peers, seal_all,
  shift,
}
use anonymous_communication.Client.Rounds.{traffic_out_once}
use anonymous_communication.Client.Replay.{replay_ignored, replay_after_delivery}
use anonymous_communication.Client.Mailbox.{Delivery, traffic_in_refines}
use anonymous_communication.Tests.Samples.{
  peer, sample_tuple, open_crypto, sample_client, sample_outside,
}

abbrev after_round : ClientEnclave
after_round = record sample_client { cur_round = 5; gamma_agree_for_round = [] ∷ [] }

round_run :
    traffic_out sample_outside (some (160, 7 ∷ [])) sample_client
    ≡ ok (some (serialize_vec {A = ReceiverBlobPair} []), after_round)
round_run =
    unfold traffic_out get_time bytes_eq next_round calculate_subround_from_t run_round maintain
      overlay_update run_phases receive_all forward_all routes merge calculate_agreement_time
      run_schemes announce_due agreements update_all finalize_all remove_finished received_routing
      concat obtain_elements_that_exceed_m_corrupt count_elems exceeding handed_to_route inject_all
      route determine_elements_to_be_cancelled sort mark_all route_loop route_all predeliver deliver
      pad pad_all pad_gamma find_or receivers add_peers seal_all shift in
    refl

traffic_out_once_example :
    (after_round.cur_round ≡ 5)
    × (after_round.in_now ≡ empty_inbox)
    × (after_round.in_next ≡ empty_inbox)
    × (traffic_out sample_outside (some (160, 7 ∷ [])) after_round ≡ ok (none, after_round))
traffic_out_once_example =
    traffic_out_once sample_outside (some (160, 7 ∷ [])) sample_client after_round
      (serialize_vec {A = ReceiverBlobPair} []) round_run

abbrev nothing : Plain
nothing = record {
  p_announce = [];
  p_agreement = [];
  p_inject = [];
  p_routing = [];
  p_predeliver = [];
  p_deliver = [];
}

abbrev from_peer : AadTuple
from_peer = record { sender = peer 1; receiver = peer 0; round = 5; p_structure = [] }

abbrev heard : ClientEnclave
heard = record sample_client { in_next = record empty_inbox { received_from = peer 1 ∷ [] } }

replay_ignored_example : admit open_crypto false from_peer nothing heard ≡ ok heard
replay_ignored_example =
    replay_ignored open_crypto false from_peer from_peer nothing nothing sample_client heard refl
      fresh few run
  where
    fresh : set_count (peer 1) [] ≡ false
    fresh = unfold set_count in refl

    few : length (set_insert (peer 1) []) ≤ 1
    few = unfold set_insert in omega arith

    run : admit open_crypto false from_peer nothing sample_client ≡ ok heard
    run = unfold admit deliver_box store set_count set_insert set_insert_all in refl

-- A client that has heard `peer 2` already, before and after a message of `peer 1`.
abbrev half_heard : ClientEnclave
half_heard = record sample_client { in_next = record empty_inbox { received_from = peer 2 ∷ [] } }

abbrev announcing : Plain
announcing = record nothing { p_announce = sample_tuple 1 240 ∷ [] }

abbrev all_heard : ClientEnclave
all_heard = record sample_client {
  in_next = record empty_inbox { in_announce = sample_tuple 1 240 ∷ [] };
}

replay_after_delivery_example :
    (st'' : ClientEnclave) × (admit open_crypto false from_peer announcing all_heard ≡ ok st'')
    × (st''.in_next.in_announce ≡ sample_tuple 1 240 ∷ sample_tuple 1 240 ∷ [])
    × (st''.in_next.received_from ≡ peer 1 ∷ [])
replay_after_delivery_example =
    replay_after_delivery open_crypto false from_peer announcing half_heard all_heard fresh many
      (omega arith) run
  where
    fresh : set_count (peer 1) (peer 2 ∷ []) ≡ false
    fresh = unfold set_count peer_lt uri_lt in refl

    many : 1 < length (set_insert (peer 1) (peer 2 ∷ []))
    many = unfold set_insert peer_lt uri_lt in omega arith

    run : admit open_crypto false from_peer announcing half_heard ≡ ok all_heard
    run = unfold admit deliver_box store set_count set_insert set_insert_all peer_lt uri_lt in refl

-- What `peer 1` sends to `peer 0` for round 5: six empty vectors, and the data in the clear.
abbrev sealed : List ℕ
sealed =
    header (replicate 48 0) (serialize_aad from_peer) (replicate 12 0)
    ++ (replicate 16 0 ++ replicate 48 0)

traffic_in_refines_example : Delivery open_crypto sealed sample_client heard
traffic_in_refines_example = traffic_in_refines open_crypto sealed sample_client heard run
  where
    run : traffic_in open_crypto sealed sample_client ≡ ok heard
    run =
        unfold traffic_in decrypt header slice serialize_number deserialize_number deserialize_loop
          serialize_aad serialize_peer serialize_uri serialize_vec serialize_elems deserialize_aad
          deserialize_peer deserialize_uri deserialize_vec deserialize_elems deserialize_plain
          check_round peer_eq uri_eq admit deliver_box store set_count set_insert set_insert_all in
        refl

-- ===== src/Tests/Enclaves.antt =====
-- The rounds of the client enclave and the server enclave on concrete states.
use anonymous_communication.Base.{
  ℕ, ◌*◌, true, false, ◌≡◌, List, [], ◌∷◌, some, ok, refl, arith, replicate, length, All, get_elem?,
  ◌+u64◌,
}
use anonymous_communication.Std.{
  nat_less, find_or, update as map_update, set_insert, set_insert_all,
}
use anonymous_communication.Config.{
  a_max, k_send, k_recv, calculate_agreement_time, calculate_routing_time,
}
use anonymous_communication.Peer.{PeerInformation, peer_less, peer_lt, uri_lt, pair_serializable}
use anonymous_communication.Message.{is_due, MessageTuple, create_dummy, dummy_pseudonym}
use anonymous_communication.Message.Schemes.{dummy_routing}
use anonymous_communication.Overlay.{OverlayReturnTuple, OverlayStructureScheme}
use anonymous_communication.Overlay.Update.{init as overlay_init}
use anonymous_communication.Neighbors.{for_all_neighbors, flipped}
use anonymous_communication.Agreement.{new_scheme, update, pairs}
use anonymous_communication.Vote.{obtain_elements_that_exceed_m_corrupt, count_elems, exceeding}
use anonymous_communication.Routing.{
  route, determine_elements_to_be_cancelled, sort, mark_all, route_loop,
}
use anonymous_communication.Client.{ClientEnclave, AgreementLocalTuple}
use anonymous_communication.Client.Agreements.{
  emplace, emplace_all, agreements, update_all, update_tuple, supporters, emplace_pairs, emplace,
  finalize_all, finalize_tuple, remove_finished,
}
use anonymous_communication.Client.Outgoing.{
  announce_due, pad_one, received_routing, concat, handed_to_route, inject_all, route_all,
  predeliver, deliver, pad_all, pad_one, pad_gamma, announce_due,
}
use anonymous_communication.Client.TrafficOut.{Outputs, pad, run_schemes}
use anonymous_communication.Client.Sorted.{round_uniform}
use anonymous_communication.Client.Bounds.{agreements_keep_rounds, IsRunning}
use anonymous_communication.Client.Start.{InitData}
use anonymous_communication.Server.Partition.{associate_partitions, append_all}
use anonymous_communication.Server.{
  associate, num_quorum_nodes, Keys, init_message, neighbor_routes,
}
use anonymous_communication.Server.Quorums.{init_message_accepted}
use anonymous_communication.Tests.Samples.{
  peer, sample_tuple, sample_message, open_crypto, sample_overlay, sample_client, sample_outside,
}

abbrev sample_result : OverlayReturnTuple
sample_result = record {
  onid_emul = 0;
  gamma_agree = [];
  gamma_send = peer 1 ∷ [];
  gamma_route = [];
  gamma_receive = peer 2 ∷ [];
  s_overlay_prime = [];
}

-- A client with a message that is due.
abbrev ready : ClientEnclave
ready = record sample_client { q_out = sample_tuple 1 240 ∷ [] }

abbrev sample_outputs : Outputs
sample_outputs = record {
  out_announce = (peer 1, sample_tuple 1 240 ∷ []) ∷ [];
  out_agreement = [];
  out_inject = [];
  out_routing = [];
  out_predeliver = [];
  out_deliver = [];
  out_structure = [];
}

abbrev sample_dummy : MessageTuple
sample_dummy = record {
  n_src = dummy_pseudonym;
  m = sample_message 0;
  n_dst = dummy_pseudonym;
  t_dst = 0;
}

abbrev padded_outputs : Outputs
padded_outputs = record sample_outputs {
  out_deliver = (peer 2, sample_dummy ∷ sample_dummy ∷ []) ∷ [];
}

round_uniform_example :
    All (λ p. length (find_or p [] padded_outputs.out_announce) ≡ k_send * a_max) (peer 1 ∷ [])
    × All (λ p. length (find_or p [] padded_outputs.out_deliver) ≡ k_recv * a_max) (peer 2 ∷ [])
    × All
        (λ p. length (find_or p [] padded_outputs.out_predeliver) ≡ k_recv * a_max * 1)
        (find_or 0 [] sample_result.gamma_route)
round_uniform_example =
    round_uniform sample_outside sample_result ready sample_client sample_outputs padded_outputs ran
      padded
  where
    ran : run_schemes sample_outside sample_result ready ≡ ok (sample_outputs, sample_client)
    ran =
        unfold run_schemes announce_due is_due calculate_agreement_time calculate_routing_time
          emplace_all emplace map_update agreements update_all finalize_all remove_finished
          received_routing concat obtain_elements_that_exceed_m_corrupt count_elems exceeding
          handed_to_route inject_all route determine_elements_to_be_cancelled sort mark_all
          route_loop route_all predeliver deliver find_or in
        refl

    padded : pad sample_outside sample_result sample_client sample_outputs ≡ ok padded_outputs
    padded =
        unfold pad pad_all pad_one pad_gamma find_or map_update peer_lt uri_lt create_dummy
          dummy_routing in
        refl

-- A client that takes part in the agreement on one message.
abbrev sample_run : AgreementLocalTuple
sample_run = record {
  message = sample_tuple 1 400;
  aware = true;
  agreement_scheme = new_scheme;
  participating_nodes = peer 1 ∷ [];
  round = 0;
}

abbrev agreeing : ClientEnclave
agreeing = record sample_client { agreement_tuples = sample_run ∷ [] }

abbrev next_run : AgreementLocalTuple
next_run = record sample_run {
  aware = false;
  agreement_scheme = record { set_s_i = peer 0 ∷ [] };
  round = 1;
}

agreements_keep_rounds_example : All (IsRunning 3) (next_run ∷ [])
agreements_keep_rounds_example =
    agreements_keep_rounds open_crypto [] agreeing (next_run ∷ [])
      ((peer 1, record { m = sample_tuple 1 400; s = peer 0; l = 2 } ∷ []) ∷ []) [] (omega arith)
      running run
  where
    running : All (IsRunning 3) (sample_run ∷ [])
    running = unfold calculate_agreement_time in (omega arith, tt)

    run :
        agreements open_crypto [] agreeing
        ≡ ok (
          next_run ∷ [],
          (peer 1, record { m = sample_tuple 1 400; s = peer 0; l = 2 } ∷ []) ∷ [],
          [],
        )
    run =
        unfold agreements update_all update_tuple update pairs set_insert set_insert_all supporters
          emplace_pairs emplace map_update finalize_all finalize_tuple remove_finished
          calculate_agreement_time in
        refl

abbrev quorums : List (List PeerInformation)
quorums =
    (peer 0 ∷ [])
    ∷ (peer 1 ∷ [])
    ∷ (peer 2 ∷ [])
    ∷ (peer 3 ∷ [])
    ∷ (peer 4 ∷ [])
    ∷ (peer 5 ∷ [])
    ∷ (peer 6 ∷ [])
    ∷ (peer 7 ∷ [])
    ∷ []

abbrev sample_init : InitData
sample_init = record {
  receiver_id = 0;
  num_total_nodes = 81;
  overlay_dimension = 3;
  onid_assoc = 2;
  onid_emul = 1;
  gamma_send = peer 2 ∷ [];
  gamma_receive = peer 1 ∷ [];
  gamma_route = (0, peer 0 ∷ []) ∷ (1, peer 1 ∷ []) ∷ (3, peer 3 ∷ []) ∷ (5, peer 5 ∷ []) ∷ [];
  sk_pseud = 1 ∷ [];
  sk_enc = 2 ∷ [];
  sk_routing = 3 ∷ [];
}

abbrev sample_keys : Keys
sample_keys = record { sk_pseud = 1 ∷ []; sk_enc = 2 ∷ []; sk_routing = 3 ∷ [] }

init_message_accepted_example :
    (peers : List PeerInformation) × (get_elem? quorums 1 ≡ some peers)
    × (st' : OverlayStructureScheme) × (overlay_init sample_overlay 2 1 sample_init.gamma_send
          sample_init.gamma_receive sample_init.gamma_route 3
          (3 +u64 7)
          (peer 0)
        ≡ ok st')
    × (st'.gamma_agree ≡ peers)
init_message_accepted_example =
    init_message_accepted sample_keys quorums quorums (peer 0) 2 1 sample_init sample_overlay
      (peer 0) run
  where
    run : init_message sample_keys quorums quorums (peer 0) 2 1 ≡ ok sample_init
    run = unfold init_message for_all_neighbors flipped neighbor_routes map_update in refl

associate_partitions_example :
    (parts : List (List PeerInformation)) × (assoc : List ℕ) × (associate num_quorum_nodes 0
        (replicate 81 (peer 1))
        []
      ≡ ok (parts, assoc))
    × (append_all parts ≡ replicate 81 (peer 1))
associate_partitions_example = associate_partitions (replicate 81 (peer 1)) [] refl

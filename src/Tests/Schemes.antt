-- ===== src/Tests/Schemes.antt =====
-- The schemes on concrete inputs.
use anonymous_communication.Base.{
  ℕ, ◌+◌, ◌*◌, true, ◌≡◌, ◌↔◌, List, [], ◌∷◌, Result, ok, refl, arith, if◌then◌else◌, ltb, ◌==◌,
  ◌-◌, inr, All, map,
}
use anonymous_communication.Base.Bits.{bit_at}
use anonymous_communication.Std.{set_count, set_insert}
use anonymous_communication.Std.Order.{bytes_lt}
use anonymous_communication.Config.{
  calculate_agreement_time, calculate_routing_time, calculate_round_from_t,
}
use anonymous_communication.Message.{
  Pseudonym, tuple_lt, pseudonym_lt, create_cancel, pseudonym_eq, bytes_eq, MessageTuple,
  tuple_less, is_due, is_cancel,
}
use anonymous_communication.Message.Schemes.{routing_lt, RoutingSchemeTuple}
use anonymous_communication.Message.Order.{tuple_lt-IsWeak}
use anonymous_communication.Message.Due.{is_due_iff}
use anonymous_communication.Vote.{obtain_elements_that_exceed_m_corrupt, count_same}
use anonymous_communication.Vote.Majority.{vote_counts}
use anonymous_communication.Vote.Tuples.{vote_one_class}
use anonymous_communication.Peer.{PeerInformation, peer_less}
use anonymous_communication.Agreement.Quorum.{Participant, rounds, beginner}
use anonymous_communication.Agreement.Quorum.Missed.{late_nodes_miss_aware}
use anonymous_communication.Routing.{
  determine_elements_to_be_cancelled, sort, insert_sorted, mark_loop, mark_one, cancel_of,
  route_loop, route, route_one, mark_all, same_bucket,
}
use anonymous_communication.Routing.Step.{route_returns_nothing, route_one_window, next_bit}
use anonymous_communication.Routing.Cancel.{mark_all_front}
use anonymous_communication.Overlay.Hop.{hops, hops_arrive}
use anonymous_communication.Overlay.{OverlayStructureScheme}
use anonymous_communication.Overlay.Introductions.{AreOther, update_never_introduces}
use anonymous_communication.Overlay.Laws.{update_keeps_gamma_receive}
use anonymous_communication.Overlay.Update.{update as overlay_update}
use anonymous_communication.Tests.Samples.{
  peer, sample_tuple, sample_message, sample_routing, sample_overlay,
}

abbrev votes : List MessageTuple
votes = sample_tuple 1 400 ∷ sample_tuple 1 412 ∷ sample_tuple 1 400 ∷ []

vote_counts_example :
    set_count (sample_tuple 1 400) (obtain_elements_that_exceed_m_corrupt 1 votes)
    ≡ ltb 1 (count_same (sample_tuple 1 400) votes)
vote_counts_example = vote_counts tuple_lt-IsWeak (sample_tuple 1 400) 1 votes

vote_one_class_example :
    obtain_elements_that_exceed_m_corrupt 1 (sample_tuple 1 400 ∷ sample_tuple 2 400 ∷ [])
    ≡ sample_tuple 1 400 ∷ []
vote_one_class_example = vote_one_class (sample_tuple 1 400) 1 (sample_tuple 2 400 ∷ []) (refl, tt)

-- A cancel message whose round is past.
abbrev cancelled : RoutingSchemeTuple
cancelled = record (sample_routing 1 3) { m = sample_tuple 1 1 }

abbrev sample_target : Pseudonym → ℕ → Result ℕ
sample_target bucket l = ok 5

route_returns_nothing_example : ◌≡◌ {A = List RoutingSchemeTuple} [] []
route_returns_nothing_example =
    route_returns_nothing 10 3 (omega arith) (omega arith) sample_target (sample_message 0)
      (cancelled ∷ []) [] (inr (omega arith), tt) run
  where
    run : route sample_target (sample_message 0) 10 3 (cancelled ∷ []) ≡ ok []
    run =
        unfold route determine_elements_to_be_cancelled sort insert_sorted mark_all mark_loop
          mark_one same_bucket is_cancel cancel_of route_loop set_insert set_count routing_lt
          tuple_lt pseudonym_lt bytes_lt create_cancel pseudonym_eq bytes_eq in
        refl

route_one_window_example :
    (next : ℕ) × (route_one sample_target 10 3 (sample_routing 1 12)
      ≡ ok (record (sample_routing 1 12) { onid_current = next }))
    × ((j : ℕ)
        → bit_at next j ≡ (if 1 + 2 * 3 - (12 - 10) == j then next_bit 5 5 3 j else bit_at 2 j))
route_one_window_example =
    route_one_window 10 3 (omega arith) (omega arith) sample_target (sample_routing 1 12) 5
      (omega arith) (omega arith) refl

hops_arrive_example : bit_at (hops 3 5 3 2) 2 ≡ bit_at 5 2
hops_arrive_example = hops_arrive 3 5 2 2 (omega arith) (omega arith)

mark_all_front_example :
    (front : RoutingSchemeTuple) × ((mark_all
        (sample_message 0)
        (sample_routing 1 12 ∷ sample_routing 2 13 ∷ [])).1
      ≡ front ∷ sample_routing 2 13 ∷ [])
    × (same_bucket front (sample_routing 2 13) ≡ true)
mark_all_front_example =
    mark_all_front (sample_message 0) (sample_routing 1 12) (sample_routing 2 13 ∷ [])

update_keeps_gamma_receive_example :
    ((overlay_update (peer 9) 5 2 [] sample_overlay).0.gamma_receive ≡ peer 2 ∷ [])
    × ((overlay_update (peer 9) 5 2 [] sample_overlay).1.gamma_receive ≡ peer 2 ∷ [])
update_keeps_gamma_receive_example = update_keeps_gamma_receive (peer 9) 5 2 [] sample_overlay

is_due_iff_example :
    (is_due 20 3 (sample_tuple 1 440) ≡ true)
    ↔ (calculate_round_from_t 440 ≡ 20 + calculate_agreement_time 3 + calculate_routing_time 3 + 3)
unfolding calculate_agreement_time calculate_routing_time
is_due_iff_example = is_due_iff 20 3 (sample_tuple 1 440) (omega arith) (omega arith)

-- An overlay in whose round 6 the new peers are introduced.
abbrev introducing : OverlayStructureScheme
introducing = record sample_overlay { reconfiguration_time = 14; gamma_receive_new = peer 4 ∷ [] }

update_never_introduces_example :
    AreOther (overlay_update (peer 9) 5 6 [] introducing).0.s_overlay_prime
update_never_introduces_example = update_never_introduces (peer 9) 5 6 [] introducing tt

-- Three nodes, the first of which the message was announced to.
late_nodes_miss_aware_example :
    (ps : List Participant) × (rounds 3
        (peer 0 ∷ peer 1 ∷ peer 2 ∷ [])
        []
        (map (beginner (λ i. i.id == 0)) (peer 0 ∷ peer 1 ∷ peer 2 ∷ []))
      ≡ ([], ps))
    × (map (λ p. p.id) ps ≡ peer 0 ∷ peer 1 ∷ peer 2 ∷ [])
    × All
        (λ p.
          (j : PeerInformation)
          → set_count j p.scheme.set_s_i
            ≡ set_count j
                (if p.id.id == 0 then peer 0 ∷ peer 1 ∷ peer 2 ∷ [] else peer 1 ∷ peer 2 ∷ []))
        ps
late_nodes_miss_aware_example =
    late_nodes_miss_aware (peer 0 ∷ peer 1 ∷ peer 2 ∷ []) (λ i. i.id == 0) refl 0

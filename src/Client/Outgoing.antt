-- ===== src/Client/Outgoing.antt =====
-- The announcement, injection, routing, delivery and padding of `traffic_out` in
-- client/trusted/client_enclave.cpp.
use anonymous_communication.Base.{
  ℕ, ◌-◌, false, List, [], ◌∷◌, ◌++◌, none, some, Result, ok, ◌>>=◌, ◌>>◌, assert, length,
  replicate, keep, ltb, leb, ◌==◌, if◌then◌else◌, ◌+u64◌,
}
use anonymous_communication.Config.{calculate_routing_time}
use anonymous_communication.Std.{nat_less, find, find_or, update as map_update}
use anonymous_communication.Peer.{PeerInformation, peer_less}
use anonymous_communication.Message.{MessageTuple, tuple_less, is_due, is_dummy}
use anonymous_communication.Message.Schemes.{RoutingSchemeTuple, routing_vec_less}
use anonymous_communication.Vote.{obtain_elements_that_exceed_m_corrupt}
use anonymous_communication.Overlay.{Gamma}
use anonymous_communication.Crypt.{Primitives}
use anonymous_communication.Client.{ClientEnclave}
use anonymous_communication.Client.Pseudonyms.{decrypt_pseudonym}
use anonymous_communication.Client.Agreements.{Out, emplace, emplace_all}

-- The messages that leave while the front of `q_out_` is due: the queue after, and `out_announce`.
unfoldable pub announce_due :
    ℕ
    → ℕ
    → List PeerInformation
    → List MessageTuple
    → Out MessageTuple
    → List MessageTuple × Out MessageTuple
announce_due cur_round dim gamma_send [] out = ([], out)
announce_due cur_round dim gamma_send (x ∷ queue) out =
    let rest = announce_due cur_round dim gamma_send queue (emplace_all gamma_send x out) in
    if is_due cur_round dim x then rest else (x ∷ queue, out)

-- The tuple of an injected message.
unfoldable pub inject_one : Primitives → ClientEnclave → MessageTuple → Result RoutingSchemeTuple
inject_one crypto st m = do
  dst ← decrypt_pseudonym crypto st m.n_dst
  src ← decrypt_pseudonym crypto st m.n_src
  ok (record {
    m = m;
    onid_dst = dst.onid_repr;
    bucket_dst = m.n_dst;
    l_dst = st.cur_round +u64 calculate_routing_time st.overlay_dimension;
    onid_current = src.onid_repr;
  })

-- The loop over the messages that enough nodes injected.
unfoldable pub inject_all :
    Primitives → ClientEnclave → List MessageTuple → Result (List RoutingSchemeTuple)
inject_all crypto st [] = ok []
inject_all crypto st (m ∷ ms) =
    if is_dummy m
    then inject_all crypto st ms
    else inject_one crypto st m >>= λ r. inject_all crypto st ms >>= λ rs. ok (r ∷ rs)

-- `v_set`.
unfoldable pub concat : List (List RoutingSchemeTuple) → List RoutingSchemeTuple
concat [] = []
concat (v ∷ vs) = v ++ concat vs

unfoldable pub received_routing : ClientEnclave → List RoutingSchemeTuple
received_routing st =
    concat (obtain_elements_that_exceed_m_corrupt st.m_corrupt st.in_now.in_routing)

-- What is handed to `RoutingScheme::route`.
unfoldable pub handed_to_route :
    Primitives → ClientEnclave → List RoutingSchemeTuple → Result (List RoutingSchemeTuple)
handed_to_route crypto st v_set = do
  injected ←
      inject_all crypto st (obtain_elements_that_exceed_m_corrupt st.m_corrupt st.in_now.in_inject)
  ok (injected ++ keep (λ v. ltb v.l_dst st.cur_round) v_set)

-- `out_routing[i] = ...`, `count (i)` being 0.
unfoldable pub route_to :
    List RoutingSchemeTuple
    → List PeerInformation
    → Out RoutingSchemeTuple
    → Result (Out RoutingSchemeTuple)
route_to here [] out = ok out
route_to here (i ∷ is) out = elim (find i out) [
  | none ↦ route_to here is (map_update i [] (λ _. here) out)
  | some old ↦ assert false >> ok out
]

unfoldable pub route_all :
    List RoutingSchemeTuple → Gamma → Out RoutingSchemeTuple → Result (Out RoutingSchemeTuple)
route_all routed [] out = ok out
route_all routed ((onid, peers) ∷ gamma) out =
    route_to (keep (λ r. r.onid_current == onid) routed) peers out >>= λ out'.
    route_all routed gamma out'

-- The messages whose round has come go to the peers of the quorum this node emulates.
unfoldable pub predeliver :
    ℕ → List PeerInformation → List RoutingSchemeTuple → Out MessageTuple → Out MessageTuple
predeliver cur_round peers [] out = out
predeliver cur_round peers (v ∷ vs) out =
    predeliver cur_round peers vs (if v.l_dst == cur_round then emplace_all peers v.m out else out)

-- The loop over the messages that enough nodes hand over for delivery.
unfoldable pub deliver :
    Primitives → ClientEnclave → List MessageTuple → Out MessageTuple → Result (Out MessageTuple)
deliver crypto st [] out = ok out
deliver crypto st (m ∷ ms) out =
    if is_dummy m
    then deliver crypto st ms out
    else decrypt_pseudonym crypto st m.n_dst >>= λ dst.
        deliver crypto st ms (emplace dst.peer_information m out)

module _ {A : Type 0} (dummy : A) (limit : ℕ) where
  -- `assert (out[i].size () <= limit)`, and dummies until there are `limit`.
  unfoldable pub pad_one : PeerInformation → Out A → Result (Out A)
  pad_one i out =
      assert (leb (length (find_or i [] out)) limit)
      >> ok (map_update i [] (λ old. old ++ replicate (limit - length old) dummy) out)

  unfoldable pub pad_all : List PeerInformation → Out A → Result (Out A)
  unfolding pad_one
  pad_all [] out = ok out
  pad_all (i ∷ is) out = pad_one i out >>= λ out'. pad_all is out'

  -- Over the peers of all quorums.
  unfoldable pub pad_gamma : Gamma → Out A → Result (Out A)
  unfolding pad_all
  pad_gamma [] out = ok out
  pad_gamma ((onid, ids) ∷ gamma) out = pad_all ids out >>= λ out'. pad_gamma gamma out'

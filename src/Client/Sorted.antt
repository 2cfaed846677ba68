-- ===== src/Client/Sorted.antt =====
-- The outboxes that a round fills are maps, so that the padding of a round is uniform.
use anonymous_communication.Base.{
  ℕ, ◌*◌, List, [], ◌∷◌, ◌++◌, ok, length, ◌≡◌, All, Bool-cases, if-cases, inl, inr, >>=-eq-ok,
  ok-inj, subst, ◌==◌,
}
use anonymous_communication.Config.{a_max, k_send, k_recv}
use anonymous_communication.Std.{nat_less, find_or}
use anonymous_communication.Std.Map.{IsSorted, update-IsSorted}
use anonymous_communication.Peer.{PeerInformation, peer_less}
use anonymous_communication.Message.{MessageTuple, is_due, is_dummy, tuple_less}
use anonymous_communication.Message.Schemes.{RoutingSchemeTuple}
use anonymous_communication.Message.Order.{peer_lt-IsWeak}
use anonymous_communication.Vote.{obtain_elements_that_exceed_m_corrupt}
use anonymous_communication.Crypt.{Primitives, get_intermediate_target}
use anonymous_communication.Routing.{route}
use anonymous_communication.Overlay.{OverlayReturnTuple}
use anonymous_communication.Client.{ClientEnclave}
use anonymous_communication.Client.Pseudonyms.{decrypt_pseudonym}
use anonymous_communication.Client.Agreements.{Out, emplace, emplace_all, agreements}
use anonymous_communication.Client.Outgoing.{
  announce_due, received_routing, handed_to_route, route_all, predeliver, deliver,
}
use anonymous_communication.Client.TrafficOut.{Outside, Outputs, run_schemes, pad}
use anonymous_communication.Client.Uniform.{pad_uniform}

module _ {A : Type 0} where
  emplace-IsSorted :
      (p : PeerInformation) (a : A) (out : Out A) → IsSorted out → IsSorted (emplace p a out)
  unfolding emplace
  emplace-IsSorted p a out h = update-IsSorted peer_lt-IsWeak p [] (λ old. old ++ (a ∷ [])) out h

  emplace_all-IsSorted :
      (ps : List PeerInformation) (a : A) (out : Out A)
      → IsSorted out
      → IsSorted (emplace_all ps a out)
  unfolding emplace_all
  emplace_all-IsSorted [] a out h = h
  emplace_all-IsSorted (p ∷ ps) a out h =
      emplace_all-IsSorted ps a (emplace p a out) (emplace-IsSorted p a out h)

announce_due-IsSorted :
    (cur_round dim : ℕ) (gamma_send : List PeerInformation) (queue : List MessageTuple)
    (out : Out MessageTuple)
    → IsSorted out
    → IsSorted (announce_due cur_round dim gamma_send queue out).1
unfolding announce_due
announce_due-IsSorted cur_round dim gamma_send [] out h = h
announce_due-IsSorted cur_round dim gamma_send (x ∷ queue) out h =
    elim (Bool-cases (is_due cur_round dim x)) [
      | inl due ↦ rw due (
          announce_due-IsSorted cur_round dim gamma_send queue (emplace_all gamma_send x out)
            (emplace_all-IsSorted gamma_send x out h))
      | inr later ↦ rw later h
    ]

predeliver-IsSorted :
    (cur_round : ℕ) (peers : List PeerInformation) (vs : List RoutingSchemeTuple)
    (out : Out MessageTuple)
    → IsSorted out
    → IsSorted (predeliver cur_round peers vs out)
unfolding predeliver
predeliver-IsSorted cur_round peers [] out h = h
predeliver-IsSorted cur_round peers (v ∷ vs) out h = elim (Bool-cases (v.l_dst == cur_round)) [
  | inl now ↦ rw now (
      predeliver-IsSorted cur_round peers vs (emplace_all peers v.m out)
        (emplace_all-IsSorted peers v.m out h))
  | inr later ↦ rw later (predeliver-IsSorted cur_round peers vs out h)
]

deliver-IsSorted :
    (crypto : Primitives) (st : ClientEnclave) (ms : List MessageTuple)
    (out out' : Out MessageTuple)
    → IsSorted out
    → deliver crypto st ms out ≡ ok out'
    → IsSorted out'
unfolding deliver
deliver-IsSorted crypto st [] out out' h e = subst IsSorted (ok-inj e) h
deliver-IsSorted crypto st (m ∷ ms) out out' h e = elim (if-cases (is_dummy m) e) [
  | inl (_, rest) ↦ deliver-IsSorted crypto st ms out out' h rest
  | inr (_, real) ↦
      let (dst, _, rest) = >>=-eq-ok (decrypt_pseudonym crypto st m.n_dst) _ real in
      deliver-IsSorted crypto st ms (emplace dst.peer_information m out) out'
        (emplace-IsSorted dst.peer_information m out h) rest
]

-- The outboxes of a round that the padding needs sorted.
abbrev AreSorted : Outputs → Type 0
AreSorted out = IsSorted out.out_announce × IsSorted out.out_predeliver × IsSorted out.out_deliver

run_schemes-AreSorted :
    (outside : Outside) (result : OverlayReturnTuple) (st st' : ClientEnclave) (out : Outputs)
    → run_schemes outside result st ≡ ok (out, st')
    → AreSorted out
unfolding run_schemes
run_schemes-AreSorted outside result st st' out e =
    let ((tuples, out_agreement, out_inject), _, e₁) =
      >>=-eq-ok (agreements outside.crypto result.gamma_route st) _ e in
    let (s_routing, _, e₂) =
      >>=-eq-ok (handed_to_route outside.crypto st (received_routing st)) _ e₁ in
    let (routed, _, e₃) =
      >>=-eq-ok
        (route
          (λ bucket l.
            get_intermediate_target outside.crypto st.sk_routing bucket l st.overlay_dimension)
          outside.unset_message st.cur_round st.overlay_dimension s_routing)
        _ e₂ in
    let (out_routing, _, e₄) = >>=-eq-ok (route_all routed result.gamma_route []) _ e₃ in
    let (out_deliver, delivered, e₅) =
      >>=-eq-ok
        (deliver outside.crypto st
          (obtain_elements_that_exceed_m_corrupt st.m_corrupt st.in_now.in_predeliver) [])
        _ e₄ in
    subst (λ (r : Outputs × ClientEnclave). AreSorted (r.0)) (ok-inj e₅)
      (
        announce_due-IsSorted st.cur_round st.overlay_dimension result.gamma_send st.q_out [] tt,
        predeliver-IsSorted st.cur_round (find_or st.onid_emul [] result.gamma_route)
            (received_routing st) [] tt,
        deliver-IsSorted outside.crypto st
            (obtain_elements_that_exceed_m_corrupt st.m_corrupt st.in_now.in_predeliver) []
            out_deliver tt delivered,
      )

-- In a round whose schemes and padding return, every peer of `gamma_send` is sent `kSend * kAMax`
-- announcements, every peer of `gamma_receive` `kRecv * kAMax` deliveries, and every peer of the
-- emulated quorum that many predeliveries for each peer of `gamma_receive`, whatever the state of
-- the enclave and the messages in it are.
pub round_uniform :
    (outside : Outside) (result : OverlayReturnTuple) (st st' : ClientEnclave) (out out' : Outputs)
    → run_schemes outside result st ≡ ok (out, st')
    → pad outside result st' out ≡ ok out'
    → All (λ p. length (find_or p [] out'.out_announce) ≡ k_send * a_max) result.gamma_send
      × All (λ p. length (find_or p [] out'.out_deliver) ≡ k_recv * a_max) result.gamma_receive
      × All
          (λ p.
            length (find_or p [] out'.out_predeliver)
            ≡ k_recv * a_max * length result.gamma_receive)
          (find_or st'.onid_emul [] result.gamma_route)
round_uniform outside result st st' out out' ran padded =
    let (ha, hp, hd) = run_schemes-AreSorted outside result st st' out ran in
    pad_uniform outside result st' out out' ha hp hd padded

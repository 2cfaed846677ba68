-- ===== src/Client/Uniform.antt =====
-- The padding of `traffic_out`: how much a peer is sent does not depend on the messages.
use anonymous_communication.Base.{
  ℕ, ◌*◌, ◌-◌, true, List, [], ◌∷◌, ◌++◌, ok, length, replicate, leb, if◌then◌else◌, ◌≡◌, arith,
  All, length-append, length-replicate, >>=-eq-ok, assert-eq-ok, ok-inj, subst,
}
use anonymous_communication.Config.{a_max, k_send, k_recv}
use anonymous_communication.Std.{nat_less, find_or, equiv, update as map_update}
use anonymous_communication.Std.Map.{IsSorted, update-IsSorted, find-update, find_or-find}
use anonymous_communication.Peer.{PeerInformation, peer_less}
use anonymous_communication.Message.{create_dummy}
use anonymous_communication.Message.Schemes.{dummy_routing}
use anonymous_communication.Message.Order.{peer_lt-IsWeak}
use anonymous_communication.Overlay.{OverlayReturnTuple}
use anonymous_communication.Client.{ClientEnclave}
use anonymous_communication.Client.Agreements.{Out}
use anonymous_communication.Client.Outgoing.{pad_one, pad_all, pad_gamma}
use anonymous_communication.Client.TrafficOut.{Outside, Outputs, pad}

module _ {A : Type 0} where
  find_or-update :
      (k j : PeerInformation) (f : List A → List A) (m : Out A)
      → IsSorted m
      → find_or j [] (map_update k [] f m)
        ≡ (if equiv k j then f (find_or k [] m) else find_or j [] m)
  find_or-update k j f m h =
      rw
        (
          find_or-find peer_lt-IsWeak j [] (map_update k [] f m),
          find-update peer_lt-IsWeak k j [] f m h,
        )
        (ground (arith, find_or-find peer_lt-IsWeak j [] m))

  module _ (dummy : A) (limit : ℕ) where
    abbrev Full : PeerInformation → Out A → Type 0
    Full p out = length (find_or p [] out) ≡ limit

    padded_length :
        (old : List A)
        → leb (length old) limit ≡ true
        → length (old ++ replicate (limit - length old) dummy) ≡ limit
    padded_length old h = ground (
      arith,
      length-append old (replicate (limit - length old) dummy),
      length-replicate (limit - length old) dummy,
    )

    -- What a successful padding of one peer has done.
    pad_one_effect :
        (i : PeerInformation) (out out' : Out A)
        → IsSorted out
        → pad_one dummy limit i out ≡ ok out'
        → IsSorted out' × Full i out' × ((j : PeerInformation) → Full j out → Full j out')
    unfolding pad_one
    pad_one_effect i out out' s e =
        let (fits, done) = assert-eq-ok (leb (length (find_or i [] out)) limit) _ e in
        subst (λ o. IsSorted o × Full i o × ((j : PeerInformation) → Full j out → Full j o))
          (ok-inj done) (effect fits)
      where
        topped : List A → List A
        topped old = old ++ replicate (limit - length old) dummy

        effect :
            leb (length (find_or i [] out)) limit ≡ true
            → IsSorted (map_update i [] topped out)
              × Full i (map_update i [] topped out)
              × ((j : PeerInformation) → Full j out → Full j (map_update i [] topped out))
        effect fits = (
          update-IsSorted peer_lt-IsWeak i [] topped out s,
          rw (find_or-update i i topped out s)
              (ground (arith, peer_lt-IsWeak.asym i i, padded_length (find_or i [] out) fits)),
          λ j full.
              rw (find_or-update i j topped out s)
                (ground (arith, full, padded_length (find_or i [] out) fits)),
        )

    pad_all_keeps :
        (j : PeerInformation) (peers : List PeerInformation) (out out' : Out A)
        → IsSorted out
        → Full j out
        → pad_all dummy limit peers out ≡ ok out'
        → Full j out'
    unfolding pad_all
    pad_all_keeps j [] out out' s full e = subst (Full j) (ok-inj e) full
    pad_all_keeps j (i ∷ is) out out' s full e =
        let (mid, here, rest) = >>=-eq-ok (pad_one dummy limit i out) _ e in
        let (s', _, keeps) = pad_one_effect i out mid s here in
        pad_all_keeps j is mid out' s' (keeps j full) rest

    -- A padding that returns leaves every peer with the same number of entries.
    pub pad_all_full :
        (peers : List PeerInformation) (out out' : Out A)
        → IsSorted out
        → pad_all dummy limit peers out ≡ ok out'
        → All (λ p. length (find_or p [] out') ≡ limit) peers
    unfolding pad_all
    pad_all_full [] out out' s e = tt
    pad_all_full (i ∷ is) out out' s e =
        let (mid, here, rest) = >>=-eq-ok (pad_one dummy limit i out) _ e in
        let (s', full, _) = pad_one_effect i out mid s here in
        (pad_all_keeps i is mid out' s' full rest, pad_all_full is mid out' s' rest)

-- After the padding of a round every peer of `gamma_send` is sent one announcement, every peer of
-- `gamma_receive` two deliveries, and every peer of the emulated quorum twice as many predeliveries
-- as `gamma_receive` has peers, whatever messages there are.
pub pad_uniform :
    (outside : Outside) (result : OverlayReturnTuple) (st : ClientEnclave) (out out' : Outputs)
    → IsSorted out.out_announce
    → IsSorted out.out_predeliver
    → IsSorted out.out_deliver
    → pad outside result st out ≡ ok out'
    → All (λ p. length (find_or p [] out'.out_announce) ≡ k_send * a_max) result.gamma_send
      × All (λ p. length (find_or p [] out'.out_deliver) ≡ k_recv * a_max) result.gamma_receive
      × All
          (λ p.
            length (find_or p [] out'.out_predeliver)
            ≡ k_recv * a_max * length result.gamma_receive)
          (find_or st.onid_emul [] result.gamma_route)
unfolding pad
pad_uniform outside result st out out' ha hp hd e =
    let dummy = create_dummy outside.unset_message in
    let (announce, ea, e₁) =
      >>=-eq-ok (pad_all dummy (k_send * a_max) result.gamma_send out.out_announce) _ e in
    let (routing, er, e₂) =
      >>=-eq-ok
        (pad_gamma (dummy_routing outside.unset_message) st.max_routing_msg_out result.gamma_route
          out.out_routing)
        _ e₁ in
    let (pre, ep, e₃) =
      >>=-eq-ok
        (pad_all dummy (k_recv * a_max * length result.gamma_receive)
          (find_or st.onid_emul [] result.gamma_route) out.out_predeliver)
        _ e₂ in
    let (del, ed, e₄) =
      >>=-eq-ok (pad_all dummy (k_recv * a_max) result.gamma_receive out.out_deliver) _ e₃ in
    subst
      (λ (o : Outputs).
        All (λ p. length (find_or p [] o.out_announce) ≡ k_send * a_max) result.gamma_send
        × All (λ p. length (find_or p [] o.out_deliver) ≡ k_recv * a_max) result.gamma_receive
        × All
            (λ p.
              length (find_or p [] o.out_predeliver) ≡ k_recv * a_max * length result.gamma_receive)
            (find_or st.onid_emul [] result.gamma_route))
      (ok-inj e₄)
      (
        pad_all_full dummy (k_send * a_max) result.gamma_send out.out_announce announce ha ea,
        pad_all_full dummy (k_recv * a_max) result.gamma_receive out.out_deliver del hd ed,
        pad_all_full dummy (k_recv * a_max * length result.gamma_receive)
            (find_or st.onid_emul [] result.gamma_route) out.out_predeliver pre hp ep,
      )

-- ===== src/Server/Quorums.antt =====
-- What the server promises its clients: their part of the network is complete.
use anonymous_communication.Base.{
  ℕ, true, List, [], ◌∷◌, Option, none, some, ok, checked, get_elem?, if◌then◌else◌, ◌≡◌, refl,
  arith, >>=-eq-ok, ok-inj, subst, sym, ap, ◌∙◌, Bool-cases, ◌+u64◌, inl, inr,
}
use anonymous_communication.Std.{nat_less, find, update as map_update, equiv}
use anonymous_communication.Std.Order.{ltb-IsWeak}
use anonymous_communication.Std.Map.{IsSorted, update-IsSorted, find-update}
use anonymous_communication.Peer.{PeerInformation}
use anonymous_communication.Neighbors.{for_all_neighbors, flipped}
use anonymous_communication.Overlay.{Gamma, OverlayStructureScheme}
use anonymous_communication.Overlay.Update.{init}
use anonymous_communication.Client.Start.{InitData}
use anonymous_communication.Server.{Keys, neighbor_routes, init_message, dimension}

checked-some {ℓ} : {A : Type ℓ} (o : Option A) {a : A} → checked o ≡ ok a → o ≡ some a
checked-some none h = cc
checked-some (some a) h = ap some (ok-inj h)

-- The routes keep what they say of a quorum.
routes_keep :
    (ns : List ℕ) (emulated : List (List PeerInformation)) (q : ℕ) (gamma gamma' : Gamma)
    → IsSorted gamma
    → find q gamma ≡ get_elem? emulated q
    → neighbor_routes ns emulated gamma ≡ ok gamma'
    → find q gamma' ≡ get_elem? emulated q
unfolding neighbor_routes
routes_keep [] emulated q gamma gamma' s h e = rw (← ok-inj e) h
routes_keep (n ∷ ns) emulated q gamma gamma' s h e =
    let (peers, there, rest) = >>=-eq-ok (checked (get_elem? emulated n)) _ e in
    routes_keep ns emulated q (map_update n [] (λ _. peers) gamma) gamma'
      (update-IsSorted ltb-IsWeak n [] (λ _. peers) gamma s)
      (find-update ltb-IsWeak n q [] (λ _. peers) gamma s
        ∙ now peers (checked-some (get_elem? emulated n) there))
      rest
  where
    now :
        (peers : List PeerInformation)
        → get_elem? emulated n ≡ some peers
        → (if equiv q n then some peers else find q gamma) ≡ get_elem? emulated q
    now peers there = elim (Bool-cases (equiv q n)) [
      | inl same ↦ rw same (sym there ∙ ap (get_elem? emulated) (omega (arith, same_number same)))
      | inr other ↦ rw other h
    ]
      where
        same_number : equiv q n ≡ true → n ≡ q
        same_number eq = ground arith

routes_own :
    (ns : List ℕ) (emulated : List (List PeerInformation)) (q : ℕ) (gamma : Gamma)
    → neighbor_routes (q ∷ ns) emulated [] ≡ ok gamma
    → (peers : List PeerInformation) × (get_elem? emulated q ≡ some peers)
      × (find q gamma ≡ some peers)
unfolding neighbor_routes find
routes_own ns emulated q gamma e =
    let (peers, there, rest) = >>=-eq-ok (checked (get_elem? emulated q)) _ e in
    let own = checked-some (get_elem? emulated q) there in
    (
      peers,
      own,
      routes_keep ns emulated q (map_update q [] (λ _. peers) []) gamma
            (update-IsSorted ltb-IsWeak q [] (λ _. peers) [] tt)
            (find-update ltb-IsWeak q q [] (λ _. peers) [] tt ∙ itself peers own) rest
          ∙ own,
    )
  where
    itself :
        (peers : List PeerInformation)
        → get_elem? emulated q ≡ some peers
        → (if equiv q q then some peers else none) ≡ get_elem? emulated q
    itself peers own = ground arith

-- If the server can build the init message of a client, the overlay scheme of the client accepts
-- it, and the peers it agrees with are those that emulate its quorum.
pub init_message_accepted :
    (sks : Keys) (associated emulated : List (List PeerInformation)) (client : PeerInformation)
    (assoc emul : ℕ) (msg : InitData) (st : OverlayStructureScheme) (own_id : PeerInformation)
    → init_message sks associated emulated client assoc emul ≡ ok msg
    → (peers : List PeerInformation) × (get_elem? emulated emul ≡ some peers)
      × (st' : OverlayStructureScheme) × (init st msg.onid_assoc msg.onid_emul msg.gamma_send
            msg.gamma_receive msg.gamma_route msg.overlay_dimension
            (msg.overlay_dimension +u64 7)
            own_id
          ≡ ok st')
      × (st'.gamma_agree ≡ peers)
unfolding init_message init for_all_neighbors neighbor_routes
init_message_accepted sks associated emulated client assoc emul msg st own_id e =
    let (gamma_send, _, e₁) = >>=-eq-ok (checked (get_elem? emulated assoc)) _ e in
    let (gamma_receive, _, e₂) = >>=-eq-ok (checked (get_elem? associated emul)) _ e₁ in
    let (gamma_route, routed, e₃) =
      >>=-eq-ok (neighbor_routes (for_all_neighbors emul dimension) emulated []) _ e₂ in
    let (peers, own, found) =
      routes_own (flipped dimension 0 emul) emulated emul gamma_route routed in
    let (st', done, agree) =
      subst
        (λ (m : InitData).
          (st' : OverlayStructureScheme) × (init st m.onid_assoc m.onid_emul m.gamma_send
              m.gamma_receive m.gamma_route m.overlay_dimension (m.overlay_dimension +u64 7) own_id
            ≡ ok st')
          × (st'.gamma_agree ≡ peers))
        (ok-inj e₃)
        (
          record st {
            onid_assoc = assoc;
            onid_emul = emul;
            onid_emul_prev = emul;
            gamma_agree = peers;
            gamma_send = gamma_send;
            gamma_receive = gamma_receive;
            gamma_route = gamma_route;
            overlay_dimension = dimension;
            reconfiguration_time = dimension +u64 7;
            own_id = own_id;
          },
          rw found refl,
          refl,
        ) in
    (peers, own, st', done, agree)

-- ===== src/Server/Messages.antt =====
-- The init messages that the server makes can be written to memory and start the clients.
use anonymous_communication.Base.{
  ℕ, zero, suc, ◌+◌, ◌*◌, ◌<◌, ◌≤◌, ◌^◌, List, [], ◌∷◌, ok, checked, get_elem?, length, ltb, some,
  ◌≡◌, arith, All, >>=-eq-ok, ok-inj, subst, Bool-cases, inl, inr,
}
use anonymous_communication.Std.{nat_less, update as map_update}
use anonymous_communication.Std.Order.{ltb-IsWeak}
use anonymous_communication.Std.Map.{IsSorted, update-IsSorted}
use anonymous_communication.Peer.{PeerInformation}
use anonymous_communication.Neighbors.{for_all_neighbors, flipped}
use anonymous_communication.Overlay.{Gamma}
use anonymous_communication.Layout.Start.{serialize_init}
use anonymous_communication.Layout.RoundTrip.{IsWide, IsWideEntry, IsInit, routes_size, layout_size}
use anonymous_communication.Client.{ClientEnclave}
use anonymous_communication.Client.Start.{InitData, received_init}
use anonymous_communication.Client.Join.{received_msg_from_server, init_message_starts_client}
use anonymous_communication.Client.Limits.{All-get}
use anonymous_communication.Server.{
  Keys, neighbor_routes, init_message, dimension, num_required_clients,
}

-- A quorum has no more peers than there are clients, and their numbers have 64 bits.
abbrev pub IsQuorum : List PeerInformation → Type 0
IsQuorum peers = (length peers ≤ num_required_clients) × All IsWide peers

-- The bytes of an entry with the most peers.
abbrev entry_limit : ℕ
entry_limit = 16 + 40 * num_required_clients

get_elem?_bound :
    (quorums : List (List PeerInformation)) (n : ℕ) (peers : List PeerInformation)
    → checked (get_elem? quorums n) ≡ ok peers
    → n < length quorums
get_elem?_bound [] n peers e = cc
get_elem?_bound (q ∷ quorums) zero peers e = omega arith
get_elem?_bound (q ∷ quorums) (suc n) peers e = omega (arith, get_elem?_bound quorums n peers e)

update_wide :
    (k : ℕ) (peers : List PeerInformation) (gamma : Gamma)
    → IsWideEntry (k, peers)
    → All IsWideEntry gamma
    → All IsWideEntry (map_update k [] (λ _. peers) gamma)
unfolding map_update
update_wide k peers [] h hs = (h, tt)
update_wide k peers ((j, v) ∷ gamma) h (hj, hs) = elim (Bool-cases (ltb k j)) [
  | inl e ↦ rw e (h, (hj, hs))
  | inr e ↦ elim (Bool-cases (ltb j k)) [
    | inl d ↦ rw (e, d) (hj, update_wide k peers gamma h hs)
    | inr d ↦ rw (e, d) ((hj.0, h.1, h.2), hs)
  ]
]

update_size :
    (k : ℕ) (peers : List PeerInformation) (gamma : Gamma)
    → length peers ≤ num_required_clients
    → routes_size (map_update k [] (λ _. peers) gamma) ≤ entry_limit + routes_size gamma
unfolding map_update
update_size k peers [] h = omega arith
update_size k peers ((j, v) ∷ gamma) h = elim (Bool-cases (ltb k j)) [
  | inl e ↦ rw e (omega arith)
  | inr e ↦ elim (Bool-cases (ltb j k)) [
    | inl d ↦ rw (e, d) (omega (arith, update_size k peers gamma h))
    | inr d ↦ rw (e, d) (omega arith)
  ]
]

-- The routes are in order, wide, and no larger than their entries may be.
routes_valid :
    (ns : List ℕ) (emulated : List (List PeerInformation)) (gamma gamma' : Gamma)
    → All IsQuorum emulated
    → length emulated < 2 ^ 64
    → IsSorted gamma
    → All IsWideEntry gamma
    → neighbor_routes ns emulated gamma ≡ ok gamma'
    → IsSorted gamma'
      × All IsWideEntry gamma'
      × (routes_size gamma' ≤ routes_size gamma + length ns * entry_limit)
unfolding neighbor_routes
routes_valid [] emulated gamma gamma' quorums small s h e =
    subst (λ g. IsSorted g × All IsWideEntry g × (routes_size g ≤ routes_size gamma + 0)) (ok-inj e)
      (s, h, omega arith)
routes_valid (n ∷ ns) emulated gamma gamma' quorums small s h e =
    let (peers, there, rest) = >>=-eq-ok (checked (get_elem? emulated n)) _ e in
    let (few, wide) = All-get IsQuorum emulated n peers quorums there in
    let (s', h', size) =
      routes_valid ns emulated (map_update n [] (λ _. peers) gamma) gamma' quorums small
        (update-IsSorted ltb-IsWeak n [] (λ _. peers) gamma s)
        (update_wide n peers gamma
          (omega (arith, get_elem?_bound emulated n peers there), omega arith, wide) h)
        rest in
    (s', h', omega (arith, update_size n peers gamma few))

-- Every init message that the server can build for a client is written to memory, and starts the
-- client with just this message, if keys have 16 bytes, numbers 64 bits, and quorums no more peers
-- than there are clients.
pub server_starts_client :
    (sks : Keys) (associated emulated : List (List PeerInformation)) (client : PeerInformation)
    (assoc emul : ℕ) (m : InitData) (fresh : ℕ → List ℕ) (quorum_bound : ℕ → ℕ)
    (routing_bound : ℕ → ℕ → ℕ) (reading : ℕ × List ℕ) (st : ClientEnclave)
    → (length sks.sk_pseud ≡ 16) × (length sks.sk_enc ≡ 16) × (length sks.sk_routing ≡ 16)
    → All IsQuorum associated
    → All IsQuorum emulated
    → length emulated < 2 ^ 64
    → length associated < 2 ^ 64
    → IsWide client
    → ((n : ℕ) → length (fresh n) ≡ n)
    → init_message sks associated emulated client assoc emul ≡ ok m
    → (bytes : List ℕ) × (serialize_init fresh m ≡ ok (bytes, layout_size m))
      × (received_msg_from_server quorum_bound routing_bound (some reading) bytes st
          ≡ received_init quorum_bound routing_bound reading m st)
unfolding init_message for_all_neighbors flipped
server_starts_client sks associated emulated client assoc emul m fresh quorum_bound routing_bound
      reading st (kp, ke, kr) qa qe se sa wide full e =
    let (send, at_assoc, e₁) = >>=-eq-ok (checked (get_elem? emulated assoc)) _ e in
    let (receive, at_emul, e₂) = >>=-eq-ok (checked (get_elem? associated emul)) _ e₁ in
    let (gamma, routed, e₃) =
      >>=-eq-ok (neighbor_routes (for_all_neighbors emul dimension) emulated []) _ e₂ in
    let (few, wides) = All-get IsQuorum emulated assoc send qe at_assoc in
    let (few', wides') = All-get IsQuorum associated emul receive qa at_emul in
    let (sorted, entries, size) =
      routes_valid (for_all_neighbors emul dimension) emulated [] gamma qe se tt tt routed in
    let valid : IsInit _ = (
      wide.0,
      omega arith,
      omega arith,
      omega (arith, get_elem?_bound emulated assoc send at_assoc),
      omega (arith, get_elem?_bound associated emul receive at_emul),
      kp,
      ke,
      kr,
      wides,
      wides',
      sorted,
      entries,
    ) in
    init_message_starts_client fresh quorum_bound routing_bound reading m st full
      (subst IsInit (ok-inj e₃) valid)
      (subst (λ m. layout_size m < 2 ^ 31) (ok-inj e₃) (omega arith))

-- ===== src/Network/Round.antt =====
-- A call of `traffic_out` at one node and what it brings to the others.
use anonymous_communication.Base.{
  ℕ, ◌^◌, ◌<◌, true, List, some, Result, ok, ◌>>=◌, >>=-eq-ok, ok-inj, ap, length, ◌≡◌, refl, All,
  map,
}
use anonymous_communication.Peer.{pair_serializable, Uri, ReceiverBlobPair, IsPair}
use anonymous_communication.Serial.{serialize_vec}
use anonymous_communication.Crypt.{IsLawful, iv_size}
use anonymous_communication.Client.{ClientEnclave}
use anonymous_communication.Client.Pseudonyms.{get_time}
use anonymous_communication.Client.TrafficOut.{
  Outside, Outputs, maintain, run_schemes, pad, receivers, seal_all, shift, next_round, run_round,
  traffic_out,
}
use anonymous_communication.Untrusted.Sockets.{NetworkManager, SocketCall, address}
use anonymous_communication.Untrusted.Delivery.{arrivals}
use anonymous_communication.Untrusted.Node.{
  Node, Turn, take_incoming, call_traffic_out, hand_over_traffic,
}
use anonymous_communication.Network.Arrival.{Fits, IsListening, node_reaction, round_arrives}

-- A round up to its dummies: what is to be sealed, and the enclave.
unfoldable pub prepare : Outside → ClientEnclave → Result (Outputs × ClientEnclave)
prepare outside st = do
  let (result, st₁) = maintain outside st
  (out, st₂) ← run_schemes outside result st₁
  padded ← pad outside result st₂ out
  ok (padded, st₂)

round_sealed :
    (outside : Outside) (st st₂ : ClientEnclave) (padded : Outputs) (pairs : List ReceiverBlobPair)
    → prepare outside st ≡ ok (padded, st₂)
    → seal_all outside st₂ padded 0 (receivers padded) ≡ ok pairs
    → run_round outside st ≡ ok (serialize_vec pairs, shift st₂)
unfolding run_round prepare
round_sealed outside st st₂ padded pairs e sealed =
    let (result, st₁) = maintain outside st in
    let ((out, mid), ran, e₁) = >>=-eq-ok (run_schemes outside result st₁) _ e in
    let (full, done, e₂) = >>=-eq-ok (pad outside result mid out) _ e₁ in
    let same = ok-inj e₂ in
    rw (ran, done) (rw (ap (λ r. r.0) same, ap (λ r. r.1) same) (rw sealed refl))

-- The call of `traffic_out` in a round that is due.
traffic_sealed :
    (turn : Turn) (st st₂ : ClientEnclave) (now round : ℕ) (padded : Outputs)
    (pairs : List ReceiverBlobPair)
    → st.initialized ≡ true
    → get_time st turn.out_clock ≡ ok now
    → next_round now st.cur_round ≡ ok (some round)
    → prepare turn.outside (record st { cur_round = round }) ≡ ok (padded, st₂)
    → seal_all turn.outside st₂ padded 0 (receivers padded) ≡ ok pairs
    → traffic_out turn.outside turn.out_clock st ≡ ok (some (serialize_vec pairs), shift st₂)
unfolding traffic_out
traffic_sealed turn st st₂ now round padded pairs on time next prepared sealed =
    rw
      (
        time,
        next,
        round_sealed turn.outside (record st { cur_round = round }) st₂ padded pairs prepared
            sealed,
      )
      (rw on refl)

module _ (turn : Turn) (node : Node) (padded : Outputs) (st₂ : ClientEnclave)
    (turn_at : List ℕ → Turn) (node_at : List ℕ → Node) (laws : IsLawful turn.outside.crypto)
    (ivs : (k : ℕ) → length (turn.outside.iv k) ≡ iv_size)
    (listening : (to : List ℕ)
      → IsListening turn.outside.crypto st₂.sk_enc (turn_at to) (node_at to)) where
  -- For lawful primitives, initialization vectors of the right size and data that fits the codecs:
  -- if the round of a started node is due, and its schemes, its padding and the sealing for its
  -- receivers return, then the call of `traffic_out` leaves the enclave with its mailboxes moved to
  -- the front, and the sockets bring every ciphertext to the address of its receiver, in the order
  -- of the receivers, where each started node that shares the key takes it exactly as it would take
  -- the additional data and the plaintext themselves, provided that each peer has one address,
  -- under which its connection is open if there is one, and the sealed pairs are valid and fewer
  -- than 2 ^ 31.
  pub round_reaches_nodes :
      (now round : ℕ) (uri_of : ℕ → Uri) (pairs : List ReceiverBlobPair)
      → turn.due ≡ true
      → node.enclave.initialized ≡ true
      → get_time node.enclave turn.out_clock ≡ ok now
      → next_round now node.enclave.cur_round ≡ ok (some round)
      → prepare turn.outside (record (node.enclave) { cur_round = round }) ≡ ok (padded, st₂)
      → seal_all turn.outside st₂ padded 0 (receivers padded) ≡ ok pairs
      → All (Fits st₂ padded) (receivers padded)
      → All (λ (s : ℕ × List ℕ). s.1 ≡ address (uri_of s.0)) node.network.peers
      → All (λ (p : ReceiverBlobPair). p.i.uri ≡ uri_of p.i.id) pairs
      → All IsPair pairs
      → length pairs < 2 ^ 31
      → (calls : List SocketCall) × (network : NetworkManager) × (call_traffic_out turn node
          ≡ ok (calls, record { network = network; enclave = shift st₂ }))
        × (map
              (λ a. take_incoming (turn_at a.0) (node_at a.0) a.1)
              (arrivals node.network.peers calls)
            ≡ map
                (λ i. node_reaction turn.outside.crypto st₂ padded i (node_at (address i.uri)))
                (receivers padded))
  unfolding call_traffic_out hand_over_traffic
  round_reaches_nodes now round uri_of pairs due on time next prepared sealed fits right uris valid
        small =
      let (calls, network, handed, there) =
        round_arrives turn.outside st₂ padded turn_at node_at laws ivs listening uri_of
          (receivers padded) pairs node.network fits sealed right uris valid small in
      (
        calls,
        network,
        rw
            (
              due,
              traffic_sealed turn node.enclave st₂ now round padded pairs on time next prepared
                  sealed,
              handed,
            )
            refl,
        there,
      )

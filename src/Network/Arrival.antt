-- ===== src/Network/Arrival.antt =====
-- From the sealing of a round's messages at one node to their reception at the others.
use anonymous_communication.Base.{
  ℕ, ◌+◌, ◌^◌, ◌<◌, true, List, [], ◌∷◌, Result, ok, ◌>>=◌, >>=-eq-ok, ok-inj, length, ◌≡◌, refl,
  ap, ◌∙◌, All, map,
}
use mathlib.Core.List.{map-map}
use anonymous_communication.Peer.{Uri, PeerInformation, ReceiverBlobPair, IsPair, pair_serializable}
use anonymous_communication.Serial.{serialize_vec}
use anonymous_communication.Crypt.{Primitives, IsLawful, iv_size, encrypt}
use anonymous_communication.Client.{ClientEnclave}
use anonymous_communication.Client.Aad.{IsAad}
use anonymous_communication.Client.TrafficOut.{Outside, Outputs, plain_for, aad_for, seal_all}
use anonymous_communication.Untrusted.Sockets.{
  NetworkManager, SocketCall, address, traffic_out_return,
}
use anonymous_communication.Untrusted.Delivery.{arrivals, traffic_arrives}
use anonymous_communication.Untrusted.Node.{Node, Turn, take_incoming}
use anonymous_communication.Network.{aad_of, reaction}
use anonymous_communication.Network.Sealed.{sealed_reaction}

-- What is sent to a peer fits the numbers of the ciphertext's header and the codecs.
abbrev pub Fits : ClientEnclave → Outputs → PeerInformation → Type 0
Fits st out i =
    (length (plain_for out i) < 2 ^ 32)
    × (length (aad_for st out i) < 2 ^ 32)
    × IsAad (aad_of st out i)

-- A started node that shares a key with the sender.
abbrev pub IsListening : Primitives → List ℕ → Turn → Node → Type 0
IsListening crypto sk_enc turn node =
    (turn.outside.crypto ≡ crypto)
    × (node.network.initialized ≡ true)
    × (node.enclave.initialized ≡ true)
    × (node.enclave.sk_enc ≡ sk_enc)

abbrev pub node_reaction :
    Primitives → ClientEnclave → Outputs → PeerInformation → Node → Result Node
node_reaction crypto st out i node =
    reaction crypto (aad_of st out i) (plain_for out i) node.enclave >>= λ enclave.
    ok (record node { enclave = enclave })

node_takes :
    (crypto : Primitives) (iv c : List ℕ) (st : ClientEnclave) (out : Outputs) (i : PeerInformation)
    (turn : Turn) (node : Node)
    → IsLawful crypto
    → length iv ≡ iv_size
    → Fits st out i
    → IsListening crypto st.sk_enc turn node
    → encrypt crypto iv st.sk_enc (plain_for out i) (aad_for st out i) ≡ ok c
    → take_incoming turn node c ≡ node_reaction crypto st out i node
unfolding take_incoming aad_for
node_takes crypto iv c st out i turn node laws hiv (hp, ha, valid) (same, on, running, key) e =
    simp (same, on)
      (ap (λ r. r >>= λ enclave. ok (record node { enclave = enclave }))
        (sealed_reaction crypto iv (plain_for out i) c (aad_of st out i) node.enclave laws hiv hp ha
          valid running (rw key e)))

module _ (outside : Outside) (st : ClientEnclave) (out : Outputs) (turn_at : List ℕ → Turn)
    (node_at : List ℕ → Node) (laws : IsLawful outside.crypto)
    (ivs : (k : ℕ) → length (outside.iv k) ≡ iv_size)
    (listening : (to : List ℕ)
      → IsListening outside.crypto st.sk_enc (turn_at to) (node_at to)) where
  all_react :
      (k : ℕ) (is : List PeerInformation) (pairs : List ReceiverBlobPair)
      → All (Fits st out) is
      → seal_all outside st out k is ≡ ok pairs
      → map
          (λ p. take_incoming (turn_at (address p.i.uri)) (node_at (address p.i.uri)) p.payload)
          pairs
        ≡ map (λ i. node_reaction outside.crypto st out i (node_at (address i.uri))) is
  unfolding seal_all
  all_react k [] pairs hs e = rw (← ok-inj e) refl
  all_react k (i ∷ is) pairs (h, hs) e =
      let (c, sealed, e₁) =
        >>=-eq-ok
          (encrypt outside.crypto (outside.iv k) st.sk_enc (plain_for out i) (aad_for st out i)) _
          e in
      let (rest, e₂, e₃) = >>=-eq-ok (seal_all outside st out (k + 1) is) _ e₁ in
      rw (← ok-inj e₃) (
        rw
          (
            node_takes outside.crypto (outside.iv k) c st out i (turn_at (address i.uri))
                (node_at (address i.uri)) laws (ivs k) h (listening (address i.uri)) sealed,
            all_react (k + 1) is rest hs e₂,
          )
          refl)

  -- For lawful primitives, vectors of the right size, and data of a round that fits the codecs, the
  -- sockets of the sender bring every ciphertext that the round seals to the address of its
  -- receiver, in the order of the receivers, and each started node there that shares the key takes
  -- it exactly as it would take the additional data and the plaintext themselves, if each peer has
  -- one address under which it is known, and the pairs are fewer than 2 ^ 31 and valid.
  pub round_arrives :
      (uri_of : ℕ → Uri) (is : List PeerInformation) (pairs : List ReceiverBlobPair)
      (nm : NetworkManager)
      → All (Fits st out) is
      → seal_all outside st out 0 is ≡ ok pairs
      → All (λ (s : ℕ × List ℕ). s.1 ≡ address (uri_of s.0)) nm.peers
      → All (λ (p : ReceiverBlobPair). p.i.uri ≡ uri_of p.i.id) pairs
      → All IsPair pairs
      → length pairs < 2 ^ 31
      → (calls : List SocketCall) × (nm' : NetworkManager) × (traffic_out_return
            (serialize_vec pairs)
            nm
          ≡ ok (calls, nm'))
        × (map (λ a. take_incoming (turn_at a.0) (node_at a.0) a.1) (arrivals nm.peers calls)
            ≡ map (λ i. node_reaction outside.crypto st out i (node_at (address i.uri))) is)
  round_arrives uri_of is pairs nm fits sealed right hs valid small =
      let (calls, nm', run, there, _) = traffic_arrives uri_of pairs nm right hs valid small in
      (calls, nm', run, rw there (map-map _ _ pairs ∙ all_react 0 is pairs fits sealed))

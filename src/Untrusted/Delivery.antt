-- ===== src/Untrusted/Delivery.antt =====
-- Where the bytes that an enclave hands over arrive.
use anonymous_communication.Base.{
  ℕ, ◌<◌, ◌^◌, true, false, List, [], ◌∷◌, ◌++◌, ok, ◌==◌, ==_iff, if◌then◌else◌, ◌≡◌, refl, sym,
  ap, arith, All, map, length, append-nil, Bool-cases, inl, inr, ◌∙◌,
}
use anonymous_communication.Serial.{serialize_vec}
use anonymous_communication.Serial.Vec.{vec_round_trip}
use anonymous_communication.Peer.{Uri, ReceiverBlobPair, IsPair, pair_serializable}
use anonymous_communication.Peer.Codec.{pair_round_trip}
use anonymous_communication.Text.{to_string, colon, is_digit}
use anonymous_communication.Text.Decimal.{to_string-Digits, stoi-to_string}
use anonymous_communication.Untrusted.Sockets.{
  NetworkManager, SocketCall, connect, send, is_peer, address, behind_colon, get_port_from_uri,
  send_msg_to_peer, send_pairs, traffic_out_return,
}

-- A socket delivers to the address that it was connected to.
abbrev connected_to : ℕ → List (ℕ × List ℕ) → List ℕ
connected_to id [] = []
connected_to id ((j, to) ∷ sockets) =
    let other = connected_to id sockets in if j == id then to else other

-- What arrives where, in the order in which it is sent.
abbrev pub arrivals : List (ℕ × List ℕ) → List SocketCall → List (List ℕ × List ℕ)
arrivals sockets [] = []
arrivals sockets (connect id to ∷ calls) = arrivals ((id, to) ∷ sockets) calls
arrivals sockets (send id bytes ∷ calls) = (connected_to id sockets, bytes) ∷ arrivals sockets calls

module _ (uri_of : ℕ → Uri) where
  abbrev pub IsRight : List (ℕ × List ℕ) → Type 0
  IsRight sockets = All (λ (s : ℕ × List ℕ). s.1 ≡ address (uri_of s.0)) sockets

  known :
      (id : ℕ) (sockets : List (ℕ × List ℕ))
      → IsRight sockets
      → is_peer id sockets ≡ true
      → connected_to id sockets ≡ address (uri_of id)
  unfolding is_peer
  known id [] right h = cc
  known id ((j, to) ∷ sockets) (here, right) h = elim (Bool-cases (j == id)) [
    | inl e ↦ rw e (here ∙ ap (λ k. address (uri_of k)) ((==_iff j id).0 e))
    | inr e ↦ rw e (known id sockets right (rw e at h))
  ]

  pairs_arrive :
      (pairs : List ReceiverBlobPair) (nm : NetworkManager)
      → IsRight nm.peers
      → All (λ (p : ReceiverBlobPair). p.i.uri ≡ uri_of p.i.id) pairs
      → (arrivals nm.peers (send_pairs pairs nm).0 ≡ map (λ p. (address p.i.uri, p.payload)) pairs)
        × IsRight (send_pairs pairs nm).1.peers
  unfolding send_pairs send_msg_to_peer
  pairs_arrive [] nm right hs = (refl, right)
  pairs_arrive (p ∷ ps) nm right (h, hs) = elim (Bool-cases (is_peer p.i.id nm.peers)) [
    | inl old ↦
        let (rest, right') = pairs_arrive ps nm right hs in
        rw old (rw (known p.i.id nm.peers right old ∙ sym (ap address h), rest) refl, right')
    | inr new ↦
        let (rest, right') =
          pairs_arrive ps (record nm { peers = (p.i.id, address p.i.uri) ∷ nm.peers })
            (ap address h, right) hs in
        rw new (rw ((==_iff p.i.id p.i.id).1 refl, rest) refl, right')
  ]

-- From the bytes of a vector of valid pairs, each payload arrives at the address of its receiver,
-- in the order of the pairs, as long as a peer has one address, under which it is known.
pub traffic_arrives :
    (uri_of : ℕ → Uri) (pairs : List ReceiverBlobPair) (nm : NetworkManager)
    → All (λ (s : ℕ × List ℕ). s.1 ≡ address (uri_of s.0)) nm.peers
    → All (λ (p : ReceiverBlobPair). p.i.uri ≡ uri_of p.i.id) pairs
    → All IsPair pairs
    → length pairs < 2 ^ 31
    → (calls : List SocketCall) × (nm' : NetworkManager) × (traffic_out_return
          (serialize_vec pairs)
          nm
        ≡ ok (calls, nm'))
      × (arrivals nm.peers calls ≡ map (λ p. (address p.i.uri, p.payload)) pairs)
      × All (λ (s : ℕ × List ℕ). s.1 ≡ address (uri_of s.0)) nm'.peers
unfolding traffic_out_return
traffic_arrives uri_of pairs nm right hs valid small =
    let (there, right') = pairs_arrive uri_of pairs nm right hs in
    (
      (send_pairs pairs nm).0,
      (send_pairs pairs nm).1,
      rw
          (
            traffic_out_return,
            rw append-nil at (vec_round_trip pair_round_trip pairs [] valid small),
          )
          refl,
      there,
      right',
    )

digit_no_colon : (c : ℕ) → is_digit c ≡ true → (c == colon) ≡ false
digit_no_colon c h = ground arith

no_colon : (found ds : List ℕ) → All (λ c. is_digit c ≡ true) ds → behind_colon found ds ≡ found
unfolding behind_colon
no_colon found [] h = refl
no_colon found (c ∷ cs) (h, hs) = rw (digit_no_colon c h) (no_colon found cs hs)

last_colon :
    (front found ds : List ℕ)
    → All (λ c. is_digit c ≡ true) ds
    → behind_colon found (front ++ (colon ∷ ds)) ≡ ds
unfolding behind_colon
last_colon [] found ds h = no_colon ds ds h
last_colon (c ∷ cs) found ds h = elim (Bool-cases (c == colon)) [
  | inl e ↦ rw e (last_colon cs (cs ++ (colon ∷ ds)) ds h)
  | inr e ↦ rw e (last_colon cs found ds h)
]

-- The port of an endpoint is the number behind its last colon, whatever stands before that.
pub bound_port_found :
    (front : List ℕ) (port : ℕ)
    → port < 2 ^ 31
    → get_port_from_uri (front ++ (colon ∷ to_string port)) ≡ ok port
unfolding get_port_from_uri
bound_port_found front port h =
    let ds = to_string-Digits port (omega arith) in
    rw
      (last_colon front (front ++ (colon ∷ to_string port)) (to_string port)
        (rw ds.split_up (ds.first_digit, ds.other_digits)))
      (rw append-nil at (stoi-to_string port [] h tt))

-- ===== src/Overlay/Codec.antt =====
-- The round trip of overlay messages, whose map of quorums is rebuilt entry by entry.
use anonymous_communication.Base.{
  ℕ, ◌<◌, true, List, [], ◌∷◌, ◌++◌, ok, ◌≡◌, refl, arith, length, append_assoc, append-nil, All,
  ltb, lt→ltb, ltb→lt, ◌∙◌,
}
use anonymous_communication.Std.{nat_less, update}
use anonymous_communication.Std.Map.{IsSorted}
use anonymous_communication.Serial.{◌>>=◌, serialize_number, serialize_vec}
use anonymous_communication.Serial.Number.{u8_round_trip, u64_round_trip}
use anonymous_communication.Serial.Vec.{vec_round_trip}
use anonymous_communication.Peer.{PeerInformation, serialize_peer, peer_serializable}
use anonymous_communication.Peer.Codec.{peer_round_trip}
use anonymous_communication.Overlay.{
  Gamma, OverlayStructureSchemeMessage, serialize_gamma, deserialize_gamma, serialize_overlay,
  deserialize_overlay, IsEntry, IsOverlay, overlay_serializable, type_number,
}

-- Every key of the map is below `k`.
abbrev pub Below : ℕ → Gamma → Type 0
Below k m = All (λ (e : ℕ × List PeerInformation). ltb e.0 k ≡ true) m

pub update-last :
    (k : ℕ) (ids : List PeerInformation) (m : Gamma)
    → Below k m
    → update k [] (λ _. ids) m ≡ m ++ ((k, ids) ∷ [])
unfolding update
update-last k ids [] h = refl
update-last k ids ((j, v) ∷ m) (h, hs) = ground (arith, update-last k ids m hs)

Below-snoc :
    (k j : ℕ) (ids : List PeerInformation) (m : Gamma)
    → k < j
    → Below k m
    → Below j (m ++ ((k, ids) ∷ []))
Below-snoc k j ids [] h b = (lt→ltb k j h, tt)
Below-snoc k j ids ((i, v) ∷ m) h (b, bs) = (ground arith, Below-snoc k j ids m h bs)

-- Every key of the map is below the first of the entries to come.
abbrev pub Fits : Gamma → Gamma → Type 0
Fits acc [] = Unit
Fits acc ((k, ids) ∷ entries) = Below k acc

pub Fits-next :
    (k : ℕ) (ids : List PeerInformation) (acc entries : Gamma)
    → All (λ (e : ℕ × List PeerInformation). ltb k e.0 ≡ true) entries
    → Below k acc
    → Fits (acc ++ ((k, ids) ∷ [])) entries
Fits-next k ids acc [] h b = tt
Fits-next k ids acc ((j, v) ∷ entries) (h, hs) b = Below-snoc k j ids acc (ltb→lt k j h) b

gamma_round_trip :
    (entries acc : Gamma) (rest : List ℕ)
    → IsSorted entries
    → All IsEntry entries
    → Fits acc entries
    → deserialize_gamma (length entries) acc (serialize_gamma entries ++ rest)
      ≡ ok (acc ++ entries, rest)
unfolding serialize_gamma deserialize_gamma
gamma_round_trip [] acc rest s h b = rw append-nil
gamma_round_trip ((k, ids) ∷ entries) acc rest (above, s) ((hk, hn, hp), hs) b =
    rw
      (
        append_assoc (serialize_number 8 k) (serialize_vec ids ++ serialize_gamma entries) rest,
        append_assoc (serialize_vec ids) (serialize_gamma entries) rest,
        u64_round_trip k (serialize_vec ids ++ (serialize_gamma entries ++ rest)) hk,
        vec_round_trip peer_round_trip ids (serialize_gamma entries ++ rest) hp hn,
        update-last k ids acc b,
        ◌>>=◌,
      )
      (gamma_round_trip entries (acc ++ ((k, ids) ∷ [])) rest s hs
          (Fits-next k ids acc entries above b)
        ∙ rw append_assoc)

pub Fits-nil : (entries : Gamma) → Fits [] entries
Fits-nil [] = tt
Fits-nil ((k, ids) ∷ entries) = tt

-- An overlay message whose numbers and lengths are below 2 ^ 31 and whose routes are sorted comes
-- back from its bytes, and the bytes behind it are left.
pub overlay_round_trip :
    (s : OverlayStructureSchemeMessage) (rest : List ℕ)
    → IsOverlay s
    → deserialize_overlay (serialize_overlay s ++ rest) ≡ ok (s, rest)
unfolding serialize_overlay deserialize_overlay
overlay_round_trip s rest (ht, hb, ho, hp, hn, hsort, he, hr, hrp) = simp append_assoc (
    rw (
      u8_round_trip (type_number s.t)
          (serialize_number 8 s.onid
            ++ (serialize_peer s.peer_information
                ++ (serialize_number 8 (length s.gamma_route)
                    ++ (serialize_gamma s.gamma_route ++ (serialize_vec s.gamma_receive ++ rest)))))
          hb,
      u64_round_trip s.onid
          (serialize_peer s.peer_information
            ++ (serialize_number 8 (length s.gamma_route)
                ++ (serialize_gamma s.gamma_route ++ (serialize_vec s.gamma_receive ++ rest))))
          ho,
      peer_round_trip s.peer_information
          (serialize_number 8 (length s.gamma_route)
            ++ (serialize_gamma s.gamma_route ++ (serialize_vec s.gamma_receive ++ rest)))
          hp,
      u64_round_trip (length s.gamma_route)
          (serialize_gamma s.gamma_route ++ (serialize_vec s.gamma_receive ++ rest)) hn,
      gamma_round_trip s.gamma_route [] (serialize_vec s.gamma_receive ++ rest) hsort he
          (Fits-nil s.gamma_route),
      vec_round_trip peer_round_trip s.gamma_receive rest hrp hr,
      ht,
      ◌>>=◌,
    ))

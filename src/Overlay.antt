-- ===== src/Overlay.antt =====
-- client/trusted/overlay_structure_scheme: messages and state of the overlay maintenance.
pub mod Codec
pub mod Hop
pub mod Phases
pub mod Update
pub mod Laws
pub mod Introductions
use anonymous_communication.Base.{
  ℕ, zero, suc, ◌+◌, ◌^◌, ◌<◌, ◌%◌, Bool, true, false, List, [], ◌∷◌, ◌++◌, length, if◌then◌else◌,
  ◌==◌, All, ◌≡◌, Option, none, some,
}
use anonymous_communication.Std.{nat_less, update, find}
use anonymous_communication.Std.Map.{IsSorted}
use anonymous_communication.Serial.{
  Serializable, Reader, ◌>>=◌, return, serialize_number, deserialize_number, serialize_vec,
  deserialize_vec,
}
use anonymous_communication.Peer.{
  PeerInformation, serialize_peer, deserialize_peer, peer_serializable, peer_less, IsPeer,
}

-- A `std::map<onid_t, std::vector<PeerInformation>>`.
abbrev pub Gamma : Type 0
Gamma = List (ℕ × List PeerInformation)

-- The values of the enumeration, whose underlying type is one byte.
pub data MessageType : Type 0 where
  emulate_request emulate_request_received hand_over self_introduce : MessageType
  unnamed : ℕ → MessageType

abbrev pub type_number : MessageType → ℕ
type_number emulate_request = 0
type_number emulate_request_received = 1
type_number hand_over = 2
type_number self_introduce = 3
type_number (unnamed n) = n

abbrev pub type_of : ℕ → MessageType
type_of zero = emulate_request
type_of (suc zero) = emulate_request_received
type_of (suc (suc zero)) = hand_over
type_of (suc (suc (suc zero))) = self_introduce
type_of (suc (suc (suc (suc n)))) = unnamed (suc (suc (suc (suc n))))

pub record OverlayStructureSchemeMessage : Type 0 where
  pub t : MessageType
  pub onid : ℕ
  pub peer_information : PeerInformation
  pub gamma_route : Gamma
  pub gamma_receive : List PeerInformation

unfoldable pub create_emulate_request : ℕ → PeerInformation → OverlayStructureSchemeMessage
create_emulate_request onid_prime i = record {
  t = emulate_request;
  onid = onid_prime;
  peer_information = i;
  gamma_route = [];
  gamma_receive = [];
}

unfoldable pub create_emulate_request_received : ℕ → PeerInformation → OverlayStructureSchemeMessage
create_emulate_request_received onid_prime i = record {
  t = emulate_request_received;
  onid = onid_prime;
  peer_information = i;
  gamma_route = [];
  gamma_receive = [];
}

-- `PeerInformation ()` has id 0 and leaves the address unset; `unset` stands for it.
unfoldable pub create_hand_over :
    PeerInformation → Gamma → List PeerInformation → OverlayStructureSchemeMessage
create_hand_over unset gamma_route gamma_receive = record {
  t = hand_over;
  onid = 0;
  peer_information = record unset { id = 0 };
  gamma_route = gamma_route;
  gamma_receive = gamma_receive;
}

-- The code gives this message the type of a hand-over.
unfoldable pub create_self_introduce : PeerInformation → OverlayStructureSchemeMessage
create_self_introduce i = record {
  t = hand_over;
  onid = 0;
  peer_information = i;
  gamma_route = [];
  gamma_receive = [];
}

-- The loop over the entries of `gamma_route`.
unfoldable pub serialize_gamma : Gamma → List ℕ
serialize_gamma [] = []
serialize_gamma ((onid, ids) ∷ gamma) =
    serialize_number 8 onid ++ (serialize_vec ids ++ serialize_gamma gamma)

unfoldable pub serialize_overlay : OverlayStructureSchemeMessage → List ℕ
serialize_overlay s =
    serialize_number 1 (type_number s.t)
    ++ (serialize_number 8 s.onid
        ++ (serialize_peer s.peer_information
            ++ (serialize_number 8 (length s.gamma_route)
                ++ (serialize_gamma s.gamma_route ++ serialize_vec s.gamma_receive))))

-- `result.gamma_route[onid] = ...`, with the rounds left.
unfoldable pub deserialize_gamma : ℕ → Gamma → Reader Gamma
deserialize_gamma zero gamma = return gamma
deserialize_gamma (suc left) gamma = do
  onid ← deserialize_number 8
  ids ← deserialize_vec
  deserialize_gamma left (update onid [] (λ _. ids) gamma)

unfoldable pub deserialize_overlay : Reader OverlayStructureSchemeMessage
deserialize_overlay = do
  t ← deserialize_number 1
  onid ← deserialize_number 8
  peer ← deserialize_peer
  gamma_route_size ← deserialize_number 8
  gamma_route ← deserialize_gamma gamma_route_size []
  gamma_receive ← deserialize_vec
  return (record {
    t = type_of t;
    onid = onid;
    peer_information = peer;
    gamma_route = gamma_route;
    gamma_receive = gamma_receive;
  })

instance abbrev pub overlay_serializable : Serializable OverlayStructureSchemeMessage
overlay_serializable = record { serialize = serialize_overlay; deserialize = deserialize_overlay }

-- What `update` returns.
pub record OverlayReturnTuple : Type 0 where
  pub onid_emul : ℕ
  pub gamma_agree : List PeerInformation
  pub gamma_send : List PeerInformation
  pub gamma_route : Gamma
  pub gamma_receive : List PeerInformation
  pub s_overlay_prime : List (PeerInformation × List OverlayStructureSchemeMessage)

-- The members of the class; the two that no function uses are left out.
pub record OverlayStructureScheme : Type 0 where
  pub onid_assoc : ℕ
  pub onid_emul : ℕ
  pub gamma_agree : List PeerInformation
  pub gamma_send : List PeerInformation
  pub gamma_receive : List PeerInformation
  pub gamma_route : Gamma
  pub overlay_dimension : ℕ
  pub reconfiguration_time : ℕ
  pub own_id : PeerInformation
  pub onid_emul_prev : ℕ
  pub onid_emul_new : ℕ
  pub gamma_agree_prev : Gamma
  pub gamma_send_new : List PeerInformation
  pub gamma_route_new : Gamma
  pub gamma_route_succ : Gamma
  pub gamma_route_prev : Gamma
  pub gamma_receive_new : List PeerInformation

-- Objects that the codec carries.
abbrev pub IsEntry : ℕ × List PeerInformation → Type 0
IsEntry e = (e.0 < 2 ^ 31) × (length e.1 < 2 ^ 31) × All IsPeer e.1

abbrev pub IsOverlay : OverlayStructureSchemeMessage → Type 0
IsOverlay s =
    (type_of (type_number s.t) ≡ s.t)
    × (type_number s.t < 2 ^ 8)
    × (s.onid < 2 ^ 31)
    × IsPeer s.peer_information
    × (length s.gamma_route < 2 ^ 31)
    × IsSorted s.gamma_route
    × All IsEntry s.gamma_route
    × (length s.gamma_receive < 2 ^ 31)
    × All IsPeer s.gamma_receive

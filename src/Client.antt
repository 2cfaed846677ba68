-- ===== src/Client.antt =====
-- client/trusted/client_enclave.h: the state of an enclave of the network.
pub mod Aad
pub mod Start
pub mod Join
pub mod Pseudonyms
pub mod Send
pub mod TrafficIn
pub mod Agreements
pub mod Outgoing
pub mod TrafficOut
pub mod Uniform
pub mod Sorted
pub mod Bounds
pub mod Limits
pub mod Truncation
pub mod Replay
pub mod Rounds
pub mod Reception
pub mod Users
pub mod Reachable
pub mod Calls
pub mod Mailbox
use anonymous_communication.Base.{ℕ, Bool, List, [], ◌∷◌, if◌then◌else◌}
use anonymous_communication.Std.{set_insert}
use anonymous_communication.Peer.{PeerInformation, peer_less}
use anonymous_communication.Message.{MessageTuple, tuple_lt, DecryptedPseudonym}
use anonymous_communication.Message.Schemes.{AgreementTuple, RoutingSchemeTuple}
use anonymous_communication.Agreement.{DistributedAgreementScheme}
use anonymous_communication.Overlay.{OverlayStructureScheme, OverlayStructureSchemeMessage}

-- The local state of one run of the agreement scheme.
pub record AgreementLocalTuple : Type 0 where
  pub message : MessageTuple
  pub aware : Bool
  pub agreement_scheme : DistributedAgreementScheme
  pub participating_nodes : List PeerInformation
  pub round : ℕ

-- One half of the arrays `in_structure_` to `in_deliver_` and `traffic_in_received_from_`, whose
-- keys are all mapped to `true`.
pub record Inbox : Type 0 where
  pub in_structure : List OverlayStructureSchemeMessage
  pub in_announce : List MessageTuple
  pub in_agreement : List AgreementTuple
  pub in_inject : List MessageTuple
  pub in_routing : List (List RoutingSchemeTuple)
  pub in_predeliver : List MessageTuple
  pub in_deliver : List MessageTuple
  pub received_from : List PeerInformation

abbrev pub empty_inbox : Inbox
empty_inbox = record {
  in_structure = [];
  in_announce = [];
  in_agreement = [];
  in_inject = [];
  in_routing = [];
  in_predeliver = [];
  in_deliver = [];
  received_from = [];
}

-- `in_now` and `in_next` are the halves 0 and 1 of the arrays.
pub record ClientEnclave : Type 0 where
  pub initialized : Bool
  pub init_time : ℕ
  pub init_time_nonce : List ℕ
  pub overlay_dimension : ℕ
  pub m_corrupt : ℕ
  pub max_quorum_size : ℕ
  pub max_routing_msg_out : ℕ
  pub onid_repr : ℕ
  pub onid_emul : ℕ
  pub own_id : PeerInformation
  pub sk_pseud : List ℕ
  pub sk_enc : List ℕ
  pub sk_routing : List ℕ
  pub q_in_for_pseudonyms : List (List MessageTuple)
  pub q_out : List MessageTuple
  pub num_q_out_entries : List (List (ℕ × ℕ))
  pub pseudonyms : List DecryptedPseudonym
  pub overlay_structure_scheme : OverlayStructureScheme
  pub in_now : Inbox
  pub in_next : Inbox
  pub agreement_tuples : List AgreementLocalTuple
  pub cur_round : ℕ
  pub gamma_agree_for_round : List (List PeerInformation)

-- A `std::priority_queue` with `std::greater`, as the list of its elements in the order in which
-- they leave; elements with the same `t_dst`, whose order the container leaves open, leave in the
-- order in which they came.
unfoldable pub push_queue : MessageTuple → List MessageTuple → List MessageTuple
push_queue x [] = x ∷ []
push_queue x (y ∷ ys) = let rest = push_queue x ys in if tuple_lt x y then x ∷ y ∷ ys else y ∷ rest

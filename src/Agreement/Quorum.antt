-- ===== src/Agreement/Quorum.antt =====
-- The agreement of a quorum on one message, in rounds: `update` at every node, with the joining of
-- nodes that `traffic_out` of client/trusted/client_enclave.cpp does.
pub mod Outcome
pub mod Missed
use anonymous_communication.Base.{
  ℕ, zero, suc, ◌+◌, Bool, true, false, not, ◌||◌, List, [], ◌∷◌, ◌++◌, if◌then◌else◌,
}
use anonymous_communication.Peer.{PeerInformation, peer_eq}
use anonymous_communication.Agreement.{
  DistributedAgreementScheme, DistributedAgreementSchemePair, new_scheme, empty, update,
}

-- A node, whether it is to be told that it is aware, and whether it has a run for the message.
pub record Participant : Type 0 where
  pub id : PeerInformation
  pub aware : Bool
  pub joined : Bool
  pub scheme : DistributedAgreementScheme

-- `s_m`: the nodes that are named in what has arrived at a node.
unfoldable pub addressed :
    PeerInformation → List DistributedAgreementSchemePair → List PeerInformation
addressed i [] = []
addressed i (p ∷ ps) =
    let rest = addressed i ps in if peer_eq p.receiver i then p.aware_node ∷ rest else rest

-- The round of one node. Without a run it gets one as soon as something arrives.
unfoldable pub take_part :
    List PeerInformation
    → List DistributedAgreementSchemePair
    → Participant
    → List DistributedAgreementSchemePair × Participant
unfolding addressed
take_part ids arrived p =
    let s_m = addressed p.id arrived in
    if p.joined || not (empty s_m)
    then (let (out, scheme) = update p.scheme p.aware ids p.id s_m 0 in
        (out, record p { aware = false; joined = true; scheme = scheme }))
    else ([], p)

-- One round of all nodes: what they send, and the nodes.
unfoldable pub lockstep :
    List PeerInformation
    → List DistributedAgreementSchemePair
    → List Participant
    → List DistributedAgreementSchemePair × List Participant
unfolding take_part
lockstep ids arrived [] = ([], [])
lockstep ids arrived (p ∷ ps) =
    let (out, p') = take_part ids arrived p in
    let (more, ps') = lockstep ids arrived ps in (out ++ more, p' ∷ ps')

-- Rounds in which all that is sent arrives in the next one.
unfoldable pub rounds :
    ℕ
    → List PeerInformation
    → List DistributedAgreementSchemePair
    → List Participant
    → List DistributedAgreementSchemePair × List Participant
unfolding lockstep
rounds zero ids arrived ps = (arrived, ps)
rounds (suc n) ids arrived ps = let (sent, ps') = lockstep ids arrived ps in rounds n ids sent ps'

-- The nodes that a message was announced to have a run, and are told so.
abbrev pub beginner : (PeerInformation → Bool) → PeerInformation → Participant
beginner aware i = record { id = i; aware = aware i; joined = aware i; scheme = new_scheme }

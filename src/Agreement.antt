-- ===== src/Agreement.antt =====
-- client/trusted/distributed_agreement_scheme.cpp: one run of the agreement on a message.
pub mod Laws
pub mod Quorum
use anonymous_communication.Base.{
  ℕ, ◌+◌, Bool, true, false, List, [], ◌∷◌, ◌++◌, map, if◌then◌else◌, leb, length,
}
use anonymous_communication.Std.{set_insert, set_insert_all}
use anonymous_communication.Peer.{PeerInformation, peer_less}

pub record DistributedAgreementScheme : Type 0 where
  pub set_s_i : List PeerInformation

pub record DistributedAgreementSchemePair : Type 0 where
  pub receiver : PeerInformation
  pub aware_node : PeerInformation

abbrev pub empty : List PeerInformation → Bool
empty [] = true
empty (x ∷ xs) = false

abbrev pub new_scheme : DistributedAgreementScheme
new_scheme = record { set_s_i = [] }

-- The two loops that pair each receiver with each node of `s_out`.
unfoldable pub pairs :
    List PeerInformation → List PeerInformation → List DistributedAgreementSchemePair
pairs [] s_out = []
pairs (id ∷ ids) s_out =
    map (λ s. record { receiver = id; aware_node = s }) s_out ++ pairs ids s_out

-- The round number `l` is not used.
unfoldable pub update :
    DistributedAgreementScheme
    → Bool
    → List PeerInformation
    → PeerInformation
    → List PeerInformation
    → ℕ
    → List DistributedAgreementSchemePair × DistributedAgreementScheme
update st aware participating_nodes own_id s_m l =
    let set₁ = if aware then set_insert own_id st.set_s_i else st.set_s_i in
    let s_out₁ = if aware then own_id ∷ [] else [] in
    let set₂ =
      if empty set₁
      then set_insert own_id set₁
      else if empty s_m
      then set₁
      else set_insert_all s_m set₁ in
    let s_out₂ = if empty set₁ then s_out₁ ++ set_insert own_id set₁ else s_out₁ in
    (pairs participating_nodes s_out₂, record { set_s_i = set₂ })

unfoldable pub finalize :
    DistributedAgreementScheme
    → PeerInformation
    → List PeerInformation
    → ℕ
    → Bool × DistributedAgreementScheme
finalize st own_id s_m t =
    let set = set_insert own_id (set_insert_all s_m st.set_s_i) in
    (leb (t + 1) (length set), record { set_s_i = set })

-- ===== src/Agreement/Laws.antt =====
-- What a run of the agreement sends and decides.
use anonymous_communication.Base.{
  ℕ, ◌≤◌, Bool, true, false, ◌||◌, List, [], ◌∷◌, map, if◌then◌else◌, length, ◌≡◌, refl, arith, ap,
}
use anonymous_communication.Std.{set_insert, set_insert_all}
use anonymous_communication.Peer.{PeerInformation, peer_less}
use anonymous_communication.Agreement.{DistributedAgreementScheme, update, finalize, pairs, empty}

pub pairs_own :
    (ids : List PeerInformation) (own : PeerInformation)
    → pairs ids (own ∷ []) ≡ map (λ id. record { receiver = id; aware_node = own }) ids
unfolding pairs
pairs_own [] own = refl
pairs_own (id ∷ ids) own = ap (◌∷◌ (record { receiver = id; aware_node = own })) (pairs_own ids own)

pub pairs_nil : (ids : List PeerInformation) → pairs ids [] ≡ []
unfolding pairs
pairs_nil [] = refl
pairs_nil (id ∷ ids) = pairs_nil ids

pub insert-empty :
    (own : PeerInformation) (s : List PeerInformation) → empty (set_insert own s) ≡ false
unfolding set_insert
insert-empty own [] = refl
insert-empty own (j ∷ s) = ground arith

unaware_sends :
    (ids : List PeerInformation) (own : PeerInformation) (s : List PeerInformation)
    → pairs ids (if empty s then set_insert own s else [])
      ≡ (if empty s then map (λ id. record { receiver = id; aware_node = own }) ids else [])
unaware_sends ids own [] = unfold set_insert in pairs_own ids own
unaware_sends ids own (j ∷ s) = pairs_nil ids

-- A node speaks for itself alone, to every participating node, in its first update and whenever
-- it is told that it is aware; in all other updates it sends nothing.
pub update_sends :
    (st : DistributedAgreementScheme) (aware : Bool) (ids : List PeerInformation)
    (own : PeerInformation) (s_m : List PeerInformation) (l : ℕ)
    → (update st aware ids own s_m l).0 ≡ (
        if aware || empty st.set_s_i
        then map (λ id. record { receiver = id; aware_node = own }) ids
        else [])
unfolding update
update_sends st true ids own s_m l = rw (insert-empty own st.set_s_i) (pairs_own ids own)
update_sends st false ids own s_m l = unaware_sends ids own st.set_s_i

length-set_insert-pos :
    (own : PeerInformation) (s : List PeerInformation) → 1 ≤ length (set_insert own s)
unfolding set_insert
length-set_insert-pos own [] = omega arith
length-set_insert-pos own (j ∷ s) = ground arith

-- With threshold 0, which is what every caller passes, the decision is always positive.
pub finalize_accepts :
    (st : DistributedAgreementScheme) (own : PeerInformation) (s_m : List PeerInformation)
    → (finalize st own s_m 0).0 ≡ true
unfolding finalize
finalize_accepts st own s_m =
    ground (arith, length-set_insert-pos own (set_insert_all s_m st.set_s_i))

-- ===== src/Agreement/Quorum/Outcome.antt =====
-- Which nodes the agreement of a quorum ends with at each of its nodes.
use anonymous_communication.Base.{
  Bool, true, false, not, ◌&&◌, ◌||◌, List, [], ◌∷◌, ◌++◌, map, keep, if◌then◌else◌, ◌≡◌, refl,
  arith, ap, ◌∙◌, All, Bool-cases, inl, inr,
}
use anonymous_communication.Std.{Less, set_insert, set_insert_all, set_count, equiv}
use anonymous_communication.Std.Order.{IsWeak}
use anonymous_communication.Std.Map.{equiv_lt_left, equiv_lt_right}
use anonymous_communication.Peer.{PeerInformation, peer_less, peer_eq}
use anonymous_communication.Agreement.{DistributedAgreementSchemePair, empty, update, pairs}
use anonymous_communication.Agreement.Laws.{pairs_nil}
use anonymous_communication.Agreement.Quorum.{Participant, addressed, take_part, lockstep, beginner}

module _ {ℓ} {K : Type ℓ} ⦃o : Less K⦄ (w : IsWeak o.lt) where
  count-insert :
      (j k : K) (s : List K) → set_count j (set_insert k s) ≡ (equiv j k || set_count j s)
  unfolding set_insert set_count
  count-insert j k [] = refl
  count-insert j k (i ∷ s) =
      ground (arith, count-insert j k s, equiv_lt_left w k i j, equiv_lt_right w k i j)

  pub count-insert_all :
      (j : K) (ks s : List K)
      → set_count j (set_insert_all ks s) ≡ (set_count j ks || set_count j s)
  unfolding set_insert_all set_count
  count-insert_all j [] s = refl
  count-insert_all j (k ∷ ks) s =
      count-insert_all j ks (set_insert k s) ∙ ground (arith, count-insert j k s)

nothing_heard :
    (heard set : List PeerInformation)
    → (if empty heard then set else set_insert_all heard set) ≡ set_insert_all heard set
unfolding set_insert_all
nothing_heard [] set = refl
nothing_heard (k ∷ ks) set = refl

module _ (ids : List PeerInformation) where
  -- What is sent by nodes, one after the other.
  abbrev pub said :
      (PeerInformation → List DistributedAgreementSchemePair)
      → List PeerInformation
      → List DistributedAgreementSchemePair
  said out [] = []
  said out (i ∷ is) = out i ++ said out is

  -- What nodes send when those that pass a test speak for themselves.
  abbrev pub own_name :
      (PeerInformation → Bool) → PeerInformation → List DistributedAgreementSchemePair
  own_name f i = if f i then pairs ids (i ∷ []) else []

  pub lockstep-map :
      (arrived : List DistributedAgreementSchemePair) (start end : PeerInformation → Participant)
      (out : PeerInformation → List DistributedAgreementSchemePair) (is : List PeerInformation)
      → All (λ i. take_part ids arrived (start i) ≡ (out i, end i)) is
      → lockstep ids arrived (map start is) ≡ (said out is, map end is)
  unfolding lockstep
  lockstep-map arrived start end out [] h = refl
  lockstep-map arrived start end out (i ∷ is) (h, hs) =
      rw (h, lockstep-map arrived start end out is hs) refl

  -- A node with a run.
  abbrev pub runner : PeerInformation → List PeerInformation → Participant
  runner i set = record { id = i; aware = false; joined = true; scheme = record { set_s_i = set } }

  -- A node after the first round.
  abbrev pub told : (PeerInformation → Bool) → PeerInformation → Participant
  told aware i = if aware i then runner i (i ∷ []) else beginner (λ _. false) i

  pub first_part :
      (aware : PeerInformation → Bool) (i : PeerInformation)
      → take_part ids [] (beginner aware i) ≡ (own_name aware i, told aware i)
  unfolding take_part update set_insert
  first_part aware i = elim (Bool-cases (aware i)) [ inl e ↦ rw e refl | inr e ↦ rw e refl ]

  -- A node with a run takes in what it hears, and is silent.
  pub settled_part :
      (arrived : List DistributedAgreementSchemePair) (i : PeerInformation)
      (set : List PeerInformation)
      → empty set ≡ false
      → take_part ids arrived (runner i set)
        ≡ ([], runner i (set_insert_all (addressed i arrived) set))
  unfolding take_part update
  settled_part arrived i set h =
      rw (h, pairs_nil ids)
        (ap (λ set'. ([], runner i set')) (nothing_heard (addressed i arrived) set))

  -- A node without one starts its own and does not take in what it hears.
  pub joining_part :
      (arrived : List DistributedAgreementSchemePair) (i : PeerInformation)
      → empty (addressed i arrived) ≡ false
      → take_part ids arrived (beginner (λ _. false) i) ≡ (pairs ids (i ∷ []), runner i (i ∷ []))
  unfolding take_part update set_insert
  joining_part arrived i h = rw h refl

abbrev pub isin : PeerInformation → List PeerInformation → Bool
isin i [] = false
isin i (r ∷ rs) = peer_eq r i || isin i rs

abbrev pub some_pass : (PeerInformation → Bool) → List PeerInformation → Bool
some_pass f [] = false
some_pass f (i ∷ is) = f i || some_pass f is

addressed-append :
    (i : PeerInformation) (ps qs : List DistributedAgreementSchemePair)
    → addressed i (ps ++ qs) ≡ addressed i ps ++ addressed i qs
unfolding addressed
addressed-append i [] qs = refl
addressed-append i (p ∷ ps) qs = elim (Bool-cases (peer_eq p.receiver i)) [
  | inl e ↦ rw (e, addressed-append i ps qs) refl
  | inr e ↦ rw (e, addressed-append i ps qs) refl
]

count-append :
    (j : PeerInformation) (xs ys : List PeerInformation)
    → set_count j (xs ++ ys) ≡ (set_count j xs || set_count j ys)
unfolding set_count
count-append j [] ys = refl
count-append j (x ∷ xs) ys = ground (arith, count-append j xs ys)

-- A name that is sent to all nodes is heard by each of them.
count_pairs :
    (i j a : PeerInformation) (rs : List PeerInformation)
    → set_count j (addressed i (pairs rs (a ∷ []))) ≡ (isin i rs && equiv j a)
unfolding pairs addressed set_count
count_pairs i j a [] = refl
count_pairs i j a (r ∷ rs) = ground (arith, count_pairs i j a rs)

empty-pairs :
    (i a : PeerInformation) (rs : List PeerInformation)
    → empty (addressed i (pairs rs (a ∷ []))) ≡ not (isin i rs)
unfolding pairs addressed
empty-pairs i a [] = refl
empty-pairs i a (r ∷ rs) = ground (arith, empty-pairs i a rs)

empty-append : (xs ys : List PeerInformation) → empty (xs ++ ys) ≡ (empty xs && empty ys)
empty-append [] ys = refl
empty-append (x ∷ xs) ys = refl

module _ (ids : List PeerInformation) (i : PeerInformation) (member : isin i ids ≡ true)
    (f : PeerInformation → Bool) where
  pub count_heard :
      (j : PeerInformation) (is : List PeerInformation)
      → set_count j (addressed i (said ids (own_name ids f) is)) ≡ set_count j (keep f is)
  unfolding set_count
  count_heard j [] = unfold addressed in refl
  count_heard j (k ∷ ks) = elim (Bool-cases (f k)) [
    | inl e ↦
        rw
          (
            e,
            addressed-append i (pairs ids (k ∷ [])) (said ids (own_name ids f) ks),
            count-append j (addressed i (pairs ids (k ∷ [])))
                (addressed i (said ids (own_name ids f) ks)),
            count_pairs i j k ids,
            member,
            count_heard j ks,
          )
          refl
    | inr e ↦ rw e (count_heard j ks)
  ]

  pub empty_heard :
      (is : List PeerInformation)
      → empty (addressed i (said ids (own_name ids f) is)) ≡ not (some_pass f is)
  empty_heard [] = unfold addressed in refl
  empty_heard (k ∷ ks) = elim (Bool-cases (f k)) [
    | inl e ↦
        rw
          (
            e,
            addressed-append i (pairs ids (k ∷ [])) (said ids (own_name ids f) ks),
            empty-append (addressed i (pairs ids (k ∷ [])))
                (addressed i (said ids (own_name ids f) ks)),
            empty-pairs i k ids,
            member,
          )
          refl
    | inr e ↦ rw e (empty_heard ks)
  ]

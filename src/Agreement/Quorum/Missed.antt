-- ===== src/Agreement/Quorum/Missed.antt =====
-- Nodes that join the agreement late miss the names of those that were aware from the start.
use anonymous_communication.Base.{
  ℕ, zero, suc, Bool, true, false, not, ◌&&◌, ◌||◌, List, [], ◌∷◌, map, keep, if◌then◌else◌, ◌≡◌,
  refl, arith, ap, ◌∙◌, All, All-weaken, All-of, All-map, Bool-cases, inl, inr,
}
use anonymous_communication.Std.{set_insert, set_insert_all, set_count, equiv}
use anonymous_communication.Peer.{PeerInformation, peer_less, peer_eq, uri_eq}
use anonymous_communication.Message.Order.{peer_lt-IsWeak}
use anonymous_communication.Agreement.{DistributedAgreementSchemePair, empty}
use anonymous_communication.Agreement.Laws.{insert-empty}
use anonymous_communication.Agreement.Quorum.{
  Participant, addressed, take_part, lockstep, rounds, beginner,
}
use anonymous_communication.Agreement.Quorum.Outcome.{
  count-insert_all, said, own_name, lockstep-map, runner, told, first_part, settled_part,
  joining_part, isin, some_pass, count_heard, empty_heard,
}

peer_eq_refl : (i : PeerInformation) → peer_eq i i ≡ true
unfolding peer_eq uri_eq
peer_eq_refl i = ground arith

peer_eq_sound : (i j : PeerInformation) → peer_eq i j ≡ true → i ≡ j
unfolding peer_eq uri_eq
peer_eq_sound i j h = ground arith

all_isin : (is : List PeerInformation) → All (λ i. isin i is ≡ true) is
all_isin [] = tt
all_isin (i ∷ is) = (
  rw (peer_eq_refl i) refl,
  All-weaken (λ k. isin k is ≡ true) (λ k. isin k (i ∷ is) ≡ true) is (λ k h. ground (arith, h))
      (all_isin is),
)

isin-keep :
    (i : PeerInformation) (f : PeerInformation → Bool) (is : List PeerInformation)
    → f i ≡ true
    → isin i is ≡ true
    → isin i (keep f is) ≡ true
isin-keep i f [] p h = h
isin-keep i f (k ∷ ks) p h = elim (Bool-cases (peer_eq k i)) [
  | inl e ↦ rw (ap f (peer_eq_sound k i e) ∙ p, e) refl
  | inr e ↦
      let more = isin-keep i f ks p (rw e at h) in
      elim (Bool-cases (f k)) [ inl t ↦ rw (t, e) more | inr t ↦ rw t more ]
]

insert_all-empty :
    (ks s : List PeerInformation) → empty s ≡ false → empty (set_insert_all ks s) ≡ false
unfolding set_insert_all
insert_all-empty [] s h = h
insert_all-empty (k ∷ ks) s h = insert_all-empty ks (set_insert k s) (insert-empty k s)

module _ (ids : List PeerInformation) (aware : PeerInformation → Bool)
    (announced : some_pass aware ids ≡ true) where
  abbrev unaware : PeerInformation → Bool
  unaware i = not (aware i)

  -- What arrives in the second round, and in the third.
  abbrev first_sent : List DistributedAgreementSchemePair
  first_sent = said ids (own_name ids aware) ids

  abbrev second_sent : List DistributedAgreementSchemePair
  second_sent = said ids (own_name ids unaware) ids

  abbrev known : PeerInformation → List PeerInformation
  known i = if aware i then set_insert_all (addressed i first_sent) (i ∷ []) else i ∷ []

  abbrev final : PeerInformation → List PeerInformation
  final i = set_insert_all (addressed i second_sent) (known i)

  known-empty : (i : PeerInformation) → empty (known i) ≡ false
  known-empty i = elim (Bool-cases (aware i)) [
    | inl e ↦ rw e (insert_all-empty (addressed i first_sent) (i ∷ []) refl)
    | inr e ↦ rw e refl
  ]

  second_part :
      (i : PeerInformation)
      → isin i ids ≡ true
      → take_part ids first_sent (told ids aware i)
        ≡ (own_name ids unaware i, runner ids i (known i))
  second_part i h = elim (Bool-cases (aware i)) [
    | inl e ↦ rw e (settled_part ids first_sent i (i ∷ []) refl)
    | inr e ↦
        rw e (joining_part ids first_sent i (empty_heard ids i h aware ids ∙ ap not announced))
  ]

  silent : (is : List PeerInformation) → said ids (λ _. []) is ≡ []
  silent [] = refl
  silent (i ∷ is) = silent is

  settled_rounds :
      (arrived : List DistributedAgreementSchemePair)
      (set_of : PeerInformation → List PeerInformation) (is : List PeerInformation)
      → ((i : PeerInformation) → empty (set_of i) ≡ false)
      → lockstep ids arrived (map (λ i. runner ids i (set_of i)) is)
        ≡ ([], map (λ i. runner ids i (set_insert_all (addressed i arrived) (set_of i))) is)
  settled_rounds arrived set_of is h =
      lockstep-map ids arrived (λ i. runner ids i (set_of i))
        (λ i. runner ids i (set_insert_all (addressed i arrived) (set_of i))) (λ _. []) is
        (All-of _ is (λ i. settled_part ids arrived i (set_of i) (h i)))
      ∙ rw (silent is) refl

  quiet_round :
      (set_of : PeerInformation → List PeerInformation)
      → ((i : PeerInformation) → empty (set_of i) ≡ false)
      → lockstep ids [] (map (λ i. runner ids i (set_of i)) ids)
        ≡ ([], map (λ i. runner ids i (set_of i)) ids)
  unfolding addressed set_insert_all
  quiet_round set_of h = settled_rounds [] set_of ids h

  quiet_rounds :
      (n : ℕ) (set_of : PeerInformation → List PeerInformation)
      → ((i : PeerInformation) → empty (set_of i) ≡ false)
      → rounds n ids [] (map (λ i. runner ids i (set_of i)) ids)
        ≡ ([], map (λ i. runner ids i (set_of i)) ids)
  unfolding rounds
  quiet_rounds zero set_of h = refl
  quiet_rounds (suc n) set_of h = rw (quiet_round set_of h) (quiet_rounds n set_of h)

  -- The first three rounds, and all that follow.
  all_rounds :
      (n : ℕ)
      → rounds (suc (suc (suc n))) ids [] (map (beginner aware) ids)
        ≡ ([], map (λ i. runner ids i (final i)) ids)
  unfolding rounds
  all_rounds n =
      rw
        (
          lockstep-map ids [] (beginner aware) (told ids aware) (own_name ids aware) ids
              (All-of _ ids (first_part ids aware)),
          lockstep-map ids first_sent (told ids aware) (λ i. runner ids i (known i))
              (own_name ids unaware) ids (All-weaken _ _ ids second_part (all_isin ids)),
          settled_rounds second_sent known ids known-empty,
        )
        (quiet_rounds n final
          (λ i. insert_all-empty (addressed i second_sent) (known i) (known-empty i)))

  itself :
      (i j : PeerInformation) (is : List PeerInformation)
      → isin i is ≡ true
      → (set_count j is || equiv j i) ≡ set_count j is
  unfolding set_count
  itself i j [] h = cc
  itself i j (k ∷ ks) h = elim (Bool-cases (peer_eq k i)) [
    | inl e ↦ rw (peer_eq_sound k i e) (ground arith)
    | inr e ↦ ground (arith, itself i j ks (rw e at h))
  ]

  parted :
      (j : PeerInformation) (is : List PeerInformation)
      → (set_count j (keep unaware is) || set_count j (keep aware is)) ≡ set_count j is
  unfolding set_count
  parted j [] = refl
  parted j (k ∷ ks) = elim (Bool-cases (aware k)) [
    | inl e ↦ rw e (unfold set_count in ground (arith, parted j ks))
    | inr e ↦ rw e (unfold set_count in ground (arith, parted j ks))
  ]

  known_count :
      (i : PeerInformation)
      → isin i ids ≡ true
      → (j : PeerInformation)
      → set_count j (known i) ≡ ((aware i && set_count j (keep aware ids)) || equiv j i)
  unfolding set_count
  known_count i h j = elim (Bool-cases (aware i)) [
    | inl e ↦ rw e (
        count-insert_all peer_lt-IsWeak j (addressed i first_sent) (i ∷ [])
        ∙ rw (count_heard ids i h aware j ids) (ground arith))
    | inr e ↦ rw e (ground arith)
  ]

  final_count :
      (i : PeerInformation)
      → isin i ids ≡ true
      → (j : PeerInformation)
      → set_count j (final i) ≡ set_count j (if aware i then ids else keep unaware ids)
  final_count i h j =
      count-insert_all peer_lt-IsWeak j (addressed i second_sent) (known i)
      ∙ rw (count_heard ids i h unaware j ids, known_count i h j)
          (elim (Bool-cases (aware i)) [
            | inl e ↦ rw e (ground (arith, parted j ids, itself i j ids h))
            | inr e ↦ rw e (itself i j (keep unaware ids) (isin-keep i unaware ids (ap not e) h))
          ])

  same_ids :
      (is : List PeerInformation) → map (λ p. p.id) (map (λ i. runner ids i (final i)) is) ≡ is
  same_ids [] = refl
  same_ids (i ∷ is) = ap (◌∷◌ i) (same_ids is)

  -- If a message was announced to some of the nodes of a quorum, and the others join the agreement
  -- when they first hear of it, then from the third round on nothing is sent, a node that it was
  -- announced to has all nodes in its set, and any other has only those that it was not announced
  -- to.
  pub late_nodes_miss_aware :
      (n : ℕ)
      → (ps : List Participant) × (rounds (suc (suc (suc n))) ids [] (map (beginner aware) ids)
          ≡ ([], ps))
        × (map (λ p. p.id) ps ≡ ids)
        × All
            (λ p.
              (j : PeerInformation)
              → set_count j p.scheme.set_s_i
                ≡ set_count j (if aware p.id then ids else keep unaware ids))
            ps
  late_nodes_miss_aware n = (
    map (λ i. runner ids i (final i)) ids,
    all_rounds n,
    same_ids ids,
    All-map _ (λ i. runner ids i (final i)) ids (All-weaken _ _ ids final_count (all_isin ids)),
  )

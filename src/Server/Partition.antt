-- ===== src/Server/Partition.antt =====
-- The association of the clients with the quorums.
use anonymous_communication.Base.{
  take-drop, ℕ, zero, suc, ◌+◌, ◌*◌, ◌-◌, ◌≤◌, ◌<◌, true, false, List, [], ◌∷◌, ◌++◌, ok, length,
  get_elem?, take, drop, set, ltb, ◌==◌, if◌then◌else◌, ◌≡◌, refl, arith, ap, sym, ◌∙◌, append-nil,
  append_assoc, some,
}
use anonymous_communication.Peer.{PeerInformation}
use anonymous_communication.Server.{
  in_quorum, quorum_loop, associate, num_quorum_nodes, num_required_clients, num_nodes_per_quorum,
}

-- The first client of the quorum `i`; the last quorum takes the rest.
abbrev start : ℕ → ℕ
start i = if i == num_quorum_nodes then num_required_clients else i * num_nodes_per_quorum

module _ {ℓ} {A : Type ℓ} where
  drop_next :
      (xs : List A) (j : ℕ)
      → j < length xs
      → (x : A) × (get_elem? xs j ≡ some x) × (drop j xs ≡ x ∷ drop (suc j) xs)
  drop_next [] j h = absurd (omega arith)
  drop_next (x ∷ xs) zero h = (x, refl, refl)
  drop_next (x ∷ xs) (suc j) h = drop_next xs j (omega arith)

  drop-drop : (n m k : ℕ) (xs : List A) → k ≡ m + n → drop n (drop m xs) ≡ drop k xs
  drop-drop n zero k xs e = ap (λ (t : ℕ). drop t xs) (omega arith)
  drop-drop zero (suc m) zero [] e = refl
  drop-drop zero (suc m) (suc k) [] e = refl
  drop-drop (suc n) (suc m) zero [] e = refl
  drop-drop (suc n) (suc m) (suc k) [] e = refl
  drop-drop n (suc m) zero (x ∷ xs) e = absurd (omega arith)
  drop-drop n (suc m) (suc k) (x ∷ xs) e = drop-drop n m k xs (omega arith)

in_quorum_iff : (i j : ℕ) → i < 8 → in_quorum i j ≡ ltb j (start (suc i))
in_quorum_iff i j h = ground arith

-- With as many rounds as clients the loop collects the clients of its quorum.
quorum_loop_lem :
    (left i j count : ℕ) (clients peers : List PeerInformation) (assoc : List ℕ)
    → i < 8
    → j + count ≡ start (suc i)
    → start (suc i) ≤ length clients
    → count < left
    → (assoc' : List ℕ) × (quorum_loop left i j clients peers assoc
        ≡ ok (peers ++ take count (drop j clients), assoc'))
unfolding quorum_loop
quorum_loop_lem zero i j count clients peers assoc hi hj hl hc = absurd (omega arith)
quorum_loop_lem (suc left) i j zero clients peers assoc hi hj hl hc =
    (assoc, rw (in_quorum_iff i j hi, stop, append-nil) refl)
  where
    stop : ltb j (start (suc i)) ≡ false
    stop = ground arith
quorum_loop_lem (suc left) i j (suc count) clients peers assoc hi hj hl hc =
    let (c, found, split) = drop_next clients j (omega arith) in
    let (assoc', rest) =
      quorum_loop_lem left i (j + 1) count clients (peers ++ (c ∷ [])) (set assoc j i) hi
        (omega arith) hl (omega arith) in
    let next = ap (λ (t : ℕ). c ∷ drop t clients) (step j) in
    (
      assoc',
      rw (in_quorum_iff i j hi, more, found, split ∙ next)
          (rest ∙ rw (append_assoc peers (c ∷ []) (take count (drop (j + 1) clients))) refl),
    )
  where
    step : (n : ℕ) → suc n ≡ n + 1
    step n = omega arith

    more : ltb j (start (suc i)) ≡ true
    more = ground arith

abbrev pub append_all : List (List PeerInformation) → List PeerInformation
append_all [] = []
append_all (q ∷ qs) = q ++ append_all qs

drop_all : (n : ℕ) (xs : List PeerInformation) → length xs ≤ n → drop n xs ≡ []
drop_all zero [] h = refl
drop_all zero (x ∷ xs) h = absurd (omega arith)
drop_all (suc n) [] h = refl
drop_all (suc n) (x ∷ xs) h = drop_all n xs (omega arith)

associate_lem :
    (left i : ℕ) (clients : List PeerInformation) (assoc : List ℕ)
    → i + left ≡ 8
    → length clients ≡ num_required_clients
    → (quorums : List (List PeerInformation)) × (assoc' : List ℕ) × (associate left i clients assoc
        ≡ ok (quorums, assoc'))
      × (append_all quorums ≡ drop (start i) clients)
unfolding associate
associate_lem zero i clients assoc hi hl =
    ([], assoc, refl, sym (drop_all (start i) clients (ground arith)))
associate_lem (suc left) i clients assoc hi hl =
    let (assoc₁, here) =
      quorum_loop_lem num_required_clients i (i * num_nodes_per_quorum)
        (start (suc i) - i * num_nodes_per_quorum) clients [] assoc (omega arith) (fits hi)
        (within hi) (few hi) in
    let (quorums, assoc₂, rest, parts) =
      associate_lem left (i + 1) clients assoc₁ (omega arith) hl in
    (
      take (start (suc i) - i * num_nodes_per_quorum) (drop (i * num_nodes_per_quorum) clients)
          ∷ quorums,
      assoc₂,
      rw (here, rest) refl,
      rw parts (joined hi),
    )
  where
    fits :
        i + suc left ≡ 8
        → i * num_nodes_per_quorum + (start (suc i) - i * num_nodes_per_quorum) ≡ start (suc i)
    fits h = ground arith

    within : i + suc left ≡ 8 → start (suc i) ≤ length clients
    within h = ground arith

    few : i + suc left ≡ 8 → start (suc i) - i * num_nodes_per_quorum < num_required_clients
    few h = ground arith

    first : i + suc left ≡ 8 → start i ≡ i * num_nodes_per_quorum
    first h = ground arith

    next : i + suc left ≡ 8 → start (i + 1) ≡ start (suc i)
    next h = ground arith

    joined :
        i + suc left ≡ 8
        → take (start (suc i) - i * num_nodes_per_quorum) (drop (i * num_nodes_per_quorum) clients)
            ++ drop (start (i + 1)) clients
          ≡ drop (start i) clients
    joined h =
        rw
          (
            next h,
            first h,
            ← drop-drop (start (suc i) - i * num_nodes_per_quorum) (i * num_nodes_per_quorum)
                (start (suc i)) clients (sym (fits h)),
          )
          (take-drop (start (suc i) - i * num_nodes_per_quorum)
            (drop (i * num_nodes_per_quorum) clients))

-- For the required number of clients the association with quorums succeeds, the fuel of its loop
-- being enough, and the quorums put together are the list of all clients in their order.
pub associate_partitions :
    (clients : List PeerInformation) (assoc : List ℕ)
    → length clients ≡ num_required_clients
    → (quorums : List (List PeerInformation)) × (assoc' : List ℕ) × (associate num_quorum_nodes 0
          clients assoc
        ≡ ok (quorums, assoc'))
      × (append_all quorums ≡ clients)
associate_partitions clients assoc h = associate_lem num_quorum_nodes 0 clients assoc refl h

-- ===== src/Server/System/Parts.antt =====
-- The quorums that `associate` and `emulate` make have no more peers than there are clients.
use anonymous_communication.Base.{
  ℕ, zero, suc, ◌+◌, ◌*◌, ◌<◌, ◌≤◌, ◌^◌, ◌%◌, List, [], ◌∷◌, ◌++◌, ok, checked, get_elem?, set,
  length, length-append, ◌≡◌, refl, sym, ap, ◌∙◌, arith, All, All-snoc, >>=-eq-ok, ok-inj, subst,
}
use anonymous_communication.Peer.{PeerInformation}
use anonymous_communication.Layout.RoundTrip.{IsWide}
use anonymous_communication.Client.Users.{length-set}
use anonymous_communication.Client.Limits.{All-get, All-set}
use anonymous_communication.Server.{
  quorum_loop, num_nodes_per_quorum, number_clients, associate, emulate, num_required_clients,
  num_quorum_nodes,
}
use anonymous_communication.Server.Messages.{IsQuorum}
use anonymous_communication.Server.Partition.{append_all, associate_partitions}

pub length-number_clients :
    (i : ℕ) (clients : List PeerInformation) → length (number_clients i clients) ≡ length clients
unfolding number_clients
length-number_clients i [] = refl
length-number_clients i (c ∷ clients) = ap suc (length-number_clients (i + 1) clients)

pub number_clients-IsWide :
    (i : ℕ) (clients : List PeerInformation)
    → i + length clients < 2 ^ 64
    → All IsWide clients
    → All IsWide (number_clients i clients)
unfolding number_clients
number_clients-IsWide i [] h w = tt
number_clients-IsWide i (c ∷ clients) h (wc, w) =
    ((omega arith, wc.1), number_clients-IsWide (i + 1) clients (omega arith) w)

All-append-left {ℓ κ} : {A : Type ℓ} (P : A → Type κ) (xs ys : List A) → All P (xs ++ ys) → All P xs
All-append-left P [] ys h = tt
All-append-left P (x ∷ xs) ys (h, hs) = (h, All-append-left P xs ys hs)

All-append-right {ℓ κ} :
    {A : Type ℓ} (P : A → Type κ) (xs ys : List A) → All P (xs ++ ys) → All P ys
All-append-right P [] ys h = h
All-append-right P (x ∷ xs) ys (h, hs) = All-append-right P xs ys hs

-- The parts of a list of clients are quorums.
parts_quorums :
    (quorums : List (List PeerInformation))
    → length (append_all quorums) ≤ num_required_clients
    → All IsWide (append_all quorums)
    → All IsQuorum quorums
parts_quorums [] h w = tt
parts_quorums (q ∷ qs) h w = (
  (omega (arith, length-append q (append_all qs)), All-append-left IsWide q (append_all qs) w),
  parts_quorums qs (omega (arith, length-append q (append_all qs)))
      (All-append-right IsWide q (append_all qs) w),
)

pub length-associate :
    (left i : ℕ) (clients : List PeerInformation) (assoc assoc' : List ℕ)
    (quorums : List (List PeerInformation))
    → associate left i clients assoc ≡ ok (quorums, assoc')
    → length quorums ≡ left
unfolding associate
length-associate zero i clients assoc assoc' quorums e = ap (λ r. length (r.0)) (sym (ok-inj e))
length-associate (suc left) i clients assoc assoc' quorums e =
    let ((peers, assoc₁), _, e₁) =
      >>=-eq-ok (quorum_loop num_required_clients i (i * num_nodes_per_quorum) clients [] assoc) _
        e in
    let ((rest, assoc₂), more, e₂) = >>=-eq-ok (associate left (i + 1) clients assoc₁) _ e₁ in
    ap (λ r. length (r.0)) (sym (ok-inj e₂))
    ∙ ap suc (length-associate left (i + 1) clients assoc₁ assoc₂ rest more)

pub associate_quorums :
    (clients : List PeerInformation) (assoc assoc' : List ℕ) (quorums : List (List PeerInformation))
    → length clients ≡ num_required_clients
    → All IsWide clients
    → associate num_quorum_nodes 0 clients assoc ≡ ok (quorums, assoc')
    → All IsQuorum quorums
associate_quorums clients assoc assoc' quorums many wide e =
    let (parts, _, split, together) = associate_partitions clients assoc many in
    subst (All IsQuorum) (ap (λ r. r.0) (ok-inj (sym split ∙ e)))
      (parts_quorums parts (rw (together, many) (omega arith)) (rw together wide))

-- A quorum of at most so many peers.
abbrev pub IsPart : ℕ → List PeerInformation → Type 0
IsPart n q = (length q ≤ n) × All IsWide q

grown : (n : ℕ) (qs : List (List PeerInformation)) → All (IsPart n) qs → All (IsPart (n + 1)) qs
grown n [] h = tt
grown n (q ∷ qs) ((few, w), hs) = ((omega arith, w), grown n qs hs)

pub emulate_parts :
    (left i : ℕ) (random : ℕ → ℕ) (clients : List PeerInformation)
    (quorums quorums' : List (List PeerInformation)) (emul emul' : List ℕ)
    → All IsWide clients
    → All (IsPart i) quorums
    → emulate left i random clients quorums emul ≡ ok (quorums', emul')
    → All (IsPart (i + left)) quorums' × (length quorums' ≡ length quorums)
unfolding emulate
emulate_parts zero i random clients quorums quorums' emul emul' w h e =
    subst (λ qs. All (IsPart (i + 0)) qs × (length qs ≡ length quorums)) (ap (λ r. r.0) (ok-inj e))
      (subst (λ (n : ℕ). All (IsPart n) quorums) (omega arith) h, refl)
emulate_parts (suc left) i random clients quorums quorums' emul emul' w h e =
    let (c, at_i, e₁) = >>=-eq-ok (checked (get_elem? clients i)) _ e in
    let (peers, at_q, e₂) =
      >>=-eq-ok (checked (get_elem? quorums (random i % num_quorum_nodes))) _ e₁ in
    let (few, wide) = All-get (IsPart i) quorums _ peers h at_q in
    let (parts, same) =
      emulate_parts left (i + 1) random clients
        (set quorums (random i % num_quorum_nodes) (peers ++ (c ∷ []))) quorums'
        (set emul i (random i % num_quorum_nodes)) emul' w
        (All-set (IsPart (i + 1)) quorums _ (peers ++ (c ∷ [])) (grown i quorums h) (
          omega (arith, length-append peers (c ∷ [])),
          All-snoc IsWide peers c wide (All-get IsWide clients i c w at_i),
        ))
        e₂ in
    (
      subst (λ (n : ℕ). All (IsPart n) quorums') (omega arith) parts,
      same ∙ length-set quorums (random i % num_quorum_nodes) (peers ++ (c ∷ [])),
    )

pub parts_are_quorums :
    (qs : List (List PeerInformation)) → All (IsPart num_required_clients) qs → All IsQuorum qs
parts_are_quorums [] h = tt
parts_are_quorums (q ∷ qs) (h, hs) = (h, parts_are_quorums qs hs)

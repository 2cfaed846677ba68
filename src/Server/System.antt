-- ===== src/Server/System.antt =====
-- The start of the whole network: `initialize_system` and the init messages that it leads to.
mod Parts
use anonymous_communication.Base.{
  ℕ, zero, suc, ◌+◌, ◌*◌, ◌<◌, ◌≤◌, ◌^◌, ◌%◌, List, [], ◌∷◌, ◌++◌, ok, some, none, checked,
  get_elem?, set, drop, length, length-append, replicate, ◌≡◌, refl, sym, ap, ◌∙◌, arith, All,
  All-snoc, >>=-eq-ok, ok-inj, subst, map, Result, ◌>>=◌,
}
use anonymous_communication.Peer.{Uri, PeerInformation}
use anonymous_communication.Layout.Start.{serialize_init}
use anonymous_communication.Layout.RoundTrip.{IsWide, layout_size}
use anonymous_communication.Client.{ClientEnclave}
use anonymous_communication.Client.Start.{InitData, received_init}
use anonymous_communication.Client.Join.{received_msg_from_server}
use anonymous_communication.Client.Users.{length-set}
use anonymous_communication.Client.Limits.{All-get, All-set}
use anonymous_communication.Server.{
  ServerEnclave, Keys, quorum_loop, num_nodes_per_quorum, number_clients, associate, emulate,
  assert_emulated, init_message, init_messages, initialize_system, num_required_clients,
  num_quorum_nodes,
}
use anonymous_communication.Server.Join.{send_init_messages}
use anonymous_communication.Server.Messages.{IsQuorum, server_starts_client}
use anonymous_communication.Server.Partition.{append_all, associate_partitions}
use Parts.{
  length-number_clients, number_clients-IsWide, IsPart, emulate_parts, parts_are_quorums,
  length-associate, associate_quorums,
}

after : (i : ℕ) → suc i ≡ i + 1
after i = omega arith

at_front {ℓ} :
    {A : Type ℓ} (i : ℕ) (xs : List A) (x : A)
    → checked (get_elem? xs i) ≡ ok x
    → drop i xs ≡ x ∷ drop (suc i) xs
at_front i [] x h = cc
at_front zero (y ∷ ys) x h = ap (λ z. z ∷ ys) (ok-inj h)
at_front (suc i) (y ∷ ys) x h = at_front i ys x h

module _ (quorum_bound : ℕ → ℕ) (routing_bound : ℕ → ℕ → ℕ) (reading : Uri → ℕ × List ℕ)
    (client_at : Uri → ClientEnclave) {B : Type 0} (next : Uri → ClientEnclave → Result B) where
  -- The starts of clients, each with its message, and what is done `next`.
  abbrev pub starts : List InitData → List PeerInformation → List (Result B)
  starts [] clients = []
  starts (m ∷ messages) [] = []
  starts (m ∷ messages) (c ∷ clients) =
      (received_init quorum_bound routing_bound (reading c.uri) m (client_at c.uri) >>= next c.uri)
      ∷ starts messages clients

  -- What clients do with the bytes that come to their addresses.
  abbrev pub receptions : List (Uri × List ℕ) → List (Result B)
  receptions sent =
      map
        (λ s.
          received_msg_from_server quorum_bound routing_bound (some (reading (s.0))) (s.1)
            (client_at (s.0))
          >>= next (s.0))
        sent

  module _ (fresh : ℕ → List ℕ) where
    -- The bytes of the messages can be written, and each client that takes those for its address is
    -- started with its own message.
    abbrev pub Started : List InitData → List PeerInformation → Type 0
    Started messages clients =
        (sent : List (Uri × List ℕ)) × (send_init_messages fresh messages clients ≡ ok sent)
        × (receptions sent ≡ starts messages clients)

    Started-first :
        (m : InitData) (c : PeerInformation) (messages : List InitData)
        (clients : List PeerInformation) (bytes : List ℕ) (size : ℕ)
        → serialize_init fresh m ≡ ok (bytes, size)
        → received_msg_from_server quorum_bound routing_bound
            (some (reading c.uri))
            bytes
            (client_at c.uri)
          ≡ received_init quorum_bound routing_bound (reading c.uri) m (client_at c.uri)
        → Started messages clients
        → Started (m ∷ messages) (c ∷ clients)
    unfolding send_init_messages
    Started-first m c messages clients bytes size written started (sent, put, same) =
        ((c.uri, bytes) ∷ sent, rw (written, put) refl, rw (started, same) refl)

  module _ (sks : Keys) (fresh : ℕ → List ℕ)
      (keys : (length sks.sk_pseud ≡ 16) × (length sks.sk_enc ≡ 16) × (length sks.sk_routing ≡ 16))
      (full : (n : ℕ) → length (fresh n) ≡ n) where
    messages_start :
        (left i : ℕ) (associated emulated : List (List PeerInformation))
        (clients : List PeerInformation) (assoc emul : List ℕ) (messages : List InitData)
        → All IsQuorum associated
        → All IsQuorum emulated
        → length emulated < 2 ^ 64
        → length associated < 2 ^ 64
        → All IsWide clients
        → init_messages left i sks associated emulated clients assoc emul ≡ ok messages
        → Started fresh messages (drop i clients)
    unfolding init_messages send_init_messages
    messages_start zero i associated emulated clients assoc emul messages qa qe se sa w e =
        subst (λ ms. Started fresh ms (drop i clients)) (ok-inj e) ([], refl, refl)
    messages_start (suc left) i associated emulated clients assoc emul messages qa qe se sa w e =
        let (c, at_i, e₁) = >>=-eq-ok (checked (get_elem? clients i)) _ e in
        let (a, _, e₂) = >>=-eq-ok (checked (get_elem? assoc i)) _ e₁ in
        let (q, _, e₃) = >>=-eq-ok (checked (get_elem? emul i)) _ e₂ in
        let (m, made, e₄) = >>=-eq-ok (init_message sks associated emulated c a q) _ e₃ in
        let (ms, more, e₅) =
          >>=-eq-ok (init_messages left (i + 1) sks associated emulated clients assoc emul) _ e₄ in
        let (bytes, written, started) =
          server_starts_client sks associated emulated c a q m fresh quorum_bound routing_bound
            (reading c.uri) (client_at c.uri) keys qa qe se sa (All-get IsWide clients i c w at_i)
            full made in
        subst (λ ms. Started fresh ms (drop i clients)) (ok-inj e₅)
          (subst (Started fresh (m ∷ ms)) (sym (front i c at_i)) (
            Started-first fresh m c ms (drop (i + 1) clients) bytes (layout_size m) written started
              (messages_start left (i + 1) associated emulated clients assoc emul ms qa qe se sa w
                more)))
      where
        front :
            (i : ℕ) (c : PeerInformation)
            → checked (get_elem? clients i) ≡ ok c
            → drop i clients ≡ c ∷ drop (i + 1) clients
        front i c h = at_front i clients c h ∙ ap (λ (n : ℕ). c ∷ drop n clients) (after i)

    -- If the server can initialize the system for the required number of clients, then the bytes
    -- of all init messages can be written, and each client that takes those for its address is
    -- started with its own init message.
    pub system_starts :
        (random : ℕ → ℕ) (st st' : ServerEnclave) (messages : List InitData)
        → length st.clients ≡ num_required_clients
        → All IsWide st.clients
        → initialize_system sks random st ≡ ok (messages, st')
        → Started fresh messages st'.clients
    unfolding initialize_system
    system_starts random st st' messages number wide e =
        let clients = number_clients 0 st.clients in
        let many : length clients ≡ num_required_clients =
          length-number_clients 0 st.clients ∙ number in
        let wides : All IsWide clients = number_clients-IsWide 0 st.clients (omega arith) wide in
        let ((associated, assoc), done, e₁) =
          >>=-eq-ok (associate num_quorum_nodes 0 clients (replicate num_required_clients 0)) _ e in
        let ((emulated, emul), drawn, e₂) =
          >>=-eq-ok
            (emulate num_required_clients 0 random clients (replicate num_quorum_nodes [])
              (replicate num_required_clients 0))
            _ e₁ in
        let (_, _, e₃) = >>=-eq-ok (assert_emulated emulated) _ e₂ in
        let (made, told, e₄) =
          >>=-eq-ok
            (init_messages num_required_clients 0 sks associated emulated clients assoc emul) _
            e₃ in
        let (few, count) =
          emulate_parts num_required_clients 0 random clients (replicate num_quorum_nodes [])
            emulated (replicate num_required_clients 0) emul wides (ground arith) drawn in
        let qa =
          associate_quorums clients (replicate num_required_clients 0) assoc associated many wides
            done in
        let eight =
          length-associate num_quorum_nodes 0 clients (replicate num_required_clients 0) assoc
            associated done in
        subst (λ r. Started fresh (r.0) ((r.1).clients)) (ok-inj e₄)
          (messages_start num_required_clients 0 associated emulated clients assoc emul made qa
            (parts_are_quorums emulated few) (omega arith) (omega arith) wides told)

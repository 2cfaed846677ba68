-- ===== src/Network/Boot.antt =====
-- The start of the network: the login server, its clients that join, and their nodes.
use anonymous_communication.Base.{
  ℕ, ◌+◌, Bool, true, false, not, List, [], ◌∷◌, ◌++◌, Option, some, Result, ok, >>=-eq-ok, ok-inj,
  length, length-append, append_assoc, map, All, All-snoc, ◌≡◌, refl, ap, ◌∙◌, subst, arith,
  Bool-cases, inl, inr, if-cases,
}
use mathlib.Core.List.{map-map}
use anonymous_communication.Peer.{Uri, PeerInformation}
use anonymous_communication.Layout.Start.{put_join, join_size}
use anonymous_communication.Layout.RoundTrip.{IsWide}
use anonymous_communication.Client.{ClientEnclave}
use anonymous_communication.Client.Start.{InitData}
use anonymous_communication.Server.{
  ServerEnclave, num_required_clients, initialize_system, main_loop as ecall_main_loop,
}
use anonymous_communication.Server.Join.{last_join_sends}
use anonymous_communication.Server.System.{starts, receptions, system_starts}
use anonymous_communication.Untrusted.Sockets.{uri_text}
use anonymous_communication.Untrusted.Node.{Node, Turn, take_incoming}
use anonymous_communication.Untrusted.Server.{
  ServerNode, ClientCall, connect, send, Draws, send_msg_to_client, send_to_clients, main_loop, run,
  is_client,
}
use anonymous_communication.Untrusted.Registration.{
  run_on, Joins, no_joins, quiet, joins, clients_register, last_client_ends_loop,
}

-- The messages among the calls, each with its recipient.
abbrev pub deliveries : List ClientCall → List (List ℕ × List ℕ)
deliveries [] = []
deliveries (connect to ∷ calls) = deliveries calls
deliveries (send to bytes ∷ calls) = (to, bytes) ∷ deliveries calls

all_delivered :
    (sent : List (Uri × List ℕ)) (clients : List (List ℕ))
    → deliveries ((send_to_clients sent clients).0) ≡ map (λ s. (uri_text (s.0), s.1)) sent
unfolding send_to_clients send_msg_to_client
all_delivered [] clients = refl
all_delivered ((uri, bytes) ∷ sent) clients = elim (Bool-cases (is_client (uri_text uri) clients)) [
  | inl old ↦ rw old (rw (all_delivered sent clients) refl)
  | inr new ↦ rw new (rw (all_delivered sent (uri_text uri ∷ clients)) refl)
]

not_over : {b : Bool} → not (not b) ≡ false → b ≡ false
not_over {b} h = ground arith

-- Rounds that do not end the loop, and rounds after them.
run-append :
    (draws : Draws) (earlier later : List (Option (List ℕ))) (node node' last : ServerNode)
    (calls more : List ClientCall) (left : Bool)
    → run draws earlier node ≡ ok (calls, false, node')
    → run draws later node' ≡ ok (more, left, last)
    → run draws (earlier ++ later) node ≡ ok (calls ++ more, left, last)
unfolding run ecall_main_loop
run-append draws [] later node node' last calls more left e f =
    subst
      (λ (r : List ClientCall × Bool × ServerNode).
        run draws later (r.2) ≡ ok (more, left, last)
        → run draws later node ≡ ok (r.0 ++ more, left, last))
      (ok-inj e) (λ g. g) f
run-append draws (message ∷ earlier) later node node' last calls more left e f =
    let ((here, mid), done, e₁) = >>=-eq-ok (main_loop draws message node) _ e in
    elim (if-cases (not (ecall_main_loop mid.enclave)) e₁) [
      | inl (_, stop) ↦ cc stop
      | inr (go, rest) ↦
          let ((behind, ended, after), there, e₂) = >>=-eq-ok (run draws earlier mid) _ rest in
          let same = ok-inj e₂ in
          subst
            (λ (cs : List ClientCall).
              run draws (message ∷ (earlier ++ later)) node ≡ ok (cs ++ more, left, last))
            (ap (λ r. r.0) same)
            (rw (append_assoc here behind more) (
              run_on draws message (earlier ++ later) node mid last here (behind ++ more) left done
                (not_over go)
                (run-append draws earlier later mid node' last behind more left
                  (rw (← ap (λ r. r.1) same, ← ap (λ r. r.2) same) there) f)))
    ]

Joins-IsWide :
    (peers : List PeerInformation) (messages : List (Option (List ℕ)))
    → Joins peers messages
    → All IsWide peers
Joins-IsWide _ _ no_joins = tt
Joins-IsWide peers _ (quiet {messages = messages} rest) = Joins-IsWide peers messages rest
Joins-IsWide _ _
      (joins {p = p} {peers = peers} {messages = messages} cells bytes room wide put rest) =
    (wide, Joins-IsWide peers messages rest)

abbrev pub lonely : ServerNode
lonely = record { clients = []; enclave = record { clients = []; initialized = false } }

module _ (turn : Turn) (readings : List ℕ → ℕ × List ℕ) (node_at : List ℕ → Node) where
  -- The round of the node at an address, with its own reading of the clock.
  abbrev pub turn_at : List ℕ → Turn
  turn_at to = record turn { clock = some (readings to) }

  abbrev pub reading_of : Uri → ℕ × List ℕ
  reading_of uri = readings (uri_text uri)

  abbrev pub client_of : Uri → ClientEnclave
  client_of uri = (node_at (uri_text uri)).enclave

  -- The node at an address, started with an enclave.
  abbrev pub node_with : Uri → ClientEnclave → Result Node
  node_with uri enclave = ok (record {
    network = record ((node_at (uri_text uri)).network) { initialized = true };
    enclave = enclave;
  })

  nodes_take :
      ((to : List ℕ) → (node_at to).network.initialized ≡ false)
      → (sent : List (Uri × List ℕ))
      → map (λ s. take_incoming (turn_at (uri_text (s.0))) (node_at (uri_text (s.0))) (s.1)) sent
        ≡ receptions turn.quorum_bound turn.routing_bound reading_of client_of node_with sent
  unfolding take_incoming
  nodes_take off [] = refl
  nodes_take off ((uri, bytes) ∷ sent) = simp (off (uri_text uri), nodes_take off sent)

  -- If all required clients but one have joined an empty server in any rounds, keys have 16 bytes,
  -- the memory that is handed out has the size that was asked for, the nodes are not started, and
  -- the system can be initialized with what was drawn, then the message of the last client ends the
  -- loop of the server, and each message that it then sends makes the node at its address, which
  -- takes it, behave as started with the init message of that client.
  pub network_boots :
      (draws : Draws) (peers : List PeerInformation) (p : PeerInformation)
      (earlier later : List (Option (List ℕ))) (cells bytes : List ℕ) (told : List InitData)
      (server : ServerEnclave)
      → (length draws.sks.sk_pseud ≡ 16)
        × (length draws.sks.sk_enc ≡ 16)
        × (length draws.sks.sk_routing ≡ 16)
      → ((n : ℕ) → length (draws.fresh n) ≡ n)
      → ((to : List ℕ) → (node_at to).network.initialized ≡ false)
      → Joins peers earlier
      → length cells ≡ join_size
      → IsWide p
      → put_join p cells ≡ ok (bytes, [])
      → length peers + 1 ≡ num_required_clients
      → initialize_system draws.sks draws.random
          (record { clients = peers ++ (p ∷ []); initialized = false })
        ≡ ok (told, server)
      → (calls : List ClientCall) × (node : ServerNode) × (run draws
            (earlier ++ (some bytes ∷ later))
            lonely
          ≡ ok (calls, true, node))
        × (map (λ d. take_incoming (turn_at (d.0)) (node_at (d.0)) (d.1)) (deliveries calls)
            ≡ starts turn.quorum_bound turn.routing_bound reading_of client_of node_with told
                server.clients)
  unfolding main_loop
  network_boots draws peers p earlier later cells bytes told server keys full off early room wide
        put last e =
      let before : ServerNode = record lonely {
        enclave = record { clients = peers; initialized = false };
      } in
      let all = peers ++ (p ∷ []) in
      let (sent, written, started) =
        system_starts turn.quorum_bound turn.routing_bound reading_of client_of node_with draws.sks
          draws.fresh keys full draws.random (record { clients = all; initialized = false }) server
          told (omega (arith, length-append peers (p ∷ [])))
          (All-snoc IsWide peers p (Joins-IsWide peers earlier early) wide) e in
      let answered =
        last_join_sends draws.sks draws.random draws.fresh cells bytes p before.enclave server told
          sent room wide put last e written in
      let calls = (send_to_clients sent []).0 in
      let node : ServerNode = record { clients = (send_to_clients sent []).1; enclave = server } in
      (
        calls,
        node,
        run-append draws earlier (some bytes ∷ later) lonely before node [] calls true
            (clients_register draws peers earlier lonely early refl (omega arith))
            (last_client_ends_loop draws p cells bytes later before node calls room wide put last
              (rw answered refl)),
        rw (all_delivered sent []) (map-map _ _ sent ∙ nodes_take off sent ∙ started),
      )

-- ===== src/Tests/Boot.antt =====
-- The start of the network on concrete clients.
use anonymous_communication.Base.{
  ℕ, zero, suc, ◌+◌, ◌<◌, ◌^◌, true, false, List, [], ◌∷◌, ◌++◌, Option, some, none, Result, ok,
  ◌≡◌, refl, arith, replicate, length, length-replicate, map, All,
}
use anonymous_communication.Peer.{PeerInformation}
use anonymous_communication.Layout.Start.{put_join}
use anonymous_communication.Layout.RoundTrip.{IsWide, join_message_round_trip}
use anonymous_communication.Client.Start.{InitData}
use anonymous_communication.Server.{
  ServerEnclave, initialize_system, associate, quorum_loop, number_clients, emulate,
  assert_emulated, init_messages, init_message, neighbor_routes,
}
use anonymous_communication.Neighbors.{for_all_neighbors, flipped}
use anonymous_communication.Std.{nat_less, update as map_update}
use anonymous_communication.Untrusted.Node.{Node, take_incoming}
use anonymous_communication.Untrusted.Server.{ServerNode, ClientCall, Draws, run}
use anonymous_communication.Untrusted.Registration.{Joins, no_joins, quiet, joins}
use anonymous_communication.Tests.Samples.{is_ok, outcome, sample_turn, sample_client}
use anonymous_communication.Network.Boot.{
  network_boots, deliveries, lonely, turn_at, reading_of, client_of, node_with,
}
use anonymous_communication.Server.System.{starts}

-- Clients on different ports of one host.
abbrev client_on : ℕ → PeerInformation
client_on port = record {
  id = 0;
  uri = record { ip1 = 127; ip2 = 0; ip3 = 0; ip4 = 1; port = port };
}

clients_from : ℕ → ℕ → List PeerInformation
clients_from zero port = []
clients_from (suc n) port = client_on port ∷ clients_from n (port + 1)

clients-IsWide : (n port : ℕ) → port + n < 2 ^ 64 → All IsWide (clients_from n port)
unfolding clients_from
clients-IsWide zero port h = tt
clients-IsWide (suc n) port h =
    ((omega arith, omega arith), clients-IsWide n (port + 1) (omega arith))

-- Their join messages, each behind a quiet round.
join_all :
    (peers : List PeerInformation)
    → All IsWide peers
    → (messages : List (Option (List ℕ))) × Joins peers messages
join_all [] w = ([], no_joins)
join_all (p ∷ peers) (h, w) =
    let (bytes, _, made, _, _, _) = join_message_round_trip (replicate 48 0) p refl h in
    let (messages, more) = join_all peers w in
    (none ∷ (some bytes ∷ messages), quiet (joins (replicate 48 0) bytes refl h made more))

draws : Draws
draws = record {
  sks = record { sk_pseud = replicate 16 1; sk_enc = replicate 16 2; sk_routing = replicate 16 3 };
  random = λ i. i;
  fresh = λ n. replicate n 0;
}

abbrev others : List PeerInformation
unfolding clients_from
others = clients_from 80 5000

others-IsWide : All IsWide others
unfolding clients_from
others-IsWide = clients-IsWide 80 5000 (omega arith)

last-IsWide : IsWide (client_on 5080)
last-IsWide = (omega arith, omega arith)

abbrev last_client : PeerInformation
last_client = client_on 5080

-- The initialization with all of them.
abbrev start : Result (List InitData × ServerEnclave)
start =
    initialize_system draws.sks draws.random
      (record { clients = others ++ (last_client ∷ []); initialized = false })

start_returns : is_ok start ≡ true
unfolding is_ok initialize_system draws clients_from associate quorum_loop number_clients emulate
    assert_emulated init_messages init_message neighbor_routes for_all_neighbors flipped map_update
start_returns = refl

started : (r : List InitData × ServerEnclave) × (start ≡ ok r)
started = outcome start start_returns

last_join : (bytes : List ℕ) × (put_join last_client (replicate 48 0) ≡ ok (bytes, []))
last_join =
    let (bytes, _, made, _, _, _) =
      join_message_round_trip (replicate 48 0) last_client refl last-IsWide in
    (bytes, made)

node_at : List ℕ → Node
node_at to = record {
  network = record { peers = []; initialized = false; in_port = 5000 };
  enclave = record sample_client { initialized = false };
}

early_joins : (messages : List (Option (List ℕ))) × Joins others messages
early_joins = join_all others others-IsWide

eighty : length others + 1 ≡ 81
unfolding others clients_from
eighty = refl

network_boots_example :
    (calls : List ClientCall) × (node : ServerNode) × (run draws
        (early_joins.0 ++ (some (last_join.0) ∷ (none ∷ [])))
        lonely
      ≡ ok (calls, true, node))
    × (map
          (λ d.
            take_incoming
              (turn_at sample_turn (λ to. (100, 7 ∷ [])) node_at (d.0))
              (node_at (d.0))
              (d.1))
          (deliveries calls)
        ≡ starts sample_turn.quorum_bound sample_turn.routing_bound
            (reading_of sample_turn (λ to. (100, 7 ∷ [])) node_at)
            (client_of sample_turn (λ to. (100, 7 ∷ [])) node_at)
            (node_with sample_turn (λ to. (100, 7 ∷ [])) node_at)
            started.0.0
            started.0.1.clients)
unfolding node_at draws
network_boots_example =
    network_boots sample_turn (λ to. (100, 7 ∷ [])) node_at draws others last_client (early_joins.0)
      (none ∷ []) (replicate 48 0) (last_join.0) (started.0.0) (started.0.1) (refl, refl, refl)
      (λ n. length-replicate n 0) (λ to. refl) (early_joins.1) refl last-IsWide (last_join.1) eighty
      (started.1)

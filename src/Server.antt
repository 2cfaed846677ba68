-- ===== src/Server.antt =====
-- server/trusted/server_enclave.cpp: the login server that sets the network up.
pub mod Quorums
pub mod Partition
pub mod Join
pub mod Messages
pub mod System
use anonymous_communication.Base.{
  ℕ, zero, suc, ◌+◌, ◌*◌, ◌-◌, ◌%◌, Bool, true, false, ◌&&◌, ◌||◌, List, [], ◌∷◌, ◌++◌, Option,
  none, some, Result, ok, err, ◌>>=◌, ◌>>◌, assert, checked, length, get_elem?, set, replicate, ltb,
  leb, ◌==◌, if◌then◌else◌, not,
}
use anonymous_communication.Std.{nat_less, update as map_update}
use anonymous_communication.Peer.{PeerInformation}
use anonymous_communication.Agreement.{empty}
use anonymous_communication.Neighbors.{for_all_neighbors}
use anonymous_communication.Overlay.{Gamma}
use anonymous_communication.Client.Start.{InitData}

abbrev pub num_required_clients : ℕ
num_required_clients = 81

abbrev pub dimension : ℕ
dimension = 3

abbrev pub num_nodes_per_quorum : ℕ
num_nodes_per_quorum = 10

-- `1 << kDimension`
abbrev pub num_quorum_nodes : ℕ
num_quorum_nodes = 8

pub record ServerEnclave : Type 0 where
  pub clients : List PeerInformation
  pub initialized : Bool

unfoldable pub main_loop : ServerEnclave → Bool
main_loop st = not st.initialized

-- `clients_[i].id = i`, from `i` on.
unfoldable pub number_clients : ℕ → List PeerInformation → List PeerInformation
number_clients i [] = []
number_clients i (c ∷ clients) = record c { id = i } ∷ number_clients (i + 1) clients

-- The condition of the loop over `j` for the quorum `i`.
abbrev pub in_quorum : ℕ → ℕ → Bool
in_quorum i j =
    ltb j ((i + 1) * num_nodes_per_quorum)
    || (i == num_quorum_nodes - 1 && ltb j num_required_clients)

-- That loop, with fuel: the peers of the quorum, and the array from clients to quorums.
unfoldable pub quorum_loop :
    ℕ
    → ℕ
    → ℕ
    → List PeerInformation
    → List PeerInformation
    → List ℕ
    → Result (List PeerInformation × List ℕ)
quorum_loop zero i j clients peers assoc = ok (peers, assoc)
quorum_loop (suc left) i j clients peers assoc =
    if in_quorum i j
    then (checked (get_elem? clients j) >>= λ c.
        quorum_loop left i (j + 1) clients (peers ++ (c ∷ [])) (set assoc j i))
    else ok (peers, assoc)

-- The loop over the quorums from `i` on, with the rounds left.
unfoldable pub associate :
    ℕ → ℕ → List PeerInformation → List ℕ → Result (List (List PeerInformation) × List ℕ)
associate zero i clients assoc = ok ([], assoc)
associate (suc left) i clients assoc = do
  (peers, assoc') ← quorum_loop num_required_clients i (i * num_nodes_per_quorum) clients [] assoc
  (quorums, assoc'') ← associate left (i + 1) clients assoc'
  ok (peers ∷ quorums, assoc'')

-- The random quorums; `random i` is what `sgx_read_rand` gave for the client `i`.
unfoldable pub emulate :
    ℕ
    → ℕ
    → (ℕ → ℕ)
    → List PeerInformation
    → List (List PeerInformation)
    → List ℕ
    → Result (List (List PeerInformation) × List ℕ)
emulate zero i random clients quorums emul = ok (quorums, emul)
emulate (suc left) i random clients quorums emul = do
  let q = random i % num_quorum_nodes
  c ← checked (get_elem? clients i)
  peers ← checked (get_elem? quorums q)
  emulate left (i + 1) random clients (set quorums q (peers ++ (c ∷ []))) (set emul i q)

-- `assert (emulated_quorums.at (i).size () > 0)` for every quorum.
unfoldable pub assert_emulated : List (List PeerInformation) → Result (Unit {0})
assert_emulated [] = ok tt
assert_emulated (peers ∷ quorums) = assert (not (empty peers)) >>= λ _. assert_emulated quorums

-- `gamma_route[neighbor] = emulated_quorums.at (neighbor)` for the neighbours.
unfoldable pub neighbor_routes : List ℕ → List (List PeerInformation) → Gamma → Result Gamma
neighbor_routes [] emulated gamma = ok gamma
neighbor_routes (n ∷ ns) emulated gamma = checked (get_elem? emulated n) >>= λ peers.
    neighbor_routes ns emulated (map_update n [] (λ _. peers) gamma)

-- The keys that the server generated.
pub record Keys : Type 0 where
  pub sk_pseud : List ℕ
  pub sk_enc : List ℕ
  pub sk_routing : List ℕ

-- The init message for one client, which is associated with `assoc` and emulates `emul`.
unfoldable pub init_message :
    Keys
    → List (List PeerInformation)
    → List (List PeerInformation)
    → PeerInformation
    → ℕ
    → ℕ
    → Result InitData
init_message sks associated emulated client assoc emul = do
  gamma_send ← checked (get_elem? emulated assoc)
  gamma_receive ← checked (get_elem? associated emul)
  gamma_route ← neighbor_routes (for_all_neighbors emul dimension) emulated []
  ok (record {
    receiver_id = client.id;
    num_total_nodes = num_required_clients;
    overlay_dimension = dimension;
    onid_assoc = assoc;
    onid_emul = emul;
    gamma_send = gamma_send;
    gamma_receive = gamma_receive;
    gamma_route = gamma_route;
    sk_pseud = sks.sk_pseud;
    sk_enc = sks.sk_enc;
    sk_routing = sks.sk_routing;
  })

-- The loop that sends the init messages, from the client `i` on.
unfoldable pub init_messages :
    ℕ
    → ℕ
    → Keys
    → List (List PeerInformation)
    → List (List PeerInformation)
    → List PeerInformation
    → List ℕ
    → List ℕ
    → Result (List InitData)
init_messages zero i sks associated emulated clients assoc emul = ok []
init_messages (suc left) i sks associated emulated clients assoc emul = do
  client ← checked (get_elem? clients i)
  a ← checked (get_elem? assoc i)
  e ← checked (get_elem? emul i)
  message ← init_message sks associated emulated client a e
  rest ← init_messages left (i + 1) sks associated emulated clients assoc emul
  ok (message ∷ rest)

-- The messages that are sent, and the new state.
unfoldable pub initialize_system :
    Keys → (ℕ → ℕ) → ServerEnclave → Result (List InitData × ServerEnclave)
initialize_system sks random st = do
  let clients = number_clients 0 st.clients
  (associated, assoc) ← associate num_quorum_nodes 0 clients (replicate num_required_clients 0)
  (emulated, emul) ←
      emulate num_required_clients 0 random clients (replicate num_quorum_nodes [])
        (replicate num_required_clients 0)
  assert_emulated emulated
  messages ← init_messages num_required_clients 0 sks associated emulated clients assoc emul
  ok (messages, record { clients = clients; initialized = true })

-- The sender of a join message.
unfoldable pub received_join :
    Keys → (ℕ → ℕ) → PeerInformation → ServerEnclave → Result (List InitData × ServerEnclave)
received_join sks random sender st =
    if ltb (length st.clients) num_required_clients
    then (let joined = record st { clients = st.clients ++ (sender ∷ []) } in
        if leb num_required_clients (length joined.clients)
        then initialize_system sks random joined
        else ok ([], joined))
    else ok ([], st)

-- ===== src/Server/Join.antt =====
-- `received_msg_from_client` of server/trusted/server_enclave.cpp, on raw memory.
use anonymous_communication.Base.{
  ℕ, ◌+◌, ◌<◌, ◌^◌, List, [], ◌∷◌, ◌++◌, Result, ok, err, undefined, ◌>>=◌, ◌>>◌, assert, length,
  length-append, if◌then◌else◌, ◌==◌, leb, lt→ltb, false, ◌≡◌, refl, arith, ap, sym, subst, ◌∙◌,
  ok-inj, >>=-eq-ok, true,
}
use anonymous_communication.Peer.{Uri, PeerInformation}
use anonymous_communication.Client.{ClientEnclave}
use anonymous_communication.Client.Start.{InitData}
use anonymous_communication.Client.Join.{with_address, network_init}
use anonymous_communication.Layout.Start.{
  put_join, read_join, join_size, get_message_type, type_join_message, serialize_init,
}
use anonymous_communication.Layout.RoundTrip.{IsWide, join_message_round_trip}
use anonymous_communication.Server.{
  ServerEnclave, Keys, received_join, num_required_clients, num_quorum_nodes, initialize_system,
  associate, emulate, assert_emulated, init_messages,
}

-- The init messages in memory, each with the address of its client.
unfoldable pub send_init_messages :
    (ℕ → List ℕ) → List InitData → List PeerInformation → Result (List (Uri × List ℕ))
send_init_messages fresh [] clients = ok []
send_init_messages fresh (message ∷ messages) [] = err undefined
send_init_messages fresh (message ∷ messages) (client ∷ clients) = do
  (bytes, _) ← serialize_init fresh message
  sent ← send_init_messages fresh messages clients
  ok ((client.uri, bytes) ∷ sent)

-- The messages that are sent, and the new state.
unfoldable pub received_msg_from_client :
    Keys
    → (ℕ → ℕ)
    → (ℕ → List ℕ)
    → List ℕ
    → ServerEnclave
    → Result (List (Uri × List ℕ) × ServerEnclave)
received_msg_from_client sks random fresh bytes st = get_message_type bytes >>= λ (type, _).
    if type == type_join_message
    then (assert (join_size == length bytes) >> (do
      (sender, _) ← read_join bytes
      (messages, st') ← received_join sks random sender st
      sent ← send_init_messages fresh messages st'.clients
      ok (sent, st')))
    else ok ([], st)

not_complete : (n : ℕ) → n < num_required_clients → leb num_required_clients n ≡ false
not_complete n h = ground arith

-- The bytes of a join message are those that are read.
pub join_bytes_read :
    (cells bytes : List ℕ) (p : PeerInformation)
    → length cells ≡ join_size
    → IsWide p
    → put_join p cells ≡ ok (bytes, [])
    → ((behind : List ℕ) × (get_message_type bytes ≡ ok (type_join_message, behind)))
      × (length bytes ≡ join_size)
      × (read_join bytes ≡ ok (p, []))
join_bytes_read cells bytes p room wide put =
    let (bytes', behind, made, size, is_join, back) = join_message_round_trip cells p room wide in
    let same = ap (λ r. r.0) (ok-inj (sym made ∙ put)) in
    (
      (behind, subst (λ b. get_message_type b ≡ ok (type_join_message, behind)) same is_join),
      subst (λ b. length b ≡ join_size) same size,
      subst (λ b. read_join b ≡ ok (p, [])) same back,
    )

-- The bytes of a join message, while more than one client is missing.
pub join_bytes_register :
    (sks : Keys) (random : ℕ → ℕ) (fresh : ℕ → List ℕ) (cells bytes : List ℕ) (p : PeerInformation)
    (server : ServerEnclave)
    → length cells ≡ join_size
    → IsWide p
    → put_join p cells ≡ ok (bytes, [])
    → length server.clients + 1 < num_required_clients
    → received_msg_from_client sks random fresh bytes server
      ≡ ok ([], record server { clients = server.clients ++ (p ∷ []) })
unfolding received_msg_from_client received_join send_init_messages
join_bytes_register sks random fresh cells bytes p server room wide put few =
    let (is_join, size, back) = join_bytes_read cells bytes p room wide put in
    rw
      (
        is_join.1,
        size,
        back,
        lt→ltb (length server.clients) num_required_clients (omega arith),
        not_complete (length (server.clients ++ (p ∷ [])))
            (omega (arith, length-append server.clients (p ∷ []))),
      )
      refl

initialize_system_ends :
    (sks : Keys) (random : ℕ → ℕ) (st st' : ServerEnclave) (messages : List InitData)
    → initialize_system sks random st ≡ ok (messages, st')
    → st'.initialized ≡ true
unfolding initialize_system
initialize_system_ends sks random st st' messages e =
    let ((associated, assoc), _, e₁) = >>=-eq-ok (associate num_quorum_nodes 0 _ _) _ e in
    let ((emulated, emul), _, e₂) = >>=-eq-ok (emulate num_required_clients 0 random _ _ _) _ e₁ in
    let (_, _, e₃) = >>=-eq-ok (assert_emulated emulated) _ e₂ in
    let (made, _, e₄) =
      >>=-eq-ok (init_messages num_required_clients 0 sks associated emulated _ assoc emul) _ e₃ in
    subst (λ s. s.initialized ≡ true) (ap (λ r. r.1) (ok-inj e₄)) refl

complete : (n : ℕ) → n ≡ num_required_clients → leb num_required_clients n ≡ true
complete n h = ground arith

-- The bytes of the last join message that is missing.
pub last_join_initializes :
    (sks : Keys) (random : ℕ → ℕ) (fresh : ℕ → List ℕ) (cells bytes : List ℕ) (p : PeerInformation)
    (server server' : ServerEnclave) (sent : List (Uri × List ℕ))
    → length cells ≡ join_size
    → IsWide p
    → put_join p cells ≡ ok (bytes, [])
    → length server.clients + 1 ≡ num_required_clients
    → received_msg_from_client sks random fresh bytes server ≡ ok (sent, server')
    → server'.initialized ≡ true
unfolding received_msg_from_client received_join
last_join_initializes sks random fresh cells bytes p server server' sent room wide put last e =
    let (is_join, size, back) = join_bytes_read cells bytes p room wide put in
    let joined = record server { clients = server.clients ++ (p ∷ []) } in
    let e₁ =
      rw
        (
          is_join.1,
          size,
          back,
          lt→ltb (length server.clients) num_required_clients (omega arith),
          complete (length (server.clients ++ (p ∷ [])))
              (omega (arith, length-append server.clients (p ∷ []))),
        )
        at e in
    let ((messages, after), done, e₂) = >>=-eq-ok (initialize_system sks random joined) _ e₁ in
    let (out, _, e₃) = >>=-eq-ok (send_init_messages fresh messages after.clients) _ e₂ in
    subst (λ s. s.initialized ≡ true) (ap (λ r. r.1) (ok-inj e₃))
      (initialize_system_ends sks random joined after messages done)

-- With the last join message that is missing, the system is initialized and the init messages are
-- sent to the clients.
pub last_join_sends :
    (sks : Keys) (random : ℕ → ℕ) (fresh : ℕ → List ℕ) (cells bytes : List ℕ) (p : PeerInformation)
    (server server' : ServerEnclave) (messages : List InitData) (sent : List (Uri × List ℕ))
    → length cells ≡ join_size
    → IsWide p
    → put_join p cells ≡ ok (bytes, [])
    → length server.clients + 1 ≡ num_required_clients
    → initialize_system sks random (record server { clients = server.clients ++ (p ∷ []) })
      ≡ ok (messages, server')
    → send_init_messages fresh messages server'.clients ≡ ok sent
    → received_msg_from_client sks random fresh bytes server ≡ ok (sent, server')
unfolding received_msg_from_client received_join
last_join_sends sks random fresh cells bytes p server server' messages sent room wide put last e f =
    let (is_join, size, back) = join_bytes_read cells bytes p room wide put in
    rw
      (
        is_join.1,
        size,
        back,
        lt→ltb (length server.clients) num_required_clients (omega arith),
        complete (length (server.clients ++ (p ∷ [])))
            (omega (arith, length-append server.clients (p ∷ []))),
        e,
        f,
      )
      refl

-- The join message of an enclave registers its identity with the address that it was given, as
-- long as it is not the last client that is missing.
pub join_message_registers :
    (sks : Keys) (random : ℕ → ℕ) (fresh : ℕ → List ℕ) (cells : List ℕ) (ip1 ip2 ip3 ip4 port : ℕ)
    (client : ClientEnclave) (server : ServerEnclave)
    → length cells ≡ join_size
    → client.own_id.id < 2 ^ 64
    → port < 2 ^ 64
    → length server.clients + 1 < num_required_clients
    → (bytes : List ℕ) × (network_init cells ip1 ip2 ip3 ip4 port client
        ≡ ok (bytes, with_address ip1 ip2 ip3 ip4 port client))
      × (received_msg_from_client sks random fresh bytes server
          ≡ ok (
            [],
            record server {
              clients = server.clients ++ ((with_address ip1 ip2 ip3 ip4 port client).own_id ∷ []);
            },
          ))
unfolding network_init
join_message_registers sks random fresh cells ip1 ip2 ip3 ip4 port client server room hid hport
      few =
    let own = (with_address ip1 ip2 ip3 ip4 port client).own_id in
    let (bytes, behind, made, _, _, _) = join_message_round_trip cells own room (hid, hport) in
    (
      bytes,
      rw made refl,
      join_bytes_register sks random fresh cells bytes own server room (hid, hport) made few,
    )

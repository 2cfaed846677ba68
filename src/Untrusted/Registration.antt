-- ===== src/Untrusted/Registration.antt =====
-- The login server while clients join.
use anonymous_communication.Base.{
  ℕ, ◌+◌, ◌<◌, Bool, true, false, List, [], ◌∷◌, ◌++◌, Option, none, some, ok, ◌≡◌, refl, arith,
  length, length-append, append-nil, append_assoc, ap, subst, ok-inj, >>=-eq-ok,
}
use anonymous_communication.Peer.{PeerInformation}
use anonymous_communication.Layout.Start.{put_join, join_size}
use anonymous_communication.Layout.RoundTrip.{IsWide}
use anonymous_communication.Server.{num_required_clients, main_loop as ecall_main_loop}
use anonymous_communication.Server.Join.{
  received_msg_from_client, join_bytes_register, last_join_initializes,
}
use anonymous_communication.Untrusted.Server.{
  ServerNode, ClientCall, Draws, send_to_clients, main_loop, run,
}

-- Join messages of the peers, whatever the cells are that they are written to.
pub data Joins : List PeerInformation → List (Option (List ℕ)) → Type 0 where
  no_joins : Joins [] []
  quiet :
      {peers : List PeerInformation} {messages : List (Option (List ℕ))}
      → Joins peers messages
      → Joins peers (none ∷ messages)
  joins :
      {p : PeerInformation} {peers : List PeerInformation} {messages : List (Option (List ℕ))}
      (cells bytes : List ℕ)
      → length cells ≡ join_size
      → IsWide p
      → put_join p cells ≡ ok (bytes, [])
      → Joins peers messages
      → Joins (p ∷ peers) (some bytes ∷ messages)

-- A round behind which the enclave is not initialized, and the rounds after it.
pub run_on :
    (draws : Draws) (message : Option (List ℕ)) (messages : List (Option (List ℕ)))
    (node node' last : ServerNode) (calls more : List ClientCall) (left : Bool)
    → main_loop draws message node ≡ ok (calls, node')
    → node'.enclave.initialized ≡ false
    → run draws messages node' ≡ ok (more, left, last)
    → run draws (message ∷ messages) node ≡ ok (calls ++ more, left, last)
unfolding run ecall_main_loop
run_on draws message messages node node' last calls more left here off there =
    simp (here, off, there) refl

-- While fewer than the required clients have joined, quiet rounds among them, the server registers
-- them in the order of their messages, sends nothing and goes on.
pub clients_register :
    (draws : Draws) (peers : List PeerInformation) (messages : List (Option (List ℕ)))
    (node : ServerNode)
    → Joins peers messages
    → node.enclave.initialized ≡ false
    → length node.enclave.clients + length peers < num_required_clients
    → run draws messages node
      ≡ ok (
        [],
        false,
        record node { enclave = record (node.enclave) { clients = node.enclave.clients ++ peers } },
      )
unfolding run main_loop send_to_clients
clients_register draws _ _ node no_joins off few = rw append-nil refl
clients_register draws peers _ node (quiet {messages = messages} rest) off few =
    run_on draws none messages node node _ [] [] false refl off
      (clients_register draws peers messages node rest off few)
clients_register draws _ _ node
      (joins {p = p} {peers = peers} {messages = messages} cells bytes room wide put rest) off few =
    let node' : ServerNode = record node {
      enclave = record (node.enclave) { clients = node.enclave.clients ++ (p ∷ []) };
    } in
    run_on draws (some bytes) messages node node' _ [] [] false
      (rw
        (join_bytes_register draws.sks draws.random draws.fresh cells bytes p node.enclave room wide
          put (omega arith))
        refl)
      off
      (rw append_assoc at (
        clients_register draws peers messages node' rest off
          (omega (arith, length-append node.enclave.clients (p ∷ [])))))

-- With the last client that is missing the loop is left, whatever would come later, if the system
-- can be initialized at all.
pub last_client_ends_loop :
    (draws : Draws) (p : PeerInformation) (cells bytes : List ℕ) (messages : List (Option (List ℕ)))
    (node node' : ServerNode) (calls : List ClientCall)
    → length cells ≡ join_size
    → IsWide p
    → put_join p cells ≡ ok (bytes, [])
    → length node.enclave.clients + 1 ≡ num_required_clients
    → main_loop draws (some bytes) node ≡ ok (calls, node')
    → run draws (some bytes ∷ messages) node ≡ ok (calls, true, node')
unfolding run main_loop ecall_main_loop
last_client_ends_loop draws p cells bytes messages node node' calls room wide put last e =
    let ((sent, enclave), done, e₁) =
      >>=-eq-ok (received_msg_from_client draws.sks draws.random draws.fresh bytes node.enclave) _
        e in
    let on =
      last_join_initializes draws.sks draws.random draws.fresh cells bytes p node.enclave enclave
        sent room wide put last done in
    simp (e, subst (λ n. n.enclave.initialized ≡ true) (ap (λ r. r.1) (ok-inj e₁)) on) refl

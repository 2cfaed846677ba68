-- ===== src/Untrusted/Server.antt =====
-- server/untrusted: the loop of `Server::run`, and the sockets of the login server.
use anonymous_communication.Base.{
  ℕ, Bool, true, false, not, ◌||◌, List, [], ◌∷◌, ◌++◌, Option, none, some, Result, ok, ◌>>=◌,
  if◌then◌else◌,
}
use anonymous_communication.Message.{bytes_eq}
use anonymous_communication.Peer.{Uri}
use anonymous_communication.Server.{ServerEnclave, Keys, main_loop as ecall_main_loop}
use anonymous_communication.Server.Join.{received_msg_from_client}
use anonymous_communication.Untrusted.Sockets.{uri_text}

-- The recipients that have a socket, and the enclave.
pub record ServerNode : Type 0 where
  pub clients : List (List ℕ)
  pub enclave : ServerEnclave

-- What is done with the socket of a recipient.
pub data ClientCall : Type 0 where
  connect : List ℕ → ClientCall
  send : List ℕ → List ℕ → ClientCall

-- `clients_.count (recipient) >= 1`.
unfoldable pub is_client : List ℕ → List (List ℕ) → Bool
is_client recipient [] = false
is_client recipient (c ∷ clients) = bytes_eq c recipient || is_client recipient clients

unfoldable pub send_msg_to_client :
    List ℕ → List ℕ → List (List ℕ) → List ClientCall × List (List ℕ)
unfolding is_client
send_msg_to_client recipient bytes clients =
    if is_client recipient clients
    then (send recipient bytes ∷ [], clients)
    else (connect recipient ∷ send recipient bytes ∷ [], recipient ∷ clients)

-- The calls of `ocall_send_msg_to_client`, one after the other.
unfoldable pub send_to_clients :
    List (Uri × List ℕ) → List (List ℕ) → List ClientCall × List (List ℕ)
unfolding send_msg_to_client uri_text
send_to_clients [] clients = ([], clients)
send_to_clients ((uri, bytes) ∷ messages) clients =
    let (calls, clients') = send_msg_to_client (uri_text uri) bytes clients in
    let (more, clients'') = send_to_clients messages clients' in (calls ++ more, clients'')

-- What the enclave draws: the keys, the random quorums, and the memory of the init messages.
pub record Draws : Type 0 where
  pub sks : Keys
  pub random : ℕ → ℕ
  pub fresh : ℕ → List ℕ

-- The message that the socket has, if any.
unfoldable pub main_loop :
    Draws → Option (List ℕ) → ServerNode → Result (List ClientCall × ServerNode)
unfolding send_to_clients
main_loop draws none node = ok ([], node)
main_loop draws (some bytes) node =
    received_msg_from_client draws.sks draws.random draws.fresh bytes node.enclave
    >>= λ (messages, enclave).
        let (calls, clients) = send_to_clients messages node.clients in
        ok (calls, record { clients = clients; enclave = enclave })

-- The loop of `run`, over the messages that come in its rounds; the flag is whether it was left.
unfoldable pub run :
    Draws → List (Option (List ℕ)) → ServerNode → Result (List ClientCall × Bool × ServerNode)
unfolding main_loop ecall_main_loop
run draws [] node = ok ([], false, node)
run draws (message ∷ messages) node = main_loop draws message node >>= λ (calls, node').
    if not (ecall_main_loop node'.enclave)
    then ok (calls, true, node')
    else (run draws messages node' >>= λ (more, left, node''). ok (calls ++ more, left, node''))

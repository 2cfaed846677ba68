-- ===== src/Untrusted/Node.antt =====
-- `MainLoop` of client/untrusted/network/network_manager.cpp and the loop of `Client::run` in
-- client/untrusted/client.cpp: a node is its network manager and its enclave.
use anonymous_communication.Base.{
  ℕ, Bool, true, not, List, [], ◌∷◌, Option, none, some, Result, ok, err, exception, ◌>>=◌, ◌>>◌,
  assert, sign_extend, if◌then◌else◌,
}
use anonymous_communication.Message.{Pseudonym}
use anonymous_communication.Client.{ClientEnclave}
use anonymous_communication.Client.Pseudonyms.{Clock}
use anonymous_communication.Client.Join.{network_init, received_msg_from_server}
use anonymous_communication.Client.Send.{Received, receive_message}
use anonymous_communication.Client.TrafficIn.{traffic_in}
use anonymous_communication.Client.TrafficOut.{Outside, traffic_out}
use anonymous_communication.Untrusted.User.{user_message}
use anonymous_communication.Untrusted.Launch.{Launch}
use anonymous_communication.Untrusted.Sockets.{NetworkManager, SocketCall, traffic_out_return}

pub record Node : Type 0 where
  pub network : NetworkManager
  pub enclave : ClientEnclave

-- What comes from outside in one round of the loop: the messages that the sockets have, whether
-- half of `kDelta` is over, the readings of the clock, the random numbers, what the enclave draws
-- in `traffic_out`, the unset array `msg.n_dst`, and the two bounds of the init message. A message
-- of a socket has one part, as the assertions on `more()` want it.
pub record Turn : Type 0 where
  pub incoming : Option (List ℕ)
  pub command : Option (List ℕ)
  pub due : Bool
  pub clock : Clock
  pub send_clock : Clock
  pub out_clock : Clock
  pub receive_clock : Clock
  pub iv : List ℕ
  pub outside : Outside
  pub unset_n_dst : Pseudonym
  pub quorum_bound : ℕ → ℕ
  pub routing_bound : ℕ → ℕ → ℕ

-- The first message is taken for one of the server, and all others for messages of peers.
unfoldable pub take_incoming : Turn → Node → List ℕ → Result Node
take_incoming turn node bytes =
    if not node.network.initialized
    then (received_msg_from_server turn.quorum_bound turn.routing_bound turn.clock bytes
          node.enclave
        >>= λ enclave.
            ok (record {
              network = record (node.network) { initialized = true };
              enclave = enclave;
            }))
    else (traffic_in turn.outside.crypto bytes node.enclave >>= λ enclave.
        ok (record node { enclave = enclave }))

unfoldable pub check_in_socket : Turn → Node → Option (List ℕ) → Result Node
unfolding take_incoming
check_in_socket turn node none = ok node
check_in_socket turn node (some bytes) = take_incoming turn node bytes

unfoldable pub check_user_socket : Turn → Node → Option (List ℕ) → Result (Option (List ℕ) × Node)
check_user_socket turn node none = ok (none, node)
check_user_socket turn node (some bytes) =
    user_message turn.outside.crypto turn.iv turn.send_clock bytes node.enclave
    >>= λ (printed, enclave). ok (printed, record node { enclave = enclave })

unfoldable pub main_loop : Turn → Node → Result (Option (List ℕ) × Node)
unfolding check_in_socket check_user_socket
main_loop turn node =
    check_in_socket turn node turn.incoming >>= λ node'. check_user_socket turn node' turn.command

-- What the call of `ocall_traffic_out_return` does with the output of a round.
unfoldable pub hand_over_traffic : Option (List ℕ) → Node → Result (List SocketCall × Node)
hand_over_traffic none node = ok ([], node)
hand_over_traffic (some bytes) node = traffic_out_return bytes node.network >>= λ (calls, network).
    ok (calls, record node { network = network })

unfoldable pub call_traffic_out : Turn → Node → Result (List SocketCall × Node)
unfolding hand_over_traffic
call_traffic_out turn node =
    if turn.due
    then (traffic_out turn.outside turn.out_clock node.enclave >>= λ (output, enclave).
        hand_over_traffic output (record node { enclave = enclave }))
    else ok ([], node)

-- What a round of the loop lets out: the calls of sockets, the pseudonym and the message printed.
pub record Shown : Type 0 where
  pub calls : List SocketCall
  pub pseudonym : Option (List ℕ)
  pub message : Option Received

-- The rest of a round of the loop of `run`, behind the call of `MainLoop`.
unfoldable pub use_enclave : Turn → Option (List ℕ) → Node → Result (Shown × Node)
unfolding call_traffic_out
use_enclave turn pseudonym node =
    if not node.network.initialized
    then ok (record { calls = []; pseudonym = pseudonym; message = none }, node)
    else (do
      (calls, node') ← call_traffic_out turn node
      (message, enclave) ←
          receive_message turn.outside.crypto turn.receive_clock turn.unset_n_dst node'.enclave
      ok (
        record { calls = calls; pseudonym = pseudonym; message = message },
        record node' { enclave = enclave },
      ))

unfoldable pub run_loop : Turn → Node → Result (Shown × Node)
unfolding main_loop use_enclave
run_loop turn node = main_loop turn node >>= λ (pseudonym, node'). use_enclave turn pseudonym node'

-- Rounds one after the other, with what they let out.
unfoldable pub run_turns : List Turn → Node → Result (List Shown × Node)
unfolding run_loop
run_turns [] node = ok ([], node)
run_turns (turn ∷ turns) node = do
  (shown, node') ← run_loop turn node
  (more, node'') ← run_turns turns node'
  ok (shown ∷ more, node'')

-- The enclave learns its address, and its join message is sent to the server; `in_port_` is an
-- `int` there.
unfoldable pub set_global_sgx_eid_and_network_init : List ℕ → Node → Result (List ℕ × Node)
set_global_sgx_eid_and_network_init cells node =
    network_init cells 127 0 0 1 (sign_extend node.network.in_port) node.enclave
    >>= λ (bytes, enclave). ok (bytes, record node { enclave = enclave })

-- What `run` does before its loop: the exception if the enclave cannot be created, the assertion of
-- `ecall_init` on the session, and the join message.
unfoldable pub start_run : Launch → Bool → List ℕ → Node → Result (List ℕ × Node)
unfolding set_global_sgx_eid_and_network_init
start_run launch session cells node =
    if not launch.started
    then err exception
    else (assert session >> set_global_sgx_eid_and_network_init cells node)

-- ===== src/Tests/Network.antt =====
-- The memory of messages, the sockets, the commands and the login server on concrete inputs.
use anonymous_communication.Base.{
  Bool, ℕ, true, false, ◌≡◌, List, [], ◌∷◌, ◌++◌, none, some, ok, ◌>>=◌, refl, arith, replicate,
  length, length-replicate, All, map,
}
use anonymous_communication.Peer.{PeerInformation, ReceiverBlobPair, pair_serializable}
use anonymous_communication.Text.{to_string}
use anonymous_communication.Text.Words.{print_numbers}
use anonymous_communication.Layout.{put, put_peer, word_bytes, read_word, read_byte, read_bytes}
use anonymous_communication.Layout.Start.{
  serialize_init, put_join, read_init, get_message_type, type_init_message,
}
use anonymous_communication.Layout.RoundTrip.{init_message_round_trip}
use anonymous_communication.Client.Start.{InitData}
use anonymous_communication.Client.Join.{received_msg_from_server}
use anonymous_communication.Client.Send.{send_message, receive_message}
use anonymous_communication.Client.TrafficOut.{traffic_out}
use anonymous_communication.Command.{choose, copy_message}
use anonymous_communication.Command.Delivery.{command_reaches_enclave}
use anonymous_communication.Untrusted.User.{user_message}
use anonymous_communication.Untrusted.Sockets.{NetworkManager}
use anonymous_communication.Untrusted.Node.{
  Node, Turn, Shown, take_incoming, check_in_socket, check_user_socket, main_loop,
  hand_over_traffic, call_traffic_out, use_enclave, run_loop, run_turns,
}
use anonymous_communication.Untrusted.Stuck.{wrong_first_message_silences}
use anonymous_communication.Untrusted.Tokens.{token_kept}
use anonymous_communication.Untrusted.Launch.{Disk, initialize_enclave}
use anonymous_communication.Untrusted.Server.{ServerNode, Draws, run}
use anonymous_communication.Untrusted.Registration.{no_joins, quiet, joins, clients_register}
use anonymous_communication.Std.{nat_less}
use anonymous_communication.Tests.Samples.{
  sample_turn, peer, open_crypto, sample_client, sample_pseudonym,
}

abbrev sample_init : InitData
sample_init = record {
  receiver_id = 7;
  num_total_nodes = 81;
  overlay_dimension = 3;
  onid_assoc = 2;
  onid_emul = 5;
  gamma_send = peer 1 ∷ peer 2 ∷ [];
  gamma_receive = [];
  gamma_route = (4, peer 3 ∷ []) ∷ (7, []) ∷ [];
  sk_pseud = replicate 16 1;
  sk_enc = replicate 16 2;
  sk_routing = replicate 16 3;
}

init_message_round_trip_example :
    (bytes : List ℕ) × (behind : List ℕ) × (serialize_init (λ n. replicate n 255) sample_init
      ≡ ok (bytes, 272))
    × (length bytes ≡ 272)
    × (get_message_type bytes ≡ ok (type_init_message, behind))
    × ((tail : List ℕ) → read_init (bytes ++ tail) ≡ ok (sample_init, tail))
init_message_round_trip_example =
    init_message_round_trip (λ n. replicate n 255) sample_init (λ n. length-replicate n 255)
      (ground arith) (omega arith)

-- "hi"
abbrev hi : List ℕ
hi = 104 ∷ 105 ∷ []

command_reaches_enclave_example :
    (bytes : List ℕ) × (choose (replicate 128 0) (
        to_string 2
        ∷ print_numbers (replicate 64 9)
        ∷ hi
        ∷ print_numbers (replicate 64 200)
        ∷ to_string 400
        ∷ [])
      ≡ ok (some bytes, []))
    × (user_message open_crypto [] none bytes sample_client ≡ (
        send_message open_crypto none
          (sample_pseudonym 9)
          (record { msg = copy_message hi (replicate 128 0) })
          (sample_pseudonym 200)
          400
          sample_client
        >>= λ st'. ok (none, st')))
command_reaches_enclave_example =
    command_reaches_enclave open_crypto [] none sample_client (replicate 128 0) (replicate 64 9) hi
      (replicate 64 200) 400 [] refl refl (ground arith) refl (ground arith) (λ h. cc h)
      (omega arith)

abbrev sample_network : NetworkManager
sample_network = record { peers = []; initialized = true; in_port = 5000 }

abbrev two_pairs : List ReceiverBlobPair
two_pairs =
    record { i = peer 1; payload = 5 ∷ [] } ∷ record { i = peer 1; payload = 6 ∷ 7 ∷ [] } ∷ []

-- A node that has not heard of anyone, and the ciphertext of a peer, whose first word is not 1.
abbrev new_node : Node
new_node = record {
  network = record sample_network { initialized = false };
  enclave = record sample_client { initialized = false };
}

abbrev early_bytes : List ℕ
early_bytes = 0 ∷ 0 ∷ 0 ∷ 48 ∷ 0 ∷ 0 ∷ 0 ∷ 37 ∷ 1 ∷ []

abbrev early_turn : Turn
early_turn = record sample_turn { incoming = some early_bytes; due = true }

abbrev quiet_shown : Shown
quiet_shown = record { calls = []; pseudonym = none; message = none }

wrong_first_message_silences_example :
    (false ≡ false)
    × All (λ (s : Shown). (s.calls ≡ []) × (s.message ≡ none)) (quiet_shown ∷ quiet_shown ∷ [])
wrong_first_message_silences_example =
    wrong_first_message_silences early_turn (record early_turn { incoming = none } ∷ []) new_node
      (record new_node { network = sample_network }) (quiet_shown ∷ quiet_shown ∷ []) early_bytes
      (1 ∷ []) 805306368 refl refl refl first (λ h. absurd (omega arith)) silent
  where
    first : get_message_type early_bytes ≡ ok (805306368, 1 ∷ [])
    first = unfold get_message_type read_word read_byte in refl

    silent :
        run_turns (early_turn ∷ record early_turn { incoming = none } ∷ []) new_node
        ≡ ok (quiet_shown ∷ quiet_shown ∷ [], record new_node { network = sample_network })
    silent =
        unfold run_turns run_loop main_loop check_in_socket take_incoming received_msg_from_server
          get_message_type read_word read_byte check_user_socket use_enclave call_traffic_out
          traffic_out hand_over_traffic receive_message in
        refl

abbrev sample_disk : Disk
sample_disk = record { file = none; readable = true; writable = true; room = 5000 }

abbrev create : List ℕ → Bool × Bool × List ℕ
create token = (true, true, replicate 1024 7)

token_kept_example :
    (initialize_enclave
      (λ token. (true, false, token))
      ((initialize_enclave create sample_disk).disk)).used
    ≡ replicate 1024 7
token_kept_example =
    token_kept create (λ token. (true, false, token)) sample_disk (replicate 1024 7) refl refl
      (omega arith) (length-replicate {A = ℕ} 1024 7) refl

abbrev sample_draws : Draws
sample_draws = record {
  sks = record { sk_pseud = replicate 16 1; sk_enc = replicate 16 2; sk_routing = replicate 16 3 };
  random = λ i. i;
  fresh = λ n. replicate n 0;
}

abbrev lonely_server : ServerNode
lonely_server = record { clients = []; enclave = record { clients = []; initialized = false } }

-- The join message of `peer 0` on a frame of zeros.
abbrev join_bytes : List ℕ
join_bytes = replicate 32 0 ++ (127 ∷ 0 ∷ 0 ∷ 1 ∷ replicate 4 0 ++ (39 ∷ 22 ∷ replicate 6 0))

join_written : put_join (peer 0) (replicate 48 0) ≡ ok (join_bytes, [])
join_written = unfold put_join put_peer put read_bytes read_byte word_bytes in refl

clients_register_example :
    run sample_draws (none ∷ some join_bytes ∷ none ∷ []) lonely_server
    ≡ ok (
      [],
      false,
      record lonely_server { enclave = record { clients = peer 0 ∷ []; initialized = false } },
    )
clients_register_example =
    clients_register sample_draws (peer 0 ∷ []) (none ∷ some join_bytes ∷ none ∷ []) lonely_server
      (quiet (
        joins (replicate 48 0) join_bytes refl (omega arith, omega arith) join_written
          (quiet no_joins)))
      refl (omega arith)

abbrev quorums : List (List PeerInformation)
quorums = map (λ n. peer n ∷ []) (0 ∷ 1 ∷ 2 ∷ 3 ∷ 4 ∷ 5 ∷ 6 ∷ 7 ∷ [])

abbrev told : InitData
told = record sample_init {
  receiver_id = 0;
  onid_emul = 1;
  gamma_send = peer 2 ∷ [];
  gamma_receive = peer 1 ∷ [];
  gamma_route = (0, peer 0 ∷ []) ∷ (1, peer 1 ∷ []) ∷ (3, peer 3 ∷ []) ∷ (5, peer 5 ∷ []) ∷ [];
}

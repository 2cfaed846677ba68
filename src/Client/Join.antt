-- ===== src/Client/Join.antt =====
-- `network_init` and `received_msg_from_server` of client/trusted/client_enclave.cpp, on raw memory.
use anonymous_communication.Base.{
  ℕ, List, [], Result, ok, ◌>>=◌, if◌then◌else◌, ◌==◌, ◌≡◌, refl, length, some, ◌<◌, ◌^◌,
  append-nil,
}
use anonymous_communication.Crypt.{succeeded}
use anonymous_communication.Client.{ClientEnclave}
use anonymous_communication.Client.Pseudonyms.{Clock}
use anonymous_communication.Client.Start.{InitData, received_init}
use anonymous_communication.Layout.Start.{
  put_join, read_init, get_message_type, type_init_message, serialize_init,
}
use anonymous_communication.Layout.RoundTrip.{IsInit, layout_size, init_message_round_trip}

abbrev pub with_address : ℕ → ℕ → ℕ → ℕ → ℕ → ClientEnclave → ClientEnclave
with_address ip1 ip2 ip3 ip4 port st = record st {
  own_id = record (st.own_id) {
    uri = record { ip1 = ip1; ip2 = ip2; ip3 = ip3; ip4 = ip4; port = port };
  };
}

-- The address of the node, and the join message that is sent from the cells of a stack frame.
unfoldable pub network_init :
    List ℕ → ℕ → ℕ → ℕ → ℕ → ℕ → ClientEnclave → Result (List ℕ × ClientEnclave)
network_init cells ip1 ip2 ip3 ip4 port st =
    let st' = with_address ip1 ip2 ip3 ip4 port st in
    put_join st'.own_id cells >>= λ (bytes, _). ok (bytes, st')

-- A message that is taken for one of the server.
unfoldable pub received_msg_from_server :
    (ℕ → ℕ) → (ℕ → ℕ → ℕ) → Clock → List ℕ → ClientEnclave → Result ClientEnclave
received_msg_from_server quorum_bound routing_bound clock bytes st =
    get_message_type bytes >>= λ (type, _).
    if type == type_init_message
    then (do
      reading ← succeeded clock
      (msg, _) ← read_init bytes
      received_init quorum_bound routing_bound reading msg st)
    else ok st

-- The bytes that the server makes of an init message start an enclave with just this message,
-- provided that the layout of the message fits an `int`, and a reading of the clock succeeds.
pub init_message_starts_client :
    (fresh : ℕ → List ℕ) (quorum_bound : ℕ → ℕ) (routing_bound : ℕ → ℕ → ℕ) (reading : ℕ × List ℕ)
    (m : InitData) (st : ClientEnclave)
    → ((n : ℕ) → length (fresh n) ≡ n)
    → IsInit m
    → layout_size m < 2 ^ 31
    → (bytes : List ℕ) × (serialize_init fresh m ≡ ok (bytes, layout_size m))
      × (received_msg_from_server quorum_bound routing_bound (some reading) bytes st
          ≡ received_init quorum_bound routing_bound reading m st)
unfolding received_msg_from_server
init_message_starts_client fresh quorum_bound routing_bound reading m st full valid small =
    let (bytes, behind, made, _, is_init, back) =
      init_message_round_trip fresh m full valid small in
    (bytes, made, rw (is_init, rw append-nil at (back [])) refl)

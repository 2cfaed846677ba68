-- ===== src/Client/Start.antt =====
-- What `received_msg_from_server` of client/trusted/client_enclave.cpp does with an init message.
use anonymous_communication.Base.{ℕ, ◌/◌, true, List, Result, ok, ◌>>=◌, ◌-u64◌, ◌*u64◌, ◌+u64◌}
use anonymous_communication.Config.{a_max}
use anonymous_communication.Peer.{PeerInformation}
use anonymous_communication.Overlay.{Gamma}
use anonymous_communication.Overlay.Update.{init}
use anonymous_communication.Client.{ClientEnclave}

-- What the getters of an `InitMessage` return.
pub record InitData : Type 0 where
  pub receiver_id : ℕ
  pub num_total_nodes : ℕ
  pub overlay_dimension : ℕ
  pub onid_assoc : ℕ
  pub onid_emul : ℕ
  pub gamma_send : List PeerInformation
  pub gamma_receive : List PeerInformation
  pub gamma_route : Gamma
  pub sk_pseud : List ℕ
  pub sk_enc : List ℕ
  pub sk_routing : List ℕ

-- What is done with an init message; `reading` is the time that was read, and its nonce. The two bounds that are computed with floating-point numbers are parameters:
-- `quorum_bound` at the number of nodes, `routing_bound` at the dimension and `b_max`. The identity
-- is handed to the overlay scheme before its number is set.
unfoldable pub received_init :
    (ℕ → ℕ) → (ℕ → ℕ → ℕ) → ℕ × List ℕ → InitData → ClientEnclave → Result ClientEnclave
received_init quorum_bound routing_bound (current_time, nonce) msg st = do
  overlay ←
      init st.overlay_structure_scheme msg.onid_assoc msg.onid_emul msg.gamma_send msg.gamma_receive
        msg.gamma_route msg.overlay_dimension (msg.overlay_dimension +u64 7) st.own_id
  let quorum = quorum_bound msg.num_total_nodes
  ok (record st {
    init_time = current_time;
    init_time_nonce = nonce;
    sk_pseud = msg.sk_pseud;
    sk_enc = msg.sk_enc;
    sk_routing = msg.sk_routing;
    overlay_dimension = msg.overlay_dimension;
    onid_repr = msg.onid_assoc;
    overlay_structure_scheme = overlay;
    max_quorum_size = quorum;
    max_routing_msg_out = routing_bound msg.overlay_dimension (quorum *u64 a_max);
    own_id = record (st.own_id) { id = msg.receiver_id };
    initialized = true;
    m_corrupt = quorum / 2 -u64 1;
  })

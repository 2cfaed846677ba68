-- ===== src/Untrusted/Sockets.antt =====
-- The sockets of client/untrusted/network/network_manager.cpp, and `traffic_out_return` of
-- client/untrusted/client.cpp.
use anonymous_communication.Base.{
  ℕ, Bool, false, ◌||◌, List, [], ◌∷◌, ◌++◌, Result, ok, ◌>>=◌, ◌==◌, if◌then◌else◌,
}
use anonymous_communication.Serial.{deserialize_vec}
use anonymous_communication.Peer.{Uri, PeerInformation, ReceiverBlobPair, pair_serializable}
use anonymous_communication.Text.{to_string, stoi, colon}

-- `Uri::operator std::string`.
unfoldable pub uri_text : Uri → List ℕ
unfolding to_string
uri_text u =
    to_string u.ip1
    ++ (46
        ∷ (to_string u.ip2
            ++ (46 ∷ (to_string u.ip3 ++ (46 ∷ (to_string u.ip4 ++ (colon ∷ to_string u.port)))))))

-- `"tcp://" + std::string (uri)`.
unfoldable pub address : Uri → List ℕ
unfolding uri_text
address u = 116 ∷ 99 ∷ 112 ∷ colon ∷ 47 ∷ 47 ∷ uri_text u

-- What stands behind the last colon, or the whole text if there is none.
unfoldable pub behind_colon : List ℕ → List ℕ → List ℕ
behind_colon found [] = found
behind_colon found (c ∷ cs) =
    let here = behind_colon cs cs in
    let before = behind_colon found cs in if c == colon then here else before

unfoldable pub get_port_from_uri : List ℕ → Result ℕ
unfolding behind_colon
get_port_from_uri uri_str = stoi (behind_colon uri_str uri_str)

-- `peers` has the address that the socket of each peer is connected to.
pub record NetworkManager : Type 0 where
  pub peers : List (ℕ × List ℕ)
  pub initialized : Bool
  pub in_port : ℕ

-- What is done with the socket of a peer.
pub data SocketCall : Type 0 where
  connect : ℕ → List ℕ → SocketCall
  send : ℕ → List ℕ → SocketCall

-- `peers_.count (id) >= 1`.
unfoldable pub is_peer : ℕ → List (ℕ × List ℕ) → Bool
is_peer id [] = false
is_peer id ((j, _) ∷ peers) = j == id || is_peer id peers

unfoldable pub send_msg_to_peer :
    PeerInformation → List ℕ → NetworkManager → List SocketCall × NetworkManager
unfolding is_peer address
send_msg_to_peer peer bytes nm =
    if is_peer peer.id nm.peers then (send peer.id bytes ∷ [], nm) else (
      connect peer.id (address peer.uri) ∷ send peer.id bytes ∷ [],
      record nm { peers = (peer.id, address peer.uri) ∷ nm.peers },
    )

-- The loop over the pairs.
unfoldable pub send_pairs :
    List ReceiverBlobPair → NetworkManager → List SocketCall × NetworkManager
unfolding send_msg_to_peer
send_pairs [] nm = ([], nm)
send_pairs (p ∷ ps) nm =
    let (calls, nm') = send_msg_to_peer p.i p.payload nm in
    let (more, nm'') = send_pairs ps nm' in (calls ++ more, nm'')

unfoldable pub traffic_out_return :
    List ℕ → NetworkManager → Result (List SocketCall × NetworkManager)
unfolding send_pairs
traffic_out_return bytes nm =
    deserialize_vec bytes >>= λ (i_c_pairs, _). ok (send_pairs i_c_pairs nm)

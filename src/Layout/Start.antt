-- ===== src/Layout/Start.antt =====
-- include/shared_structs.h: `JoinMessage` and `InitMessage` in memory.
use anonymous_communication.Crypt.{key_size}
use anonymous_communication.Base.{
  ℕ, zero, suc, ◌+◌, ◌*◌, ◌%◌, ◌^◌, List, [], ◌∷◌, ◌++◌, Result, ok, err, exception, length, ltb,
  if◌then◌else◌, u64,
}
use anonymous_communication.Std.{nat_less, update}
use anonymous_communication.Serial.{Reader, ◌>>=◌, return}
use anonymous_communication.Peer.{PeerInformation}
use anonymous_communication.Overlay.{Gamma}
use anonymous_communication.Client.Start.{InitData}
use anonymous_communication.Layout.{
  Writer, ◌▷◌, put, word_bytes, read_word, read_bytes, pass, put_peer, read_peer, copy_vector,
  obtain_vector, word_size, peer_size,
}

abbrev pub type_join_message : ℕ
type_join_message = 0

abbrev pub type_init_message : ℕ
type_init_message = 1

-- The cast of the first word to `MsgTypes`, an enumeration of 32 bits for the compilers in use.
unfoldable pub get_message_type : Reader ℕ
get_message_type = do word ← read_word word_size; return (word % 2 ^ 32)

-- `sizeof (JoinMessage)`.
abbrev pub join_size : ℕ
join_size = word_size + peer_size

-- A `JoinMessage` on the stack: the type and the sender.
unfoldable pub put_join : PeerInformation → Writer
unfolding put put_peer
put_join sender = put (word_bytes word_size type_join_message) ▷ put_peer sender

unfoldable pub read_join : Reader PeerInformation
unfolding pass read_peer
read_join = do _ ← pass word_size; read_peer

-- `sizeof (InitMessageLowLevelHeader)`.
abbrev pub header_size : ℕ
header_size = 72

unfoldable pub size_of_vec : List PeerInformation → ℕ
size_of_vec vec = u64 (peer_size * length vec)

unfoldable pub size_of_map_keys : Gamma → ℕ
size_of_map_keys gamma = u64 (word_size * length gamma)

-- `size += more` for an `int`, as a pattern of 32 bits.
abbrev pub grow : ℕ → ℕ → ℕ
grow size more = (size + more) % 2 ^ 32

-- The loop that sums up `gamma_route_entries_size`.
unfoldable pub entries_size : Gamma → ℕ → ℕ
unfolding size_of_vec
entries_size [] sum = sum
entries_size ((key, vec) ∷ gamma) sum = entries_size gamma (grow sum (word_size + size_of_vec vec))

unfoldable pub serialized_size : InitData → ℕ
unfolding size_of_vec size_of_map_keys entries_size
serialized_size m =
    let fixed = grow (grow header_size (key_size * 2)) key_size in
    let vectors = grow (grow fixed (size_of_vec m.gamma_send)) (size_of_vec m.gamma_receive) in
    grow (grow vectors (size_of_map_keys m.gamma_route)) (entries_size m.gamma_route 0)

-- The loop over `gamma_route_` that stores its entries.
unfoldable pub put_routes : Gamma → Writer
unfolding put copy_vector
put_routes [] = return []
put_routes ((key, vec) ∷ gamma) =
    put (word_bytes word_size key)
    ▷ put (word_bytes word_size (length vec))
    ▷ copy_vector vec
    ▷ put_routes gamma

-- The header behind the type, word by word, the keys, and the vectors.
unfoldable pub put_fields : InitData → Writer
unfolding put copy_vector put_routes
put_fields m =
    put (word_bytes word_size m.receiver_id)
    ▷ put (word_bytes word_size m.num_total_nodes)
    ▷ put (word_bytes word_size m.overlay_dimension)
    ▷ put (word_bytes word_size m.onid_assoc)
    ▷ put (word_bytes word_size m.onid_emul)
    ▷ put (word_bytes word_size (length m.gamma_send))
    ▷ put (word_bytes word_size (length m.gamma_receive))
    ▷ put (word_bytes word_size (length m.gamma_route))
    ▷ put m.sk_pseud
    ▷ put m.sk_enc
    ▷ put m.sk_routing
    ▷ copy_vector m.gamma_send
    ▷ copy_vector m.gamma_receive
    ▷ put_routes m.gamma_route

unfoldable pub put_init : InitData → Writer
unfolding put put_fields
put_init m = put (word_bytes word_size type_init_message) ▷ put_fields m

-- `InitMessage::serialize`: the array and its size. `fresh n` is what `new char[n]` holds; a size
-- that is negative as an `int` makes it throw. The assertion behind the loop is an assignment of a
-- pointer that is not null, and never fails.
unfoldable pub serialize_init : (ℕ → List ℕ) → InitData → Result (List ℕ × ℕ)
unfolding put_init serialized_size
serialize_init fresh m =
    let size = serialized_size m in
    if ltb size (2 ^ 31)
    then (elim (put_init m (fresh size)) [
      | err e ↦ err e
      | ok (bytes, cells) ↦ ok (bytes ++ cells, size)
    ])
    else err exception

-- The loop of the reading constructor over the routes, with the rounds left.
unfoldable pub read_routes : ℕ → Gamma → Reader Gamma
unfolding obtain_vector read_word
read_routes zero gamma = return gamma
read_routes (suc left) gamma = do
  key ← read_word word_size
  num_entries ← read_word word_size
  vec ← obtain_vector num_entries
  read_routes left (update key [] (λ _. vec) gamma)

-- What the reading constructor takes from behind the type.
unfoldable pub read_fields : Reader InitData
unfolding read_word read_bytes obtain_vector read_routes
read_fields = do
  receiver_id ← read_word word_size
  num_total_nodes ← read_word word_size
  overlay_dimension ← read_word word_size
  onid_assoc ← read_word word_size
  onid_emul ← read_word word_size
  send_count ← read_word word_size
  receive_count ← read_word word_size
  route_count ← read_word word_size
  sk_pseud ← read_bytes key_size
  sk_enc ← read_bytes key_size
  sk_routing ← read_bytes key_size
  gamma_send ← obtain_vector send_count
  gamma_receive ← obtain_vector receive_count
  gamma_route ← read_routes route_count []
  return (record {
    receiver_id = receiver_id;
    num_total_nodes = num_total_nodes;
    overlay_dimension = overlay_dimension;
    onid_assoc = onid_assoc;
    onid_emul = onid_emul;
    gamma_send = gamma_send;
    gamma_receive = gamma_receive;
    gamma_route = gamma_route;
    sk_pseud = sk_pseud;
    sk_enc = sk_enc;
    sk_routing = sk_routing;
  })

-- The constructor that reads an `InitMessage` from memory, with the bytes behind it.
unfoldable pub read_init : Reader InitData
unfolding pass read_fields
read_init = do _ ← pass word_size; read_fields

-- ===== src/Message.antt =====
-- client/trusted/structures.h: pseudonyms, messages and their tuples.
pub mod Order
pub mod Schemes
pub mod Codec
pub mod Due
use anonymous_communication.Base.{
  ℕ, ◌+◌, ◌^◌, ◌<◌, ◌*◌, Bool, true, false, ◌&&◌, List, [], ◌∷◌, ◌++◌, ltb, leb, ◌==◌, length,
  if◌then◌else◌, take, replicate, ok, err, undefined, ◌≡◌, ◌+u64◌, ◌*u64◌,
}
use anonymous_communication.Config.{
  message_size, pseudonym_size, delta, to_int, calculate_agreement_time, calculate_routing_time,
}
use anonymous_communication.Std.{Less}
use anonymous_communication.Std.Order.{bytes_lt}
use anonymous_communication.Serial.{
  Serializable, Reader, ◌>>=◌, return, serialize_number, deserialize_number,
}
use anonymous_communication.Peer.{
  PeerInformation, peer_eq, serialize_peer, deserialize_peer, IsPeer,
}

-- The loop of `Pseudonym::operator==`, and the `==` of two arrays.
unfoldable pub bytes_eq : List ℕ → List ℕ → Bool
bytes_eq [] [] = true
bytes_eq [] (y ∷ ys) = false
bytes_eq (x ∷ xs) [] = false
bytes_eq (x ∷ xs) (y ∷ ys) = x == y && bytes_eq xs ys

-- `std::copy (&working_vec[cur], &working_vec[cur] + count, ...)`. The cursor stays where it is.
unfoldable pub copy_bytes : ℕ → Reader (List ℕ)
copy_bytes count bytes =
    if leb count (length bytes) then ok (take count bytes, bytes) else err undefined

-- An array of `pseudonym_size` bytes.
pub record Pseudonym : Type 0 where
  pub pseud : List ℕ

unfoldable pub pseudonym_eq : Pseudonym → Pseudonym → Bool
unfolding bytes_eq
pseudonym_eq a b = bytes_eq a.pseud b.pseud

unfoldable pub pseudonym_lt : Pseudonym → Pseudonym → Bool
pseudonym_lt a b = bytes_lt a.pseud b.pseud

unfoldable pub serialize_pseudonym : Pseudonym → List ℕ
serialize_pseudonym p = p.pseud

unfoldable pub deserialize_pseudonym : Reader Pseudonym
deserialize_pseudonym = do pseud ← copy_bytes pseudonym_size; return (record { pseud = pseud })

-- `Pseudonym ()` sets the array to zeros.
abbrev pub dummy_pseudonym : Pseudonym
dummy_pseudonym = record { pseud = replicate pseudonym_size 0 }

-- What a pseudonym encrypts.
pub record DecryptedPseudonym : Type 0 where
  pub onid_repr : ℕ
  pub peer_information : PeerInformation
  pub local_num : ℕ

unfoldable pub decrypted_eq : DecryptedPseudonym → DecryptedPseudonym → Bool
decrypted_eq a b =
    a.onid_repr == b.onid_repr
    && peer_eq a.peer_information b.peer_information
    && a.local_num == b.local_num

unfoldable pub serialize_decrypted : DecryptedPseudonym → List ℕ
serialize_decrypted d =
    serialize_number 8 d.onid_repr
    ++ (serialize_peer d.peer_information ++ serialize_number 1 d.local_num)

unfoldable pub deserialize_decrypted : Reader DecryptedPseudonym
deserialize_decrypted = do
  onid ← deserialize_number 8
  peer ← deserialize_peer
  local_num ← deserialize_number 1
  return (record { onid_repr = onid; peer_information = peer; local_num = local_num })

instance abbrev pub decrypted_serializable : Serializable DecryptedPseudonym
decrypted_serializable = record {
  serialize = serialize_decrypted;
  deserialize = deserialize_decrypted;
}

abbrev pub IsDecrypted : DecryptedPseudonym → Type 0
IsDecrypted d = (d.onid_repr < 2 ^ 31) × IsPeer d.peer_information × (d.local_num < 2 ^ 8)

-- An array of `message_size` bytes.
pub record Message : Type 0 where
  pub msg : List ℕ

unfoldable pub message_eq : Message → Message → Bool
unfolding bytes_eq
message_eq a b = bytes_eq a.msg b.msg

unfoldable pub serialize_message : Message → List ℕ
serialize_message m = m.msg

unfoldable pub deserialize_message : Reader Message
deserialize_message = do msg ← copy_bytes message_size; return (record { msg = msg })

pub record MessageTuple : Type 0 where
  pub n_src : Pseudonym
  pub m : Message
  pub n_dst : Pseudonym
  pub t_dst : ℕ

-- `operator<` looks at `t_dst` alone.
unfoldable pub tuple_lt : MessageTuple → MessageTuple → Bool
tuple_lt a b = ltb a.t_dst b.t_dst

instance abbrev pub tuple_less : Less MessageTuple
tuple_less = record { lt = tuple_lt }

unfoldable pub tuple_eq : MessageTuple → MessageTuple → Bool
tuple_eq a b =
    pseudonym_eq a.n_src b.n_src
    && message_eq a.m b.m
    && pseudonym_eq a.n_dst b.n_dst
    && a.t_dst == b.t_dst

-- The dimension is an `int`; the rest of the arithmetic is that of `uint64_t`.
unfoldable pub is_due : ℕ → ℕ → MessageTuple → Bool
unfolding calculate_agreement_time calculate_routing_time
is_due cur_round dim x =
    let overlay_dimension = to_int dim in
    let l_delivered =
      cur_round
      +u64 calculate_agreement_time overlay_dimension
      +u64 calculate_routing_time overlay_dimension
      +u64 3 in
    leb (l_delivered *u64 4 *u64 delta) x.t_dst
    && ltb x.t_dst ((l_delivered +u64 1) *u64 4 *u64 delta)

unfoldable pub is_dummy : MessageTuple → Bool
is_dummy x = x.t_dst == 0

unfoldable pub is_cancel : MessageTuple → Bool
is_cancel x = x.t_dst == 1

-- `Message ()` leaves its array unset: `unset` stands for what is found there.
unfoldable pub create_dummy : Message → MessageTuple
create_dummy unset = record {
  n_src = dummy_pseudonym;
  m = unset;
  n_dst = dummy_pseudonym;
  t_dst = 0;
}

unfoldable pub create_cancel : Message → MessageTuple
create_cancel unset = record {
  n_src = dummy_pseudonym;
  m = unset;
  n_dst = dummy_pseudonym;
  t_dst = 1;
}

unfoldable pub serialize_tuple : MessageTuple → List ℕ
serialize_tuple x =
    serialize_pseudonym x.n_src
    ++ (serialize_message x.m ++ (serialize_pseudonym x.n_dst ++ serialize_number 8 x.t_dst))

unfoldable pub deserialize_tuple : Reader MessageTuple
deserialize_tuple = do
  n_src ← deserialize_pseudonym
  m ← deserialize_message
  n_dst ← deserialize_pseudonym
  t_dst ← deserialize_number 8
  return (record { n_src = n_src; m = m; n_dst = n_dst; t_dst = t_dst })

instance abbrev pub tuple_serializable : Serializable MessageTuple
tuple_serializable = record { serialize = serialize_tuple; deserialize = deserialize_tuple }

-- The lengths of the arrays.
abbrev pub IsTuple : MessageTuple → Type 0
IsTuple x =
    (length x.n_src.pseud ≡ pseudonym_size)
    × (length x.m.msg ≡ message_size)
    × (length x.n_dst.pseud ≡ pseudonym_size)

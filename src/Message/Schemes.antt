-- ===== src/Message/Schemes.antt =====
-- client/trusted/structures.h: the tuples of the agreement and of the routing scheme.
use anonymous_communication.Base.{ℕ, Bool, true, false, List, [], ◌∷◌, ◌++◌, ltb, if◌then◌else◌}
use anonymous_communication.Std.{Less}
use anonymous_communication.Std.Order.{tie}
use anonymous_communication.Serial.{
  Serializable, Reader, ◌>>=◌, return, serialize_number, deserialize_number,
}
use anonymous_communication.Peer.{PeerInformation, serialize_peer, deserialize_peer}
use anonymous_communication.Message.{
  Pseudonym, pseudonym_lt, serialize_pseudonym, deserialize_pseudonym, dummy_pseudonym, Message,
  MessageTuple, tuple_lt, serialize_tuple, deserialize_tuple, create_dummy,
}

-- Sent between enclaves in the agreement scheme.
pub record AgreementTuple : Type 0 where
  pub m : MessageTuple
  pub s : PeerInformation
  pub l : ℕ

unfoldable pub serialize_agreement : AgreementTuple → List ℕ
serialize_agreement a = serialize_tuple a.m ++ (serialize_peer a.s ++ serialize_number 8 a.l)

unfoldable pub deserialize_agreement : Reader AgreementTuple
deserialize_agreement = do
  m ← deserialize_tuple
  s ← deserialize_peer
  l ← deserialize_number 8
  return (record { m = m; s = s; l = l })

instance abbrev pub agreement_serializable : Serializable AgreementTuple
agreement_serializable = record {
  serialize = serialize_agreement;
  deserialize = deserialize_agreement;
}

-- Sent between enclaves in the routing scheme.
pub record RoutingSchemeTuple : Type 0 where
  pub m : MessageTuple
  pub onid_dst : ℕ
  pub bucket_dst : Pseudonym
  pub l_dst : ℕ
  pub onid_current : ℕ

abbrev pub routing_fields : RoutingSchemeTuple → ℕ × (Pseudonym × (ℕ × (ℕ × MessageTuple)))
routing_fields r = (r.onid_dst, (r.bucket_dst, (r.l_dst, (r.onid_current, r.m))))

unfoldable pub routing_lt : RoutingSchemeTuple → RoutingSchemeTuple → Bool
routing_lt a b =
    tie ltb (tie pseudonym_lt (tie ltb (tie ltb tuple_lt))) (routing_fields a) (routing_fields b)

instance abbrev pub routing_less : Less RoutingSchemeTuple
routing_less = record { lt = routing_lt }

-- `std::vector<RoutingSchemeTuple>` compares lexicographically.
unfoldable pub routing_vec_lt : List RoutingSchemeTuple → List RoutingSchemeTuple → Bool
routing_vec_lt xs [] = false
routing_vec_lt [] (y ∷ ys) = true
routing_vec_lt (x ∷ xs) (y ∷ ys) =
    let rest = routing_vec_lt xs ys in
    if routing_lt x y then true else if routing_lt y x then false else rest

instance abbrev pub routing_vec_less : Less (List RoutingSchemeTuple)
routing_vec_less = record { lt = routing_vec_lt }

unfoldable pub serialize_routing : RoutingSchemeTuple → List ℕ
serialize_routing r =
    serialize_tuple r.m
    ++ (serialize_number 8 r.onid_dst
        ++ (serialize_pseudonym r.bucket_dst
            ++ (serialize_number 8 r.l_dst ++ serialize_number 8 r.onid_current)))

unfoldable pub deserialize_routing : Reader RoutingSchemeTuple
deserialize_routing = do
  m ← deserialize_tuple
  onid_dst ← deserialize_number 8
  bucket_dst ← deserialize_pseudonym
  l_dst ← deserialize_number 8
  onid_current ← deserialize_number 8
  return (record {
    m = m;
    onid_dst = onid_dst;
    bucket_dst = bucket_dst;
    l_dst = l_dst;
    onid_current = onid_current;
  })

instance abbrev pub routing_serializable : Serializable RoutingSchemeTuple
routing_serializable = record { serialize = serialize_routing; deserialize = deserialize_routing }

unfoldable pub dummy_routing : Message → RoutingSchemeTuple
dummy_routing unset = record {
  m = create_dummy unset;
  onid_dst = 0;
  bucket_dst = dummy_pseudonym;
  l_dst = 0;
  onid_current = 0;
}

-- ===== src/Peer.antt =====
-- include/shared_structs.h: `Uri`, `PeerInformation` and `ReceiverBlobPair`.
pub mod Codec
pub mod Typed
use anonymous_communication.Base.{
  ℕ, zero, suc, ◌^◌, ◌<◌, Bool, ◌&&◌, List, [], ◌∷◌, ◌++◌, ltb, ◌==◌, length, All,
}
use anonymous_communication.Std.{Less}
use anonymous_communication.Std.Order.{tie}
use anonymous_communication.Serial.{
  Serializable, Reader, ◌>>=◌, return, serialize_number, deserialize_number, serialize_vec,
}

pub record Uri : Type 0 where
  pub ip1 : ℕ
  pub ip2 : ℕ
  pub ip3 : ℕ
  pub ip4 : ℕ
  pub port : ℕ

-- `Uri::operator==` and `operator<`, through `std::tie`.
unfoldable pub uri_eq : Uri → Uri → Bool
uri_eq a b =
    a.ip1 == b.ip1 && a.ip2 == b.ip2 && a.ip3 == b.ip3 && a.ip4 == b.ip4 && a.port == b.port

abbrev uri_fields : Uri → ℕ × (ℕ × (ℕ × (ℕ × ℕ)))
uri_fields u = (u.ip1, (u.ip2, (u.ip3, (u.ip4, u.port))))

unfoldable pub uri_lt : Uri → Uri → Bool
uri_lt a b = tie ltb (tie ltb (tie ltb (tie ltb ltb))) (uri_fields a) (uri_fields b)

unfoldable pub serialize_uri : Uri → List ℕ
serialize_uri u =
    serialize_number 1 u.ip1
    ++ (serialize_number 1 u.ip2
        ++ (serialize_number 1 u.ip3 ++ (serialize_number 1 u.ip4 ++ serialize_number 8 u.port)))

unfoldable pub deserialize_uri : Reader Uri
deserialize_uri = do
  ip1 ← deserialize_number 1
  ip2 ← deserialize_number 1
  ip3 ← deserialize_number 1
  ip4 ← deserialize_number 1
  port ← deserialize_number 8
  return (record { ip1 = ip1; ip2 = ip2; ip3 = ip3; ip4 = ip4; port = port })

instance abbrev pub uri_serializable : Serializable Uri
uri_serializable = record { serialize = serialize_uri; deserialize = deserialize_uri }

pub record PeerInformation : Type 0 where
  pub id : ℕ
  pub uri : Uri

unfoldable pub peer_eq : PeerInformation → PeerInformation → Bool
peer_eq a b = a.id == b.id && uri_eq a.uri b.uri

unfoldable pub peer_lt : PeerInformation → PeerInformation → Bool
peer_lt a b = tie ltb uri_lt (a.id, a.uri) (b.id, b.uri)

instance abbrev pub peer_less : Less PeerInformation
peer_less = record { lt = peer_lt }

unfoldable pub serialize_peer : PeerInformation → List ℕ
serialize_peer p = serialize_number 8 p.id ++ serialize_uri p.uri

unfoldable pub deserialize_peer : Reader PeerInformation
deserialize_peer = do
  id ← deserialize_number 8
  uri ← deserialize_uri
  return (record { id = id; uri = uri })

instance abbrev pub peer_serializable : Serializable PeerInformation
peer_serializable = record { serialize = serialize_peer; deserialize = deserialize_peer }

-- A peer and the blob of data that is for it.
pub record ReceiverBlobPair : Type 0 where
  pub i : PeerInformation
  pub payload : List ℕ

unfoldable pub serialize_pair : ReceiverBlobPair → List ℕ
serialize_pair p = serialize_peer p.i ++ (serialize_number 8 (length p.payload) ++ p.payload)

-- The loop that reads the payload byte by byte, with the rounds left.
unfoldable pub deserialize_bytes : ℕ → Reader (List ℕ)
deserialize_bytes zero = return []
deserialize_bytes (suc left) = do
  b ← deserialize_number 1
  bs ← deserialize_bytes left
  return (b ∷ bs)

unfoldable pub deserialize_pair : Reader ReceiverBlobPair
unfolding deserialize_bytes
deserialize_pair = do
  i ← deserialize_peer
  count ← deserialize_number 8
  payload ← deserialize_bytes count
  return (record { i = i; payload = payload })

instance abbrev pub pair_serializable : Serializable ReceiverBlobPair
pair_serializable = record { serialize = serialize_pair; deserialize = deserialize_pair }

-- The objects that the codecs carry: bytes fit 8 bits, and 64-bit numbers lie below 2 ^ 31.
abbrev pub IsUri : Uri → Type 0
IsUri u = (u.ip1 < 2 ^ 8) × (u.ip2 < 2 ^ 8) × (u.ip3 < 2 ^ 8) × (u.ip4 < 2 ^ 8) × (u.port < 2 ^ 31)

abbrev pub IsPeer : PeerInformation → Type 0
IsPeer p = (p.id < 2 ^ 31) × IsUri p.uri

abbrev pub IsPair : ReceiverBlobPair → Type 0
IsPair p = IsPeer p.i × (length p.payload < 2 ^ 31) × All (λ b. b < 2 ^ 8) p.payload

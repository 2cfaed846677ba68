-- ===== src/Layout.antt =====
-- include/shared_structs.h: objects that are copied as raw memory, on x86-64.
pub mod Writes
pub mod Start
pub mod RoundTrip
use anonymous_communication.Base.{
  ℕ, zero, suc, ◌+◌, ◌*◌, ◌/◌, ◌%◌, ◌^◌, List, [], ◌∷◌, ◌++◌, ok, err, undefined,
}
use anonymous_communication.Serial.{Reader, ◌>>=◌, return}
use anonymous_communication.Peer.{PeerInformation}

-- The bytes of a number of the size given, lowest first.
unfoldable pub word_bytes : ℕ → ℕ → List ℕ
word_bytes zero n = []
word_bytes (suc left) n = n % 2 ^ 8 ∷ word_bytes left (n / 2 ^ 8)

-- A read past the end of the memory is undefined.
unfoldable pub read_byte : Reader ℕ
read_byte [] = err undefined
read_byte (b ∷ bytes) = ok (b, bytes)

unfoldable pub read_word : ℕ → Reader ℕ
unfolding read_byte
read_word zero = return 0
read_word (suc left) = do b ← read_byte; n ← read_word left; return (b + 2 ^ 8 * n)

-- `count` bytes as they are.
unfoldable pub read_bytes : ℕ → Reader (List ℕ)
unfolding read_byte
read_bytes zero = return []
read_bytes (suc left) = do b ← read_byte; bs ← read_bytes left; return (b ∷ bs)

-- A writer takes the cells of fresh memory from the pointer on, and returns the bytes that these
-- cells have then, and the cells behind them. A write past the end is undefined.
abbrev pub Writer : Type 0
Writer = Reader (List ℕ)

unfoldable pub put : List ℕ → Writer
put [] cells = ok ([], cells)
put (b ∷ bs) [] = err undefined
put (b ∷ bs) (cell ∷ cells) = (do rest ← put bs; return (b ∷ rest)) cells

infixr 5 ◌▷◌
abbrev pub ◌▷◌ : Writer → Writer → Writer
first ▷ second = do a ← first; b ← second; return (a ++ b)

unfoldable pub pass : ℕ → Reader (Unit {0})
unfolding read_bytes
pass count = do _ ← read_bytes count; return tt

abbrev pub word_size : ℕ
word_size = 8

-- A pointer to the virtual functions, `id`, and a `Uri`: again such a pointer, four bytes, four
-- unused ones, and the port.
abbrev pub peer_size : ℕ
peer_size = 40

-- The members of a peer that are copied to `ptr`. The pointers and the unused bytes are the cells
-- that stay as they are.
unfoldable pub put_peer : PeerInformation → Writer
unfolding put read_bytes word_bytes
put_peer p =
    read_bytes word_size
    ▷ put (word_bytes word_size p.id)
    ▷ read_bytes word_size
    ▷ put (p.uri.ip1 ∷ [])
    ▷ put (p.uri.ip2 ∷ [])
    ▷ put (p.uri.ip3 ∷ [])
    ▷ put (p.uri.ip4 ∷ [])
    ▷ read_bytes 4
    ▷ put (word_bytes word_size p.uri.port)

unfoldable pub read_peer : Reader PeerInformation
unfolding pass read_word read_byte
read_peer = do
  _ ← pass word_size
  id ← read_word word_size
  _ ← pass word_size
  ip1 ← read_byte
  ip2 ← read_byte
  ip3 ← read_byte
  ip4 ← read_byte
  _ ← pass 4
  port ← read_word word_size
  return
      (record { id = id; uri = record { ip1 = ip1; ip2 = ip2; ip3 = ip3; ip4 = ip4; port = port } })

-- `copy_vector` and `obtain_vector` of peers.
unfoldable pub copy_vector : List PeerInformation → Writer
unfolding put_peer
copy_vector [] = return []
copy_vector (p ∷ ps) = put_peer p ▷ copy_vector ps

unfoldable pub obtain_vector : ℕ → Reader (List PeerInformation)
unfolding read_peer
obtain_vector zero = return []
obtain_vector (suc left) = do p ← read_peer; ps ← obtain_vector left; return (p ∷ ps)

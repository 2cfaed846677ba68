-- ===== src/Message/Codec.antt =====
-- What the readers of pseudonyms and messages give back.
use anonymous_communication.Base.{
  ℕ, ◌+◌, List, ◌++◌, ok, ◌≡◌, ◌≢◌, arith, length, append_assoc, length-append, take-append,
}
use anonymous_communication.Config.{pseudonym_size, message_size}
use anonymous_communication.Serial.{◌>>=◌, serialize_number, deserialize_number, return, Reader}
use anonymous_communication.Serial.Reads.{deserialize_number_takes}
use anonymous_communication.Serial.Number.{u8_round_trip, u64_round_trip, length-serialize_number}
use anonymous_communication.Serial.Bind.{read-eq-ok}
use anonymous_communication.Peer.{serialize_peer}
use anonymous_communication.Peer.Codec.{peer_round_trip}
use anonymous_communication.Message.{
  DecryptedPseudonym, MessageTuple, Pseudonym, Message, IsDecrypted, IsTuple,
  decrypted_serializable, serialize_decrypted, deserialize_decrypted, serialize_tuple,
  deserialize_tuple, serialize_pseudonym, serialize_message, copy_bytes, deserialize_pseudonym,
  deserialize_message,
}

-- A decrypted pseudonym comes back from its bytes, and the bytes behind it are left.
pub decrypted_round_trip :
    (d : DecryptedPseudonym) (rest : List ℕ)
    → IsDecrypted d
    → deserialize_decrypted (serialize_decrypted d ++ rest) ≡ ok (d, rest)
unfolding serialize_decrypted deserialize_decrypted
decrypted_round_trip d rest (h, hp, hl) = simp append_assoc (
    rw (
      u64_round_trip d.onid_repr
          (serialize_peer d.peer_information ++ (serialize_number 1 d.local_num ++ rest)) h,
      peer_round_trip d.peer_information (serialize_number 1 d.local_num ++ rest) hp,
      u8_round_trip d.local_num rest hl,
      ◌>>=◌,
    ))

-- `copy_bytes` hands out the front and leaves the cursor where it was.
copy_front : (n : ℕ) (xs ys : List ℕ) → length xs ≡ n → copy_bytes n (xs ++ ys) ≡ ok (xs, xs ++ ys)
unfolding copy_bytes
copy_front n xs ys h = ground (arith, take-append n xs ys h, length-append xs ys)

pub length-serialize_tuple : (x : MessageTuple) → IsTuple x → length (serialize_tuple x) ≡ 264
unfolding serialize_tuple serialize_pseudonym serialize_message
length-serialize_tuple x (hs, hm, hd) =
    rw (length-append, length-append, length-append)
      (omega (arith, length-serialize_number 8 x.t_dst))

pseudonym_front :
    (p ys : List ℕ)
    → length p ≡ pseudonym_size
    → deserialize_pseudonym (p ++ ys) ≡ ok (record { pseud = p }, p ++ ys)
unfolding deserialize_pseudonym
pseudonym_front p ys h = rw (copy_front pseudonym_size p ys h, ◌>>=◌)

message_front :
    (q ys : List ℕ)
    → length q ≡ message_size
    → deserialize_message (q ++ ys) ≡ ok (record { msg = q }, q ++ ys)
unfolding deserialize_message
message_front q ys h = rw (copy_front message_size q ys h, ◌>>=◌)

copy_keeps : (n : ℕ) (xs bytes rest : List ℕ) → copy_bytes n bytes ≡ ok (xs, rest) → rest ≡ bytes
unfolding copy_bytes
copy_keeps n xs bytes rest e = ground arith

pseudonym_keeps :
    (p : Pseudonym) (bytes rest : List ℕ)
    → deserialize_pseudonym bytes ≡ ok (p, rest)
    → rest ≡ bytes
unfolding deserialize_pseudonym
pseudonym_keeps p bytes rest e =
    let (xs, mid, e₁, e₂) = read-eq-ok _ (copy_bytes pseudonym_size) bytes e in
    ground (arith, copy_keeps pseudonym_size xs bytes mid e₁)

message_keeps :
    (m : Message) (bytes rest : List ℕ) → deserialize_message bytes ≡ ok (m, rest) → rest ≡ bytes
unfolding deserialize_message
message_keeps m bytes rest e =
    let (xs, mid, e₁, e₂) = read-eq-ok _ (copy_bytes message_size) bytes e in
    ground (arith, copy_keeps message_size xs bytes mid e₁)

-- The reader of a tuple moves on by the eight bytes of its number alone.
pub deserialize_tuple_takes :
    (x : MessageTuple) (bytes rest : List ℕ)
    → deserialize_tuple bytes ≡ ok (x, rest)
    → length rest + 8 ≡ length bytes
unfolding deserialize_tuple
deserialize_tuple_takes x bytes rest e =
    let (n_src, bytes₁, e₁, rest₁) = read-eq-ok _ deserialize_pseudonym bytes e in
    let (m, bytes₂, e₂, rest₂) = read-eq-ok _ deserialize_message bytes₁ rest₁ in
    let (n_dst, bytes₃, e₃, rest₃) = read-eq-ok _ deserialize_pseudonym bytes₂ rest₂ in
    let (t, bytes₄, e₄, rest₄) = read-eq-ok _ (deserialize_number 8) bytes₃ rest₃ in
    ground (
      arith,
      pseudonym_keeps n_src bytes bytes₁ e₁,
      message_keeps m bytes₁ bytes₂ e₂,
      pseudonym_keeps n_dst bytes₂ bytes₃ e₃,
      deserialize_number_takes 8 t bytes₃ bytes₄ e₄,
    )

-- The source pseudonym is read again as the front of the message, as the destination, and its
-- first eight bytes as the time.
abbrev pub garbled : Pseudonym → List ℕ → Reader MessageTuple
garbled p half = do
  t ← deserialize_number 8
  return (record { n_src = p; m = record { msg = p.pseud ++ half }; n_dst = p; t_dst = t })

tuple_front :
    (p : Pseudonym) (half tail : List ℕ)
    → length p.pseud ≡ pseudonym_size
    → length half ≡ 64
    → deserialize_tuple (p.pseud ++ (half ++ tail)) ≡ garbled p half (p.pseud ++ (half ++ tail))
unfolding deserialize_tuple
tuple_front p half tail hp hh = rw (
  pseudonym_front p.pseud (half ++ tail) hp,
  rw append_assoc at
      (message_front (p.pseud ++ half) tail (omega (arith, length-append p.pseud half))),
  pseudonym_front p.pseud (half ++ tail) hp,
  ◌>>=◌,
)

-- What comes back from the bytes of a tuple.
pub tuple_reads_back :
    (x : MessageTuple) (half other rest : List ℕ)
    → IsTuple x
    → x.m.msg ≡ half ++ other
    → length half ≡ 64
    → deserialize_tuple (serialize_tuple x ++ rest)
      ≡ garbled x.n_src half (serialize_tuple x ++ rest)
unfolding serialize_tuple serialize_pseudonym serialize_message
tuple_reads_back x half other rest (hs, hm, hd) e hh =
    simp (e, append_assoc)
      (tuple_front x.n_src half (other ++ (x.n_dst.pseud ++ (serialize_number 8 x.t_dst ++ rest)))
        hs hh)

-- For a message tuple whose arrays have their sizes, reading its bytes never ends right behind
-- them.
pub tuple_never_returns :
    (x y : MessageTuple) (rest : List ℕ)
    → IsTuple x
    → deserialize_tuple (serialize_tuple x ++ rest) ≢ ok (y, rest)
tuple_never_returns x y rest h e = omega (
  arith,
  deserialize_tuple_takes y (serialize_tuple x ++ rest) rest e,
  length-append (serialize_tuple x) rest,
  length-serialize_tuple x h,
)

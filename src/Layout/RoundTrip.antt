-- ===== src/Layout/RoundTrip.antt =====
-- What the login server writes into memory, the enclaves of the network read back.
use anonymous_communication.Base.{
  ℕ, suc, ◌+◌, ◌-◌, ◌*◌, ◌%◌, ◌^◌, ◌<◌, ◌≤◌, List, [], ◌∷◌, ◌++◌, ok, ◌≡◌, refl, arith, ap, length,
  All, subst, append-nil, append_assoc, lt→ltb,
}
use anonymous_communication.Std.Map.{IsSorted}
use anonymous_communication.Std.{nat_less}
use anonymous_communication.Serial.{Reader, return}
use anonymous_communication.Peer.{PeerInformation}
use anonymous_communication.Overlay.{Gamma}
use anonymous_communication.Overlay.Codec.{Fits, Fits-nil, Fits-next, update-last}
use anonymous_communication.Client.Start.{InitData}
use anonymous_communication.Serial.Bind.{read_then}
use anonymous_communication.Layout.{
  read_word, Writer, put_peer, read_peer, copy_vector, obtain_vector, word_size, peer_size,
}
use anonymous_communication.Layout.Writes.{
  Writes, sequence-Writes, done-Writes, nothing-Writes, byte-Writes, word-Writes, bytes-Writes,
  pass-Writes, tagged,
}
use anonymous_communication.Layout.Start.{
  put_join, read_join, put_routes, read_routes, put_init, put_fields, read_init, read_fields,
  get_message_type, type_init_message, type_join_message, join_size, size_of_vec, size_of_map_keys,
  entries_size, serialized_size, serialize_init,
}

-- The numbers of 64 bits of a peer.
abbrev pub IsWide : PeerInformation → Type 0
IsWide p = (p.id < 2 ^ 64) × (p.uri.port < 2 ^ 64)

pub peer-Writes : (p : PeerInformation) → IsWide p → Writes (put_peer p) 40 read_peer p
unfolding put_peer read_peer
peer-Writes p (hid, hport) = sequence-Writes _ (pass-Writes 8) (
    sequence-Writes _ (word-Writes p.id hid) (
      sequence-Writes _ (pass-Writes 8) (
        sequence-Writes _ (byte-Writes p.uri.ip1) (
          sequence-Writes _ (byte-Writes p.uri.ip2) (
            sequence-Writes _ (byte-Writes p.uri.ip3) (
              sequence-Writes _ (byte-Writes p.uri.ip4) (
                sequence-Writes _ (pass-Writes 4)
                  (done-Writes _ (word-Writes p.uri.port hport)))))))))

resize :
    {A : Type 0} {w : Writer} {r : Reader A} {a : A} (n m : ℕ)
    → n ≡ m
    → Writes w n r a
    → Writes w m r a
resize {w = w} {r = r} {a = a} n m e h = subst (λ k. Writes w k r a) e h

vector-Writes :
    (ps : List PeerInformation)
    → All IsWide ps
    → Writes (copy_vector ps) (peer_size * length ps) (obtain_vector (length ps)) ps
unfolding copy_vector obtain_vector
vector-Writes [] h = nothing-Writes []
vector-Writes (p ∷ ps) (h, hs) =
    resize (40 + 40 * length ps) (40 * suc (length ps)) (omega arith)
      (sequence-Writes _ (peer-Writes p h) (done-Writes _ (vector-Writes ps hs)))

abbrev pub IsWideEntry : ℕ × List PeerInformation → Type 0
IsWideEntry e = (e.0 < 2 ^ 64) × (length (e.1) < 2 ^ 64) × All IsWide (e.1)

-- The bytes of the routes.
abbrev pub routes_size : Gamma → ℕ
routes_size [] = 0
routes_size ((key, vec) ∷ gamma) = 2 * word_size + peer_size * length vec + routes_size gamma

routes-Writes :
    (entries acc : Gamma)
    → IsSorted entries
    → All IsWideEntry entries
    → Fits acc entries
    → Writes
        (put_routes entries)
        (routes_size entries)
        (read_routes (length entries) acc)
        (acc ++ entries)
unfolding put_routes read_routes
routes-Writes [] acc s h b = rw append-nil (nothing-Writes acc)
routes-Writes ((key, vec) ∷ entries) acc (above, s) ((hk, hn, hv), hs) b =
    resize (8 + (8 + (40 * length vec + routes_size entries))) (routes_size ((key, vec) ∷ entries))
      (omega arith)
      (sequence-Writes _ (word-Writes key hk) (
        sequence-Writes _ (word-Writes (length vec) hn) (
          sequence-Writes _ (vector-Writes vec hv) (
            rw (update-last key vec acc b) (
              rw append_assoc at (
                routes-Writes entries (acc ++ ((key, vec) ∷ [])) s hs
                  (Fits-next key vec acc entries above b)))))))

-- What a client can be told: numbers of 64 bits, keys of 16 bytes, and the map in its order.
abbrev pub IsInit : InitData → Type 0
IsInit m =
    (m.receiver_id < 2 ^ 64)
    × (m.num_total_nodes < 2 ^ 64)
    × (m.overlay_dimension < 2 ^ 64)
    × (m.onid_assoc < 2 ^ 64)
    × (m.onid_emul < 2 ^ 64)
    × (length m.sk_pseud ≡ 16)
    × (length m.sk_enc ≡ 16)
    × (length m.sk_routing ≡ 16)
    × All IsWide m.gamma_send
    × All IsWide m.gamma_receive
    × IsSorted m.gamma_route
    × All IsWideEntry m.gamma_route

-- The bytes of an init message.
abbrev pub layout_size : InitData → ℕ
layout_size m =
    120
    + peer_size * length m.gamma_send
    + peer_size * length m.gamma_receive
    + routes_size m.gamma_route

routes_count : (gamma : Gamma) → length gamma ≤ routes_size gamma
routes_count [] = omega arith
routes_count ((key, vec) ∷ gamma) = omega (arith, routes_count gamma)

fields-Writes :
    (m : InitData)
    → IsInit m
    → layout_size m < 2 ^ 31
    → Writes (put_fields m) (layout_size m - 8) read_fields m
unfolding put_fields read_fields
fields-Writes m (h1, h2, h3, h4, h5, kp, ke, kr, hs, hr, sorted, entries) small =
    let count = routes_count m.gamma_route in
    resize _ (layout_size m - 8) (omega arith) (
      sequence-Writes _ (word-Writes m.receiver_id h1) (
        sequence-Writes _ (word-Writes m.num_total_nodes h2) (
          sequence-Writes _ (word-Writes m.overlay_dimension h3) (
            sequence-Writes _ (word-Writes m.onid_assoc h4) (
              sequence-Writes _ (word-Writes m.onid_emul h5) (
                sequence-Writes _ (word-Writes (length m.gamma_send) (omega arith)) (
                  sequence-Writes _ (word-Writes (length m.gamma_receive) (omega arith)) (
                    sequence-Writes _ (word-Writes (length m.gamma_route) (omega arith)) (
                      sequence-Writes _ (bytes-Writes 16 m.sk_pseud kp) (
                        sequence-Writes _ (bytes-Writes 16 m.sk_enc ke) (
                          sequence-Writes _ (bytes-Writes 16 m.sk_routing kr) (
                            sequence-Writes _ (vector-Writes m.gamma_send hs) (
                              sequence-Writes _ (vector-Writes m.gamma_receive hr) (
                                done-Writes _ (
                                  routes-Writes m.gamma_route [] sorted entries
                                    (Fits-nil m.gamma_route))))))))))))))))

entries_size_sum :
    (gamma : Gamma) (sum : ℕ)
    → sum + routes_size gamma < 2 ^ 31
    → entries_size gamma sum + word_size * length gamma ≡ sum + routes_size gamma
unfolding entries_size size_of_vec
entries_size_sum [] sum h = omega arith
entries_size_sum ((key, vec) ∷ gamma) sum h =
    let now = (sum + (8 + 40 * length vec % 2 ^ 64)) % 2 ^ 32 in
    omega (arith, entries_size_sum gamma now (omega arith))

-- The size that the code computes is that of the layout, as long as that fits an `int`.
serialized-layout_size : (m : InitData) → layout_size m < 2 ^ 31 → serialized_size m ≡ layout_size m
unfolding serialized_size size_of_vec size_of_map_keys
serialized-layout_size m h =
    omega (arith, routes_count m.gamma_route, entries_size_sum m.gamma_route 0 (omega arith))

nothing_left : (xs : List ℕ) → length xs ≡ 0 → xs ≡ []
nothing_left [] h = refl
nothing_left (x ∷ xs) h = absurd (omega arith)

type_read :
    (type : ℕ) (bytes behind : List ℕ)
    → type < 2 ^ 32
    → read_word word_size bytes ≡ ok (type, behind)
    → get_message_type bytes ≡ ok (type, behind)
unfolding get_message_type
type_read type bytes behind small e =
    read_then (λ word. return (word % 2 ^ 32)) (read_word word_size) bytes behind type e
      (ap (λ t. ok (t, behind)) (omega arith))

-- For an init message with numbers of 64 bits, keys of 16 bytes and a map in its order whose layout
-- fits an `int`, the array that is allocated has the size of the layout and is filled to its last
-- byte without a write past the end, and the message is read back from it, whatever follows it.
pub init_message_round_trip :
    (fresh : ℕ → List ℕ) (m : InitData)
    → ((n : ℕ) → length (fresh n) ≡ n)
    → IsInit m
    → layout_size m < 2 ^ 31
    → (bytes : List ℕ) × (behind : List ℕ) × (serialize_init fresh m ≡ ok (bytes, layout_size m))
      × (length bytes ≡ layout_size m)
      × (get_message_type bytes ≡ ok (type_init_message, behind))
      × ((tail : List ℕ) → read_init (bytes ++ tail) ≡ ok (m, tail))
unfolding serialize_init put_init read_init get_message_type
init_message_round_trip fresh m full valid small =
    let (bytes, rest, behind, e, l, lr, type_of, back) =
      tagged 1 (fresh (layout_size m)) (omega arith) (fields-Writes m valid small)
        (omega (arith, full (layout_size m))) in
    (
      bytes,
      behind,
      rw
          (
            serialized-layout_size m small,
            lt→ltb (layout_size m) (2 ^ 31) small,
            e,
            nothing_left rest (omega (arith, full (layout_size m))),
            append-nil,
          )
          (ap (λ k. ok (bytes, k)) (serialized-layout_size m small)),
      omega arith,
      type_read 1 bytes behind (omega arith) type_of,
      back,
    )

-- A join message on a stack frame with room for it fills the frame; its type is that of join
-- messages, and reading it gives the sender.
pub join_message_round_trip :
    (cells : List ℕ) (p : PeerInformation)
    → length cells ≡ join_size
    → IsWide p
    → (bytes : List ℕ) × (behind : List ℕ) × (put_join p cells ≡ ok (bytes, []))
      × (length bytes ≡ join_size)
      × (get_message_type bytes ≡ ok (type_join_message, behind))
      × (read_join bytes ≡ ok (p, []))
unfolding put_join read_join get_message_type
join_message_round_trip cells p full wide =
    let (bytes, rest, behind, e, l, lr, type_of, back) =
      tagged 0 cells (omega arith) (peer-Writes p wide) (omega arith) in
    let none_left = nothing_left rest (omega arith) in
    (
      bytes,
      behind,
      rw none_left at e,
      l,
      type_read 0 bytes behind (omega arith) type_of,
      rw append-nil at (back []),
    )

-- ===== src/Message/Order.antt =====
-- The comparisons are strict weak orders, as `std::map` and `std::set` ask.
use anonymous_communication.Base.{ℕ, true, false, List, [], ◌∷◌, ◌≡◌, ◌⊎◌, arith}
use anonymous_communication.Std.Order.{IsWeak, ltb-IsWeak, by-IsWeak, tie-IsWeak, bytes_lt}
use anonymous_communication.Peer.{uri_lt, peer_lt}
use anonymous_communication.Message.{tuple_lt, pseudonym_lt}
use anonymous_communication.Message.Schemes.{routing_lt, routing_fields}

pub tuple_lt-IsWeak : IsWeak tuple_lt
unfolding tuple_lt
tuple_lt-IsWeak = by-IsWeak (λ x. x.t_dst) ltb-IsWeak

bytes_asym : (xs ys : List ℕ) → bytes_lt xs ys ≡ true → bytes_lt ys xs ≡ false
unfolding bytes_lt
bytes_asym [] [] h = cc
bytes_asym [] (y ∷ ys) h = ground arith
bytes_asym (x ∷ xs) [] h = cc
bytes_asym (x ∷ xs) (y ∷ ys) h = ground (arith, bytes_asym xs ys)

bytes_chain :
    (xs ys zs : List ℕ) → bytes_lt xs zs ≡ true → (bytes_lt xs ys ≡ true) ⊎ (bytes_lt ys zs ≡ true)
unfolding bytes_lt
bytes_chain [] [] [] h = cc
bytes_chain [] [] (z ∷ zs) h = ground arith
bytes_chain [] (y ∷ ys) zs h = ground arith
bytes_chain (x ∷ xs) ys [] h = cc
bytes_chain (x ∷ xs) [] (z ∷ zs) h = ground arith
bytes_chain (x ∷ xs) (y ∷ ys) (z ∷ zs) h = ground (arith, bytes_chain xs ys zs)

pub bytes_lt-IsWeak : IsWeak bytes_lt
bytes_lt-IsWeak = record { asym = bytes_asym; chain = bytes_chain }

pub pseudonym_lt-IsWeak : IsWeak pseudonym_lt
unfolding pseudonym_lt
pseudonym_lt-IsWeak = by-IsWeak (λ p. p.pseud) bytes_lt-IsWeak

pub uri_lt-IsWeak : IsWeak uri_lt
unfolding uri_lt
uri_lt-IsWeak =
    by-IsWeak (λ u. (u.ip1, (u.ip2, (u.ip3, (u.ip4, u.port)))))
      (tie-IsWeak ltb-IsWeak
        (tie-IsWeak ltb-IsWeak (tie-IsWeak ltb-IsWeak (tie-IsWeak ltb-IsWeak ltb-IsWeak))))

pub peer_lt-IsWeak : IsWeak peer_lt
unfolding peer_lt
peer_lt-IsWeak = by-IsWeak (λ p. (p.id, p.uri)) (tie-IsWeak ltb-IsWeak uri_lt-IsWeak)

pub routing_lt-IsWeak : IsWeak routing_lt
unfolding routing_lt
routing_lt-IsWeak = by-IsWeak routing_fields (
    tie-IsWeak ltb-IsWeak (
      tie-IsWeak pseudonym_lt-IsWeak
        (tie-IsWeak ltb-IsWeak (tie-IsWeak ltb-IsWeak tuple_lt-IsWeak))))

-- ===== src/Client/Reception.antt =====
-- `receive_message` and the front of the queue of outgoing messages.
use anonymous_communication.Base.{
  ℕ, ◌+◌, ◌*◌, ◌<◌, ◌^◌, not, List, [], ◌∷◌, some, ok, checked, get_elem?, ltb, ◌≡◌, ◌≢◌, refl,
  arith, All, if-cases, inl, inr, >>=-eq-ok, ok-inj, ap, Bool-cases,
}
use anonymous_communication.Config.{
  message_size, delta, FitsInt, calculate_agreement_time, calculate_routing_time,
  calculate_round_from_t,
}
use anonymous_communication.Peer.{PeerInformation}
use anonymous_communication.Message.{Pseudonym, MessageTuple, IsTuple, is_due}
use anonymous_communication.Message.Due.{is_due_iff}
use anonymous_communication.Crypt.{Primitives}
use anonymous_communication.Client.{ClientEnclave}
use anonymous_communication.Client.Pseudonyms.{Clock, get_time, decrypt_pseudonym, has_pseudonym}
use anonymous_communication.Client.Send.{Received, copy_out, deliver_top, receive_message}
use anonymous_communication.Client.Agreements.{Out}
use anonymous_communication.Client.Outgoing.{announce_due}
use anonymous_communication.Client.Limits.{All-get}

deliver_top_none :
    (now num : ℕ) (queue : List MessageTuple) (r : Received) (st st' : ClientEnclave)
    → All IsTuple queue
    → deliver_top now num queue st ≢ ok (some r, st')
unfolding deliver_top copy_out
deliver_top_none now num [] r st st' h e = cc
deliver_top_none now num (top ∷ queue) r st st' ((hs, hm, hd), h) e =
    elim (if-cases (ltb now top.t_dst) e) [
      | inl (_, early) ↦ cc (ap (λ x. x.0) (ok-inj early))
      | inr (_, due) ↦
          let (msg, _, after) = >>=-eq-ok (copy_out message_size top.m.msg) _ due in
          let (n_dst, copied, _) = >>=-eq-ok (copy_out message_size top.n_dst.pseud) _ after in
          ground (arith, copied)
    ]

-- If the queued tuples have arrays of their sizes, no call of `receive_message` returns a message.
pub receive_message_none :
    (crypto : Primitives) (clock : Clock) (n_dst : Pseudonym) (st st' : ClientEnclave)
    (r : Received)
    → All (All IsTuple) st.q_in_for_pseudonyms
    → receive_message crypto clock n_dst st ≢ ok (some r, st')
unfolding receive_message
receive_message_none crypto clock n_dst st st' r h e = elim (if-cases (not st.initialized) e) [
  | inl (_, off) ↦ cc (ap (λ x. x.0) (ok-inj off))
  | inr (_, on) ↦
      let (own, _, e₁) = >>=-eq-ok (decrypt_pseudonym crypto st n_dst) _ on in
      elim (if-cases (not (has_pseudonym own st.pseudonyms)) e₁) [
        | inl (_, foreign) ↦ cc (ap (λ x. x.0) (ok-inj foreign))
        | inr (_, e₂) ↦
            let (queue, found, e₃) =
              >>=-eq-ok (checked (get_elem? st.q_in_for_pseudonyms own.local_num)) _ e₂ in
            let (now, _, e₄) = >>=-eq-ok (get_time st clock) _ e₃ in
            deliver_top_none now own.local_num queue r st st'
              (All-get (All IsTuple) st.q_in_for_pseudonyms own.local_num queue h found) e₄
      ]
]

-- Unless twice the dimension plus 2 overflows an `int` or the round numbers overflow 64 bits, a
-- front of `q_out_` whose round has passed stays, and nothing is announced.
pub missed_front_blocks :
    (cur_round dim : ℕ) (gamma_send : List PeerInformation) (x : MessageTuple)
    (queue : List MessageTuple) (out : Out MessageTuple)
    → FitsInt dim
    → (cur_round + calculate_agreement_time dim + calculate_routing_time dim + 4) * (4 * delta)
      < 2 ^ 64
    → calculate_round_from_t x.t_dst
      < cur_round + calculate_agreement_time dim + calculate_routing_time dim + 3
    → announce_due cur_round dim gamma_send (x ∷ queue) out ≡ (x ∷ queue, out)
unfolding announce_due
missed_front_blocks cur_round dim gamma_send x queue out fits h missed =
    elim (Bool-cases (is_due cur_round dim x)) [
      | inl due ↦ absurd (omega (arith, (is_due_iff cur_round dim x fits h).0 due))
      | inr no_more ↦ rw no_more refl
    ]

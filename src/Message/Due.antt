-- ===== src/Message/Due.antt =====
-- The round at which a message is due.
use anonymous_communication.Base.{ℕ, ◌+◌, ◌*◌, ◌^◌, ◌<◌, ◌↔◌, ◌≡◌, true, arith}
use anonymous_communication.Config.{
  calculate_agreement_time, calculate_routing_time, calculate_round_from_t, delta, FitsInt,
  to_int_lem, calculate_agreement_time_lem, calculate_routing_time_lem,
}
use anonymous_communication.Message.{MessageTuple, is_due}

-- Unless twice the dimension plus 2 overflows an `int` or the round numbers overflow 64 bits, a
-- message is due exactly in the round from which agreement, routing and three more rounds lead to
-- the round of its `t_dst`.
pub is_due_iff :
    (cur_round dim : ℕ) (x : MessageTuple)
    → FitsInt dim
    → (cur_round + calculate_agreement_time dim + calculate_routing_time dim + 4) * (4 * delta)
      < 2 ^ 64
    → (is_due cur_round dim x ≡ true) ↔ (
        calculate_round_from_t x.t_dst
        ≡ cur_round + calculate_agreement_time dim + calculate_routing_time dim + 3)
unfolding is_due calculate_round_from_t
is_due_iff cur_round dim x fits h =
    rw (to_int_lem dim fits) (
      ground (arith, h, calculate_agreement_time_lem dim fits, calculate_routing_time_lem dim fits))

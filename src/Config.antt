-- ===== src/Config.antt =====
-- include/config.h and client/trusted/helpers.h: the constants and the round model.
use anonymous_communication.Base.{ℕ, ◌+◌, ◌*◌, ◌/◌, ◌%◌, ◌^◌, ◌<◌, ◌≡◌, arith, sign_extend}

abbrev pub message_size : ℕ
message_size = 128

abbrev pub pseudonym_size : ℕ
pseudonym_size = 64

-- Delta, in seconds; a round lasts four of them.
abbrev pub delta : ℕ
delta = 3

abbrev pub a_max : ℕ
a_max = 1

abbrev pub k_send : ℕ
k_send = 1

abbrev pub k_recv : ℕ
k_recv = 2

-- A number of 64 bits handed over as an `int`: the pattern of its 32 low bits.
abbrev pub to_int : ℕ → ℕ
to_int n = n % 2 ^ 32

-- The dimension is an `int`, and so is the sum, which becomes a `uint64_t` at the return. C++
-- leaves a sum that does not fit undefined; here it wraps around, as the processor computes it.
unfoldable pub calculate_agreement_time : ℕ → ℕ
calculate_agreement_time dim = sign_extend ((to_int dim + 2) % 2 ^ 32)

unfoldable pub calculate_routing_time : ℕ → ℕ
calculate_routing_time dim = sign_extend ((2 * to_int dim + 2) % 2 ^ 32)

-- The dimensions for which both sums fit an `int`.
abbrev pub FitsInt : ℕ → Type 0
FitsInt dim = 2 * dim + 2 < 2 ^ 31

pub to_int_lem : (dim : ℕ) → FitsInt dim → to_int dim ≡ dim
to_int_lem dim fits = ground arith

pub calculate_agreement_time_lem : (dim : ℕ) → FitsInt dim → calculate_agreement_time dim ≡ dim + 2
unfolding calculate_agreement_time
calculate_agreement_time_lem dim fits = ground arith

pub calculate_routing_time_lem : (dim : ℕ) → FitsInt dim → calculate_routing_time dim ≡ 2 * dim + 2
unfolding calculate_routing_time
calculate_routing_time_lem dim fits = ground arith

unfoldable pub calculate_round_from_t : ℕ → ℕ
calculate_round_from_t t = t / (4 * delta)

unfoldable pub calculate_subround_from_t : ℕ → ℕ
calculate_subround_from_t t = t / delta

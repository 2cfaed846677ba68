-- ===== src/Routing/Step.antt =====
-- Which tuples a call of `route` lets through, and what becomes of them.
use anonymous_communication.Base.{
  ℕ, ◌+◌, ◌*◌, ◌-◌, ◌^◌, ◌/◌, ◌<◌, ◌≤◌, List, [], ◌∷◌, Result, ok, if◌then◌else◌, leb, ◌==◌, ◌≡◌,
  ◌⊎◌, arith, bit_and, All, Bool-cases, inl, inr, ◌≢◌, >>=-eq-ok,
}
use anonymous_communication.Base.Bits.{bit_at, bit_and_mask}
use anonymous_communication.Config.{calculate_routing_time, calculate_routing_time_lem}
use anonymous_communication.Std.{set_count}
use anonymous_communication.Message.{Message, Pseudonym}
use anonymous_communication.Message.Schemes.{RoutingSchemeTuple, routing_less}
use anonymous_communication.Routing.{
  assign_bit, route_one, step_index, route_loop, cancel_of, determine_elements_to_be_cancelled,
  route,
}
use anonymous_communication.Routing.Bit.{assign_bit_lem}
use anonymous_communication.Routing.Cancel.{marked-All}

-- The tuples that `traffic_out` hands to `route`: those it injects, with the destination round
-- `calculate_routing_time` ahead, and those that it received and whose destination round is past.
abbrev pub IsHanded : ℕ → ℕ → RoutingSchemeTuple → Type 0
IsHanded cur_round dim s =
    (s.l_dst ≡ cur_round + calculate_routing_time dim) ⊎ (s.l_dst < cur_round)

abbrev pub IsRound : ℕ → Type 0
IsRound r = r < 2 ^ 62

-- The bit that the step at index `i` writes: of the intermediate target in the first half of the
-- window, of the destination in the second.
abbrev pub next_bit : ℕ → ℕ → ℕ → ℕ → ℕ
next_bit itm onid_dst dim i = if leb i dim then bit_at itm i else bit_at onid_dst (i - dim)

module _ (cur_round dim : ℕ) (round : IsRound cur_round) (small : dim < 32) where
  step_index_high :
      (s : RoutingSchemeTuple) → IsHanded cur_round dim s → 2 * dim < step_index cur_round dim s
  unfolding step_index
  step_index_high s h = ground (arith, calculate_routing_time_lem dim (omega arith))

  route_one-ne-ok :
      (target : Pseudonym → ℕ → Result ℕ) (s s' : RoutingSchemeTuple)
      → IsHanded cur_round dim s
      → route_one target cur_round dim s ≢ ok s'
  unfolding route_one
  route_one-ne-ok target s s' h e = ground (arith, step_index_high s h)

  route_loop-nil :
      (target : Pseudonym → ℕ → Result ℕ) (unset : Message)
      (cancel_set set_s result : List RoutingSchemeTuple)
      → All (IsHanded cur_round dim) set_s
      → route_loop target unset cur_round dim cancel_set set_s ≡ ok result
      → result ≡ []
  unfolding route_loop
  route_loop-nil target unset cancel_set [] result h e = ground arith
  route_loop-nil target unset cancel_set (s ∷ rest) result (h, hs) e =
      elim (Bool-cases (set_count (cancel_of unset s) cancel_set)) [
        | inl c ↦ route_loop-nil target unset cancel_set rest result hs (rw c at e)
        | inr c ↦
            let (s', routed, _) = >>=-eq-ok (route_one target cur_round dim s) _ (rw c at e) in
            absurd (route_one-ne-ok target s s' h routed)
      ]

  -- For a round below 2 ^ 62 and a dimension below 32, a call of `route` that returns, on tuples
  -- that are injected with the routing time ahead or whose destination round is past, returns no
  -- tuple.
  pub route_returns_nothing :
      (target : Pseudonym → ℕ → Result ℕ) (unset : Message) (set_s result : List RoutingSchemeTuple)
      → All (IsHanded cur_round dim) set_s
      → route target unset cur_round dim set_s ≡ ok result
      → result ≡ []
  unfolding route
  route_returns_nothing target unset set_s result h e =
      route_loop-nil target unset (determine_elements_to_be_cancelled unset set_s).0
        (determine_elements_to_be_cancelled unset set_s).1 result
        (marked-All (IsHanded cur_round dim) unset set_s h) e

  step_index_window :
      (s : RoutingSchemeTuple)
      → cur_round < s.l_dst
      → s.l_dst ≤ cur_round + 2 * dim
      → step_index cur_round dim s ≡ 1 + 2 * dim - (s.l_dst - cur_round)
  unfolding step_index
  step_index_window s lo hi = ground arith

  -- For a round below 2 ^ 62, a dimension below 32 and a tuple within the 2 * dim rounds before its
  -- destination round, a routing step whose intermediate target is known succeeds, assigns the bit
  -- of the step and keeps all other bits and fields.
  pub route_one_window :
      (target : Pseudonym → ℕ → Result ℕ) (s : RoutingSchemeTuple) (itm : ℕ)
      → cur_round < s.l_dst
      → s.l_dst ≤ cur_round + 2 * dim
      → target s.bucket_dst s.l_dst ≡ ok itm
      → (next : ℕ) × (route_one target cur_round dim s ≡ ok (record s { onid_current = next }))
        × ((j : ℕ)
            → bit_at next j ≡ (
                if 1 + 2 * dim - (s.l_dst - cur_round) == j
                then next_bit itm s.onid_dst dim j
                else bit_at s.onid_current j))
  unfolding route_one
  route_one_window target s itm lo hi e =
      let i = 1 + 2 * dim - (s.l_dst - cur_round) in
      (
        assign_bit s.onid_current i (next_bit itm s.onid_dst dim i),
        rw (e, step_index_window s lo hi)
            (ground (
              arith,
              bit_and_mask 1 (itm / 2 ^ (1 + 2 * dim - (s.l_dst - cur_round))),
              bit_and_mask 1 (s.onid_dst / 2 ^ (1 + 2 * dim - (s.l_dst - cur_round) - dim)),
            )),
        λ j. ground (
          arith,
          assign_bit_lem s.onid_current (1 + 2 * dim - (s.l_dst - cur_round))
              (next_bit itm s.onid_dst dim (1 + 2 * dim - (s.l_dst - cur_round))) j,
        ),
      )

  -- Bit 0 of the current position is never touched.
  pub route_one_keeps_bit_zero :
      (target : Pseudonym → ℕ → Result ℕ) (s s' : RoutingSchemeTuple)
      → route_one target cur_round dim s ≡ ok s'
      → bit_at s'.onid_current 0 ≡ bit_at s.onid_current 0
  unfolding route_one
  route_one_keeps_bit_zero target s s' e =
      let (itm, _, after) = >>=-eq-ok (target s.bucket_dst s.l_dst) _ e in
      ground (
        arith,
        bit_and_mask 1 (itm / 2 ^ step_index cur_round dim s),
        bit_and_mask 1 (s.onid_dst / 2 ^ (step_index cur_round dim s - dim)),
        assign_bit_lem s.onid_current (step_index cur_round dim s)
            (bit_and (itm / 2 ^ step_index cur_round dim s) 1) 0,
        assign_bit_lem s.onid_current (step_index cur_round dim s)
            (bit_and (s.onid_dst / 2 ^ (step_index cur_round dim s - dim)) 1) 0,
      )

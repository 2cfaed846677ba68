-- ===== src/Routing.antt =====
-- client/trusted/routing_scheme.cpp: one step of the routing through the overlay.
pub mod Bit
pub mod Step
pub mod Cancel
use anonymous_communication.Base.{
  ℕ, zero, suc, ◌+◌, ◌*◌, ◌-◌, ◌^◌, ◌/◌, ◌%◌, Bool, true, false, ◌&&◌, not, List, [], ◌∷◌, ◌++◌,
  Result, ok, err, assertion, ◌>>=◌, ◌>>◌, assert, if◌then◌else◌, ltb, leb, ◌==◌, bit_and, bit_xor,
  ◌-u64◌, ◌+u64◌, ◌>>>◌,
}
use anonymous_communication.Config.{k_recv}
use anonymous_communication.Std.{set_insert, set_count}
use anonymous_communication.Message.{Message, Pseudonym, create_cancel, is_cancel, pseudonym_eq}
use anonymous_communication.Message.Schemes.{RoutingSchemeTuple, routing_lt, routing_less}

-- `x ^= (-bit ^ x) & (1UL << i)`.
unfoldable pub assign_bit : ℕ → ℕ → ℕ → ℕ
assign_bit x i bit = bit_xor x (bit_and (bit_xor (0 -u64 bit) x) (2 ^ i % 2 ^ 64))

-- `std::sort` by `operator<`, as an insertion sort that keeps the order of equal elements.
unfoldable pub insert_sorted :
    RoutingSchemeTuple → List RoutingSchemeTuple → List RoutingSchemeTuple
insert_sorted x [] = x ∷ []
insert_sorted x (y ∷ ys) =
    let rest = insert_sorted x ys in if routing_lt y x then y ∷ rest else x ∷ y ∷ ys

unfoldable pub sort : List RoutingSchemeTuple → List RoutingSchemeTuple
unfolding insert_sorted
sort [] = []
sort (x ∷ xs) = insert_sorted x (sort xs)

-- The `std::tie` of the four fields that name a bucket.
unfoldable pub same_bucket : RoutingSchemeTuple → RoutingSchemeTuple → Bool
same_bucket a b =
    a.onid_dst == b.onid_dst
    && pseudonym_eq a.bucket_dst b.bucket_dst
    && a.l_dst == b.l_dst
    && a.onid_current == b.onid_current

-- The cancel message for the bucket of a tuple.
unfoldable pub cancel_of : Message → RoutingSchemeTuple → RoutingSchemeTuple
cancel_of unset s = record s { m = create_cancel unset }

-- The body of the loop on `set_s[i]`, which is `s`: `prev_element`, `prev_element_index` and the
-- result set.
abbrev pub Marks : Type 0
Marks = RoutingSchemeTuple × ℕ × List RoutingSchemeTuple

unfoldable pub mark_one : Message → ℕ → RoutingSchemeTuple → Marks → Marks
unfolding cancel_of
mark_one unset i s (prev, prev_index, result) =
    let result₁ = if is_cancel s.m then set_insert (cancel_of unset prev) result else result in
    let result₂ =
      if ltb k_recv (i - prev_index) then set_insert (cancel_of unset prev) result₁ else result₁ in
    if same_bucket prev s then (prev, prev_index, result₁) else (s, i, result₂)

-- The loop from index `i` on.
unfoldable pub mark_loop : Message → ℕ → List RoutingSchemeTuple → Marks → Marks
mark_loop unset i [] marks = marks
mark_loop unset i (s ∷ rest) marks = mark_loop unset (i + 1) rest (mark_one unset i s marks)

-- `prev_element` is a reference to `set_s[0]`, so that `prev_element = set_s.at (i)` writes there;
-- the elements behind it are not written. Returns the result set and `set_s`.
unfoldable pub mark_all :
    Message → List RoutingSchemeTuple → List RoutingSchemeTuple × List RoutingSchemeTuple
mark_all unset [] = ([], [])
mark_all unset (first ∷ rest) =
    let (prev, prev_index, result) =
      mark_loop unset 1 rest (mark_one unset 0 first (first, 0, [])) in
    (result, prev ∷ rest)

unfoldable pub determine_elements_to_be_cancelled :
    Message → List RoutingSchemeTuple → List RoutingSchemeTuple × List RoutingSchemeTuple
determine_elements_to_be_cancelled unset set_s = mark_all unset (sort set_s)

-- `1 + 2 * overlay_dimension - (s.l_dst - cur_round)`, in `size_t`.
unfoldable pub step_index : ℕ → ℕ → RoutingSchemeTuple → ℕ
step_index cur_round dim s = (1 +u64 2 * dim) -u64 (s.l_dst -u64 cur_round)

-- The body of the loop for one tuple that is not cancelled; `target` is
-- `get_intermediate_target` at the routing key and the dimension.
unfoldable pub route_one :
    (Pseudonym → ℕ → Result ℕ) → ℕ → ℕ → RoutingSchemeTuple → Result RoutingSchemeTuple
route_one target cur_round dim s = do
  let i = step_index cur_round dim s
  onid_itm ← target s.bucket_dst s.l_dst
  assert (leb 1 i)
  assert (leb i (2 * dim))
  let itm_bit =
      if leb i dim then bit_and (onid_itm >>> i) 1 else bit_and (s.onid_dst >>> (i - dim)) 1
  ok (record s { onid_current = assign_bit s.onid_current i itm_bit })

-- The loop of `route`: cancelled tuples are left out.
unfoldable pub route_loop :
    (Pseudonym → ℕ → Result ℕ)
    → Message
    → ℕ
    → ℕ
    → List RoutingSchemeTuple
    → List RoutingSchemeTuple
    → Result (List RoutingSchemeTuple)
route_loop target unset cur_round dim cancel_set [] = ok []
route_loop target unset cur_round dim cancel_set (s ∷ rest) =
    let result = route_loop target unset cur_round dim cancel_set rest in
    if set_count (cancel_of unset s) cancel_set
    then result
    else route_one target cur_round dim s >>= λ s'. result >>= λ routed. ok (s' ∷ routed)

unfoldable pub route :
    (Pseudonym → ℕ → Result ℕ)
    → Message
    → ℕ
    → ℕ
    → List RoutingSchemeTuple
    → Result (List RoutingSchemeTuple)
route target unset cur_round dim set_s =
    let (cancel_set, sorted) = determine_elements_to_be_cancelled unset set_s in
    route_loop target unset cur_round dim cancel_set sorted

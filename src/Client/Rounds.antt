-- ===== src/Client/Rounds.antt =====
-- `traffic_out` runs at most once in a round, and hands the mailboxes on.
use anonymous_communication.Base.{
  ℕ, ◌<◌, ◌^◌, not, List, [], Option, none, some, ok, ◌≡◌, refl, arith, Bool-cases, if-cases, inl,
  inr, >>=-eq-ok, assert-eq-ok, ok-inj, ap, subst, ◌+u64◌,
}
use anonymous_communication.Config.{calculate_subround_from_t}
use anonymous_communication.Message.{tuple_less, bytes_eq}
use anonymous_communication.Vote.{obtain_elements_that_exceed_m_corrupt}
use anonymous_communication.Crypt.{succeeded, get_intermediate_target}
use anonymous_communication.Routing.{route}
use anonymous_communication.Overlay.{OverlayReturnTuple}
use anonymous_communication.Client.{ClientEnclave, empty_inbox}
use anonymous_communication.Client.Pseudonyms.{Clock, get_time}
use anonymous_communication.Client.Agreements.{agreements}
use anonymous_communication.Client.Outgoing.{received_routing, handed_to_route, route_all, deliver}
use anonymous_communication.Client.TrafficOut.{
  Outside, Outputs, next_round, maintain, run_schemes, pad, receivers, seal_all, shift, run_round,
  run_next, traffic_out,
}

-- The schemes of a round change the queue of outgoing messages and the agreement runs only.
pub run_schemes_state :
    (outside : Outside) (result : OverlayReturnTuple) (st st' : ClientEnclave) (out : Outputs)
    → run_schemes outside result st ≡ ok (out, st')
    → record st { q_out = st'.q_out; agreement_tuples = st'.agreement_tuples } ≡ st'
unfolding run_schemes
run_schemes_state outside result st st' out e =
    let ((tuples, out_agreement, out_inject), _, e₁) =
      >>=-eq-ok (agreements outside.crypto result.gamma_route st) _ e in
    let (s_routing, _, e₂) =
      >>=-eq-ok (handed_to_route outside.crypto st (received_routing st)) _ e₁ in
    let (routed, _, e₃) =
      >>=-eq-ok
        (route
          (λ bucket l.
            get_intermediate_target outside.crypto st.sk_routing bucket l st.overlay_dimension)
          outside.unset_message st.cur_round st.overlay_dimension s_routing)
        _ e₂ in
    let (out_routing, _, e₄) = >>=-eq-ok (route_all routed result.gamma_route []) _ e₃ in
    let (out_deliver, _, e₅) =
      >>=-eq-ok
        (deliver outside.crypto st
          (obtain_elements_that_exceed_m_corrupt st.m_corrupt st.in_now.in_predeliver) [])
        _ e₄ in
    subst
      (λ (s : ClientEnclave).
        record st { q_out = s.q_out; agreement_tuples = s.agreement_tuples } ≡ s)
      (ap (λ r. r.1) (ok-inj e₅)) refl

-- What `run_round` keeps of the state, and what it does to the mailboxes.
abbrev After : ClientEnclave → ClientEnclave → Type 0
After st st' =
    (st'.initialized ≡ st.initialized)
    × (st'.init_time ≡ st.init_time)
    × (st'.init_time_nonce ≡ st.init_time_nonce)
    × (st'.cur_round ≡ st.cur_round)
    × (st'.in_now ≡ st.in_next)
    × (st'.in_next ≡ empty_inbox)

run_round-After :
    (outside : Outside) (st st' : ClientEnclave) (output : List ℕ)
    → run_round outside st ≡ ok (output, st')
    → After st st'
unfolding run_round maintain shift
run_round-After outside st st' output e =
    let result = (maintain outside st).0 in
    let st₁ = (maintain outside st).1 in
    let ((out, st₂), schemes, e₁) = >>=-eq-ok (run_schemes outside result st₁) _ e in
    let (padded, _, e₂) = >>=-eq-ok (pad outside result st₂ out) _ e₁ in
    let (pairs, _, e₃) = >>=-eq-ok (seal_all outside st₂ padded 0 (receivers padded)) _ e₂ in
    let same = run_schemes_state outside result st₁ st₂ out schemes in
    subst (After st) (ap (λ r. r.1) (ok-inj e₃))
      (subst (λ (s : ClientEnclave). After st (shift s)) same (refl, refl, refl, refl, refl, refl))

next_round_once :
    (now cur_round round : ℕ)
    → now < 2 ^ 64
    → next_round now cur_round ≡ ok (some round)
    → (round ≡ cur_round +u64 1) × (next_round now round ≡ ok none)
unfolding next_round calculate_subround_from_t
next_round_once now cur_round round h e = ground arith

get_time-lt :
    (st : ClientEnclave) (clock : Clock) (now : ℕ) → get_time st clock ≡ ok now → now < 2 ^ 64
unfolding get_time
get_time-lt st clock now e = elim (if-cases (not st.initialized) e) [
  | inl (_, off) ↦ omega (arith, ok-inj off)
  | inr (_, on) ↦
      let (reading, _, e₁) = >>=-eq-ok (succeeded clock) _ on in
      let (_, e₂) = assert-eq-ok (bytes_eq (reading.1) st.init_time_nonce) _ e₁ in
      omega (arith, ok-inj e₂)
]

get_time_same :
    (st st' : ClientEnclave) (clock : Clock) → After st st' → get_time st' clock ≡ get_time st clock
unfolding get_time
get_time_same st st' clock (i, t, n, _, _, _) = rw (i, t, n) refl

-- A call that runs has found a new round and has run it.
ran :
    (outside : Outside) (st st' : ClientEnclave) (output : List ℕ) (next : Option ℕ)
    → run_next outside st next ≡ ok (some output, st')
    → (round : ℕ) × (next ≡ some round)
      × (run_round outside (record st { cur_round = round }) ≡ ok (output, st'))
ran outside st st' output none e = cc (ap (λ r. r.0) (ok-inj e))
ran outside st st' output (some round) e =
    let ((o, s), run, after) =
      >>=-eq-ok (run_round outside (record st { cur_round = round })) _ e in
    (
      round,
      refl,
      subst (λ x. run_round outside (record st { cur_round = round }) ≡ ok (x, st'))
          (ap (λ r. output_of (r.0)) (ok-inj after))
          (subst (λ x. run_round outside (record st { cur_round = round }) ≡ ok (o, x))
            (ap (λ r. r.1) (ok-inj after)) run),
    )
  where
    output_of : Option (List ℕ) → List ℕ
    output_of none = []
    output_of (some bytes) = bytes

idle :
    (outside : Outside) (clock : Clock) (st : ClientEnclave) (now : ℕ)
    → get_time st clock ≡ ok now
    → next_round now st.cur_round ≡ ok none
    → traffic_out outside clock st ≡ ok (none, st)
unfolding traffic_out
idle outside clock st now time none_left = elim (Bool-cases (not st.initialized)) [
  | inl off ↦ rw off refl
  | inr on ↦ rw (on, time, none_left) refl
]

-- A call of `traffic_out` that runs raises the round by one, moves the mailboxes of the next round
-- to the front and empties the others, and a second call at the same time changes nothing and
-- returns false.
pub traffic_out_once :
    (outside : Outside) (clock : Clock) (st st' : ClientEnclave) (output : List ℕ)
    → traffic_out outside clock st ≡ ok (some output, st')
    → (st'.cur_round ≡ st.cur_round +u64 1)
      × (st'.in_now ≡ st.in_next)
      × (st'.in_next ≡ empty_inbox)
      × (traffic_out outside clock st' ≡ ok (none, st'))
unfolding traffic_out
traffic_out_once outside clock st st' output e = elim (if-cases (not st.initialized) e) [
  | inl (_, off) ↦ cc (ap (λ r. r.0) (ok-inj off))
  | inr (_, on) ↦
      let (now, time, e₁) = >>=-eq-ok (get_time st clock) _ on in
      let (next, found, e₂) = >>=-eq-ok (next_round now st.cur_round) _ e₁ in
      let (round, is, run) = ran outside st st' output next e₂ in
      let after = run_round-After outside (record st { cur_round = round }) st' output run in
      let (up, again) =
        next_round_once now st.cur_round round (get_time-lt st clock now time) (rw is at found) in
      let (_, _, _, here, first, second) = after in
      (
        rw (here, up) refl,
        first,
        second,
        idle outside clock st' now
            (rw
              (
                get_time_same (record st { cur_round = round }) st' clock after,
                time_frame round now time,
              )
              refl)
            (rw (here, again) refl),
      )
]
  where
    time_frame :
        (round now : ℕ)
        → get_time st clock ≡ ok now
        → get_time (record st { cur_round = round }) clock ≡ ok now
    time_frame round now time = unfold get_time in (unfold get_time in time)

-- ===== src/Client/Users/Traffic.antt =====
-- The same of `traffic_in` and `traffic_out`.
use anonymous_communication.Base.{
  ℕ, ◌==◌, ◌&&◌, ◌-u64◌, not, ltb, Bool, true, false, List, Option, none, some, ok, checked,
  get_elem?, length, ◌≡◌, refl, ap, sym, ◌∙◌, subst, if-cases, inl, inr, >>=-eq-ok, assert-eq-ok,
  ok-inj, fold_result, fold_result_keeps,
}
use anonymous_communication.Message.{MessageTuple, is_dummy}
use anonymous_communication.Std.{set_count}
use anonymous_communication.Peer.{peer_eq, peer_less}
use anonymous_communication.Crypt.{Primitives, decrypt}
use anonymous_communication.Client.{ClientEnclave, Inbox, push_queue}
use anonymous_communication.Client.Aad.{AadTuple, deserialize_aad}
use anonymous_communication.Client.Pseudonyms.{Clock, get_time, decrypt_pseudonym}
use anonymous_communication.Client.TrafficIn.{
  Plain, deserialize_plain, enqueue_one, deliver_box, half, put_half, store, admit, check_round,
  traffic_in,
}
use anonymous_communication.Client.TrafficOut.{
  Outside, next_round, maintain, run_schemes, pad, receivers, seal_all, shift, run_round, run_next,
  traffic_out,
}
use anonymous_communication.Client.Rounds.{run_schemes_state}
use anonymous_communication.Client.Users.{IsWell, requeue, length-set}

enqueue_one-length :
    (crypto : Primitives) (st : ClientEnclave) (n : ℕ) (queues queues' : List (List MessageTuple))
    (m : MessageTuple)
    → length queues ≡ n
    → enqueue_one crypto st queues m ≡ ok queues'
    → length queues' ≡ n
unfolding enqueue_one
enqueue_one-length crypto st n queues queues' m h e = elim (if-cases (is_dummy m) e) [
  | inl (_, same) ↦ subst (λ q. length q ≡ n) (ok-inj same) h
  | inr (_, real) ↦
      let (own, _, e₁) = >>=-eq-ok (decrypt_pseudonym crypto st m.n_dst) _ real in
      let (queue, _, e₂) = >>=-eq-ok (checked (get_elem? queues own.local_num)) _ e₁ in
      subst (λ q. length q ≡ n) (ok-inj e₂)
        (length-set queues own.local_num (push_queue m queue) ∙ h)
]

deliver_box-length :
    (crypto : Primitives) (st : ClientEnclave) (box box' : Inbox)
    (queues : List (List MessageTuple))
    → deliver_box crypto st box ≡ ok (queues, box')
    → length queues ≡ length st.q_in_for_pseudonyms
unfolding deliver_box
deliver_box-length crypto st box box' queues e =
    elim (if-cases (ltb st.m_corrupt (length box.received_from)) e) [
      | inl (_, deliver) ↦
          let (q, looped, e₁) =
            >>=-eq-ok (fold_result (enqueue_one crypto st) st.q_in_for_pseudonyms box.in_deliver) _
              deliver in
          let n = length st.q_in_for_pseudonyms in
          subst (λ q. length q ≡ n) (ap (λ r. r.0) (ok-inj e₁))
            (fold_result_keeps (enqueue_one crypto st) (λ q. length q ≡ n)
              (λ s s' m. enqueue_one-length crypto st n s s' m) box.in_deliver
              st.q_in_for_pseudonyms q refl looped)
      | inr (_, wait) ↦ ap length (sym (ap (λ r. r.0) (ok-inj wait)))
    ]

put_half-IsWell :
    (now : Bool) (box : Inbox) (st : ClientEnclave) → IsWell st → IsWell (put_half now box st)
put_half-IsWell true box st h = h
put_half-IsWell false box st h = h

admit-IsWell :
    (crypto : Primitives) (now : Bool) (aad : AadTuple) (p : Plain) (st st' : ClientEnclave)
    → IsWell st
    → admit crypto now aad p st ≡ ok st'
    → IsWell st'
unfolding admit
admit-IsWell crypto now aad p st st' h e =
    elim (if-cases (set_count aad.sender (half now st).received_from) e) [
      | inl (_, again) ↦ subst IsWell (ok-inj again) h
      | inr (_, fresh) ↦
          let ((queues, box), delivered, e₁) =
            >>=-eq-ok (deliver_box crypto st (store aad p (half now st))) _ fresh in
          let same =
            deliver_box-length crypto st (store aad p (half now st)) box queues delivered in
          subst IsWell (ok-inj e₁) (
            put_half-IsWell now box (record st { q_in_for_pseudonyms = queues })
              (requeue st queues h same))
    ]

pub traffic_in-IsWell :
    (crypto : Primitives) (bytes : List ℕ) (st st' : ClientEnclave)
    → IsWell st
    → traffic_in crypto bytes st ≡ ok st'
    → IsWell st'
unfolding traffic_in check_round
traffic_in-IsWell crypto bytes st st' h e = elim (if-cases (not st.initialized) e) [
  | inl (_, off) ↦ subst IsWell (ok-inj off) h
  | inr (_, on) ↦
      let ((plain, data_of), _, e₁) = >>=-eq-ok (decrypt crypto st.sk_enc bytes) _ on in
      elim (if-cases (length plain == 0 && length data_of == 0) e₁) [
        | inl (_, nothing) ↦ subst IsWell (ok-inj nothing) h
        | inr (_, some_text) ↦
            let ((aad, _), _, e₂) = >>=-eq-ok (deserialize_aad data_of) _ some_text in
            let (p, _, e₃) = >>=-eq-ok (deserialize_plain plain) _ e₂ in
            elim (if-cases (not (peer_eq aad.receiver st.own_id)) e₃) [
              | inl (_, other) ↦ subst IsWell (ok-inj other) h
              | inr (_, mine) ↦ elim (if-cases (ltb aad.round st.cur_round) mine) [
                | inl (_, late) ↦ subst IsWell (ok-inj late) h
                | inr (_, current) ↦
                    let (_, e₄) = assert-eq-ok (ltb (aad.round -u64 st.cur_round) 2) _ current in
                    admit-IsWell crypto ((aad.round -u64 st.cur_round) == 0) aad p st st' h e₄
              ]
            ]
      ]
]

-- The lists of the users after a round are those before it.
run_round-IsWell :
    (outside : Outside) (st st' : ClientEnclave) (output : List ℕ)
    → IsWell st
    → run_round outside st ≡ ok (output, st')
    → IsWell st'
unfolding run_round maintain shift
run_round-IsWell outside st st' output h e =
    let result = (maintain outside st).0 in
    let st₁ = (maintain outside st).1 in
    let ((out, st₂), schemes, e₁) = >>=-eq-ok (run_schemes outside result st₁) _ e in
    let (padded, _, e₂) = >>=-eq-ok (pad outside result st₂ out) _ e₁ in
    let (pairs, _, e₃) = >>=-eq-ok (seal_all outside st₂ padded 0 (receivers padded)) _ e₂ in
    subst IsWell (ap (λ r. r.1) (ok-inj e₃))
      (subst IsWell (run_schemes_state outside result st₁ st₂ out schemes) h)

run_next-IsWell :
    (outside : Outside) (next : Option ℕ) (st st' : ClientEnclave) (output : Option (List ℕ))
    → IsWell st
    → run_next outside st next ≡ ok (output, st')
    → IsWell st'
run_next-IsWell outside none st st' output h e = subst IsWell (ap (λ r. r.1) (ok-inj e)) h
run_next-IsWell outside (some round) st st' output h e =
    let ((bytes, after), run, e₁) =
      >>=-eq-ok (run_round outside (record st { cur_round = round })) _ e in
    subst IsWell (ap (λ r. r.1) (ok-inj e₁))
      (run_round-IsWell outside (record st { cur_round = round }) after bytes h run)

pub traffic_out-IsWell :
    (outside : Outside) (clock : Clock) (st st' : ClientEnclave) (output : Option (List ℕ))
    → IsWell st
    → traffic_out outside clock st ≡ ok (output, st')
    → IsWell st'
unfolding traffic_out
traffic_out-IsWell outside clock st st' output h e = elim (if-cases (not st.initialized) e) [
  | inl (_, off) ↦ subst IsWell (ap (λ r. r.1) (ok-inj off)) h
  | inr (_, on) ↦
      let (now, _, e₁) = >>=-eq-ok (get_time st clock) _ on in
      let (next, _, e₂) = >>=-eq-ok (next_round now st.cur_round) _ e₁ in
      run_next-IsWell outside next st st' output h e₂
]

-- ===== src/Client/Users.antt =====
-- What every handler keeps of the lists that belong to the users of an enclave.
pub mod Traffic
use anonymous_communication.Base.{
  ℕ, zero, suc, ◌+◌, ◌<◌, ◌≤◌, ◌%◌, ◌^◌, ◌==◌, ◌&&◌, ◌-u64◌, not, leb, ltb, Bool, true, false, List,
  [], ◌∷◌, ◌++◌, Option, none, some, Result, ok, ◌>>=◌, checked, get_elem?, set, length,
  length-append, assert, ◌≡◌, refl, ap, sym, ◌∙◌, subst, arith, All, All-weaken, All-snoc,
  Bool-cases, if-cases, inl, inr, >>=-eq-ok, assert-eq-ok, ok-inj, fold_result, fold_result_keeps,
}
use anonymous_communication.Config.{a_max, message_size}
use anonymous_communication.Message.{
  MessageTuple, Message, Pseudonym, DecryptedPseudonym, is_dummy, bytes_eq, decrypted_eq,
}
use anonymous_communication.Std.{set_count}
use anonymous_communication.Peer.{peer_eq, peer_less}
use anonymous_communication.Crypt.{Primitives, encrypt, decrypt}
use anonymous_communication.Client.{ClientEnclave, Inbox, push_queue}
use anonymous_communication.Client.Aad.{AadTuple, deserialize_aad}
use anonymous_communication.Client.Pseudonyms.{
  Clock, get_time, decrypt_pseudonym, has_pseudonym, generate_pseudonym,
}
use anonymous_communication.Client.Send.{
  round_key, latest_time, limit_reached, accept_message, send_message, copy_out, Received,
  deliver_top, receive_message,
}
use anonymous_communication.Client.TrafficIn.{
  Plain, deserialize_plain, enqueue_one, deliver_box, half, put_half, store, admit, check_round,
  traffic_in,
}
use anonymous_communication.Client.TrafficOut.{
  Outside, next_round, maintain, run_schemes, pad, receivers, seal_all, shift, run_round, run_next,
  traffic_out,
}
use anonymous_communication.Client.Rounds.{run_schemes_state}
use anonymous_communication.Client.Limits.{
  IsLimited, accept_message_keeps_limit, send_message_cases,
}

-- At most `kAMax` pseudonyms, numbered by their places, each with its counts and its queue, and no
-- count above `kSend`.
pub record IsServed (pseudonyms : List DecryptedPseudonym) (counts : List (List (ℕ × ℕ)))
    (queues : List (List MessageTuple)) : Type 0 where
  pub few : length pseudonyms ≤ a_max
  pub counted : length counts ≡ length pseudonyms
  pub queued : length queues ≡ length pseudonyms
  pub numbered : All (λ (d : DecryptedPseudonym). d.local_num < length pseudonyms) pseudonyms
  pub limited : IsLimited counts

abbrev pub IsWell : ClientEnclave → Type 0
IsWell st = IsServed st.pseudonyms st.num_q_out_entries st.q_in_for_pseudonyms

pub length-set {ℓ} : {A : Type ℓ} (xs : List A) (i : ℕ) (a : A) → length (set xs i a) ≡ length xs
length-set [] i a = refl
length-set (x ∷ xs) zero a = refl
length-set (x ∷ xs) (suc i) a = ap suc (length-set xs i a)

numbers_weaken :
    (ds : List DecryptedPseudonym) (n m : ℕ)
    → n ≤ m
    → All (λ (d : DecryptedPseudonym). d.local_num < n) ds
    → All (λ (d : DecryptedPseudonym). d.local_num < m) ds
numbers_weaken ds n m le =
    All-weaken (λ (d : DecryptedPseudonym). d.local_num < n)
      (λ (d : DecryptedPseudonym). d.local_num < m) ds (λ d h. omega (arith, h, le))

one_more :
    (pseudonyms : List DecryptedPseudonym) (counts : List (List (ℕ × ℕ)))
    (queues : List (List MessageTuple)) (d : DecryptedPseudonym)
    → length pseudonyms < a_max
    → d.local_num ≡ length pseudonyms % 2 ^ 8
    → IsServed pseudonyms counts queues
    → IsServed (pseudonyms ++ (d ∷ [])) (counts ++ ([] ∷ [])) (queues ++ ([] ∷ []))
one_more pseudonyms counts queues d room number h = record {
  few = omega (arith, length-append pseudonyms (d ∷ []));
  counted =
      omega (arith, h.counted, length-append pseudonyms (d ∷ []), length-append counts ([] ∷ []));
  queued =
      omega (arith, h.queued, length-append pseudonyms (d ∷ []), length-append queues ([] ∷ []));
  numbered =
      All-snoc _ pseudonyms d
        (numbers_weaken pseudonyms (length pseudonyms) (length (pseudonyms ++ (d ∷ [])))
          (omega (arith, length-append pseudonyms (d ∷ []))) h.numbered)
        (omega (arith, length-append pseudonyms (d ∷ [])));
  limited = All-snoc _ counts [] h.limited tt;
}

pub generate_pseudonym-IsWell :
    (crypto : Primitives) (iv : List ℕ) (st st' : ClientEnclave) (pseud : List ℕ)
    → IsWell st
    → generate_pseudonym crypto iv st ≡ ok (pseud, st')
    → IsWell st'
unfolding generate_pseudonym
generate_pseudonym-IsWell crypto iv st st' pseud h e =
    elim (if-cases (leb a_max (length st.pseudonyms)) e) [
      | inl (_, full) ↦ subst IsWell (ap (λ r. r.1) (ok-inj full)) h
      | inr (free, making) ↦
          let (encrypted, _, e₁) = >>=-eq-ok (encrypt crypto iv st.sk_pseud _ []) _ making in
          subst IsWell (ap (λ r. r.1) (ok-inj e₁)) (
            one_more st.pseudonyms st.num_q_out_entries st.q_in_for_pseudonyms _ (ground arith) refl
              h)
    ]

-- Only the counts of one pseudonym may change.
accept_message-IsWell :
    (now num : ℕ) (m : MessageTuple) (st st' : ClientEnclave)
    → IsWell st
    → accept_message now num m st ≡ ok st'
    → IsWell st'
unfolding accept_message
accept_message-IsWell now num m st st' h e =
    let kept = accept_message_keeps_limit now num m st st' h.limited e in
    elim (if-cases (ltb (latest_time st.overlay_dimension m.t_dst) now) e) [
      | inl (_, same) ↦ subst IsWell (ok-inj same) h
      | inr (_, early) ↦
          let (entries, _, e₁) = >>=-eq-ok (checked (get_elem? st.num_q_out_entries num)) _ early in
          elim (if-cases (limit_reached (round_key m.t_dst) entries) e₁) [
            | inl (_, same) ↦ subst IsWell (ok-inj same) h
            | inr (_, free) ↦ subst IsWell (ok-inj free) (record {
              few = h.few;
              counted = length-set st.num_q_out_entries num _ ∙ h.counted;
              queued = h.queued;
              numbered = h.numbered;
              limited = subst (λ s. IsLimited s.num_q_out_entries) (sym (ok-inj free)) kept;
            })
          ]
    ]

pub send_message-IsWell :
    (crypto : Primitives) (clock : Clock) (n_src : Pseudonym) (msg : Message) (n_dst : Pseudonym)
    (t_dst : ℕ) (st st' : ClientEnclave)
    → IsWell st
    → send_message crypto clock n_src msg n_dst t_dst st ≡ ok st'
    → IsWell st'
send_message-IsWell crypto clock n_src msg n_dst t_dst st st' h =
    send_message_cases IsWell crypto clock n_src msg n_dst t_dst st st' h
      λ now num m. accept_message-IsWell now num m st st' h

-- Queues that are as many as before.
pub requeue :
    (st : ClientEnclave) (queues : List (List MessageTuple))
    → IsWell st
    → length queues ≡ length st.q_in_for_pseudonyms
    → IsServed st.pseudonyms st.num_q_out_entries queues
requeue st queues h same = record {
  few = h.few;
  counted = h.counted;
  queued = same ∙ h.queued;
  numbered = h.numbered;
  limited = h.limited;
}

deliver_top-IsWell :
    (now num : ℕ) (queue : List MessageTuple) (st st' : ClientEnclave) (out : Option Received)
    → IsWell st
    → deliver_top now num queue st ≡ ok (out, st')
    → IsWell st'
unfolding deliver_top
deliver_top-IsWell now num [] st st' out h e = cc
deliver_top-IsWell now num (top ∷ queue) st st' out h e = elim (if-cases (ltb now top.t_dst) e) [
  | inl (_, wait) ↦ subst IsWell (ap (λ r. r.1) (ok-inj wait)) h
  | inr (_, due) ↦
      let (msg, _, e₁) = >>=-eq-ok (copy_out message_size top.m.msg) _ due in
      let (n_dst, _, e₂) = >>=-eq-ok (copy_out message_size top.n_dst.pseud) _ e₁ in
      subst IsWell (ap (λ r. r.1) (ok-inj e₂)) (
        requeue st (set st.q_in_for_pseudonyms num queue) h
          (length-set st.q_in_for_pseudonyms num queue))
]

pub receive_message-IsWell :
    (crypto : Primitives) (clock : Clock) (n_dst : Pseudonym) (st st' : ClientEnclave)
    (out : Option Received)
    → IsWell st
    → receive_message crypto clock n_dst st ≡ ok (out, st')
    → IsWell st'
unfolding receive_message
receive_message-IsWell crypto clock n_dst st st' out h e = elim (if-cases (not st.initialized) e) [
  | inl (_, off) ↦ subst IsWell (ap (λ r. r.1) (ok-inj off)) h
  | inr (_, on) ↦
      let (own, _, e₁) = >>=-eq-ok (decrypt_pseudonym crypto st n_dst) _ on in
      elim (if-cases (not (has_pseudonym own st.pseudonyms)) e₁) [
        | inl (_, foreign) ↦ subst IsWell (ap (λ r. r.1) (ok-inj foreign)) h
        | inr (_, mine) ↦
            let (queue, _, e₂) =
              >>=-eq-ok (checked (get_elem? st.q_in_for_pseudonyms own.local_num)) _ mine in
            let (now, _, e₃) = >>=-eq-ok (get_time st clock) _ e₂ in
            deliver_top-IsWell now own.local_num queue st st' out h e₃
      ]
]

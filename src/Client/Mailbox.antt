-- ===== src/Client/Mailbox.antt =====
-- The mailboxes of an enclave as a map from rounds: the code keeps two of them, for its round and
-- the next one, and takes the others for empty.
use anonymous_communication.Base.{
  ℕ, ◌+◌, ◌<◌, ◌≤◌, ◌^◌, ◌-u64◌, Bool, true, false, not, List, [], ◌∷◌, ok, if◌then◌else◌, ltb,
  ◌==◌, ◌&&◌, length, ◌≡◌, refl, sym, subst, arith, Bool-cases, if-cases, inl, inr, >>=-eq-ok,
  assert-eq-ok, ok-inj, ap, ◌∙◌,
}
use anonymous_communication.Std.{set_count}
use anonymous_communication.Peer.{peer_eq, peer_less}
use anonymous_communication.Message.{MessageTuple}
use anonymous_communication.Overlay.{overlay_serializable}
use anonymous_communication.Crypt.{Primitives, decrypt}
use anonymous_communication.Client.{ClientEnclave, Inbox, empty_inbox}
use anonymous_communication.Client.Aad.{AadTuple, deserialize_aad, deserialize_aad_typed}
use anonymous_communication.Client.TrafficIn.{
  Plain, deserialize_plain, store, deliver_box, half, put_half, admit, check_round, traffic_in,
}

abbrev pub mail : ClientEnclave → ℕ → Inbox
mail st round =
    if round == st.cur_round
    then st.in_now
    else if round == st.cur_round + 1
    then st.in_next
    else empty_inbox

-- What the bytes of a message are, decrypted and read.
pub record IsMessage (crypto : Primitives) (st : ClientEnclave) (bytes : List ℕ) (aad : AadTuple)
    (p : Plain) : Type 0 where
  pub plain : List ℕ
  pub data_of : List ℕ
  pub behind : List ℕ
  pub opened : decrypt crypto st.sk_enc bytes ≡ ok (plain, data_of)
  pub data_read : deserialize_aad data_of ≡ ok (aad, behind)
  pub plain_read : deserialize_plain plain ≡ ok p

-- For whom a message is, and whether it is for the round of the enclave or the next one.
abbrev pub IsForMe : AadTuple → ClientEnclave → Type 0
IsForMe aad st =
    (peer_eq aad.receiver st.own_id ≡ true)
    × (st.cur_round ≤ aad.round)
    × (aad.round ≤ st.cur_round + 1)

-- What the bytes of a message do: nothing, in the five cases in which they are ignored, or they
-- are stored in the mailbox of the round that they name.
pub data Delivery (crypto : Primitives) (bytes : List ℕ) (st st' : ClientEnclave) : Type 0 where
  off : st.initialized ≡ false → st' ≡ st → Delivery crypto bytes st st'
  empty : decrypt crypto st.sk_enc bytes ≡ ok ([], []) → st' ≡ st → Delivery crypto bytes st st'
  foreign :
      (aad : AadTuple) (p : Plain)
      → IsMessage crypto st bytes aad p
      → peer_eq aad.receiver st.own_id ≡ false
      → st' ≡ st
      → Delivery crypto bytes st st'
  late :
      (aad : AadTuple) (p : Plain)
      → IsMessage crypto st bytes aad p
      → aad.round < st.cur_round
      → st' ≡ st
      → Delivery crypto bytes st st'
  again :
      (aad : AadTuple) (p : Plain)
      → IsMessage crypto st bytes aad p
      → IsForMe aad st
      → set_count aad.sender (mail st aad.round).received_from ≡ true
      → st' ≡ st
      → Delivery crypto bytes st st'
  added :
      (aad : AadTuple) (p : Plain) (queues : List (List MessageTuple)) (box : Inbox)
      → IsMessage crypto st bytes aad p
      → IsForMe aad st
      → set_count aad.sender (mail st aad.round).received_from ≡ false
      → deliver_box crypto st (store aad p (mail st aad.round)) ≡ ok (queues, box)
      → st'.cur_round ≡ st.cur_round
      → st'.q_in_for_pseudonyms ≡ queues
      → ((round : ℕ) → mail st' round ≡ (if round == aad.round then box else mail st round))
      → Delivery crypto bytes st st'

-- The half that a round selects is its mailbox.
pub half-mail :
    (st : ClientEnclave) (round : ℕ)
    → st.cur_round ≤ round
    → round ≤ st.cur_round + 1
    → round < 2 ^ 64
    → mail st round ≡ half ((round -u64 st.cur_round) == 0) st
half-mail st round low high small = elim (Bool-cases ((round -u64 st.cur_round) == 0)) [
  | inl e ↦ rw e (ground arith)
  | inr e ↦ rw e (ground arith)
]

pub put_mail :
    (st : ClientEnclave) (round : ℕ) (box : Inbox) (queues : List (List MessageTuple))
    → st.cur_round ≤ round
    → round ≤ st.cur_round + 1
    → round < 2 ^ 64
    → (r : ℕ)
    → mail
        (put_half ((round -u64 st.cur_round) == 0) box (record st { q_in_for_pseudonyms = queues }))
        r
      ≡ (if r == round then box else mail st r)
put_mail st round box queues low high small r = elim (Bool-cases ((round -u64 st.cur_round) == 0)) [
  | inl e ↦ rw e (ground arith)
  | inr e ↦ rw e (ground arith)
]

admit_refines :
    (crypto : Primitives) (bytes : List ℕ) (aad : AadTuple) (p : Plain) (st st' : ClientEnclave)
    → IsMessage crypto st bytes aad p
    → IsForMe aad st
    → aad.round < 2 ^ 64
    → admit crypto ((aad.round -u64 st.cur_round) == 0) aad p st ≡ ok st'
    → Delivery crypto bytes st st'
unfolding admit
admit_refines crypto bytes aad p st st' message (mine, low, high) small e =
    let now = (aad.round -u64 st.cur_round) == 0 in
    let is = half-mail st aad.round low high small in
    elim (if-cases (set_count aad.sender (half now st).received_from) e) [
      | inl (known, same) ↦
          again aad p message (mine, low, high)
            (subst (λ b. set_count aad.sender b.received_from ≡ true) (sym is) known)
            (sym (ok-inj same))
      | inr (new, fresh) ↦
          let ((queues, box), delivered, e₁) =
            >>=-eq-ok (deliver_box crypto st (store aad p (half now st))) _ fresh in
          added aad p queues box message (mine, low, high)
            (subst (λ b. set_count aad.sender b.received_from ≡ false) (sym is) new)
            (subst (λ b. deliver_box crypto st (store aad p b) ≡ ok (queues, box)) (sym is)
              delivered)
            (subst (λ s. s.cur_round ≡ st.cur_round) (ok-inj e₁) (round_kept now box queues))
            (subst (λ s. s.q_in_for_pseudonyms ≡ queues) (ok-inj e₁) (queues_kept now box queues))
            (subst (λ s. (r : ℕ) → mail s r ≡ (if r == aad.round then box else mail st r))
              (ok-inj e₁) (put_mail st aad.round box queues low high small))
    ]
  where
    round_kept :
        (now : Bool) (box : Inbox) (queues : List (List MessageTuple))
        → (put_half now box (record st { q_in_for_pseudonyms = queues })).cur_round ≡ st.cur_round
    round_kept true box queues = refl
    round_kept false box queues = refl

    queues_kept :
        (now : Bool) (box : Inbox) (queues : List (List MessageTuple))
        → (put_half now box (record st { q_in_for_pseudonyms = queues })).q_in_for_pseudonyms
          ≡ queues
    queues_kept true box queues = refl
    queues_kept false box queues = refl

not_on : {b : Bool} → not b ≡ true → b ≡ false
not_on {b} h = ground arith

both_empty :
    (xs ys : List ℕ)
    → (length xs == 0 && length ys == 0) ≡ true
    → ◌≡◌ {A = List ℕ × List ℕ} (xs, ys) ([], [])
both_empty [] [] h = refl
both_empty [] (y ∷ ys) h = absurd (ground (arith, h))
both_empty (x ∷ xs) ys h = absurd (ground (arith, h))

message_refines :
    (crypto : Primitives) (bytes : List ℕ) (aad : AadTuple) (p : Plain) (st st' : ClientEnclave)
    → IsMessage crypto st bytes aad p
    → aad.round < 2 ^ 64
    → check_round crypto aad p st ≡ ok st'
    → Delivery crypto bytes st st'
unfolding check_round
message_refines crypto bytes aad p st st' message small e =
    elim (if-cases (not (peer_eq aad.receiver st.own_id)) e) [
      | inl (other, same) ↦ foreign aad p message (not_on other) (sym (ok-inj same))
      | inr (own, mine) ↦ elim (if-cases (ltb aad.round st.cur_round) mine) [
        | inl (past, same) ↦ late aad p message (ground arith) (sym (ok-inj same))
        | inr (current, now) ↦
            let (near, e₁) = assert-eq-ok (ltb (aad.round -u64 st.cur_round) 2) _ now in
            admit_refines crypto bytes aad p st st' message
              (ground arith, ground arith, ground arith) small e₁
      ]
    ]

-- With the mailboxes seen as a map from rounds, the bytes of a message that `traffic_in` handles
-- leave the enclave as it was or add a message to a mailbox. The enclave stays as it was only if it
-- is not initialized, or the bytes decrypt to nothing, or the additional data and the plaintext
-- that they decrypt to are read and name another receiver, a past round, or a sender that the
-- mailbox of their round has already. Otherwise what is read names the enclave, its round or the
-- next one and a new sender, and is stored in the mailbox of that round, all other mailboxes
-- staying as they were.
pub traffic_in_refines :
    (crypto : Primitives) (bytes : List ℕ) (st st' : ClientEnclave)
    → traffic_in crypto bytes st ≡ ok st'
    → Delivery crypto bytes st st'
unfolding traffic_in
traffic_in_refines crypto bytes st st' e = elim (if-cases (not st.initialized) e) [
  | inl (is_off, same) ↦ off (not_on is_off) (sym (ok-inj same))
  | inr (_, on) ↦
      let ((plain, data_of), opened, e₁) = >>=-eq-ok (decrypt crypto st.sk_enc bytes) _ on in
      elim (if-cases (length plain == 0 && length data_of == 0) e₁) [
        | inl (nothing, same) ↦
            empty (opened ∙ ap (λ r. ok r) (both_empty plain data_of nothing)) (sym (ok-inj same))
        | inr (_, some_text) ↦
            let ((aad, behind), data_read, e₂) = >>=-eq-ok (deserialize_aad data_of) _ some_text in
            let (p, plain_read, e₃) = >>=-eq-ok (deserialize_plain plain) _ e₂ in
            let (_, _, small) = deserialize_aad_typed aad data_of behind data_read in
            message_refines crypto bytes aad p st st'
              (record {
                plain = plain;
                data_of = data_of;
                behind = behind;
                opened = opened;
                data_read = data_read;
                plain_read = plain_read;
              })
              small e₃
      ]
]

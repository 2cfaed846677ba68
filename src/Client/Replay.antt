-- ===== src/Client/Replay.antt =====
-- `traffic_in` takes one message of a peer for each round.
use anonymous_communication.Base.{
  ◌≤◌, ◌<◌, Bool, true, false, List, [], ◌∷◌, ◌++◌, ◌∙◌, ok, length, ltb, ◌≡◌, refl, arith,
  if-cases, inl, inr, >>=-eq-ok, ok-inj, ap, sym, fold_result,
}
use anonymous_communication.Std.{set_insert, set_count}
use anonymous_communication.Peer.{PeerInformation, peer_less}
use anonymous_communication.Message.{MessageTuple, tuple_less}
use anonymous_communication.Message.Order.{peer_lt-IsWeak}
use anonymous_communication.Crypt.{Primitives}
use anonymous_communication.Client.{ClientEnclave, Inbox}
use anonymous_communication.Client.Aad.{AadTuple}
use anonymous_communication.Client.TrafficIn.{
  Plain, store, deliver_box, half, put_half, admit, enqueue_one,
}

insert_counted :
    (k : PeerInformation) (s : List PeerInformation) → set_count k (set_insert k s) ≡ true
unfolding set_count set_insert
insert_counted k [] = ground (arith, peer_lt-IsWeak.asym k k)
insert_counted k (j ∷ s) = ground (arith, peer_lt-IsWeak.asym k k, insert_counted k s)

half-put_half :
    (now : Bool) (box : Inbox) (st : ClientEnclave) → half now (put_half now box st) ≡ box
half-put_half true box st = refl
half-put_half false box st = refl

-- What a call that is not ignored leaves in its half of the arrays.
admitted :
    (crypto : Primitives) (now : Bool) (aad : AadTuple) (p : Plain) (st st' : ClientEnclave)
    → set_count aad.sender (half now st).received_from ≡ false
    → admit crypto now aad p st ≡ ok st'
    → (queues : List (List MessageTuple)) × (deliver_box crypto st (store aad p (half now st))
        ≡ ok (queues, half now st'))
unfolding admit
admitted crypto now aad p st st' fresh e =
    elim (if-cases (set_count aad.sender (half now st).received_from) e) [
      | inl (seen, _) ↦ absurd (ground arith)
      | inr (_, stored) ↦
          let ((queues, box), d, f) =
            >>=-eq-ok (deliver_box crypto st (store aad p (half now st))) _ stored in
          (
            queues,
            rw (← ok-inj f, half-put_half now box (record st { q_in_for_pseudonyms = queues })) d,
          )
    ]

seen_ignored :
    (crypto : Primitives) (now : Bool) (aad : AadTuple) (p : Plain) (st : ClientEnclave)
    → set_count aad.sender (half now st).received_from ≡ true
    → admit crypto now aad p st ≡ ok st
unfolding admit
seen_ignored crypto now aad p st seen = rw seen refl

-- If a message of a new sender is stored without the number of senders exceeding `m_corrupt_`, then
-- another message of that sender for the same half of the mailboxes changes nothing.
pub replay_ignored :
    (crypto : Primitives) (now : Bool) (aad aad' : AadTuple) (p p' : Plain) (st st' : ClientEnclave)
    → aad'.sender ≡ aad.sender
    → set_count aad.sender (half now st).received_from ≡ false
    → length (set_insert aad.sender (half now st).received_from) ≤ st.m_corrupt
    → admit crypto now aad p st ≡ ok st'
    → admit crypto now aad' p' st' ≡ ok st'
unfolding deliver_box store
replay_ignored crypto now aad aad' p p' st st' same fresh few e =
    let (queues, d) = admitted crypto now aad p st st' fresh e in
    elim (if-cases (ltb st.m_corrupt (length (set_insert aad.sender (half now st).received_from)))
      d) [
        | inl (many, _) ↦ absurd (ground arith)
        | inr (_, kept) ↦
            seen_ignored crypto now aad' p' st' (marked (ap (λ r. r.1.received_from) (ok-inj kept)))
      ]
  where
    marked :
        set_insert aad.sender (half now st).received_from ≡ (half now st').received_from
        → set_count aad'.sender (half now st').received_from ≡ true
    marked eq = rw (← eq, same) (insert_counted aad.sender (half now st).received_from)

-- What the message that brings the number of senders above `m_corrupt_` leaves behind.
delivered :
    (crypto : Primitives) (now : Bool) (aad : AadTuple) (p : Plain) (st st' : ClientEnclave)
    → set_count aad.sender (half now st).received_from ≡ false
    → st.m_corrupt < length (set_insert aad.sender (half now st).received_from)
    → admit crypto now aad p st ≡ ok st'
    → half now st' ≡ record (store aad p (half now st)) { in_deliver = []; received_from = [] }
unfolding deliver_box store
delivered crypto now aad p st st' fresh many e =
    let (queues, d) = admitted crypto now aad p st st' fresh e in
    elim (if-cases (ltb st.m_corrupt (length (set_insert aad.sender (half now st).received_from)))
      d) [
        | inr (few, _) ↦ absurd (ground arith)
        | inl (_, out) ↦
            let (q, _, after) =
              >>=-eq-ok
                (fold_result (enqueue_one crypto st) st.q_in_for_pseudonyms
                  (store aad p (half now st)).in_deliver)
                _ out in
            sym (ap (λ r. r.1) (ok-inj after))
      ]

m_corrupt-put_half :
    (now : Bool) (box : Inbox) (st : ClientEnclave) → (put_half now box st).m_corrupt ≡ st.m_corrupt
m_corrupt-put_half true box st = refl
m_corrupt-put_half false box st = refl

admit_keeps_m_corrupt :
    (crypto : Primitives) (now : Bool) (aad : AadTuple) (p : Plain) (st st' : ClientEnclave)
    → admit crypto now aad p st ≡ ok st'
    → st'.m_corrupt ≡ st.m_corrupt
unfolding admit
admit_keeps_m_corrupt crypto now aad p st st' e =
    elim (if-cases (set_count aad.sender (half now st).received_from) e) [
      | inl (_, same) ↦ sym (ap (λ s. s.m_corrupt) (ok-inj same))
      | inr (_, stored) ↦
          let ((queues, box), _, f) =
            >>=-eq-ok (deliver_box crypto st (store aad p (half now st))) _ stored in
          sym (ap (λ s. s.m_corrupt) (ok-inj f))
          ∙ m_corrupt-put_half now box (record st { q_in_for_pseudonyms = queues })
    ]

-- A message after which too few senders are known is stored, and nothing is delivered.
pub quiet_box :
    (crypto : Primitives) (aad : AadTuple) (p : Plain) (st : ClientEnclave) (box : Inbox)
    → length (set_insert aad.sender box.received_from) ≤ st.m_corrupt
    → deliver_box crypto st (store aad p box) ≡ ok (st.q_in_for_pseudonyms, store aad p box)
unfolding deliver_box store
quiet_box crypto aad p st box h = ground arith

first_stored :
    (crypto : Primitives) (now : Bool) (aad : AadTuple) (p : Plain) (st : ClientEnclave)
    → (half now st).received_from ≡ []
    → 1 ≤ st.m_corrupt
    → admit crypto now aad p st ≡ ok (put_half now (store aad p (half now st)) st)
unfolding admit
first_stored crypto now aad p st none_marked two =
    rw (unmarked, quiet_box crypto aad p st (half now st) alone) refl
  where
    unmarked : set_count aad.sender (half now st).received_from ≡ false
    unmarked = ap (set_count aad.sender) none_marked ∙ unfold set_count in refl

    one : length (set_insert aad.sender []) ≡ 1
    one = unfold set_insert in refl

    alone : length (set_insert aad.sender (half now st).received_from) ≤ st.m_corrupt
    alone = omega (arith, ap (λ s. length (set_insert aad.sender s)) none_marked, one)

-- If a message of a new sender brings the number of senders above `m_corrupt_`, which is not 0, and
-- is handled without an exception, then the same message is stored once more when it comes again to
-- that half of the mailboxes: its announcements are then twice in the mailbox, and its sender is
-- the only one marked.
pub replay_after_delivery :
    (crypto : Primitives) (now : Bool) (aad : AadTuple) (p : Plain) (st st' : ClientEnclave)
    → set_count aad.sender (half now st).received_from ≡ false
    → st.m_corrupt < length (set_insert aad.sender (half now st).received_from)
    → 1 ≤ st.m_corrupt
    → admit crypto now aad p st ≡ ok st'
    → (st'' : ClientEnclave) × (admit crypto now aad p st' ≡ ok st'')
      × ((half now st'').in_announce ≡ ((half now st).in_announce ++ p.p_announce) ++ p.p_announce)
      × ((half now st'').received_from ≡ aad.sender ∷ [])
unfolding store set_insert
replay_after_delivery crypto now aad p st st' fresh many two e =
    let left = delivered crypto now aad p st st' fresh many e in
    (
      put_half now (store aad p (half now st')) st',
      first_stored crypto now aad p st' (ap (λ b. b.received_from) left)
          (omega (arith, admit_keeps_m_corrupt crypto now aad p st st' e)),
      ap (λ b. b.in_announce) (half-put_half now (store aad p (half now st')) st')
          ∙ ap (λ b. b.in_announce ++ p.p_announce) left,
      ap (λ b. b.received_from) (half-put_half now (store aad p (half now st')) st')
          ∙ ap (λ b. set_insert aad.sender b.received_from) left,
    )

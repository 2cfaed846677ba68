-- ===== src/Network/Mail.antt =====
-- What is in the mailbox of a receiver once a sender has padded its announcements with a dummy.
use anonymous_communication.Base.{
  ℕ, ◌+◌, ◌^◌, ◌<◌, ◌≤◌, ◌-u64◌, ◌+u64◌, keep, append-nil, true, false, List, [], ◌∷◌, ◌++◌, ok,
  ◌>>=◌, length, ltb, ◌==◌, if◌then◌else◌, ◌≡◌, refl, ap, ◌∙◌, arith,
}
use anonymous_communication.Config.{message_size}
use anonymous_communication.Std.{find_or, set_insert, set_insert_all, set_count}
use anonymous_communication.Peer.{peer_less, PeerInformation, peer_eq}
use anonymous_communication.Message.{tuple_serializable, Message, create_dummy}
use anonymous_communication.Message.Schemes.{
  agreement_serializable, routing_serializable, RoutingSchemeTuple,
}
use anonymous_communication.Crypt.{Primitives, IsLawful, iv_size, encrypt}
use anonymous_communication.Client.{ClientEnclave, Inbox}
use anonymous_communication.Client.Aad.{AadTuple}
use anonymous_communication.Client.Replay.{quiet_box}
use anonymous_communication.Client.Mailbox.{mail, half-mail, put_mail}
use anonymous_communication.Client.TrafficIn.{
  Plain, deserialize_plain, store, put_half, admit, check_round, traffic_in,
}
use anonymous_communication.Client.TrafficOut.{Outputs, plain_for, aad_for}
use anonymous_communication.Network.{aad_of, dummy_read, only_dummy}
use anonymous_communication.Network.Sealed.{sealed_reaction}
use anonymous_communication.Network.Dummies.{dummy_hides_plain}
use anonymous_communication.Network.Arrival.{Fits}

-- The message is for this enclave, for its round or the next, from a sender that the mailbox of
-- that round does not have, and leaves too few senders there for a delivery.
pub record IsNew (aad : AadTuple) (st : ClientEnclave) : Type 0 where
  pub mine : peer_eq aad.receiver st.own_id ≡ true
  pub current : st.cur_round ≤ aad.round
  pub near : aad.round ≤ st.cur_round + 1
  pub fits : aad.round < 2 ^ 64
  pub fresh : set_count aad.sender (mail st aad.round).received_from ≡ false
  pub few : length (set_insert aad.sender (mail st aad.round).received_from) ≤ st.m_corrupt

module _ (crypto : Primitives) (aad : AadTuple) (p : Plain) (st : ClientEnclave) where
  admitted :
      IsNew aad st
      → admit crypto ((aad.round -u64 st.cur_round) == 0) aad p st
        ≡ ok (put_half ((aad.round -u64 st.cur_round) == 0) (store aad p (mail st aad.round)) st)
  unfolding admit
  admitted n =
      rw (← half-mail st aad.round n.current n.near n.fits)
        (rw (n.fresh, quiet_box crypto aad p st (mail st aad.round) n.few) refl)

  not_late : IsNew aad st → ltb aad.round st.cur_round ≡ false
  not_late n = ground (arith, n.current)

  in_reach : IsNew aad st → ltb (aad.round -u64 st.cur_round) 2 ≡ true
  in_reach n = ground (arith, n.current, n.near, n.fits)

  -- Such a message is stored in the mailbox of its round, and nothing else changes there.
  pub new_stored :
      IsNew aad st
      → (st' : ClientEnclave) × (check_round crypto aad p st ≡ ok st')
        × ((round : ℕ)
            → mail st' round
              ≡ (if round == aad.round then store aad p (mail st aad.round) else mail st round))
  unfolding check_round
  new_stored n = (
    put_half ((aad.round -u64 st.cur_round) == 0) (store aad p (mail st aad.round)) st,
    rw (n.mine, not_late n, in_reach n) (admitted n),
    put_mail st aad.round (store aad p (mail st aad.round)) st.q_in_for_pseudonyms n.current n.near
        n.fits,
  )

plain_hidden :
    (out : Outputs) (i : PeerInformation) (unset : Message)
    → find_or i [] out.out_announce ≡ create_dummy unset ∷ []
    → length unset.msg ≡ message_size
    → deserialize_plain (plain_for out i) ≡ ok (only_dummy unset)
unfolding plain_for
plain_hidden out i unset padded full = rw padded (dummy_hides_plain unset _ full)

-- Under lawful primitives, a started receiver that shares the key takes a message that fits the
-- codecs and whose announcements are one dummy as if its five other vectors were empty, whatever
-- they are.
pub dummy_hides_rest :
    (crypto : Primitives) (iv c : List ℕ) (st : ClientEnclave) (out : Outputs) (i : PeerInformation)
    (unset : Message) (receiver : ClientEnclave)
    → IsLawful crypto
    → length iv ≡ iv_size
    → Fits st out i
    → find_or i [] out.out_announce ≡ create_dummy unset ∷ []
    → length unset.msg ≡ message_size
    → receiver.initialized ≡ true
    → receiver.sk_enc ≡ st.sk_enc
    → encrypt crypto iv st.sk_enc (plain_for out i) (aad_for st out i) ≡ ok c
    → traffic_in crypto c receiver
      ≡ check_round crypto (aad_of st out i) (only_dummy unset) receiver
unfolding aad_for
dummy_hides_rest crypto iv c st out i unset receiver laws hiv (hp, ha, valid) padded full on key e =
    sealed_reaction crypto iv (plain_for out i) c (aad_of st out i) receiver laws hiv hp ha valid on
      (rw key e)
    ∙ ap (λ r. r >>= λ p. check_round crypto (aad_of st out i) p receiver)
        (plain_hidden out i unset padded full)

keep_empty_vector :
    (vs : List (List RoutingSchemeTuple))
    → keep (λ v. ltb 0 (length v)) (vs ++ ([] ∷ [])) ≡ keep (λ v. ltb 0 (length v)) vs
keep_empty_vector [] = refl
keep_empty_vector (v ∷ vs) = rw (keep_empty_vector vs) refl

-- The mailbox with the messages of the overlay, the dummy and the sender.
abbrev pub with_maintenance : AadTuple → Message → Inbox → Inbox
with_maintenance aad unset box = record box {
  in_structure = box.in_structure ++ aad.p_structure;
  in_announce = box.in_announce ++ (dummy_read unset ∷ []);
  in_routing = keep (λ v. ltb 0 (length v)) box.in_routing;
  received_from = set_insert aad.sender box.received_from;
}

stored_maintenance :
    (aad : AadTuple) (unset : Message) (box : Inbox)
    → store aad (only_dummy unset) box ≡ with_maintenance aad unset box
unfolding store set_insert_all
stored_maintenance aad unset box = simp (append-nil, keep_empty_vector)

-- Under lawful primitives, a message whose announcements are padded with one dummy, that fits the
-- codecs, is for the round of the receiver or the next, and is from a sender that the mailbox of
-- that round does not have, with too few senders there for a delivery, brings the messages of the
-- overlay and the dummy to that mailbox, marks the sender, and changes no other mailbox.
pub maintenance_arrives :
    (crypto : Primitives) (iv c : List ℕ) (st : ClientEnclave) (out : Outputs) (i : PeerInformation)
    (unset : Message) (receiver : ClientEnclave)
    → IsLawful crypto
    → length iv ≡ iv_size
    → Fits st out i
    → find_or i [] out.out_announce ≡ create_dummy unset ∷ []
    → length unset.msg ≡ message_size
    → receiver.initialized ≡ true
    → receiver.sk_enc ≡ st.sk_enc
    → IsNew (aad_of st out i) receiver
    → encrypt crypto iv st.sk_enc (plain_for out i) (aad_for st out i) ≡ ok c
    → (receiver' : ClientEnclave) × (traffic_in crypto c receiver ≡ ok receiver')
      × ((round : ℕ)
          → mail receiver' round ≡ (
              if round == st.cur_round +u64 1
              then with_maintenance (aad_of st out i) unset (mail receiver (st.cur_round +u64 1))
              else mail receiver round))
maintenance_arrives crypto iv c st out i unset receiver laws hiv fits padded full on key new e =
    let aad = aad_of st out i in
    let (receiver', runs, there) = new_stored crypto aad (only_dummy unset) receiver new in
    (
      receiver',
      dummy_hides_rest crypto iv c st out i unset receiver laws hiv fits padded full on key e
          ∙ runs,
      λ round.
          there round
          ∙ ap (λ b. if round == aad.round then b else mail receiver round)
              (stored_maintenance aad unset (mail receiver aad.round)),
    )

-- ===== src/Client/Reachable.antt =====
-- The states that an enclave can reach by calls of its handlers, in any order and with any arguments.
use anonymous_communication.Base.{
  ℕ, zero, suc, ◌<◌, true, List, [], ◌∷◌, Option, ok, checked, get_elem?, set, length, ltb, ◌==◌,
  ◌≡◌, refl, ap, subst, arith, All, Bool-cases, if-cases, inl, inr, >>=-eq-ok, ok-inj,
}
use anonymous_communication.Message.{
  MessageTuple, Message, Pseudonym, DecryptedPseudonym, decrypted_eq,
}
use anonymous_communication.Crypt.{Primitives, succeeded}
use anonymous_communication.Std.{nat_less, update}
use anonymous_communication.Client.{ClientEnclave, push_queue}
use anonymous_communication.Client.Pseudonyms.{Clock, generate_pseudonym, has_pseudonym}
use anonymous_communication.Client.Send.{
  Received, latest_time, round_key, limit_reached, accept_message, send_message, receive_message,
}
use anonymous_communication.Client.TrafficIn.{traffic_in}
use anonymous_communication.Client.TrafficOut.{Outside, traffic_out}
use anonymous_communication.Layout.Start.{put_join, read_init, get_message_type, type_init_message}
use anonymous_communication.Overlay.Update.{init}
use anonymous_communication.Client.Start.{InitData, received_init}
use anonymous_communication.Client.Join.{with_address, network_init, received_msg_from_server}
use anonymous_communication.Client.Users.{
  IsWell, generate_pseudonym-IsWell, send_message-IsWell, receive_message-IsWell,
}
use anonymous_communication.Client.Users.Traffic.{traffic_in-IsWell, traffic_out-IsWell}

-- One call that returns.
infix 40 ◌⟶◌ ◌⟶*◌
pub data ◌⟶◌ : ClientEnclave → ClientEnclave → Type 0 where
  generates :
      {st st' : ClientEnclave} (crypto : Primitives) (iv pseud : List ℕ)
      → generate_pseudonym crypto iv st ≡ ok (pseud, st')
      → st ⟶ st'
  sends :
      {st st' : ClientEnclave} (crypto : Primitives) (clock : Clock) (n_src : Pseudonym)
      (msg : Message) (n_dst : Pseudonym) (t_dst : ℕ)
      → send_message crypto clock n_src msg n_dst t_dst st ≡ ok st'
      → st ⟶ st'
  receives :
      {st st' : ClientEnclave} (crypto : Primitives) (clock : Clock) (n_dst : Pseudonym)
      (out : Option Received)
      → receive_message crypto clock n_dst st ≡ ok (out, st')
      → st ⟶ st'
  takes :
      {st st' : ClientEnclave} (crypto : Primitives) (bytes : List ℕ)
      → traffic_in crypto bytes st ≡ ok st'
      → st ⟶ st'
  lets_out :
      {st st' : ClientEnclave} (outside : Outside) (clock : Clock) (output : Option (List ℕ))
      → traffic_out outside clock st ≡ ok (output, st')
      → st ⟶ st'
  joins :
      {st st' : ClientEnclave} (cells bytes : List ℕ) (ip1 ip2 ip3 ip4 port : ℕ)
      → network_init cells ip1 ip2 ip3 ip4 port st ≡ ok (bytes, st')
      → st ⟶ st'
  starts :
      {st st' : ClientEnclave} (quorum_bound : ℕ → ℕ) (routing_bound : ℕ → ℕ → ℕ) (clock : Clock)
      (bytes : List ℕ)
      → received_msg_from_server quorum_bound routing_bound clock bytes st ≡ ok st'
      → st ⟶ st'

pub data ◌⟶*◌ : ClientEnclave → ClientEnclave → Type 0 where
  here : {st : ClientEnclave} → st ⟶* st
  onward : {st mid st' : ClientEnclave} → st ⟶ mid → mid ⟶* st' → st ⟶* st'

network_init-IsWell :
    (cells bytes : List ℕ) (ip1 ip2 ip3 ip4 port : ℕ) (st st' : ClientEnclave)
    → IsWell st
    → network_init cells ip1 ip2 ip3 ip4 port st ≡ ok (bytes, st')
    → IsWell st'
unfolding network_init
network_init-IsWell cells bytes ip1 ip2 ip3 ip4 port st st' h e =
    let ((_, _), _, e₁) =
      >>=-eq-ok (put_join ((with_address ip1 ip2 ip3 ip4 port st).own_id) cells) _ e in
    subst IsWell (ap (λ r. r.1) (ok-inj e₁)) h

received_init-IsWell :
    (quorum_bound : ℕ → ℕ) (routing_bound : ℕ → ℕ → ℕ) (reading : ℕ × List ℕ) (m : InitData)
    (st st' : ClientEnclave)
    → IsWell st
    → received_init quorum_bound routing_bound reading m st ≡ ok st'
    → IsWell st'
unfolding received_init
received_init-IsWell quorum_bound routing_bound reading m st st' h e =
    let (_, _, e₁) = >>=-eq-ok (init st.overlay_structure_scheme _ _ _ _ _ _ _ _) _ e in
    subst IsWell (ok-inj e₁) h

received_msg_from_server-IsWell :
    (quorum_bound : ℕ → ℕ) (routing_bound : ℕ → ℕ → ℕ) (clock : Clock) (bytes : List ℕ)
    (st st' : ClientEnclave)
    → IsWell st
    → received_msg_from_server quorum_bound routing_bound clock bytes st ≡ ok st'
    → IsWell st'
unfolding received_msg_from_server
received_msg_from_server-IsWell quorum_bound routing_bound clock bytes st st' h e =
    let ((type, _), _, e₁) = >>=-eq-ok (get_message_type bytes) _ e in
    elim (if-cases (type == type_init_message) e₁) [
      | inr (_, other) ↦ subst IsWell (ok-inj other) h
      | inl (_, is_init) ↦
          let (reading, _, e₂) = >>=-eq-ok (succeeded clock) _ is_init in
          let ((m, _), _, e₃) = >>=-eq-ok (read_init bytes) _ e₂ in
          received_init-IsWell quorum_bound routing_bound reading m st st' h e₃
    ]

step-IsWell : {st st' : ClientEnclave} → st ⟶ st' → IsWell st → IsWell st'
step-IsWell {st} {st'} (generates crypto iv pseud e) h =
    generate_pseudonym-IsWell crypto iv st st' pseud h e
step-IsWell {st} {st'} (sends crypto clock n_src msg n_dst t_dst e) h =
    send_message-IsWell crypto clock n_src msg n_dst t_dst st st' h e
step-IsWell {st} {st'} (receives crypto clock n_dst out e) h =
    receive_message-IsWell crypto clock n_dst st st' out h e
step-IsWell {st} {st'} (takes crypto bytes e) h = traffic_in-IsWell crypto bytes st st' h e
step-IsWell {st} {st'} (lets_out outside clock output e) h =
    traffic_out-IsWell outside clock st st' output h e
step-IsWell {st} {st'} (joins cells bytes ip1 ip2 ip3 ip4 port e) h =
    network_init-IsWell cells bytes ip1 ip2 ip3 ip4 port st st' h e
step-IsWell {st} {st'} (starts quorum_bound routing_bound clock bytes e) h =
    received_msg_from_server-IsWell quorum_bound routing_bound clock bytes st st' h e

-- However the handlers of an enclave are called, it keeps at most `kAMax` pseudonyms, numbered by
-- their places, each with its counts and its queue, and no count of messages for a round is above
-- `kSend`, if all this held before.
pub reachable-IsWell : {st st' : ClientEnclave} → st ⟶* st' → IsWell st → IsWell st'
reachable-IsWell here h = h
reachable-IsWell (onward step steps) h = reachable-IsWell steps (step-IsWell step h)

found :
    {A : Type 0} (xs : List A) (i : ℕ) → i < length xs → (a : A) × (checked (get_elem? xs i) ≡ ok a)
found [] i h = absurd (omega arith)
found (x ∷ xs) zero h = (x, refl)
found (x ∷ xs) (suc i) h = found xs i (omega arith)

-- A pseudonym of the enclave has the number of one of those in the list.
own_number :
    (d : DecryptedPseudonym) (ds : List DecryptedPseudonym) (n : ℕ)
    → All (λ (d : DecryptedPseudonym). d.local_num < n) ds
    → has_pseudonym d ds ≡ true
    → d.local_num < n
unfolding has_pseudonym decrypted_eq
own_number d [] n h e = cc
own_number d (x ∷ xs) n (h, hs) e = ground (arith, own_number d xs n hs)

-- In every state that is reached from a well-formed one, a message whose source is a pseudonym of
-- the enclave is refused or accepted without an exception.
pub reachable_accepts :
    {st st' : ClientEnclave} (source : DecryptedPseudonym) (now : ℕ) (m : MessageTuple)
    → st ⟶* st'
    → IsWell st
    → has_pseudonym source st'.pseudonyms ≡ true
    → (next : ClientEnclave) × (accept_message now source.local_num m st' ≡ ok next)
unfolding accept_message
reachable_accepts {st} {st'} source now m steps h own =
    let well = reachable-IsWell steps h in
    let small = own_number source st'.pseudonyms (length st'.pseudonyms) well.numbered own in
    let (entries, there) =
      found st'.num_q_out_entries source.local_num (omega (arith, well.counted)) in
    elim (Bool-cases (ltb (latest_time st'.overlay_dimension m.t_dst) now)) [
      | inl late ↦ (st', rw late refl)
      | inr early ↦ elim (Bool-cases (limit_reached (round_key m.t_dst) entries)) [
        | inl full ↦ (st', rw (early, there, full) refl)
        | inr free ↦ (
          record st' {
            q_out = push_queue m st'.q_out;
            num_q_out_entries =
                set st'.num_q_out_entries source.local_num
                  (update (round_key m.t_dst) 0 suc entries);
          },
          rw (early, there, free) refl,
        )
      ]
    ]

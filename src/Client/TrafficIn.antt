-- ===== src/Client/TrafficIn.antt =====
-- `traffic_in` of client/trusted/client_enclave.cpp: a message from another enclave.
use anonymous_communication.Base.{
  ℕ, Bool, true, false, not, List, [], ◌∷◌, ◌++◌, Result, ok, ◌>>=◌, ◌>>◌, assert, checked, length,
  get_elem?, set, keep, fold_result, ltb, if◌then◌else◌, ◌-u64◌, ◌&&◌, ◌==◌,
}
use anonymous_communication.Std.{set_insert, set_insert_all, set_count}
use anonymous_communication.Serial.{deserialize_vec}
use anonymous_communication.Peer.{peer_eq, peer_less}
use anonymous_communication.Message.{MessageTuple, tuple_less, is_dummy, tuple_serializable}
use anonymous_communication.Message.Schemes.{
  AgreementTuple, RoutingSchemeTuple, agreement_serializable, routing_serializable,
}
use anonymous_communication.Crypt.{Primitives, decrypt}
use anonymous_communication.Client.{ClientEnclave, Inbox, push_queue}
use anonymous_communication.Client.Aad.{AadTuple, deserialize_aad}
use anonymous_communication.Client.Pseudonyms.{decrypt_pseudonym}

-- The six vectors of a plaintext.
pub record Plain : Type 0 where
  pub p_announce : List MessageTuple
  pub p_agreement : List AgreementTuple
  pub p_inject : List MessageTuple
  pub p_routing : List RoutingSchemeTuple
  pub p_predeliver : List MessageTuple
  pub p_deliver : List MessageTuple

unfoldable pub deserialize_plain : List ℕ → Result Plain
deserialize_plain p₀ = do
  (announce, p₁) ← deserialize_vec p₀
  (agreement, p₂) ← deserialize_vec p₁
  (inject, p₃) ← deserialize_vec p₂
  (routing, p₄) ← deserialize_vec p₃
  (predeliver, p₅) ← deserialize_vec p₄
  (deliver, _) ← deserialize_vec p₅
  ok (record {
    p_announce = announce;
    p_agreement = agreement;
    p_inject = inject;
    p_routing = routing;
    p_predeliver = predeliver;
    p_deliver = deliver;
  })

-- The vectors are added to one half of the arrays, and vectors of routing tuples that are empty
-- are removed.
unfoldable pub store : AadTuple → Plain → Inbox → Inbox
store aad p box = record {
  in_structure = box.in_structure ++ aad.p_structure;
  in_announce = box.in_announce ++ p.p_announce;
  in_agreement = box.in_agreement ++ p.p_agreement;
  in_inject = box.in_inject ++ p.p_inject;
  in_routing = keep (λ v. ltb 0 (length v)) (box.in_routing ++ (p.p_routing ∷ []));
  in_predeliver = box.in_predeliver ++ p.p_predeliver;
  in_deliver = set_insert_all p.p_deliver box.in_deliver;
  received_from = set_insert aad.sender box.received_from;
}

-- One message of `in_deliver_` is put into the queue of its pseudonym.
unfoldable pub enqueue_one :
    Primitives
    → ClientEnclave
    → List (List MessageTuple)
    → MessageTuple
    → Result (List (List MessageTuple))
enqueue_one crypto st queues message =
    if is_dummy message
    then ok queues
    else decrypt_pseudonym crypto st message.n_dst >>= λ own.
        checked (get_elem? queues own.local_num) >>= λ queue.
        ok (set queues own.local_num (push_queue message queue))

-- The delivery, once more than `m_corrupt_` peers have been heard; both sets are emptied then.
unfoldable pub deliver_box :
    Primitives → ClientEnclave → Inbox → Result (List (List MessageTuple) × Inbox)
deliver_box crypto st box =
    if ltb st.m_corrupt (length box.received_from)
    then (fold_result (enqueue_one crypto st) st.q_in_for_pseudonyms box.in_deliver >>= λ queues.
        ok (queues, record box { in_deliver = []; received_from = [] }))
    else ok (st.q_in_for_pseudonyms, box)

-- The half of the arrays, `now` being whether `cur_or_next` is 0.
abbrev pub half : Bool → ClientEnclave → Inbox
half now st = if now then st.in_now else st.in_next

abbrev pub put_half : Bool → Inbox → ClientEnclave → ClientEnclave
put_half true box st = record st { in_now = box }
put_half false box st = record st { in_next = box }

unfoldable pub admit : Primitives → Bool → AadTuple → Plain → ClientEnclave → Result ClientEnclave
admit crypto now aad p st =
    if set_count aad.sender (half now st).received_from
    then ok st
    else deliver_box crypto st (store aad p (half now st)) >>= λ (queues, box).
        ok (put_half now box (record st { q_in_for_pseudonyms = queues }))

-- The checks on the receiver and the round.
unfoldable pub check_round : Primitives → AadTuple → Plain → ClientEnclave → Result ClientEnclave
check_round crypto aad p st =
    if not (peer_eq aad.receiver st.own_id)
    then ok st
    else if ltb aad.round st.cur_round
    then ok st
    else (let cur_or_next = aad.round -u64 st.cur_round in
        assert (ltb cur_or_next 2) >> admit crypto (cur_or_next == 0) aad p st)

unfoldable pub traffic_in : Primitives → List ℕ → ClientEnclave → Result ClientEnclave
traffic_in crypto bytes st =
    if not st.initialized
    then ok st
    else decrypt crypto st.sk_enc bytes >>= λ (p_decrypted, aad_decrypted).
        if length p_decrypted == 0 && length aad_decrypted == 0
        then ok st
        else deserialize_aad aad_decrypted >>= λ (aad, _).
            deserialize_plain p_decrypted >>= λ p. check_round crypto aad p st

-- ===== src/Client/Agreements.antt =====
-- The agreement part of `traffic_out` in client/trusted/client_enclave.cpp.
use anonymous_communication.Base.{
  ℕ, Bool, true, false, not, ◌||◌, List, [], ◌∷◌, ◌++◌, Result, ok, ◌>>=◌, checked, get_elem?, keep,
  fold_result, ltb, ◌==◌, if◌then◌else◌, ◌-u64◌, ◌+u64◌,
}
use anonymous_communication.Config.{calculate_agreement_time}
use anonymous_communication.Std.{nat_less, find, update as map_update}
use anonymous_communication.Peer.{PeerInformation, peer_less}
use anonymous_communication.Message.{MessageTuple, tuple_eq}
use anonymous_communication.Message.Schemes.{AgreementTuple}
use anonymous_communication.Agreement.{DistributedAgreementSchemePair, new_scheme, update, finalize}
use anonymous_communication.Overlay.{Gamma}
use anonymous_communication.Crypt.{Primitives}
use anonymous_communication.Client.{ClientEnclave, AgreementLocalTuple}
use anonymous_communication.Client.Pseudonyms.{decrypt_pseudonym}

-- A `std::map<PeerInformation, std::vector<A>>`, and `out[peer].emplace_back (a)`.
abbrev pub Out : Type 0 → Type 0
Out A = List (PeerInformation × List A)

module _ {A : Type 0} where
  unfoldable pub emplace : PeerInformation → A → Out A → Out A
  emplace peer a out = map_update peer [] (λ old. old ++ (a ∷ [])) out

  -- The same for each of the peers.
  unfoldable pub emplace_all : List PeerInformation → A → Out A → Out A
  emplace_all [] a out = out
  emplace_all (p ∷ ps) a out = emplace_all ps a (emplace p a out)

-- Messages that were announced: this node is aware of them.
unfoldable pub start_agreement :
    List (List PeerInformation)
    → List AgreementLocalTuple
    → MessageTuple
    → Result (List AgreementLocalTuple)
start_agreement gammas tuples announce = do
  nodes ← checked (get_elem? gammas 1)
  ok (
      tuples
      ++ (record {
        message = announce;
        aware = true;
        agreement_scheme = new_scheme;
        participating_nodes = nodes;
        round = 0;
      }
          ∷ []))

unfoldable pub is_running : MessageTuple → List AgreementLocalTuple → Bool
is_running m [] = false
is_running m (t ∷ ts) = tuple_eq t.message m || is_running m ts

-- Messages whose agreement other nodes have started.
unfoldable pub join_agreement :
    ℕ
    → List (List PeerInformation)
    → List AgreementLocalTuple
    → AgreementTuple
    → Result (List AgreementLocalTuple)
join_agreement dim gammas tuples agreement =
    if not (ltb agreement.l (calculate_agreement_time dim -u64 1))
    then ok tuples
    else if is_running agreement.m tuples
    then ok tuples
    else checked (get_elem? gammas agreement.l) >>= λ nodes. ok (
        tuples
        ++ (record {
          message = agreement.m;
          aware = false;
          agreement_scheme = new_scheme;
          participating_nodes = nodes;
          round = agreement.l -u64 1;
        }
            ∷ []))

-- The set `s_m`.
unfoldable pub supporters : MessageTuple → List AgreementTuple → List PeerInformation
supporters m [] = []
supporters m (a ∷ received) =
    let rest = supporters m received in if tuple_eq m a.m then a.s ∷ rest else rest

-- The messages of one run are put into `out_agreement`.
unfoldable pub emplace_pairs :
    MessageTuple → ℕ → List DistributedAgreementSchemePair → Out AgreementTuple → Out AgreementTuple
emplace_pairs m l [] out = out
emplace_pairs m l (pair ∷ pairs) out =
    emplace_pairs m l pairs
      (emplace pair.receiver (record { m = m; s = pair.aware_node; l = l }) out)

-- `update` on one tuple.
unfoldable pub update_tuple :
    PeerInformation
    → List AgreementTuple
    → AgreementLocalTuple
    → List DistributedAgreementSchemePair × AgreementLocalTuple
update_tuple own_id received t =
    let (messages, scheme) =
      update t.agreement_scheme t.aware t.participating_nodes own_id (supporters t.message received)
        (t.round +u64 1) in
    (messages, record t { agreement_scheme = scheme; round = t.round +u64 1; aware = false })

-- The loop over `agreement_tuples_`.
unfoldable pub update_all :
    PeerInformation
    → List AgreementTuple
    → List AgreementLocalTuple
    → Out AgreementTuple
    → List AgreementLocalTuple × Out AgreementTuple
update_all own_id received [] out = ([], out)
update_all own_id received (t ∷ tuples) out =
    let (messages, t') = update_tuple own_id received t in
    let (tuples', out') =
      update_all own_id received tuples (emplace_pairs t'.message (t'.round +u64 1) messages out) in
    (t' ∷ tuples', out')

-- `finalize` on one tuple, and the injection of its message if the agreement has accepted it.
unfoldable pub finalize_tuple :
    Primitives
    → ClientEnclave
    → Gamma
    → List AgreementTuple
    → AgreementLocalTuple
    → Out MessageTuple
    → Result (AgreementLocalTuple × Out MessageTuple)
finalize_tuple crypto st gamma_route received t out =
    if not (t.round == calculate_agreement_time st.overlay_dimension -u64 1)
    then ok (t, out)
    else (let (v, scheme) =
          finalize t.agreement_scheme st.own_id (supporters t.message received) 0 in
        let t' = record t { agreement_scheme = scheme } in
        if not v
        then ok (t', out)
        else (decrypt_pseudonym crypto st t.message.n_src >>= λ source.
            checked (find source.onid_repr gamma_route) >>= λ ids.
            ok (t', emplace_all ids t.message out)))

unfoldable pub finalize_all :
    Primitives
    → ClientEnclave
    → Gamma
    → List AgreementTuple
    → List AgreementLocalTuple
    → Out MessageTuple
    → Result (List AgreementLocalTuple × Out MessageTuple)
finalize_all crypto st gamma_route received [] out = ok ([], out)
finalize_all crypto st gamma_route received (t ∷ tuples) out =
    finalize_tuple crypto st gamma_route received t out >>= λ (t', out').
    finalize_all crypto st gamma_route received tuples out' >>= λ (tuples', out'').
    ok (t' ∷ tuples', out'')

-- The `remove_if` and `erase`.
unfoldable pub remove_finished : ℕ → List AgreementLocalTuple → List AgreementLocalTuple
remove_finished dim tuples = keep (λ t. not (t.round == calculate_agreement_time dim)) tuples

-- All of it: the tuples that stay, `out_agreement` and `out_inject`. The state is the one after
-- the overlay update.
unfoldable pub agreements :
    Primitives
    → Gamma
    → ClientEnclave
    → Result (List AgreementLocalTuple × Out AgreementTuple × Out MessageTuple)
agreements crypto gamma_route st = do
  let received = st.in_now.in_agreement
  started ←
      fold_result (start_agreement st.gamma_agree_for_round) st.agreement_tuples
        st.in_now.in_announce
  joined ←
      fold_result (join_agreement st.overlay_dimension st.gamma_agree_for_round) started received
  let (updated, out_agreement) = update_all st.own_id received joined []
  (finalized, out_inject) ← finalize_all crypto st gamma_route received updated []
  ok (remove_finished st.overlay_dimension finalized, out_agreement, out_inject)

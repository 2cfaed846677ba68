-- ===== src/Client/TrafficOut.antt =====
-- `traffic_out` of client/trusted/client_enclave.cpp: one round of the protocol.
use anonymous_communication.Base.{
  ℕ, ◌+◌, ◌-◌, ◌*◌, ◌/◌, ◌%◌, not, List, [], ◌∷◌, ◌++◌, Option, none, some, Result, ok, ◌>>=◌, ◌>>◌,
  assert, length, take, ltb, ◌==◌, if◌then◌else◌, ◌-u64◌, ◌+u64◌,
}
use anonymous_communication.Config.{
  a_max, k_send, k_recv, calculate_agreement_time, calculate_subround_from_t,
}
use anonymous_communication.Std.{nat_less, find_or, keys}
use anonymous_communication.Serial.{serialize_vec}
use anonymous_communication.Peer.{PeerInformation, ReceiverBlobPair, peer_less, pair_serializable}
use anonymous_communication.Message.{
  MessageTuple, Message, create_dummy, tuple_less, tuple_serializable,
}
use anonymous_communication.Message.Schemes.{
  AgreementTuple, RoutingSchemeTuple, dummy_routing, agreement_serializable, routing_serializable,
}
use anonymous_communication.Vote.{obtain_elements_that_exceed_m_corrupt}
use anonymous_communication.Crypt.{Primitives, encrypt, get_intermediate_target}
use anonymous_communication.Routing.{route}
use anonymous_communication.Overlay.{OverlayReturnTuple}
use anonymous_communication.Overlay.Phases.{push_absent, PeerOutbox}
use anonymous_communication.Overlay.Update.{update}
use anonymous_communication.Client.{ClientEnclave, empty_inbox}
use anonymous_communication.Client.Aad.{serialize_aad}
use anonymous_communication.Client.Pseudonyms.{Clock, get_time}
use anonymous_communication.Client.Agreements.{Out, agreements}
use anonymous_communication.Client.Outgoing.{
  announce_due, received_routing, handed_to_route, route_all, predeliver, deliver, pad_all,
  pad_gamma,
}

-- What the program takes from outside: the primitives, what `sgx_read_rand` gives for the overlay
-- and for the vector of each ciphertext, and what is found in a default address and a default
-- message.
pub record Outside : Type 0 where
  pub crypto : Primitives
  pub random_number : ℕ
  pub iv : ℕ → List ℕ
  pub unset_peer : PeerInformation
  pub unset_message : Message

-- The local variables `out_announce` to `out_deliver` and `out_structure`.
pub record Outputs : Type 0 where
  pub out_announce : Out MessageTuple
  pub out_agreement : Out AgreementTuple
  pub out_inject : Out MessageTuple
  pub out_routing : Out RoutingSchemeTuple
  pub out_predeliver : Out MessageTuple
  pub out_deliver : Out MessageTuple
  pub out_structure : PeerOutbox

-- The round model. `none`: there is nothing to do. Otherwise the new round.
unfoldable pub next_round : ℕ → ℕ → Result (Option ℕ)
next_round now cur_round =
    let subround = calculate_subround_from_t now in
    if not (subround % 4 == 0)
    then ok none
    else if subround / 4 == cur_round
    then ok none
    else assert (cur_round == subround / 4 -u64 1) >> ok (some (cur_round +u64 1))

-- `if (size () > limit) pop_back ()`.
abbrev trim : ℕ → List (List PeerInformation) → List (List PeerInformation)
trim limit gammas = if ltb limit (length gammas) then take (length gammas - 1) gammas else gammas

-- The overlay maintenance.
unfoldable pub maintain : Outside → ClientEnclave → OverlayReturnTuple × ClientEnclave
maintain outside st =
    let (result, overlay) =
      update outside.unset_peer outside.random_number st.cur_round st.in_now.in_structure
        st.overlay_structure_scheme in
    (
      result,
      record st {
        overlay_structure_scheme = overlay;
        gamma_agree_for_round =
            trim (calculate_agreement_time st.overlay_dimension)
              (result.gamma_agree ∷ st.gamma_agree_for_round);
        onid_emul = result.onid_emul;
      },
    )

-- Announcement, agreement, injection, routing and delivery. `onid_emul_l_prev` is a reference to
-- `onid_emul_`, which has its new value by then.
unfoldable pub run_schemes :
    Outside → OverlayReturnTuple → ClientEnclave → Result (Outputs × ClientEnclave)
run_schemes outside result st = do
  let crypto = outside.crypto
  let (q_out, out_announce) =
      announce_due st.cur_round st.overlay_dimension result.gamma_send st.q_out []
  (tuples, out_agreement, out_inject) ← agreements crypto result.gamma_route st
  let v_set = received_routing st
  s_routing ← handed_to_route crypto st v_set
  s_routing_prime ←
      route (λ bucket l. get_intermediate_target crypto st.sk_routing bucket l st.overlay_dimension)
        outside.unset_message st.cur_round st.overlay_dimension s_routing
  out_routing ← route_all s_routing_prime result.gamma_route []
  out_deliver ←
      deliver crypto st (obtain_elements_that_exceed_m_corrupt st.m_corrupt st.in_now.in_predeliver)
        []
  ok (
    record {
      out_announce = out_announce;
      out_agreement = out_agreement;
      out_inject = out_inject;
      out_routing = out_routing;
      out_predeliver =
          predeliver st.cur_round (find_or st.onid_emul [] result.gamma_route) v_set [];
      out_deliver = out_deliver;
      out_structure = result.s_overlay_prime;
    },
    record st { q_out = q_out; agreement_tuples = tuples },
  )

-- The dummy messages.
unfoldable pub pad : Outside → OverlayReturnTuple → ClientEnclave → Outputs → Result Outputs
pad outside result st out = do
  let dummy = create_dummy outside.unset_message
  out_announce ← pad_all dummy (k_send * a_max) result.gamma_send out.out_announce
  out_routing ←
      pad_gamma (dummy_routing outside.unset_message) st.max_routing_msg_out result.gamma_route
        out.out_routing
  out_predeliver ←
      pad_all dummy (k_recv * a_max * length result.gamma_receive)
        (find_or st.onid_emul [] result.gamma_route) out.out_predeliver
  out_deliver ← pad_all dummy (k_recv * a_max) result.gamma_receive out.out_deliver
  ok (record out {
    out_announce = out_announce;
    out_routing = out_routing;
    out_predeliver = out_predeliver;
    out_deliver = out_deliver;
  })

-- `add_peer_information_to_set_if_not_present`, on the keys of the map.
unfoldable pub add_peers : List PeerInformation → List PeerInformation → List PeerInformation
add_peers [] all_i = all_i
add_peers (p ∷ ps) all_i = add_peers ps (push_absent p all_i)

unfoldable pub receivers : Outputs → List PeerInformation
receivers out = add_peers (keys out.out_structure) (
    add_peers (keys out.out_deliver) (
      add_peers (keys out.out_predeliver) (
        add_peers (keys out.out_routing) (
          add_peers (keys out.out_inject)
            (add_peers (keys out.out_agreement) (add_peers (keys out.out_announce) []))))))

unfoldable pub plain_for : Outputs → PeerInformation → List ℕ
plain_for out i =
    serialize_vec (find_or i [] out.out_announce)
    ++ (serialize_vec (find_or i [] out.out_agreement)
        ++ (serialize_vec (find_or i [] out.out_inject)
            ++ (serialize_vec (find_or i [] out.out_routing)
                ++ (serialize_vec (find_or i [] out.out_predeliver)
                    ++ serialize_vec (find_or i [] out.out_deliver)))))

unfoldable pub aad_for : ClientEnclave → Outputs → PeerInformation → List ℕ
aad_for st out i = serialize_aad (record {
  sender = st.own_id;
  receiver = i;
  round = st.cur_round +u64 1;
  p_structure = find_or i [] out.out_structure;
})

-- The pairs of a receiver and a ciphertext; `k` counts the ciphertexts.
unfoldable pub seal_all :
    Outside → ClientEnclave → Outputs → ℕ → List PeerInformation → Result (List ReceiverBlobPair)
seal_all outside st out k [] = ok []
seal_all outside st out k (i ∷ is) = do
  c ← encrypt outside.crypto (outside.iv k) st.sk_enc (plain_for out i) (aad_for st out i)
  pairs ← seal_all outside st out (k + 1) is
  ok (record { i = i; payload = c } ∷ pairs)

-- All in[1] move to in[0].
unfoldable pub shift : ClientEnclave → ClientEnclave
shift st = record st { in_now = st.in_next; in_next = empty_inbox }

-- A round, `cur_round` having gone up already: the serialized output and the new state.
unfoldable pub run_round : Outside → ClientEnclave → Result (List ℕ × ClientEnclave)
run_round outside st₀ = do
  let (result, st₁) = maintain outside st₀
  (out, st₂) ← run_schemes outside result st₁
  padded ← pad outside result st₂ out
  pairs ← seal_all outside st₂ padded 0 (receivers padded)
  ok (serialize_vec pairs, shift st₂)

-- The round that is to be run, if there is one.
abbrev pub run_next : Outside → ClientEnclave → Option ℕ → Result (Option (List ℕ) × ClientEnclave)
run_next outside st none = ok (none, st)
run_next outside st (some round) =
    run_round outside (record st { cur_round = round }) >>= λ (output, st'). ok (some output, st')

-- `none` is the result `false`; the output is what `ocall_traffic_out_return` is given. The
-- readings of the clock that only feed the log are left out.
unfoldable pub traffic_out :
    Outside → Clock → ClientEnclave → Result (Option (List ℕ) × ClientEnclave)
traffic_out outside clock st =
    if not st.initialized
    then ok (none, st)
    else get_time st clock >>= λ now.
        next_round now st.cur_round >>= λ next. run_next outside st next

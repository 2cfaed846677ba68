-- ===== src/Overlay/Phases.antt =====
-- The steps (3) to (9) of `OverlayStructureScheme::update`, under the numbers of the source's
-- comments.
use anonymous_communication.Base.{
  ℕ, ◌%◌, ◌^◌, Bool, false, ◌||◌, List, [], ◌∷◌, ◌++◌, if◌then◌else◌, ◌==◌,
}
use anonymous_communication.Std.{nat_less, update as map_update, find_or}
use anonymous_communication.Peer.{PeerInformation, peer_less, peer_eq}
use anonymous_communication.Neighbors.{for_all_neighbors}
use anonymous_communication.Overlay.{
  Gamma, emulate_request, emulate_request_received, hand_over, self_introduce, unnamed,
  OverlayStructureSchemeMessage, OverlayStructureScheme, create_emulate_request,
  create_emulate_request_received, create_hand_over, create_self_introduce,
}
use anonymous_communication.Overlay.Hop.{next_hop}

-- `m[k]` read for its entry, which `operator[]` makes if it is not there.
abbrev pub touch {ℓ} : {V : Type ℓ} → ℕ → List (ℕ × List V) → List (ℕ × List V)
touch k m = map_update k [] (λ vs. vs) m

-- `for (auto &v : vs) m[k].push_back (v)`.
unfoldable pub push_all : ℕ → List PeerInformation → Gamma → Gamma
push_all k [] m = m
push_all k (v ∷ vs) m = push_all k vs (map_update k [] (λ old. old ++ (v ∷ [])) m)

-- `std::find (...) != end`.
unfoldable pub contains : PeerInformation → List PeerInformation → Bool
contains p [] = false
contains p (q ∷ qs) = peer_eq q p || contains p qs

unfoldable pub push_absent : PeerInformation → List PeerInformation → List PeerInformation
push_absent p ps = if contains p ps then ps else ps ++ (p ∷ [])

-- The nested loops that add the peers of `more` to the entries of `m`, none twice.
unfoldable pub merge_ids : ℕ → List PeerInformation → Gamma → Gamma
merge_ids onid [] m = m
merge_ids onid (id ∷ ids) m = merge_ids onid ids (map_update onid [] (push_absent id) m)

unfoldable pub merge : Gamma → Gamma → Gamma
merge [] m = m
merge ((onid, ids) ∷ more) m = merge more (merge_ids onid ids m)

unfoldable pub push_all_absent : List PeerInformation → List PeerInformation → List PeerInformation
push_all_absent [] ps = ps
push_all_absent (q ∷ qs) ps = push_all_absent qs (push_absent q ps)

-- Messages by quorum, and by peer.
abbrev pub Outbox : Type 0
Outbox = List (ℕ × List OverlayStructureSchemeMessage)

abbrev pub PeerOutbox : Type 0
PeerOutbox = List (PeerInformation × List OverlayStructureSchemeMessage)

-- `s_prime[i].push_back (msg)` for each of the peers.
unfoldable pub send_all :
    List PeerInformation → OverlayStructureSchemeMessage → PeerOutbox → PeerOutbox
send_all [] msg out = out
send_all (i ∷ is) msg out = send_all is msg (map_update i [] (λ old. old ++ (msg ∷ [])) out)

-- The members together with `msg_out_q` and `s_prime`.
pub record Work : Type 0 where
  pub st : OverlayStructureScheme
  pub msg_out_q : Outbox
  pub s_prime : PeerOutbox

-- (3); `random_number` is what `sgx_read_rand` gave.
unfoldable pub reconfigure : ℕ → Work → Work
reconfigure random_number w =
    let st = w.st in
    let prev = st.onid_emul in
    let emul = st.onid_emul_new in
    let route_new = touch emul st.gamma_route_new in
    let succ = touch prev st.gamma_route_succ in
    let quorum = random_number % (2 ^ st.overlay_dimension % 2 ^ 64) in
    record w {
      st = record st {
        onid_emul_prev = prev;
        onid_emul = emul;
        gamma_agree = find_or emul [] route_new;
        gamma_send = st.gamma_send_new;
        gamma_route = route_new;
        onid_emul_new = quorum;
        gamma_send_new = [];
        gamma_route_new = [];
        gamma_agree_prev = push_all prev (find_or prev [] succ) st.gamma_agree_prev;
        gamma_route_prev = push_all prev (find_or prev [] succ) [];
        gamma_route_succ = [];
      };
      msg_out_q =
          map_update quorum [] (λ old. old ++ (create_emulate_request quorum st.own_id ∷ []))
            w.msg_out_q;
    }

-- (4); the first statement compares `gamma_receive_` with `gamma_receive_new_` and assigns nothing.
unfoldable pub start_epoch : Work → Work
start_epoch w =
    let st = w.st in
    let route = touch st.onid_emul st.gamma_route in
    record w {
      st = record st {
        gamma_receive_new = [];
        gamma_route = route;
        gamma_route_prev =
            push_all st.onid_emul (find_or st.onid_emul [] route) st.gamma_route_prev;
      };
    }

-- (5)
unfoldable pub renew_agree : Work → Work
renew_agree w =
    let st = w.st in
    let route = touch st.onid_emul st.gamma_route in
    record w {
      st = record st {
        gamma_route = route;
        gamma_agree_prev = push_all st.onid_emul (find_or st.onid_emul [] route) [];
      };
    }

-- `msg_out_q[neighbor].emplace_back (msg)` for each of the neighbours.
unfoldable pub post_all : List ℕ → OverlayStructureSchemeMessage → Outbox → Outbox
post_all [] msg out = out
post_all (n ∷ ns) msg out = post_all ns msg (map_update n [] (λ old. old ++ (msg ∷ [])) out)

-- (6) for one message.
unfoldable pub receive_request : OverlayStructureSchemeMessage → Work → Work
receive_request s w =
    let st = w.st in
    let forwarded =
      if s.onid == st.onid_emul
      then w.msg_out_q
      else map_update s.onid [] (λ old. old ++ (s ∷ [])) w.msg_out_q in
    record w {
      msg_out_q =
          post_all (for_all_neighbors st.onid_emul st.overlay_dimension)
            (create_emulate_request_received s.onid s.peer_information) forwarded;
    }

unfoldable pub receive_one : OverlayStructureSchemeMessage → Work → Work
unfolding receive_request
receive_one s w =
    let st = w.st in
    elim s.t [
      | emulate_request ↦ receive_request s w
      | emulate_request_received ↦ record w {
        st = record st {
          gamma_route_succ =
              map_update s.onid [] (λ old. old ++ (s.peer_information ∷ [])) st.gamma_route_succ;
        };
      }
      | hand_over ↦ record w {
        st = record st {
          gamma_route_new = merge s.gamma_route st.gamma_route_new;
          gamma_receive_new = push_all_absent s.gamma_receive st.gamma_receive_new;
        };
      }
      | self_introduce ↦ record w {
        st = record st { gamma_send_new = st.gamma_send_new ++ (s.peer_information ∷ []) };
      }
      | unnamed n ↦ w
    ]

unfoldable pub receive_all : List OverlayStructureSchemeMessage → Work → Work
receive_all [] w = w
receive_all (s ∷ set_s) w = receive_all set_s (receive_one s w)

-- (7); `unset` is the address of a default peer.
unfoldable pub hand_over_all : PeerInformation → Work → Work
hand_over_all unset w =
    let st = w.st in
    let succ = touch st.onid_emul st.gamma_route_succ in
    record w {
      st = record st { gamma_route_succ = succ };
      s_prime =
          send_all (find_or st.onid_emul [] succ) (create_hand_over unset succ st.gamma_receive)
            w.s_prime;
    }

-- (8)
unfoldable pub introduce_all : Work → Work
introduce_all w = record w {
  s_prime = send_all w.st.gamma_receive_new (create_self_introduce w.st.own_id) w.s_prime;
}

-- (9) for one entry of `msg_out_q`: each message goes to all peers of the next quorum.
unfoldable pub forward_msgs : ℕ → List OverlayStructureSchemeMessage → Work → Work
forward_msgs hop [] w = w
forward_msgs hop (msg ∷ msgs) w =
    let route = touch hop w.st.gamma_route in
    forward_msgs hop msgs (record w {
      st = record (w.st) { gamma_route = route };
      s_prime = send_all (find_or hop [] route) msg w.s_prime;
    })

unfoldable pub forward_all : Outbox → Work → Work
forward_all [] w = w
forward_all ((onid, msgs) ∷ out) w =
    forward_all out (forward_msgs (next_hop w.st.overlay_dimension onid w.st.onid_emul) msgs w)

-- ===== src/Overlay/Update.antt =====
-- `OverlayStructureScheme::init`, and `update` put together from its steps.
use anonymous_communication.Base.{
  ◌+u64◌, ℕ, ◌+◌, ◌/◌, ◌%◌, Bool, List, [], if◌then◌else◌, ◌==◌, Result, ok, checked, ◌>>=◌,
}
use anonymous_communication.Config.{calculate_agreement_time}
use anonymous_communication.Std.{nat_less, find}
use anonymous_communication.Peer.{PeerInformation, peer_less}
use anonymous_communication.Overlay.{
  Gamma, OverlayStructureSchemeMessage, OverlayStructureScheme, OverlayReturnTuple,
}
use anonymous_communication.Overlay.Phases.{
  merge, reconfigure, start_epoch, renew_agree, receive_all, hand_over_all, introduce_all,
  forward_all, Work,
}

-- `gamma_route.at (onid_emul)` throws for a quorum that is not there. The members that `init`
-- does not assign keep what they had.
unfoldable pub init :
    OverlayStructureScheme
    → ℕ
    → ℕ
    → List PeerInformation
    → List PeerInformation
    → Gamma
    → ℕ
    → ℕ
    → PeerInformation
    → Result OverlayStructureScheme
init st onid_assoc onid_emul gamma_send gamma_receive gamma_route dimension reconfiguration_time
      own_id =
    do
      gamma_agree ← checked (find onid_emul gamma_route)
      ok (record st {
        onid_assoc = onid_assoc;
        onid_emul = onid_emul;
        onid_emul_prev = onid_emul;
        gamma_agree = gamma_agree;
        gamma_send = gamma_send;
        gamma_receive = gamma_receive;
        gamma_route = gamma_route;
        overlay_dimension = dimension;
        reconfiguration_time = reconfiguration_time;
        own_id = own_id;
      })

-- (10)
unfoldable pub routes : OverlayStructureScheme → Gamma
unfolding merge
routes st = merge st.gamma_route_prev (merge st.gamma_agree_prev st.gamma_route)

-- A phase that runs in one round of the period.
abbrev pub in_phase : Bool → (Work → Work) → Work → Work
in_phase now phase w = if now then phase w else w

-- Phases (1) to (9).
unfoldable pub run_phases :
    PeerInformation → ℕ → ℕ → List OverlayStructureSchemeMessage → OverlayStructureScheme → Work
run_phases unset random_number round set_s st =
    let phase = round % (st.reconfiguration_time / 2) in
    let w₀ : Work = record { st = st; msg_out_q = []; s_prime = [] } in
    let w₃ = in_phase (phase == 1) (reconfigure random_number) w₀ in
    let w₄ = in_phase (phase == 2) start_epoch w₃ in
    let w₅ =
      in_phase (phase == calculate_agreement_time st.overlay_dimension +u64 1) renew_agree w₄ in
    let w₆ = receive_all set_s w₅ in
    let w₇ = in_phase (phase == st.overlay_dimension +u64 2) (hand_over_all unset) w₆ in
    let w₈ = in_phase (phase == st.overlay_dimension + 3) introduce_all w₇ in
    forward_all w₈.msg_out_q w₈

unfoldable pub update :
    PeerInformation
    → ℕ
    → ℕ
    → List OverlayStructureSchemeMessage
    → OverlayStructureScheme
    → OverlayReturnTuple × OverlayStructureScheme
update unset random_number round set_s st =
    let w = run_phases unset random_number round set_s st in
    (
      record {
        onid_emul = w.st.onid_emul;
        gamma_agree = w.st.gamma_agree;
        gamma_send = w.st.gamma_send;
        gamma_route = routes w.st;
        gamma_receive = w.st.gamma_receive;
        s_overlay_prime = w.s_prime;
      },
      w.st,
    )

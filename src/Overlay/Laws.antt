-- ===== src/Overlay/Laws.antt =====
-- What `update` keeps, and what it never sends.
use anonymous_communication.Base.{
  ◌+u64◌, ℕ, ◌+◌, ◌/◌, ◌%◌, Bool, true, false, List, [], ◌∷◌, ◌==◌, ◌≡◌, refl, All, arith,
}
use anonymous_communication.Std.{nat_less}
use anonymous_communication.Peer.{PeerInformation, peer_less}
use anonymous_communication.Config.{calculate_agreement_time}
use anonymous_communication.Overlay.{OverlayStructureSchemeMessage, OverlayStructureScheme}
use anonymous_communication.Overlay.Hop.{next_hop}
use anonymous_communication.Overlay.Phases.{
  Work, reconfigure, start_epoch, renew_agree, receive_one, receive_all, hand_over_all,
  introduce_all, forward_msgs, forward_all, Outbox,
}
use anonymous_communication.Overlay.Update.{in_phase, run_phases, update}

-- An invariant of the phases: `Sends` holds of the messages that may be queued, `Ok` of those that
-- arrive.
pub record IsKept (unset : PeerInformation) (random_number : ℕ) (P : Work → Type 0)
    (Sends Ok : OverlayStructureSchemeMessage → Type 0) : Type 0 where
  pub reconfigured : (w : Work) → P w → P (reconfigure random_number w)
  pub started : (w : Work) → P w → P (start_epoch w)
  pub renewed : (w : Work) → P w → P (renew_agree w)
  pub received : (s : OverlayStructureSchemeMessage) (w : Work) → Ok s → P w → P (receive_one s w)
  pub handed : (w : Work) → P w → P (hand_over_all unset w)
  pub introduced : (w : Work) → P w → P (introduce_all w)
  pub queued :
      (w : Work)
      → P w
      → All (λ (e : ℕ × List OverlayStructureSchemeMessage). All Sends e.1) w.msg_out_q
  pub forwarded :
      (hop : ℕ) (msg : OverlayStructureSchemeMessage) (w : Work)
      → Sends msg
      → P w
      → P (forward_msgs hop (msg ∷ []) w)

module _ {unset : PeerInformation} {random_number : ℕ} {P : Work → Type 0}
    {Sends Ok : OverlayStructureSchemeMessage → Type 0}
    (k : IsKept unset random_number P Sends Ok) where
  in_phase_keeps :
      (now : Bool) (phase : Work → Work) (w : Work)
      → ((v : Work) → P v → P (phase v))
      → P w
      → P (in_phase now phase w)
  in_phase_keeps true phase w h p = h w p
  in_phase_keeps false phase w h p = p

  receive_all_keeps :
      (set_s : List OverlayStructureSchemeMessage) (w : Work)
      → All Ok set_s
      → P w
      → P (receive_all set_s w)
  unfolding receive_all
  receive_all_keeps [] w h p = p
  receive_all_keeps (s ∷ set_s) w (h, hs) p =
      receive_all_keeps set_s (receive_one s w) hs (k.received s w h p)

  forward_msgs_keeps :
      (hop : ℕ) (msgs : List OverlayStructureSchemeMessage) (w : Work)
      → All Sends msgs
      → P w
      → P (forward_msgs hop msgs w)
  unfolding forward_msgs
  forward_msgs_keeps hop [] w h p = p
  forward_msgs_keeps hop (msg ∷ msgs) w (h, hs) p =
      forward_msgs_keeps hop msgs (forward_msgs hop (msg ∷ []) w) hs (k.forwarded hop msg w h p)

  forward_all_keeps :
      (out : Outbox) (w : Work)
      → All (λ (e : ℕ × List OverlayStructureSchemeMessage). All Sends e.1) out
      → P w
      → P (forward_all out w)
  unfolding forward_all
  forward_all_keeps [] w h p = p
  forward_all_keeps ((onid, msgs) ∷ out) w (h, hs) p =
      let hop = next_hop w.st.overlay_dimension onid w.st.onid_emul in
      forward_all_keeps out (forward_msgs hop msgs w) hs (forward_msgs_keeps hop msgs w h p)

  pub run_phases_keeps :
      (round : ℕ) (set_s : List OverlayStructureSchemeMessage) (st : OverlayStructureScheme)
      → All Ok set_s
      → P (record { st = st; msg_out_q = []; s_prime = [] })
      → P (run_phases unset random_number round set_s st)
  unfolding run_phases
  run_phases_keeps round set_s st h p =
      let phase = round % (st.reconfiguration_time / 2) in
      let p₃ = in_phase_keeps (phase == 1) (reconfigure random_number) _ k.reconfigured p in
      let p₄ = in_phase_keeps (phase == 2) start_epoch _ k.started p₃ in
      let p₅ =
        in_phase_keeps (phase == calculate_agreement_time st.overlay_dimension +u64 1) renew_agree _
          k.renewed p₄ in
      let p₆ = receive_all_keeps set_s _ h p₅ in
      let p₇ =
        in_phase_keeps (phase == st.overlay_dimension +u64 2) (hand_over_all unset) _ k.handed p₆ in
      let p₈ = in_phase_keeps (phase == st.overlay_dimension + 3) introduce_all _ k.introduced p₇ in
      forward_all_keeps _ _ (k.queued _ p₈) p₈

-- Every message is fine.
abbrev pub AnyMsg : OverlayStructureSchemeMessage → Type 0
AnyMsg s = Unit

All-any : (msgs : List OverlayStructureSchemeMessage) → All AnyMsg msgs
All-any [] = tt
All-any (m ∷ msgs) = (tt, All-any msgs)

All-any_out :
    (out : Outbox) → All (λ (e : ℕ × List OverlayStructureSchemeMessage). All AnyMsg e.1) out
All-any_out [] = tt
All-any_out ((k, msgs) ∷ out) = (All-any msgs, All-any_out out)

receive_one_gamma_receive :
    (s : OverlayStructureSchemeMessage) (w : Work)
    → (receive_one s w).st.gamma_receive ≡ w.st.gamma_receive
unfolding receive_one
receive_one_gamma_receive s w = ground arith

-- An overlay update never changes the peers that a node receives from, neither in its state nor in
-- what it returns.
pub update_keeps_gamma_receive :
    (unset : PeerInformation) (random_number round : ℕ) (set_s : List OverlayStructureSchemeMessage)
    (st : OverlayStructureScheme)
    → ((update unset random_number round set_s st).0.gamma_receive ≡ st.gamma_receive)
      × ((update unset random_number round set_s st).1.gamma_receive ≡ st.gamma_receive)
unfolding update
update_keeps_gamma_receive unset random_number round set_s st = (kept, kept)
  where
    keeps : IsKept unset random_number (λ w. w.st.gamma_receive ≡ st.gamma_receive) AnyMsg AnyMsg
    keeps = record {
      reconfigured = λ w p. unfold reconfigure in p;
      started = λ w p. unfold start_epoch in p;
      renewed = λ w p. unfold renew_agree in p;
      received = λ s w h p. rw (receive_one_gamma_receive s w) p;
      handed = λ w p. unfold hand_over_all in p;
      introduced = λ w p. unfold introduce_all in p;
      queued = λ w p. All-any_out w.msg_out_q;
      forwarded = λ hop msg w h p. unfold forward_msgs in p;
    }

    kept : (run_phases unset random_number round set_s st).st.gamma_receive ≡ st.gamma_receive
    kept = run_phases_keeps keeps round set_s st (All-any set_s) refl

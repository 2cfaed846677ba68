-- ===== src/Overlay/Introductions.antt =====
-- No node ever introduces itself: the messages that `update` sends are of other types.
use anonymous_communication.Base.{
  ℕ, Bool, true, false, List, [], ◌∷◌, ◌++◌, ◌≡◌, refl, All, Bool-cases, inl, inr, ◌==◌,
}
use anonymous_communication.Std.{Less, nat_less, update as map_update}
use anonymous_communication.Peer.{PeerInformation, peer_less}
use anonymous_communication.Neighbors.{for_all_neighbors}
use anonymous_communication.Overlay.{
  OverlayStructureSchemeMessage, OverlayStructureScheme, self_introduce, hand_over, emulate_request,
  emulate_request_received, unnamed, MessageType, create_self_introduce, create_emulate_request,
  create_emulate_request_received, create_hand_over,
}
use anonymous_communication.Overlay.Phases.{
  Work, reconfigure, start_epoch, renew_agree, receive_one, receive_request, hand_over_all,
  introduce_all, forward_msgs, send_all, post_all,
}
use anonymous_communication.Overlay.Update.{update}
use anonymous_communication.Overlay.Laws.{IsKept, run_phases_keeps}

abbrev is_introduction : MessageType → Bool
is_introduction emulate_request = false
is_introduction emulate_request_received = false
is_introduction hand_over = false
is_introduction self_introduce = true
is_introduction (unnamed n) = false

abbrev pub IsOther : OverlayStructureSchemeMessage → Type 0
IsOther s = is_introduction s.t ≡ false

abbrev pub AreOther {ℓ} : {K : Type ℓ} → List (K × List OverlayStructureSchemeMessage) → Type 0
AreOther {K} out = All (λ (e : K × List OverlayStructureSchemeMessage). All IsOther e.1) out

snoc-IsOther :
    (ms : List OverlayStructureSchemeMessage) (m : OverlayStructureSchemeMessage)
    → All IsOther ms
    → IsOther m
    → All IsOther (ms ++ (m ∷ []))
snoc-IsOther [] m h p = (p, tt)
snoc-IsOther (x ∷ ms) m (h, hs) p = (h, snoc-IsOther ms m hs p)

update-AreOther {ℓ} :
    {K : Type ℓ} ⦃o : Less K⦄ (k : K) (m : OverlayStructureSchemeMessage)
    (out : List (K × List OverlayStructureSchemeMessage))
    → IsOther m
    → AreOther out
    → AreOther (map_update k [] (λ old. old ++ (m ∷ [])) out)
unfolding map_update
update-AreOther k m [] p h = ((p, tt), tt)
update-AreOther ⦃o⦄ k m ((j, ms) ∷ out) p (h, hs) = elim (Bool-cases (o.lt k j)) [
  | inl e ↦ rw e ((p, tt), (h, hs))
  | inr e ↦ elim (Bool-cases (o.lt j k)) [
    | inl d ↦ rw (e, d) (h, update-AreOther k m out p hs)
    | inr d ↦ rw (e, d) (snoc-IsOther ms m h p, hs)
  ]
]

send_all-AreOther :
    (ps : List PeerInformation) (m : OverlayStructureSchemeMessage)
    (out : List (PeerInformation × List OverlayStructureSchemeMessage))
    → IsOther m
    → AreOther out
    → AreOther (send_all ps m out)
unfolding send_all
send_all-AreOther [] m out p h = h
send_all-AreOther (i ∷ ps) m out p h = send_all-AreOther ps m _ p (update-AreOther i m out p h)

post_all-AreOther :
    (ns : List ℕ) (m : OverlayStructureSchemeMessage)
    (out : List (ℕ × List OverlayStructureSchemeMessage))
    → IsOther m
    → AreOther out
    → AreOther (post_all ns m out)
unfolding post_all
post_all-AreOther [] m out p h = h
post_all-AreOther (n ∷ ns) m out p h = post_all-AreOther ns m _ p (update-AreOther n m out p h)

abbrev Quiet : Work → Type 0
Quiet w = AreOther w.msg_out_q × AreOther w.s_prime

receive_request-Quiet :
    (s : OverlayStructureSchemeMessage) (w : Work)
    → IsOther s
    → Quiet w
    → Quiet (receive_request s w)
unfolding receive_request create_emulate_request_received
receive_request-Quiet s w p (q, sp) = elim (Bool-cases (s.onid == w.st.onid_emul)) [
  | inl e ↦ rw e (
    post_all-AreOther (for_all_neighbors w.st.onid_emul w.st.overlay_dimension)
        (create_emulate_request_received s.onid s.peer_information) w.msg_out_q refl q,
    sp,
  )
  | inr e ↦ rw e (
    post_all-AreOther (for_all_neighbors w.st.onid_emul w.st.overlay_dimension)
        (create_emulate_request_received s.onid s.peer_information) _ refl
        (update-AreOther s.onid s w.msg_out_q p q),
    sp,
  )
]

receive_one-Quiet :
    (s : OverlayStructureSchemeMessage) (w : Work) → IsOther s → Quiet w → Quiet (receive_one s w)
receive_one-Quiet s w p q = by_type s.t p
  where
    by_type :
        (t : MessageType) → is_introduction t ≡ false → Quiet (receive_one (record s { t = t }) w)
    by_type emulate_request p =
        unfold receive_one in receive_request-Quiet (record s { t = emulate_request }) w p q
    by_type emulate_request_received p = unfold receive_one in q
    by_type hand_over p = unfold receive_one in q
    by_type self_introduce p = unfold receive_one in q
    by_type (unnamed n) p = unfold receive_one in q

-- An overlay update that is given no introduction message sends none to any peer.
pub update_never_introduces :
    (unset : PeerInformation) (random_number round : ℕ) (set_s : List OverlayStructureSchemeMessage)
    (st : OverlayStructureScheme)
    → All IsOther set_s
    → AreOther (update unset random_number round set_s st).0.s_overlay_prime
unfolding update
update_never_introduces unset random_number round set_s st h =
    (run_phases_keeps keeps round set_s st h (tt, tt)).1
  where
    keeps : IsKept unset random_number Quiet IsOther IsOther
    keeps = record {
      reconfigured = λ w (q, s).
          unfold reconfigure create_emulate_request in (update-AreOther _ _ w.msg_out_q refl q, s);
      started = λ w p. unfold start_epoch in p;
      renewed = λ w p. unfold renew_agree in p;
      received = λ s w h p. receive_one-Quiet s w h p;
      handed = λ w (q, s).
          unfold hand_over_all create_hand_over in (q, send_all-AreOther _ _ w.s_prime refl s);
      introduced = λ w (q, s).
          unfold introduce_all create_self_introduce in (q, send_all-AreOther _ _ w.s_prime refl s);
      queued = λ w (q, s). q;
      forwarded =
          λ hop msg w h (q, s). unfold forward_msgs in (q, send_all-AreOther _ msg w.s_prime h s);
    }

-- ===== src/Untrusted/Stuck.antt =====
-- A node whose first message is not the init message.
pub mod Off
use anonymous_communication.Base.{
  ℕ, true, false, not, List, [], ◌∷◌, Option, none, some, ok, ◌==◌, ◌≡◌, ◌≢◌, refl, sym, ap, subst,
  arith, All, Bool-cases, if-cases, inl, inr, >>=-eq-ok, ok-inj, ◌∙◌,
}
use anonymous_communication.Layout.Start.{get_message_type, type_init_message}
use anonymous_communication.Client.Join.{received_msg_from_server}
use anonymous_communication.Client.Send.{receive_message}
use anonymous_communication.Client.TrafficIn.{traffic_in}
use anonymous_communication.Client.TrafficOut.{traffic_out}
use anonymous_communication.Untrusted.User.{user_message}
use anonymous_communication.Untrusted.Node.{
  Node, Turn, Shown, take_incoming, check_in_socket, check_user_socket, main_loop,
  hand_over_traffic, call_traffic_out, use_enclave, run_loop, run_turns,
}
use anonymous_communication.Untrusted.Stuck.Off.{
  IsOff, user_message-IsOff, traffic_in_off, receive_message_off,
}

-- The network manager has had its first message, and the enclave does not know.
abbrev IsStuck : Node → Type 0
IsStuck node = (node.network.initialized ≡ true) × (node.enclave.initialized ≡ false)

check_user_socket-IsStuck :
    (turn : Turn) (node node' : Node) (command printed : Option (List ℕ))
    → IsStuck node
    → check_user_socket turn node command ≡ ok (printed, node')
    → IsStuck node'
unfolding check_user_socket
check_user_socket-IsStuck turn node node' none printed stuck e =
    subst IsStuck (ap (λ r. r.1) (ok-inj e)) stuck
check_user_socket-IsStuck turn node node' (some bytes) printed (on, off) e =
    let ((p, enclave), done, e₁) =
      >>=-eq-ok (user_message turn.outside.crypto turn.iv turn.send_clock bytes node.enclave) _ e in
    subst IsStuck (ap (λ r. r.1) (ok-inj e₁)) (
      on,
      user_message-IsOff turn.outside.crypto turn.iv turn.send_clock bytes node.enclave enclave p
          off done,
    )

check_in_socket-IsStuck :
    (turn : Turn) (node node' : Node) (incoming : Option (List ℕ))
    → IsStuck node
    → check_in_socket turn node incoming ≡ ok node'
    → IsStuck node'
unfolding check_in_socket take_incoming
check_in_socket-IsStuck turn node node' none stuck e = subst IsStuck (ok-inj e) stuck
check_in_socket-IsStuck turn node node' (some bytes) (on, off) e =
    let (enclave, same, e₁) =
      >>=-eq-ok (traffic_in turn.outside.crypto bytes node.enclave) _ (rw on at e) in
    subst IsStuck (ok-inj e₁) (
      refl,
      subst IsOff (ok-inj (sym (traffic_in_off turn.outside.crypto bytes node.enclave off) ∙ same))
          off,
    )

-- The first message, when it is of another type.
first-IsStuck :
    (turn : Turn) (node node' : Node) (bytes behind : List ℕ) (type : ℕ)
    → IsOff node.enclave
    → get_message_type bytes ≡ ok (type, behind)
    → type ≢ type_init_message
    → check_in_socket turn node (some bytes) ≡ ok node'
    → node.network.initialized ≡ false
    → IsStuck node'
unfolding check_in_socket take_incoming received_msg_from_server
first-IsStuck turn node node' bytes behind type off is other e fresh =
    subst IsStuck (ok-inj (rw (fresh, is, differs) at e)) (refl, off)
  where
    differs : (type == 1) ≡ false
    differs = ground arith

-- A node whose enclave is off hands nothing to its sockets.
call_traffic_out_off :
    (turn : Turn) (node : Node) → IsOff node.enclave → call_traffic_out turn node ≡ ok ([], node)
unfolding call_traffic_out traffic_out hand_over_traffic
call_traffic_out_off turn node off = elim (Bool-cases turn.due) [
  | inl e ↦ rw (e, off) refl
  | inr e ↦ rw e refl
]

-- From there on a round lets out neither traffic nor a message.
abbrev pub IsSilent : Shown → Type 0
IsSilent shown = (shown.calls ≡ []) × (shown.message ≡ none)

use_enclave-IsStuck :
    (turn : Turn) (node node' : Node) (pseudonym : Option (List ℕ)) (shown : Shown)
    → IsStuck node
    → use_enclave turn pseudonym node ≡ ok (shown, node')
    → IsStuck node' × IsSilent shown
unfolding use_enclave
use_enclave-IsStuck turn node node' pseudonym shown (on, off) e =
    elim (if-cases (not node.network.initialized) e) [
      | inl (never, _) ↦ absurd (ground arith)
      | inr (_, e₁) ↦
          let ((calls, after), none_sent, e₂) = >>=-eq-ok (call_traffic_out turn node) _ e₁ in
          let sent = ok-inj (sym (call_traffic_out_off turn node off) ∙ none_sent) in
          let same = ap (λ r. r.1) sent in
          let ((message, enclave), received, e₃) =
            >>=-eq-ok
              (receive_message turn.outside.crypto turn.receive_clock turn.unset_n_dst
                after.enclave)
              _ e₂ in
          let got = ok-inj (
            sym (
              receive_message_off turn.outside.crypto turn.receive_clock turn.unset_n_dst
                after.enclave (subst (λ n. IsOff n.enclave) same off))
            ∙ received) in
          (
            subst IsStuck (ap (λ r. r.1) (ok-inj e₃)) (
              subst (λ n. n.network.initialized ≡ true) same on,
              subst IsOff (ap (λ r. r.1) got) (subst (λ n. IsOff n.enclave) same off),
            ),
            subst IsSilent (ap (λ r. r.0) (ok-inj e₃))
                (sym (ap (λ r. r.0) sent), sym (ap (λ r. r.0) got)),
          )
    ]

run_loop-IsStuck :
    (turn : Turn) (node node' : Node) (shown : Shown)
    → IsStuck node
    → run_loop turn node ≡ ok (shown, node')
    → IsStuck node' × IsSilent shown
unfolding run_loop main_loop
run_loop-IsStuck turn node node' shown stuck e =
    let ((pseudonym, mid), looped, e₁) = >>=-eq-ok (main_loop turn node) _ e in
    let (first, taken, e₂) = >>=-eq-ok (check_in_socket turn node turn.incoming) _ looped in
    use_enclave-IsStuck turn mid node' pseudonym shown
      (check_user_socket-IsStuck turn first mid turn.command pseudonym
        (check_in_socket-IsStuck turn node first turn.incoming stuck taken) e₂)
      e₁

run_turns-IsStuck :
    (turns : List Turn) (node node' : Node) (shown : List Shown)
    → IsStuck node
    → run_turns turns node ≡ ok (shown, node')
    → IsStuck node' × All IsSilent shown
unfolding run_turns
run_turns-IsStuck [] node node' shown stuck e = (
  subst IsStuck (ap (λ r. r.1) (ok-inj e)) stuck,
  subst (All IsSilent) (ap (λ r. r.0) (ok-inj e)) tt,
)
run_turns-IsStuck (turn ∷ turns) node node' shown stuck e =
    let ((s, mid), here, e₁) = >>=-eq-ok (run_loop turn node) _ e in
    let ((more, last), there, e₂) = >>=-eq-ok (run_turns turns mid) _ e₁ in
    let (stuck', silent) = run_loop-IsStuck turn node mid s stuck here in
    let (stuck'', silents) = run_turns-IsStuck turns mid last more stuck' there in
    (
      subst IsStuck (ap (λ r. r.1) (ok-inj e₂)) stuck'',
      subst (All IsSilent) (ap (λ r. r.0) (ok-inj e₂)) (silent, silents),
    )

-- If the first message that an uninitialized node has is not an init message, by the 32 low bits of
-- its first word, then in its round and in all that follow and return, it makes no call to a socket
-- of a peer and shows no message, and its enclave stays uninitialized, whatever comes.
pub wrong_first_message_silences :
    (turn : Turn) (turns : List Turn) (node node' : Node) (shown : List Shown)
    (bytes behind : List ℕ) (type : ℕ)
    → node.network.initialized ≡ false
    → node.enclave.initialized ≡ false
    → turn.incoming ≡ some bytes
    → get_message_type bytes ≡ ok (type, behind)
    → type ≢ type_init_message
    → run_turns (turn ∷ turns) node ≡ ok (shown, node')
    → (node'.enclave.initialized ≡ false)
      × All (λ (s : Shown). (s.calls ≡ []) × (s.message ≡ none)) shown
unfolding run_turns run_loop main_loop
wrong_first_message_silences turn turns node node' shown bytes behind type fresh off came is other
      e =
    let ((s, mid), here, e₁) = >>=-eq-ok (run_loop turn node) _ e in
    let ((more, last), there, e₂) = >>=-eq-ok (run_turns turns mid) _ e₁ in
    let ((pseudonym, looped), main, e₃) = >>=-eq-ok (main_loop turn node) _ here in
    let (first, taken, e₄) = >>=-eq-ok (check_in_socket turn node turn.incoming) _ main in
    let stuck =
      first-IsStuck turn node first bytes behind type off is other
        (subst (λ i. check_in_socket turn node i ≡ ok first) came taken) fresh in
    let (stuck', silent) =
      use_enclave-IsStuck turn looped mid pseudonym s
        (check_user_socket-IsStuck turn first looped turn.command pseudonym stuck e₄) e₃ in
    let ((_, off'), silents) = run_turns-IsStuck turns mid last more stuck' there in
    (
      subst (λ n. IsOff n.enclave) (ap (λ r. r.1) (ok-inj e₂)) off',
      subst (All IsSilent) (ap (λ r. r.0) (ok-inj e₂)) (silent, silents),
    )

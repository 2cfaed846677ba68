-- ===== src/Client/Calls.antt =====
-- The entry points of the enclave, at the end of client/trusted/client_enclave.cpp: each hands its
-- arguments to the one enclave that there is.
use anonymous_communication.Base.{
  ℕ, Bool, List, [], ◌∷◌, Option, Result, ok, ◌>>=◌, ◌>>◌, assert, >>=-eq-ok, assert-eq-ok, ok-inj,
  ◌≡◌, ap, ◌∙◌, subst,
}
use anonymous_communication.Message.{Message, Pseudonym}
use anonymous_communication.Crypt.{Primitives}
use anonymous_communication.Client.{ClientEnclave}
use anonymous_communication.Client.Pseudonyms.{Clock, get_time, generate_pseudonym}
use anonymous_communication.Client.Send.{Received, send_message, receive_message}
use anonymous_communication.Client.TrafficIn.{traffic_in}
use anonymous_communication.Client.TrafficOut.{Outside, traffic_out}
use anonymous_communication.Client.Join.{network_init, received_msg_from_server}
use anonymous_communication.Client.Users.{IsWell}
use anonymous_communication.Client.Reachable.{
  reachable-IsWell, ◌⟶*◌, here, onward, generates, sends, receives, takes, lets_out, joins, starts,
}

-- A call with its arguments, and with what it takes from outside.
pub data Ecall : Type 0 where
  ecall_init : Bool → Ecall
  ecall_network_init : List ℕ → ℕ → ℕ → ℕ → ℕ → ℕ → Ecall
  ecall_received_msg_from_server : (ℕ → ℕ) → (ℕ → ℕ → ℕ) → Clock → List ℕ → Ecall
  ecall_generate_pseudonym : Primitives → List ℕ → Ecall
  ecall_send_message : Primitives → Clock → Pseudonym → Message → Pseudonym → ℕ → Ecall
  ecall_receive_message : Primitives → Clock → Pseudonym → Ecall
  ecall_traffic_out : Outside → Clock → Ecall
  ecall_traffic_in : Primitives → List ℕ → Ecall
  ecall_get_time : Clock → Ecall

-- What a call returns, writes to its buffers or hands to an outside call.
pub data Answer : Type 0 where
  nothing : Answer
  join_message : List ℕ → Answer
  pseudonym : List ℕ → Answer
  received : Option Received → Answer
  output : Option (List ℕ) → Answer
  time : ℕ → Answer

unfoldable pub call : Ecall → ClientEnclave → Result (Answer × ClientEnclave)
call (ecall_init session) st = assert session >> ok (nothing, st)
call (ecall_network_init cells ip1 ip2 ip3 ip4 port) st =
    network_init cells ip1 ip2 ip3 ip4 port st >>= λ (bytes, st'). ok (join_message bytes, st')
call (ecall_received_msg_from_server quorum_bound routing_bound clock bytes) st =
    received_msg_from_server quorum_bound routing_bound clock bytes st >>= λ st'. ok (nothing, st')
call (ecall_generate_pseudonym crypto iv) st =
    generate_pseudonym crypto iv st >>= λ (pseud, st'). ok (pseudonym pseud, st')
call (ecall_send_message crypto clock n_src msg n_dst t_dst) st =
    send_message crypto clock n_src msg n_dst t_dst st >>= λ st'. ok (nothing, st')
call (ecall_receive_message crypto clock n_dst) st =
    receive_message crypto clock n_dst st >>= λ (out, st'). ok (received out, st')
call (ecall_traffic_out outside clock) st =
    traffic_out outside clock st >>= λ (bytes, st'). ok (output bytes, st')
call (ecall_traffic_in crypto bytes) st = traffic_in crypto bytes st >>= λ st'. ok (nothing, st')
call (ecall_get_time clock) st = get_time st clock >>= λ now. ok (time now, st)

-- Calls one after the other.
unfoldable pub call_all : List Ecall → ClientEnclave → Result (List Answer × ClientEnclave)
unfolding call
call_all [] st = ok ([], st)
call_all (c ∷ calls) st = do
  (answer, st') ← call c st
  (answers, st'') ← call_all calls st'
  ok (answer ∷ answers, st'')

last_state :
    {st st' mid : ClientEnclave} {a b : Answer}
    → st ⟶* mid
    → ◌≡◌ {A = Result (Answer × ClientEnclave)} (ok (a, mid)) (ok (b, st'))
    → st ⟶* st'
last_state {st} steps e = subst (λ s. st ⟶* s) (ap (λ r. r.1) (ok-inj e)) steps

-- A call that returns is a step of the enclave, or leaves it as it is.
call-steps :
    (c : Ecall) (st st' : ClientEnclave) (answer : Answer)
    → call c st ≡ ok (answer, st')
    → st ⟶* st'
unfolding call
call-steps (ecall_init session) st st' answer e =
    let (_, same) = assert-eq-ok session _ e in last_state here same
call-steps (ecall_network_init cells ip1 ip2 ip3 ip4 port) st st' answer e =
    let ((bytes, mid), made, same) = >>=-eq-ok (network_init cells ip1 ip2 ip3 ip4 port st) _ e in
    last_state (onward (joins cells bytes ip1 ip2 ip3 ip4 port made) here) same
call-steps (ecall_received_msg_from_server quorum_bound routing_bound clock bytes) st st' answer e =
    let (mid, made, same) =
      >>=-eq-ok (received_msg_from_server quorum_bound routing_bound clock bytes st) _ e in
    last_state (onward (starts quorum_bound routing_bound clock bytes made) here) same
call-steps (ecall_generate_pseudonym crypto iv) st st' answer e =
    let ((pseud, mid), made, same) = >>=-eq-ok (generate_pseudonym crypto iv st) _ e in
    last_state (onward (generates crypto iv pseud made) here) same
call-steps (ecall_send_message crypto clock n_src msg n_dst t_dst) st st' answer e =
    let (mid, made, same) = >>=-eq-ok (send_message crypto clock n_src msg n_dst t_dst st) _ e in
    last_state (onward (sends crypto clock n_src msg n_dst t_dst made) here) same
call-steps (ecall_receive_message crypto clock n_dst) st st' answer e =
    let ((out, mid), made, same) = >>=-eq-ok (receive_message crypto clock n_dst st) _ e in
    last_state (onward (receives crypto clock n_dst out made) here) same
call-steps (ecall_traffic_out outside clock) st st' answer e =
    let ((bytes, mid), made, same) = >>=-eq-ok (traffic_out outside clock st) _ e in
    last_state (onward (lets_out outside clock bytes made) here) same
call-steps (ecall_traffic_in crypto bytes) st st' answer e =
    let (mid, made, same) = >>=-eq-ok (traffic_in crypto bytes st) _ e in
    last_state (onward (takes crypto bytes made) here) same
call-steps (ecall_get_time clock) st st' answer e =
    let (now, _, same) = >>=-eq-ok (get_time st clock) _ e in last_state here same

steps-append : {a b c : ClientEnclave} → a ⟶* b → b ⟶* c → a ⟶* c
steps-append here t = t
steps-append (onward s r) t = onward s (steps-append r t)

calls-steps :
    (calls : List Ecall) (st st' : ClientEnclave) (answers : List Answer)
    → call_all calls st ≡ ok (answers, st')
    → st ⟶* st'
unfolding call_all
calls-steps [] st st' answers e = subst (λ s. st ⟶* s) (ap (λ r. r.1) (ok-inj e)) here
calls-steps (c ∷ calls) st st' answers e =
    let ((answer, mid), first, e₁) = >>=-eq-ok (call c st) _ e in
    let ((more, last), rest, e₂) = >>=-eq-ok (call_all calls mid) _ e₁ in
    steps-append (call-steps c st mid answer first)
      (calls-steps calls mid st' more (rest ∙ ap (λ s. ok (more, s)) (ap (λ r. r.1) (ok-inj e₂))))

-- However the entry points of an enclave are called, it stays well-formed as long as they return.
calls-IsWell :
    (calls : List Ecall) (st st' : ClientEnclave) (answers : List Answer)
    → call_all calls st ≡ ok (answers, st')
    → IsWell st
    → IsWell st'
calls-IsWell calls st st' answers e h = reachable-IsWell (calls-steps calls st st' answers e) h

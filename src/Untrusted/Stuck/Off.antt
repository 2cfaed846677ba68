-- ===== src/Untrusted/Stuck/Off.antt =====
-- An enclave that is not initialized: what its handlers do.
use anonymous_communication.Base.{
  ℕ, false, List, [], ◌∷◌, Option, none, ok, ◌==◌, ◌≡◌, refl, sym, ap, subst, if-cases, inl, inr,
  >>=-eq-ok, assert-eq-ok, ok-inj, length, leb, ◌∙◌,
}
use anonymous_communication.Config.{a_max}
use anonymous_communication.Command.{UserInterfaceMessageInjectionCommand}
use anonymous_communication.Crypt.{Primitives, encrypt}
use anonymous_communication.Message.{Pseudonym}
use anonymous_communication.Client.{ClientEnclave}
use anonymous_communication.Client.Pseudonyms.{Clock, generate_pseudonym}
use anonymous_communication.Client.Send.{send_message, receive_message}
use anonymous_communication.Client.TrafficIn.{traffic_in}
use anonymous_communication.Untrusted.User.{read_command, user_message}

abbrev pub IsOff : ClientEnclave → Type 0
IsOff st = st.initialized ≡ false

pub generate_pseudonym-IsOff :
    (crypto : Primitives) (iv : List ℕ) (st st' : ClientEnclave) (pseud : List ℕ)
    → IsOff st
    → generate_pseudonym crypto iv st ≡ ok (pseud, st')
    → IsOff st'
unfolding generate_pseudonym
generate_pseudonym-IsOff crypto iv st st' pseud off e =
    elim (if-cases (leb a_max (length st.pseudonyms)) e) [
      | inl (_, full) ↦ subst IsOff (ap (λ r. r.1) (ok-inj full)) off
      | inr (_, free) ↦
          let (encrypted, _, e₁) = >>=-eq-ok (encrypt crypto iv st.sk_pseud _ []) _ free in
          subst IsOff (ap (λ r. r.1) (ok-inj e₁)) off
    ]

pub send_message_off :
    (crypto : Primitives) (clock : Clock) (st : ClientEnclave)
    → IsOff st
    → (c : UserInterfaceMessageInjectionCommand)
    → send_message crypto clock
        (record { pseud = c.n_src })
        (record { msg = c.msg })
        (record { pseud = c.n_dst })
        c.t_dst
        st
      ≡ ok st
unfolding send_message
send_message_off crypto clock st off c = rw off refl

pub user_message-IsOff :
    (crypto : Primitives) (iv : List ℕ) (clock : Clock) (bytes : List ℕ) (st st' : ClientEnclave)
    (printed : Option (List ℕ))
    → IsOff st
    → user_message crypto iv clock bytes st ≡ ok (printed, st')
    → IsOff st'
unfolding user_message
user_message-IsOff crypto iv clock [] st st' printed off e = cc
user_message-IsOff crypto iv clock (type ∷ bytes) st st' printed off e =
    elim (if-cases (type == 0) e) [
      | inl (_, zero_type) ↦
          let (_, e₁) = assert-eq-ok (length (type ∷ bytes) == 1) _ zero_type in
          let ((pseud, after), made, e₂) = >>=-eq-ok (generate_pseudonym crypto iv st) _ e₁ in
          subst IsOff (ap (λ r. r.1) (ok-inj e₂))
            (generate_pseudonym-IsOff crypto iv st after pseud off made)
      | inr (_, other) ↦ elim (if-cases (type == 1) other) [
        | inl (_, one) ↦
            let ((c, _), _, e₁) = >>=-eq-ok (read_command bytes) _ one in
            let (after, sent, e₂) =
              >>=-eq-ok
                (send_message crypto clock (record { pseud = c.n_src }) (record { msg = c.msg })
                  (record { pseud = c.n_dst }) c.t_dst st)
                _ e₁ in
            subst IsOff (ap (λ r. r.1) (ok-inj e₂))
              (subst IsOff (ok-inj (sym (send_message_off crypto clock st off c) ∙ sent)) off)
        | inr (_, unknown) ↦ subst IsOff (ap (λ r. r.1) (ok-inj unknown)) off
      ]
    ]

-- An enclave that is not initialized ignores the messages of peers.
pub traffic_in_off :
    (crypto : Primitives) (bytes : List ℕ) (st : ClientEnclave)
    → IsOff st
    → traffic_in crypto bytes st ≡ ok st
unfolding traffic_in
traffic_in_off crypto bytes st off = rw off refl

pub receive_message_off :
    (crypto : Primitives) (clock : Clock) (n_dst : Pseudonym) (st : ClientEnclave)
    → IsOff st
    → receive_message crypto clock n_dst st ≡ ok (none, st)
unfolding receive_message
receive_message_off crypto clock n_dst st off = rw off refl

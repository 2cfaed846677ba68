-- ===== src/Client/Limits.antt =====
-- What `send_message` accepts: in time, and within the limit of messages for each round.
use anonymous_communication.Base.{
  ℕ, zero, suc, ◌+◌, ◌*◌, ◌<◌, ◌≤◌, ◌^◌, true, false, not, List, [], ◌∷◌, ok, checked, get_elem?,
  set, ltb, ◌≡◌, arith, All, ◌↔◌, Bool-cases, if-cases, inl, inr, >>=-eq-ok, ok-inj, subst,
}
use anonymous_communication.Config.{
  k_send, delta, FitsInt, calculate_agreement_time_lem, calculate_routing_time_lem,
  calculate_agreement_time, calculate_routing_time, calculate_round_from_t,
}
use anonymous_communication.Std.{nat_less, update, find}
use anonymous_communication.Message.{MessageTuple, Message, Pseudonym}
use anonymous_communication.Crypt.{Primitives}
use anonymous_communication.Client.Pseudonyms.{Clock, get_time, decrypt_pseudonym, has_pseudonym}
use anonymous_communication.Client.{ClientEnclave}
use anonymous_communication.Client.Send.{
  latest_time, round_key, limit_reached, accept_message, send_message,
}

-- The time that agreement, routing and four more rounds take.
abbrev pub lead : ℕ → ℕ
lead dim = (calculate_agreement_time dim + calculate_routing_time dim + 4) * (4 * delta)

-- For numbers below 2 ^ 62 and a dimension of which twice it plus 2 fits an `int`, a message is too
-- late to `send_message` exactly if its `t_dst` is at least the lead and less than the lead ahead
-- of the time; below the lead the subtraction wraps around and the message is taken.
pub late_iff :
    (dim t_dst now : ℕ)
    → FitsInt dim
    → t_dst < 2 ^ 62
    → now < 2 ^ 62
    → (ltb (latest_time dim t_dst) now ≡ true) ↔ (lead dim ≤ t_dst × t_dst < now + lead dim)
unfolding latest_time
late_iff dim t_dst now fits ht hn =
    rw (calculate_agreement_time_lem dim fits, calculate_routing_time_lem dim fits) (ground arith)

-- A message that is not refused as late, and whose `t_dst` is not below the lead, is due in a
-- round that is still to come.
pub accepted_in_time :
    (dim t_dst now : ℕ)
    → FitsInt dim
    → t_dst < 2 ^ 62
    → now < 2 ^ 62
    → lead dim ≤ t_dst
    → ltb (latest_time dim t_dst) now ≡ false
    → calculate_round_from_t now + calculate_agreement_time dim + calculate_routing_time dim + 3
      < calculate_round_from_t t_dst
unfolding latest_time calculate_round_from_t
accepted_in_time dim t_dst now fits ht hn h e =
    ground (arith, calculate_agreement_time_lem dim fits, calculate_routing_time_lem dim fits)

-- No count of a round is above `kSend`.
abbrev pub IsLimited : List (List (ℕ × ℕ)) → Type 0
IsLimited counts = All (λ entries. All (λ (e : ℕ × ℕ). e.1 ≤ k_send) entries) counts

update_limited :
    (key : ℕ) (entries : List (ℕ × ℕ))
    → limit_reached key entries ≡ false
    → All (λ (e : ℕ × ℕ). e.1 ≤ k_send) entries
    → All (λ (e : ℕ × ℕ). e.1 ≤ k_send) (update key 0 suc entries)
unfolding limit_reached update find
update_limited key [] free h = (omega arith, tt)
update_limited key ((j, n) ∷ entries) free (h, hs) = elim (Bool-cases (ltb key j)) [
  | inl e ↦ rw e (omega arith, (h, hs))
  | inr e ↦ elim (Bool-cases (ltb j key)) [
    | inl d ↦ rw (e, d) (h, update_limited key entries (later e d) hs)
    | inr d ↦ rw (e, d) (ground arith, hs)
  ]
]
  where
    later : ltb key j ≡ false → ltb j key ≡ true → limit_reached key entries ≡ false
    later e d = ground arith

pub All-get {ℓ κ} :
    {A : Type ℓ} (P : A → Type κ) (xs : List A) (i : ℕ) (a : A)
    → All P xs
    → checked (get_elem? xs i) ≡ ok a
    → P a
All-get P [] i a h e = cc
All-get P (x ∷ xs) zero a (h, hs) e = subst P (ok-inj e) h
All-get P (x ∷ xs) (suc i) a (h, hs) e = All-get P xs i a hs e

pub All-set {ℓ κ} :
    {A : Type ℓ} (P : A → Type κ) (xs : List A) (i : ℕ) (a : A)
    → All P xs
    → P a
    → All P (set xs i a)
All-set P [] i a h p = tt
All-set P (x ∷ xs) zero a (h, hs) p = (p, hs)
All-set P (x ∷ xs) (suc i) a (h, hs) p = (h, All-set P xs i a hs p)

-- `send_message` never accepts more than `kSend` messages of one pseudonym for one round.
pub accept_message_keeps_limit :
    (now num : ℕ) (m : MessageTuple) (st st' : ClientEnclave)
    → IsLimited st.num_q_out_entries
    → accept_message now num m st ≡ ok st'
    → IsLimited st'.num_q_out_entries
unfolding accept_message
accept_message_keeps_limit now num m st st' h e =
    elim (Bool-cases (ltb (latest_time st.overlay_dimension m.t_dst) now)) [
      | inl late ↦ subst (λ s. IsLimited s.num_q_out_entries) (ok-inj (rw late at e)) h
      | inr early ↦
          let (entries, found, after) =
            >>=-eq-ok (checked (get_elem? st.num_q_out_entries num)) _ (rw early at e) in
          let limited = All-get _ st.num_q_out_entries num entries h found in
          elim (Bool-cases (limit_reached (round_key m.t_dst) entries)) [
            | inl full ↦ subst (λ s. IsLimited s.num_q_out_entries) (ok-inj (rw full at after)) h
            | inr free ↦
                subst (λ s. IsLimited s.num_q_out_entries) (ok-inj (rw free at after))
                  (All-set (All (λ (e : ℕ × ℕ). e.1 ≤ k_send)) st.num_q_out_entries num
                    (update (round_key m.t_dst) 0 suc entries) h
                    (update_limited (round_key m.t_dst) entries free limited))
          ]
    ]

-- What a call of `send_message` that returns may do: nothing, or accept a message.
pub send_message_cases {ℓ} :
    (P : ClientEnclave → Type ℓ) (crypto : Primitives) (clock : Clock) (n_src : Pseudonym)
    (msg : Message) (n_dst : Pseudonym) (t_dst : ℕ) (st st' : ClientEnclave)
    → P st
    → ((now num : ℕ) (m : MessageTuple) → accept_message now num m st ≡ ok st' → P st')
    → send_message crypto clock n_src msg n_dst t_dst st ≡ ok st'
    → P st'
unfolding send_message
send_message_cases P crypto clock n_src msg n_dst t_dst st st' h accepted e =
    elim (if-cases (not st.initialized) e) [
      | inl (_, same) ↦ subst P (ok-inj same) h
      | inr (_, on) ↦
          let (source, _, e₁) = >>=-eq-ok (decrypt_pseudonym crypto st n_src) _ on in
          elim (if-cases (not (has_pseudonym source st.pseudonyms)) e₁) [
            | inl (_, same) ↦ subst P (ok-inj same) h
            | inr (_, own) ↦
                let (now, _, e₂) = >>=-eq-ok (get_time st clock) _ own in
                accepted now source.local_num
                  (record { n_src = n_src; m = msg; n_dst = n_dst; t_dst = t_dst }) e₂
          ]
    ]

-- ===== src/Client/Bounds.antt =====
-- The rounds of the agreement runs.
use anonymous_communication.Base.{
  ℕ, ◌<◌, ◌≤◌, Bool, true, not, List, [], ◌∷◌, ok, checked, get_elem?, fold_result, keep, ltb, ◌==◌,
  ◌≡◌, arith, All, All-snoc, ◌+u64◌, ◌-u64◌, Bool-cases, inl, inr, >>=-eq-ok, ok-inj, subst, sym,
  ap, fold_result_keeps,
}
use anonymous_communication.Config.{FitsInt, calculate_agreement_time, calculate_agreement_time_lem}
use anonymous_communication.Peer.{PeerInformation}
use anonymous_communication.Message.{MessageTuple}
use anonymous_communication.Message.Schemes.{AgreementTuple}
use anonymous_communication.Crypt.{Primitives}
use anonymous_communication.Overlay.{Gamma}
use anonymous_communication.Std.{nat_less, find}
use anonymous_communication.Agreement.{DistributedAgreementScheme, finalize}
use anonymous_communication.Client.Pseudonyms.{decrypt_pseudonym}
use anonymous_communication.Client.{ClientEnclave, AgreementLocalTuple}
use anonymous_communication.Client.Agreements.{
  Out, supporters, start_agreement, join_agreement, update_tuple, update_all, finalize_tuple,
  finalize_all, remove_finished, is_running, agreements,
}

-- A run that will have reached no more than the last round once it is updated.
abbrev Steps : ℕ → AgreementLocalTuple → Type 0
Steps dim t = t.round +u64 1 ≤ calculate_agreement_time dim

abbrev pub IsRunning : ℕ → AgreementLocalTuple → Type 0
IsRunning dim t = t.round < calculate_agreement_time dim

All-keep {ℓ κ μ} :
    {A : Type ℓ} (P : A → Type κ) (Q : A → Type μ) (p : A → Bool)
    → ((a : A) → P a → p a ≡ true → Q a)
    → (xs : List A) → All P xs
    → All Q (keep p xs)
All-keep P Q p f [] h = tt
All-keep P Q p f (x ∷ xs) (h, hs) = elim (Bool-cases (p x)) [
  | inl e ↦ rw e (f x h e, All-keep P Q p f xs hs)
  | inr e ↦ rw e (All-keep P Q p f xs hs)
]

module _ (dim : ℕ) (fits : FitsInt dim) where
  start-Steps :
      (gammas : List (List PeerInformation)) (tuples tuples' : List AgreementLocalTuple)
      (m : MessageTuple)
      → All (Steps dim) tuples
      → start_agreement gammas tuples m ≡ ok tuples'
      → All (Steps dim) tuples'
  unfolding start_agreement
  start-Steps gammas tuples tuples' m h e =
      let (nodes, _, after) = >>=-eq-ok (checked (get_elem? gammas 1)) _ e in
      subst (All (Steps dim)) (ok-inj after)
        (All-snoc (Steps dim) tuples _ h (omega (arith, calculate_agreement_time_lem dim fits)))

  join-Steps :
      (gammas : List (List PeerInformation)) (tuples tuples' : List AgreementLocalTuple)
      (a : AgreementTuple)
      → All (Steps dim) tuples
      → join_agreement dim gammas tuples a ≡ ok tuples'
      → All (Steps dim) tuples'
  unfolding join_agreement
  join-Steps gammas tuples tuples' a h e =
      elim (Bool-cases (ltb a.l (calculate_agreement_time dim -u64 1))) [
        | inr late ↦ subst (All (Steps dim)) (ok-inj (rw late at e)) h
        | inl early ↦ elim (Bool-cases (is_running a.m tuples)) [
          | inl there ↦ subst (All (Steps dim)) (ok-inj (rw (early, there) at e)) h
          | inr new ↦
              let (nodes, _, after) =
                >>=-eq-ok (checked (get_elem? gammas a.l)) _ (rw (early, new) at e) in
              subst (All (Steps dim)) (ok-inj after)
                (All-snoc (Steps dim) tuples _ h (joined early))
        ]
      ]
    where
      joined :
          ltb a.l (calculate_agreement_time dim -u64 1) ≡ true
          → (a.l -u64 1) +u64 1 ≤ calculate_agreement_time dim
      joined early = ground (arith, calculate_agreement_time_lem dim fits)

  abbrev AtMost : AgreementLocalTuple → Type 0
  AtMost t = t.round ≤ calculate_agreement_time dim

  update_all_bound :
      (own_id : PeerInformation) (received : List AgreementTuple)
      (tuples : List AgreementLocalTuple) (out : Out AgreementTuple)
      → All (Steps dim) tuples
      → All AtMost (update_all own_id received tuples out).0
  unfolding update_all update_tuple
  update_all_bound own_id received [] out h = tt
  update_all_bound own_id received (t ∷ tuples) out (h, hs) =
      (h, update_all_bound own_id received tuples _ hs)

  finalize_tuple_round :
      (crypto : Primitives) (st : ClientEnclave) (gamma_route : Gamma)
      (received : List AgreementTuple) (t t' : AgreementLocalTuple) (out out' : Out MessageTuple)
      → finalize_tuple crypto st gamma_route received t out ≡ ok (t', out')
      → t'.round ≡ t.round
  unfolding finalize_tuple
  finalize_tuple_round crypto st gamma_route received t t' out out' e =
      elim (Bool-cases (t.round == calculate_agreement_time st.overlay_dimension -u64 1)) [
        | inr late ↦ sym (ap (λ r. r.0.round) (ok-inj (rw late at e)))
        | inl now ↦ elim (Bool-cases (verdict.0)) [
          | inr refused ↦ sym (ap (λ r. r.0.round) (ok-inj (rw (now, refused) at e)))
          | inl accepted ↦
              let (source, _, e₁) =
                >>=-eq-ok (decrypt_pseudonym crypto st t.message.n_src) _
                  (rw (now, accepted) at e) in
              let (ids, _, e₂) = >>=-eq-ok (checked (find source.onid_repr gamma_route)) _ e₁ in
              sym (ap (λ r. r.0.round) (ok-inj e₂))
        ]
      ]
    where
      verdict : Bool × DistributedAgreementScheme
      verdict = finalize t.agreement_scheme st.own_id (supporters t.message received) 0

  finalize_all_bound :
      (crypto : Primitives) (st : ClientEnclave) (gamma_route : Gamma)
      (received : List AgreementTuple) (tuples tuples' : List AgreementLocalTuple)
      (out out' : Out MessageTuple)
      → All AtMost tuples
      → finalize_all crypto st gamma_route received tuples out ≡ ok (tuples', out')
      → All AtMost tuples'
  unfolding finalize_all
  finalize_all_bound crypto st gamma_route received [] tuples' out out' h e =
      subst (λ r. All AtMost (r.0)) (ok-inj e) tt
  finalize_all_bound crypto st gamma_route received (t ∷ tuples) tuples' out out' (h, hs) e =
      let ((t₁, out₁), e₁, f₁) =
        >>=-eq-ok (finalize_tuple crypto st gamma_route received t out) _ e in
      let ((tuples₁, out₂), e₂, f₂) =
        >>=-eq-ok (finalize_all crypto st gamma_route received tuples out₁) _ f₁ in
      subst (λ r. All AtMost (r.0)) (ok-inj f₂)
        (
          omega (arith, finalize_tuple_round crypto st gamma_route received t t₁ out out₁ e₁),
          finalize_all_bound crypto st gamma_route received tuples tuples₁ out₁ out₂ hs e₂,
        )

  remove_finished_bound :
      (tuples : List AgreementLocalTuple)
      → All AtMost tuples
      → All (IsRunning dim) (remove_finished dim tuples)
  unfolding remove_finished
  remove_finished_bound tuples h =
      All-keep AtMost (IsRunning dim) (λ t. not (t.round == calculate_agreement_time dim))
        (λ t le ne. ground arith) tuples h

-- If all agreement runs are below the last round of the agreement, twice the dimension plus 2 fits
-- an `int`, and the agreement part of `traffic_out` returns, then all runs it leaves are below the
-- last round again.
pub agreements_keep_rounds :
    (crypto : Primitives) (gamma_route : Gamma) (st : ClientEnclave)
    (tuples : List AgreementLocalTuple) (out : Out AgreementTuple) (out' : Out MessageTuple)
    → FitsInt st.overlay_dimension
    → All (IsRunning st.overlay_dimension) st.agreement_tuples
    → agreements crypto gamma_route st ≡ ok (tuples, out, out')
    → All (IsRunning st.overlay_dimension) tuples
unfolding agreements
agreements_keep_rounds crypto gamma_route st tuples out out' fits h e =
    let dim = st.overlay_dimension in
    let received = st.in_now.in_agreement in
    let gammas = st.gamma_agree_for_round in
    let (started, e₁, f₁) =
      >>=-eq-ok (fold_result (start_agreement gammas) st.agreement_tuples st.in_now.in_announce) _
        e in
    let (joined, e₂, f₂) =
      >>=-eq-ok (fold_result (join_agreement dim gammas) started received) _ f₁ in
    let updated = update_all st.own_id received joined [] in
    let ((finalized, out_inject), e₃, f₃) =
      >>=-eq-ok (finalize_all crypto st gamma_route received (updated.0) []) _ f₂ in
    let h₀ = All-Steps dim fits st.agreement_tuples h in
    let h₁ =
      fold_result_keeps (start_agreement gammas) (All (Steps dim))
        (λ s s' m. start-Steps dim fits gammas s s' m) st.in_now.in_announce st.agreement_tuples
        started h₀ e₁ in
    let h₂ =
      fold_result_keeps (join_agreement dim gammas) (All (Steps dim))
        (λ s s' a. join-Steps dim fits gammas s s' a) received started joined h₁ e₂ in
    let h₃ = update_all_bound dim fits st.own_id received joined [] h₂ in
    let h₄ =
      finalize_all_bound dim fits crypto st gamma_route received (updated.0) finalized [] out_inject
        h₃ e₃ in
    subst (λ r. All (IsRunning dim) (r.0)) (ok-inj f₃) (remove_finished_bound dim fits finalized h₄)
  where
    All-Steps :
        (dim : ℕ)
        → FitsInt dim
        → (ts : List AgreementLocalTuple) → All (IsRunning dim) ts
        → All (Steps dim) ts
    All-Steps dim fits [] h = tt
    All-Steps dim fits (t ∷ ts) (h, hs) =
        (omega (arith, calculate_agreement_time_lem dim fits), All-Steps dim fits ts hs)

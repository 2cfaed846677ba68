-- ===== src/Serial/Bind.antt =====
-- A sequence of reads that succeeds, and its inversion.
use anonymous_communication.Base.{ℕ, List, Result, ok, err, ◌≡◌, refl}
use anonymous_communication.Serial.{Reader, ◌>>=◌}

module _ {ℓ κ} {A : Type ℓ} {B : Type κ} (f : A → Reader B) {b : B} {rest : List ℕ} where
  split_read :
      (r : Result (A × List ℕ))
      → (elim r [ err e ↦ err e | ok (a, mid) ↦ f a mid ]) ≡ ok (b, rest)
      → (a : A) × (mid : List ℕ) × (r ≡ ok (a, mid)) × (f a mid ≡ ok (b, rest))
  split_read (ok (a, mid)) h = (a, mid, refl, h)
  split_read (err e) h = cc

  pub read-eq-ok :
      (m : Reader A) (bytes : List ℕ)
      → (m >>= f) bytes ≡ ok (b, rest)
      → (a : A) × (mid : List ℕ) × (m bytes ≡ ok (a, mid)) × (f a mid ≡ ok (b, rest))
  read-eq-ok m bytes h = split_read (m bytes) h

  after_read :
      (r : Result (A × List ℕ)) (a : A) (mid : List ℕ)
      → r ≡ ok (a, mid)
      → f a mid ≡ ok (b, rest)
      → (elim r [ err e ↦ err e | ok (a, mid) ↦ f a mid ]) ≡ ok (b, rest)
  after_read r a mid e h = rw e h

  pub read_then :
      (m : Reader A) (bytes mid : List ℕ) (a : A)
      → m bytes ≡ ok (a, mid)
      → f a mid ≡ ok (b, rest)
      → (m >>= f) bytes ≡ ok (b, rest)
  read_then m bytes mid a e h = after_read (m bytes) a mid e h

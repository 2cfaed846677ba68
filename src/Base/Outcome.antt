-- ===== src/Base/Outcome.antt =====
-- The outcome of a piece of the program that may not return.
use mathlib.Core.Path.{◌≡◌, refl, subst}
use mathlib.Core.Bool.{Bool, true, false}
use mathlib.Core.Option.{Option, none, some}
use mathlib.Core.List.{List, [], ◌∷◌}

-- A failed `assert`, a `std::out_of_range` thrown by `.at`, a step that C++ leaves undefined,
-- such as a read past the end of a vector, and any other exception.
pub data Fault : Type 0 where
  assertion out_of_range undefined exception : Fault

pub data Result {ℓ} (A : Type ℓ) : Type ℓ where
  ok : A → Result A
  err : Fault → Result A

infixl 5 ◌>>=◌ ◌>>◌
abbrev pub ◌>>=◌ {ℓ κ} : {A : Type ℓ} {B : Type κ} → Result A → (A → Result B) → Result B
err fault >>= next = err fault
ok value >>= next = next value

-- `assert (b)`; the default build leaves assertions on.
abbrev pub assert : Bool → Result (Unit {0})
assert false = err assertion
assert true = ok tt

abbrev pub ◌>>◌ {ℓ} : {B : Type ℓ} → Result (Unit {0}) → Result B → Result B
check >> next = check >>= λ _. next

-- The result of a checked access.
abbrev pub checked {ℓ} : {A : Type ℓ} → Option A → Result A
checked none = err out_of_range
checked (some a) = ok a

-- A loop over a collection that changes a state and may fail.
abbrev pub fold_result {ℓ κ} :
    {A : Type ℓ} {S : Type κ} → (S → A → Result S) → S → List A → Result S
fold_result f s [] = ok s
fold_result f s (x ∷ xs) = f s x >>= λ s'. fold_result f s' xs

-- A sequence that has a value has one after its first part.
module _ {ℓ κ} {A : Type ℓ} {B : Type κ} where
  pub >>=-eq-ok :
      (first : Result A) (next : A → Result B) {out : B}
      → (first >>= next) ≡ ok out
      → (mid : A) × (first ≡ ok mid) × (next mid ≡ ok out)
  >>=-eq-ok (err fault) next h = cc
  >>=-eq-ok (ok mid) next h = (mid, refl, h)

pub ok-inj {ℓ} : {A : Type ℓ} {a b : A} → ok a ≡ ok b → a ≡ b
ok-inj h = cc

pub assert-eq-ok {ℓ} :
    {A : Type ℓ} (b : Bool) (m : Result A) {a : A}
    → (assert b >> m) ≡ ok a
    → (b ≡ true) × (m ≡ ok a)
assert-eq-ok true m h = (refl, h)
assert-eq-ok false m h = cc

-- A property that a loop's body keeps is kept by the loop.
pub fold_result_keeps {ℓ κ μ} :
    {A : Type ℓ} {S : Type κ} (f : S → A → Result S) (P : S → Type μ)
    → ((s s' : S) (a : A) → P s → f s a ≡ ok s' → P s')
    → (xs : List A) (s s' : S) → P s
    → fold_result f s xs ≡ ok s'
    → P s'
fold_result_keeps f P step [] s s' p e = subst P (ok-inj e) p
fold_result_keeps f P step (x ∷ xs) s s' p e =
    let (t, here, rest) = >>=-eq-ok (f s x) _ e in
    fold_result_keeps f P step xs t s' (step s t x p here) rest

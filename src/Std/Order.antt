-- ===== src/Std/Order.antt =====
-- The law that the standard containers ask of a comparison, and lexicographic comparison.
use anonymous_communication.Base.{
  ℕ, Bool, true, false, not, ◌&&◌, ◌||◌, List, [], ◌∷◌, ltb, ◌≡◌, arith, ◌⊎◌,
}
use anonymous_communication.Std.{nat_less}

-- A strict weak order.
pub record IsWeak {ℓ} {K : Type ℓ} (lt : K → K → Bool) : Type ℓ where
  pub asym : (a b : K) → lt a b ≡ true → lt b a ≡ false
  pub chain : (a b c : K) → lt a c ≡ true → (lt a b ≡ true) ⊎ (lt b c ≡ true)

pub ltb-IsWeak : IsWeak ltb
ltb-IsWeak = record { asym = λ a b h. ground arith; chain = λ a b c h. ground arith }

-- A comparison by a function of the object.
pub by-IsWeak {ℓ κ} :
    {A : Type ℓ} {B : Type κ} {lt : B → B → Bool} (f : A → B)
    → IsWeak lt
    → IsWeak (λ a b. lt (f a) (f b))
by-IsWeak f w = record {
  asym = λ a b h. w.asym (f a) (f b) h;
  chain = λ a b c h. w.chain (f a) (f b) (f c) h;
}

-- `std::tie (a, b) < std::tie (c, d)`.
abbrev pub tie {ℓ κ} :
    {A : Type ℓ} {B : Type κ} → (A → A → Bool) → (B → B → Bool) → A × B → A × B → Bool
tie lt lt' x y = lt x.0 y.0 || (not (lt y.0 x.0) && lt' x.1 y.1)

pub tie-IsWeak {ℓ κ} :
    {A : Type ℓ} {B : Type κ} {lt : A → A → Bool} {lt' : B → B → Bool}
    → IsWeak lt
    → IsWeak lt'
    → IsWeak (tie lt lt')
tie-IsWeak v w = record {
  asym = λ x y. ground (arith, v.asym x.0 y.0, v.asym y.0 x.0, w.asym x.1 y.1);
  chain = λ x y z. ground (
    arith,
    v.asym x.0 y.0,
    v.asym y.0 z.0,
    v.asym x.0 z.0,
    v.asym z.0 x.0,
    v.chain x.0 y.0 z.0,
    v.chain z.0 x.0 y.0,
    v.chain y.0 z.0 x.0,
    w.chain x.1 y.1 z.1,
  );
}

-- Lexicographic comparison of byte arrays.
unfoldable pub bytes_lt : List ℕ → List ℕ → Bool
bytes_lt [] [] = false
bytes_lt [] (y ∷ ys) = true
bytes_lt (x ∷ xs) [] = false
bytes_lt (x ∷ xs) (y ∷ ys) = ltb x y || (not (ltb y x) && bytes_lt xs ys)

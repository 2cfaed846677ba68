-- ===== src/Std/Map.antt =====
-- Lookup and insertion in a `std::map` whose comparison is a strict weak order.
use anonymous_communication.Base.{
  true, List, [], ◌∷◌, none, some, if◌then◌else◌, ◌≡◌, refl, arith, inl, inr, Bool-cases, All,
}
use anonymous_communication.Std.{Less, equiv, find, find_or, update}
use anonymous_communication.Std.Order.{IsWeak}

module _ {ℓ} {K : Type ℓ} ⦃o : Less K⦄ (w : IsWeak o.lt) where
  -- `lt a b` for two keys that are the same as one another.
  pub equiv_lt_left : (a b c : K) → equiv a b ≡ true → o.lt a c ≡ o.lt b c
  equiv_lt_left a b c e = ground (arith, w.chain a b c, w.chain b a c, w.asym a b, w.asym b a)

  pub equiv_lt_right : (a b c : K) → equiv a b ≡ true → o.lt c a ≡ o.lt c b
  equiv_lt_right a b c e = ground (arith, w.chain c b a, w.chain c a b, w.asym a b, w.asym b a)

  pub equiv_trans : (a b c : K) → equiv a b ≡ true → equiv a c ≡ equiv b c
  equiv_trans a b c e = ground (arith, equiv_lt_left a b c e, equiv_lt_right a b c e)

-- Each key is below all that follow.
module _ {ℓ κ} {K : Type ℓ} {V : Type κ} ⦃o : Less K⦄ where
  abbrev pub IsSorted : List (K × V) → Type ℓ
  IsSorted [] = Unit
  IsSorted ((k, v) ∷ m) = All (λ (e : K × V). o.lt k e.0 ≡ true) m × IsSorted m

module _ {ℓ κ} {K : Type ℓ} {V : Type κ} ⦃o : Less K⦄ (w : IsWeak o.lt) where
  find-above :
      (k : K) (m : List (K × V)) → All (λ (e : K × V). o.lt k e.0 ≡ true) m → find k m ≡ none
  unfolding find
  find-above k [] h = refl
  find-above k ((j, v) ∷ m) (h, hs) = ground (arith, find-above k m hs)

  find_or-above :
      (k : K) (v₀ : V) (m : List (K × V))
      → All (λ (e : K × V). o.lt k e.0 ≡ true) m
      → find_or k v₀ m ≡ v₀
  unfolding find_or
  find_or-above k v₀ [] h = refl
  find_or-above k v₀ ((j, v) ∷ m) (h, hs) = ground (arith, find_or-above k v₀ m hs)

  above_chain :
      (j k : K) (m : List (K × V))
      → o.lt j k ≡ true
      → All (λ (e : K × V). o.lt k e.0 ≡ true) m
      → All (λ (e : K × V). o.lt j e.0 ≡ true) m
  above_chain j k [] p h = tt
  above_chain j k ((i, v) ∷ m) p (h, hs) =
      (ground (arith, w.chain j i k, w.asym k i), above_chain j k m p hs)

  update-above :
      (j k : K) (v₀ : V) (f : V → V) (m : List (K × V))
      → o.lt j k ≡ true
      → All (λ (e : K × V). o.lt j e.0 ≡ true) m
      → All (λ (e : K × V). o.lt j e.0 ≡ true) (update k v₀ f m)
  unfolding update
  update-above j k v₀ f [] p h = (p, tt)
  update-above j k v₀ f ((i, v) ∷ m) p (h, hs) = ground (arith, update-above j k v₀ f m p hs)

  pub update-IsSorted :
      (k : K) (v₀ : V) (f : V → V) (m : List (K × V)) → IsSorted m → IsSorted (update k v₀ f m)
  unfolding update
  update-IsSorted k v₀ f [] h = (tt, tt)
  update-IsSorted k v₀ f ((j, v) ∷ m) (h, hs) = elim (Bool-cases (o.lt k j)) [
    | inl e ↦ rw e ((e, above_chain k j m e h), (h, hs))
    | inr e ↦ elim (Bool-cases (o.lt j k)) [
      | inl d ↦ rw (e, d) (update-above j k v₀ f m d h, update-IsSorted k v₀ f m hs)
      | inr d ↦ rw (e, d) (h, hs)
    ]
  ]

  -- After `m[k] = f (m[k])` a lookup finds the new value under the keys that are the same as `k`,
  -- and what it found before under the others.
  pub find-update :
      (k j : K) (v₀ : V) (f : V → V) (m : List (K × V))
      → IsSorted m
      → find j (update k v₀ f m) ≡ (if equiv j k then some (f (find_or k v₀ m)) else find j m)
  unfolding find find_or update
  find-update k j v₀ f [] h = refl
  find-update k j v₀ f ((i, v) ∷ m) (h, hs) = elim (Bool-cases (o.lt k i)) [
    | inl e ↦ rw e (rw (find_or-above k v₀ m (above_chain k i m e h)) (ground arith))
    | inr e ↦ elim (Bool-cases (o.lt i k)) [
      | inl d ↦
          rw (e, d)
            (ground (
              arith,
              find-update k j v₀ f m hs,
              equiv_lt_left w j k i,
              equiv_lt_right w j k i,
              w.asym i k,
            ))
      | inr d ↦ rw (e, d) (ground (arith, equiv_lt_left w k i j, equiv_lt_right w k i j))
    ]
  ]

  -- `find_or` is `find` with a value for a key that is not there.
  pub find_or-find :
      (k : K) (v₀ : V) (m : List (K × V))
      → find_or k v₀ m ≡ elim (find k m) [ none ↦ v₀ | some v ↦ v ]
  unfolding find find_or
  find_or-find k v₀ [] = refl
  find_or-find k v₀ ((j, v) ∷ m) = ground (arith, find_or-find k v₀ m)

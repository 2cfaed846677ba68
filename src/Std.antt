-- ===== src/Std.antt =====
-- The containers of the C++ standard library, as the program uses them. `std::map` and `std::set`
-- are lists in the order of a comparison; two keys are the same when neither is below the other.
pub mod Order
pub mod Map
use anonymous_communication.Base.{
  ℕ, Bool, true, false, not, ◌&&◌, ◌||◌, List, [], ◌∷◌, Option, none, some, if◌then◌else◌, ltb, ◌≡◌,
  map,
}

-- `operator<` of a class.
pub record Less {ℓ} (K : Type ℓ) : Type ℓ where
  pub lt : K → K → Bool

instance abbrev pub nat_less : Less ℕ
nat_less = record { lt = ltb }

module _ {ℓ} {K : Type ℓ} ⦃o : Less K⦄ where
  -- Neither is below the other.
  abbrev pub equiv : K → K → Bool
  equiv a b = not (o.lt a b) && not (o.lt b a)

  -- `std::set::insert`: an element that is there already stays.
  unfoldable pub set_insert : K → List K → List K
  set_insert k [] = k ∷ []
  set_insert k (j ∷ s) =
      let rest = set_insert k s in
      if o.lt k j then k ∷ j ∷ s else if o.lt j k then j ∷ rest else j ∷ s

  -- Insertion of a range, front to back.
  unfoldable pub set_insert_all : List K → List K → List K
  set_insert_all [] s = s
  set_insert_all (k ∷ ks) s = set_insert_all ks (set_insert k s)

  -- `count` of a set, 0 or 1.
  unfoldable pub set_count : K → List K → Bool
  set_count k [] = false
  set_count k (j ∷ s) = equiv k j || set_count k s

  module _ {κ} {V : Type κ} where
    unfoldable pub find : K → List (K × V) → Option V
    find k [] = none
    find k ((j, v) ∷ m) = if equiv k j then some v else find k m

    -- `m[k] = f (m[k])`, where `operator[]` first inserts `v₀` under a key that is not there.
    unfoldable pub update : K → V → (V → V) → List (K × V) → List (K × V)
    update k v₀ f [] = (k, f v₀) ∷ []
    update k v₀ f ((j, v) ∷ m) =
        let rest = update k v₀ f m in
        if o.lt k j
        then (k, f v₀) ∷ (j, v) ∷ m
        else if o.lt j k
        then (j, v) ∷ rest
        else (j, f v) ∷ m

    -- What `m[k]` reads, `v₀` being the value of a new entry.
    unfoldable pub find_or : K → V → List (K × V) → V
    find_or k v₀ [] = v₀
    find_or k v₀ ((j, v) ∷ m) = if equiv k j then v else find_or k v₀ m

    abbrev pub keys : List (K × V) → List K
    keys = map (λ e. e.0)

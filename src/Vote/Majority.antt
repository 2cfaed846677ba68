-- ===== src/Vote/Majority.antt =====
-- The vote returns the classes of elements that occur often enough, for every strict weak order.
use anonymous_communication.Base.{
  ℕ, suc, ◌+◌, true, false, List, [], ◌∷◌, if◌then◌else◌, ltb, ◌≡◌, refl, arith, All, ◌∙◌,
}
use anonymous_communication.Std.{Less, update, equiv, find_or, set_count}
use anonymous_communication.Std.Order.{IsWeak}
use anonymous_communication.Std.Map.{
  IsSorted, update-IsSorted, find-update, find_or-find, equiv_trans,
}
use anonymous_communication.Vote.{
  count_elems, exceeding, obtain_elements_that_exceed_m_corrupt, count_same,
}

module _ {K : Type 0} ⦃o : Less K⦄ (w : IsWeak o.lt) where
  count_elems-IsSorted : (xs : List K) (m : List (K × ℕ)) → IsSorted m → IsSorted (count_elems m xs)
  unfolding count_elems
  count_elems-IsSorted [] m h = h
  count_elems-IsSorted (x ∷ xs) m h =
      count_elems-IsSorted xs (update x 0 suc m) (update-IsSorted w x 0 suc m h)

  find_or_same : (j k : K) (m : List (K × ℕ)) → equiv j k ≡ true → find_or j 0 m ≡ find_or k 0 m
  unfolding find_or
  find_or_same j k [] e = refl
  find_or_same j k ((i, v) ∷ m) e = ground (arith, find_or_same j k m e, equiv_trans w j k i e)

  find_or-update :
      (j k : K) (m : List (K × ℕ))
      → IsSorted m
      → find_or j 0 (update k 0 suc m) ≡ (if equiv j k then 1 else 0) + find_or j 0 m
  find_or-update j k m h = ground (
    arith,
    find_or-find w j 0 (update k 0 suc m),
    find_or-find w j 0 m,
    find-update w k j 0 suc m h,
    find_or_same j k m,
  )

  count_elems-find_or :
      (j : K) (xs : List K) (m : List (K × ℕ))
      → IsSorted m
      → find_or j 0 (count_elems m xs) ≡ find_or j 0 m + count_same j xs
  unfolding count_elems
  count_elems-find_or j [] m h = omega arith
  count_elems-find_or j (x ∷ xs) m h = omega (
    arith,
    count_elems-find_or j xs (update x 0 suc m) (update-IsSorted w x 0 suc m h),
    find_or-update j x m h,
  )

  exceeding-above :
      (j : K) (c : ℕ) (m : List (K × ℕ))
      → All (λ (e : K × ℕ). o.lt j e.0 ≡ true) m
      → set_count j (exceeding c m) ≡ false
  unfolding exceeding set_count
  exceeding-above j c [] h = refl
  exceeding-above j c ((k, n) ∷ m) (h, hs) = ground (arith, exceeding-above j c m hs)

  set_count_same : (j k : K) (s : List K) → equiv j k ≡ true → set_count j s ≡ set_count k s
  unfolding set_count
  set_count_same j k [] e = refl
  set_count_same j k (i ∷ s) e = ground (arith, set_count_same j k s e, equiv_trans w j k i e)

  set_count-exceeding :
      (j : K) (c : ℕ) (m : List (K × ℕ))
      → IsSorted m
      → set_count j (exceeding c m) ≡ ltb c (find_or j 0 m)
  unfolding exceeding set_count find_or
  set_count-exceeding j c [] h = ground arith
  set_count-exceeding j c ((k, n) ∷ m) (h, hs) = ground (
    arith,
    set_count-exceeding j c m hs,
    exceeding-above k c m h,
    set_count_same j k (exceeding c m),
  )

  -- For every strict weak order, an element (up to the comparison) is returned by the vote exactly
  -- if more than `m_corrupt` such elements were received.
  pub vote_counts :
      (j : K) (c : ℕ) (vec : List K)
      → set_count j (obtain_elements_that_exceed_m_corrupt c vec) ≡ ltb c (count_same j vec)
  unfolding obtain_elements_that_exceed_m_corrupt
  vote_counts j c vec =
      set_count-exceeding j c (count_elems [] vec) (count_elems-IsSorted vec [] tt)
      ∙ rw (count_elems-find_or j vec [] tt) (unfold find_or in ground arith)

-- ===== src/Vote.antt =====
-- `ClientEnclave::obtain_elements_that_exceed_m_corrupt` in client/trusted/client_enclave.cpp.
pub mod Majority
pub mod Tuples
use anonymous_communication.Base.{
  ℕ, zero, suc, ◌+◌, Bool, true, false, List, [], ◌∷◌, if◌then◌else◌, ltb,
}
use anonymous_communication.Std.{Less, update, equiv}

module _ {K : Type 0} ⦃o : Less K⦄ where
  -- The counting loop: an element that has no entry gets one with 0, and its count goes up.
  unfoldable pub count_elems : List (K × ℕ) → List K → List (K × ℕ)
  count_elems counter [] = counter
  count_elems counter (x ∷ xs) = count_elems (update x 0 suc counter) xs

  -- The loop over the counters.
  unfoldable pub exceeding : ℕ → List (K × ℕ) → List K
  exceeding m_corrupt [] = []
  exceeding m_corrupt ((k, n) ∷ counter) =
      let rest = exceeding m_corrupt counter in if ltb m_corrupt n then k ∷ rest else rest

  unfoldable pub obtain_elements_that_exceed_m_corrupt : ℕ → List K → List K
  obtain_elements_that_exceed_m_corrupt m_corrupt vec = exceeding m_corrupt (count_elems [] vec)

  -- How many elements are the same as `x` to the comparison.
  abbrev pub count_same : K → List K → ℕ
  count_same x [] = 0
  count_same x (y ∷ ys) = (if equiv x y then 1 else 0) + count_same x ys

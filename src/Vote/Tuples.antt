-- ===== src/Vote/Tuples.antt =====
-- The vote on message tuples, whose comparison looks at `t_dst` alone.
use anonymous_communication.Base.{
  ℕ, suc, ◌+◌, List, [], ◌∷◌, if◌then◌else◌, ltb, ◌≡◌, arith, All, length, ◌∙◌,
}
use anonymous_communication.Std.{update}
use anonymous_communication.Vote.{count_elems, exceeding, obtain_elements_that_exceed_m_corrupt}
use anonymous_communication.Message.{MessageTuple, tuple_lt, tuple_less}

same_class :
    (a x : MessageTuple) (n : ℕ)
    → x.t_dst ≡ a.t_dst
    → update x 0 suc ((a, n) ∷ []) ≡ (a, suc n) ∷ []
unfolding update tuple_lt
same_class a x n h = ground arith

count_one_class :
    (a : MessageTuple) (n : ℕ) (xs : List MessageTuple)
    → All (λ (x : MessageTuple). x.t_dst ≡ a.t_dst) xs
    → count_elems ((a, n) ∷ []) xs ≡ (a, n + length xs) ∷ []
unfolding count_elems
count_one_class a n [] h = ground arith
count_one_class a n (x ∷ xs) (h, hs) =
    rw (same_class a x n h) (count_one_class a (suc n) xs hs ∙ ground arith)

-- On tuples that all have one delivery time the vote returns the tuple that came first if there are
-- more than `m_corrupt` tuples, and nothing otherwise.
pub vote_one_class :
    (a : MessageTuple) (c : ℕ) (xs : List MessageTuple)
    → All (λ (x : MessageTuple). x.t_dst ≡ a.t_dst) xs
    → obtain_elements_that_exceed_m_corrupt c (a ∷ xs)
      ≡ (if ltb c (suc (length xs)) then a ∷ [] else [])
unfolding obtain_elements_that_exceed_m_corrupt exceeding count_elems update
vote_one_class a c xs h = rw (count_one_class a 1 xs h) (ground arith)

-- ===== src/Routing/Cancel.antt =====
-- The marking of the buckets with too many messages.
use anonymous_communication.Base.{
  ℕ, ◌+◌, true, false, List, [], ◌∷◌, ◌≡◌, refl, arith, All, Bool-cases, inl, inr,
}
use anonymous_communication.Message.{Message, is_cancel, pseudonym_eq, bytes_eq}
use anonymous_communication.Message.Schemes.{RoutingSchemeTuple, routing_lt}
use anonymous_communication.Routing.{
  insert_sorted, sort, same_bucket, mark_one, mark_loop, mark_all, Marks,
  determine_elements_to_be_cancelled,
}

module _ {ℓ} (P : RoutingSchemeTuple → Type ℓ) where
  insert_sorted-All :
      (x : RoutingSchemeTuple) (xs : List RoutingSchemeTuple)
      → P x
      → All P xs
      → All P (insert_sorted x xs)
  unfolding insert_sorted
  insert_sorted-All x [] p h = (p, tt)
  insert_sorted-All x (y ∷ ys) p (h, hs) = elim (Bool-cases (routing_lt y x)) [
    | inl e ↦ rw e (h, insert_sorted-All x ys p hs)
    | inr e ↦ rw e (p, (h, hs))
  ]

  pub sort-All : (xs : List RoutingSchemeTuple) → All P xs → All P (sort xs)
  unfolding sort
  sort-All [] h = tt
  sort-All (x ∷ xs) (h, hs) = insert_sorted-All x (sort xs) h (sort-All xs hs)

  mark_one-prev :
      (unset : Message) (i : ℕ) (s : RoutingSchemeTuple) (marks : Marks)
      → P s
      → P marks.0
      → P (mark_one unset i s marks).0
  unfolding mark_one
  mark_one-prev unset i s (prev, prev_index, result) p q = elim (Bool-cases (same_bucket prev s)) [
    | inl e ↦ rw e q
    | inr e ↦ rw e p
  ]

  mark_loop-prev :
      (unset : Message) (i : ℕ) (rest : List RoutingSchemeTuple) (marks : Marks)
      → All P rest
      → P marks.0
      → P (mark_loop unset i rest marks).0
  unfolding mark_loop
  mark_loop-prev unset i [] marks h p = p
  mark_loop-prev unset i (s ∷ rest) marks (h, hs) p =
      mark_loop-prev unset (i + 1) rest (mark_one unset i s marks) hs
        (mark_one-prev unset i s marks h p)

  -- Marking and sorting bring no new tuple into `set_s`.
  pub marked-All :
      (unset : Message) (set_s : List RoutingSchemeTuple)
      → All P set_s
      → All P (determine_elements_to_be_cancelled unset set_s).1
  unfolding determine_elements_to_be_cancelled
  marked-All unset set_s h = mark_all-All unset (sort set_s) (sort-All set_s h)
    where
      mark_all-All :
          (u : Message) (xs : List RoutingSchemeTuple) → All P xs → All P (mark_all u xs).1
      mark_all-All u [] h' = unfold mark_all in tt
      mark_all-All u (first ∷ rest) (h', hs) =
          unfold mark_all in
          (
            mark_loop-prev u 1 rest (mark_one u 0 first (first, 0, [])) hs
                (mark_one-prev u 0 first (first, 0, []) h' h'),
            hs,
          )

bytes_eq_refl : (xs : List ℕ) → bytes_eq xs xs ≡ true
unfolding bytes_eq
bytes_eq_refl [] = refl
bytes_eq_refl (x ∷ xs) = ground (arith, bytes_eq_refl xs)

same_bucket_refl : (s : RoutingSchemeTuple) → same_bucket s s ≡ true
unfolding same_bucket pseudonym_eq
same_bucket_refl s = ground (arith, bytes_eq_refl s.bucket_dst.pseud)

abbrev pub last_of : RoutingSchemeTuple → List RoutingSchemeTuple → RoutingSchemeTuple
last_of s [] = s
last_of s (x ∷ xs) = last_of x xs

mark_one_bucket :
    (unset : Message) (i : ℕ) (s : RoutingSchemeTuple) (marks : Marks)
    → same_bucket (mark_one unset i s marks).0 s ≡ true
unfolding mark_one
mark_one_bucket unset i s (prev, prev_index, result) = elim (Bool-cases (same_bucket prev s)) [
  | inl e ↦ rw e e
  | inr e ↦ rw e (same_bucket_refl s)
]

mark_loop_bucket :
    (unset : Message) (i : ℕ) (s : RoutingSchemeTuple) (rest : List RoutingSchemeTuple)
    (marks : Marks)
    → same_bucket marks.0 s ≡ true
    → same_bucket (mark_loop unset i rest marks).0 (last_of s rest) ≡ true
unfolding mark_loop
mark_loop_bucket unset i s [] marks h = h
mark_loop_bucket unset i s (x ∷ rest) marks h =
    mark_loop_bucket unset (i + 1) x rest (mark_one unset i x marks)
      (mark_one_bucket unset i x marks)

-- After the marking, the front of the tuples is replaced by a tuple of the last bucket, and the
-- tuples behind it are as before.
pub mark_all_front :
    (unset : Message) (first : RoutingSchemeTuple) (rest : List RoutingSchemeTuple)
    → (front : RoutingSchemeTuple) × ((mark_all unset (first ∷ rest)).1 ≡ front ∷ rest)
      × (same_bucket front (last_of first rest) ≡ true)
unfolding mark_all
mark_all_front unset first rest = (
  (mark_loop unset 1 rest (mark_one unset 0 first (first, 0, []))).0,
  refl,
  mark_loop_bucket unset 1 first rest (mark_one unset 0 first (first, 0, []))
      (mark_one_bucket unset 0 first (first, 0, [])),
)

mark_loop_single :
    (unset : Message) (i : ℕ) (first : RoutingSchemeTuple) (rest : List RoutingSchemeTuple)
    → All (λ s. (same_bucket first s ≡ true) × (is_cancel s.m ≡ false)) rest
    → mark_loop unset i rest (first, 0, []) ≡ (first, 0, [])
unfolding mark_loop mark_one
mark_loop_single unset i first [] h = refl
mark_loop_single unset i first (s ∷ rest) ((h, c), hs) =
    rw (h, c) (mark_loop_single unset (i + 1) first rest hs)

-- Tuples of one bucket alone, none of them a cancel message, are never marked, however many.
pub mark_all_single :
    (unset : Message) (first : RoutingSchemeTuple) (rest : List RoutingSchemeTuple)
    → is_cancel first.m ≡ false
    → All (λ s. (same_bucket first s ≡ true) × (is_cancel s.m ≡ false)) rest
    → mark_all unset (first ∷ rest) ≡ ([], first ∷ rest)
unfolding mark_all mark_one
mark_all_single unset first rest c h =
    rw (same_bucket_refl first, c, mark_loop_single unset 1 first rest h)

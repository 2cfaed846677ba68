-- ===== src/Text/Words.antt =====
-- Numbers in decimal, each with a space behind it, are the pieces of their text.
use anonymous_communication.Base.{
  ℕ, ◌<◌, ◌^◌, Bool, true, false, List, [], ◌∷◌, ◌++◌, ◌≡◌, refl, arith, map, All, append_assoc,
  append-nil, ap, ◌∙◌,
}
use anonymous_communication.Text.{space, is_space, is_digit, to_string, pieces, split}
use anonymous_communication.Text.Decimal.{Digits, to_string-Digits}

-- Each number with a space behind it, as the client prints the bytes of a pseudonym.
unfoldable pub print_numbers : List ℕ → List ℕ
unfolding to_string
print_numbers [] = []
print_numbers (n ∷ ns) = to_string n ++ (space ∷ print_numbers ns)

digit_no_space : (c : ℕ) → is_digit c ≡ true → is_space c ≡ false
digit_no_space c h = ground arith

-- The digits that follow are taken into the piece, and the space ends it.
piece_ends :
    (piece ds rest : List ℕ)
    → All (λ c. is_digit c ≡ true) ds
    → pieces false piece (ds ++ (space ∷ rest)) ≡ (piece ++ ds) ∷ pieces true [] rest
unfolding pieces
piece_ends piece [] rest h = rw append-nil refl
piece_ends piece (d ∷ ds) rest (h, hs) =
    rw
      (
        digit_no_space d h,
        piece_ends (piece ++ (d ∷ [])) ds rest hs,
        append_assoc piece (d ∷ []) ds,
      )
      refl

-- A piece that begins with a digit, behind spaces or at the beginning of the text.
piece_begins :
    (gap : Bool) (ds rest : List ℕ)
    → Digits ds
    → pieces gap [] (ds ++ (space ∷ rest)) ≡ ds ∷ pieces true [] rest
unfolding pieces
piece_begins true ds rest h =
    rw (h.split_up, digit_no_space h.first h.first_digit)
      (piece_ends (h.first ∷ []) h.others rest h.other_digits)
piece_begins false ds rest h =
    rw (h.split_up, digit_no_space h.first h.first_digit)
      (piece_ends (h.first ∷ []) h.others rest h.other_digits)

pieces_of_numbers :
    (gap : Bool) (ns : List ℕ)
    → All (λ n. n < 2 ^ 64) ns
    → pieces gap [] (print_numbers ns) ≡ map to_string ns
unfolding pieces print_numbers
pieces_of_numbers true [] h = refl
pieces_of_numbers false [] h = refl
pieces_of_numbers gap (n ∷ ns) (h, hs) =
    piece_begins gap (to_string n) (print_numbers ns) (to_string-Digits n h)
    ∙ ap (◌∷◌ (to_string n)) (pieces_of_numbers true ns hs)

-- The pieces of the text of at least one number are its decimals.
pub split-print_numbers :
    (n : ℕ) (ns : List ℕ)
    → n < 2 ^ 64
    → All (λ n. n < 2 ^ 64) ns
    → split (print_numbers (n ∷ ns)) ≡ map to_string (n ∷ ns)
unfolding split print_numbers
split-print_numbers n ns h hs =
    let ds = to_string-Digits n h in
    rw ds.split_up (rw ds.split_up at (pieces_of_numbers false (n ∷ ns) (h, hs)))

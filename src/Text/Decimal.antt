-- ===== src/Text/Decimal.antt =====
-- A number that is written in decimal is read back.
use anonymous_communication.Base.{
  ℕ, zero, suc, ◌+◌, ◌-◌, ◌*◌, ◌/◌, ◌%◌, ◌^◌, ◌<◌, true, false, List, [], ◌∷◌, ◌++◌, ok, ◌≡◌, refl,
  arith, ltb, Bool-cases, inl, inr, append_assoc, All, All-snoc, some, ltb→lt, lt→ltb, ap, ◌∙◌,
  ◌==◌,
}
use native.Mathlib.Nat.{pow-suc}
use anonymous_communication.Text.{
  is_space, is_digit, decimal, to_string, scan, skip_space, magnitude, signed, stoi, stoull,
}

-- A text whose first character is not a digit.
abbrev pub Ends : List ℕ → Type 0
Ends [] = Unit
Ends (c ∷ cs) = is_digit c ≡ false

-- The digits of a number are at least one, and all of them are digits.
pub record Digits (ds : List ℕ) : Type 0 where
  pub first : ℕ
  pub others : List ℕ
  pub split_up : ds ≡ first ∷ others
  pub first_digit : is_digit first ≡ true
  pub other_digits : All (λ c. is_digit c ≡ true) others

digit : (n : ℕ) → n < 10 → is_digit (48 + n) ≡ true
digit n h = ground arith

single-Digits : (n : ℕ) → n < 10 → Digits ((48 + n) ∷ [])
single-Digits n h = record {
  first = 48 + n;
  others = [];
  split_up = refl;
  first_digit = digit n h;
  other_digits = tt;
}

snoc-Digits : (front : List ℕ) (n : ℕ) → n < 10 → Digits front → Digits (front ++ ((48 + n) ∷ []))
snoc-Digits front n h ds = record {
  first = ds.first;
  others = ds.others ++ ((48 + n) ∷ []);
  split_up = rw ds.split_up refl;
  first_digit = ds.first_digit;
  other_digits = All-snoc _ ds.others (48 + n) ds.other_digits (digit n h);
}

decimal-Digits : (left n : ℕ) → n < 10 ^ suc left → Digits (decimal (suc left) n)
unfolding decimal
decimal-Digits zero n h = rw (lt→ltb n 10 (omega arith)) (single-Digits n (omega arith))
decimal-Digits (suc left) n h = elim (Bool-cases (ltb n 10)) [
  | inl e ↦ rw e (single-Digits n (ltb→lt n 10 e))
  | inr e ↦ rw e (
      snoc-Digits (decimal (suc left) (n / 10)) (n % 10) (omega arith)
        (decimal-Digits left (n / 10) (omega (arith, pow-suc 10 (suc left)))))
]

pub to_string-Digits : (n : ℕ) → n < 2 ^ 64 → Digits (to_string n)
unfolding to_string
to_string-Digits n h = decimal-Digits 19 n (omega arith)

scan-decimal :
    (left n : ℕ) (rest : List ℕ)
    → n < 10 ^ suc left
    → scan 0 (decimal (suc left) n ++ rest) ≡ scan n rest
unfolding decimal scan
scan-decimal zero n rest h =
    rw (lt→ltb n 10 (omega arith), digit n (omega arith)) (ap (λ m. scan m rest) (omega arith))
scan-decimal (suc left) n rest h = elim (Bool-cases (ltb n 10)) [
  | inl e ↦ rw (e, digit n (ltb→lt n 10 e)) (ap (λ m. scan m rest) (omega arith))
  | inr e ↦
      rw
        (
          e,
          append_assoc (decimal (suc left) (n / 10)) ((48 + n % 10) ∷ []) rest,
          scan-decimal left (n / 10) ((48 + n % 10) ∷ rest) (omega (arith, pow-suc 10 (suc left))),
          digit (n % 10) (omega arith),
        )
        (ap (λ m. scan m rest) (omega arith))
]

scan-Ends : (n : ℕ) (rest : List ℕ) → Ends rest → scan n rest ≡ n
unfolding scan
scan-Ends n [] h = refl
scan-Ends n (c ∷ cs) h = rw h refl

-- A digit is neither a space nor a sign.
digit_only :
    (c : ℕ) → is_digit c ≡ true → (is_space c ≡ false) × ((c == 45) ≡ false) × ((c == 43) ≡ false)
digit_only c h = (ground arith, ground arith, ground arith)

skip_digit : (c : ℕ) (cs : List ℕ) → is_digit c ≡ true → skip_space (c ∷ cs) ≡ c ∷ cs
unfolding skip_space
skip_digit c cs h = let (not_space, _, _) = digit_only c h in rw not_space refl

-- A text with a digit in front has no sign.
signed_digit :
    (c : ℕ) (cs : List ℕ) → is_digit c ≡ true → signed (c ∷ cs) ≡ some (false, scan 0 (c ∷ cs))
unfolding signed magnitude
signed_digit c cs h =
    let (_, not_minus, not_plus) = digit_only c h in
    rw (signed, not_minus, not_plus, magnitude, h)
      (ap (λ b. some (b, scan (0 * 10 + (c - 48)) cs)) not_minus)

-- What is read from the digits of a number, before a character that is not a digit.
signed_decimal :
    (n : ℕ) (rest : List ℕ)
    → n < 2 ^ 64
    → Ends rest
    → signed (skip_space (to_string n ++ rest)) ≡ some (false, n)
unfolding to_string
signed_decimal n rest h stop =
    let ds = decimal-Digits 19 n (omega arith) in
    let value = scan-decimal 19 n rest (omega arith) ∙ scan-Ends n rest stop in
    rw ds.split_up (
      ap signed (skip_digit ds.first (ds.others ++ rest) ds.first_digit)
      ∙ signed_digit ds.first (ds.others ++ rest) ds.first_digit
      ∙ ap (λ m. some (false, m)) (rw ds.split_up at value))

-- `stoi` reads back a number that `to_string` wrote, as long as it fits an `int`.
pub stoi-to_string :
    (n : ℕ) (rest : List ℕ) → n < 2 ^ 31 → Ends rest → stoi (to_string n ++ rest) ≡ ok n
unfolding stoi
stoi-to_string n rest h stop =
    rw (stoi, signed_decimal n rest (omega arith) stop, lt→ltb n (2 ^ 31) h) refl

-- `stoull` reads back every number of 64 bits that `to_string` wrote.
pub stoull-to_string :
    (n : ℕ) (rest : List ℕ) → n < 2 ^ 64 → Ends rest → stoull (to_string n ++ rest) ≡ ok n
unfolding stoull
stoull-to_string n rest h stop = rw (stoull, signed_decimal n rest h stop, lt→ltb n (2 ^ 64) h) refl

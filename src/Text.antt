-- ===== src/Text.antt =====
-- Numbers and words in texts, as the C++ standard library reads and writes them. A text is the
-- list of its characters' codes in ASCII.
pub mod Decimal
pub mod Words
use anonymous_communication.Base.{
  ℕ, zero, suc, ◌+◌, ◌-◌, ◌*◌, ◌/◌, ◌%◌, ◌^◌, Bool, true, false, ◌&&◌, ◌||◌, List, [], ◌∷◌, ◌++◌,
  Result, ok, err, exception, ltb, leb, ◌==◌, if◌then◌else◌, u64, Option, none, some,
}

abbrev pub space : ℕ
space = 32

abbrev pub colon : ℕ
colon = 58

-- `isspace`: the space, and the characters from the tabulator to the carriage return.
abbrev pub is_space : ℕ → Bool
is_space c = c == space || leb 9 c && leb c 13

abbrev pub is_digit : ℕ → Bool
is_digit c = leb 48 c && leb c 57

-- The decimal digits of a number, the rounds left being as many as it may have digits.
unfoldable pub decimal : ℕ → ℕ → List ℕ
decimal zero n = []
decimal (suc left) n =
    let front = decimal left (n / 10) in
    if ltb n 10 then (48 + n) ∷ [] else front ++ ((48 + n % 10) ∷ [])

-- `std::to_string` of a number of at most 64 bits.
unfoldable pub to_string : ℕ → List ℕ
unfolding decimal
to_string n = decimal 20 n

-- The value of the digits at the front of a text, behind those read before.
unfoldable pub scan : ℕ → List ℕ → ℕ
scan value [] = value
scan value (c ∷ cs) =
    let rest = scan (value * 10 + (c - 48)) cs in if is_digit c then rest else value

unfoldable pub skip_space : List ℕ → List ℕ
skip_space [] = []
skip_space (c ∷ cs) = let rest = skip_space cs in if is_space c then rest else c ∷ cs

-- The number at the front of a text behind its sign: no number without a digit.
unfoldable pub magnitude : List ℕ → Option ℕ
unfolding scan
magnitude [] = none
magnitude (c ∷ cs) = if is_digit c then some (scan 0 (c ∷ cs)) else none

-- The sign, true for a minus, and the number.
unfoldable pub signed : List ℕ → Option (Bool × ℕ)
unfolding magnitude
signed [] = none
signed (c ∷ cs) = elim (magnitude (if c == 45 || c == 43 then cs else c ∷ cs)) [
  | none ↦ none
  | some n ↦ some (c == 45, n)
]

-- `std::stoi`: the pattern of an `int` of 32 bits. It throws if there is no number, and if the
-- number is out of the range of an `int`.
unfoldable pub stoi : List ℕ → Result ℕ
unfolding signed skip_space
stoi text = elim (signed (skip_space text)) [
  | none ↦ err exception
  | some (negative, n) ↦
      if negative
      then (if leb n (2 ^ 31) then ok ((2 ^ 32 - n) % 2 ^ 32) else err exception)
      else (if ltb n (2 ^ 31) then ok n else err exception)
]

-- `std::stoull`: a sign negates the number modulo 2 ^ 64.
unfoldable pub stoull : List ℕ → Result ℕ
unfolding signed skip_space
stoull text = elim (signed (skip_space text)) [
  | none ↦ err exception
  | some (negative, n) ↦
      if ltb n (2 ^ 64) then ok (if negative then u64 (2 ^ 64 - n) else n) else err exception
]

-- The pieces between the matches of `\s+`, the piece that has begun and whether a match is under
-- way: what follows the last match is a piece only if it is not empty.
unfoldable pub pieces : Bool → List ℕ → List ℕ → List (List ℕ)
pieces gap [] [] = []
pieces gap (c ∷ cs) [] = (c ∷ cs) ∷ []
pieces true piece (c ∷ cs) =
    let inside = pieces true piece cs in
    let begun = pieces false (piece ++ (c ∷ [])) cs in if is_space c then inside else begun
pieces false piece (c ∷ cs) =
    let ended = piece ∷ pieces true [] cs in
    let longer = pieces false (piece ++ (c ∷ [])) cs in if is_space c then ended else longer

-- `std::sregex_token_iterator` with the index -1: a text without a match is one piece.
unfoldable pub split : List ℕ → List (List ℕ)
unfolding pieces
split [] = [] ∷ []
split (c ∷ cs) = pieces false [] (c ∷ cs)

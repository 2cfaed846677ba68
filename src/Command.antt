-- ===== src/Command.antt =====
-- client_interface/main.cpp: the program in which a user types commands for a node.
pub mod Delivery
use anonymous_communication.Base.{
  ℕ, ◌%◌, ◌^◌, List, [], ◌∷◌, ◌++◌, Option, none, some, Result, ok, ◌>>=◌, length, take, drop, min,
  ◌==◌, if◌then◌else◌,
}
use anonymous_communication.Config.{message_size, pseudonym_size}
use anonymous_communication.Text.{stoi, stoull, split}
use anonymous_communication.Layout.{word_bytes, word_size}

pub record UserInterfaceMessageInjectionCommand : Type 0 where
  pub n_src : List ℕ
  pub msg : List ℕ
  pub n_dst : List ℕ
  pub t_dst : ℕ

-- The loop over the pieces; each number is cut to a byte.
unfoldable pub pseudonym_bytes : List (List ℕ) → Result (List ℕ)
pseudonym_bytes [] = ok []
pseudonym_bytes (piece ∷ pieces) = do
  n ← stoi piece
  bytes ← pseudonym_bytes pieces
  ok (n % 2 ^ 8 ∷ bytes)

unfoldable pub obtain_pseudonym_from_user_string : List ℕ → Result (Option (List ℕ))
unfolding pseudonym_bytes
obtain_pseudonym_from_user_string user_string =
    let container = split user_string in
    if length container == pseudonym_size
    then (pseudonym_bytes container >>= λ bytes. ok (some bytes))
    else ok none

-- `std::getline`: at the end of the input the line is empty.
unfoldable pub get_line : List (List ℕ) → List ℕ × List (List ℕ)
get_line [] = ([], [])
get_line (line ∷ lines) = (line, lines)

-- `memcpy` of a text into the array `msg`, whose other bytes stay what they are.
unfoldable pub copy_message : List ℕ → List ℕ → List ℕ
copy_message text msg = take message_size text ++ drop (min message_size (length text)) msg

-- A command in memory, behind the byte for its type.
unfoldable pub command_bytes : UserInterfaceMessageInjectionCommand → List ℕ
command_bytes c = 1 ∷ (c.n_src ++ (c.msg ++ (c.n_dst ++ word_bytes word_size c.t_dst)))

-- What a round of the loop sends, and the lines that are left to read; `none` is `continue`.
abbrev pub Round : Type 0
Round = Result (Option (List ℕ) × List (List ℕ))

unfoldable pub enter_time : List ℕ → List ℕ → List ℕ → List (List ℕ) → Round
unfolding get_line command_bytes
enter_time n_src msg n_dst lines =
    let (text, rest) = get_line lines in
    stoull text >>= λ t_dst.
    ok (
      some (command_bytes (record { n_src = n_src; msg = msg; n_dst = n_dst; t_dst = t_dst })),
      rest,
    )

unfoldable pub with_destination : List ℕ → List ℕ → List (List ℕ) → Option (List ℕ) → Round
unfolding enter_time
with_destination n_src msg lines none = ok (none, lines)
with_destination n_src msg lines (some n_dst) = enter_time n_src msg n_dst lines

unfoldable pub with_text : List ℕ → List ℕ → List (List ℕ) → List ℕ → Round
unfolding get_line obtain_pseudonym_from_user_string copy_message with_destination
with_text fresh n_src lines [] = ok (none, lines)
with_text fresh n_src lines (c ∷ cs) =
    let (text, rest) = get_line lines in
    obtain_pseudonym_from_user_string text
    >>= with_destination n_src (copy_message (c ∷ cs) fresh) rest

unfoldable pub with_source : List ℕ → List (List ℕ) → Option (List ℕ) → Round
unfolding get_line with_text
with_source fresh lines none = ok (none, lines)
with_source fresh lines (some n_src) =
    let (text, rest) = get_line lines in with_text fresh n_src rest text

-- A round of the loop of `main`; `fresh` is the array `msg` of a command that is not set yet.
unfoldable pub choose : List ℕ → List (List ℕ) → Round
unfolding get_line obtain_pseudonym_from_user_string with_source
choose fresh lines =
    let (answer, rest) = get_line lines in
    let (source, rest') = get_line rest in
    stoi answer >>= λ choice.
    if choice == 1
    then ok (some (0 ∷ []), rest)
    else if choice == 2
    then (obtain_pseudonym_from_user_string source >>= with_source fresh rest')
    else ok (none, rest)

-- ===== src/Command/Delivery.antt =====
-- A command, from the lines that a user types to the enclave.
use anonymous_communication.Base.{
  ℕ, zero, suc, ◌+◌, ◌^◌, ◌<◌, ◌≤◌, ◌≢◌, List, [], ◌∷◌, ◌++◌, none, some, ok, ◌>>=◌, length, take,
  drop, min, ◌≡◌, refl, sym, ap, arith, All, map, append-nil, length-append, length-take, ◌∙◌,
}
use anonymous_communication.Config.{message_size, pseudonym_size}
use anonymous_communication.Text.{to_string, stoi}
use anonymous_communication.Text.Decimal.{stoi-to_string, stoull-to_string}
use anonymous_communication.Text.Words.{print_numbers, split-print_numbers}
use anonymous_communication.Layout.{word_bytes, read_bytes}
use anonymous_communication.Layout.Writes.{word_back, bytes_back}
use anonymous_communication.Crypt.{Primitives}
use anonymous_communication.Client.{ClientEnclave}
use anonymous_communication.Client.Pseudonyms.{Clock}
use anonymous_communication.Client.Send.{send_message}
use anonymous_communication.Command.{
  UserInterfaceMessageInjectionCommand, pseudonym_bytes, obtain_pseudonym_from_user_string,
  get_line, copy_message, command_bytes, enter_time, with_destination, with_text, with_source,
  choose,
}
use anonymous_communication.Untrusted.User.{read_command, user_message}

bytes_of_numbers :
    (ns : List ℕ) → All (λ n. n < 2 ^ 8) ns → pseudonym_bytes (map to_string ns) ≡ ok ns
unfolding pseudonym_bytes
bytes_of_numbers [] h = refl
bytes_of_numbers (n ∷ ns) (h, hs) =
    rw (rw append-nil at (stoi-to_string n [] (omega arith) tt), bytes_of_numbers ns hs)
      (ap (λ m. ok (m ∷ ns)) (omega arith))

wide : (ns : List ℕ) → All (λ n. n < 2 ^ 8) ns → All (λ n. n < 2 ^ 64) ns
wide [] h = tt
wide (n ∷ ns) (h, hs) = (omega arith, wide ns hs)

length-map : (ns : List ℕ) → length (map to_string ns) ≡ length ns
length-map [] = refl
length-map (n ∷ ns) = ap suc (length-map ns)

-- A pseudonym as the client prints it is what the user may type: it is read as the same bytes.
pub printed_pseudonym_obtained :
    (pseud : List ℕ)
    → length pseud ≡ pseudonym_size
    → All (λ b. b < 2 ^ 8) pseud
    → obtain_pseudonym_from_user_string (print_numbers pseud) ≡ ok (some pseud)
unfolding obtain_pseudonym_from_user_string
printed_pseudonym_obtained [] l h = absurd (omega arith)
printed_pseudonym_obtained (n ∷ ns) l (h, hs) =
    rw
      (
        obtain_pseudonym_from_user_string,
        split-print_numbers n ns (omega arith) (wide ns hs),
        length-map (n ∷ ns) ∙ l,
        bytes_of_numbers (n ∷ ns) (h, hs),
      )
      refl

bytes_front : (n : ℕ) (bs tail : List ℕ) → length bs ≡ n → read_bytes n (bs ++ tail) ≡ ok (bs, tail)
bytes_front n bs tail h = rw (sym h) (bytes_back bs tail)

-- A command whose arrays have their sizes is read back from the bytes behind its type.
command_read :
    (c : UserInterfaceMessageInjectionCommand)
    → length c.n_src ≡ pseudonym_size
    → length c.msg ≡ message_size
    → length c.n_dst ≡ pseudonym_size
    → c.t_dst < 2 ^ 64
    → read_command (c.n_src ++ (c.msg ++ (c.n_dst ++ word_bytes 8 c.t_dst))) ≡ ok (c, [])
unfolding read_command
command_read c hs hm hd ht =
    rw
      (
        bytes_front 64 c.n_src (c.msg ++ (c.n_dst ++ word_bytes 8 c.t_dst)) hs,
        bytes_front 128 c.msg (c.n_dst ++ word_bytes 8 c.t_dst) hm,
        bytes_front 64 c.n_dst (word_bytes 8 c.t_dst) hd,
        rw append-nil at (word_back 8 c.t_dst [] (omega arith)),
      )
      refl

length-drop : (n : ℕ) (xs : List ℕ) → n ≤ length xs → length (drop n xs) + n ≡ length xs
length-drop zero xs h = omega arith
length-drop (suc n) [] h = absurd (omega arith)
length-drop (suc n) (x ∷ xs) h = omega (arith, length-drop n xs (omega arith))

length-copy_message :
    (text fresh : List ℕ)
    → length fresh ≡ message_size
    → length (copy_message text fresh) ≡ message_size
unfolding copy_message
length-copy_message text fresh h = omega (
  arith,
  length-append (take 128 text) (drop (min 128 (length text)) fresh),
  length-take 128 text,
  length-drop (min 128 (length text)) fresh (omega arith),
)

-- Two printed pseudonyms, a text that is not empty and a time below 2 ^ 64, as a user enters them,
-- make a command that the client turns into the call of `send_message` with these pseudonyms and
-- this time, the message being the front of the text over the bytes that were in the array.
pub command_reaches_enclave :
    (crypto : Primitives) (iv : List ℕ) (clock : Clock) (st : ClientEnclave)
    (fresh src text dst : List ℕ) (t_dst : ℕ) (lines : List (List ℕ))
    → length fresh ≡ message_size
    → length src ≡ pseudonym_size
    → All (λ b. b < 2 ^ 8) src
    → length dst ≡ pseudonym_size
    → All (λ b. b < 2 ^ 8) dst
    → text ≢ []
    → t_dst < 2 ^ 64
    → (bytes : List ℕ) × (choose fresh
          (to_string 2 ∷ print_numbers src ∷ text ∷ print_numbers dst ∷ to_string t_dst ∷ lines)
        ≡ ok (some bytes, lines))
      × (user_message crypto iv clock bytes st ≡ (
          send_message crypto clock
            (record { pseud = src })
            (record { msg = copy_message text fresh })
            (record { pseud = dst })
            t_dst
            st
          >>= λ st'. ok (none, st')))
unfolding choose get_line with_source with_destination enter_time user_message command_bytes
command_reaches_enclave crypto iv clock st fresh src [] dst t_dst lines hf hs bs hd bd ht small =
    absurd (ht refl)
command_reaches_enclave crypto iv clock st fresh src (c ∷ cs) dst t_dst lines hf hs bs hd bd ht
      small =
    let command : UserInterfaceMessageInjectionCommand = record {
      n_src = src;
      msg = copy_message (c ∷ cs) fresh;
      n_dst = dst;
      t_dst = t_dst;
    } in
    (
      command_bytes command,
      rw
          (
            printed_pseudonym_obtained src hs bs,
            with_text,
            printed_pseudonym_obtained dst hd bd,
            rw append-nil at (stoull-to_string t_dst [] small tt),
          )
          (unfold stoi get_line in refl),
      rw (command_read command hs (length-copy_message (c ∷ cs) fresh hf) hd small) refl,
    )

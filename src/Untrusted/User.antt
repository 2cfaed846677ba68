-- ===== src/Untrusted/User.antt =====
-- The commands of the user in `MainLoop` of client/untrusted/network/network_manager.cpp.
use anonymous_communication.Base.{
  ℕ, List, [], ◌∷◌, Option, none, some, Result, ok, err, undefined, ◌>>=◌, ◌>>◌, assert, length,
  ◌==◌, if◌then◌else◌,
}
use anonymous_communication.Config.{message_size, pseudonym_size}
use anonymous_communication.Text.Words.{print_numbers}
use anonymous_communication.Layout.{read_bytes, read_word, word_size}
use anonymous_communication.Command.{UserInterfaceMessageInjectionCommand}
use anonymous_communication.Crypt.{Primitives}
use anonymous_communication.Client.{ClientEnclave}
use anonymous_communication.Client.Pseudonyms.{Clock, generate_pseudonym}
use anonymous_communication.Client.Send.{send_message}

-- `*reinterpret_cast<UserInterfaceMessageInjectionCommand *> (...)`.
unfoldable pub read_command : List ℕ → Result (UserInterfaceMessageInjectionCommand × List ℕ)
unfolding read_bytes read_word
read_command bytes = do
  (n_src, r₁) ← read_bytes pseudonym_size bytes
  (msg, r₂) ← read_bytes message_size r₁
  (n_dst, r₃) ← read_bytes pseudonym_size r₂
  (t_dst, r₄) ← read_word word_size r₃
  ok (record { n_src = n_src; msg = msg; n_dst = n_dst; t_dst = t_dst }, r₄)

-- A message from the user socket: what is printed, if anything, and the new state of the enclave;
-- `iv` is what the enclave draws for a new pseudonym.
unfoldable pub user_message :
    Primitives → List ℕ → Clock → List ℕ → ClientEnclave → Result (Option (List ℕ) × ClientEnclave)
unfolding read_command print_numbers
user_message crypto iv clock [] st = err undefined
user_message crypto iv clock (type ∷ bytes) st =
    if type == 0
    then (assert (length (type ∷ bytes) == 1)
        >> (generate_pseudonym crypto iv st >>= λ (pseud, st').
            ok (some (print_numbers pseud), st')))
    else if type == 1
    then (do
      (c, _) ← read_command bytes
      st' ←
          send_message crypto clock (record { pseud = c.n_src }) (record { msg = c.msg })
            (record { pseud = c.n_dst }) c.t_dst st
      ok (none, st'))
    else ok (none, st)

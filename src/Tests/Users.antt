-- ===== src/Tests/Users.antt =====
-- The calls of a client's users on concrete states.
use anonymous_communication.Base.{
  ℕ, ◌+◌, ◌*◌, ◌≤◌, ◌<◌, ◌^◌, true, ◌≡◌, ◌≢◌, ◌↔◌, List, [], ◌∷◌, ◌++◌, some, ok, err, assertion,
  refl, arith, replicate, ltb,
}
use anonymous_communication.Std.{nat_less, find, update as map_update}
use anonymous_communication.Config.{
  delta, calculate_agreement_time, calculate_routing_time, calculate_round_from_t,
}
use anonymous_communication.Serial.{serialize_number, deserialize_number, deserialize_loop}
use anonymous_communication.Peer.{
  peer_less, pair_serializable, peer_eq, uri_eq, deserialize_peer, deserialize_uri, serialize_peer,
  serialize_uri,
}
use anonymous_communication.Message.{
  DecryptedPseudonym, serialize_decrypted, deserialize_decrypted, decrypted_eq, bytes_eq,
}
use anonymous_communication.Crypt.{header, encrypt, decrypt, slice}
use anonymous_communication.Client.{ClientEnclave, push_queue}
use anonymous_communication.Client.Pseudonyms.{
  get_time, generate_pseudonym, copy_pseudonym, decrypt_pseudonym, has_pseudonym,
}
use anonymous_communication.Client.Send.{
  latest_time, accept_message, round_key, limit_reached, receive_message, send_message,
}
use anonymous_communication.Client.Outgoing.{announce_due}
use anonymous_communication.Client.Limits.{late_iff, lead}
use anonymous_communication.Client.Users.{IsWell}
use anonymous_communication.Client.Reachable.{
  ◌⟶*◌, onward, here, generates, sends, reachable-IsWell, reachable_accepts,
}
use anonymous_communication.Client.Truncation.{pseudonym_refused}
use anonymous_communication.Client.Reception.{receive_message_none, missed_front_blocks}
use anonymous_communication.Client.Calls.{
  ecall_generate_pseudonym, ecall_send_message, pseudonym, nothing, call_all,
}
use anonymous_communication.Tests.Samples.{
  peer, sample_tuple, sample_message, sample_pseudonym, open_crypto, open_crypto-IsLawful,
  sample_client,
}

late_iff_example : (ltb (latest_time 3 400) 300 ≡ true) ↔ (lead 3 ≤ 400 × 400 < 300 + lead 3)
late_iff_example = late_iff 3 400 300 (omega arith) (omega arith) (omega arith)

-- What the client's pseudonym encrypts, and the ciphertext.
abbrev own_pseudonym : DecryptedPseudonym
own_pseudonym = record { onid_repr = 2; peer_information = peer 0; local_num = 0 }

abbrev own_ciphertext : List ℕ
own_ciphertext =
    header (serialize_decrypted own_pseudonym) [] (replicate 12 8)
    ++ (replicate 16 0 ++ serialize_decrypted own_pseudonym)

pseudonym_refused_example :
    decrypt_pseudonym open_crypto sample_client (record { pseud = copy_pseudonym own_ciphertext })
    ≡ err assertion
pseudonym_refused_example =
    pseudonym_refused open_crypto (replicate 12 8) (copy_pseudonym own_ciphertext) sample_client
      (record sample_client {
        pseudonyms = own_pseudonym ∷ [];
        num_q_out_entries = [] ∷ [];
        q_in_for_pseudonyms = [] ∷ [];
      })
      sample_client open_crypto-IsLawful refl (omega arith) run
  where
    run :
        generate_pseudonym open_crypto (replicate 12 8) sample_client
        ≡ ok (
          copy_pseudonym own_ciphertext,
          record sample_client {
            pseudonyms = own_pseudonym ∷ [];
            num_q_out_entries = [] ∷ [];
            q_in_for_pseudonyms = [] ∷ [];
          },
        )
    run = unfold generate_pseudonym encrypt in refl

abbrev sending : ClientEnclave
sending = record sample_client {
  pseudonyms = own_pseudonym ∷ [];
  num_q_out_entries = [] ∷ [];
  q_in_for_pseudonyms = [] ∷ [];
}

abbrev sent : ClientEnclave
sent = record sending {
  q_out = record (sample_tuple 1 400) { n_src = record { pseud = own_ciphertext } } ∷ [];
  num_q_out_entries = ((33, 1) ∷ []) ∷ [];
}

sample_client-IsWell : IsWell sample_client
sample_client-IsWell = record {
  few = omega arith;
  counted = refl;
  queued = refl;
  numbered = tt;
  limited = tt;
}

generated :
    generate_pseudonym open_crypto (replicate 12 8) sample_client
    ≡ ok (copy_pseudonym own_ciphertext, sending)
generated = unfold generate_pseudonym encrypt in refl

sent_run :
    send_message open_crypto
      (some (160, 7 ∷ []))
      (record { pseud = own_ciphertext })
      (sample_message 1)
      (sample_pseudonym 1)
      400
      sending
    ≡ ok sent
sent_run =
    unfold send_message decrypt_pseudonym decrypt deserialize_number deserialize_loop slice
      deserialize_decrypted deserialize_peer deserialize_uri header serialize_decrypted
      serialize_peer serialize_uri serialize_number has_pseudonym decrypted_eq peer_eq uri_eq
      get_time bytes_eq accept_message latest_time calculate_agreement_time calculate_routing_time
      calculate_round_from_t round_key limit_reached find map_update push_queue in
    refl

two_steps : sample_client ⟶* sent
two_steps =
    onward (generates open_crypto (replicate 12 8) (copy_pseudonym own_ciphertext) generated) (
      onward
        (sends open_crypto (some (160, 7 ∷ [])) (record { pseud = own_ciphertext })
          (sample_message 1) (sample_pseudonym 1) 400 sent_run)
        here)

reachable-IsWell_example : IsWell sent
reachable-IsWell_example = reachable-IsWell two_steps sample_client-IsWell

reachable_accepts_example :
    (next : ClientEnclave) × (accept_message 60 0 (sample_tuple 2 400) sent ≡ ok next)
reachable_accepts_example =
    reachable_accepts own_pseudonym 60 (sample_tuple 2 400) two_steps sample_client-IsWell own
  where
    own : has_pseudonym own_pseudonym (own_pseudonym ∷ []) ≡ true
    own = unfold has_pseudonym decrypted_eq peer_eq uri_eq in refl

receive_message_none_example :
    receive_message open_crypto
      (some (600, 7 ∷ []))
      (record { pseud = own_ciphertext })
      (record sending { q_in_for_pseudonyms = (sample_tuple 1 400 ∷ []) ∷ [] })
    ≢ ok (some (record { n_dst = []; msg = []; t_dst = 400 }), sending)
receive_message_none_example =
    receive_message_none open_crypto (some (600, 7 ∷ [])) (record { pseud = own_ciphertext })
      (record sending { q_in_for_pseudonyms = (sample_tuple 1 400 ∷ []) ∷ [] }) sending
      (record { n_dst = []; msg = []; t_dst = 400 }) (((refl, refl, refl), tt), tt)

missed_front_blocks_example :
    announce_due 20 3 (peer 1 ∷ []) (sample_tuple 1 400 ∷ sample_tuple 1 450 ∷ []) []
    ≡ (sample_tuple 1 400 ∷ sample_tuple 1 450 ∷ [], [])
missed_front_blocks_example =
    missed_front_blocks 20 3 (peer 1 ∷ []) (sample_tuple 1 400) (sample_tuple 1 450 ∷ []) []
      (omega arith) small missed
  where
    small : (20 + calculate_agreement_time 3 + calculate_routing_time 3 + 4) * (4 * delta) < 2 ^ 64
    small = unfold calculate_agreement_time calculate_routing_time in omega arith

    missed :
        calculate_round_from_t 400 < 20 + calculate_agreement_time 3 + calculate_routing_time 3 + 3
    missed =
        unfold calculate_agreement_time calculate_routing_time calculate_round_from_t in omega arith

-- The two calls as the SDK makes them.
two_calls :
    call_all
      (ecall_generate_pseudonym open_crypto (replicate 12 8)
        ∷ ecall_send_message open_crypto
            (some (160, 7 ∷ []))
            (record { pseud = own_ciphertext })
            (sample_message 1)
            (sample_pseudonym 1)
            400
        ∷ [])
      sample_client
    ≡ ok (pseudonym (copy_pseudonym own_ciphertext) ∷ nothing ∷ [], sent)
unfolding call_all
two_calls = rw (generated, sent_run) refl

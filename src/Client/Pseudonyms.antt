-- ===== src/Client/Pseudonyms.antt =====
-- `get_time`, `decrypt_pseudonym` and `generate_pseudonym` of client/trusted/client_enclave.cpp.
use anonymous_communication.Base.{
  ℕ, ◌^◌, ◌%◌, Bool, false, ◌||◌, List, [], ◌∷◌, ◌++◌, Option, Result, ok, ◌>>=◌, ◌>>◌, assert,
  length, take, replicate, leb, if◌then◌else◌, ◌-u64◌, not,
}
use anonymous_communication.Config.{pseudonym_size, a_max}
use anonymous_communication.Message.{
  Pseudonym, DecryptedPseudonym, serialize_decrypted, deserialize_decrypted, bytes_eq, decrypted_eq,
}
use anonymous_communication.Crypt.{Primitives, encrypt, decrypt, succeeded}
use anonymous_communication.Client.{ClientEnclave}

-- What `sgx_get_trusted_time` gave, the time and the nonce of its source; `none` is a status
-- other than `SGX_SUCCESS`.
abbrev pub Clock : Type 0
Clock = Option (ℕ × List ℕ)

unfoldable pub get_time : ClientEnclave → Clock → Result ℕ
get_time st clock =
    if not st.initialized
    then ok 0
    else (succeeded clock >>= λ reading.
        assert (bytes_eq reading.1 st.init_time_nonce) >> ok (reading.0 -u64 st.init_time))

unfoldable pub decrypt_pseudonym :
    Primitives → ClientEnclave → Pseudonym → Result DecryptedPseudonym
decrypt_pseudonym crypto st pseudonym = do
  pseud_decr ← decrypt crypto st.sk_pseud pseudonym.pseud
  read ← deserialize_decrypted (pseud_decr.0)
  ok (read.0)

-- `std::find (pseudonyms_.begin (), pseudonyms_.end (), ...) != pseudonyms_.end ()`.
unfoldable pub has_pseudonym : DecryptedPseudonym → List DecryptedPseudonym → Bool
has_pseudonym d [] = false
has_pseudonym d (e ∷ es) = decrypted_eq e d || has_pseudonym d es

-- The `memset` and the loop that copies into the array: the rest of it stays 0.
unfoldable pub copy_pseudonym : List ℕ → List ℕ
copy_pseudonym encrypted = take pseudonym_size (encrypted ++ replicate pseudonym_size 0)

-- The array that is written, and the new state; `iv` is what `sgx_read_rand` gave. The
-- constructor of a `DecryptedPseudonym` takes `local_num` as one byte.
unfoldable pub generate_pseudonym :
    Primitives → List ℕ → ClientEnclave → Result (List ℕ × ClientEnclave)
generate_pseudonym crypto iv st =
    if leb a_max (length st.pseudonyms)
    then ok (replicate pseudonym_size 0, st)
    else (let pseud : DecryptedPseudonym = record {
      onid_repr = st.onid_repr;
      peer_information = st.own_id;
      local_num = length st.pseudonyms % 2 ^ 8;
    } in
        encrypt crypto iv st.sk_pseud (serialize_decrypted pseud) [] >>= λ encrypted. ok (
          copy_pseudonym encrypted,
          record st {
            pseudonyms = st.pseudonyms ++ (pseud ∷ []);
            num_q_out_entries = st.num_q_out_entries ++ ([] ∷ []);
            q_in_for_pseudonyms = st.q_in_for_pseudonyms ++ ([] ∷ []);
          },
        ))

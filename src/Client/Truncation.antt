-- ===== src/Client/Truncation.antt =====
-- A pseudonym does not decrypt: its array is one byte too short for the ciphertext.
use anonymous_communication.Base.{
  ℕ, zero, suc, ◌+◌, ◌^◌, ◌%◌, ◌<◌, ◌≤◌, false, List, [], ◌∷◌, ◌++◌, ok, err, assertion, length,
  take, replicate, leb, ◌==◌, ◌≡◌, refl, arith, length-append, length-take, if-cases, inl, inr,
  >>=-eq-ok, ok-inj, ap, append_assoc,
}
use anonymous_communication.Config.{a_max}
use anonymous_communication.Serial.{serialize_number}
use anonymous_communication.Serial.Number.{length-serialize_number, u32_round_trip}
use anonymous_communication.Peer.{serialize_peer, serialize_uri}
use anonymous_communication.Message.{DecryptedPseudonym, serialize_decrypted}
use anonymous_communication.Crypt.{
  Primitives, IsLawful, encrypt, decrypt, header, iv_size, mac_size,
}
use anonymous_communication.Crypt.RoundTrip.{encrypt_parts}
use anonymous_communication.Client.{ClientEnclave}
use anonymous_communication.Client.Pseudonyms.{
  copy_pseudonym, decrypt_pseudonym, generate_pseudonym,
}

length-serialize_decrypted : (d : DecryptedPseudonym) → length (serialize_decrypted d) ≡ 29
unfolding serialize_decrypted serialize_peer serialize_uri serialize_number
length-serialize_decrypted d = refl

take_long {ℓ} :
    {A : Type ℓ} (n : ℕ) (xs ys : List A) → n ≤ length xs → take n (xs ++ ys) ≡ take n xs
take_long zero xs ys h = refl
take_long (suc n) [] ys h = absurd (omega arith)
take_long (suc n) (x ∷ xs) ys h = ap (◌∷◌ x) (take_long n xs ys (omega arith))

-- The front of a ciphertext is refused once it is shorter than its header says.
decrypt_short :
    (crypto : Primitives) (key rest : List ℕ) (n m : ℕ)
    → n < 2 ^ 32
    → m < 2 ^ 32
    → 8 + length rest < 8 + iv_size + m + mac_size + n
    → decrypt crypto key (serialize_number 4 n ++ (serialize_number 4 m ++ rest)) ≡ err assertion
unfolding decrypt
decrypt_short crypto key rest n m hn hm short =
    rw
      (
        u32_round_trip n (serialize_number 4 m ++ rest) hn,
        u32_round_trip m rest hm,
        length-append (serialize_number 4 n) (serialize_number 4 m ++ rest),
        length-append (serialize_number 4 m) rest,
        length-serialize_number 4 n,
        length-serialize_number 4 m,
        differs,
      )
      refl
  where
    differs : (4 + (4 + length rest) == 4 + 4 + iv_size + m + mac_size + n) ≡ false
    differs = ground arith

header_29 :
    (p iv : List ℕ)
    → length p ≡ 29
    → header p [] iv ≡ serialize_number 4 29 ++ (serialize_number 4 0 ++ (iv ++ []))
unfolding header
header_29 p iv h = rw h refl

take_behind :
    (rest : List ℕ)
    → take 64 (serialize_number 4 29 ++ (serialize_number 4 0 ++ rest))
      ≡ serialize_number 4 29 ++ (serialize_number 4 0 ++ take 56 rest)
unfolding serialize_number
take_behind rest = refl

-- 65 bytes whose header speaks of 29, cut to 64.
short_refused :
    (crypto : Primitives) (key iv mac ct p c : List ℕ)
    → length iv ≡ iv_size
    → length p ≡ 29
    → length ct ≡ 29
    → length mac ≡ mac_size
    → c ≡ header p [] iv ++ (mac ++ ct)
    → decrypt crypto key (copy_pseudonym c) ≡ err assertion
unfolding copy_pseudonym
short_refused crypto key iv mac ct p c hiv hp hct hmac e =
    rw
      (
        e,
        header_29 p iv hp,
        append_assoc (serialize_number 4 29) (serialize_number 4 0 ++ (iv ++ [])) (mac ++ ct),
        append_assoc (serialize_number 4 0) (iv ++ []) (mac ++ ct),
        take_long 64 (serialize_number 4 29 ++ (serialize_number 4 0 ++ body)) (replicate 64 0)
            long,
        take_behind body,
      )
      (decrypt_short crypto key (take 56 body) 29 0 (omega arith) (omega arith)
        (omega (arith, length-take 56 body, body_length)))
  where
    body : List ℕ
    body = (iv ++ []) ++ (mac ++ ct)

    body_length : length body ≡ 57
    body_length =
        omega
          (arith, length-append (iv ++ []) (mac ++ ct), length-append iv [], length-append mac ct)

    long : 64 ≤ length (serialize_number 4 29 ++ (serialize_number 4 0 ++ body))
    long = omega (
      arith,
      length-append (serialize_number 4 29) (serialize_number 4 0 ++ body),
      length-append (serialize_number 4 0) body,
      length-serialize_number 4 29,
      length-serialize_number 4 0,
      body_length,
    )

-- For lawful primitives, the 64 bytes that `generate_pseudonym` returns for a new pseudonym fail
-- the assertion of `decrypt` in every enclave.
pub pseudonym_refused :
    (crypto : Primitives) (iv bytes : List ℕ) (st st' other : ClientEnclave)
    → IsLawful crypto
    → length iv ≡ iv_size
    → length st.pseudonyms < a_max
    → generate_pseudonym crypto iv st ≡ ok (bytes, st')
    → decrypt_pseudonym crypto other (record { pseud = bytes }) ≡ err assertion
unfolding generate_pseudonym decrypt_pseudonym copy_pseudonym
pseudonym_refused crypto iv bytes st st' other laws hiv room e =
    elim (if-cases (leb a_max (length st.pseudonyms)) e) [
      | inl (full, _) ↦ absurd (ground arith)
      | inr (_, made) ↦
          let (c, sealed, after) =
            >>=-eq-ok (encrypt crypto iv st.sk_pseud (serialize_decrypted pseud) []) _ made in
          let (ct, mac, seals, parts) =
            encrypt_parts crypto iv st.sk_pseud (serialize_decrypted pseud) [] c sealed in
          let sizes =
            laws.sealed_length st.sk_pseud iv (header (serialize_decrypted pseud) [] iv)
              (serialize_decrypted pseud) ct mac seals in
          let written = ap (λ r. r.0) (ok-inj after) in
          rw
            (
              ← written,
              short_refused crypto other.sk_pseud iv mac ct (serialize_decrypted pseud) c hiv
                  (length-serialize_decrypted pseud)
                  (omega (arith, length-serialize_decrypted pseud)) sizes.1 parts,
            )
            refl
    ]
  where
    pseud : DecryptedPseudonym
    pseud = record {
      onid_repr = st.onid_repr;
      peer_information = st.own_id;
      local_num = length st.pseudonyms % 2 ^ 8;
    }

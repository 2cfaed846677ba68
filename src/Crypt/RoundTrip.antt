-- ===== src/Crypt/RoundTrip.antt =====
-- `decrypt` undoes `encrypt`, and a ciphertext that has lost a byte is refused.
use anonymous_communication.Base.{
  ℕ, ◌+◌, ◌^◌, ◌<◌, List, [], ◌++◌, Option, none, some, ok, ◌>>=◌, length, ◌==◌, ◌≡◌, refl, arith,
  ap, length-append, take-append, drop-append, true, append_assoc, append-nil, ◌∙◌,
}
use native.Mathlib.Nat.{mod-eq_of_lt}
use anonymous_communication.Serial.{serialize_number}
use anonymous_communication.Serial.Number.{u32_round_trip, length-serialize_number}
use anonymous_communication.Crypt.{
  Primitives, IsLawful, succeeded, header, encrypt, decrypt, slice, iv_size, mac_size,
}

-- A slice is the middle of a list that is put together from three parts.
slice_middle :
    (a b c : List ℕ) (from count : ℕ)
    → length a ≡ from
    → length b ≡ count
    → slice from count (a ++ (b ++ c)) ≡ ok b
unfolding slice
slice_middle a b c from count ha hb = ground (
  arith,
  drop-append from a (b ++ c) ha,
  take-append count b c hb,
  length-append a (b ++ c),
  length-append b c,
)

-- `decrypt` takes the parts of a ciphertext apart as they were put together.
module _ (crypto : Primitives) (key iv aad mac ct : List ℕ) where
  abbrev lct : List ℕ
  lct = serialize_number 4 (length ct)

  abbrev laad : List ℕ
  laad = serialize_number 4 (length aad)

  abbrev whole : List ℕ
  whole = lct ++ (laad ++ (iv ++ (aad ++ (mac ++ ct))))

  decrypt_parts :
      length iv ≡ iv_size
      → length mac ≡ mac_size
      → length ct < 2 ^ 32
      → length aad < 2 ^ 32
      → decrypt crypto key whole ≡ (
          succeeded (crypto.unseal key iv (lct ++ (laad ++ (iv ++ aad))) ct mac) >>= λ p.
          ok (p, aad))
  unfolding decrypt
  decrypt_parts hiv hmac hct haad =
      rw
        (
          u32_round_trip (length ct) (laad ++ (iv ++ (aad ++ (mac ++ ct)))) hct,
          u32_round_trip (length aad) (iv ++ (aad ++ (mac ++ ct))) haad,
          size,
          iv_slice,
          aad_slice,
          mac_slice,
          ct_slice,
          all_slice,
        )
        refl
    where
      h4 : (n : ℕ) → length (serialize_number 4 n) ≡ 4
      h4 n = length-serialize_number 4 n

      front : length (lct ++ laad) ≡ 8
      front = omega (arith, length-append lct laad, h4 (length ct), h4 (length aad))

      front_iv : length ((lct ++ laad) ++ iv) ≡ 20
      front_iv = omega (arith, length-append (lct ++ laad) iv, front)

      front_aad : length (((lct ++ laad) ++ iv) ++ aad) ≡ 20 + length aad
      front_aad = omega (arith, length-append ((lct ++ laad) ++ iv) aad, front_iv)

      front_mac : length ((((lct ++ laad) ++ iv) ++ aad) ++ mac) ≡ 20 + length aad + mac_size
      front_mac = omega (arith, length-append (((lct ++ laad) ++ iv) ++ aad) mac, front_aad)

      regroup : whole ≡ ((((lct ++ laad) ++ iv) ++ aad) ++ mac) ++ (ct ++ [])
      regroup = simp (append_assoc, append-nil)

      size : (length whole == 4 + 4 + iv_size + length aad + mac_size + length ct) ≡ true
      size = ground (
        arith,
        ap length regroup,
        length-append ((((lct ++ laad) ++ iv) ++ aad) ++ mac) (ct ++ []),
        front_mac,
        append-nil ct,
      )

      iv_slice : slice (4 + 4) iv_size whole ≡ ok iv
      iv_slice =
          simp append_assoc at
            (slice_middle (lct ++ laad) iv (aad ++ (mac ++ ct)) (4 + 4) iv_size front hiv)

      aad_slice : slice (4 + 4 + iv_size) (length aad) whole ≡ ok aad
      aad_slice = simp append_assoc at (
          slice_middle ((lct ++ laad) ++ iv) aad (mac ++ ct) (4 + 4 + iv_size) (length aad) front_iv
            refl)

      mac_slice : slice (4 + 4 + iv_size + length aad) mac_size whole ≡ ok mac
      mac_slice = simp append_assoc at (
          slice_middle (((lct ++ laad) ++ iv) ++ aad) mac ct (4 + 4 + iv_size + length aad) mac_size
            front_aad hmac)

      ct_slice : slice (4 + 4 + iv_size + length aad + mac_size) (length ct) whole ≡ ok ct
      ct_slice = rw regroup (
          slice_middle ((((lct ++ laad) ++ iv) ++ aad) ++ mac) ct []
            (4 + 4 + iv_size + length aad + mac_size) (length ct) front_mac refl)

      all_slice : slice 0 (4 + 4 + iv_size + length aad) whole ≡ ok (lct ++ (laad ++ (iv ++ aad)))
      all_slice = simp append_assoc at (
          slice_middle [] (((lct ++ laad) ++ iv) ++ aad) (mac ++ ct) 0
            (4 + 4 + iv_size + length aad) refl front_aad)

sealed_parts :
    (o : Option (List ℕ × List ℕ)) (h c : List ℕ)
    → (succeeded o >>= λ (s : List ℕ × List ℕ). ok (h ++ (s.1 ++ s.0))) ≡ ok c
    → (ct : List ℕ) × (mac : List ℕ) × (o ≡ some (ct, mac)) × (c ≡ h ++ (mac ++ ct))
sealed_parts none h c e = cc
sealed_parts (some (ct, mac)) h c e = (ct, mac, refl, ground arith)

-- What `encrypt` returns when the primitive succeeds.
pub encrypt_parts :
    (crypto : Primitives) (iv key p aad c : List ℕ)
    → encrypt crypto iv key p aad ≡ ok c
    → (ct : List ℕ) × (mac : List ℕ) × (crypto.seal key iv (header p aad iv) p ≡ some (ct, mac))
      × (c ≡ header p aad iv ++ (mac ++ ct))
unfolding encrypt
encrypt_parts crypto iv key p aad c e =
    sealed_parts (crypto.seal key iv (header p aad iv) p) (header p aad iv) c e

header_lengths :
    (p aad iv : List ℕ) (n : ℕ)
    → (n ≡ length p) × (length p < 2 ^ 32)
    → length aad < 2 ^ 32
    → header p aad iv ≡ serialize_number 4 n ++ (serialize_number 4 (length aad) ++ (iv ++ aad))
unfolding header
header_lengths p aad iv n (e, hp) ha = rw (e, mod-eq_of_lt hp, mod-eq_of_lt ha)

-- For lawful primitives, an initialization vector of the right size and lengths below 2 ^ 32,
-- `decrypt` returns the plaintext and the additional data of what `encrypt` returned under the same
-- key.
pub decrypt-encrypt :
    (crypto : Primitives) (iv key p aad c : List ℕ)
    → IsLawful crypto
    → length iv ≡ iv_size
    → length p < 2 ^ 32
    → length aad < 2 ^ 32
    → encrypt crypto iv key p aad ≡ ok c
    → decrypt crypto key c ≡ ok (p, aad)
decrypt-encrypt crypto iv key p aad c laws hiv hp ha e =
    let (ct, mac, seals, parts) = encrypt_parts crypto iv key p aad c e in
    let sizes = laws.sealed_length key iv (header p aad iv) p ct mac seals in
    let opened = laws.opens key iv (header p aad iv) p ct mac seals in
    let header_form = header_lengths p aad iv (length ct) (omega arith) ha in
    rw (parts, header_form, append_assoc, append_assoc, append_assoc)
      (decrypt_parts crypto key iv aad mac ct hiv sizes.1 (omega arith) ha
        ∙ rw (rw header_form at opened))

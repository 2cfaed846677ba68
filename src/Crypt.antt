-- ===== src/Crypt.antt =====
-- include/cryptlib.cpp. The primitives of the SGX SDK are parameters.
pub mod RoundTrip
use anonymous_communication.Base.{
  ℕ, ◌+◌, ◌*◌, ◌%◌, ◌^◌, ◌<◌, ◌≤◌, ◌-◌, Bool, List, [], ◌∷◌, ◌++◌, Option, none, some, Result, ok,
  err, assertion, undefined, ◌>>=◌, ◌>>◌, assert, length, take, drop, ◌==◌, leb, get_elem?, bit_or,
  sign_extend, ◌≡◌, if◌then◌else◌,
}
use anonymous_communication.Serial.{serialize_number, deserialize_number}
use anonymous_communication.Message.{Pseudonym}

-- `SGX_AESGCM_IV_SIZE` and `SGX_AESGCM_MAC_SIZE`.
abbrev pub iv_size : ℕ
iv_size = 12

abbrev pub mac_size : ℕ
mac_size = 16

-- `SGX_AESGCM_KEY_SIZE` and `SGX_CMAC_KEY_SIZE`.
abbrev pub key_size : ℕ
key_size = 16

-- `sgx_rijndael128GCM_encrypt`, `sgx_rijndael128GCM_decrypt` and `sgx_rijndael128_cmac_msg`;
-- `none` is a status other than `SGX_SUCCESS`. `seal key iv aad p` is ciphertext and tag, and
-- `unseal key iv aad c mac` the plaintext.
pub record Primitives : Type 0 where
  pub seal : List ℕ → List ℕ → List ℕ → List ℕ → Option (List ℕ × List ℕ)
  pub unseal : List ℕ → List ℕ → List ℕ → List ℕ → List ℕ → Option (List ℕ)
  pub cmac : List ℕ → List ℕ → Option (List ℕ)

-- What the SDK documents: a sealed text has the length of the plaintext and a tag of fixed size,
-- and it opens under the same key, vector and additional data.
pub record IsLawful (crypto : Primitives) : Type 0 where
  pub sealed_length :
      (key iv aad p ct mac : List ℕ)
      → crypto.seal key iv aad p ≡ some (ct, mac)
      → (length ct ≡ length p) × (length mac ≡ mac_size)
  pub opens :
      (key iv aad p ct mac : List ℕ)
      → crypto.seal key iv aad p ≡ some (ct, mac)
      → crypto.unseal key iv aad ct mac ≡ some p

-- `assert (status == SGX_SUCCESS)` on the result of a primitive.
abbrev pub succeeded {ℓ} : {A : Type ℓ} → Option A → Result A
succeeded none = err assertion
succeeded (some a) = ok a

-- `keygen` and `gen_routing_key`: what `sgx_read_rand` gives for as many bytes as the key has, the
-- same number for both.
unfoldable pub keygen : (ℕ → Option (List ℕ)) → Result (List ℕ)
keygen read_rand = succeeded (read_rand key_size)

unfoldable pub gen_routing_key : (ℕ → Option (List ℕ)) → Result (List ℕ)
gen_routing_key read_rand = succeeded (read_rand key_size)

-- The first part of a ciphertext, which is authenticated: both lengths, the vector, the data.
unfoldable pub header : List ℕ → List ℕ → List ℕ → List ℕ
header p aad iv =
    serialize_number 4 (length p % 2 ^ 32)
    ++ (serialize_number 4 (length aad % 2 ^ 32) ++ (iv ++ aad))

-- `encrypt`; `iv` is what `sgx_read_rand` gave.
unfoldable pub encrypt : Primitives → List ℕ → List ℕ → List ℕ → List ℕ → Result (List ℕ)
encrypt crypto iv sk_enc p aad = do
  (ct, mac) ← succeeded (crypto.seal sk_enc iv (header p aad iv) p)
  ok (header p aad iv ++ (mac ++ ct))

-- `&c[from]` and `count` bytes on; past the end this is undefined.
unfoldable pub slice : ℕ → ℕ → List ℕ → Result (List ℕ)
slice from count c =
    if leb (from + count) (length c) then ok (take count (drop from c)) else err undefined

-- `decrypt`: the plaintext and the additional data. The four pointers are taken first and read
-- only after the assertion on the size.
unfoldable pub decrypt : Primitives → List ℕ → List ℕ → Result (List ℕ × List ℕ)
decrypt crypto sk_enc c = do
  (lct, rest) ← deserialize_number 4 c
  (laad, rest') ← deserialize_number 4 rest
  assert (length c == 4 + 4 + iv_size + laad + mac_size + lct)
  iv ← slice (4 + 4) iv_size c
  aad ← slice (4 + 4 + iv_size) laad c
  mac ← slice (4 + 4 + iv_size + laad) mac_size c
  ct ← slice (4 + 4 + iv_size + laad + mac_size) lct c
  gcmaad ← slice 0 (4 + 4 + iv_size + laad) c
  p ← succeeded (crypto.unseal sk_enc iv gcmaad ct mac)
  ok (p, aad)

-- `image[k]`, of a tag of 16 bytes.
abbrev pub byte_at : List ℕ → ℕ → Result ℕ
byte_at image k = elim (get_elem? image k) [ none ↦ err undefined | some b ↦ ok b ]

-- `(image[3] << 24) | (image[2] << 16) | (image[1] << 8) | image[0]` is an `int`; it is converted
-- to 64 bits and cut to the dimension.
unfoldable pub get_intermediate_target : Primitives → List ℕ → Pseudonym → ℕ → ℕ → Result ℕ
get_intermediate_target crypto sk_routing bucket_dst ell_dst overlay_dimension = do
  image ← succeeded (crypto.cmac sk_routing (bucket_dst.pseud ++ serialize_number 8 ell_dst))
  b3 ← byte_at image 3
  b2 ← byte_at image 2
  b1 ← byte_at image 1
  b0 ← byte_at image 0
  let word = bit_or (bit_or (bit_or (b3 * 2 ^ 24 % 2 ^ 32) (b2 * 2 ^ 16)) (b1 * 2 ^ 8)) b0
  ok (sign_extend word % 2 ^ overlay_dimension)

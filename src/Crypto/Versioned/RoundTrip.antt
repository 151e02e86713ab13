-- ===== src/Crypto/Versioned/RoundTrip.antt =====
-- The self-routing format loses nothing, and what EncryptVersioned writes DecryptVersioned reads.
use mathlib.Core.List.{append_assoc}
use yvonne.Base.{
  ℕ, ◌^◌, ◌≤◌, ◌<◌, Str, ◌++◌, Option, none, some, ◌≡◌, ◌≢◌, ap, ◌∙◌, ==_iff, false, arith, ltb,
  length, take, drop, length-append, take-append_length, drop-append_length,
}
use yvonne.Crypto.Versioned.Format.{
  ok, put_uint32, uint32, encode_versioned_ciphertext, decode_versioned_ciphertext, extract_version,
  Gcm, encrypt_versioned, decrypt_versioned, nonce_size, min_ciphertext_size,
}

take_nonce : (nonce c : Str) → length nonce ≡ 12 → take 12 (nonce ++ c) ≡ nonce
take_nonce nonce c h = rw (← h) (take-append_length nonce c)

drop_nonce : (nonce c : Str) → length nonce ≡ 12 → drop 12 (nonce ++ c) ≡ c
drop_nonce nonce c h = rw (← h) (drop-append_length nonce c)

uint32-put_uint32 : (v : ℕ) (rest : Str) → v < 2 ^ 32 → uint32 (put_uint32 v ++ rest) ≡ v
unfolding uint32 put_uint32
uint32-put_uint32 v rest h = omega arith

not_short : (a b : ℕ) → b ≤ a → ltb a b ≡ false
not_short a b h = ground arith

decode_long :
    (raw : Str)
    → min_ciphertext_size ≤ length raw
    → decode_versioned_ciphertext raw ≡ ok (uint32 raw, take 12 (drop 4 raw), drop 16 raw)
unfolding decode_versioned_ciphertext
decode_long raw h = rw (not_short (length raw) 32 h)

extract_long : (raw : Str) → 4 ≤ length raw → extract_version raw ≡ ok (uint32 raw)
unfolding extract_version
extract_long raw h = rw (not_short (length raw) 4 h)

module _ (version : ℕ) (nonce ciphertext : Str) (small : version < 2 ^ 32)
    (n : length nonce ≡ nonce_size) (body : 16 ≤ length ciphertext) where
  encoded_length :
      min_ciphertext_size ≤ length (encode_versioned_ciphertext version nonce ciphertext)
  unfolding encode_versioned_ciphertext
  encoded_length = omega (arith, length-append nonce ciphertext)

  decode_encoded :
      decode_versioned_ciphertext (encode_versioned_ciphertext version nonce ciphertext)
      ≡ ok (version, nonce, ciphertext)
  unfolding encode_versioned_ciphertext
  decode_encoded = decode_long (put_uint32 version ++ (nonce ++ ciphertext)) encoded_length ∙ λ i.
      ok (
        uint32-put_uint32 version (nonce ++ ciphertext) small i,
        take_nonce nonce ciphertext n i,
        drop_nonce nonce ciphertext n i,
      )

  extract_encoded :
      extract_version (encode_versioned_ciphertext version nonce ciphertext) ≡ ok version
  unfolding encode_versioned_ciphertext
  extract_encoded =
      extract_long (put_uint32 version ++ (nonce ++ ciphertext)) (
        let h : 32 ≤ length (put_uint32 version ++ (nonce ++ ciphertext)) = encoded_length in
        omega arith)
      ∙ ap ok (uint32-put_uint32 version (nonce ++ ciphertext) small)

-- Parsing an encoded ciphertext gives back the version, the nonce and the body, and its header
-- alone gives the same version.
pub decode-encode :
    (version : ℕ) (nonce ciphertext : Str)
    → version < 2 ^ 32
    → length nonce ≡ nonce_size
    → 16 ≤ length ciphertext
    → (decode_versioned_ciphertext (encode_versioned_ciphertext version nonce ciphertext)
        ≡ ok (version, nonce, ciphertext))
      × (extract_version (encode_versioned_ciphertext version nonce ciphertext) ≡ ok version)
decode-encode version nonce ciphertext small n body = (
  decode_encoded version nonce ciphertext small n body,
  extract_encoded version nonce ciphertext small n body,
)

module _ (gcm : Gcm) where
  encrypt_versioned-eq-encode :
      (key n : Str) (version : ℕ) (plain : Str)
      → length key ≡ 32
      → encrypt_versioned gcm key (some n) version plain
        ≡ ok (encode_versioned_ciphertext version n (gcm.seal key n plain))
  unfolding encrypt_versioned encode_versioned_ciphertext
  encrypt_versioned-eq-encode key n version plain h =
      rw ((==_iff (length key) 32).1 h)
        (ap ok (append_assoc (put_uint32 version) n (gcm.seal key n plain)))

  decrypt_decoded :
      (key raw : Str) (version : ℕ) (nonce ciphertext plain : Str)
      → length key ≡ 32
      → decode_versioned_ciphertext raw ≡ ok (version, nonce, ciphertext)
      → gcm.open_sealed key nonce ciphertext ≡ some plain
      → decrypt_versioned gcm key raw ≡ ok (plain, version)
  unfolding decrypt_versioned
  decrypt_decoded key raw version nonce ciphertext plain h d o = ground arith

  -- With a 32-byte key and a 12-byte nonce, EncryptVersioned gives a ciphertext that
  -- DecryptVersioned opens, under the same key, to the plain text and the version; the version can
  -- be read off it without the key.
  pub decrypt-encrypt :
      (key nonce : Str) (version : ℕ) (plain : Str)
      → length key ≡ 32
      → length nonce ≡ nonce_size
      → version < 2 ^ 32
      → (raw : Str) × (encrypt_versioned gcm key (some nonce) version plain ≡ ok raw)
        × (decrypt_versioned gcm key raw ≡ ok (plain, version))
        × (extract_version raw ≡ ok version)
  decrypt-encrypt key nonce version plain k n small =
      let sealed = gcm.seal key nonce plain in
      let long : 16 ≤ length sealed = omega (arith, gcm.length_seal key nonce plain) in
      (
        encode_versioned_ciphertext version nonce sealed,
        encrypt_versioned-eq-encode key nonce version plain k,
        decrypt_decoded key (encode_versioned_ciphertext version nonce sealed) version nonce sealed
            plain k (decode_encoded version nonce sealed small n long)
            (gcm.open_seal key nonce plain),
        extract_encoded version nonce sealed small n long,
      )

  -- A key of another length than 32 bytes, such as an SM4 key, encrypts nothing.
  pub encrypt_key_size :
      (key : Str) (nonce : Option Str) (version : ℕ) (plain : Str)
      → length key ≢ 32
      → (raw : Str) → encrypt_versioned gcm key nonce version plain ≢ ok raw
  unfolding encrypt_versioned
  encrypt_key_size key none version plain h raw e = cc
  encrypt_key_size key (some n) version plain h raw e = ground arith

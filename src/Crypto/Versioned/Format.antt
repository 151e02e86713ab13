-- ===== src/Crypto/Versioned/Format.antt =====
-- internal/crypto/versioned_ciphertext.go and versioned_encrypt.go: the encoding, its parser and
-- the AES-GCM wrappers. AES-GCM itself is a parameter.
use yvonne.Base.{
  ℕ, ◌+◌, ◌*◌, ◌/◌, ◌%◌, ◌^◌, Str, [], ◌∷◌, ◌++◌, Option, none, some, ◌≡◌, ltb, ◌==◌, length, take,
  drop, get_or, if◌then◌else◌,
}

abbrev pub version_prefix_size : ℕ
version_prefix_size = 4

abbrev pub nonce_size : ℕ
nonce_size = 12

abbrev pub min_ciphertext_size : ℕ
min_ciphertext_size = 32

abbrev pub gcm_key_size : ℕ
gcm_key_size = 32

pub data CryptoErr : Type 0 where
  ciphertext_too_short invalid_key_size open_failed nonce_failed : CryptoErr

pub data Result {ℓ} (A : Type ℓ) : Type ℓ where
  ok : A → Result A
  err : CryptoErr → Result A

-- binary.BigEndian.PutUint32
unfoldable pub put_uint32 : ℕ → Str
put_uint32 v = (v / 2 ^ 24 % 256) ∷ (v / 2 ^ 16 % 256) ∷ (v / 2 ^ 8 % 256) ∷ (v % 256) ∷ []

-- binary.BigEndian.Uint32, of the first four bytes.
unfoldable pub uint32 : Str → ℕ
uint32 b = get_or b 0 0 * 2 ^ 24 + get_or b 1 0 * 2 ^ 16 + get_or b 2 0 * 2 ^ 8 + get_or b 3 0

-- SafeUint32, at an int that is not negative.
unfoldable pub safe_uint32 : ℕ → ℕ
safe_uint32 v = if ltb 4294967295 v then 0 else v

unfoldable pub encode_versioned_ciphertext : ℕ → Str → Str → Str
unfolding put_uint32
encode_versioned_ciphertext version nonce ciphertext = put_uint32 version ++ (nonce ++ ciphertext)

unfoldable pub decode_versioned_ciphertext : Str → Result (ℕ × Str × Str)
unfolding uint32
decode_versioned_ciphertext raw =
    if ltb (length raw) min_ciphertext_size
    then err ciphertext_too_short
    else ok (
      uint32 raw,
      take nonce_size (drop version_prefix_size raw),
      drop (version_prefix_size + nonce_size) raw,
    )

unfoldable pub extract_version : Str → Result ℕ
unfolding uint32
extract_version raw =
    if ltb (length raw) version_prefix_size then err ciphertext_too_short else ok (uint32 raw)

-- crypto/cipher's GCM under a key: a sealed text is 16 bytes longer than the plain one, and opens
-- to it under the same key and nonce.
pub record Gcm : Type 0 where
  pub seal : Str → Str → Str → Str
  pub open_sealed : Str → Str → Str → Option Str
  pub length_seal : (key nonce plain : Str) → length (seal key nonce plain) ≡ length plain + 16
  pub open_seal :
      (key nonce plain : Str) → open_sealed key nonce (seal key nonce plain) ≡ some plain

module _ (gcm : Gcm) where
  -- EncryptVersioned; `nonce` is what GenerateSecureRandom(gcmNonceSize) returned.
  unfoldable pub encrypt_versioned : Str → Option Str → ℕ → Str → Result Str
  unfolding put_uint32
  encrypt_versioned key nonce version plain = elim nonce [
    | none ↦ err nonce_failed
    | some n ↦
        if length key == gcm_key_size
        then ok ((put_uint32 version ++ n) ++ gcm.seal key n plain)
        else err invalid_key_size
  ]

  -- DecryptVersioned: the plain text and the version.
  unfoldable pub decrypt_versioned : Str → Str → Result (Str × ℕ)
  unfolding decode_versioned_ciphertext
  decrypt_versioned key raw = elim (decode_versioned_ciphertext raw) [
    | err e ↦ err e
    | ok (version, nonce, ciphertext) ↦
        if length key == gcm_key_size
        then (elim (gcm.open_sealed key nonce ciphertext) [
          | none ↦ err open_failed
          | some plain ↦ ok (plain, version)
        ])
        else err invalid_key_size
  ]

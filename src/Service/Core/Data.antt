-- ===== src/Service/Core/Data.antt =====
-- internal/service/core.go and core_v12.go: encryption, data keys and MACs. `hmac` is HMAC-SHA256.
use yvonne.Base.{
  ℕ, Str, codes, str_eq, length, ltb, ◌==◌, ◌&&◌, ◌||◌, ◌++◌, [], ◌∷◌, Bool, true, false, Option,
  none, some, inl, inr, not, if◌then◌else◌,
}
use yvonne.Storage.Interface.{KvStore}
use yvonne.Crypto.Versioned.Format
use yvonne.Crypto.Versioned.Format.{
  Gcm, encrypt_versioned, decrypt_versioned, decode_versioned_ciphertext, safe_uint32,
  min_ciphertext_size,
}
use yvonne.Seal.Vault.Machine.{kek_ref}
use yvonne.Auth.Policy.Defs.{Policy}
use yvonne.Lifecycle.Metadata.{KeyMetadata, Codec, Kek}
use yvonne.Lifecycle.Manager.Operations
use yvonne.Lifecycle.Manager.Operations.{get_active_key, get_key_for_decrypt}
use yvonne.Service.Core.Defs.{
  Core, Reply, ok, err, of_crypto, of_vault, unwrap_failed, ciphertext_too_short, wrong_key_type,
  require_unsealed, authorize, after_guard, with_kek_ref, audited, audited_then, record_audit,
  reading, on_manager, mapped,
}

pub record EncryptResult : Type 0 where
  pub ciphertext : Str
  pub version : ℕ

pub record DecryptResult : Type 0 where
  pub plaintext : Str
  pub version : ℕ

pub record MacResult : Type 0 where
  pub mac : Str
  pub version : ℕ

pub record VerifyResult : Type 0 where
  pub valid : Bool
  pub version : ℕ

pub record ReEncryptResult : Type 0 where
  pub ciphertext : Str
  pub version : ℕ
  pub source_key_id : Str
  pub dest_key_id : Str

-- isSymmetricKeyType
unfoldable pub is_symmetric_key_type : Str → Bool
is_symmetric_key_type t = str_eq t [] || str_eq t (codes "aes") || str_eq t (codes "sm4")

-- subtleEqual, after the test of the lengths.
unfoldable pub subtle_equal : Str → Str → Bool
subtle_equal [] [] = true
subtle_equal [] (y ∷ b) = false
subtle_equal (x ∷ a) [] = false
subtle_equal (x ∷ a) (y ∷ b) = if x == y then subtle_equal a b else false

-- The bytes of `→`.
abbrev arrow : Str
arrow = 0xe2 ∷ 0x86 ∷ 0x92 ∷ []

abbrev pub of_format : {A : Type 0} → Format.Result A → Reply A
of_format (Format.ok a) = ok a
of_format (Format.err e) = err (of_crypto e)

-- What a closure does with the unwrapped DEK; an alert is raised where the KEK cannot unwrap it.
abbrev pub on_dek :
    {S A : Type 0} → Str → KeyMetadata → (Str → Reply A) → Core S → Kek → Core S × Reply A
on_dek key_id meta use_dek c kek = elim (kek.unwrap_dek meta.encrypted_material) [
  | none ↦ (record c { alerts = c.alerts ++ key_id ∷ [] }, err unwrap_failed)
  | some dek ↦ (c, use_dek dek)
]

-- KEKRef with a closure that leaves the manager alone.
abbrev pub on_kek :
    {S A : Type 0}
    → (Str → Option Str → Kek)
    → Core S
    → (Core S → Kek → Core S × Reply A)
    → Core S × Reply A
on_kek kek_of c action = elim (kek_ref c.vault (λ key suite. action c (kek_of key suite))) [
  | inl r ↦ r
  | inr e ↦ (c, err (of_vault e))
]

-- `nonce` is what GenerateSecureRandom gives for a nonce.
module _ {S : Type 0} (kv : KvStore S) (codec : Codec) (scan_fuel now : ℕ) (ctx : Option Policy)
    (kek_of : Str → Option Str → Kek) (gcm : Gcm) (nonce : Option Str) where
  abbrev pub sealed_with : KeyMetadata → Str → Str → Reply EncryptResult
  sealed_with meta plain dek =
      elim (encrypt_versioned gcm dek nonce (safe_uint32 meta.version) plain) [
        | Format.err e ↦ err (of_crypto e)
        | Format.ok raw ↦ ok (record { ciphertext = raw; version = meta.version })
      ]

  abbrev pub opened_with : Str → Str → Reply DecryptResult
  opened_with raw dek = elim (decrypt_versioned gcm dek raw) [
    | Format.err e ↦ err (of_crypto e)
    | Format.ok (plain, version) ↦ ok (record { plaintext = plain; version = version })
  ]

  -- Encrypt
  unfoldable pub encrypt : Str → Str → Option Policy → Core S → Core S × Reply EncryptResult
  unfolding after_guard require_unsealed authorize audited audited_then
  encrypt key_id plain policy = reading policy (codes "Encrypt") key_id λ c.
      audited_then now ctx (codes "Encrypt") key_id
        (on_manager (get_active_key kv codec scan_fuel now key_id) c)
        λ c meta.
          audited now ctx (codes "Encrypt") key_id
            (on_kek kek_of c (on_dek key_id meta (sealed_with meta plain)))

  -- What Decrypt does once the version is read from the ciphertext.
  abbrev pub decrypt_version : Str → Str → ℕ → Core S → Core S × Reply DecryptResult
  decrypt_version key_id raw version c =
      audited_then now ctx (codes "Decrypt") key_id
        (on_manager (get_key_for_decrypt kv codec now key_id version) c)
        λ c meta.
          audited now ctx (codes "Decrypt") key_id
            (on_kek kek_of c (on_dek key_id meta (opened_with raw)))

  -- Decrypt
  unfoldable pub decrypt : Str → Str → Option Policy → Core S → Core S × Reply DecryptResult
  unfolding after_guard require_unsealed authorize audited audited_then
  decrypt key_id raw policy = reading policy (codes "Decrypt") key_id λ c.
      if ltb (length raw) min_ciphertext_size
      then (c, err ciphertext_too_short)
      else elim (decode_versioned_ciphertext raw) [
        | Format.err e ↦ (c, err (of_crypto e))
        | Format.ok t ↦ decrypt_version key_id raw t.0 c
      ]

  -- ReEncrypt, after the guards: what fails is recorded once more under the key it fails for.
  abbrev reencrypted :
      Str → Str → Option Policy → Core S × Reply DecryptResult → Core S × Reply ReEncryptResult
  reencrypted source dest policy (c, err e) =
      (record_audit now ctx c (codes "ReEncrypt") source (codes "error"), err e)
  reencrypted source dest policy (c, ok dec) =
      reencrypted_to source dest (encrypt dest dec.plaintext policy c)
    where
      reencrypted_to : Str → Str → Core S × Reply EncryptResult → Core S × Reply ReEncryptResult
      reencrypted_to source dest (c, err e) =
          (record_audit now ctx c (codes "ReEncrypt") dest (codes "error"), err e)
      reencrypted_to source dest (c, ok enc) = (
        record_audit now ctx c (codes "ReEncrypt") (source ++ arrow ++ dest) (codes "success"),
        ok (record {
          ciphertext = enc.ciphertext;
          version = enc.version;
          source_key_id = source;
          dest_key_id = dest;
        }),
      )

  -- ReEncrypt
  unfoldable pub re_encrypt :
      Str → Str → Str → Option Policy → Core S → Core S × Reply ReEncryptResult
  unfolding after_guard require_unsealed authorize decrypt encrypt
  re_encrypt source raw dest policy = reading policy (codes "Decrypt") source λ c.
      after_guard (authorize policy (codes "Encrypt") dest) c
        λ c. reencrypted source dest policy (decrypt source raw policy c)

  -- GenerateDataKey; the plain key of the result is what WriteBase64To writes.
  unfoldable pub generate_data_key :
      (ℕ → Option Str) → Str → Option Policy → Core S → Core S × Reply (Str × Str)
  unfolding after_guard require_unsealed authorize audited with_kek_ref
  generate_data_key random key_id policy = reading policy (codes "KeyOp") key_id λ c.
      audited now ctx (codes "GenerateDataKey") key_id (
        with_kek_ref kek_of c (λ kek.
          Operations.generate_data_key kv codec gcm scan_fuel now random nonce (some kek) key_id))

  -- GenerateDataKeyWithoutPlaintext
  unfoldable pub generate_data_key_without_plaintext :
      (ℕ → Option Str) → Str → Option Policy → Core S → Core S × Reply Str
  unfolding after_guard require_unsealed authorize audited with_kek_ref
  generate_data_key_without_plaintext random key_id policy =
      reading policy (codes "KeyOp") key_id λ c.
        audited now ctx (codes "GenerateDataKeyWithoutPlaintext") key_id (
          mapped (λ pair. ok pair.1)
            (with_kek_ref kek_of c (λ kek.
              Operations.generate_data_key kv codec gcm scan_fuel now random nonce (some kek)
                key_id)))

  module _ (hmac : Str → Str → Str) where
    -- GenerateMac: no alert is raised where the KEK cannot unwrap the key.
    abbrev mac_with : Core S → KeyMetadata → Str → Kek → Core S × Reply MacResult
    mac_with c meta message kek = elim (kek.unwrap_dek meta.encrypted_material) [
      | none ↦ (c, err unwrap_failed)
      | some key ↦ (c, ok (record { mac = hmac key message; version = meta.version }))
    ]

    unfoldable pub generate_mac : Str → Str → Option Policy → Core S → Core S × Reply MacResult
    unfolding after_guard require_unsealed authorize audited audited_then
    generate_mac key_id message policy = reading policy (codes "GenerateMac") key_id λ c.
        audited_then now ctx (codes "GenerateMac") key_id
          (on_manager (get_active_key kv codec scan_fuel now key_id) c)
          λ c meta. audited now ctx (codes "GenerateMac") key_id (
            if not (is_symmetric_key_type meta.key_type)
            then (c, err wrong_key_type)
            else on_kek kek_of c (λ c kek. mac_with c meta message kek))

    abbrev pub compared : Str → Str → Core S × Reply MacResult → Core S × Reply VerifyResult
    compared key_id expected (c, err e) = (c, err e)
    compared key_id expected (c, ok r) = (
      record_audit now ctx c (codes "VerifyMac") key_id (codes "success"),
      ok (record {
        valid = (length r.mac == length expected) && subtle_equal r.mac expected;
        version = r.version;
      }),
    )

    -- VerifyMac, under the permission of GenerateMac.
    unfoldable pub verify_mac :
        Str → Str → Str → Option Policy → Core S → Core S × Reply VerifyResult
    unfolding generate_mac subtle_equal
    verify_mac key_id message expected policy c =
        compared key_id expected (generate_mac key_id message policy c)

-- ===== src/Service/Core/RoundTrip.antt =====
-- Encrypt, RotateKey and Decrypt of internal/service/core.go one after the other.
use yvonne.Base.{
  ℕ, ◌+◌, Str, codes, Bool, false, Option, none, some, inl, inr, ◌≡◌, refl, ◌∙◌, arith, length,
  take, drop, ltb, Bool-cases,
}
use yvonne.Storage.Interface.{KvStore}
use yvonne.Crypto.Versioned.Format
use yvonne.Crypto.Versioned.Format.{
  Gcm, nonce_size, encrypt_versioned, decrypt_versioned, decode_versioned_ciphertext,
  min_ciphertext_size,
}
use yvonne.Seal.Vault.Machine.{Vault, unsealed, is_sealed}
use yvonne.Seal.Vault.Unsealing.{kek_ref-unsealed}
use yvonne.Auth.Policy.Defs.{Policy}
use yvonne.Lifecycle.Metadata.{KeyMetadata, Codec, Kek}
use yvonne.Lifecycle.Result
use yvonne.Lifecycle.Manager.Defs.{Manager}
use yvonne.Lifecycle.Manager.Operations.{get_active_key, get_key_for_decrypt}
use yvonne.Service.Core.Defs.{
  Core, Reply, ok, require_unsealed, require_writable, authorize, after_guard, reading, writing,
  audited, audited_then, record_audit,
}
use yvonne.Service.Core.Data
use yvonne.Service.Core.Data.{
  EncryptResult, DecryptResult, sealed_with, opened_with, on_dek, on_kek,
}

-- The vault runs, and has the key.
abbrev pub IsOpen : Str → Vault → Type 0
IsOpen key v = (v.emergency ≡ false) × (v.state ≡ unsealed) × (v.master_key ≡ some key)

IsOpen-unsealed : (key : Str) (v : Vault) → IsOpen key v → require_unsealed v ≡ none
unfolding require_unsealed is_sealed
IsOpen-unsealed key v h = ground (arith, h.0, h.1)

module _ {S A : Type 0} (policy : Option Policy) (action key_id key : Str)
    (go : Core S → Core S × Reply A) (c : Core S) (h : IsOpen key c.vault)
    (allowed : authorize policy action key_id ≡ none) where
  pub reading-allowed : reading policy action key_id go c ≡ go c
  unfolding after_guard
  reading-allowed = rw (IsOpen-unsealed key c.vault h, allowed) refl

  pub writing-allowed :
      (healthy : Option Bool)
      → require_writable healthy ≡ none
      → writing healthy policy action key_id go c ≡ go c
  unfolding after_guard
  writing-allowed healthy works = rw (IsOpen-unsealed key c.vault h, works, allowed) refl

module _ {S : Type 0} (now : ℕ) (ctx : Option Policy) (c : Core S)
    (action key_id status : Str) where
  pub vault-record_audit : (record_audit now ctx c action key_id status).vault ≡ c.vault
  unfolding record_audit
  vault-record_audit = ground arith

  pub manager-record_audit : (record_audit now ctx c action key_id status).manager ≡ c.manager
  unfolding record_audit
  manager-record_audit = ground arith

module _ {S : Type 0} (now : ℕ) (ctx : Option Policy) (key_id : Str) (c : Core S) (action : Str)
    (m : Manager S) where
  -- The core after an operation that left the manager as `m` and was recorded as a success.
  abbrev pub recorded : Core S
  recorded = record_audit now ctx (record c { manager = m }) action key_id (codes "success")

  pub vault-recorded : recorded.vault ≡ c.vault
  vault-recorded =
      vault-record_audit now ctx (record c { manager = m }) action key_id (codes "success")

  pub manager-recorded : recorded.manager ≡ m
  manager-recorded =
      manager-record_audit now ctx (record c { manager = m }) action key_id (codes "success")

module _ {S : Type 0} (kv : KvStore S) (codec : Codec) (scan_fuel now : ℕ) (ctx : Option Policy)
    (kek_of : Str → Option Str → Kek) (gcm : Gcm) (nonce : Str) (policy : Option Policy)
    (key_id key : Str) where
  -- What can be decrypted can be read.
  readable :
      (dek raw plain : Str) (version : ℕ)
      → decrypt_versioned gcm dek raw ≡ Format.ok (plain, version)
      → (ltb (length raw) min_ciphertext_size ≡ false)
        × (t : ℕ × Str × Str) × (decode_versioned_ciphertext raw ≡ Format.ok t)
        × (t.0 ≡ version)
  unfolding decrypt_versioned decode_versioned_ciphertext
  readable dek raw plain version h = elim (Bool-cases (ltb (length raw) min_ciphertext_size)) [
    | inl short ↦ absurd (ground arith)
    | inr long ↦ (
      long,
      (
        Format.uint32 raw,
        take nonce_size (drop Format.version_prefix_size raw),
        drop (Format.version_prefix_size + nonce_size) raw,
      ),
      rw (decode_versioned_ciphertext, long) refl,
      ground arith,
    )
  ]

  on_kek-open :
      {A : Type 0} (c : Core S) (action : Core S → Kek → Core S × Reply A)
      → IsOpen key c.vault
      → on_kek kek_of c action ≡ action c (kek_of key c.vault.crypto_suite)
  on_kek-open c action h =
      rw (on_kek, kek_ref-unsealed c.vault key (λ key suite. action c (kek_of key suite)) h.1 h.2)
        refl

  module _ (c : Core S) (h : IsOpen key c.vault) where
    abbrev kek : Kek
    kek = kek_of key c.vault.crypto_suite

    pub encrypt_ok :
        (m : Manager S) (meta : KeyMetadata) (dek plain raw : Str)
        → authorize policy (codes "Encrypt") key_id ≡ none
        → get_active_key kv codec scan_fuel now key_id c.manager ≡ (m, Result.ok meta)
        → kek.unwrap_dek meta.encrypted_material ≡ some dek
        → encrypt_versioned gcm dek (some nonce) (Format.safe_uint32 meta.version) plain
          ≡ Format.ok raw
        → Data.encrypt kv codec scan_fuel now ctx kek_of gcm (some nonce) key_id plain policy c ≡ (
          recorded now ctx key_id c (codes "Encrypt") m,
          ok (record { ciphertext = raw; version = meta.version }),
        )
    unfolding Data.encrypt audited_then audited
    encrypt_ok m meta dek plain raw allowed found unwraps sealed =
        reading-allowed policy (codes "Encrypt") key_id key _ c h allowed
        ∙ rw
            (
              found,
              on_kek-open (record c { manager = m })
                  (on_dek key_id meta
                    (sealed_with kv codec scan_fuel now ctx kek_of gcm (some nonce) meta plain))
                  h,
              on_dek,
              unwraps,
              sealed_with,
              sealed,
            )
            refl

    pub decrypt_ok :
        (m : Manager S) (meta : KeyMetadata) (dek plain raw : Str) (version : ℕ)
        → authorize policy (codes "Decrypt") key_id ≡ none
        → decrypt_versioned gcm dek raw ≡ Format.ok (plain, version)
        → get_key_for_decrypt kv codec now key_id version c.manager ≡ (m, Result.ok meta)
        → kek.unwrap_dek meta.encrypted_material ≡ some dek
        → Data.decrypt kv codec scan_fuel now ctx kek_of gcm (some nonce) key_id raw policy c ≡ (
          recorded now ctx key_id c (codes "Decrypt") m,
          ok (record { plaintext = plain; version = version }),
        )
    unfolding Data.decrypt audited_then audited
    decrypt_ok m meta dek plain raw version allowed opened found unwraps =
        let (long, t, decoded, same) = readable dek raw plain version opened in
        reading-allowed policy (codes "Decrypt") key_id key _ c h allowed
        ∙ rw
            (
              long,
              decoded,
              same,
              Data.decrypt_version,
              found,
              on_kek-open (record c { manager = m })
                  (on_dek key_id meta
                    (opened_with kv codec scan_fuel now ctx kek_of gcm (some nonce) raw))
                  h,
              on_dek,
              unwraps,
              opened_with,
              opened,
            )
            refl

-- ===== src/Service/Core/Surviving.antt =====
-- A ciphertext of internal/service/core.go survives the rotation of its key.
use yvonne.Base.{
  ℕ, ◌+◌, ◌^◌, ◌<◌, Str, codes, Bool, Option, none, some, [], ◌≡◌, ◌≢◌, refl, ap, sym, ◌∙◌, subst,
  arith, length,
}
use yvonne.Storage.Interface.{KvStore}
use yvonne.Crypto.Versioned.Format
use yvonne.Crypto.Versioned.Format.{Gcm, nonce_size, safe_uint32}
use yvonne.Crypto.Versioned.RoundTrip.{decrypt-encrypt}
use yvonne.Seal.Vault.Unsealing.{kek_ref-unsealed}
use yvonne.Auth.Policy.Defs.{Policy}
use yvonne.Lifecycle.Metadata.{KeyMetadata, Codec, Kek, active, deactivated, dek_size_from_kek}
use yvonne.Lifecycle.Result
use yvonne.Lifecycle.Manager.Defs.{Manager, find_latest_version, load_metadata, load_from_store}
use yvonne.Lifecycle.Manager.Operations
use yvonne.Lifecycle.Manager.Operations.{get_active_key, get_key_for_decrypt}
use yvonne.Lifecycle.Manager.Stored.{meta_at}
use yvonne.Lifecycle.Manager.Loading.{IsUncached, get_active_key-stored}
use yvonne.Lifecycle.Manager.Rotation.{Reliable}
use yvonne.Lifecycle.Manager.RotateKey.{rotate_key_lem, rotated_manager}
use yvonne.Service.Core.Defs.{Core, ok, require_writable, authorize, audited, with_kek_ref}
use yvonne.Service.Core.Keys
use yvonne.Service.Core.Keys.{RotateKeyResult}
use yvonne.Service.Core.Data
use yvonne.Service.Core.Data.{EncryptResult, DecryptResult}
use yvonne.Service.Core.RoundTrip.{
  IsOpen, writing-allowed, vault-recorded, manager-recorded, recorded, encrypt_ok, decrypt_ok,
}

pub safe_uint32-small : (v : ℕ) → v < 2 ^ 32 → safe_uint32 v ≡ v
unfolding safe_uint32
safe_uint32-small v h = ground arith

module _ {S : Type 0} (kv : KvStore S) (codec : Codec) (scan_fuel now : ℕ) (key_id : Str)
    (m : Manager S) where
  -- Reading a key leaves the store as it is.
  pub store-get_active_key : (get_active_key kv codec scan_fuel now key_id m).0.store ≡ m.store
  unfolding get_active_key load_metadata load_from_store
  store-get_active_key = ground arith

module _ {S : Type 0} (kv : KvStore S) (codec : Codec) (scan_fuel now : ℕ) (ctx : Option Policy)
    (kek_of : Str → Option Str → Kek) (healthy : Option Bool) (random : ℕ → Option Str) (gcm : Gcm)
    (nonce : Str) (policy : Option Policy) (key_id key : Str) where
  rotate_ok :
      (c : Core S) (m : Manager S) (meta : KeyMetadata) (fresh : Str)
      → IsOpen key c.vault
      → require_writable healthy ≡ none
      → authorize policy (codes "KeyOp") key_id ≡ none
      → Operations.rotate_key kv codec scan_fuel now random
          (some (kek_of key c.vault.crypto_suite))
          key_id
          c.manager
        ≡ (m, Result.ok (meta, fresh))
      → Keys.rotate_key kv codec scan_fuel now ctx kek_of healthy random key_id policy c ≡ (
        recorded now ctx key_id c (codes "RotateKey") m,
        ok (record { key_id = meta.key_id; new_version = meta.version; plaintext_dek = fresh }),
      )
  unfolding Keys.rotate_key with_kek_ref audited
  rotate_ok c m meta fresh h works allowed done =
      writing-allowed policy (codes "KeyOp") key_id key _ c h allowed healthy works
      ∙ rw
          (
            with_kek_ref,
            kek_ref-unsealed c.vault key
                (λ k suite.
                  Operations.rotate_key kv codec scan_fuel now random (some (kek_of k suite)) key_id
                    c.manager)
                h.1 h.2,
            done,
          )
          refl

  module _ (c : Core S) (h : IsOpen key c.vault) where
    abbrev kek_in : Kek
    kek_in = kek_of key c.vault.crypto_suite

    abbrev rotated_by : ℕ → KeyMetadata → Str → Manager S
    rotated_by latest old wrapped =
        rotated_manager kv codec scan_fuel now random kek_in key_id c.manager latest old wrapped

    rotation :
        (latest : ℕ) (old : KeyMetadata) (fresh wrapped : Str)
        → require_writable healthy ≡ none
        → authorize policy (codes "KeyOp") key_id ≡ none
        → key_id ≢ []
        → Reliable kv
        → find_latest_version kv scan_fuel c.manager.store key_id ≡ Result.ok latest
        → meta_at kv codec c.manager.store key_id latest ≡ some old
        → old.state ≡ active
        → random (dek_size_from_kek kek_in) ≡ some fresh
        → kek_in.wrap_dek fresh ≡ some wrapped
        → (Keys.rotate_key kv codec scan_fuel now ctx kek_of healthy random key_id policy c ≡ (
          recorded now ctx key_id c (codes "RotateKey") (rotated_by latest old wrapped),
          ok (record { key_id = key_id; new_version = latest + 1; plaintext_dek = fresh }),
        ))
          × ((get_key_for_decrypt kv codec now key_id latest (rotated_by latest old wrapped)).1
              ≡ Result.ok (record old { state = deactivated }))
    rotation latest old fresh wrapped works allowed named reliable found held live drawn wraps =
        let steps =
          rotate_key_lem kv codec scan_fuel now random kek_in key_id c.manager latest old wrapped
            fresh named reliable found held live drawn wraps in
        (rotate_ok c _ _ fresh h works allowed steps.0, steps.4 now)

    decryption :
        (meta : KeyMetadata) (dek plain raw : Str) (version : ℕ)
        → authorize policy (codes "Decrypt") key_id ≡ none
        → Format.decrypt_versioned gcm dek raw ≡ Format.ok (plain, version)
        → (get_key_for_decrypt kv codec now key_id version c.manager).1 ≡ Result.ok meta
        → kek_in.unwrap_dek meta.encrypted_material ≡ some dek
        → (Data.decrypt kv codec scan_fuel now ctx kek_of gcm (some nonce) key_id raw policy c).1
          ≡ ok (record { plaintext = plain; version = version })
    decryption meta dek plain raw version allowed opened found unwraps =
        let m = (get_key_for_decrypt kv codec now key_id version c.manager).0 in
        ap (λ r. r.1)
          (decrypt_ok kv codec scan_fuel now ctx kek_of gcm nonce policy key_id key c h m meta dek
            plain raw version allowed opened (ap (λ r. (m, r)) found) unwraps)

  module _ (c : Core S) (latest : ℕ) (old : KeyMetadata) (dek plain fresh wrapped : Str) where
    abbrev kek : Kek
    kek = kek_of key c.vault.crypto_suite

    -- The manager and the core after Encrypt.
    abbrev read_manager : Manager S
    read_manager = (get_active_key kv codec scan_fuel now key_id c.manager).0

    abbrev pub encrypted : Core S
    encrypted =
        (Data.encrypt kv codec scan_fuel now ctx kek_of gcm (some nonce) key_id plain policy c).0

    abbrev pub rotated : Core S
    rotated =
        (Keys.rotate_key kv codec scan_fuel now ctx kek_of healthy random key_id policy encrypted).0

    -- An Encrypt with the latest version of a key, a RotateKey and a Decrypt, with a policy that allows
    -- them, on an open vault and a healthy store whose Puts succeed: all three succeed, the rotation
    -- moves the key to its next version, and Decrypt gives the plain text and the version that it was
    -- encrypted with. The version is Active, was not in the cache before, fits into 32 bits, and holds a
    -- 32-byte DEK; the nonce has 12 bytes, and the KEK unwraps that DEK and wraps the new one.
    pub decrypt-rotate-encrypt :
        IsOpen key c.vault
        → require_writable healthy ≡ none
        → authorize policy (codes "Encrypt") key_id ≡ none
        → authorize policy (codes "KeyOp") key_id ≡ none
        → authorize policy (codes "Decrypt") key_id ≡ none
        → key_id ≢ []
        → Reliable kv
        → IsUncached c.manager.cache now key_id latest
        → find_latest_version kv scan_fuel c.manager.store key_id ≡ Result.ok latest
        → meta_at kv codec c.manager.store key_id latest ≡ some old
        → old.state ≡ active
        → old.version ≡ latest
        → latest < 2 ^ 32
        → length dek ≡ 32
        → length nonce ≡ nonce_size
        → kek.unwrap_dek old.encrypted_material ≡ some dek
        → random (dek_size_from_kek kek) ≡ some fresh
        → kek.wrap_dek fresh ≡ some wrapped
        → (raw : Str) × ((Data.encrypt kv codec scan_fuel now ctx kek_of gcm
              (some nonce)
              key_id
              plain
              policy
              c).1
            ≡ ok (record { ciphertext = raw; version = latest }))
          × ((Keys.rotate_key kv codec scan_fuel now ctx kek_of healthy random key_id policy
                encrypted).1
              ≡ ok (record { key_id = key_id; new_version = latest + 1; plaintext_dek = fresh }))
          × ((Data.decrypt kv codec scan_fuel now ctx kek_of gcm
                (some nonce)
                key_id
                raw
                policy
                rotated).1
              ≡ ok (record { plaintext = plain; version = latest }))
    decrypt-rotate-encrypt h works may_encrypt may_rotate may_decrypt named reliable uncached found
          held live same small dek_size nonce_length unwraps drawn wraps =
        let (raw, sealed, opened, extracted) =
          decrypt-encrypt gcm dek nonce latest plain dek_size nonce_length small in
        let read : get_active_key kv codec scan_fuel now key_id c.manager
            ≡ (read_manager, Result.ok old) =
          ap (λ r. (read_manager, r))
            (get_active_key-stored kv codec now key_id latest c.manager uncached scan_fuel old found
              held live) in
        let version : safe_uint32 old.version ≡ latest =
          ap safe_uint32 same ∙ safe_uint32-small latest small in
        let first =
          encrypt_ok kv codec scan_fuel now ctx kek_of gcm nonce policy key_id key c h read_manager
            old dek plain raw may_encrypt read unwraps
            (ap (λ w. Format.encrypt_versioned gcm dek (some nonce) w plain) version ∙ sealed) in
        let c1 = recorded now ctx key_id c (codes "Encrypt") read_manager in
        let v1 : c1.vault ≡ c.vault =
          vault-recorded now ctx key_id c (codes "Encrypt") read_manager in
        let m1 : c1.manager.store ≡ c.manager.store =
          ap (λ m. m.store) (manager-recorded now ctx key_id c (codes "Encrypt") read_manager)
          ∙ store-get_active_key kv codec scan_fuel now key_id c.manager in
        let second =
          rotation c1 (subst (IsOpen key) (sym v1) h) latest old fresh wrapped works may_rotate
            named reliable (ap (λ s. find_latest_version kv scan_fuel s key_id) m1 ∙ found)
            (ap (λ s. meta_at kv codec s key_id latest) m1 ∙ held) live
            (ap (λ v. random (dek_size_from_kek (kek_of key v.crypto_suite))) v1 ∙ drawn)
            (ap (λ v. (kek_of key v.crypto_suite).wrap_dek fresh) v1 ∙ wraps) in
        let m2 = rotated_by c1 (subst (IsOpen key) (sym v1) h) latest old wrapped in
        let c2 = recorded now ctx key_id c1 (codes "RotateKey") m2 in
        let v2 : c2.vault ≡ c.vault =
          vault-recorded now ctx key_id c1 (codes "RotateKey") m2 ∙ v1 in
        let third =
          decryption c2 (subst (IsOpen key) (sym v2) h) (record old { state = deactivated }) dek
            plain raw latest may_decrypt opened
            (ap (λ m. (get_key_for_decrypt kv codec now key_id latest m).1)
                (manager-recorded now ctx key_id c1 (codes "RotateKey") m2)
              ∙ second.1)
            (ap (λ v. (kek_of key v.crypto_suite).unwrap_dek old.encrypted_material) v2
              ∙ unwraps) in
        let start : encrypted ≡ c1 = ap (λ r. r.0) first in
        let next : Keys.rotate_key kv codec scan_fuel now ctx kek_of healthy random key_id policy
              encrypted
            ≡ (
              c2,
              ok (record { key_id = key_id; new_version = latest + 1; plaintext_dek = fresh }),
            ) =
          ap (Keys.rotate_key kv codec scan_fuel now ctx kek_of healthy random key_id policy) start
          ∙ second.0 in
        (
          raw,
          ap (λ r. r.1) first ∙ ap (λ w. ok (record { ciphertext = raw; version = w })) same,
          ap (λ r. r.1) next,
          ap
                (λ r.
                  (Data.decrypt kv codec scan_fuel now ctx kek_of gcm (some nonce) key_id raw policy
                    r.0).1)
                next
              ∙ third,
        )

-- ===== src/Service/Core/Keys.antt =====
-- internal/service/core.go and core_v12.go: the operations on the versions of a key.
use yvonne.Base.{ℕ, Str, codes, str_eq, [], Bool, Option, none, some, if◌then◌else◌}
use yvonne.Storage.Interface.{KvStore}
use yvonne.Auth.Policy.Defs.{Policy}
use yvonne.Lifecycle.Metadata.{KeyMetadata, Codec, Kek}
use yvonne.Lifecycle.Manager.Operations
use yvonne.Lifecycle.Manager.Operations.{get_active_key}
use yvonne.Service.Core.Defs.{
  Core, Reply, ok, err, no_public_key, require_unsealed, require_writable, authorize, after_guard,
  with_kek_ref, audited, audited_then, writing, reading, on_manager, mapped,
}

-- CreateKeyResult; `plaintext_dek` is none where it has been wiped.
pub record CreateKeyResult : Type 0 where
  pub key_id : Str
  pub version : ℕ
  pub plaintext_dek : Option Str

pub record RotateKeyResult : Type 0 where
  pub key_id : Str
  pub new_version : ℕ
  pub plaintext_dek : Str

abbrev pub created : Bool → KeyMetadata × Str → Reply CreateKeyResult
created return_dek (meta, plain) = ok (record {
  key_id = meta.key_id;
  version = meta.version;
  plaintext_dek = (if return_dek then some plain else none);
})

abbrev pub rotated : KeyMetadata × Str → Reply RotateKeyResult
rotated (meta, plain) =
    ok (record { key_id = meta.key_id; new_version = meta.version; plaintext_dek = plain })

-- `healthy` is the store's IsHealthy, `none` where it has none; `random` is the random source.
module _ {S : Type 0} (kv : KvStore S) (codec : Codec) (scan_fuel now : ℕ) (ctx : Option Policy)
    (kek_of : Str → Option Str → Kek) (healthy : Option Bool) (random : ℕ → Option Str) where
  -- CreateKey; `count` is countKeys on the store.
  unfoldable pub create_key :
      (S → ℕ) → Str → ℕ → Bool → Option Policy → Core S → Core S × Reply CreateKeyResult
  unfolding after_guard require_unsealed require_writable authorize with_kek_ref audited
  create_key count key_id days return_dek policy =
      writing healthy policy (codes "CreateKey") key_id λ c.
        audited now ctx (codes "CreateKey") key_id (
          mapped (created return_dek) (
            with_kek_ref kek_of c
              (λ kek. Operations.create_key kv codec count now random (some kek) key_id days)))

  -- RotateKey
  unfoldable pub rotate_key : Str → Option Policy → Core S → Core S × Reply RotateKeyResult
  unfolding after_guard require_unsealed require_writable authorize with_kek_ref audited
  rotate_key key_id policy = writing healthy policy (codes "KeyOp") key_id λ c.
      audited now ctx (codes "RotateKey") key_id (
        mapped rotated (
          with_kek_ref kek_of c
            (λ kek. Operations.rotate_key kv codec scan_fuel now random (some kek) key_id)))

  -- ShredKey
  unfoldable pub shred_key : Str → ℕ → Option Policy → Core S → Core S × Reply (Unit {0})
  unfolding after_guard require_unsealed require_writable authorize audited
  shred_key key_id version policy = writing healthy policy (codes "KeyOp") key_id λ c.
      audited now ctx (codes "ShredKey") key_id
        (on_manager (Operations.shred_key kv codec key_id version) c)

  -- SoftDeleteKey
  unfoldable pub soft_delete_key : Str → ℕ → Option Policy → Core S → Core S × Reply (Unit {0})
  unfolding after_guard require_unsealed require_writable authorize audited
  soft_delete_key key_id version policy = writing healthy policy (codes "KeyOp") key_id λ c.
      audited now ctx (codes "SoftDeleteKey") key_id
        (on_manager (Operations.soft_delete_key kv codec now key_id version) c)

  -- RestoreKey
  unfoldable pub restore_key : Str → ℕ → Option Policy → Core S → Core S × Reply (Unit {0})
  unfolding after_guard require_unsealed require_writable authorize audited
  restore_key key_id version policy = writing healthy policy (codes "KeyOp") key_id λ c.
      audited now ctx (codes "RestoreKey") key_id
        (on_manager (Operations.restore_key kv codec key_id version) c)

  -- DisableKey: the active version is soft deleted.
  unfoldable pub disable_key : Str → Option Policy → Core S → Core S × Reply (Unit {0})
  unfolding after_guard require_unsealed authorize audited audited_then
  disable_key key_id policy = reading policy (codes "KeyOp") key_id λ c.
      audited_then now ctx (codes "DisableKey") key_id
        (on_manager (get_active_key kv codec scan_fuel now key_id) c)
        λ c meta.
          audited now ctx (codes "DisableKey") key_id
            (on_manager (Operations.soft_delete_key kv codec now key_id meta.version) c)

  -- EnableKey, and CancelKeyDeletion.
  unfoldable pub enable_key : Str → ℕ → Option Policy → Core S → Core S × Reply (Unit {0})
  unfolding after_guard require_unsealed authorize audited
  enable_key key_id version policy = reading policy (codes "KeyOp") key_id λ c.
      audited now ctx (codes "EnableKey") key_id
        (on_manager (Operations.restore_key kv codec key_id version) c)

  abbrev public_key_of : Core S → KeyMetadata → Core S × Reply (Str × ℕ)
  public_key_of c meta =
      if str_eq meta.public_key []
      then (c, err no_public_key)
      else (c, ok (meta.public_key, meta.version))

  -- GetPublicKey
  unfoldable pub get_public_key : Str → Option Policy → Core S → Core S × Reply (Str × ℕ)
  unfolding after_guard require_unsealed authorize audited audited_then
  get_public_key key_id policy = reading policy (codes "KeyOp") key_id λ c.
      audited_then now ctx (codes "GetPublicKey") key_id
        (on_manager (get_active_key kv codec scan_fuel now key_id) c)
        λ c meta. audited now ctx (codes "GetPublicKey") key_id (public_key_of c meta)

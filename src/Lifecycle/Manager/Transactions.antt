-- ===== src/Lifecycle/Manager/Transactions.antt =====
-- internal/lifecycle/manager.go: the callbacks that RotateKey, ShredKey, SoftDeleteKey and
-- RestoreKey run inside WithTx. `now` is the clock's reading, `random n` what
-- NewSecureBufferFromRandom(n) returns.
use yvonne.Base.{
  ℕ, ◌+◌, ◌*◌, Str, decimal, Bool, true, false, Option, none, some, [], ltb, if◌then◌else◌,
}
use yvonne.Storage.Interface.{KvStore}
use yvonne.Lifecycle.Metadata.{
  KeyState, active, deactivated, soft_deleted, destroyed, KeyMetadata, Codec, Kek,
  dek_size_from_kek, day,
}
use yvonne.Lifecycle.Keys.{metadata_key, latest_version_metadata_key}
use yvonne.Lifecycle.Result.{
  ok, err, Tx, ◌>>=◌, ◌>>◌, pure, fail, require, of_put, not_found, bad_metadata, key_destroyed,
  not_active, random_failed, wrap_failed,
}
use yvonne.Lifecycle.Manager.Defs.{find_latest_version}

-- `now.Add(days * 24h)` where the period is positive, else the zero time.
abbrev pub next_rotation : ℕ → ℕ → Option ℕ
next_rotation now days = if ltb 0 days then some (now + days * day) else none

-- `meta.State != StateActive`
abbrev pub require_active : {S : Type 0} → KeyState → Tx S (Unit {0})
require_active active = pure tt
require_active st = fail (not_active st)

-- The metadata that RotateKey writes for the new version.
abbrev pub rotated_metadata : ℕ → Kek → Str → ℕ → ℕ → Str → KeyMetadata
rotated_metadata now kek key_id version days wrapped = record {
  key_id = key_id;
  version = version;
  state = active;
  key_type = [];
  algorithm = [];
  key_usage = [];
  encrypted_material = wrapped;
  kek_type = kek.kek_type;
  public_key = [];
  created_at = now;
  deleted_at = none;
  rotation_period_days = days;
  next_rotation_at = next_rotation now days;
}

module _ {S : Type 0} (kv : KvStore S) (codec : Codec) where
  -- GetForUpdate and json.Unmarshal of a version's metadata.
  abbrev pub lock_metadata : Str → ℕ → Tx S KeyMetadata
  lock_metadata key_id version s = elim (kv.get s (metadata_key key_id version)) [
    | none ↦ (s, err not_found)
    | some data' ↦ require (codec.unmarshal data') bad_metadata s
  ]

  -- json.Marshal and Put of a version's metadata.
  abbrev pub put_metadata : Str → ℕ → KeyMetadata → Tx S (Unit {0})
  put_metadata key_id version meta s =
      let (s', e) = kv.put s (metadata_key key_id version) (codec.marshal meta) in (s', of_put e)

  -- Put of the latest version's index, whose error is dropped.
  abbrev pub put_latest : Str → ℕ → Tx S (Unit {0})
  put_latest key_id version s =
      let (s', e) = kv.put s (latest_version_metadata_key key_id) (decimal version) in (s', ok tt)

  unfoldable pub rotate_tx : ℕ → ℕ → (ℕ → Option Str) → Kek → Str → Tx S (KeyMetadata × Str)
  rotate_tx scan_fuel now random kek key_id = do
    latest ← λ s. (s, find_latest_version kv scan_fuel s key_id)
    old ← lock_metadata key_id latest
    require_active old.state
    put_metadata key_id latest (record old { state = deactivated })
    plain ← require (random (dek_size_from_kek kek)) random_failed
    wrapped ← require (kek.wrap_dek plain) wrap_failed
    let new_meta = rotated_metadata now kek key_id (latest + 1) old.rotation_period_days wrapped
    put_metadata key_id (latest + 1) new_meta
    put_latest key_id (latest + 1)
    pure (new_meta, plain)

  unfoldable pub shred_tx : Str → ℕ → Tx S (Unit {0})
  shred_tx key_id version = do
    meta ← lock_metadata key_id version
    put_metadata key_id version (record meta { encrypted_material = []; state = destroyed })
    λ s. (kv.delete s (metadata_key key_id version), ok tt)

  -- The tests on the state, in the order of SoftDeleteKey.
  abbrev soft_delete_state : ℕ → Str → ℕ → KeyMetadata → KeyState → Tx S (Unit {0})
  soft_delete_state now key_id version meta soft_deleted = pure tt
  soft_delete_state now key_id version meta destroyed = fail key_destroyed
  soft_delete_state now key_id version meta _ =
      put_metadata key_id version (record meta { state = soft_deleted; deleted_at = some now })

  unfoldable pub soft_delete_tx : ℕ → Str → ℕ → Tx S (Unit {0})
  soft_delete_tx now key_id version = do
    meta ← lock_metadata key_id version
    soft_delete_state now key_id version meta meta.state

  -- The tests on the state, in the order of RestoreKey; `true` where the callback ran to its end.
  abbrev restore_state : Str → ℕ → KeyMetadata → KeyState → Tx S Bool
  restore_state key_id version meta soft_deleted = do
    put_metadata key_id version (record meta { state = deactivated; deleted_at = none })
    pure true
  restore_state key_id version meta destroyed = fail key_destroyed
  restore_state key_id version meta _ = pure false

  unfoldable pub restore_tx : Str → ℕ → Tx S Bool
  restore_tx key_id version = do
    meta ← lock_metadata key_id version
    restore_state key_id version meta meta.state

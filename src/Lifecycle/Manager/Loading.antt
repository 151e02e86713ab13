-- ===== src/Lifecycle/Manager/Loading.antt =====
-- loadMetadata, GetActiveKey and GetKeyForDecrypt when the cache knows nothing of the key.
use yvonne.Base.{ℕ, Str, false, none, some, ◌≡◌, ◌≢◌, arith}
use yvonne.Storage.Interface.{KvStore}
use yvonne.Lifecycle.Metadata.{KeyState, KeyMetadata, Codec, active, deactivated, soft_deleted}
use yvonne.Lifecycle.Keys.{metadata_key}
use yvonne.Lifecycle.Cache
use yvonne.Lifecycle.Cache.{DekCache}
use yvonne.Lifecycle.Result.{ok, err, not_found, not_active}
use yvonne.Lifecycle.Manager.Defs.{
  Manager, find_latest_version, load_metadata, notify_cluster, invalidate_cache,
}
use yvonne.Lifecycle.Manager.Operations.{get_active_key, get_key_for_decrypt, invalidate_and_notify}
use yvonne.Lifecycle.Manager.Stored.{meta_at}

-- The cache holds nothing of a version: neither its metadata nor that it is absent.
abbrev pub IsUncached : DekCache → ℕ → Str → ℕ → Type 0
IsUncached cache now key_id version =
    (Cache.get cache (metadata_key key_id version) ≡ none)
    × (Cache.is_negative now cache (metadata_key key_id version) ≡ false)

module _ {S : Type 0} (kv : KvStore S) (codec : Codec) (now : ℕ) (key_id : Str) (version : ℕ)
    (m : Manager S) (u : IsUncached m.cache now key_id version) where
  pub load_metadata-stored :
      (meta : KeyMetadata)
      → meta_at kv codec m.store key_id version ≡ some meta
      → (load_metadata kv codec now m key_id version).1 ≡ ok meta
  unfolding load_metadata meta_at
  load_metadata-stored meta h = ground arith

  pub load_metadata-absent :
      kv.get m.store (metadata_key key_id version) ≡ none
      → (load_metadata kv codec now m key_id version).1 ≡ err not_found
  unfolding load_metadata
  load_metadata-absent h = ground arith

  pub get_active_key-stored :
      (scan_fuel : ℕ) (meta : KeyMetadata)
      → find_latest_version kv scan_fuel m.store key_id ≡ ok version
      → meta_at kv codec m.store key_id version ≡ some meta
      → meta.state ≡ active
      → (get_active_key kv codec scan_fuel now key_id m).1 ≡ ok meta
  unfolding get_active_key
  get_active_key-stored scan_fuel meta found held live =
      ground (arith, load_metadata-stored meta held)

  pub get_active_key-refuses :
      (scan_fuel : ℕ) (meta : KeyMetadata) {st : KeyState}
      → find_latest_version kv scan_fuel m.store key_id ≡ ok version
      → meta_at kv codec m.store key_id version ≡ some meta
      → meta.state ≡ st
      → st ≢ active
      → (get_active_key kv codec scan_fuel now key_id m).1 ≡ err (not_active st)
  unfolding get_active_key
  get_active_key-refuses scan_fuel meta found held e h =
      ground (arith, load_metadata-stored meta held)

  pub get_key_for_decrypt-deactivated :
      (meta : KeyMetadata)
      → meta_at kv codec m.store key_id version ≡ some meta
      → meta.state ≡ deactivated
      → (get_key_for_decrypt kv codec now key_id version m).1 ≡ ok meta
  unfolding get_key_for_decrypt
  get_key_for_decrypt-deactivated meta held e = ground (arith, load_metadata-stored meta held)

  pub get_key_for_decrypt-soft_deleted :
      (meta : KeyMetadata)
      → meta_at kv codec m.store key_id version ≡ some meta
      → meta.state ≡ soft_deleted
      → (get_key_for_decrypt kv codec now key_id version m).1 ≡ ok meta
  unfolding get_key_for_decrypt
  get_key_for_decrypt-soft_deleted meta held e = ground (arith, load_metadata-stored meta held)

  pub get_key_for_decrypt-absent :
      kv.get m.store (metadata_key key_id version) ≡ none
      → (get_key_for_decrypt kv codec now key_id version m).1 ≡ err not_found
  unfolding get_key_for_decrypt
  get_key_for_decrypt-absent gone = ground (arith, load_metadata-absent gone)

module _ {S : Type 0} (kv : KvStore S) (codec : Codec) (key_id : Str) (m : Manager S) where
  pub store-invalidate_and_notify : (invalidate_and_notify kv codec key_id m).store ≡ m.store
  unfolding notify_cluster invalidate_cache
  store-invalidate_and_notify = ground arith

  pub cache-invalidate_and_notify :
      (invalidate_and_notify kv codec key_id m).cache ≡ Cache.invalidate m.cache key_id
  unfolding notify_cluster invalidate_cache
  cache-invalidate_and_notify = ground arith

  -- After the invalidation no version of the key is cached.
  pub invalidated-IsUncached :
      (now version : ℕ)
      → IsUncached (invalidate_and_notify kv codec key_id m).cache now key_id version
  invalidated-IsUncached now version =
      rw cache-invalidate_and_notify (Cache.invalidate_forgets m.cache now key_id version)

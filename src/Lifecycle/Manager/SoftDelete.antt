-- ===== src/Lifecycle/Manager/SoftDelete.antt =====
-- SoftDeleteKey and RestoreKey of internal/lifecycle/manager.go as their callers see them.
use yvonne.Base.{ℕ, Str, true, none, some, ◌≡◌, refl, ap, ◌∙◌, arith, ◌⊎◌}
use yvonne.Storage.Interface.{KvStore}
use yvonne.Lifecycle.Metadata.{KeyMetadata, Codec, active, deactivated, soft_deleted}
use yvonne.Lifecycle.Keys.{metadata_key, metadata_key_nonempty}
use yvonne.Lifecycle.Cache
use yvonne.Lifecycle.Result.{ok, err, not_active}
use yvonne.Lifecycle.Manager.Defs.{Manager, with_tx-ok, load_metadata, find_latest_version}
use yvonne.Lifecycle.Manager.Transactions.{soft_delete_tx, restore_tx}
use yvonne.Lifecycle.Manager.Operations.{
  soft_delete_key, restore_key, get_active_key, get_key_for_decrypt, invalidate_and_notify,
  after_restore,
}
use yvonne.Lifecycle.Manager.Stored.{
  meta_at, after_put, meta_at-after_put_self, IsIndexed, IsIndexed-find, IsIndexed-after_put,
}
use yvonne.Lifecycle.Manager.Loading.{
  get_active_key-refuses, get_key_for_decrypt-deactivated, invalidated-IsUncached,
  store-invalidate_and_notify,
}
use yvonne.Lifecycle.Manager.Rotation.{Reliable}

module _ {S : Type 0} (kv : KvStore S) (codec : Codec) (now : ℕ) (key_id : Str) (version : ℕ)
    (m : Manager S) (old : KeyMetadata) where
  abbrev binned : KeyMetadata
  binned = record old { state = soft_deleted; deleted_at = some now }

  -- The manager after a soft delete that wrote.
  abbrev pub binned_manager : Manager S
  binned_manager = record m { store = after_put kv codec m.store key_id version binned }

  module _ (reliable : Reliable kv) (held : meta_at kv codec m.store key_id version ≡ some old)
      (usable : (old.state ≡ active) ⊎ (old.state ≡ deactivated)) where
    put_binned_ok : (kv.put m.store (metadata_key key_id version) (codec.marshal binned)).1 ≡ none
    put_binned_ok = reliable m.store _ _ (metadata_key_nonempty key_id version)

    soft_delete_steps :
        soft_delete_tx kv codec now key_id version m.store ≡ (binned_manager.store, ok tt)
    unfolding soft_delete_tx meta_at
    soft_delete_steps = ground (arith, put_binned_ok)

    -- SoftDeleteKey leaves the cache as it is: a manager that has cached the latest version as
    -- Active goes on giving it for encryption, from the cache, after the version was soft deleted.
    pub soft_delete_serves_stale :
        (cached : KeyMetadata)
        → IsIndexed kv codec m.store key_id version
        → Cache.get m.cache (metadata_key key_id version) ≡ some cached
        → cached.state ≡ active
        → (soft_delete_key kv codec now key_id version m ≡ (binned_manager, ok tt))
          × ((scan_fuel t : ℕ)
              → (get_active_key kv codec scan_fuel t key_id binned_manager).1 ≡ ok cached)
    unfolding get_active_key load_metadata soft_delete_key
    soft_delete_serves_stale cached index hit live = (
      with_tx-ok kv (soft_delete_tx kv codec now key_id version) m soft_delete_steps,
      λ scan_fuel t. ground (
        arith,
        IsIndexed-find kv codec binned_manager.store key_id scan_fuel version (
            IsIndexed-after_put kv codec m.store key_id version version binned put_binned_ok index),
      ),
    )

  abbrev restored : KeyMetadata
  restored = record old { state = deactivated; deleted_at = none }

  abbrev restored_store : S
  restored_store = after_put kv codec m.store key_id version restored

  -- The manager after a restore that wrote.
  abbrev pub restored_manager : Manager S
  restored_manager = invalidate_and_notify kv codec key_id (record m { store = restored_store })

  module _ (reliable : Reliable kv) (held : meta_at kv codec m.store key_id version ≡ some old)
      (deleted : old.state ≡ soft_deleted) where
    put_restored_ok :
        (kv.put m.store (metadata_key key_id version) (codec.marshal restored)).1 ≡ none
    put_restored_ok = reliable m.store _ _ (metadata_key_nonempty key_id version)

    restore_steps : restore_tx kv codec key_id version m.store ≡ (restored_store, ok true)
    unfolding restore_tx meta_at
    restore_steps = ground (arith, put_restored_ok)

    restored_held : meta_at kv codec restored_manager.store key_id version ≡ some restored
    restored_held =
        ap (λ s. meta_at kv codec s key_id version) (store-invalidate_and_notify kv codec key_id _)
        ∙ meta_at-after_put_self kv codec m.store key_id version restored put_restored_ok

    restored_index :
        IsIndexed kv codec m.store key_id version
        → (scan_fuel : ℕ)
        → find_latest_version kv scan_fuel restored_manager.store key_id ≡ ok version
    restored_index index scan_fuel =
        ap (λ s. find_latest_version kv scan_fuel s key_id)
          (store-invalidate_and_notify kv codec key_id _)
        ∙ IsIndexed-find kv codec restored_store key_id scan_fuel version (
            IsIndexed-after_put kv codec m.store key_id version version restored put_restored_ok
              index)

    -- On a store whose Puts succeed, RestoreKey of a SoftDeleted version that is the latest one
    -- succeeds and makes it Deactivated, without a deletion time and otherwise as it was: at any
    -- time it is given for decryption and GetActiveKey refuses it, whatever was cached.
    pub restore_key_lem :
        IsIndexed kv codec m.store key_id version
        → (restore_key kv codec key_id version m ≡ (restored_manager, ok tt))
          × ((t : ℕ)
              → (get_key_for_decrypt kv codec t key_id version restored_manager).1
                ≡ ok (record old { state = deactivated; deleted_at = none }))
          × ((scan_fuel t : ℕ)
              → (get_active_key kv codec scan_fuel t key_id restored_manager).1
                ≡ err (not_active deactivated))
    unfolding restore_key
    restore_key_lem index =
        let uncached =
          invalidated-IsUncached kv codec key_id (record m { store = restored_store }) in
        (
          ap (after_restore kv codec key_id)
              (with_tx-ok kv (restore_tx kv codec key_id version) m restore_steps),
          λ t.
              get_key_for_decrypt-deactivated kv codec t key_id version restored_manager
                (uncached t version) restored restored_held refl,
          λ scan_fuel t.
              get_active_key-refuses kv codec t key_id version restored_manager (uncached t version)
                scan_fuel restored (restored_index index scan_fuel) restored_held refl (λ e. cc),
        )

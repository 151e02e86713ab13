-- ===== src/Lifecycle/Manager/ShredKey.antt =====
-- ShredKey of internal/lifecycle/manager.go as its callers see it.
use yvonne.Base.{ℕ, Str, none, some, [], ◌≡◌, ◌≢◌, ap, ◌∙◌, arith}
use yvonne.Storage.Interface.{KvStore}
use yvonne.Lifecycle.Metadata.{KeyMetadata, Codec, destroyed}
use yvonne.Lifecycle.Keys.{metadata_key, metadata_key_nonempty}
use yvonne.Lifecycle.Result.{ok, err, not_found}
use yvonne.Lifecycle.Manager.Defs.{Manager, with_tx-ok}
use yvonne.Lifecycle.Manager.Transactions.{shred_tx}
use yvonne.Lifecycle.Manager.Operations.{
  shred_key, get_key_for_decrypt, invalidate_and_notify, after_commit,
}
use yvonne.Lifecycle.Manager.Stored.{
  meta_at, after_put, after_delete, get-after_delete_self, meta_at-after_delete_ne,
  meta_at-after_delete_other, meta_at-after_put_ne, meta_at-after_put_other,
}
use yvonne.Lifecycle.Manager.Loading.{
  get_key_for_decrypt-absent, invalidated-IsUncached, store-invalidate_and_notify,
}
use yvonne.Lifecycle.Manager.Rotation.{Reliable}

module _ {S : Type 0} (kv : KvStore S) (codec : Codec) (key_id : Str) (version : ℕ) (m : Manager S)
    (old : KeyMetadata) where
  abbrev wiped : KeyMetadata
  wiped = record old { encrypted_material = []; state = destroyed }

  abbrev shredded_store : S
  shredded_store =
      after_delete kv codec (after_put kv codec m.store key_id version wiped) key_id version

  abbrev pub shredded_manager : Manager S
  shredded_manager = invalidate_and_notify kv codec key_id (record m { store = shredded_store })

  module _ (reliable : Reliable kv)
      (held : meta_at kv codec m.store key_id version ≡ some old) where
    put_ok : (kv.put m.store (metadata_key key_id version) (codec.marshal wiped)).1 ≡ none
    put_ok = reliable m.store _ _ (metadata_key_nonempty key_id version)

    shred_steps : shred_tx kv codec key_id version m.store ≡ (shredded_store, ok tt)
    unfolding shred_tx meta_at
    shred_steps = ground (arith, put_ok)

    same_store : shredded_manager.store ≡ shredded_store
    same_store = store-invalidate_and_notify kv codec key_id _

    -- On a store whose Puts succeed, ShredKey of a version that is stored succeeds, whatever its
    -- state. From then on, at any time, GetKeyForDecrypt does not find that version, in the cache
    -- or in the store; the metadata of all other versions and keys stay as they were.
    pub shred_key_lem :
        (shred_key kv codec key_id version m ≡ (shredded_manager, ok tt))
        × ((t : ℕ)
            → (get_key_for_decrypt kv codec t key_id version shredded_manager).1 ≡ err not_found)
        × ((w : ℕ)
            → version ≢ w
            → meta_at kv codec shredded_manager.store key_id w ≡ meta_at kv codec m.store key_id w)
        × ((j : Str) (w : ℕ)
            → key_id ≢ j
            → meta_at kv codec shredded_manager.store j w ≡ meta_at kv codec m.store j w)
    unfolding shred_key
    shred_key_lem = (
      ap (after_commit kv codec key_id)
          (with_tx-ok kv (shred_tx kv codec key_id version) m shred_steps),
      λ t.
          get_key_for_decrypt-absent kv codec t key_id version shredded_manager
            (invalidated-IsUncached kv codec key_id (record m { store = shredded_store }) t version)
            (ap (λ s. kv.get s (metadata_key key_id version)) same_store
              ∙ get-after_delete_self kv codec (after_put kv codec m.store key_id version wiped)
                  key_id version),
      λ w h.
          ap (λ s. meta_at kv codec s key_id w) same_store
          ∙ meta_at-after_delete_ne kv codec (after_put kv codec m.store key_id version wiped)
              key_id version w h
          ∙ meta_at-after_put_ne kv codec m.store key_id version wiped put_ok w h,
      λ j w h.
          ap (λ s. meta_at kv codec s j w) same_store
          ∙ meta_at-after_delete_other kv codec (after_put kv codec m.store key_id version wiped)
              key_id j version w h
          ∙ meta_at-after_put_other kv codec m.store key_id version wiped put_ok j w h,
    )

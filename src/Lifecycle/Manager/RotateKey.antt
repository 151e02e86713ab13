-- ===== src/Lifecycle/Manager/RotateKey.antt =====
-- RotateKey of internal/lifecycle/manager.go as its callers see it.
use yvonne.Base.{ℕ, ◌+◌, Str, Option, some, [], ◌≡◌, ◌≢◌, refl, ap, ◌∙◌}
use yvonne.Storage.Interface.{KvStore}
use yvonne.Lifecycle.Metadata.{KeyMetadata, Codec, Kek, active, deactivated, dek_size_from_kek}
use yvonne.Lifecycle.Result.{ok}
use yvonne.Lifecycle.Manager.Defs.{Manager, find_latest_version, with_tx-ok}
use yvonne.Lifecycle.Manager.Transactions.{rotate_tx}
use yvonne.Lifecycle.Manager.Operations.{
  rotate_key, get_active_key, get_key_for_decrypt, invalidate_and_notify, with_kek-some,
  after_commit,
}
use yvonne.Lifecycle.Manager.Stored.{meta_at}
use yvonne.Lifecycle.Manager.Loading.{
  get_active_key-stored, get_key_for_decrypt-deactivated, invalidated-IsUncached,
  store-invalidate_and_notify,
}
use yvonne.Lifecycle.Manager.Rotation.{
  Reliable, rotated, new_version, rotate_steps, rotated_new, rotated_old, rotated_rest,
  rotated_other, rotated_latest,
}

module _ {S : Type 0} (kv : KvStore S) (codec : Codec) (scan_fuel now : ℕ) (random : ℕ → Option Str)
    (kek : Kek) (key_id : Str) (m : Manager S) (latest : ℕ) (old : KeyMetadata) where
  -- The manager after a rotation that wrote `wrapped`.
  abbrev pub rotated_manager : Str → Manager S
  rotated_manager wrapped = invalidate_and_notify kv codec key_id (record m {
    store = rotated kv codec scan_fuel now random kek key_id m.store latest old wrapped;
  })

  abbrev pub rotated_key : Str → KeyMetadata
  rotated_key = new_version kv codec scan_fuel now random kek key_id m.store latest old

  rotate_key-ok :
      (new : KeyMetadata) (plain : Str) (s' : S)
      → key_id ≢ []
      → rotate_tx kv codec scan_fuel now random kek key_id m.store ≡ (s', ok (new, plain))
      → rotate_key kv codec scan_fuel now random (some kek) key_id m
        ≡ (invalidate_and_notify kv codec key_id (record m { store = s' }), ok (new, plain))
  unfolding rotate_key
  rotate_key-ok new plain s' ne e =
      with_kek-some kv codec key_id kek _ m ne
      ∙ ap (after_commit kv codec key_id)
          (with_tx-ok kv (rotate_tx kv codec scan_fuel now random kek key_id) m e)

  pub store-rotated_manager :
      (wrapped : Str)
      → (rotated_manager wrapped).store
        ≡ rotated kv codec scan_fuel now random kek key_id m.store latest old wrapped
  store-rotated_manager wrapped = store-invalidate_and_notify kv codec key_id _

  module _ (wrapped plain : Str) (ne : key_id ≢ []) (reliable : Reliable kv)
      (found : find_latest_version kv scan_fuel m.store key_id ≡ ok latest)
      (held : meta_at kv codec m.store key_id latest ≡ some old) (live : old.state ≡ active)
      (drawn : random (dek_size_from_kek kek) ≡ some plain)
      (wraps : kek.wrap_dek plain ≡ some wrapped) where
    -- On a store whose Puts succeed, where the latest version of a key is Active and the KEK wraps
    -- the random key, RotateKey succeeds and returns that key. From then on, at any time,
    -- GetActiveKey gives the new version, which holds the wrapped key, and the old version is
    -- still given for decryption, Deactivated and otherwise as it was. The metadata of all other
    -- versions and of all other keys stay as they were.
    pub rotate_key_lem :
        (rotate_key kv codec scan_fuel now random (some kek) key_id m
          ≡ (rotated_manager wrapped, ok (rotated_key wrapped, plain)))
        × ((t : ℕ)
            → (get_active_key kv codec scan_fuel t key_id (rotated_manager wrapped)).1
              ≡ ok (rotated_key wrapped))
        × ((rotated_key wrapped).version ≡ latest + 1)
        × ((rotated_key wrapped).encrypted_material ≡ wrapped)
        × ((t : ℕ)
            → (get_key_for_decrypt kv codec t key_id latest (rotated_manager wrapped)).1
              ≡ ok (record old { state = deactivated }))
        × ((w : ℕ)
            → latest ≢ w
            → (latest + 1) ≢ w
            → meta_at kv codec (rotated_manager wrapped).store key_id w
              ≡ meta_at kv codec m.store key_id w)
        × ((j : Str) (w : ℕ)
            → key_id ≢ j
            → meta_at kv codec (rotated_manager wrapped).store j w ≡ meta_at kv codec m.store j w)
    rotate_key_lem =
        let uncached = invalidated-IsUncached kv codec key_id (record m {
          store = rotated kv codec scan_fuel now random kek key_id m.store latest old wrapped;
        }) in
        let same = store-rotated_manager wrapped in
        (
          rotate_key-ok (rotated_key wrapped) plain _ ne (
              rotate_steps kv codec scan_fuel now random kek key_id m.store latest old plain wrapped
                reliable found held live drawn wraps),
          λ t.
              get_active_key-stored kv codec t key_id (latest + 1) (rotated_manager wrapped)
                (uncached t (latest + 1)) scan_fuel (rotated_key wrapped)
                (ap (λ s. find_latest_version kv scan_fuel s key_id) same
                  ∙ rotated_latest kv codec scan_fuel now random kek key_id m.store latest old
                      reliable wrapped)
                (ap (λ s. meta_at kv codec s key_id (latest + 1)) same
                  ∙ rotated_new kv codec scan_fuel now random kek key_id m.store latest old reliable
                      wrapped)
                refl,
          refl,
          refl,
          λ t.
              get_key_for_decrypt-deactivated kv codec t key_id latest (rotated_manager wrapped)
                (uncached t latest) (record old { state = deactivated })
                (ap (λ s. meta_at kv codec s key_id latest) same
                  ∙ rotated_old kv codec scan_fuel now random kek key_id m.store latest old reliable
                      wrapped)
                refl,
          λ w h g.
              ap (λ s. meta_at kv codec s key_id w) same
              ∙ rotated_rest kv codec scan_fuel now random kek key_id m.store latest old reliable
                  wrapped w h g,
          λ j w h.
              ap (λ s. meta_at kv codec s j w) same
              ∙ rotated_other kv codec scan_fuel now random kek key_id m.store latest old reliable
                  wrapped j w h,
        )

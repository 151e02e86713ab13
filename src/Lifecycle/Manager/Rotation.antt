-- ===== src/Lifecycle/Manager/Rotation.antt =====
-- RotateKey (internal/lifecycle/manager.go) on a store whose Puts succeed, and on one that keeps
-- what a failed transaction wrote.
use yvonne.Base.{ℕ, ◌+◌, Str, decimal, Option, none, some, [], ◌≡◌, ◌≢◌, ◌∙◌, arith}
use yvonne.Storage.Interface.{KvStore}
use yvonne.Lifecycle.Metadata.{KeyMetadata, Codec, Kek, active, deactivated, dek_size_from_kek}
use yvonne.Lifecycle.Keys.{
  metadata_key, latest_version_metadata_key, metadata_key_nonempty, latest_key_nonempty,
}
use yvonne.Lifecycle.Result.{ok, err, wrap_failed}
use yvonne.Lifecycle.Manager.Defs.{find_latest_version}
use yvonne.Lifecycle.Manager.Transactions.{rotate_tx, rotated_metadata}
use yvonne.Lifecycle.Manager.Stored.{
  meta_at, after_put, after_latest, meta_at-after_put_self, meta_at-after_put_ne,
  meta_at-after_put_other, meta_at-after_latest, find_latest_version-after_latest,
}

-- A store whose Put of a named key ends without an error.
abbrev pub Reliable : {S : Type 0} → KvStore S → Type 0
Reliable {S} kv = (s : S) (key value : Str) → key ≢ [] → (kv.put s key value).1 ≡ none

module _ {S : Type 0} (kv : KvStore S) (codec : Codec) (scan_fuel now : ℕ) (random : ℕ → Option Str)
    (kek : Kek) (key_id : Str) (s : S) (latest : ℕ) (old : KeyMetadata) where
  abbrev pub retired : S
  retired = after_put kv codec s key_id latest (record old { state = deactivated })

  abbrev pub new_version : Str → KeyMetadata
  new_version wrapped =
      rotated_metadata now kek key_id (latest + 1) old.rotation_period_days wrapped

  abbrev pub rotated : Str → S
  rotated wrapped =
      after_latest kv codec (after_put kv codec retired key_id (latest + 1) (new_version wrapped))
        key_id (latest + 1)

  pub rotate_steps :
      (plain wrapped : Str)
      → Reliable kv
      → find_latest_version kv scan_fuel s key_id ≡ ok latest
      → meta_at kv codec s key_id latest ≡ some old
      → old.state ≡ active
      → random (dek_size_from_kek kek) ≡ some plain
      → kek.wrap_dek plain ≡ some wrapped
      → rotate_tx kv codec scan_fuel now random kek key_id s
        ≡ (rotated wrapped, ok (new_version wrapped, plain))
  unfolding rotate_tx meta_at
  rotate_steps plain wrapped reliable found held live r w = ground (
    arith,
    reliable s (metadata_key key_id latest) (codec.marshal (record old { state = deactivated }))
        (metadata_key_nonempty key_id latest),
    reliable retired (metadata_key key_id (latest + 1)) (codec.marshal (new_version wrapped))
        (metadata_key_nonempty key_id (latest + 1)),
  )

  pub wrap_failed_steps :
      (plain : Str)
      → Reliable kv
      → find_latest_version kv scan_fuel s key_id ≡ ok latest
      → meta_at kv codec s key_id latest ≡ some old
      → old.state ≡ active
      → random (dek_size_from_kek kek) ≡ some plain
      → kek.wrap_dek plain ≡ none
      → rotate_tx kv codec scan_fuel now random kek key_id s ≡ (retired, err wrap_failed)
  unfolding rotate_tx meta_at
  wrap_failed_steps plain reliable found held live r w = ground (
    arith,
    reliable s (metadata_key key_id latest) (codec.marshal (record old { state = deactivated }))
        (metadata_key_nonempty key_id latest),
  )

  module _ (reliable : Reliable kv) (wrapped : Str) where
    pub put_retired_ok :
        (kv.put s
          (metadata_key key_id latest)
          (codec.marshal (record old { state = deactivated }))).1
        ≡ none
    put_retired_ok = reliable s _ _ (metadata_key_nonempty key_id latest)

    put_new_ok :
        (kv.put retired (metadata_key key_id (latest + 1)) (codec.marshal (new_version wrapped))).1
        ≡ none
    put_new_ok = reliable retired _ _ (metadata_key_nonempty key_id (latest + 1))

    put_index_ok :
        (kv.put
          (after_put kv codec retired key_id (latest + 1) (new_version wrapped))
          (latest_version_metadata_key key_id)
          (decimal (latest + 1))).1
        ≡ none
    put_index_ok = reliable _ _ _ (latest_key_nonempty key_id)

    meta_at-rotated :
        (j : Str) (w : ℕ)
        → meta_at kv codec (rotated wrapped) j w
          ≡ meta_at kv codec
              (after_put kv codec retired key_id (latest + 1) (new_version wrapped))
              j
              w
    meta_at-rotated j w = meta_at-after_latest kv codec _ key_id (latest + 1) put_index_ok j w

    pub rotated_new :
        meta_at kv codec (rotated wrapped) key_id (latest + 1) ≡ some (new_version wrapped)
    rotated_new =
        meta_at-rotated key_id (latest + 1)
        ∙ meta_at-after_put_self kv codec retired key_id (latest + 1) (new_version wrapped)
            put_new_ok

    pub rotated_ne :
        (w : ℕ)
        → (latest + 1) ≢ w
        → meta_at kv codec (rotated wrapped) key_id w ≡ meta_at kv codec retired key_id w
    rotated_ne w h =
        meta_at-rotated key_id w
        ∙ meta_at-after_put_ne kv codec retired key_id (latest + 1) (new_version wrapped) put_new_ok
            w h

    pub rotated_old :
        meta_at kv codec (rotated wrapped) key_id latest ≡ some (record old { state = deactivated })
    rotated_old =
        rotated_ne latest (λ e. omega arith)
        ∙ meta_at-after_put_self kv codec s key_id latest (record old { state = deactivated })
            put_retired_ok

    pub rotated_rest :
        (w : ℕ)
        → latest ≢ w
        → (latest + 1) ≢ w
        → meta_at kv codec (rotated wrapped) key_id w ≡ meta_at kv codec s key_id w
    rotated_rest w h g =
        rotated_ne w g
        ∙ meta_at-after_put_ne kv codec s key_id latest (record old { state = deactivated })
            put_retired_ok w h

    pub rotated_other :
        (j : Str) (w : ℕ)
        → key_id ≢ j
        → meta_at kv codec (rotated wrapped) j w ≡ meta_at kv codec s j w
    rotated_other j w h =
        meta_at-rotated j w
        ∙ meta_at-after_put_other kv codec retired key_id (latest + 1) (new_version wrapped)
            put_new_ok j w h
        ∙ meta_at-after_put_other kv codec s key_id latest (record old { state = deactivated })
            put_retired_ok j w h

    pub rotated_latest : find_latest_version kv scan_fuel (rotated wrapped) key_id ≡ ok (latest + 1)
    rotated_latest =
        find_latest_version-after_latest kv codec _ key_id (latest + 1) put_index_ok scan_fuel
          (omega arith)

-- ===== src/Lifecycle/Manager/Stored.antt =====
-- What the store holds of a key's versions, and what the manager's writes make of it.
use yvonne.Base.{
  ℕ, ◌<◌, Str, str_eq_refl, decimal, parse_int, parse_int-decimal, decimal_nonempty, Option, none,
  some, ◌≡◌, ◌≢◌, refl, ap, ◌∙◌, arith, if◌then◌else◌,
}
use yvonne.Storage.Interface.{KvStore}
use yvonne.Lifecycle.Metadata.{KeyMetadata, Codec}
use yvonne.Lifecycle.Keys.{
  metadata_key, latest_version_metadata_key, metadata_key-ne, metadata_key-ne_id,
  latest-ne-metadata_key,
}
use yvonne.Lifecycle.Result.{ok}
use yvonne.Lifecycle.Manager.Defs.{find_latest_version}

module _ {S : Type 0} (kv : KvStore S) (codec : Codec) where
  abbrev pub decoded : Option Str → Option KeyMetadata
  decoded none = none
  decoded (some text) = codec.unmarshal text

  -- The metadata that the store holds of a version; `none` also where the text is damaged.
  unfoldable pub meta_at : S → Str → ℕ → Option KeyMetadata
  meta_at s key_id version = decoded (kv.get s (metadata_key key_id version))

  -- The store after a Put, whatever the error.
  abbrev pub after_put : S → Str → ℕ → KeyMetadata → S
  after_put s key_id version meta = (kv.put s (metadata_key key_id version) (codec.marshal meta)).0

  abbrev pub after_latest : S → Str → ℕ → S
  after_latest s key_id version =
      (kv.put s (latest_version_metadata_key key_id) (decimal version)).0

  indexed :
      (s : S) (key_id : Str) (scan_fuel : ℕ) (text : Str) (version : ℕ)
      → kv.get s (latest_version_metadata_key key_id) ≡ some text
      → parse_int text ≡ some version
      → 0 < version
      → find_latest_version kv scan_fuel s key_id ≡ ok version
  unfolding find_latest_version
  indexed s key_id scan_fuel text version g p h = ground arith

  module _ (s : S) (key_id : Str) (version : ℕ) (meta : KeyMetadata)
      (done : (kv.put s (metadata_key key_id version) (codec.marshal meta)).1 ≡ none) where
    pub meta_at-after_put_self :
        meta_at (after_put s key_id version meta) key_id version ≡ some meta
    unfolding meta_at
    meta_at-after_put_self =
        rw
          (
            kv.get_put s (metadata_key key_id version) (codec.marshal meta)
                (metadata_key key_id version) done (codec.marshal_ne meta),
            str_eq_refl (metadata_key key_id version),
          )
          (codec.unmarshal_marshal meta)

    pub meta_at-after_put_ne :
        (w : ℕ)
        → version ≢ w
        → meta_at (after_put s key_id version meta) key_id w ≡ meta_at s key_id w
    unfolding meta_at
    meta_at-after_put_ne w h =
        rw
          (
            kv.get_put s (metadata_key key_id version) (codec.marshal meta) (metadata_key key_id w)
                done (codec.marshal_ne meta),
            metadata_key-ne key_id key_id version w h,
          )
          refl

    pub meta_at-after_put_other :
        (j : Str) (w : ℕ)
        → key_id ≢ j
        → meta_at (after_put s key_id version meta) j w ≡ meta_at s j w
    unfolding meta_at
    meta_at-after_put_other j w h =
        rw
          (
            kv.get_put s (metadata_key key_id version) (codec.marshal meta) (metadata_key j w) done
                (codec.marshal_ne meta),
            metadata_key-ne_id key_id j version w h,
          )
          refl

  module _ (s : S) (key_id : Str) (version : ℕ)
      (done : (kv.put s (latest_version_metadata_key key_id) (decimal version)).1 ≡ none) where
    pub meta_at-after_latest :
        (j : Str) (w : ℕ) → meta_at (after_latest s key_id version) j w ≡ meta_at s j w
    unfolding meta_at
    meta_at-after_latest j w =
        rw
          (
            kv.get_put s (latest_version_metadata_key key_id) (decimal version) (metadata_key j w)
                done (decimal_nonempty version),
            (latest-ne-metadata_key key_id j w).0,
          )
          refl

    pub find_latest_version-after_latest :
        (scan_fuel : ℕ)
        → 0 < version
        → find_latest_version kv scan_fuel (after_latest s key_id version) key_id ≡ ok version
    find_latest_version-after_latest scan_fuel h =
        indexed (after_latest s key_id version) key_id scan_fuel (decimal version) version
          (kv.get_put s (latest_version_metadata_key key_id) (decimal version)
              (latest_version_metadata_key key_id) done (decimal_nonempty version)
            ∙ ap
                (λ b.
                  if b
                  then some (decimal version)
                  else kv.get s (latest_version_metadata_key key_id))
                (str_eq_refl (latest_version_metadata_key key_id)))
          (parse_int-decimal version) h

  -- An index that names the version decides the latest version, whatever else is written.
  abbrev pub IsIndexed : S → Str → ℕ → Type 0
  IsIndexed s key_id version =
      (kv.get s (latest_version_metadata_key key_id) ≡ some (decimal version)) × (0 < version)

  pub IsIndexed-find :
      (s : S) (key_id : Str) (scan_fuel version : ℕ)
      → IsIndexed s key_id version
      → find_latest_version kv scan_fuel s key_id ≡ ok version
  IsIndexed-find s key_id scan_fuel version h =
      indexed s key_id scan_fuel (decimal version) version h.0 (parse_int-decimal version) h.1

  pub IsIndexed-after_put :
      (s : S) (key_id : Str) (version w : ℕ) (meta : KeyMetadata)
      → (kv.put s (metadata_key key_id w) (codec.marshal meta)).1 ≡ none
      → IsIndexed s key_id version
      → IsIndexed (after_put s key_id w meta) key_id version
  IsIndexed-after_put s key_id version w meta done h = (
    kv.get_put s (metadata_key key_id w) (codec.marshal meta) (latest_version_metadata_key key_id)
          done (codec.marshal_ne meta)
        ∙ ap
            (λ b.
              if b
              then some (codec.marshal meta)
              else kv.get s (latest_version_metadata_key key_id))
            (latest-ne-metadata_key key_id key_id w).1
        ∙ h.0,
    h.1,
  )

  -- The store after a Delete of a version.
  abbrev pub after_delete : S → Str → ℕ → S
  after_delete s key_id version = kv.delete s (metadata_key key_id version)

  pub get-after_delete_self :
      (s : S) (key_id : Str) (version : ℕ)
      → kv.get (after_delete s key_id version) (metadata_key key_id version) ≡ none
  get-after_delete_self s key_id version =
      rw
        (
          kv.get_delete s (metadata_key key_id version) (metadata_key key_id version),
          str_eq_refl (metadata_key key_id version),
        )
        refl

  pub meta_at-after_delete_ne :
      (s : S) (key_id : Str) (version w : ℕ)
      → version ≢ w
      → meta_at (after_delete s key_id version) key_id w ≡ meta_at s key_id w
  unfolding meta_at
  meta_at-after_delete_ne s key_id version w h =
      rw
        (
          kv.get_delete s (metadata_key key_id version) (metadata_key key_id w),
          metadata_key-ne key_id key_id version w h,
        )
        refl

  pub meta_at-after_delete_other :
      (s : S) (key_id j : Str) (version w : ℕ)
      → key_id ≢ j
      → meta_at (after_delete s key_id version) j w ≡ meta_at s j w
  unfolding meta_at
  meta_at-after_delete_other s key_id j version w h =
      rw
        (
          kv.get_delete s (metadata_key key_id version) (metadata_key j w),
          metadata_key-ne_id key_id j version w h,
        )
        refl

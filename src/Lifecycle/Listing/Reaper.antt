-- ===== src/Lifecycle/Listing/Reaper.antt =====
-- internal/lifecycle/manager.go: reapExpiredSoftDeletes, which shreds the versions that were soft
-- deleted long enough ago. `page` is ScanPrefixPaged on `key:`, over the store as it is at the time;
-- `fuel` bounds the pages.
use yvonne.Base.{
  ℕ, zero, suc, ◌+◌, ◌-◌, Str, Assoc, List, [], ◌∷◌, ◌++◌, Bool, true, false, Option, none, some,
  length, ltb, ◌==◌, if◌then◌else◌,
}
use yvonne.Storage.Interface.{KvStore}
use yvonne.Lifecycle.Metadata.{KeyMetadata, soft_deleted, Codec}
use yvonne.Lifecycle.Result.{Result, ok, err}
use yvonne.Lifecycle.Manager.Defs.{Manager}
use yvonne.Lifecycle.Manager.Operations.{shred_key}

-- Whether the reaper takes the version: soft deleted, at a time that is not after the cutoff.
unfoldable pub is_expired_soft_delete : ℕ → KeyMetadata → Bool
is_expired_soft_delete cutoff meta = elim meta.state [
  | soft_deleted ↦ elim meta.deleted_at [
    | none ↦ false
    | some at' ↦ if ltb cutoff at' then false else true
  ]
  | _ ↦ false
]

module _ {S : Type 0} (kv : KvStore S) (codec : Codec) where
  -- The shred of one version: the calls of onReaped are listed, the latest last.
  abbrev reaped :
      KeyMetadata → List (Str × ℕ) → Manager S × Result (Unit {0}) → Manager S × List (Str × ℕ)
  reaped meta calls (m, ok done) = (m, calls ++ (meta.key_id, meta.version) ∷ [])
  reaped meta calls (m, err e) = (m, calls)

  unfoldable pub reap_item : ℕ → Manager S × List (Str × ℕ) → Str → Manager S × List (Str × ℕ)
  unfolding is_expired_soft_delete
  reap_item cutoff (m, calls) value = elim (codec.unmarshal value) [
    | none ↦ (m, calls)
    | some meta ↦
        if is_expired_soft_delete cutoff meta
        then reaped meta calls (shred_key kv codec meta.key_id meta.version m)
        else (m, calls)
  ]

  unfoldable pub reap_items :
      ℕ → Manager S × List (Str × ℕ) → Assoc Str → Manager S × List (Str × ℕ)
  unfolding reap_item
  reap_items cutoff r [] = r
  reap_items cutoff r ((k, value) ∷ items) = reap_items cutoff (reap_item cutoff r value) items

  -- The loop over the pages from an offset, which goes on by the length of the page although the
  -- shredded versions have left the store.
  unfoldable pub reap_from :
      (S → ℕ → Assoc Str)
      → ℕ
      → ℕ
      → ℕ
      → ℕ
      → Manager S × List (Str × ℕ)
      → Option (Manager S × List (Str × ℕ))
  unfolding reap_items
  reap_from page page_size cutoff zero offset r = none
  reap_from page page_size cutoff (suc fuel) offset r =
      let items = page r.0.store offset in
      let after = reap_items cutoff r items in
      let rest = reap_from page page_size cutoff fuel (offset + length items) after in
      if length items == 0
      then some r
      else if ltb (length items) page_size
      then some after
      else rest

  -- reapExpiredSoftDeletes and ReapNow, at the time `now`.
  unfoldable pub reap_now :
      (S → ℕ → Assoc Str) → ℕ → ℕ → ℕ → Manager S → Option (Manager S × List (Str × ℕ))
  unfolding reap_from
  reap_now page fuel now ttl m = reap_from page 1000 (now - ttl) fuel 0 (m, [])

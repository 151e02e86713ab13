-- ===== src/Examples/Listings.antt =====
-- The listing and the reaper of internal/lifecycle/manager.go, on a small store.
use yvonne.Base.{
  ℕ, ◌<◌, Str, codes, List, [], ◌∷◌, none, some, Option, ◌≡◌, refl, arith, length, has_prefix,
  lookup, insert, remove, remove_where, str_eq, str_le, decimal,
}
use yvonne.Storage.Memory
use yvonne.Storage.Memory.{
  MemoryStore, sorted_matches, scan_prefix_paged, sort_strings, scan_prefix,
}
use yvonne.Storage.Interface.{memory_kv}
use yvonne.Lifecycle.Metadata.{KeyMetadata, soft_deleted}
use yvonne.Lifecycle.Keys.{metadata_key, version_prefix, latest_version_metadata_key}
use yvonne.Lifecycle.Manager.Defs.{new_manager, with_tx, invalidate_cache, notify_cluster}
use yvonne.Lifecycle.Listing.Defs.{list_key_ids, list_key_ids_legacy}
use yvonne.Lifecycle.Listing.Pages.{list_key_ids_lem}
use yvonne.Lifecycle.Listing.Reaper.{reap_from, reap_items, reap_item, is_expired_soft_delete}
use yvonne.Lifecycle.Cache
use yvonne.Lifecycle.Manager.Operations.{shred_key}
use yvonne.Lifecycle.Manager.Transactions.{shred_tx}
use yvonne.Examples.Json.{json}

-- A version of a key that was soft deleted at 10.
abbrev binned : ℕ → KeyMetadata
binned version = record {
  key_id = codes "k";
  version = version;
  state = soft_deleted;
  key_type = [];
  algorithm = [];
  key_usage = [];
  encrypted_material = 7 ∷ [];
  kek_type = [];
  public_key = [];
  created_at = 5;
  deleted_at = some 10;
  rotation_period_days = 0;
  next_rotation_at = none;
}

abbrev bin : MemoryStore
bin = record {
  entries =
      (metadata_key (codes "k") 1, json.marshal (binned 1))
      ∷ (metadata_key (codes "k") 2, json.marshal (binned 2))
      ∷ [];
  garbage = [];
}

small : length (sorted_matches bin (codes "key:")) < 9
unfolding sorted_matches sort_strings scan_prefix has_prefix metadata_key version_prefix str_le
    decimal
small = omega arith

list_key_ids_example :
    list_key_ids json 9 bin ≡ some (list_key_ids_legacy json (sorted_matches bin (codes "key:")))
list_key_ids_example = (list_key_ids_lem json bin 9 small).0

-- With pages of one item, the reaper shreds the first of two expired versions and passes over the
-- second: its offset has moved past the only item that is left.
abbrev reaped_with_pages_of : ℕ → Option (List (Str × ℕ))
reaped_with_pages_of size =
    elim (reap_from memory_kv json (λ s offset. (scan_prefix_paged s (codes "key:") offset size).0)
      size 100 9 0 (new_manager bin, [])) [ none ↦ none | some r ↦ some r.1 ]

reap_skips : reaped_with_pages_of 1 ≡ some ((codes "k", 1) ∷ [])
unfolding reap_from reap_items reap_item is_expired_soft_delete shred_key shred_tx with_tx
    scan_prefix_paged sorted_matches sort_strings scan_prefix has_prefix Memory.get Memory.put
    Memory.delete lookup insert remove str_eq str_le metadata_key version_prefix decimal new_manager
    invalidate_cache Cache.invalidate Cache.new_dek_cache remove_where notify_cluster
    latest_version_metadata_key
reap_skips = refl

reap_one_page : reaped_with_pages_of 5 ≡ some ((codes "k", 1) ∷ (codes "k", 2) ∷ [])
unfolding reap_from reap_items reap_item is_expired_soft_delete shred_key shred_tx with_tx
    scan_prefix_paged sorted_matches sort_strings scan_prefix has_prefix Memory.get Memory.put
    Memory.delete lookup insert remove str_eq str_le metadata_key version_prefix decimal new_manager
    invalidate_cache Cache.invalidate Cache.new_dek_cache remove_where notify_cluster
    latest_version_metadata_key
reap_one_page = refl

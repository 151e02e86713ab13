-- ===== src/Lifecycle/Listing/Defs.antt =====
-- internal/lifecycle/manager.go: ListKeyIDs, countKeys and their versions that scan once. `page`
-- is ScanPrefixPaged on `key:` at an offset, with the page's size; `fuel` bounds the pages.
use yvonne.Base.{
  ℕ, zero, suc, ◌+◌, Str, codes, str_eq, Assoc, List, [], ◌∷◌, ◌++◌, Bool, true, false, Option,
  none, some, length, ltb, ◌==◌, if◌then◌else◌,
}
use yvonne.Storage.Memory.{MemoryStore, scan_prefix_paged}
use yvonne.Lifecycle.Metadata.{Codec}

-- seen[keyID]
unfoldable pub is_seen : Str → List Str → Bool
is_seen key_id [] = false
is_seen key_id (k ∷ seen) = if str_eq k key_id then true else is_seen key_id seen

-- What an item adds to the ids that were seen, which stand in the order of their first item; an
-- item that does not parse is passed over.
unfoldable pub add_item : Codec → List Str → Str → List Str
add_item codec seen value = elim (codec.unmarshal value) [
  | none ↦ seen
  | some meta ↦ if is_seen meta.key_id seen then seen else seen ++ meta.key_id ∷ []
]

unfoldable pub add_items : Codec → List Str → Assoc Str → List Str
unfolding add_item
add_items codec seen [] = seen
add_items codec seen ((k, value) ∷ items) = add_items codec (add_item codec seen value) items

-- The loop over the pages from an offset; `none` where the fuel is used up.
unfoldable pub list_from : Codec → (ℕ → Assoc Str) → ℕ → ℕ → ℕ → List Str → Option (List Str)
list_from codec page page_size zero offset seen = none
list_from codec page page_size (suc fuel) offset seen =
    let items = page offset in
    let more = add_items codec seen items in
    let rest = list_from codec page page_size fuel (offset + length items) more in
    if length items == 0
    then some seen
    else if ltb (length items) page_size
    then some more
    else rest

-- ListKeyIDs
unfoldable pub list_key_ids : Codec → ℕ → MemoryStore → Option (List Str)
unfolding list_from
list_key_ids codec fuel m =
    list_from codec (λ offset. (scan_prefix_paged m (codes "key:") offset 1000).0) 1000 fuel 0 []

-- len(seen)
abbrev pub counted : Option (List Str) → Option ℕ
counted none = none
counted (some ids) = some (length ids)

-- countKeys
unfoldable pub count_keys : Codec → ℕ → MemoryStore → Option ℕ
unfolding list_key_ids
count_keys codec fuel m = counted (list_key_ids codec fuel m)

-- listKeyIDsLegacy, on the items in the order in which the scan gave them.
unfoldable pub list_key_ids_legacy : Codec → Assoc Str → List Str
unfolding add_items
list_key_ids_legacy codec items = add_items codec [] items

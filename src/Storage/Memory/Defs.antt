-- ===== src/Storage/Memory/Defs.antt =====
-- internal/storage/memory.go: the state of MemoryStore, its operations and those of memTx.
use yvonne.Base.{
  clear, ℕ, ◌+◌, ◌-◌, Str, Assoc, lookup, insert, remove, has_prefix, str_le, List, [], ◌∷◌, Option,
  none, some, Bool, true, false, length, take, drop, leb, ltb, ◌==◌, if◌then◌else◌,
}

-- `garbage`: the arrays that the map no longer refers to, with what they held when dropped.
pub record MemoryStore : Type 0 where
  pub entries : Assoc Str
  pub garbage : List Str

pub data StoreErr : Type 0 where
  empty_key not_found : StoreErr

-- NewMemoryStore
unfoldable pub new_memory_store : MemoryStore
new_memory_store = record { entries = []; garbage = [] }

-- `if old, exists := m.data[key]; exists { clear(old) }`, the array being dropped next.
abbrev pub drop_cleared : Option Str → List Str → List Str
drop_cleared none garbage = garbage
drop_cleared (some old) garbage = clear old ∷ garbage

unfoldable pub delete : MemoryStore → Str → MemoryStore
delete m key = record {
  entries = remove key m.entries;
  garbage = drop_cleared (lookup key m.entries) m.garbage;
}

-- `len(b) == 0`
abbrev pub is_empty : Str → Bool
is_empty [] = true
is_empty (x ∷ xs) = false

-- Put of a key and a value: the new state, or the error and the state as it was.
unfoldable pub put : MemoryStore → Str → Str → MemoryStore × Option StoreErr
unfolding delete
put m key value =
    if is_empty key then (m, some empty_key) else if is_empty value then (delete m key, none) else (
      record {
        entries = insert key value m.entries;
        garbage = drop_cleared (lookup key m.entries) m.garbage;
      },
      none,
    )

-- Get; `none` is ErrNotFound.
unfoldable pub get : MemoryStore → Str → Option Str
get m key = lookup key m.entries

-- The methods of memTx work on the store that the transaction holds locked.
unfoldable pub tx_delete : MemoryStore → Str → MemoryStore
tx_delete t key = elim (lookup key t.entries) [
  | none ↦ t
  | some v ↦ record { entries = remove key t.entries; garbage = clear v ∷ t.garbage }
]

unfoldable pub tx_put : MemoryStore → Str → Str → MemoryStore × Option StoreErr
unfolding tx_delete
tx_put t key value =
    if is_empty key
    then (t, some empty_key)
    else if is_empty value
    then (tx_delete t key, none)
    else (
      record {
        entries = insert key value t.entries;
        garbage = drop_cleared (lookup key t.entries) t.garbage;
      },
      none,
    )

unfoldable pub tx_get : MemoryStore → Str → Option Str
tx_get t key = lookup key t.entries

-- GetForUpdate
unfoldable pub get_for_update : MemoryStore → Str → Option Str
unfolding tx_get
get_for_update t key = tx_get t key

-- WithTx: the callback runs on the locked store; what it wrote stays, also when it fails.
-- `cancelled` is `ctx.Err()`.
unfoldable pub with_tx :
    {E : Type 0}
    → Option E
    → (MemoryStore → MemoryStore × Option E)
    → MemoryStore
    → MemoryStore × Option E
with_tx cancelled fn m = elim cancelled [ none ↦ fn m | some e ↦ (m, some e) ]

-- ScanPrefix
unfoldable pub scan_prefix : Assoc Str → Str → Assoc Str
scan_prefix [] prefix = []
scan_prefix ((k, v) ∷ m) prefix =
    let rest = scan_prefix m prefix in if has_prefix k prefix then (k, v) ∷ rest else rest

-- `sort.Strings` on the keys that the scan found, each with its value.
unfoldable pub insert_sorted : Str × Str → Assoc Str → Assoc Str
insert_sorted e [] = e ∷ []
insert_sorted e (f ∷ l) =
    let rest = insert_sorted e l in if str_le e.0 f.0 then e ∷ f ∷ l else f ∷ rest

unfoldable pub sort_strings : Assoc Str → Assoc Str
unfolding insert_sorted
sort_strings [] = []
sort_strings (e ∷ l) = insert_sorted e (sort_strings l)

-- What ScanPrefixPaged collects and sorts before it cuts the page out.
unfoldable pub sorted_matches : MemoryStore → Str → Assoc Str
unfolding sort_strings scan_prefix
sorted_matches m prefix = sort_strings (scan_prefix m.entries prefix)

-- ScanPrefixPaged: a page of the sorted matches, and their total. The offset is not negative.
unfoldable pub scan_prefix_paged : MemoryStore → Str → ℕ → ℕ → Assoc Str × ℕ
unfolding sorted_matches
scan_prefix_paged m prefix offset limit =
    let limit' = if limit == 0 then 1000 else limit in
    let keys = sorted_matches m prefix in
    let total = length keys in
    let end = if ltb total (offset + limit') then total else offset + limit' in
    if leb total offset then ([], total) else (take (end - offset) (drop offset keys), total)

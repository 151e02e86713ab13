-- ===== src/Storage/Memory/Refining.antt =====
-- MemoryStore of internal/storage/memory.go as a map: what a client can see of it is what a function
-- from keys to values shows.
use yvonne.Base.{
  Str, str_eq, lookup, [], ◌∷◌, List, Option, none, some, ◌≡◌, refl, ap, ◌∙◌, if◌then◌else◌,
}
use yvonne.Storage.Memory.Defs.{
  MemoryStore, StoreErr, empty_key, new_memory_store, is_empty, delete, put, get, tx_delete, tx_put,
  tx_get, get_for_update,
}
use yvonne.Storage.Memory.Laws.{stored, get-put, get-delete, put_empty_key, put_ok, tx_agrees}

-- The methods of the store, and those of its transaction.
pub data Access : Type 0 where
  put_value tx_put_value : Str → Str → Access
  get_value tx_get_value get_value_for_update : Str → Access
  delete_value tx_delete_value : Str → Access

pub data Reply : Type 0 where
  done : Option StoreErr → Reply
  found : Option Str → Reply

abbrev put_reply : MemoryStore × Option StoreErr → MemoryStore × Reply
put_reply (m, e) = (m, done e)

abbrev access : MemoryStore → Access → MemoryStore × Reply
access m (put_value k v) = put_reply (put m k v)
access m (tx_put_value k v) = put_reply (tx_put m k v)
access m (get_value k) = (m, found (get m k))
access m (tx_get_value k) = (m, found (tx_get m k))
access m (get_value_for_update k) = (m, found (get_for_update m k))
access m (delete_value k) = (delete m k, done none)
access m (tx_delete_value k) = (tx_delete m k, done none)

-- The replies of a store to a sequence of accesses.
abbrev pub replies : MemoryStore → List Access → List Reply
replies m [] = []
replies m (a ∷ accesses) = let (m', r) = access m a in r ∷ replies m' accesses

abbrev pub Map : Type 0
Map = Str → Option Str

abbrev map_put : Map → Str → Str → Map × Reply
map_put s k v =
    if is_empty k
    then (s, done (some empty_key))
    else ((λ j. if str_eq k j then stored v else s j), done none)

abbrev map_delete : Map → Str → Map × Reply
map_delete s k = ((λ j. if str_eq k j then none else s j), done none)

abbrev map_access : Map → Access → Map × Reply
map_access s (put_value k v) = map_put s k v
map_access s (tx_put_value k v) = map_put s k v
map_access s (get_value k) = (s, found (s k))
map_access s (tx_get_value k) = (s, found (s k))
map_access s (get_value_for_update k) = (s, found (s k))
map_access s (delete_value k) = map_delete s k
map_access s (tx_delete_value k) = map_delete s k

-- The replies of a map.
abbrev pub map_replies : Map → List Access → List Reply
map_replies s [] = []
map_replies s (a ∷ accesses) = let (s', r) = map_access s a in r ∷ map_replies s' accesses

abbrev Represents : MemoryStore → Map → Type 0
Represents m s = (j : Str) → get m j ≡ s j

abbrev Agrees : MemoryStore × Reply → Map × Reply → Type 0
Agrees (m, r) (s, t) = Represents m s × (r ≡ t)

put-Agrees :
    (m : MemoryStore) (s : Map) (k v : Str)
    → Represents m s
    → Agrees (put_reply (put m k v)) (map_put s k v)
put-Agrees m s [] v h = rw (put_empty_key m v) (h, refl)
put-Agrees m s (c ∷ k) v h = (
  λ j. get-put m (c ∷ k) v j (λ e. cc) ∙ ap (λ o. if str_eq (c ∷ k) j then stored v else o) (h j),
  ap done (put_ok m (c ∷ k) v (λ e. cc)),
)

delete-Agrees :
    (m : MemoryStore) (s : Map) (k : Str)
    → Represents m s
    → Agrees (delete m k, done none) (map_delete s k)
delete-Agrees m s k h =
    (λ j. get-delete m k j ∙ ap (λ o. if str_eq k j then none else o) (h j), refl)

access-Agrees :
    (m : MemoryStore) (s : Map) (a : Access) → Represents m s → Agrees (access m a) (map_access s a)
access-Agrees m s (put_value k v) h = put-Agrees m s k v h
access-Agrees m s (tx_put_value k v) h = rw ((tx_agrees m k v).0) (put-Agrees m s k v h)
access-Agrees m s (get_value k) h = (h, ap found (h k))
access-Agrees m s (tx_get_value k) h = (h, ap found ((tx_agrees m k []).1 ∙ h k))
access-Agrees m s (get_value_for_update k) h = (h, ap found ((tx_agrees m k []).2 ∙ h k))
access-Agrees m s (delete_value k) h = delete-Agrees m s k h
access-Agrees m s (tx_delete_value k) h = rw ((tx_agrees m k []).3) (delete-Agrees m s k h)

replies_agree :
    (m : MemoryStore) (s : Map) (accesses : List Access)
    → Represents m s
    → replies m accesses ≡ map_replies s accesses
replies_agree m s [] h = refl
replies_agree m s (a ∷ accesses) h =
    let step = access-Agrees m s a h in
    ap (λ r. r ∷ replies (access m a).0 accesses) step.1
    ∙ ap (λ l. (map_access s a).1 ∷ l)
        (replies_agree (access m a).0 (map_access s a).0 accesses step.0)

-- A new store refines a map: to every sequence of Puts, Gets and Deletes, of the store and of its
-- transactions, it replies as the function does that starts with no value, is changed at the key that
-- is written, forgets a key that is deleted or given an empty value, and refuses an empty key.
pub replies-refine :
    (accesses : List Access) → replies new_memory_store accesses ≡ map_replies (λ j. none) accesses
unfolding new_memory_store get lookup
replies-refine accesses = replies_agree new_memory_store (λ j. none) accesses (λ j. refl)

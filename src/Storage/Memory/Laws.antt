-- ===== src/Storage/Memory/Laws.antt =====
-- What Put, Get and Delete of MemoryStore promise to their clients (internal/storage/kvstore.go),
-- and that a transaction's methods are those of the store.
use yvonne.Base.{
  Str, str_eq, lookup, lookup-insert, lookup-remove, [], ◌∷◌, Option, none, some, ◌≡◌, ◌≢◌, refl,
  ap, arith, if◌then◌else◌, Option-cases, inl, inr, Assoc, remove,
}
use yvonne.Storage.Memory.Defs.{
  MemoryStore, empty_key, delete, put, get, tx_delete, tx_put, tx_get, get_for_update,
}

-- What a Put of a value leaves to be read: an empty value is a deletion.
abbrev pub stored : Str → Option Str
stored [] = none
stored (x ∷ xs) = some (x ∷ xs)

pub get-put :
    (m : MemoryStore) (key value j : Str)
    → key ≢ []
    → get (put m key value).0 j ≡ (if str_eq key j then stored value else get m j)
unfolding get put delete
get-put m [] value j h = absurd (h refl)
get-put m (c ∷ key) [] j h = lookup-remove (c ∷ key) j m.entries
get-put m (c ∷ key) (x ∷ xs) j h = lookup-insert (c ∷ key) j (x ∷ xs) m.entries

pub put_empty_key : (m : MemoryStore) (value : Str) → put m [] value ≡ (m, some empty_key)
unfolding put
put_empty_key m value = refl

pub put_ok : (m : MemoryStore) (key value : Str) → key ≢ [] → (put m key value).1 ≡ none
unfolding put
put_ok m [] value h = absurd (h refl)
put_ok m (c ∷ key) [] h = refl
put_ok m (c ∷ key) (x ∷ xs) h = refl

pub get-delete :
    (m : MemoryStore) (key j : Str)
    → get (delete m key) j ≡ (if str_eq key j then none else get m j)
unfolding get delete
get-delete m key j = lookup-remove key j m.entries

remove_absent {ℓ} : {V : Type ℓ} (k : Str) (m : Assoc V) → lookup k m ≡ none → remove k m ≡ m
unfolding lookup remove
remove_absent k [] h = refl
remove_absent k ((j, v) ∷ m) h = ground (arith, remove_absent k m)

tx_delete-eq-delete : (m : MemoryStore) (key : Str) → tx_delete m key ≡ delete m key
unfolding tx_delete delete
tx_delete-eq-delete m key = elim (Option-cases (lookup key m.entries)) [
  | inl e ↦ ground (arith, remove_absent key m.entries)
  | inr (v, e) ↦ ground arith
]

tx_put-eq-put : (m : MemoryStore) (key value : Str) → tx_put m key value ≡ put m key value
unfolding tx_put put
tx_put-eq-put m [] value = refl
tx_put-eq-put m (c ∷ key) [] = ap (λ s. (s, none)) (tx_delete-eq-delete m (c ∷ key))
tx_put-eq-put m (c ∷ key) (x ∷ xs) = refl

-- Inside a transaction Put, Get, GetForUpdate and Delete do to the store what its own methods do
-- outside one.
pub tx_agrees :
    (m : MemoryStore) (key value : Str)
    → (tx_put m key value ≡ put m key value)
      × (tx_get m key ≡ get m key)
      × (get_for_update m key ≡ get m key)
      × (tx_delete m key ≡ delete m key)
unfolding tx_get get get_for_update
tx_agrees m key value = (tx_put-eq-put m key value, refl, refl, tx_delete-eq-delete m key)

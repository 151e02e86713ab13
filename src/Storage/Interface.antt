-- ===== src/Storage/Interface.antt =====
-- internal/storage/kvstore.go: the KVStore interface, which the key lifecycle is written against.
use yvonne.Base.{
  Str, str_eq, lookup-insert, [], ◌∷◌, Bool, false, Option, none, some, ◌≡◌, ◌≢◌, refl,
  if◌then◌else◌,
}
use yvonne.Storage.Memory
use yvonne.Storage.Memory.{MemoryStore, StoreErr}

-- The methods, over the state `S` of a store, and what KVStore promises of them. `get` is Get and
-- GetForUpdate, `none` being ErrNotFound; a Put returns the error that it ends with.
-- `settle before after` is the state that WithTx leaves when its callback fails.
-- `tx_notifier` says whether the transaction implements TxNotifier.
pub record KvStore (S : Type 0) : Type 0 where
  pub get : S → Str → Option Str
  pub put : S → Str → Str → S × Option StoreErr
  pub delete : S → Str → S
  pub settle : S → S → S
  pub tx_notifier : Bool
  pub get_put :
      (s : S) (key value j : Str)
      → (put s key value).1 ≡ none
      → value ≢ []
      → get (put s key value).0 j ≡ (if str_eq key j then some value else get s j)
  pub get_delete :
      (s : S) (key j : Str) → get (delete s key) j ≡ (if str_eq key j then none else get s j)

pub get_put_memory :
    (m : MemoryStore) (key value j : Str)
    → (Memory.put m key value).1 ≡ none
    → value ≢ []
    → Memory.get (Memory.put m key value).0 j
      ≡ (if str_eq key j then some value else Memory.get m j)
unfolding Memory.put Memory.get
get_put_memory m [] value j h ne = cc
get_put_memory m (c ∷ key) [] j h ne = absurd (ne refl)
get_put_memory m (c ∷ key) (x ∷ xs) j h ne = lookup-insert (c ∷ key) j (x ∷ xs) m.entries

-- MemoryStore implements KVStore. A failed transaction keeps what it wrote: there is no rollback.
abbrev pub memory_kv : KvStore MemoryStore
memory_kv = record {
  get = Memory.get;
  put = Memory.put;
  delete = Memory.delete;
  settle = λ before after. after;
  tx_notifier = false;
  get_put = get_put_memory;
  get_delete = Memory.get-delete;
}

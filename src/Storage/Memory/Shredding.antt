-- ===== src/Storage/Memory/Shredding.antt =====
-- Crypto-shredding in internal/storage/memory.go: no array leaves the map before it is zeros.
use yvonne.Base.{
  IsZero, IsZero-clear, Str, Assoc, str_eq, lookup, insert, remove, List, [], ◌∷◌, Option, none,
  some, ◌≢◌, All, inl, inr, Bool-cases,
}
use yvonne.Storage.Memory.Defs.{MemoryStore, new_memory_store, delete, put, drop_cleared}

-- Every dropped array is zeros, and no value in the map is empty.
pub record IsClean (m : MemoryStore) : Type 0 where
  pub shredded : All IsZero m.garbage
  pub filled : All (λ e. e.1 ≢ []) m.entries

shredded-drop_cleared :
    (o : Option Str) (garbage : List Str) → All IsZero garbage → All IsZero (drop_cleared o garbage)
shredded-drop_cleared none garbage h = h
shredded-drop_cleared (some old) garbage h = (IsZero-clear old, h)

filled-remove : (k : Str) (m : Assoc Str) → All (λ e. e.1 ≢ []) m → All (λ e. e.1 ≢ []) (remove k m)
unfolding remove
filled-remove k [] h = tt
filled-remove k ((j, v) ∷ m) h = elim (Bool-cases (str_eq j k)) [
  | inl e ↦ rw e (filled-remove k m h.1)
  | inr e ↦ rw e (h.0, filled-remove k m h.1)
]

pub new_memory_store-IsClean : IsClean new_memory_store
unfolding new_memory_store
new_memory_store-IsClean = record { shredded = tt; filled = tt }

pub delete-IsClean : (m : MemoryStore) (key : Str) → IsClean m → IsClean (delete m key)
unfolding delete
delete-IsClean m key c = record {
  shredded = shredded-drop_cleared (lookup key m.entries) m.garbage c.shredded;
  filled = filled-remove key m.entries c.filled;
}

pub put-IsClean : (m : MemoryStore) (key value : Str) → IsClean m → IsClean (put m key value).0
unfolding put
put-IsClean m [] value c = c
put-IsClean m (k ∷ key) [] c = delete-IsClean m (k ∷ key) c
put-IsClean m (k ∷ key) (x ∷ xs) c =
    unfold insert in
    record {
      shredded = shredded-drop_cleared (lookup (k ∷ key) m.entries) m.garbage c.shredded;
      filled = ((λ e. cc), filled-remove (k ∷ key) m.entries c.filled);
    }

-- The calls that a client can make.
pub data Call : Type 0 where
  call_put : Str → Str → Call
  call_delete : Str → Call

abbrev pub perform : MemoryStore → Call → MemoryStore
perform m (call_put k v) = (put m k v).0
perform m (call_delete k) = delete m k

abbrev pub run : MemoryStore → List Call → MemoryStore
run m [] = m
run m (c ∷ cs) = run (perform m c) cs

perform-IsClean : (m : MemoryStore) (c : Call) → IsClean m → IsClean (perform m c)
perform-IsClean m (call_put k v) h = put-IsClean m k v h
perform-IsClean m (call_delete k) h = delete-IsClean m k h

-- After any calls of Put and Delete on a clean store, every array that the map has dropped is
-- zeros, and no key has an empty value.
pub run-IsClean : (m : MemoryStore) (cs : List Call) → IsClean m → IsClean (run m cs)
run-IsClean m [] h = h
run-IsClean m (c ∷ cs) h = run-IsClean (perform m c) cs (perform-IsClean m c h)

-- ===== src/Lifecycle/Manager/CreateKey.antt =====
-- CreateKey of internal/lifecycle/manager.go, and a RotateKey that fails half-way on MemoryStore.
use yvonne.Base.{ℕ, Str, Option}
use yvonne.Storage.Interface.{KvStore, memory_kv}
use yvonne.Storage.Memory.{MemoryStore, put_ok}
use yvonne.Lifecycle.Metadata.{KeyMetadata, Codec, Kek}
use yvonne.Lifecycle.Manager.Defs.{Manager}
use yvonne.Lifecycle.Manager.Operations.{created_metadata}
use yvonne.Lifecycle.Manager.Stored.{after_put, after_latest}
use yvonne.Lifecycle.Manager.Rotation.{Reliable, retired}

module _ {S : Type 0} (kv : KvStore S) (codec : Codec) (count : S → ℕ) (now : ℕ)
    (random : ℕ → Option Str) (kek : Kek) (key_id : Str) (days : ℕ) (m : Manager S)
    (plain wrapped : Str) where
  abbrev created : KeyMetadata
  created = created_metadata now kek key_id days wrapped

  abbrev first_put : S
  first_put = after_put kv codec m.store key_id 1 created

  -- The manager after CreateKey.
  abbrev pub created_manager : Manager S
  created_manager = record m { store = after_latest kv codec first_put key_id 1 }

-- MemoryStore refuses a Put under the empty key only.
pub memory-Reliable : Reliable memory_kv
memory-Reliable s key value ne = put_ok s key value ne

module _ (codec : Codec) (scan_fuel now : ℕ) (random : ℕ → Option Str) (kek : Kek) (key_id : Str)
    (m : Manager MemoryStore) (latest : ℕ) (old : KeyMetadata) (plain : Str) where
  -- The manager after the rotation that failed.
  abbrev pub failed_manager : Manager MemoryStore
  failed_manager = record m {
    store = retired memory_kv codec scan_fuel now random kek key_id m.store latest old;
  }

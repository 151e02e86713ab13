-- ===== src/Examples/Keys.antt =====
-- The key manager of internal/lifecycle on MemoryStore, run with a small KEK.
use yvonne.Base.{
  ℕ, Str, codes, [], ◌∷◌, Option, none, some, ◌≡◌, ◌≢◌, refl, arith, inl, replicate, lookup, str_eq,
  str_eq_refl, decimal,
}
use yvonne.Storage.Interface.{memory_kv}
use yvonne.Storage.Memory.{MemoryStore, new_memory_store}
use yvonne.Storage.Memory
use yvonne.Lifecycle.Metadata.{KeyState, KeyMetadata, Kek, active, soft_deleted, dek_size_from_kek}
use yvonne.Lifecycle.Keys.{version_prefix, metadata_key, latest_version_metadata_key}
use yvonne.Lifecycle.Cache
use yvonne.Lifecycle.Result.{ok}
use yvonne.Lifecycle.Manager.Defs.{Manager, new_manager, find_latest_version}
use yvonne.Lifecycle.Manager.Operations.{rotate_key, shred_key, restore_key, get_active_key}
use yvonne.Lifecycle.Manager.Stored.{meta_at, IsIndexed, IsIndexed-find}
use yvonne.Lifecycle.Manager.Loading.{IsUncached}
use yvonne.Lifecycle.Manager.RotateKey.{rotate_key_lem, rotated_manager, rotated_key}
use yvonne.Lifecycle.Manager.ShredKey.{shred_key_lem, shredded_manager}
use yvonne.Lifecycle.Manager.SoftDelete.{
  soft_delete_serves_stale, restore_key_lem, binned_manager, restored_manager,
}
use yvonne.Lifecycle.Manager.CreateKey.{memory-Reliable}
use yvonne.Examples.Json.{json}

abbrev pub user : Str
user = codes "user"

-- A KEK that puts one byte before the key that it wraps, and one that fails.
abbrev pub kek : Kek
kek = record {
  wrap_dek = λ plain. some (7 ∷ plain);
  unwrap_dek = λ wrapped. none;
  kek_type = codes "local";
  key_size = none;
}

abbrev broken_kek : Kek
broken_kek = record {
  wrap_dek = λ plain. none;
  unwrap_dek = λ wrapped. none;
  kek_type = codes "local";
  key_size = none;
}

abbrev pub random : ℕ → Option Str
random n = some (replicate n 9)

-- Version 1 of the key in the state.
abbrev pub first : KeyState → KeyMetadata
first state = record {
  key_id = user;
  version = 1;
  state = state;
  key_type = [];
  algorithm = codes "aes-256-gcm";
  key_usage = codes "encrypt" ∷ codes "decrypt" ∷ [];
  encrypted_material = 7 ∷ 8 ∷ [];
  kek_type = codes "local";
  public_key = [];
  created_at = 5;
  deleted_at = none;
  rotation_period_days = 30;
  next_rotation_at = none;
}

abbrev store_of : KeyMetadata → MemoryStore
store_of meta = record {
  entries =
      (metadata_key user 1, json.marshal meta) ∷ (latest_version_metadata_key user, decimal 1) ∷ [];
  garbage = [];
}

abbrev pub manager_of : KeyMetadata → Manager MemoryStore
manager_of meta = new_manager (store_of meta)

pub first-IsIndexed : (meta : KeyMetadata) → IsIndexed memory_kv json (manager_of meta).store user 1
unfolding new_manager Memory.get lookup str_eq latest_version_metadata_key metadata_key
first-IsIndexed meta = unfold version_prefix decimal in (refl, omega arith)

pub find_first :
    (meta : KeyMetadata) → find_latest_version memory_kv 9 (manager_of meta).store user ≡ ok 1
find_first meta =
    IsIndexed-find memory_kv json (manager_of meta).store user 9 1 (first-IsIndexed meta)

pub meta_first :
    (meta : KeyMetadata) → meta_at memory_kv json (manager_of meta).store user 1 ≡ some meta
unfolding meta_at new_manager Memory.get lookup str_eq metadata_key version_prefix decimal
meta_first meta = json.unmarshal_marshal meta

pub first-IsUncached : (meta : KeyMetadata) (t : ℕ) → IsUncached (manager_of meta).cache t user 1
unfolding new_manager Cache.get Cache.is_negative lookup Cache.new_dek_cache
first-IsUncached meta t = (refl, refl)

abbrev pub plain : Str
plain = replicate 32 9

pub drawn : random (dek_size_from_kek kek) ≡ some plain
unfolding dek_size_from_kek
drawn = refl

pub named : user ≢ []
named e = cc

rotate_key_example :
    rotate_key memory_kv json 9 100 random (some kek) user (manager_of (first active)) ≡ (
      rotated_manager memory_kv json 9 100 random kek user
          (manager_of (first active))
          1
          (first active)
          (7 ∷ plain),
      ok (
        rotated_key memory_kv json 9 100 random kek user
            (manager_of (first active))
            1
            (first active)
            (7 ∷ plain),
        plain,
      ),
    )
rotate_key_example =
    (rotate_key_lem memory_kv json 9 100 random kek user (manager_of (first active)) 1
      (first active) (7 ∷ plain) plain named memory-Reliable (find_first (first active))
      (meta_first (first active)) refl drawn refl).0

shred_key_example :
    shred_key memory_kv json user 1 (manager_of (first active))
    ≡ (shredded_manager memory_kv json user 1 (manager_of (first active)) (first active), ok tt)
shred_key_example =
    (shred_key_lem memory_kv json user 1 (manager_of (first active)) (first active) memory-Reliable
      (meta_first (first active))).0

-- The manager that has cached version 1.
abbrev warm : Manager MemoryStore
warm = record (manager_of (first active)) {
  cache = record Cache.new_dek_cache { entries = (metadata_key user 1, first active) ∷ [] };
}

warm_hit : Cache.get warm.cache (metadata_key user 1) ≡ some (first active)
unfolding Cache.get lookup
warm_hit = rw (str_eq_refl (metadata_key user 1)) refl

soft_delete_serves_stale_example :
    (get_active_key memory_kv json 9 200 user
      (binned_manager memory_kv json 100 user 1 warm (first active))).1
    ≡ ok (first active)
soft_delete_serves_stale_example =
    (soft_delete_serves_stale memory_kv json 100 user 1 warm (first active) memory-Reliable
        (meta_first (first active)) (inl refl) (first active) (first-IsIndexed (first active))
        warm_hit refl).1
      9 200

restore_key_example : restore_key memory_kv json user 1 (manager_of (first soft_deleted)) ≡ (
  restored_manager memory_kv json 100 user 1 (manager_of (first soft_deleted)) (first soft_deleted),
  ok tt,
)
restore_key_example =
    (restore_key_lem memory_kv json 100 user 1 (manager_of (first soft_deleted))
      (first soft_deleted) memory-Reliable (meta_first (first soft_deleted)) refl
      (first-IsIndexed (first soft_deleted))).0

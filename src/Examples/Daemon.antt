-- ===== src/Examples/Daemon.antt =====
-- The daemon of internal/lifecycle/daemon.go on MemoryStore, with one key that is due.
use mathlib.Core.List.{Memᴰ}
use mathlib.Core.List.Memᴰ
use yvonne.Base.{Str, Assoc, [], ◌∷◌, true, Option, some, ◌≡◌, ◌≢◌, subst, refl, arith}
use yvonne.Storage.Interface.{memory_kv}
use yvonne.Seal.Vault.Machine.{Vault, new_vault, unsealed, sealed}
use yvonne.Lifecycle.Metadata.{KeyMetadata, Kek, active}
use yvonne.Lifecycle.Keys.{metadata_key}
use yvonne.Lifecycle.Daemon.{panicked, acquired, scan_once, scan_expired_keys}
use yvonne.Lifecycle.Daemon.Scanning.{scan_expired_keys_iff, IsDue, HasDueItem}
use yvonne.Lifecycle.Daemon.Rounds.{scan_once_lem, never}
use yvonne.Examples.Keys.{user, kek, random, first, manager_of}
use yvonne.Examples.Json.{json}

abbrev due : KeyMetadata
due = record (first active) { next_rotation_at = some 50 }

due-IsDue : IsDue 100 due
due-IsDue = (refl, omega arith, (50, refl, omega arith))

abbrev items : Assoc Str
items = (metadata_key user 1, json.marshal due) ∷ []

abbrev kek_of : Str → Option Str → Kek
kek_of key suite = kek

is_taken : HasDueItem json 100 items due
is_taken =
    ((metadata_key user 1, json.marshal due), Memᴰ.head refl, json.unmarshal_marshal due, due-IsDue)

scan_expired_keys_example : Memᴰ due (scan_expired_keys json 100 items)
scan_expired_keys_example = (scan_expired_keys_iff json 100 items due).1 is_taken

some_due : scan_expired_keys json 100 items ≢ []
some_due e =
    Memᴰ.not-nil (subst (Memᴰ due) e ((scan_expired_keys_iff json 100 items due).1 is_taken))

abbrev shut : Vault
shut = record (new_vault 3 2 0) { state = sealed }

scan_once_example :
    scan_once memory_kv json 9 100 kek_of true
      (λ i. random)
      shut
      acquired
      (λ s. some items)
      never
      (manager_of due)
    ≡ panicked (manager_of due) []
scan_once_example =
    (scan_once_lem memory_kv json 9 100 kek_of (λ i. random) shut (λ s. some items) items
        (manager_of due) refl).1
      true (λ e. cc) some_due

abbrev open_vault : Vault
open_vault = record (new_vault 3 2 0) { state = unsealed; master_key = some (42 ∷ []) }

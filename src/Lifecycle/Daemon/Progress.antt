-- ===== src/Lifecycle/Daemon/Progress.antt =====
-- A rotation by the daemon of internal/lifecycle/daemon.go takes its key off the keys that are due.
use yvonne.Base.{ℕ, Str, Option}
use yvonne.Storage.Interface.{KvStore}
use yvonne.Seal.Vault.Machine.{Vault}
use yvonne.Lifecycle.Metadata.{KeyMetadata, Codec, Kek}
use yvonne.Lifecycle.Manager.Defs.{Manager}
use yvonne.Lifecycle.Manager.RotateKey.{rotated_manager, rotated_key}

module _ {S : Type 0} (kv : KvStore S) (codec : Codec) (scan_fuel now : ℕ)
    (kek_of : Str → Option Str → Kek) (random : ℕ → ℕ → Option Str) (v : Vault) (key : Str) (i : ℕ)
    (old : KeyMetadata) (m : Manager S) (latest : ℕ) (wrapped : Str) where
  abbrev kek : Kek
  kek = kek_of key v.crypto_suite

  -- The manager after the rotation of the key that `old` belongs to.
  abbrev pub after : Manager S
  after = rotated_manager kv codec scan_fuel now (random i) kek old.key_id m latest old wrapped

  abbrev pub fresh : KeyMetadata
  fresh = rotated_key kv codec scan_fuel now (random i) kek old.key_id m latest old wrapped

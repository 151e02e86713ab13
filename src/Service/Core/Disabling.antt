-- ===== src/Service/Core/Disabling.antt =====
-- DisableKey of internal/service/core_v12.go, on the node that it is called on.
use yvonne.Base.{ℕ, Str, Bool, Option}
use yvonne.Storage.Interface.{KvStore}
use yvonne.Crypto.Versioned.Format
use yvonne.Crypto.Versioned.Format.{Gcm}
use yvonne.Auth.Policy.Defs.{Policy}
use yvonne.Lifecycle.Metadata.{KeyMetadata, Codec, Kek}
use yvonne.Lifecycle.Keys.{metadata_key}
use yvonne.Lifecycle.Cache
use yvonne.Lifecycle.Result
use yvonne.Lifecycle.Manager.Defs.{Manager}
use yvonne.Lifecycle.Manager.Operations
use yvonne.Lifecycle.Manager.SoftDelete.{binned_manager}
use yvonne.Service.Core.Defs.{Core}
use yvonne.Service.Core.Keys
use yvonne.Service.Core.Data

module _ {S : Type 0} (kv : KvStore S) (codec : Codec) (scan_fuel now : ℕ) (key_id : Str)
    (m : Manager S) (latest : ℕ) (old : KeyMetadata) where
  -- The manager once it has read the version and cached it.
  abbrev with_cached : Manager S
  with_cached = record m { cache = Cache.put m.cache (metadata_key key_id latest) old }

module _ {S : Type 0} (kv : KvStore S) (codec : Codec) (scan_fuel now : ℕ) (ctx : Option Policy)
    (kek_of : Str → Option Str → Kek) (healthy : Option Bool) (random : ℕ → Option Str) (gcm : Gcm)
    (nonce : Str) (policy : Option Policy) (key_id key : Str) (c : Core S) (latest : ℕ)
    (old : KeyMetadata) (dek plain : Str) where
  abbrev pub disabled : Core S
  disabled = (Keys.disable_key kv codec scan_fuel now ctx kek_of healthy random key_id policy c).0

  abbrev cached_manager : Manager S
  cached_manager = with_cached kv codec scan_fuel now key_id c.manager latest old

  abbrev binned : Manager S
  binned = binned_manager kv codec now key_id latest cached_manager old

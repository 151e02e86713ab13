-- ===== src/Lifecycle/Manager/Defs.antt =====
-- internal/lifecycle/manager.go: the manager's state, and how it reads metadata and the latest
-- version. `scan_fuel` bounds the rounds of the version scan.
use yvonne.Base.{
  ℕ, zero, suc, ◌-◌, Str, parse_int, Bool, none, some, List, [], ◌∷◌, ltb, ◌==◌, if◌then◌else◌, ◌≡◌,
  arith,
}
use yvonne.Storage.Interface.{KvStore}
use yvonne.Lifecycle.Metadata.{KeyMetadata, Codec}
use yvonne.Lifecycle.Keys.{metadata_key, latest_version_metadata_key}
use yvonne.Lifecycle.Cache
use yvonne.Lifecycle.Cache.{DekCache}
use yvonne.Lifecycle.Result.{LifecycleErr, Result, ok, err, not_found, bad_metadata, out_of_fuel}

-- `notifier` says whether SetNotifier gave one; `sent` lists the invalidations that were
-- broadcast to the other nodes, the newest first.
pub record Manager (S : Type 0) : Type 0 where
  pub store : S
  pub cache : DekCache
  pub notifier : Bool
  pub max_global_keys : ℕ
  pub sent : List Str

module _ {S : Type 0} where
  -- NewManager
  unfoldable pub new_manager : S → Manager S
  new_manager store = record {
    store = store;
    cache = Cache.new_dek_cache;
    notifier = Bool.false;
    max_global_keys = 0;
    sent = [];
  }

  -- SetMaxGlobalKeys
  unfoldable pub set_max_global_keys : Manager S → ℕ → Manager S
  set_max_global_keys m max = record m { max_global_keys = max }

  -- SetNotifier
  unfoldable pub set_notifier : Manager S → Bool → Manager S
  set_notifier m given = record m { notifier = given }

  -- InvalidateCache
  unfoldable pub invalidate_cache : Manager S → Str → Manager S
  invalidate_cache m key_id = record m { cache = Cache.invalidate m.cache key_id }

  -- ClearCache
  unfoldable pub clear_cache : Manager S → Manager S
  clear_cache m = record m { cache = Cache.clear m.cache }

module _ {S : Type 0} (kv : KvStore S) (scan_fuel : ℕ) where
  -- The loop of findLatestVersionScan, at round `v`.
  unfoldable pub scan_from : ℕ → ℕ → S → Str → Result ℕ
  scan_from zero v s key_id = err out_of_fuel
  scan_from (suc f) v s key_id = elim (kv.get s (metadata_key key_id v)) [
    | none ↦ if v == 1 then err not_found else ok (v - 1)
    | some data' ↦ scan_from f (suc v) s key_id
  ]

  -- getLatestVersion and findLatestVersionInTx: the index if it holds a positive number, else the
  -- scan.
  unfoldable pub find_latest_version : S → Str → Result ℕ
  find_latest_version s key_id = elim (kv.get s (latest_version_metadata_key key_id)) [
    | none ↦ scan_from scan_fuel 1 s key_id
    | some latest ↦ elim (parse_int latest) [
      | none ↦ scan_from scan_fuel 1 s key_id
      | some v ↦ if ltb 0 v then ok v else scan_from scan_fuel 1 s key_id
    ]
  ]

module _ {S : Type 0} (kv : KvStore S) (codec : Codec) where
  -- loadMetadata after a miss in both caches.
  unfoldable pub load_from_store : ℕ → Manager S → Str → Manager S × Result KeyMetadata
  load_from_store now m key = elim (kv.get m.store key) [
    | none ↦ (record m { cache = Cache.put_negative now m.cache key }, err not_found)
    | some data' ↦ elim (codec.unmarshal data') [
      | none ↦ (m, err bad_metadata)
      | some meta ↦ (record m { cache = Cache.put m.cache key meta }, ok meta)
    ]
  ]

  unfoldable pub load_metadata : ℕ → Manager S → Str → ℕ → Manager S × Result KeyMetadata
  unfolding load_from_store
  load_metadata now m key_id version =
      let key = metadata_key key_id version in
      elim (Cache.get m.cache key) [
        | some meta ↦ (m, ok meta)
        | none ↦
            if Cache.is_negative now m.cache key
            then (m, err not_found)
            else load_from_store now m key
      ]

module _ {S : Type 0} (kv : KvStore S) where
  -- The broadcast that follows a commit: by NOTIFY inside the transaction where the store has a
  -- TxNotifier, else by the notifier, if one was given (notifyClusterIfNoTxNotifier).
  unfoldable pub notify_cluster : Manager S → Str → Manager S
  notify_cluster m key_id =
      if kv.tx_notifier
      then record m { sent = key_id ∷ m.sent }
      else if m.notifier
      then record m { sent = key_id ∷ m.sent }
      else m

  -- WithTx on the manager's store: a failure settles the store as the store does.
  unfoldable pub with_tx : {A : Type 0} → (S → S × Result A) → Manager S → Manager S × Result A
  with_tx tx m =
      let (after, r) = tx m.store in
      elim r [
        | ok a ↦ (record m { store = after }, ok a)
        | err e ↦ (record m { store = kv.settle m.store after }, err e)
      ]

  pub with_tx-ok :
      {A : Type 0} (tx : S → S × Result A) (m : Manager S) {s' : S} {a : A}
      → tx m.store ≡ (s', ok a)
      → with_tx tx m ≡ (record m { store = s' }, ok a)
  unfolding with_tx
  with_tx-ok tx m e = ground arith

  pub with_tx-err :
      {A : Type 0} (tx : S → S × Result A) (m : Manager S) {s' : S} {e : LifecycleErr}
      → tx m.store ≡ (s', err e)
      → with_tx tx m ≡ (record m { store = kv.settle m.store s' }, err e)
  unfolding with_tx
  with_tx-err tx m e = ground arith

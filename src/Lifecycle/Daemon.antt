-- ===== src/Lifecycle/Daemon.antt =====
-- internal/lifecycle/daemon.go: RotationDaemon, which rotates the keys that are due, with the KEK
-- of the vault of internal/seal/state.go.
pub mod Scanning
pub mod Rounds
pub mod Progress
use yvonne.Base.{
  ℕ, zero, suc, Str, codes, Assoc, List, [], ◌∷◌, ◌++◌, Bool, true, false, Option, none, some, inl,
  inr, ltb, ◌==◌, if◌then◌else◌,
}
use yvonne.Storage.Interface.{KvStore}
use yvonne.Seal.Vault.Machine.{Vault, kek_ref}
use yvonne.Lifecycle.Metadata.{KeyMetadata, active, Codec, Kek}
use yvonne.Lifecycle.Result.{LifecycleErr, Result, ok, err}
use yvonne.Lifecycle.Manager.Defs.{Manager}
use yvonne.Lifecycle.Manager.Operations.{rotate_key}

pub data AuditResult : Type 0 where
  success : AuditResult
  failure : LifecycleErr → AuditResult

pub record AuditEntry : Type 0 where
  pub timestamp : ℕ
  pub actor : Str
  pub action : Str
  pub resource : Str
  pub result : AuditResult

-- What LockAcquirer.TryAcquire returns.
pub data Lock : Type 0 where
  lock_failed held_elsewhere acquired : Lock

-- How a scan ends: it returns, or the goroutine panics, with the manager as it is then and the
-- entries that auditFn was given, the oldest first.
pub data Outcome (S : Type 0) : Type 0 where
  returned panicked : Manager S → List AuditEntry → Outcome S

-- The tests of scanExpiredKeys on a version's metadata.
unfoldable pub is_due : ℕ → KeyMetadata → Bool
is_due now meta = elim meta.state [
  | active ↦ if meta.rotation_period_days == 0 then false else elim meta.next_rotation_at [
    | none ↦ false
    | some at' ↦ if ltb now at' then false else true
  ]
  | _ ↦ false
]

-- scanExpiredKeys, on the items that ScanPrefix gave.
unfoldable pub scan_expired_keys : Codec → ℕ → Assoc Str → List KeyMetadata
scan_expired_keys codec now [] = []
scan_expired_keys codec now ((k, value) ∷ items) =
    let rest = scan_expired_keys codec now items in
    elim (codec.unmarshal value) [
      | none ↦ rest
      | some meta ↦ if is_due now meta then meta ∷ rest else rest
    ]

abbrev pub entry_of : ℕ → KeyMetadata → AuditResult → AuditEntry
entry_of now meta result = record {
  timestamp = now;
  actor = codes "SYSTEM_DAEMON";
  action = codes "AutoRotate";
  resource = meta.key_id;
  result = result;
}

-- `kek_of` is the KEK of a master key and the suite that was set; `audited` says whether auditFn
-- was given. `random i` is the random source of the i-th rotation of a scan.
module _ {S : Type 0} (kv : KvStore S) (codec : Codec) (scan_fuel now : ℕ)
    (kek_of : Str → Option Str → Kek) (audited : Bool) (random : ℕ → ℕ → Option Str) where
  abbrev pub audit : List AuditEntry → AuditEntry → List AuditEntry
  audit entries entry = if audited then entries ++ entry ∷ [] else entries

  -- The end of rotateAndAudit, once RotateKey has returned.
  abbrev pub after_rotation :
      KeyMetadata → List AuditEntry → Manager S × Result (KeyMetadata × Str) → Outcome S
  after_rotation meta entries (m, ok new) = returned m (audit entries (entry_of now meta success))
  after_rotation meta entries (m, err e) =
      returned m (audit entries (entry_of now meta (failure e)))

  -- rotateAndAudit. The error of KEKRef is dropped: where it has not run the closure, both
  -- rotateErr and newMeta are nil, and the log line reads newMeta.Version.
  unfoldable pub rotate_and_audit :
      Vault → ℕ → KeyMetadata → Manager S → List AuditEntry → Outcome S
  rotate_and_audit v i meta m entries =
      elim (kek_ref v (λ key suite.
        rotate_key kv codec scan_fuel now (random i) (some (kek_of key suite)) meta.key_id m)) [
          | inl r ↦ after_rotation meta entries r
          | inr refused ↦ panicked m entries
        ]

  -- The loop of scanOnce over the keys that are due; `cancelled i` is ctx.Err() before the i-th.
  unfoldable pub rotate_all :
      Vault → (ℕ → Bool) → ℕ → List KeyMetadata → Manager S → List AuditEntry → Outcome S
  unfolding rotate_and_audit
  rotate_all v cancelled i [] m entries = returned m entries
  rotate_all v cancelled i (meta ∷ due) m entries =
      let rest = rotate_all v cancelled (suc i) due in
      if cancelled i then returned m entries else elim (rotate_and_audit v i meta m entries) [
        | returned m' entries' ↦ rest m' entries'
        | panicked m' entries' ↦ panicked m' entries'
      ]

  -- scanOnce; `scan` is ScanPrefix on `key:`, `none` where it fails or the store has none.
  unfoldable pub scan_once :
      Vault → Lock → (S → Option (Assoc Str)) → (ℕ → Bool) → Manager S → Outcome S
  unfolding scan_expired_keys rotate_all
  scan_once v lock scan cancelled m = elim lock [
    | acquired ↦ elim (scan m.store) [
      | none ↦ returned m []
      | some items ↦ rotate_all v cancelled 0 (scan_expired_keys codec now items) m []
    ]
    | _ ↦ returned m []
  ]

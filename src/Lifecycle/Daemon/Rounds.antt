-- ===== src/Lifecycle/Daemon/Rounds.antt =====
-- How a scan of internal/lifecycle/daemon.go goes through the keys that are due.
use yvonne.Base.{
  ℕ, suc, Str, codes, Assoc, List, [], ◌∷◌, ◌++◌, map, Bool, true, false, Option, some, inr, ◌≡◌,
  ◌≢◌, refl, sym, ◌∙◌, ap, arith, All, append_assoc, append-nil,
}
use yvonne.Storage.Interface.{KvStore}
use yvonne.Seal.Vault.Machine.{Vault, unsealed, kek_ref, master_key_ref, vault_sealed}
use yvonne.Seal.Vault.Unsealing.{kek_ref-unsealed}
use yvonne.Lifecycle.Metadata.{KeyMetadata, Codec, Kek}
use yvonne.Lifecycle.Result.{Result, ok, err}
use yvonne.Lifecycle.Manager.Defs.{Manager}
use yvonne.Lifecycle.Manager.Operations.{rotate_key}
use yvonne.Lifecycle.Daemon.{
  returned, panicked, acquired, AuditEntry, AuditResult, success, failure, scan_expired_keys,
  entry_of, after_rotation, rotate_and_audit, rotate_all, scan_once,
}

-- Entries of the daemon for the keys, one for each and in their order.
abbrev pub AreRecords : List KeyMetadata → List AuditEntry → Type 0
AreRecords due entries =
    (map (λ e. e.resource) entries ≡ map (λ meta. meta.key_id) due)
    × All (λ e. e.actor ≡ codes "SYSTEM_DAEMON") entries

abbrev pub never : ℕ → Bool
never i = false

module _ {S : Type 0} (kv : KvStore S) (codec : Codec) (scan_fuel now : ℕ)
    (kek_of : Str → Option Str → Kek) (random : ℕ → ℕ → Option Str) (v : Vault) where
  module _ (key : Str) (open_state : v.state ≡ unsealed) (held : v.master_key ≡ some key) where
    one_entry :
        (i : ℕ) (meta : KeyMetadata) (m : Manager S) (entries : List AuditEntry)
        → (m' : Manager S) × (result : AuditResult) × (rotate_and_audit kv codec scan_fuel now
              kek_of true random v i meta m entries
            ≡ returned m' (entries ++ entry_of now meta result ∷ []))
    unfolding rotate_and_audit
    one_entry i meta m entries =
        let (m', result, e) = finished (
          rotate_key kv codec scan_fuel now (random i) (some (kek_of key v.crypto_suite))
            meta.key_id m) in
        (
          m',
          result,
          rw
              (
                rotate_and_audit,
                kek_ref-unsealed v key
                    (λ key suite.
                      rotate_key kv codec scan_fuel now (random i) (some (kek_of key suite))
                        meta.key_id m)
                    open_state held,
              )
              e,
        )
      where
        finished :
            (r : Manager S × Result (KeyMetadata × Str))
            → (m' : Manager S) × (result : AuditResult) × (after_rotation kv codec scan_fuel now
                  kek_of true random meta entries r
                ≡ returned m' (entries ++ entry_of now meta result ∷ []))
        finished (m', ok new) = (m', success, refl)
        finished (m', err e) = (m', failure e, refl)

    all_entries :
        (i : ℕ) (due : List KeyMetadata) (m : Manager S) (entries : List AuditEntry)
        → (m' : Manager S) × (more : List AuditEntry) × (rotate_all kv codec scan_fuel now kek_of
              true random v never i due m entries
            ≡ returned m' (entries ++ more))
          × AreRecords due more
    unfolding rotate_all
    all_entries i [] m entries = (m, [], ap (returned m) (sym (append-nil entries)), (refl, tt))
    all_entries i (meta ∷ due) m entries =
        let (m', result, e) = one_entry i meta m entries in
        let (m'', more, es, records) =
          all_entries (suc i) due m' (entries ++ entry_of now meta result ∷ []) in
        (
          m'',
          entry_of now meta result ∷ more,
          rw (rotate_all, e)
              (es
                ∙ ap (returned m'') (append_assoc entries ((entry_of now meta result) ∷ []) more)),
          (ap (λ ids. meta.key_id ∷ ids) records.0, (refl, records.1)),
        )

  refused :
      v.state ≢ unsealed
      → {A : Type 0} (action : Str → Option Str → A) → kek_ref v action ≡ inr vault_sealed
  unfolding kek_ref master_key_ref
  refused h action = ground arith

  module _ (scan : S → Option (Assoc Str)) (items : Assoc Str) (m : Manager S)
      (scanned : scan m.store ≡ some items) where
    panics :
        (audited : Bool)
        → v.state ≢ unsealed
        → scan_expired_keys codec now items ≢ []
        → scan_once kv codec scan_fuel now kek_of audited random v acquired scan never m
          ≡ panicked m []
    unfolding scan_once
    panics audited shut some_due =
        rw (scan_once, scanned) (first (scan_expired_keys codec now items) some_due)
      where
        first :
            (due : List KeyMetadata)
            → due ≢ []
            → rotate_all kv codec scan_fuel now kek_of audited random v never 0 due m []
              ≡ panicked m []
        first [] ne = absurd (ne refl)
        first (meta ∷ due) ne =
            rw
              (refused shut (λ key suite.
                rotate_key kv codec scan_fuel now (random 0) (some (kek_of key suite)) meta.key_id
                  m))
              refl

    -- A scan under the lock whose context is not cancelled. With the vault Unsealed it always returns,
    -- and auditFn gets one entry of SYSTEM_DAEMON for each key that was due, in their order, also for
    -- those whose rotation failed. With the vault in another state and at least one key due it panics
    -- before anything is written or audited.
    pub scan_once_lem :
        ((key : Str)
          → v.state ≡ unsealed
          → v.master_key ≡ some key
          → (m' : Manager S) × (entries : List AuditEntry) × (scan_once kv codec scan_fuel now
                kek_of true random v acquired scan never m
              ≡ returned m' entries)
            × AreRecords (scan_expired_keys codec now items) entries)
        × ((audited : Bool)
            → v.state ≢ unsealed
            → scan_expired_keys codec now items ≢ []
            → scan_once kv codec scan_fuel now kek_of audited random v acquired scan never m
              ≡ panicked m [])
    unfolding scan_once
    scan_once_lem = (
      λ key open_state held.
          let (m', entries, e, records) =
            all_entries key open_state held 0 (scan_expired_keys codec now items) m [] in
          (m', entries, rw (scan_once, scanned) e, records),
      panics,
    )

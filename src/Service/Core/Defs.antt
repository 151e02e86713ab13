-- ===== src/Service/Core/Defs.antt =====
-- internal/service/core.go: the state of Core, its guards and its audit records. The manager is never
-- nil here, and the text of an error is left out.
use yvonne.Base.{
  ℕ, Str, codes, str_eq, [], ◌∷◌, List, ◌++◌, Bool, true, false, not, Option, none, some, inl, inr,
  if◌then◌else◌,
}
use yvonne.Crypto.Versioned.Format.{CryptoErr}
use yvonne.Seal.Vault.Machine.{Vault, VaultErr, is_sealed, emergency_seal, kek_ref}
use yvonne.Auth.Policy.Defs.{Policy, is_action_allowed, is_key_allowed}
use yvonne.Audit.Logger.{LogEntry}
use yvonne.Lifecycle.Metadata.{Kek}
use yvonne.Lifecycle.Result
use yvonne.Lifecycle.Result.{LifecycleErr}
use yvonne.Lifecycle.Manager.Defs.{Manager, clear_cache}

pub data ServiceErr : Type 0 where
  emergency_sealed vault_sealed degraded action_denied key_denied : ServiceErr
  no_admin_token invalid_admin_token ciphertext_too_short unwrap_failed : ServiceErr
  wrong_key_type no_public_key sign_failed verify_failed : ServiceErr
  of_lifecycle : LifecycleErr → ServiceErr
  of_crypto : CryptoErr → ServiceErr
  of_vault : VaultErr → ServiceErr

pub data Reply {ℓ} (A : Type ℓ) : Type ℓ where
  ok : A → Reply A
  err : ServiceErr → Reply A

-- `audit_log` is none where auditLog is nil, else the entries that it was given, the oldest first;
-- `alerts` lists the keys that Alert was called for, the oldest first.
pub record Core (S : Type 0) : Type 0 where
  pub vault : Vault
  pub manager : Manager S
  pub audit_log : Option (List LogEntry)
  pub admin_token : Str
  pub alerts : List Str

module _ {S : Type 0} where
  -- NewCore
  unfoldable pub new_core : Manager S → Vault → Option (List LogEntry) → Core S
  new_core manager vault audit_log = record {
    vault = vault;
    manager = manager;
    audit_log = audit_log;
    admin_token = [];
    alerts = [];
  }

  -- SetAdminToken
  unfoldable pub set_admin_token : Core S → Str → Core S
  set_admin_token c token = record c { admin_token = token }

-- Health
unfoldable pub health : Vault → Str × Bool
health v =
    if v.emergency
    then (codes "emergency_sealed", true)
    else if is_sealed v
    then (codes "sealed", false)
    else (codes "unsealed", false)

-- requireUnsealed; `none` is no error.
unfoldable pub require_unsealed : Vault → Option ServiceErr
require_unsealed v =
    if v.emergency then some emergency_sealed else if is_sealed v then some vault_sealed else none

-- requireWritable; the argument is IsHealthy, `none` where the store has no such method.
unfoldable pub require_writable : Option Bool → Option ServiceErr
require_writable none = none
require_writable (some true) = none
require_writable (some false) = some degraded

-- authorize; without a policy everything is allowed.
unfoldable pub authorize : Option Policy → Str → Str → Option ServiceErr
authorize policy action key_id = elim policy [
  | none ↦ none
  | some p ↦
      if not (is_action_allowed p action)
      then some action_denied
      else if not (is_key_allowed p key_id)
      then some key_denied
      else none
]

-- A guard that returns its error, or lets the operation go on.
unfoldable pub after_guard :
    {S A : Type 0} → Option ServiceErr → Core S → (Core S → Core S × Reply A) → Core S × Reply A
after_guard (some e) c go = (c, err e)
after_guard none c go = go c

abbrev pub of_result : {A : Type 0} → Result.Result A → Reply A
of_result (Result.ok a) = ok a
of_result (Result.err e) = err (of_lifecycle e)

-- KEKRef with a closure that works on the manager; `kek_of` is the KEK of a master key and a suite.
unfoldable pub with_kek_ref :
    {S A : Type 0}
    → (Str → Option Str → Kek)
    → Core S
    → (Kek → Manager S → Manager S × Result.Result A)
    → Core S × Reply A
with_kek_ref kek_of c action =
    elim (kek_ref c.vault (λ key suite. action (kek_of key suite) c.manager)) [
      | inl (m, r) ↦ (record c { manager = m }, of_result r)
      | inr e ↦ (c, err (of_vault e))
    ]

module _ {S A : Type 0} where
  -- The guards of the operations that write.
  abbrev pub writing :
      Option Bool
      → Option Policy
      → Str
      → Str
      → (Core S → Core S × Reply A)
      → Core S
      → Core S × Reply A
  writing healthy policy action key_id go c = after_guard (require_unsealed c.vault) c λ c.
      after_guard (require_writable healthy) c
        λ c. after_guard (authorize policy action key_id) c go

  -- The guards of those that do not ask whether the store is healthy.
  abbrev pub reading :
      Option Policy → Str → Str → (Core S → Core S × Reply A) → Core S → Core S × Reply A
  reading policy action key_id go c =
      after_guard (require_unsealed c.vault) c
        λ c. after_guard (authorize policy action key_id) c go

  -- A method of the manager on its own.
  abbrev pub on_manager : (Manager S → Manager S × Result.Result A) → Core S → Core S × Reply A
  on_manager action c = let (m, r) = action c.manager in (record c { manager = m }, of_result r)

  abbrev pub mapped : {B : Type 0} → (A → Reply B) → Core S × Reply A → Core S × Reply B
  mapped f (c, err e) = (c, err e)
  mapped f (c, ok a) = (c, f a)

-- `now` is the clock, and `ctx` the policy in the request's context.
module _ {S : Type 0} (now : ℕ) (ctx : Option Policy) where
  -- recordAudit, which does not use the version and the error's text that it is given.
  unfoldable pub record_audit : Core S → Str → Str → Str → Core S
  record_audit c action key_id status = elim c.audit_log [
    | none ↦ c
    | some entries ↦ record c {
      audit_log = some (
          entries
          ++ (record {
            trace_id = [];
            timestamp = some now;
            client_ip = [];
            actor = (elim ctx [ none ↦ codes "system" | some p ↦ p.role_id ]);
            resource = key_id;
            action = action;
            result = status;
            key_id = [];
            status = [];
          })
            ∷ []);
    }
  ]

  -- The end of an operation: its error or its success is recorded.
  unfoldable pub audited : {A : Type 0} → Str → Str → Core S × Reply A → Core S × Reply A
  unfolding record_audit
  audited action key_id (c, err e) = (record_audit c action key_id (codes "error"), err e)
  audited action key_id (c, ok a) = (record_audit c action key_id (codes "success"), ok a)

  -- An error is recorded and returned, and a success goes on.
  unfoldable pub audited_then :
      {A B : Type 0}
      → Str
      → Str
      → Core S × Reply A
      → (Core S → A → Core S × Reply B)
      → Core S × Reply B
  unfolding record_audit
  audited_then action key_id (c, err e) go = (record_audit c action key_id (codes "error"), err e)
  audited_then action key_id (c, ok a) go = go c a

  -- EmergencySeal, whose callback is not run here.
  unfoldable pub emergency_seal_core : Core S → Str → Core S × Option ServiceErr
  unfolding record_audit
  emergency_seal_core c token =
      if str_eq c.admin_token []
      then (c, some no_admin_token)
      else if not (str_eq token c.admin_token)
      then (record_audit c (codes "EmergencySeal") [] (codes "denied"), some invalid_admin_token)
      else (
        record_audit
            (record c { vault = (emergency_seal c.vault).0; manager = clear_cache c.manager })
            (codes "EmergencySeal") [] (codes "success"),
        none,
      )

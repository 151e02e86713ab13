-- ===== src/Seal/Vault/Emergency.antt =====
-- EmergencySeal (internal/seal/state.go) cannot be undone by any call.
use yvonne.Base.{Str, List, [], ◌∷◌, true, false, none, some, ◌≡◌, ◌≢◌, refl, arith, inr}
use yvonne.Seal.Vault.Machine.{
  sealed, Vault, emergency_refused, vault_sealed, direct_unseal, provide_share, emergency_seal,
  master_key_ref, Event, share, direct, seal_call, emergency_call, timer_event, suite, on_emergency,
  step, run,
}

-- Emergency sealed: Sealed, with no key and no share in memory.
pub record IsFrozen (v : Vault) : Type 0 where
  pub emergency_set : v.emergency ≡ true
  pub is_sealed_now : v.state ≡ sealed
  pub no_key : v.master_key ≡ none
  pub no_shares : v.collected ≡ []
  pub no_timer : v.timer ≡ false

emergency_seal-IsFrozen : (v : Vault) → IsFrozen (emergency_seal v).0
unfolding emergency_seal
emergency_seal-IsFrozen v = ground arith

step-IsFrozen : (v : Vault) (e : Event) → IsFrozen v → IsFrozen (step v e)
unfolding step
step-IsFrozen v (share []) f = f
step-IsFrozen v (share (x ∷ ys)) f = ground arith
step-IsFrozen v (direct key) f = ground arith
step-IsFrozen v seal_call f = ground arith
step-IsFrozen v emergency_call f = emergency_seal-IsFrozen v
step-IsFrozen v timer_event f = ground arith
step-IsFrozen v (suite s) f = ground arith
step-IsFrozen v (on_emergency given) f = ground arith

run-IsFrozen : (v : Vault) (es : List Event) → IsFrozen v → IsFrozen (run v es)
unfolding run
run-IsFrozen v [] f = f
run-IsFrozen v (e ∷ es) f = run-IsFrozen (step v e) es (step-IsFrozen v e f)

frozen_share :
    (v : Vault) (s : Str)
    → IsFrozen v
    → s ≢ []
    → provide_share v s ≡ (v, (false, some emergency_refused))
unfolding provide_share
frozen_share v [] f ne = absurd (ne refl)
frozen_share v (x ∷ ys) f ne = ground arith

frozen_direct :
    (v : Vault) (key : Str) → IsFrozen v → direct_unseal v (some key) ≡ (v, some emergency_refused)
unfolding direct_unseal
frozen_direct v key f = ground arith

frozen_key :
    {A : Type 0} (v : Vault) (action : Str → A)
    → IsFrozen v
    → master_key_ref v action ≡ inr vault_sealed
unfolding master_key_ref
frozen_key v action f = ground arith

-- Once EmergencySeal has run, on any vault, and whatever calls and timer events follow: the vault
-- is Sealed, holds no master key and no share, and stays marked. A share or a direct unseal is
-- refused and changes nothing, and the master key cannot be used. The callback was run exactly if
-- one was set.
pub emergency_seal_irreversible :
    (v : Vault) (es : List Event)
    → IsFrozen (run (emergency_seal v).0 es)
      × ((s : Str)
          → s ≢ []
          → provide_share (run (emergency_seal v).0 es) s
            ≡ (run (emergency_seal v).0 es, (false, some emergency_refused)))
      × ((key : Str)
          → direct_unseal (run (emergency_seal v).0 es) (some key)
            ≡ (run (emergency_seal v).0 es, some emergency_refused))
      × ((action : Str → Str)
          → master_key_ref (run (emergency_seal v).0 es) action ≡ inr vault_sealed)
      × ((emergency_seal v).1 ≡ v.callback)
unfolding emergency_seal
emergency_seal_irreversible v es =
    let f = run-IsFrozen (emergency_seal v).0 es (emergency_seal-IsFrozen v) in
    (
      f,
      λ s ne. frozen_share (run (emergency_seal v).0 es) s f ne,
      λ key. frozen_direct (run (emergency_seal v).0 es) key f,
      λ action. frozen_key (run (emergency_seal v).0 es) action f,
      refl,
    )

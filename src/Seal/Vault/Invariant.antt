-- ===== src/Seal/Vault/Invariant.antt =====
-- What holds of a vault between two calls (internal/seal/state.go).
use yvonne.Base.{
  IsZero, IsZero-clear, IsZero-clear-All, ℕ, ◌-◌, ◌≤◌, Str, List, [], ◌∷◌, ◌++◌, Bool, true, false,
  Option, none, some, ◌≡◌, ◌≢◌, refl, arith, length, length-append, All, if◌then◌else◌,
}
use yvonne.Seal.Shamir.Sharing.{combine_with_threshold}
use yvonne.Seal.Shamir.Sharing
use yvonne.Seal.Vault.Machine.{
  SealState, sealed, unsealed, sealing, Vault, new_vault, is_unsealed, direct_unseal,
  wipe_collected_shares, attempt, provide_share, wipe_master_key, seal, timer_fires, Event, share,
  direct, seal_call, emergency_call, timer_event, suite, on_emergency, step, run,
}

abbrev has_key : Option Str → Bool
has_key none = false
has_key (some key) = true

-- What holds of the vault's fields other than its memory.
pub record IsConsistent (v : Vault) : Type 0 where
  pub key_iff_unsealed : has_key v.master_key ≡ is_unsealed v
  pub settled : v.state ≢ sealing
  pub timed : v.timer ≡ true → v.state ≡ unsealed
  pub frozen : v.emergency ≡ true → (v.state ≡ sealed) × (v.collected ≡ [])
  pub pool_bounded : length v.collected ≤ v.threshold - 1

abbrev pub IsWiped : Vault → Type 0
IsWiped v = All IsZero v.garbage

pub new_vault-IsConsistent :
    (total threshold delay : ℕ) → IsConsistent (new_vault total threshold delay)
unfolding new_vault is_unsealed
new_vault-IsConsistent total threshold delay = ground arith

step-IsConsistent : (v : Vault) (e : Event) → IsConsistent v → IsConsistent (step v e)
unfolding step is_unsealed
step-IsConsistent v (share []) h = h
step-IsConsistent v (share (x ∷ ys)) h = ground (arith, length-append v.collected ((x ∷ ys) ∷ []))
step-IsConsistent v (direct none) h = h
step-IsConsistent v (direct (some key)) h = ground arith
step-IsConsistent v seal_call h = ground arith
step-IsConsistent v emergency_call h = ground arith
step-IsConsistent v timer_event h = ground arith
step-IsConsistent v (suite s) h = ground arith
step-IsConsistent v (on_emergency given) h = ground arith

-- The arrays that the operations drop are cleared first.
wipe_master_key-IsWiped : (v : Vault) → IsWiped v → IsWiped (wipe_master_key v)
wipe_master_key-IsWiped v h = go v.master_key refl
  where
    go : (k : Option Str) → v.master_key ≡ k → IsWiped (wipe_master_key v)
    go none e = rw e h
    go (some key) e = rw e (IsZero-clear key, h)

wipe_collected_shares-IsWiped : (v : Vault) → IsWiped v → IsWiped (wipe_collected_shares v)
wipe_collected_shares-IsWiped v h = IsZero-clear-All v.collected v.garbage h

wipe_all-IsWiped : (v : Vault) → IsWiped v → IsWiped (wipe_collected_shares (wipe_master_key v))
wipe_all-IsWiped v h =
    wipe_collected_shares-IsWiped (wipe_master_key v) (wipe_master_key-IsWiped v h)

seal-IsWiped : (v : Vault) → IsWiped v → IsWiped (seal v)
unfolding seal
seal-IsWiped v h = go v.state refl
  where
    go : (s : SealState) → v.state ≡ s → IsWiped (seal v)
    go sealed e = rw e h
    go unsealed e = rw e (wipe_all-IsWiped (record v { state = sealing; timer = false }) h)
    go sealing e = rw e (wipe_all-IsWiped (record v { state = sealing; timer = false }) h)

attempt-IsWiped : (v : Vault) → IsWiped v → IsWiped (attempt v).0
attempt-IsWiped v h = go (combine_with_threshold v.collected v.threshold) refl
  where
    go :
        (r : Sharing.Result Str)
        → combine_with_threshold v.collected v.threshold ≡ r
        → IsWiped (attempt v).0
    go (Sharing.ok key) e = rw (e, attempt) (wipe_collected_shares-IsWiped v h)
    go (Sharing.err x) e = rw (e, attempt) (wipe_collected_shares-IsWiped v h)

provide_share-IsWiped : (v : Vault) (s : Str) → IsWiped v → IsWiped (provide_share v s).0
unfolding provide_share
provide_share-IsWiped v [] h = h
provide_share-IsWiped v (x ∷ ys) h =
    ground (arith, attempt-IsWiped (record v { collected = v.collected ++ (x ∷ ys) ∷ [] }))

garbage-direct_unseal : (v : Vault) (key : Option Str) → (direct_unseal v key).0.garbage ≡ v.garbage
unfolding direct_unseal
garbage-direct_unseal v key = ground arith

seal_if-IsWiped : (b : Bool) (v : Vault) → IsWiped v → IsWiped (if b then seal v else v)
seal_if-IsWiped true v h = seal-IsWiped v h
seal_if-IsWiped false v h = h

timer_fires-IsWiped : (v : Vault) → IsWiped v → IsWiped (timer_fires v)
unfolding timer_fires
timer_fires-IsWiped v h = seal_if-IsWiped v.timer v h

step-IsWiped : (v : Vault) (e : Event) → IsWiped v → IsWiped (step v e)
unfolding step
step-IsWiped v (share s) h = provide_share-IsWiped v s h
step-IsWiped v (direct key) h = rw (garbage-direct_unseal v key) h
step-IsWiped v seal_call h = seal-IsWiped v h
step-IsWiped v emergency_call h =
    wipe_all-IsWiped (record v { emergency = true; state = sealing; timer = false }) h
step-IsWiped v timer_event h = timer_fires-IsWiped v h
step-IsWiped v (suite s) h = h
step-IsWiped v (on_emergency given) h = h

-- A vault that its calls keep in order, with nothing but zeros in what it has dropped.
abbrev pub IsSound : Vault → Type 0
IsSound v = IsConsistent v × IsWiped v

-- After any sequence of shares, direct unseals, seals, emergency seals, timer events and settings,
-- from a vault in order: the master key is in memory exactly while the vault is Unsealed, the
-- vault does not stay in Sealing, the reseal timer runs only while Unsealed, an emergency sealed
-- vault is Sealed with an empty pool, the pool stays below the threshold, and every share or key
-- array that was dropped is zeros.
pub run-IsSound : (v : Vault) (es : List Event) → IsSound v → IsSound (run v es)
unfolding run
run-IsSound v [] h = h
run-IsSound v (e ∷ es) h =
    run-IsSound (step v e) es (step-IsConsistent v e h.0, step-IsWiped v e h.1)

pub new_vault-IsSound : (total threshold delay : ℕ) → IsSound (new_vault total threshold delay)
unfolding new_vault
new_vault-IsSound total threshold delay = (new_vault-IsConsistent total threshold delay, tt)

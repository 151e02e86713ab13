-- ===== src/Examples/Vaults.antt =====
-- The vault of internal/seal/state.go, run with two of three shares.
use yvonne.Base.{List, [], ◌∷◌, some, false, ◌≡◌}
use yvonne.Seal.Shamir.Sharing
use yvonne.Seal.Vault.Machine.{
  Vault, new_vault, provide_share, emergency_seal, emergency_refused, Event, share, seal_call, run,
}
use yvonne.Seal.Vault.Invariant.{IsSound, run-IsSound, new_vault-IsSound}
use yvonne.Seal.Vault.Emergency.{emergency_seal_irreversible}

abbrev events : List Event
events = share (1 ∷ 47 ∷ []) ∷ share (2 ∷ 32 ∷ []) ∷ seal_call ∷ share (3 ∷ 37 ∷ []) ∷ []

run-IsSound_example : IsSound (run (new_vault 3 2 0) events)
run-IsSound_example = run-IsSound (new_vault 3 2 0) events (new_vault-IsSound 3 2 0)

-- A vault that waits for its second share.
abbrev waiting : Vault
waiting = record (new_vault 3 2 0) { collected = (1 ∷ 47 ∷ []) ∷ [] }

emergency_seal_irreversible_example :
    provide_share (run (emergency_seal waiting).0 events) (3 ∷ 37 ∷ [])
    ≡ (run (emergency_seal waiting).0 events, (false, some emergency_refused))
emergency_seal_irreversible_example =
    (emergency_seal_irreversible waiting events).1 (3 ∷ 37 ∷ []) (λ e. cc)

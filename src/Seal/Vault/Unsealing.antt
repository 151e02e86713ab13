-- ===== src/Seal/Vault/Unsealing.antt =====
-- How a vault is unsealed, and what sealing leaves (internal/seal/state.go).
use yvonne.Base.{
  ℕ, ◌<◌, ◌≤◌, Str, List, [], ◌∷◌, ◌++◌, true, false, Option, none, some, inl, ◌≡◌, arith, length,
}
use yvonne.Seal.Shamir.Sharing
use yvonne.Seal.Shamir.Sharing.{ShamirErr, combine_with_threshold}
use yvonne.Seal.Vault.Machine.{
  sealed, unsealed, Vault, combine_failed, provide_share, kek_ref, master_key_ref,
}

module _ (v : Vault) (x : ℕ) (ys : Str) (calm : v.emergency ≡ false) (shut : v.state ≡ sealed) where
  abbrev pool : List Str
  pool = v.collected ++ (x ∷ ys) ∷ []

  -- A share that does not complete the threshold joins the pool, and nothing else changes.
  waiting :
      length pool < v.threshold
      → provide_share v (x ∷ ys) ≡ (record v { collected = pool }, (false, none))
  unfolding provide_share
  waiting h = ground arith

  failing :
      (e : ShamirErr)
      → v.threshold ≤ length pool
      → combine_with_threshold pool v.threshold ≡ Sharing.err e
      → ((provide_share v (x ∷ ys)).1 ≡ (false, some (combine_failed e)))
        × ((provide_share v (x ∷ ys)).0.state ≡ sealed)
        × ((provide_share v (x ∷ ys)).0.master_key ≡ v.master_key)
        × ((provide_share v (x ∷ ys)).0.collected ≡ [])
  unfolding provide_share
  failing e h c = ground arith

  opening :
      (key : Str)
      → v.threshold ≤ length pool
      → combine_with_threshold pool v.threshold ≡ Sharing.ok key
      → ((provide_share v (x ∷ ys)).1 ≡ (true, none))
        × ((provide_share v (x ∷ ys)).0.state ≡ unsealed)
        × ((provide_share v (x ∷ ys)).0.master_key ≡ some key)
        × ((provide_share v (x ∷ ys)).0.collected ≡ [])
  unfolding provide_share
  opening key h c = ground arith

  pub provide_share_lem :
      (length pool < v.threshold
        → provide_share v (x ∷ ys) ≡ (record v { collected = pool }, (false, none)))
      × ((e : ShamirErr)
          → v.threshold ≤ length pool
          → combine_with_threshold pool v.threshold ≡ Sharing.err e
          → ((provide_share v (x ∷ ys)).1 ≡ (false, some (combine_failed e)))
            × ((provide_share v (x ∷ ys)).0.state ≡ sealed)
            × ((provide_share v (x ∷ ys)).0.master_key ≡ v.master_key)
            × ((provide_share v (x ∷ ys)).0.collected ≡ []))
      × ((key : Str)
          → v.threshold ≤ length pool
          → combine_with_threshold pool v.threshold ≡ Sharing.ok key
          → ((provide_share v (x ∷ ys)).1 ≡ (true, none))
            × ((provide_share v (x ∷ ys)).0.state ≡ unsealed)
            × ((provide_share v (x ∷ ys)).0.master_key ≡ some key)
            × ((provide_share v (x ∷ ys)).0.collected ≡ []))
  provide_share_lem = (waiting, failing, opening)

-- KEKRef runs the closure on the key of an Unsealed vault.
pub kek_ref-unsealed :
    {A : Type 0} (v : Vault) (key : Str) (action : Str → Option Str → A)
    → v.state ≡ unsealed
    → v.master_key ≡ some key
    → kek_ref v action ≡ inl (action key v.crypto_suite)
unfolding kek_ref master_key_ref
kek_ref-unsealed v key action open_state held = ground arith

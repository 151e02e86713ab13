-- ===== src/Seal/Vault/Machine.antt =====
-- internal/seal/state.go: the state of VaultState and its methods.
use yvonne.Base.{
  clear, ℕ, Str, str_eq, List, [], ◌∷◌, ◌++◌, map, Bool, true, false, Option, none, some, ltb,
  length, if◌then◌else◌, ◌⊎◌, inl, inr,
}
use yvonne.Seal.Shamir.Sharing.{ShamirErr, combine_with_threshold}
use yvonne.Seal.Shamir.Sharing

pub data SealState : Type 0 where
  sealed unsealed sealing : SealState

-- `timer` says whether cancelReseal is set and autoResealLoop waits. `garbage` holds the share
-- and key arrays that the vault has dropped, with what they held then.
pub record Vault : Type 0 where
  pub state : SealState
  pub master_key : Option Str
  pub collected : List Str
  pub threshold : ℕ
  pub total : ℕ
  pub auto_reseal_after : ℕ
  pub timer : Bool
  pub crypto_suite : Option Str
  pub emergency : Bool
  pub callback : Bool
  pub garbage : List Str

pub data VaultErr : Type 0 where
  nil_master_key emergency_refused already_unsealed empty_share vault_sealed : VaultErr
  combine_failed : ShamirErr → VaultErr

-- NewVaultState
unfoldable pub new_vault : ℕ → ℕ → ℕ → Vault
new_vault total threshold auto_reseal_after = record {
  state = sealed;
  master_key = none;
  collected = [];
  threshold = threshold;
  total = total;
  auto_reseal_after = auto_reseal_after;
  timer = false;
  crypto_suite = none;
  emergency = false;
  callback = false;
  garbage = [];
}

unfoldable pub is_unsealed : Vault → Bool
is_unsealed v = elim v.state [ unsealed ↦ true | _ ↦ false ]

unfoldable pub is_sealed : Vault → Bool
is_sealed v = elim v.state [ sealed ↦ true | _ ↦ false ]

-- The last part of DirectUnseal and ProvideShare: the key is set, and the timer started where a
-- reseal delay is configured.
abbrev pub enter_unsealed : Vault → Str → Vault
enter_unsealed v key = record v {
  master_key = some key;
  state = unsealed;
  timer = if ltb 0 v.auto_reseal_after then true else v.timer;
}

-- DirectUnseal; `none` is a nil key.
unfoldable pub direct_unseal : Vault → Option Str → Vault × Option VaultErr
direct_unseal v key = elim key [
  | none ↦ (v, some nil_master_key)
  | some k ↦
      if v.emergency
      then (v, some emergency_refused)
      else elim v.state [ unsealed ↦ (v, some already_unsealed) | _ ↦ (enter_unsealed v k, none) ]
]

-- wipeCollectedShares
abbrev pub wipe_collected_shares : Vault → Vault
wipe_collected_shares v = record v { garbage = map clear v.collected ++ v.garbage; collected = [] }

-- The attempt to combine, when the pool has reached the threshold; the pool is wiped either way.
abbrev pub attempt : Vault → Vault × (Bool × Option VaultErr)
attempt v = elim (combine_with_threshold v.collected v.threshold) [
  | Sharing.err e ↦ (wipe_collected_shares v, (false, some (combine_failed e)))
  | Sharing.ok key ↦ (wipe_collected_shares (enter_unsealed v key), (true, none))
]

abbrev collect : Vault → Str → Vault × (Bool × Option VaultErr)
collect v share =
    let w = record v { collected = v.collected ++ share ∷ [] } in
    if ltb (length w.collected) w.threshold then (w, (false, none)) else attempt w

-- ProvideShare
unfoldable pub provide_share : Vault → Str → Vault × (Bool × Option VaultErr)
provide_share v [] = (v, (false, some empty_share))
provide_share v (x ∷ ys) =
    if v.emergency
    then (v, (false, some emergency_refused))
    else elim v.state [ unsealed ↦ (v, (true, some already_unsealed)) | _ ↦ collect v (x ∷ ys) ]

abbrev pub wipe_master_key : Vault → Vault
wipe_master_key v = elim v.master_key [
  | none ↦ v
  | some key ↦ record v { master_key = none; garbage = clear key ∷ v.garbage }
]

-- Seal: nothing is done where the vault is sealed already.
unfoldable pub seal : Vault → Vault
seal v = elim v.state [
  | sealed ↦ v
  | _ ↦
      record (wipe_collected_shares
        (wipe_master_key (record v { state = sealing; timer = false }))) { state = sealed }
]

-- EmergencySeal, and whether the callback was run.
unfoldable pub emergency_seal : Vault → Vault × Bool
emergency_seal v = (
  record (wipe_collected_shares
      (wipe_master_key (record v { emergency = true; state = sealing; timer = false }))) {
        state = sealed;
      },
  v.callback,
)

unfoldable pub set_emergency_seal_callback : Vault → Bool → Vault
set_emergency_seal_callback v given = record v { callback = given }

unfoldable pub set_crypto_suite : Vault → Option Str → Vault
set_crypto_suite v suite = record v { crypto_suite = suite }

-- The timer branch of autoResealLoop, while it waits.
unfoldable pub timer_fires : Vault → Vault
unfolding seal
timer_fires v = if v.timer then seal v else v

-- MasterKeyRef: the action on the key, or the refusal.
unfoldable pub master_key_ref : {A : Type 0} → Vault → (Str → A) → A ⊎ VaultErr
master_key_ref v action = elim v.state [
  | unsealed ↦ elim v.master_key [ none ↦ inr vault_sealed | some key ↦ inl (action key) ]
  | _ ↦ inr vault_sealed
]

-- KEKRef: the action on the KEK, which is the key with the suite that was set.
unfoldable pub kek_ref : {A : Type 0} → Vault → (Str → Option Str → A) → A ⊎ VaultErr
unfolding master_key_ref
kek_ref v action = master_key_ref v (λ key. action key v.crypto_suite)

-- MasterKeyEqual; `none` is a nil buffer.
unfoldable pub master_key_equal : Vault → Option Str → Bool
master_key_equal v expected = elim v.state [
  | unsealed ↦ elim v.master_key [
    | none ↦ false
    | some a ↦ elim expected [ none ↦ false | some b ↦ str_eq a b ]
  ]
  | _ ↦ false
]

-- Threshold, TotalShares, CollectedCount
unfoldable pub progress : Vault → ℕ × ℕ × ℕ
progress v = (v.threshold, v.total, length v.collected)

-- What can happen to a vault. A callback or a suite is set by the bootstrap.
pub data Event : Type 0 where
  share : Str → Event
  direct : Option Str → Event
  seal_call emergency_call timer_event : Event
  suite : Option Str → Event
  on_emergency : Bool → Event

unfoldable pub step : Vault → Event → Vault
unfolding provide_share direct_unseal seal emergency_seal timer_fires set_crypto_suite
    set_emergency_seal_callback
step v (share s) = (provide_share v s).0
step v (direct key) = (direct_unseal v key).0
step v seal_call = seal v
step v emergency_call = (emergency_seal v).0
step v timer_event = timer_fires v
step v (suite s) = set_crypto_suite v s
step v (on_emergency given) = set_emergency_seal_callback v given

unfoldable pub run : Vault → List Event → Vault
run v [] = v
run v (e ∷ es) = run (step v e) es

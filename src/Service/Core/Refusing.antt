-- ===== src/Service/Core/Refusing.antt =====
-- The guards of internal/service/core.go and core_v12.go: what a sealed vault and a policy refuse.
use yvonne.Base.{
  ℕ, Str, codes, Bool, true, false, Option, none, some, List, [], ◌∷◌, inl, inr, ◌≡◌, refl, ap, ◌∙◌,
  arith, Option-cases,
}
use yvonne.Storage.Interface.{KvStore}
use yvonne.Crypto.Versioned.Format.{Gcm}
use yvonne.Seal.Vault.Machine.{sealed, is_sealed}
use yvonne.Auth.Policy.Defs.{Policy}
use yvonne.Lifecycle.Metadata.{Codec, Kek}
use yvonne.Service.Core.Defs.{
  Core, Reply, err, ServiceErr, emergency_sealed, vault_sealed, require_unsealed, require_writable,
  authorize, after_guard, reading, writing,
}
use yvonne.Service.Core.Keys
use yvonne.Service.Core.Data
use yvonne.Service.Core.Calls
use yvonne.Service.Core.Calls.{Call, needs, outcome, perform}

-- The first action that the policy does not allow, by its error.
unfoldable pub first_denial : Option Policy → List (Str × Str) → Option ServiceErr
first_denial policy [] = none
first_denial policy ((action, key_id) ∷ more) =
    let rest = first_denial policy more in
    elim (authorize policy action key_id) [ some e ↦ some e | none ↦ rest ]

module _ {S A : Type 0} (policy : Option Policy) (action key_id : Str)
    (go : Core S → Core S × Reply A) (c : Core S) where
  module _ (e : ServiceErr) (shut : require_unsealed c.vault ≡ some e) where
    reading-sealed : reading policy action key_id go c ≡ (c, err e)
    unfolding after_guard
    reading-sealed = rw shut refl

    writing-sealed :
        (healthy : Option Bool) → writing healthy policy action key_id go c ≡ (c, err e)
    unfolding after_guard
    writing-sealed healthy = rw shut refl

  module _ (e : ServiceErr) (denied : authorize policy action key_id ≡ some e) where
    reading-denied : (e' : ServiceErr) × (reading policy action key_id go c ≡ (c, err e'))
    unfolding after_guard
    reading-denied = elim (Option-cases (require_unsealed c.vault)) [
      | inl open_vault ↦ (e, rw (open_vault, denied) refl)
      | inr (shut, s) ↦ (shut, rw s refl)
    ]

    writing-denied :
        (healthy : Option Bool)
        → (e' : ServiceErr) × (writing healthy policy action key_id go c ≡ (c, err e'))
    unfolding after_guard
    writing-denied healthy = elim (Option-cases (require_unsealed c.vault)) [
      | inr (shut, s) ↦ (shut, rw s refl)
      | inl open_vault ↦ elim (Option-cases (require_writable healthy)) [
        | inr (broken, b) ↦ (broken, rw (open_vault, b) refl)
        | inl works ↦ (e, rw (open_vault, works, denied) refl)
      ]
    ]

reading-passed :
    {S A : Type 0} (policy : Option Policy) (action key_id : Str) (go : Core S → Core S × Reply A)
    (c : Core S)
    → require_unsealed c.vault ≡ none
    → authorize policy action key_id ≡ none
    → reading policy action key_id go c ≡ go c
unfolding after_guard
reading-passed policy action key_id go c open_vault allowed = rw (open_vault, allowed) refl

guard_refuses :
    {S A : Type 0} {guard : Option ServiceErr} (e : ServiceErr) (c : Core S)
    (go : Core S → Core S × Reply A)
    → guard ≡ some e
    → after_guard guard c go ≡ (c, err e)
unfolding after_guard
guard_refuses e c go h = rw h refl

second_denial :
    (policy : Option Policy) (a b j k : Str) (e : ServiceErr)
    → first_denial policy ((a, j) ∷ (b, k) ∷ []) ≡ some e
    → authorize policy a j ≡ none
    → authorize policy b k ≡ some e
unfolding first_denial
second_denial policy a b j k e h allowed = elim (Option-cases (authorize policy b k)) [
  | inl both ↦ absurd (ground arith)
  | inr (e', denied) ↦ denied ∙ ground arith
]

only_denial :
    (policy : Option Policy) (action key_id : Str) (e : ServiceErr)
    → first_denial policy ((action, key_id) ∷ []) ≡ some e
    → authorize policy action key_id ≡ some e
unfolding first_denial
only_denial policy action key_id e h = elim (Option-cases (authorize policy action key_id)) [
  | inl allowed ↦ absurd (ground arith)
  | inr (e', denied) ↦ denied ∙ ground arith
]

module _ {S : Type 0} (kv : KvStore S) (codec : Codec) (count : S → ℕ) (scan_fuel now : ℕ)
    (ctx : Option Policy) (kek_of : Str → Option Str → Kek) (healthy : Option Bool)
    (random : ℕ → Option Str) (gcm : Gcm) (nonce : Option Str) (hmac : Str → Str → Str)
    (policy : Option Policy) (c : Core S) where
  abbrev performed : Call → Core S × Option ServiceErr
  performed call =
      perform kv codec count scan_fuel now ctx kek_of healthy random gcm nonce hmac policy call c

  sealed_refusal :
      (call : Call) (e : ServiceErr)
      → require_unsealed c.vault ≡ some e
      → performed call ≡ (c, some e)
  unfolding perform Keys.create_key Keys.rotate_key Keys.shred_key Keys.soft_delete_key
      Keys.restore_key Keys.disable_key Keys.enable_key Keys.get_public_key Data.encrypt
      Data.decrypt Data.re_encrypt Data.generate_data_key Data.generate_data_key_without_plaintext
      Data.generate_mac Data.verify_mac
  sealed_refusal (Calls.create key_id days return_dek) e h =
      ap outcome (writing-sealed policy (codes "CreateKey") key_id _ c e h healthy)
  sealed_refusal (Calls.rotate key_id) e h =
      ap outcome (writing-sealed policy (codes "KeyOp") key_id _ c e h healthy)
  sealed_refusal (Calls.shred key_id version) e h =
      ap outcome (writing-sealed policy (codes "KeyOp") key_id _ c e h healthy)
  sealed_refusal (Calls.soft_delete key_id version) e h =
      ap outcome (writing-sealed policy (codes "KeyOp") key_id _ c e h healthy)
  sealed_refusal (Calls.restore key_id version) e h =
      ap outcome (writing-sealed policy (codes "KeyOp") key_id _ c e h healthy)
  sealed_refusal (Calls.disable key_id) e h =
      ap outcome (reading-sealed policy (codes "KeyOp") key_id _ c e h)
  sealed_refusal (Calls.generate key_id) e h =
      ap outcome (reading-sealed policy (codes "KeyOp") key_id _ c e h)
  sealed_refusal (Calls.generate_wrapped key_id) e h =
      ap outcome (reading-sealed policy (codes "KeyOp") key_id _ c e h)
  sealed_refusal (Calls.public_key key_id) e h =
      ap outcome (reading-sealed policy (codes "KeyOp") key_id _ c e h)
  sealed_refusal (Calls.enable key_id version) e h =
      ap outcome (reading-sealed policy (codes "KeyOp") key_id _ c e h)
  sealed_refusal (Calls.encrypt key_id plain) e h =
      ap outcome (reading-sealed policy (codes "Encrypt") key_id _ c e h)
  sealed_refusal (Calls.decrypt key_id raw) e h =
      ap outcome (reading-sealed policy (codes "Decrypt") key_id _ c e h)
  sealed_refusal (Calls.generate_mac key_id message) e h =
      ap outcome (reading-sealed policy (codes "GenerateMac") key_id _ c e h)
  sealed_refusal (Calls.verify_mac key_id message expected) e h =
      ap
        (λ r.
          outcome
            (Data.compared kv codec scan_fuel now ctx kek_of gcm nonce hmac key_id expected r))
        (reading-sealed policy (codes "GenerateMac") key_id _ c e h)
  sealed_refusal (Calls.re_encrypt source raw dest) e h =
      ap outcome (reading-sealed policy (codes "Decrypt") source _ c e h)

  -- The denial of the first action that a call needs.
  first_refusal :
      (call : Call) (e : ServiceErr)
      → first_denial policy (needs call) ≡ some e
      → (e' : ServiceErr) × (performed call ≡ (c, some e'))
  unfolding perform Keys.create_key Keys.rotate_key Keys.shred_key Keys.soft_delete_key
      Keys.restore_key Keys.disable_key Keys.enable_key Keys.get_public_key Data.encrypt
      Data.decrypt Data.re_encrypt Data.generate_data_key Data.generate_data_key_without_plaintext
      Data.generate_mac Data.verify_mac
  first_refusal (Calls.create key_id days return_dek) e h =
      let (e', r) =
        writing-denied policy (codes "CreateKey") key_id _ c e
          (only_denial policy (codes "CreateKey") key_id e h) healthy in
      (e', ap outcome r)
  first_refusal (Calls.rotate key_id) e h =
      let (e', r) =
        writing-denied policy (codes "KeyOp") key_id _ c e
          (only_denial policy (codes "KeyOp") key_id e h) healthy in
      (e', ap outcome r)
  first_refusal (Calls.shred key_id version) e h =
      let (e', r) =
        writing-denied policy (codes "KeyOp") key_id _ c e
          (only_denial policy (codes "KeyOp") key_id e h) healthy in
      (e', ap outcome r)
  first_refusal (Calls.soft_delete key_id version) e h =
      let (e', r) =
        writing-denied policy (codes "KeyOp") key_id _ c e
          (only_denial policy (codes "KeyOp") key_id e h) healthy in
      (e', ap outcome r)
  first_refusal (Calls.restore key_id version) e h =
      let (e', r) =
        writing-denied policy (codes "KeyOp") key_id _ c e
          (only_denial policy (codes "KeyOp") key_id e h) healthy in
      (e', ap outcome r)
  first_refusal (Calls.disable key_id) e h =
      let (e', r) =
        reading-denied policy (codes "KeyOp") key_id _ c e
          (only_denial policy (codes "KeyOp") key_id e h) in
      (e', ap outcome r)
  first_refusal (Calls.generate key_id) e h =
      let (e', r) =
        reading-denied policy (codes "KeyOp") key_id _ c e
          (only_denial policy (codes "KeyOp") key_id e h) in
      (e', ap outcome r)
  first_refusal (Calls.generate_wrapped key_id) e h =
      let (e', r) =
        reading-denied policy (codes "KeyOp") key_id _ c e
          (only_denial policy (codes "KeyOp") key_id e h) in
      (e', ap outcome r)
  first_refusal (Calls.public_key key_id) e h =
      let (e', r) =
        reading-denied policy (codes "KeyOp") key_id _ c e
          (only_denial policy (codes "KeyOp") key_id e h) in
      (e', ap outcome r)
  first_refusal (Calls.enable key_id version) e h =
      let (e', r) =
        reading-denied policy (codes "KeyOp") key_id _ c e
          (only_denial policy (codes "KeyOp") key_id e h) in
      (e', ap outcome r)
  first_refusal (Calls.encrypt key_id plain) e h =
      let (e', r) =
        reading-denied policy (codes "Encrypt") key_id _ c e
          (only_denial policy (codes "Encrypt") key_id e h) in
      (e', ap outcome r)
  first_refusal (Calls.decrypt key_id raw) e h =
      let (e', r) =
        reading-denied policy (codes "Decrypt") key_id _ c e
          (only_denial policy (codes "Decrypt") key_id e h) in
      (e', ap outcome r)
  first_refusal (Calls.generate_mac key_id message) e h =
      let (e', r) =
        reading-denied policy (codes "GenerateMac") key_id _ c e
          (only_denial policy (codes "GenerateMac") key_id e h) in
      (e', ap outcome r)
  first_refusal (Calls.verify_mac key_id message expected) e h =
      let (e', r) =
        reading-denied policy (codes "GenerateMac") key_id _ c e
          (only_denial policy (codes "GenerateMac") key_id e h) in
      (
        e',
        ap
            (λ r.
              outcome
                (Data.compared kv codec scan_fuel now ctx kek_of gcm nonce hmac key_id expected r))
            r,
      )
  first_refusal (Calls.re_encrypt source raw dest) e h =
      elim (Option-cases (authorize policy (codes "Decrypt") source)) [
        | inr (denial, d) ↦
            let (e', r) = reading-denied policy (codes "Decrypt") source _ c denial d in
            (e', ap outcome r)
        | inl allowed ↦ elim (Option-cases (require_unsealed c.vault)) [
          | inr (shut, s) ↦
              (shut, ap outcome (reading-sealed policy (codes "Decrypt") source _ c shut s))
          | inl open_vault ↦ (
            e,
            ap outcome (
                reading-passed policy (codes "Decrypt") source _ c open_vault allowed
                ∙ guard_refuses e c _ (
                    second_denial policy (codes "Decrypt") (codes "Encrypt") source dest e h
                      allowed)),
          )
        ]
      ]

  -- Every operation on keys and data returns an error and changes nothing, the audit log included,
  -- while the vault is emergency sealed or Sealed, and also if the policy does not allow one of the
  -- actions that the operation needs.
  pub perform_refuses :
      (call : Call)
      → (c.vault.emergency ≡ true → performed call ≡ (c, some emergency_sealed))
        × (c.vault.emergency ≡ false
            → c.vault.state ≡ sealed
            → performed call ≡ (c, some vault_sealed))
        × ((e : ServiceErr)
            → first_denial policy (needs call) ≡ some e
            → (e' : ServiceErr) × (performed call ≡ (c, some e')))
  unfolding require_unsealed is_sealed
  perform_refuses call = (
    λ frozen. sealed_refusal call emergency_sealed (ground arith),
    λ calm shut. sealed_refusal call vault_sealed (ground arith),
    first_refusal call,
  )

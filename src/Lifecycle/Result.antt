-- ===== src/Lifecycle/Result.antt =====
-- The errors of internal/lifecycle, and transactions: actions on a store that may fail.
use yvonne.Base.{Option, none, some}
use yvonne.Lifecycle.Metadata.{KeyState}
use yvonne.Storage.Memory.{StoreErr}

pub data LifecycleErr : Type 0 where
  empty_key_id nil_kek quota_exceeded random_failed wrap_failed unwrap_failed : LifecycleErr
  not_found bad_metadata key_destroyed unknown_state unsupported_key_type : LifecycleErr
  generate_failed encrypt_failed out_of_fuel : LifecycleErr
  not_active : KeyState → LifecycleErr
  put_failed : StoreErr → LifecycleErr

pub data Result {ℓ} (A : Type ℓ) : Type ℓ where
  ok : A → Result A
  err : LifecycleErr → Result A

-- What a WithTx callback does to the store, and what it returns.
abbrev pub Tx : Type 0 → Type 0 → Type 0
Tx S A = S → S × Result A

module _ {S : Type 0} where
  infixl 5 ◌>>=◌ ◌>>◌
  abbrev pub ◌>>=◌ : {A B : Type 0} → Tx S A → (A → Tx S B) → Tx S B
  ◌>>=◌ m f s = let (s', r) = m s in elim r [ ok a ↦ f a s' | err e ↦ (s', err e) ]

  abbrev pub ◌>>◌ : {B : Type 0} → Tx S (Unit {0}) → Tx S B → Tx S B
  m >> k = m >>= λ _. k

  abbrev pub pure : {A : Type 0} → A → Tx S A
  pure a s = (s, ok a)

  abbrev pub fail : {A : Type 0} → LifecycleErr → Tx S A
  fail e s = (s, err e)

  abbrev pub require : {A : Type 0} → Option A → LifecycleErr → Tx S A
  require none e = fail e
  require (some a) e = pure a

abbrev pub of_put : Option StoreErr → Result (Unit {0})
of_put none = ok tt
of_put (some e) = err (put_failed e)

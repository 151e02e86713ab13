-- ===== src/Lifecycle/Manager/Operations.antt =====
-- internal/lifecycle/manager.go: the methods of the key manager.
use yvonne.Base.{
  ℕ, Str, codes, ◌≡◌, ◌≢◌, refl, ◌&&◌, ◌||◌, str_eq, Bool, true, false, Option, none, some, [], ◌∷◌,
  ltb, leb, if◌then◌else◌,
}
use yvonne.Storage.Interface.{KvStore}
use yvonne.Crypto.Versioned.Format
use yvonne.Crypto.Versioned.Format.{Gcm, encrypt_versioned, safe_uint32}
use yvonne.Lifecycle.Metadata.{
  KeyState, active, deactivated, soft_deleted, destroyed, unknown, KeyMetadata, Codec, Kek,
  algorithm_from_kek, dek_size_from_kek,
}
use yvonne.Lifecycle.Result.{
  Result, ok, err, Tx, ◌>>=◌, ◌>>◌, pure, require, empty_key_id, nil_kek, quota_exceeded,
  random_failed, wrap_failed, unwrap_failed, encrypt_failed, key_destroyed, unknown_state,
  not_active, unsupported_key_type, generate_failed,
}
use yvonne.Lifecycle.Manager.Defs.{
  Manager, find_latest_version, load_metadata, notify_cluster, with_tx, invalidate_cache,
}
use yvonne.Lifecycle.Manager.Transactions.{
  put_metadata, put_latest, next_rotation, rotate_tx, shred_tx, soft_delete_tx, restore_tx,
}

-- The metadata that CreateKey writes.
abbrev pub created_metadata : ℕ → Kek → Str → ℕ → Str → KeyMetadata
created_metadata now kek key_id days wrapped = record {
  key_id = key_id;
  version = 1;
  state = active;
  key_type = [];
  algorithm = algorithm_from_kek kek;
  key_usage = codes "encrypt" ∷ codes "decrypt" ∷ [];
  encrypted_material = wrapped;
  kek_type = kek.kek_type;
  public_key = [];
  created_at = now;
  deleted_at = none;
  rotation_period_days = days;
  next_rotation_at = next_rotation now days;
}

-- The metadata that CreateAsymmetricKey writes.
abbrev pub asymmetric_metadata : ℕ → Kek → Str → Str → Str → Str → KeyMetadata
asymmetric_metadata now kek key_id algo wrapped public_key = record {
  key_id = key_id;
  version = 1;
  state = active;
  key_type = algo;
  algorithm = [];
  key_usage = [];
  encrypted_material = wrapped;
  kek_type = kek.kek_type;
  public_key = public_key;
  created_at = now;
  deleted_at = none;
  rotation_period_days = 0;
  next_rotation_at = none;
}

module _ {S : Type 0} (kv : KvStore S) (codec : Codec) where
  -- What a method does outside WithTx: the store keeps what was written, also on an error.
  abbrev pub directly : {A : Type 0} → Tx S A → Manager S → Manager S × Result A
  directly tx m = let (s', r) = tx m.store in (record m { store = s' }, r)

  unfoldable pub create_tx : ℕ → (ℕ → Option Str) → Kek → Str → ℕ → Tx S (KeyMetadata × Str)
  create_tx now random kek key_id days = do
    plain ← require (random (dek_size_from_kek kek)) random_failed
    wrapped ← require (kek.wrap_dek plain) wrap_failed
    let meta = created_metadata now kek key_id days wrapped
    put_metadata kv codec key_id 1 meta
    put_latest kv codec key_id 1
    pure (meta, plain)

  -- The guards that most methods begin with.
  abbrev pub with_kek :
      {A : Type 0}
      → Str
      → Option Kek
      → (Kek → Manager S → Manager S × Result A)
      → Manager S
      → Manager S × Result A
  with_kek [] kek action m = (m, err empty_key_id)
  with_kek (c ∷ key_id) none action m = (m, err nil_kek)
  with_kek (c ∷ key_id) (some kek) action m = action kek m

  -- CreateKey; `count` is countKeys on the store.
  unfoldable pub create_key :
      (S → ℕ)
      → ℕ
      → (ℕ → Option Str)
      → Option Kek
      → Str
      → ℕ
      → Manager S
      → Manager S × Result (KeyMetadata × Str)
  unfolding create_tx
  create_key count now random kek key_id days = with_kek key_id kek λ k m.
      if ltb 0 m.max_global_keys && leb m.max_global_keys (count m.store)
      then (m, err quota_exceeded)
      else directly (create_tx now random k key_id days) m

  -- CreateAsymmetricKey in the standard build; `generate` is crypto.GenerateAsymmetricKey and the
  -- serialisation: the private key's DER and the public key's PEM.
  create_asymmetric_tx : ℕ → (Str → Option (Str × Str)) → Kek → Str → Str → Tx S KeyMetadata
  create_asymmetric_tx now generate kek key_id algo = do
    pair ← require (generate algo) generate_failed
    wrapped ← require (kek.wrap_dek pair.0) wrap_failed
    let meta = asymmetric_metadata now kek key_id algo wrapped pair.1
    put_metadata kv codec key_id 1 meta
    put_latest kv codec key_id 1
    pure meta

  -- The SM2 build tag is off: SM2 is accepted by the test and refused by its stub.
  unfoldable pub create_asymmetric_key :
      ℕ
      → (Str → Option (Str × Str))
      → Option Kek
      → Str
      → Str
      → Manager S
      → Manager S × Result KeyMetadata
  unfolding create_asymmetric_tx
  create_asymmetric_key now generate kek key_id algo = with_kek key_id kek λ k m.
      if str_eq algo (codes "rsa") || str_eq algo (codes "ecdsa")
      then directly (create_asymmetric_tx now generate k key_id algo) m
      else (m, err unsupported_key_type)

  -- After a commit: the local cache forgets the key and the other nodes are told to.
  abbrev pub invalidate_and_notify : Str → Manager S → Manager S
  invalidate_and_notify key_id m = notify_cluster kv (invalidate_cache m key_id) key_id

  abbrev pub after_commit : {A : Type 0} → Str → Manager S × Result A → Manager S × Result A
  after_commit key_id (m, ok a) = (invalidate_and_notify key_id m, ok a)
  after_commit key_id (m, err e) = (m, err e)

  -- RotateKey
  unfoldable pub rotate_key :
      ℕ
      → ℕ
      → (ℕ → Option Str)
      → Option Kek
      → Str
      → Manager S
      → Manager S × Result (KeyMetadata × Str)
  rotate_key scan_fuel now random kek key_id =
      with_kek key_id kek
        λ k m. after_commit key_id (with_tx kv (rotate_tx kv codec scan_fuel now random k key_id) m)

  -- ShredKey
  unfoldable pub shred_key : Str → ℕ → Manager S → Manager S × Result (Unit {0})
  shred_key key_id version m = after_commit key_id (with_tx kv (shred_tx kv codec key_id version) m)

  -- SoftDeleteKey: no cache is invalidated and no node is told.
  unfoldable pub soft_delete_key : ℕ → Str → ℕ → Manager S → Manager S × Result (Unit {0})
  soft_delete_key now key_id version m = with_tx kv (soft_delete_tx kv codec now key_id version) m

  -- RestoreKey: the cache is invalidated at the end of the callback only. The broadcast goes out
  -- in the transaction if the callback ran to its end, or after every commit by the notifier.
  abbrev pub after_restore : Str → Manager S × Result Bool → Manager S × Result (Unit {0})
  after_restore key_id (m, ok true) = (invalidate_and_notify key_id m, ok tt)
  after_restore key_id (m, ok false) =
      (if kv.tx_notifier then m else notify_cluster kv m key_id, ok tt)
  after_restore key_id (m, err e) = (m, err e)

  unfoldable pub restore_key : Str → ℕ → Manager S → Manager S × Result (Unit {0})
  restore_key key_id version m =
      after_restore key_id (with_tx kv (restore_tx kv codec key_id version) m)

  -- GetKey
  unfoldable pub get_key : ℕ → Str → ℕ → Manager S → Manager S × Result KeyMetadata
  get_key now key_id version m = load_metadata kv codec now m key_id version

  abbrev active_only : Manager S × Result KeyMetadata → Manager S × Result KeyMetadata
  active_only (m, err e) = (m, err e)
  active_only (m, ok meta) = elim meta.state [
    | active ↦ (m, ok meta)
    | st ↦ (m, err (not_active st))
  ]

  -- GetActiveKey
  unfoldable pub get_active_key : ℕ → ℕ → Str → Manager S → Manager S × Result KeyMetadata
  get_active_key scan_fuel now key_id m = elim (find_latest_version kv scan_fuel m.store key_id) [
    | err e ↦ (m, err e)
    | ok latest ↦ active_only (load_metadata kv codec now m key_id latest)
  ]

  abbrev decryptable : KeyMetadata → KeyState → Result KeyMetadata
  decryptable meta active = ok meta
  decryptable meta deactivated = ok meta
  decryptable meta soft_deleted = ok meta
  decryptable meta destroyed = err key_destroyed
  decryptable meta (unknown s) = err unknown_state

  abbrev for_decrypt : Manager S × Result KeyMetadata → Manager S × Result KeyMetadata
  for_decrypt (m, err e) = (m, err e)
  for_decrypt (m, ok meta) = (m, decryptable meta meta.state)

  -- GetKeyForDecrypt
  unfoldable pub get_key_for_decrypt : ℕ → Str → ℕ → Manager S → Manager S × Result KeyMetadata
  get_key_for_decrypt now key_id version m =
      for_decrypt (load_metadata kv codec now m key_id version)

  -- GenerateDataKey, once the active metadata is read: the plain data key and the wrapped one.
  abbrev wrap_data_key :
      Gcm → (ℕ → Option Str) → Option Str → Kek → KeyMetadata → Result (Str × Str)
  wrap_data_key gcm random nonce kek meta = elim (random (dek_size_from_kek kek)) [
    | none ↦ err random_failed
    | some plain ↦ elim (kek.unwrap_dek meta.encrypted_material) [
      | none ↦ err unwrap_failed
      | some stored ↦ elim (encrypt_versioned gcm stored nonce (safe_uint32 meta.version) plain) [
        | Format.ok ciphertext ↦ ok (plain, ciphertext)
        | Format.err e ↦ err encrypt_failed
      ]
    ]
  ]

  abbrev then_wrap :
      (KeyMetadata → Result (Str × Str))
      → Manager S × Result KeyMetadata
      → Manager S × Result (Str × Str)
  then_wrap wrap (m, err e) = (m, err e)
  then_wrap wrap (m, ok meta) = (m, wrap meta)

  -- GenerateDataKey
  unfoldable pub generate_data_key :
      Gcm
      → ℕ
      → ℕ
      → (ℕ → Option Str)
      → Option Str
      → Option Kek
      → Str
      → Manager S
      → Manager S × Result (Str × Str)
  unfolding get_active_key
  generate_data_key gcm scan_fuel now random nonce kek key_id =
      with_kek key_id kek
        λ k m. then_wrap (wrap_data_key gcm random nonce k) (get_active_key scan_fuel now key_id m)

-- The guards pass a named key and a KEK on.
pub with_kek-some :
    {S A : Type 0} (kv : KvStore S) (codec : Codec) (key_id : Str) (kek : Kek)
    (action : Kek → Manager S → Manager S × Result A) (m : Manager S)
    → key_id ≢ []
    → with_kek kv codec key_id (some kek) action m ≡ action kek m
with_kek-some kv codec [] kek action m h = absurd (h refl)
with_kek-some kv codec (c ∷ key_id) kek action m h = refl

-- ===== src/Examples/Services.antt =====
-- The service core of internal/service on MemoryStore, with a cipher that changes nothing.
use yvonne.Base.{
  Str, codes, [], ◌∷◌, true, false, Option, none, some, ◌≡◌, refl, arith, replicate, drop,
}
use yvonne.Storage.Interface.{memory_kv}
use yvonne.Storage.Memory.{MemoryStore}
use yvonne.Seal.Vault.Machine.{Vault, unsealed}
use yvonne.Lifecycle.Metadata.{KeyMetadata, Kek, active, dek_size_from_kek}
use yvonne.Lifecycle.Manager.CreateKey.{memory-Reliable}
use yvonne.Service.Core.Defs.{Core, ok, emergency_sealed, authorize, require_writable}
use yvonne.Service.Core.Keys
use yvonne.Service.Core.Data
use yvonne.Service.Core.Calls.{Call, perform}
use yvonne.Service.Core.Calls
use yvonne.Service.Core.Refusing.{perform_refuses}
use yvonne.Service.Core.Surviving.{decrypt-rotate-encrypt, encrypted, rotated}
use yvonne.Examples.Json.{json}
use yvonne.Examples.Keys.{
  user, first, manager_of, find_first, meta_first, first-IsUncached, named, random,
}
use yvonne.Examples.Stores.{plain_cipher, key, nonce}

abbrev tagging : Kek
tagging = record {
  wrap_dek = λ plain. some (7 ∷ plain);
  unwrap_dek = λ wrapped. some (drop 1 wrapped);
  kek_type = codes "local";
  key_size = none;
}

abbrev kek_of : Str → Option Str → Kek
kek_of master suite = tagging

-- Version 1, whose key is wrapped by that KEK.
abbrev held : KeyMetadata
held = record (first active) { encrypted_material = 7 ∷ key }

abbrev open_vault : Vault
open_vault = record {
  state = unsealed;
  master_key = some (codes "master");
  collected = [];
  threshold = 2;
  total = 3;
  auto_reseal_after = 0;
  timer = false;
  crypto_suite = none;
  emergency = false;
  callback = false;
  garbage = [];
}

abbrev core : Core MemoryStore
core = record {
  vault = open_vault;
  manager = manager_of held;
  audit_log = some [];
  admin_token = [];
  alerts = [];
}

abbrev shut_core : Core MemoryStore
shut_core = record core { vault = record open_vault { emergency = true } }

allowed : (action : Str) → authorize none action user ≡ none
unfolding authorize
allowed action = refl

works : require_writable none ≡ none
unfolding require_writable
works = refl

drawn : random (dek_size_from_kek tagging) ≡ some (replicate 32 9)
unfolding dek_size_from_kek
drawn = refl

abbrev hmac : Str → Str → Str
hmac key message = key

perform_refuses_example :
    perform memory_kv json
      (λ s. 1)
      9
      100
      none
      kek_of
      none
      random
      plain_cipher
      (some nonce)
      hmac
      none
      (Calls.rotate user)
      shut_core
    ≡ (shut_core, some emergency_sealed)
perform_refuses_example =
    (perform_refuses memory_kv json (λ s. 1) 9 100 none kek_of none random plain_cipher (some nonce)
        hmac none shut_core (Calls.rotate user)).0
      refl

decrypt-rotate-encrypt_example :
    (raw : Str) × ((Data.encrypt memory_kv json 9 100 none kek_of plain_cipher
        (some nonce)
        user
        (codes "hello")
        none
        core).1
      ≡ ok (record { ciphertext = raw; version = 1 }))
    × ((Keys.rotate_key memory_kv json 9 100 none kek_of none random user none (
          encrypted memory_kv json 9 100 none kek_of none random plain_cipher nonce none user
            (codes "master")
            core
            1
            held
            key
            (codes "hello")
            (replicate 32 9)
            (7 ∷ replicate 32 9))).1
        ≡ ok (record { key_id = user; new_version = 2; plaintext_dek = replicate 32 9 }))
    × ((Data.decrypt memory_kv json 9 100 none kek_of plain_cipher (some nonce) user raw none (
          rotated memory_kv json 9 100 none kek_of none random plain_cipher nonce none user
            (codes "master")
            core
            1
            held
            key
            (codes "hello")
            (replicate 32 9)
            (7 ∷ replicate 32 9))).1
        ≡ ok (record { plaintext = codes "hello"; version = 1 }))
decrypt-rotate-encrypt_example =
    decrypt-rotate-encrypt memory_kv json 9 100 none kek_of none random plain_cipher nonce none user
      (codes "master") core 1 held key (codes "hello") (replicate 32 9) (7 ∷ replicate 32 9)
      (refl, refl, refl) works (allowed _) (allowed _) (allowed _) named memory-Reliable
      (first-IsUncached held 100) (find_first held) (meta_first held) refl refl (omega arith) refl
      refl refl drawn refl

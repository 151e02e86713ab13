-- ===== src/Service/Core/Calls.antt =====
-- internal/service: the operations of Core as one type of calls.
use yvonne.Base.{ℕ, Str, codes, Bool, Option, none, some, List, [], ◌∷◌}
use yvonne.Storage.Interface.{KvStore}
use yvonne.Crypto.Versioned.Format.{Gcm}
use yvonne.Auth.Policy.Defs.{Policy}
use yvonne.Lifecycle.Metadata.{Codec, Kek}
use yvonne.Service.Core.Defs.{Core, Reply, ok, err, ServiceErr}
use yvonne.Service.Core.Keys
use yvonne.Service.Core.Data

pub data Call : Type 0 where
  create : Str → ℕ → Bool → Call
  rotate disable generate generate_wrapped public_key : Str → Call
  shred soft_delete restore enable : Str → ℕ → Call
  encrypt decrypt generate_mac : Str → Str → Call
  verify_mac re_encrypt : Str → Str → Str → Call

-- The actions on keys that a call needs, in the order in which they are asked for.
abbrev pub needs : Call → List (Str × Str)
needs (create key_id days return_dek) = (codes "CreateKey", key_id) ∷ []
needs (rotate key_id) = (codes "KeyOp", key_id) ∷ []
needs (disable key_id) = (codes "KeyOp", key_id) ∷ []
needs (generate key_id) = (codes "KeyOp", key_id) ∷ []
needs (generate_wrapped key_id) = (codes "KeyOp", key_id) ∷ []
needs (public_key key_id) = (codes "KeyOp", key_id) ∷ []
needs (shred key_id version) = (codes "KeyOp", key_id) ∷ []
needs (soft_delete key_id version) = (codes "KeyOp", key_id) ∷ []
needs (restore key_id version) = (codes "KeyOp", key_id) ∷ []
needs (enable key_id version) = (codes "KeyOp", key_id) ∷ []
needs (encrypt key_id plain) = (codes "Encrypt", key_id) ∷ []
needs (decrypt key_id raw) = (codes "Decrypt", key_id) ∷ []
needs (generate_mac key_id message) = (codes "GenerateMac", key_id) ∷ []
needs (verify_mac key_id message expected) = (codes "GenerateMac", key_id) ∷ []
needs (re_encrypt source raw dest) = (codes "Decrypt", source) ∷ (codes "Encrypt", dest) ∷ []

-- The error of a reply, if it has one.
abbrev pub outcome : {S A : Type 0} → Core S × Reply A → Core S × Option ServiceErr
outcome (c, ok a) = (c, none)
outcome (c, err e) = (c, some e)

module _ {S : Type 0} (kv : KvStore S) (codec : Codec) (count : S → ℕ) (scan_fuel now : ℕ)
    (ctx : Option Policy) (kek_of : Str → Option Str → Kek) (healthy : Option Bool)
    (random : ℕ → Option Str) (gcm : Gcm) (nonce : Option Str) (hmac : Str → Str → Str) where
  -- What a call does, and the error that it returns.
  unfoldable pub perform : Option Policy → Call → Core S → Core S × Option ServiceErr
  perform policy (create key_id days return_dek) c = outcome (
      Keys.create_key kv codec scan_fuel now ctx kek_of healthy random count key_id days return_dek
        policy c)
  perform policy (rotate key_id) c =
      outcome (Keys.rotate_key kv codec scan_fuel now ctx kek_of healthy random key_id policy c)
  perform policy (disable key_id) c =
      outcome (Keys.disable_key kv codec scan_fuel now ctx kek_of healthy random key_id policy c)
  perform policy (generate key_id) c =
      outcome
        (Data.generate_data_key kv codec scan_fuel now ctx kek_of gcm nonce random key_id policy c)
  perform policy (generate_wrapped key_id) c = outcome (
      Data.generate_data_key_without_plaintext kv codec scan_fuel now ctx kek_of gcm nonce random
        key_id policy c)
  perform policy (public_key key_id) c =
      outcome (Keys.get_public_key kv codec scan_fuel now ctx kek_of healthy random key_id policy c)
  perform policy (shred key_id version) c =
      outcome
        (Keys.shred_key kv codec scan_fuel now ctx kek_of healthy random key_id version policy c)
  perform policy (soft_delete key_id version) c = outcome (
      Keys.soft_delete_key kv codec scan_fuel now ctx kek_of healthy random key_id version policy c)
  perform policy (restore key_id version) c =
      outcome
        (Keys.restore_key kv codec scan_fuel now ctx kek_of healthy random key_id version policy c)
  perform policy (enable key_id version) c =
      outcome
        (Keys.enable_key kv codec scan_fuel now ctx kek_of healthy random key_id version policy c)
  perform policy (encrypt key_id plain) c =
      outcome (Data.encrypt kv codec scan_fuel now ctx kek_of gcm nonce key_id plain policy c)
  perform policy (decrypt key_id raw) c =
      outcome (Data.decrypt kv codec scan_fuel now ctx kek_of gcm nonce key_id raw policy c)
  perform policy (generate_mac key_id message) c =
      outcome
        (Data.generate_mac kv codec scan_fuel now ctx kek_of gcm nonce hmac key_id message policy c)
  perform policy (verify_mac key_id message expected) c = outcome (
      Data.verify_mac kv codec scan_fuel now ctx kek_of gcm nonce hmac key_id message expected
        policy c)
  perform policy (re_encrypt source raw dest) c =
      outcome (Data.re_encrypt kv codec scan_fuel now ctx kek_of gcm nonce source raw dest policy c)

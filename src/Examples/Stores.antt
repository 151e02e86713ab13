-- ===== src/Examples/Stores.antt =====
-- The in-memory store of internal/storage, the ciphertext format of internal/crypto and the shares
-- of internal/seal, run on small inputs.
use yvonne.Base.{
  none, str_eq, ℕ, Str, codes, List, [], ◌∷◌, ◌++◌, Option, some, ◌≡◌, refl, arith, replicate, drop,
}
use yvonne.Storage.Memory.{
  replies, replies-refine, put_value, tx_delete_value, get_value, done, found, MemoryStore,
  new_memory_store, Call, call_put, call_delete, IsClean, run, run-IsClean,
  new_memory_store-IsClean, put,
}
use yvonne.Crypto.Versioned.Format.{Gcm, ok, extract_version, encrypt_versioned, decrypt_versioned}
use yvonne.Crypto.Versioned.RoundTrip.{decrypt-encrypt}
use yvonne.Seal.Shamir.Field.{gf_mul, gf_inv, gf_exp, gf_log}
use yvonne.Seal.Shamir.Sharing.{split, combine_with_threshold}
use yvonne.Seal.Shamir.Sharing

-- Two writes of a key and a deletion of another.
abbrev calls : List Call
calls =
    call_put (codes "a") (codes "old")
    ∷ call_put (codes "a") (codes "new")
    ∷ call_delete (codes "b")
    ∷ []

run-IsClean_example : IsClean (run new_memory_store calls)
run-IsClean_example = run-IsClean new_memory_store calls new_memory_store-IsClean

abbrev three : MemoryStore
three =
    (put (put (put new_memory_store (codes "k2") (codes "y")).0 (codes "j") (codes "z")).0
      (codes "k1") (codes "x")).0

-- A cipher that changes nothing and whose tag is 16 zeros in front.
abbrev pub plain_cipher : Gcm
plain_cipher = record {
  seal = λ key nonce plain. replicate 16 0 ++ plain;
  open_sealed = λ key nonce raw. some (drop 16 raw);
  length_seal = λ key nonce plain. omega arith;
  open_seal = λ key nonce plain. refl;
}

abbrev pub key : Str
key = replicate 32 1

abbrev pub nonce : Str
nonce = replicate 12 2

decrypt-encrypt_example :
    (raw : Str) × (encrypt_versioned plain_cipher key (some nonce) 3 (codes "hello") ≡ ok raw)
    × (decrypt_versioned plain_cipher key raw ≡ ok (codes "hello", 3))
    × (extract_version raw ≡ ok 3)
decrypt-encrypt_example =
    decrypt-encrypt plain_cipher key nonce 3 (codes "hello") refl refl (omega arith)

-- A line through the secret 42 and the shares of it at 1, 2 and 3.
abbrev fives : ℕ → ℕ → Option Str
fives byte n = some (replicate n 5)

abbrev shares : List Str
shares = (1 ∷ 47 ∷ []) ∷ (2 ∷ 32 ∷ []) ∷ (3 ∷ 37 ∷ []) ∷ []

split-shares : split fives (some (42 ∷ [])) 3 2 ≡ Sharing.ok shares
unfolding split Sharing.gf_eval gf_mul gf_exp gf_log
split-shares = refl

combine-shares : combine_with_threshold shares 2 ≡ Sharing.ok (42 ∷ [])
unfolding combine_with_threshold Sharing.combine Sharing.all_well_formed Sharing.distinct_x
    Sharing.interpolate_bytes gf_inv gf_mul gf_exp gf_log
combine-shares = refl

replies-refine_example :
    replies new_memory_store
      (put_value (codes "a") (codes "x") ∷ tx_delete_value (codes "a") ∷ get_value (codes "a") ∷ [])
    ≡ done none ∷ done none ∷ found none ∷ []
unfolding str_eq
replies-refine_example =
    replies-refine
      (put_value (codes "a") (codes "x") ∷ tx_delete_value (codes "a") ∷ get_value (codes "a") ∷ [])

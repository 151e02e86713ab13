-- ===== src/Lifecycle/Cache.antt =====
-- internal/lifecycle/cache.go: the DEK metadata cache with its negative entries. Its mutex makes
-- each method atomic; the clock's reading is an argument.
use yvonne.Base.{
  ℕ, ◌+◌, Str, Assoc, lookup, insert, remove, remove_where, lookup-insert, lookup-remove,
  lookup-remove_where, has_prefix, str_eq, str_eq_refl, Bool, true, false, [], Option, none, some,
  ◌≡◌, refl, arith, ltb, length, if◌then◌else◌,
}
use yvonne.Lifecycle.Metadata.{KeyMetadata}
use yvonne.Lifecycle.Keys.{
  version_prefix, metadata_key, latest_version_metadata_key, metadata_key-has_prefix,
}

-- `negative`: keys known to be absent, with the time at which that expires.
pub record DekCache : Type 0 where
  pub entries : Assoc KeyMetadata
  pub negative : Assoc ℕ
  pub negative_ttl : ℕ

-- newDekCache; 5 seconds in nanoseconds.
unfoldable pub new_dek_cache : DekCache
new_dek_cache = record { entries = []; negative = []; negative_ttl = 5_000_000_000 }

unfoldable pub get : DekCache → Str → Option KeyMetadata
get c key = lookup key c.entries

unfoldable pub put : DekCache → Str → KeyMetadata → DekCache
put c key meta = record c { entries = insert key meta c.entries; negative = remove key c.negative }

unfoldable pub put_negative : ℕ → DekCache → Str → DekCache
put_negative now c key = record c { negative = insert key (now + c.negative_ttl) c.negative }

unfoldable pub is_negative : ℕ → DekCache → Str → Bool
is_negative now c key = elim (lookup key c.negative) [
  | none ↦ false
  | some expiry ↦ if ltb expiry now then false else true
]

unfoldable pub invalidate : DekCache → Str → DekCache
invalidate c key_id = record c {
  entries = remove_where (λ k. has_prefix k (version_prefix key_id)) c.entries;
  negative =
      remove (latest_version_metadata_key key_id)
        (remove_where (λ k. has_prefix k (version_prefix key_id)) c.negative);
}

unfoldable pub clear : DekCache → DekCache
clear c = record c { entries = []; negative = [] }

unfoldable pub size : DekCache → ℕ
size c = length c.entries

module _ (c : DekCache) where
  pub get-put :
      (key j : Str) (meta : KeyMetadata)
      → get (put c key meta) j ≡ (if str_eq key j then some meta else get c j)
  unfolding get put
  get-put key j meta = lookup-insert key j meta c.entries

  -- What is written is not held absent any more, whatever the time.
  pub put-not-is_negative :
      (now : ℕ) (key : Str) (meta : KeyMetadata) → is_negative now (put c key meta) key ≡ false
  unfolding is_negative put
  put-not-is_negative now key meta =
      ground (arith, lookup-remove key key c.negative, str_eq_refl key)

  pub get-invalidate :
      (key_id j : Str)
      → get (invalidate c key_id) j
        ≡ (if has_prefix j (version_prefix key_id) then none else get c j)
  unfolding get invalidate
  get-invalidate key_id j =
      lookup-remove_where (λ k. has_prefix k (version_prefix key_id)) j c.entries

  pub invalidate-not-is_negative :
      (now : ℕ) (key_id : Str) (version : ℕ)
      → is_negative now (invalidate c key_id) (metadata_key key_id version) ≡ false
  unfolding is_negative invalidate
  invalidate-not-is_negative now key_id version = ground (
    arith,
    lookup-remove (latest_version_metadata_key key_id) (metadata_key key_id version)
        (remove_where (λ k. has_prefix k (version_prefix key_id)) c.negative),
    lookup-remove_where (λ k. has_prefix k (version_prefix key_id)) (metadata_key key_id version)
        c.negative,
    metadata_key-has_prefix key_id version,
  )

  -- Invalidating a key id forgets all its versions: none is cached and none is held absent.
  pub invalidate_forgets :
      (now : ℕ) (key_id : Str) (version : ℕ)
      → (get (invalidate c key_id) (metadata_key key_id version) ≡ none)
        × (is_negative now (invalidate c key_id) (metadata_key key_id version) ≡ false)
  invalidate_forgets now key_id version = (
    rw (get-invalidate key_id (metadata_key key_id version), metadata_key-has_prefix key_id version)
        refl,
    invalidate-not-is_negative now key_id version,
  )

-- ===== src/Lifecycle/Keys.antt =====
-- internal/lifecycle/manager.go: the store keys of a key's versions and of its latest version.
use yvonne.Base.{
  ℕ, Str, codes, str_eq, str_ne, has_prefix, has_prefix-append, decimal, decimal-IsDigit,
  parse_int-decimal, IsDigit, All, true, false, List, [], ◌∷◌, ◌++◌, some, ◌≡◌, ◌≢◌, refl, ap, sym,
  subst, ◌∙◌, arith, parse_int,
}
use mathlib.Core.List.{append_assoc, append_cancel_left, append_cancel_right}

-- The part of a version's key before the version: `key:<keyID>:v:`.
unfoldable pub version_prefix : Str → Str
version_prefix key_id = codes "key:" ++ (key_id ++ codes ":v:")

-- metadataKey: `key:%s:v:%d`
unfoldable pub metadata_key : Str → ℕ → Str
unfolding version_prefix
metadata_key key_id version = version_prefix key_id ++ decimal version

-- latestVersionMetadataKey: `meta:latest:` and the key's id.
unfoldable pub latest_version_metadata_key : Str → Str
latest_version_metadata_key key_id = codes "meta:latest:" ++ key_id

cons_tail {ℓ} : {A : Type ℓ} {x y : A} {s t : List A} → x ∷ s ≡ y ∷ t → s ≡ t
cons_tail e = cc

some_value {ℓ} : {A : Type ℓ} {x y : A} → some x ≡ some y → x ≡ y
some_value e = cc

no_colon : (b e : Str) → ¬ All IsDigit (b ++ (58 ∷ e))
no_colon [] e h = absurd (omega arith)
no_colon (y ∷ b) e h = no_colon b e h.1

-- A text that ends in `:` and digits determines both parts.
split_at_colon :
    (a b : Str) (d e : Str)
    → All IsDigit d
    → All IsDigit e
    → a ++ (58 ∷ d) ≡ b ++ (58 ∷ e)
    → (a ≡ b) × (d ≡ e)
split_at_colon [] [] d e hd he p = (refl, cons_tail p)
split_at_colon [] (y ∷ b) d e hd he p = absurd (no_colon b e (subst (All IsDigit) (cons_tail p) hd))
split_at_colon (x ∷ a) [] d e hd he p =
    absurd (no_colon a d (subst (All IsDigit) (sym (cons_tail p)) he))
split_at_colon (x ∷ a) (y ∷ b) d e hd he p =
    let (q, r) = split_at_colon a b d e hd he (cons_tail p) in (cc, r)

regroup :
    (k : Str) (v : ℕ) → metadata_key k v ≡ (codes "key:" ++ (k ++ codes ":v")) ++ (58 ∷ decimal v)
unfolding metadata_key
regroup k v = simp append_assoc

-- Two versions have one store key only if both the key ids and the versions agree, whatever colons
-- the ids have.
pub metadata_key-injective :
    (k j : Str) (v w : ℕ) → metadata_key k v ≡ metadata_key j w → (k ≡ j) × (v ≡ w)
metadata_key-injective k j v w p =
    let e =
      split_at_colon (codes "key:" ++ (k ++ codes ":v")) (codes "key:" ++ (j ++ codes ":v"))
        (decimal v) (decimal w) (decimal-IsDigit v) (decimal-IsDigit w)
        (sym (regroup k v) ∙ p ∙ regroup j w) in
    (
      append_cancel_right k j (codes ":v") (append_cancel_left (codes "key:") _ _ e.0),
      some_value (sym (parse_int-decimal v) ∙ ap parse_int e.1 ∙ parse_int-decimal w),
    )

pub metadata_key-ne :
    (k j : Str) (v w : ℕ) → v ≢ w → str_eq (metadata_key k v) (metadata_key j w) ≡ false
metadata_key-ne k j v w h =
    str_ne (metadata_key k v) (metadata_key j w) (λ e. h (metadata_key-injective k j v w e).1)

pub metadata_key-ne_id :
    (k j : Str) (v w : ℕ) → k ≢ j → str_eq (metadata_key k v) (metadata_key j w) ≡ false
metadata_key-ne_id k j v w h =
    str_ne (metadata_key k v) (metadata_key j w) (λ e. h (metadata_key-injective k j v w e).0)

-- The index of the latest version is no version's key.
pub latest-ne-metadata_key :
    (k j : Str) (v : ℕ)
    → (str_eq (latest_version_metadata_key k) (metadata_key j v) ≡ false)
      × (str_eq (metadata_key j v) (latest_version_metadata_key k) ≡ false)
unfolding str_eq latest_version_metadata_key metadata_key
latest-ne-metadata_key k j v = (refl, refl)

pub metadata_key_nonempty : (k : Str) (v : ℕ) → metadata_key k v ≢ []
unfolding metadata_key
metadata_key_nonempty k v e = cc

pub metadata_key-has_prefix :
    (k : Str) (v : ℕ) → has_prefix (metadata_key k v) (version_prefix k) ≡ true
unfolding metadata_key
metadata_key-has_prefix k v = has_prefix-append (version_prefix k) (decimal v)

pub latest_key_nonempty : (k : Str) → latest_version_metadata_key k ≢ []
unfolding latest_version_metadata_key
latest_key_nonempty k e = cc

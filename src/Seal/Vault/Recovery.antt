-- ===== src/Seal/Vault/Recovery.antt =====
-- The shares that Split gives unseal the vault (internal/seal/shamir.go and internal/seal/state.go).
use mathlib.Core.List.{Memᴰ}
use yvonne.Base.{
  subst, ℕ, suc, ◌≤◌, ◌<◌, Str, List, [], ◌∷◌, ◌++◌, map, false, Option, some, ◌≡◌, ap, sym, ◌∙◌,
  arith, length, length-append, append_assoc, All,
}
use yvonne.Seal.Shamir.Sharing
use yvonne.Seal.Shamir.Sharing.{split, combine_with_threshold, x_of}
use yvonne.Seal.Shamir.Sharing.Shape.{Distinct, combine-shape}
use yvonne.Seal.Shamir.Recovery.{combine-split}
use yvonne.Seal.Shamir.Recovery.Lifting.{AreBytes, GivesBytes}
use yvonne.Seal.Vault.Machine.{sealed, unsealed, Vault, provide_share}
use yvonne.Seal.Vault.Unsealing.{provide_share_lem}

-- Shares given one after the other.
abbrev pub provide_all : Vault → List Str → Vault
provide_all v [] = v
provide_all v (s ∷ shares) = provide_all (provide_share v s).0 shares

-- Unsealed with the key and nothing left of the shares.
abbrev pub IsOpenWith : Str → Vault → Type 0
IsOpenWith key v = (v.state ≡ unsealed) × (v.master_key ≡ some key) × (v.collected ≡ [])

keep_collecting :
    (v : Vault) (given rest : List Str) (s key : Str)
    → v.emergency ≡ false
    → v.state ≡ sealed
    → v.collected ++ s ∷ rest ≡ given
    → length given ≡ v.threshold
    → combine_with_threshold given v.threshold ≡ Sharing.ok key
    → All (λ t. 0 < length t) (s ∷ rest)
    → IsOpenWith key (provide_all v (s ∷ rest))
keep_collecting v given rest [] key calm shut e n c long = absurd (omega (arith, long.0))
keep_collecting v given [] (x ∷ ys) key calm shut e n c long =
    let enough : v.threshold ≤ length (v.collected ++ (x ∷ ys) ∷ []) =
      omega (arith, n, ap length e) in
    let opened =
      (provide_share_lem v x ys calm shut).2 key enough
        (ap (λ l. combine_with_threshold l v.threshold) e ∙ c) in
    (opened.1, opened.2, opened.3)
keep_collecting v given (t ∷ rest) (x ∷ ys) key calm shut e n c long =
    let few : length (v.collected ++ (x ∷ ys) ∷ []) < v.threshold = omega (
      arith,
      n,
      ap length e,
      length-append v.collected ((x ∷ ys) ∷ []),
      length-append v.collected ((x ∷ ys) ∷ t ∷ rest),
    ) in
    let w = record v { collected = v.collected ++ (x ∷ ys) ∷ [] } in
    let more =
      keep_collecting w given rest t key calm shut
        (append_assoc v.collected ((x ∷ ys) ∷ []) (t ∷ rest) ∙ e) n c long.1 in
    subst (λ u. IsOpenWith key (provide_all u (t ∷ rest)))
      (sym (ap (λ r. r.0) ((provide_share_lem v x ys calm shut).0 few))) more

-- A secret of bytes that Split has split, with a random source that gives as many bytes as asked
-- for, unseals a Sealed vault with the same threshold that has collected nothing and is not
-- emergency sealed: any threshold of the shares, all different at x and given in any order, leave it
-- Unsealed with the secret as its key and no share collected.
pub provide_all-split :
    (v : Vault) (random : ℕ → ℕ → Option Str) (secret : Str) (parts : ℕ) (shares given : List Str)
    → GivesBytes random
    → AreBytes secret
    → split random (some secret) parts v.threshold ≡ Sharing.ok shares
    → All (λ s. Memᴰ s shares) given
    → Distinct (map x_of given)
    → length given ≡ v.threshold
    → v.emergency ≡ false
    → v.state ≡ sealed
    → v.collected ≡ []
    → IsOpenWith secret (provide_all v given)
provide_all-split v random secret parts shares given g b h m d n calm shut empty =
    let combined =
      combine-split random secret parts v.threshold shares given g b h m d (omega arith) in
    start given (combine-shape given v.threshold secret combined) combined n
  where
    start :
        (given : List Str)
        → (2 ≤ length given)
          × (v.threshold ≤ length given)
          × (0 < length secret)
          × All (λ s. (length s ≡ suc (length secret)) × (0 < x_of s)) given
          × Distinct (map x_of given)
        → combine_with_threshold given v.threshold ≡ Sharing.ok secret
        → length given ≡ v.threshold
        → IsOpenWith secret (provide_all v given)
    start [] shape c n = absurd (omega (arith, shape.0))
    start (s ∷ given) shape c n =
        keep_collecting v (s ∷ given) given s secret calm shut (ap (λ l. l ++ s ∷ given) empty) n c
          (long (s ∷ given) shape.3)
      where
        long :
            (l : List Str)
            → All (λ s. (length s ≡ suc (length secret)) × (0 < x_of s)) l
            → All (λ t. 0 < length t) l
        long [] h = tt
        long (t ∷ l) h = (omega (arith, h.0.0), long l h.1)

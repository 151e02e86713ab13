-- ===== src/Examples/Sharing.antt =====
-- The secret 42 split into three shares with a threshold of two (internal/seal/shamir.go), and two of
-- the shares given to a vault.
use mathlib.Core.List.{Memᴰ}
use yvonne.Base.{
  subst, ℕ, zero, suc, Str, List, [], ◌∷◌, map, replicate, Option, some, length, ◌≡◌, refl, ap,
  arith, All,
}
use yvonne.Seal.Shamir.Field.{gf_mul, gf_exp, gf_log}
use yvonne.Seal.Shamir.Sharing
use yvonne.Seal.Shamir.Sharing.{split, combine_with_threshold, x_of}
use yvonne.Seal.Shamir.Sharing.Shape.{Distinct}
use yvonne.Seal.Shamir.Recovery.{combine-split}
use yvonne.Seal.Shamir.Recovery.Lifting.{AreBytes, GivesBytes}
use yvonne.Seal.Vault.Machine.{new_vault}
use yvonne.Seal.Vault.Recovery.{provide_all-split, provide_all, IsOpenWith}

abbrev five_bytes : ℕ → Str
five_bytes n = replicate n 5

abbrev fives : ℕ → ℕ → Option Str
fives byte n = some (five_bytes n)

replicated : (n : ℕ) → (length (five_bytes n) ≡ n) × AreBytes (five_bytes n)
replicated zero = (refl, tt)
replicated (suc n) = (ap suc (replicated n).0, (omega arith, (replicated n).1))

fives-GivesBytes : GivesBytes fives
fives-GivesBytes idx n s h = subst (λ t. (length t ≡ n) × AreBytes t) (the_list h) (replicated n)
  where
    the_list : {A : Type 0} {a b : A} → some a ≡ some b → a ≡ b
    the_list h = ground arith

abbrev shares : List Str
shares = (1 ∷ 47 ∷ []) ∷ (2 ∷ 32 ∷ []) ∷ (3 ∷ 37 ∷ []) ∷ []

split-shares : split fives (some (42 ∷ [])) 3 2 ≡ Sharing.ok shares
unfolding split Sharing.gf_eval gf_mul gf_exp gf_log
split-shares = refl

-- The last share and the first.
abbrev given : List Str
given = (3 ∷ 37 ∷ []) ∷ (1 ∷ 47 ∷ []) ∷ []

taken : All (λ s. Memᴰ s shares) given
taken = (Memᴰ.tail (Memᴰ.tail (Memᴰ.head refl)), (Memᴰ.head refl, tt))

different : Distinct (map x_of given)
different = (((λ e. absurd (omega arith)), tt), (tt, tt))

combine-split_example : combine_with_threshold given 2 ≡ Sharing.ok (42 ∷ [])
combine-split_example =
    combine-split fives (42 ∷ []) 3 2 shares given fives-GivesBytes (omega arith, tt) split-shares
      taken different (omega arith)

provide_all-split_example : IsOpenWith (42 ∷ []) (provide_all (new_vault 3 2 0) given)
unfolding new_vault
provide_all-split_example =
    provide_all-split (new_vault 3 2 0) fives (42 ∷ []) 3 shares given fives-GivesBytes
      (omega arith, tt) split-shares taken different refl refl refl refl

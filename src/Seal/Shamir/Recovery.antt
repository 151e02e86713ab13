-- ===== src/Seal/Shamir/Recovery.antt =====
-- Combine gives back what Split has split (internal/seal/shamir.go).
pub mod Lifting
use mathlib.Core.List.{Memᴰ}
use mathlib.Core.List.Memᴰ
use Prim.Native.Nat.{Fin}
use yvonne.Base.{
  ℕ, zero, suc, ◌+◌, ◌-◌, ◌≤◌, ◌<◌, Str, List, [], ◌∷◌, ◌++◌, map, true, Option, some, ◌≡◌, ◌≢◌,
  refl, ap, sym, subst, inl, inr, ◌∙◌, arith, length, length-append, append_assoc, get_or, All,
}
use yvonne.Seal.Shamir.Sharing.{
  Result, ok, err, split, x_of, y_of, gf_eval, share_at, interpolate, interpolate_bytes, combine,
  combine_with_threshold,
}
use yvonne.Seal.Shamir.Sharing.Shape
use yvonne.Seal.Shamir.Sharing.Accepting.{combine-interpolate_bytes}
use yvonne.Seal.Shamir.Recovery.Lifting.{
  AreBytes, GivesBytes, Hides, polynomials-Hides, share_points, Distinct-shares_at,
  length-shares_at,
}
use yvonne.Seal.Shamir.BinaryField
use yvonne.Seal.Shamir.Weights.{eval, weighted, weighted-everywhere, Distinct}
use yvonne.Seal.Shamir.Lagrange.{interpolation}
use yvonne.Seal.Shamir.Bytes.{bytes}
use yvonne.Seal.Shamir.Positions.{numbers, shares_at, gf_eval-eval, interpolate-weighted}

-- The byte of a share at the position of the polynomial `c`.
y_at :
    (before after : List (List (Fin 256))) (c : List (Fin 256)) (p : Fin 256)
    → y_of (length before) (share_at (map numbers (before ++ c ∷ after)) p.0) ≡ (eval bytes p c).0
y_at before after c p =
    let next : 1 + length before ≡ suc (length before) = omega arith in
    ap (λ n. get_or (share_at (map numbers (before ++ c ∷ after)) p.0) n 0) next ∙ below before
  where
    below :
        (before : List (List (Fin 256)))
        → get_or (map (gf_eval p.0) (map numbers (before ++ c ∷ after))) (length before) 0
          ≡ (eval bytes p c).0
    below [] = gf_eval-eval p c
    below (b ∷ before) = below before

-- One byte of the secret.
interpolate-constant :
    (before after : List (List (Fin 256))) (c points : List (Fin 256))
    → Distinct bytes points
    → length c ≤ length points
    → interpolate
        (shares_at (map numbers (before ++ c ∷ after)) points)
        (length before)
        0
        0
        (shares_at (map numbers (before ++ c ∷ after)) points)
      ≡ ok (eval bytes bytes.null c).0
interpolate-constant before after c points d h =
    interpolate-weighted (map numbers (before ++ c ∷ after)) (length before) (λ p. eval bytes p c)
      (y_at before after c) [] points points bytes.null refl d
    ∙ ap (λ b. ok b.0)
        (BinaryField.null_add bytes _
          ∙ weighted-everywhere bytes (λ y. bytes.mul (eval bytes y c) bytes.one)
              (λ y. eval bytes y c) points (λ y. bytes.mul_one (eval bytes y c))
          ∙ interpolation bytes points c d h)

-- All bytes, from the polynomial after `before` on.
interpolate_bytes-constants :
    (before after : List (List (Fin 256))) (points : List (Fin 256))
    → Distinct bytes points
    → All (λ c. length c ≤ length points) after
    → interpolate_bytes
        (shares_at (map numbers (before ++ after)) points)
        (length after)
        (length before)
      ≡ ok (map (λ c. (eval bytes bytes.null c).0) after)
unfolding interpolate_bytes
interpolate_bytes-constants before [] points d h = refl
interpolate_bytes-constants before (c ∷ after) points d h =
    let here = interpolate-constant before after c points d h.0 in
    let later = interpolate_bytes-constants (before ++ c ∷ []) after points d h.1 in
    let rest : interpolate_bytes (shares_at (map numbers (before ++ c ∷ after)) points)
          (length after) (suc (length before))
        ≡ ok (map (λ c. (eval bytes bytes.null c).0) after) =
      ap
        (λ l.
          interpolate_bytes (shares_at (map numbers l) points) (length after) (suc (length before)))
        (sym (append_assoc before (c ∷ []) after))
      ∙ ap
          (interpolate_bytes (shares_at (map numbers ((before ++ c ∷ []) ++ after)) points)
            (length after))
          (omega (arith, length-append before (c ∷ [])))
      ∙ later in
    rw (interpolate_bytes, here, rest) refl

-- What holds of all shares holds of those given.
among :
    (P : Str → Type 0) (shares given : List Str)
    → All P shares
    → All (λ s. Memᴰ s shares) given
    → All P given
among P shares [] h m = tt
among P shares (s ∷ given) h m = (at_member shares h m.0, among P shares given h m.1)
  where
    at_member : (shares : List Str) → All P shares → Memᴰ s shares → P s
    at_member [] h m = absurd (Memᴰ.not-nil m)
    at_member (t ∷ shares) h m = elim (Memᴰ.cases_cons m) [
      | inl e ↦ subst P (sym e) h.0
      | inr later ↦ at_member shares h.1 later
    ]

covering_list :
    (n : ℕ) (m : ℕ) (coefs : List (List (Fin 256)))
    → n ≤ m
    → All (λ c. length c ≡ n) coefs
    → All (λ c. length c ≤ m) coefs
covering_list n m [] h all = tt
covering_list n m (c ∷ coefs) h all = (omega (arith, all.0), covering_list n m coefs h all.1)

length-map :
    (coefs : List (List (Fin 256))) (secret : Str)
    → map (λ c. (eval bytes bytes.null c).0) coefs ≡ secret
    → length coefs ≡ length secret
length-map coefs secret e = sym (mapped coefs) ∙ ap length e
  where
    mapped :
        (coefs : List (List (Fin 256)))
        → length (map (λ c. (eval bytes bytes.null c).0) coefs) ≡ length coefs
    mapped [] = refl
    mapped (c ∷ coefs) = ap suc (mapped coefs)

-- The loops over the bytes on shares of polynomials that hide the secret.
interpolate_bytes-secret :
    (polys : List Str) (n : ℕ) (secret : Str) (points : List (Fin 256))
    → Hides n secret polys
    → Distinct bytes points
    → suc n ≤ length points
    → interpolate_bytes (shares_at polys points) (length secret) 0 ≡ ok secret
interpolate_bytes-secret polys n secret points (coefs, e, constants, sizes) d h =
    ap (λ ps. interpolate_bytes (shares_at ps points) (length secret) 0) e
    ∙ ap (λ l. interpolate_bytes (shares_at (map numbers coefs) points) l 0)
        (sym (length-map coefs secret constants))
    ∙ interpolate_bytes-constants [] coefs points d
        (covering_list (suc n) (length points) coefs h sizes)
    ∙ ap (λ s. ok s) constants

split-nonempty :
    (random : ℕ → ℕ → Option Str) (secret : Str) (parts threshold : ℕ) (shares : List Str)
    → split random (some secret) parts threshold ≡ ok shares
    → 0 < length secret
unfolding split
split-nonempty random [] parts threshold shares h = absurd (ground arith)
split-nonempty random (b ∷ secret) parts threshold shares h = omega arith

-- From the shares of a successful Split of a secret of bytes, with a random source that gives as
-- many bytes as asked for, CombineWithThreshold gives the secret back: from any of the shares, in any
-- order, that are all different at x and at least as many as the threshold.
pub combine-split :
    (random : ℕ → ℕ → Option Str) (secret : Str) (parts threshold : ℕ) (shares given : List Str)
    → GivesBytes random
    → AreBytes secret
    → split random (some secret) parts threshold ≡ ok shares
    → All (λ s. Memᴰ s shares) given
    → Shape.Distinct (map x_of given)
    → threshold ≤ length given
    → combine_with_threshold given threshold ≡ ok secret
combine-split random secret parts threshold shares given g b h m d enough =
    let (low, high, few, count, good, fresh) =
      Shape.split-shape random secret parts threshold shares h in
    let made = (Shape.split-ok random secret parts threshold shares h).3 in
    let (polys, drawn, same) = Shape.make_shares-ok parts _ shares made in
    let hidden = polynomials-Hides random (threshold - 1) 0 secret polys g b drawn in
    let (points, at_points) =
      share_points polys parts given few (subst (λ l. All (λ s. Memᴰ s l) given) same m) in
    let size : suc (threshold - 1) ≤ length points =
      omega (arith, ap length at_points, length-shares_at polys points) in
    combine-interpolate_bytes given (length secret) threshold enough (omega arith)
      (split-nonempty random secret parts threshold shares h)
      (only_form (length secret) parts given
        (among (Shape.IsShare (length secret) parts) shares given good m))
      d
    ∙ ap (λ l. interpolate_bytes l (length secret) 0) at_points
    ∙ interpolate_bytes-secret polys (threshold - 1) secret points hidden
        (Distinct-shares_at polys points (subst (λ l. Shape.Distinct (map x_of l)) at_points d))
        size
  where
    only_form :
        (n top : ℕ) (given : List Str)
        → All (Shape.IsShare n top) given
        → All (λ s. (length s ≡ suc n) × (0 < x_of s)) given
    only_form n top [] all = tt
    only_form n top (s ∷ given) all = ((all.0.0, all.0.1), only_form n top given all.1)

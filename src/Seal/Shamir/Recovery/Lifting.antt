-- ===== src/Seal/Shamir/Recovery/Lifting.antt =====
-- Split's polynomials and the shares given to Combine (internal/seal/shamir.go), as lists of bytes
-- of the field.
use mathlib.Core.List.{Memᴰ}
use mathlib.Core.List.Memᴰ
use Prim.Native.Nat.{Fin}
use yvonne.Base.{
  ℕ, zero, suc, ◌+◌, ◌≤◌, ◌<◌, Str, List, [], ◌∷◌, map, Option, some, ◌≡◌, refl, ap, sym, subst,
  ◌∙◌, arith, length, All, inl, inr,
}
use yvonne.Seal.Shamir.Sharing.{ok, polynomials, x_of, share_at, shares_from}
use yvonne.Seal.Shamir.Sharing.Shape
use yvonne.Seal.Shamir.Sharing.Shape.{Absent, IsShare}
use yvonne.Seal.Shamir.BinaryField
use yvonne.Seal.Shamir.Weights.{eval, Apart, Distinct}
use yvonne.Seal.Shamir.Bytes.{bytes}
use yvonne.Seal.Shamir.Positions.{numbers, shares_at}

abbrev pub AreBytes : Str → Type 0
AreBytes = All (λ b. b < 256)

lift : (s : Str) → AreBytes s → (bs : List (Fin 256)) × (s ≡ numbers bs)
lift [] h = ([], refl)
lift (b ∷ s) h = let (bs, e) = lift s h.1 in ((b, h.0) ∷ bs, ap (λ l. b ∷ l) e)

length-numbers : (bs : List (Fin 256)) → length (numbers bs) ≡ length bs
length-numbers [] = refl
length-numbers (b ∷ bs) = ap suc (length-numbers bs)

-- What GenerateSecureRandom promises: as many bytes as asked for.
abbrev pub GivesBytes : (ℕ → ℕ → Option Str) → Type 0
GivesBytes random = (idx n : ℕ) (s : Str) → random idx n ≡ some s → (length s ≡ n) × AreBytes s

-- Polynomials over the field with `n` random coefficients whose constants are the secret.
abbrev pub Hides : ℕ → Str → List Str → Type 0
Hides n secret polys =
    (coefs : List (List (Fin 256))) × (polys ≡ map numbers coefs)
    × (map (λ c. (eval bytes bytes.null c).0) coefs ≡ secret)
    × All (λ c. length c ≡ suc n) coefs

eval-at_null : (b : Fin 256) (coef : List (Fin 256)) → eval bytes bytes.null (b ∷ coef) ≡ b
eval-at_null b coef =
    ap (λ s. bytes.add s b) (BinaryField.mul_null bytes (eval bytes bytes.null coef))
    ∙ BinaryField.null_add bytes b

polynomial_cons :
    (n b : ℕ) (coef secret : Str) (polys : List Str)
    → b < 256
    → (length coef ≡ n) × AreBytes coef
    → Hides n secret polys
    → Hides n (b ∷ secret) ((b ∷ coef) ∷ polys)
polynomial_cons n b coef secret polys hb hc h =
    let (bs, e) = lift coef hc.1 in
    let byte : Fin 256 = (b, hb) in
    (
      (byte ∷ bs) ∷ h.0,
      ap (λ l. (b ∷ l) ∷ polys) e ∙ ap (λ ps. (b ∷ numbers bs) ∷ ps) h.1,
      ap (λ v. v ∷ map (λ c. (eval bytes bytes.null c).0) h.0)
            (ap (λ v. v.0) (eval-at_null byte bs))
          ∙ ap (λ s. b ∷ s) h.2,
      (ap suc (sym (length-numbers bs) ∙ sym (ap length e) ∙ hc.0), h.3),
    )

pub polynomials-Hides :
    (random : ℕ → ℕ → Option Str) (n idx : ℕ) (secret : Str) (polys : List Str)
    → GivesBytes random
    → AreBytes secret
    → polynomials random n idx secret ≡ ok polys
    → Hides n secret polys
unfolding polynomials
polynomials-Hides random n idx [] polys g h e = ([], ground arith, refl, tt)
polynomials-Hides random n idx (b ∷ secret) [] g h e = absurd (ground arith)
polynomials-Hides random n idx (b ∷ secret) ([] ∷ polys) g h e = absurd (ground arith)
polynomials-Hides random n idx (b ∷ secret) ((c ∷ coef) ∷ polys) g h e =
    let drawn : random idx n ≡ some coef = ground arith in
    let same : c ≡ b = ground arith in
    let rest = polynomials-Hides random n (idx + 1) secret polys g h.1 (ground arith) in
    subst (λ d. Hides n (b ∷ secret) ((d ∷ coef) ∷ polys)) (sym same)
      (polynomial_cons n b coef secret polys h.0 (g idx n coef drawn) rest)

-- A share among those from `x` on is the one at some point.
share_point :
    (polys : List Str) (parts x : ℕ) (s : Str)
    → x + parts ≤ 256
    → Memᴰ s (shares_from polys parts x)
    → (p : Fin 256) × (s ≡ share_at polys p.0)
share_point polys zero x s h m = absurd (Memᴰ.not-nil m)
share_point polys (suc parts) x s h m = elim (Memᴰ.cases_cons m) [
  | inl e ↦ ((x, omega arith), e)
  | inr later ↦ share_point polys parts (suc x) s (omega arith) later
]

pub share_points :
    (polys : List Str) (parts : ℕ) (given : List Str)
    → parts ≤ 255
    → All (λ s. Memᴰ s (shares_from polys parts 1)) given
    → (points : List (Fin 256)) × (given ≡ shares_at polys points)
share_points polys parts [] h m = ([], refl)
share_points polys parts (s ∷ given) h m =
    let (p, e) = share_point polys parts 1 s (omega arith) m.0 in
    let (points, es) = share_points polys parts given h m.1 in
    (p ∷ points, ap (λ t. t ∷ given) e ∙ ap (λ ts. share_at polys p.0 ∷ ts) es)

Apart-shares_at :
    (polys : List Str) (p : Fin 256) (points : List (Fin 256))
    → Absent p.0 (map x_of (shares_at polys points))
    → Apart bytes p points
Apart-shares_at polys p [] h = tt
Apart-shares_at polys p (q ∷ points) h =
    ((λ e. h.0 (ap (λ b. b.0) e)), Apart-shares_at polys p points h.1)

pub Distinct-shares_at :
    (polys : List Str) (points : List (Fin 256))
    → Shape.Distinct (map x_of (shares_at polys points))
    → Distinct bytes points
Distinct-shares_at polys [] h = tt
Distinct-shares_at polys (p ∷ points) h =
    (Apart-shares_at polys p points h.0, Distinct-shares_at polys points h.1)

pub length-shares_at :
    (polys : List Str) (points : List (Fin 256)) → length (shares_at polys points) ≡ length points
length-shares_at polys [] = refl
length-shares_at polys (p ∷ points) = ap suc (length-shares_at polys points)

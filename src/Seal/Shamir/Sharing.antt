-- ===== src/Seal/Shamir/Sharing.antt =====
-- internal/seal/shamir.go: Split, Combine and CombineWithThreshold. A share is the x coordinate
-- followed by one y byte for each byte of the secret.
pub mod Shape
pub mod Accepting
use Prim.Native.Nat.{bit_xor}
use yvonne.Base.{
  ℕ, zero, suc, ◌+◌, ◌-◌, Str, List, [], ◌∷◌, ◌++◌, map, Bool, true, false, Option, none, some,
  ◌==◌, ◌||◌, ◌&&◌, ltb, length, get_or, if◌then◌else◌,
}
use yvonne.Seal.Shamir.Field.{gf_mul, gf_inv}

pub data ShamirErr : Type 0 where
  invalid_share_format invalid_param zero_inverse entropy_failed : ShamirErr

pub data Result {ℓ} (A : Type ℓ) : Type ℓ where
  ok : A → Result A
  err : ShamirErr → Result A

-- gfEval, by Horner's rule: the loop runs from the last coefficient to the first.
unfoldable pub gf_eval : ℕ → List ℕ → ℕ
gf_eval x [] = 0
gf_eval x (c ∷ coef) = bit_xor (gf_mul (gf_eval x coef) x) c

-- The polynomial of each byte of the secret: the byte, then `threshold - 1` random coefficients.
-- `random idx n` is what GenerateSecureRandom(n) returns for the byte at `idx`.
unfoldable pub polynomials : (ℕ → ℕ → Option Str) → ℕ → ℕ → Str → Result (List Str)
polynomials random n idx [] = ok []
polynomials random n idx (b ∷ secret) =
    let rest = polynomials random n (idx + 1) secret in
    elim (random idx n) [
      | none ↦ err entropy_failed
      | some coef ↦ elim rest [ err e ↦ err e | ok polys ↦ ok ((b ∷ coef) ∷ polys) ]
    ]

-- The share at x: shares[x-1][1+idx] = gfEval(x, coef) for each byte.
abbrev pub share_at : List Str → ℕ → Str
share_at polys x = x ∷ map (gf_eval x) polys

-- The shares at x, x + 1, and so on.
abbrev pub shares_from : List Str → ℕ → ℕ → List Str
shares_from polys zero x = []
shares_from polys (suc parts) x = share_at polys x ∷ shares_from polys parts (suc x)

abbrev pub make_shares : ℕ → Result (List Str) → Result (List Str)
make_shares parts (err e) = err e
make_shares parts (ok polys) = ok (shares_from polys parts 1)

abbrev is_nil : Str → Bool
is_nil [] = true
is_nil (b ∷ s) = false

-- Split; `none` is a nil secret.
unfoldable pub split : (ℕ → ℕ → Option Str) → Option Str → ℕ → ℕ → Result (List Str)
unfolding polynomials
split random secret parts threshold = elim secret [
  | none ↦ err invalid_param
  | some sec ↦
      if ltb parts 2 || ltb 255 parts
      then err invalid_param
      else if ltb threshold 2 || ltb parts threshold
      then err invalid_param
      else if is_nil sec
      then err invalid_param
      else make_shares parts (polynomials random (threshold - 1) 0 sec)
]

-- A share of the expected length whose x is not 0.
abbrev well_formed : ℕ → Str → Bool
well_formed expected_len [] = false
well_formed expected_len (x ∷ ys) =
    if length (x ∷ ys) == expected_len then (if x == 0 then false else true) else false

unfoldable pub all_well_formed : ℕ → List Str → Bool
all_well_formed expected_len [] = true
all_well_formed expected_len (s ∷ shares) =
    if well_formed expected_len s then all_well_formed expected_len shares else false

abbrev pub x_of : Str → ℕ
x_of s = get_or s 0 0

abbrev pub y_of : ℕ → Str → ℕ
y_of idx s = get_or s (1 + idx) 0

-- xSeen[x]
unfoldable pub seen : ℕ → List ℕ → Bool
seen x [] = false
seen x (y ∷ ys) = if y == x then true else seen x ys

-- The second loop of Combine: no x coordinate twice.
unfoldable pub distinct_x : List ℕ → List Str → Bool
unfolding seen
distinct_x xs [] = true
distinct_x xs (s ∷ shares) =
    let rest = distinct_x (x_of s ∷ xs) shares in if seen (x_of s) xs then false else rest

-- The numerator and the denominator of the Lagrange factor of `xi`, over the shares at the
-- positions other than `i`; `j` is the position of the list's head.
unfoldable pub lagrange : ℕ → ℕ → ℕ → ℕ → ℕ → List Str → ℕ × ℕ
lagrange i xi j num den [] = (num, den)
lagrange i xi j num den (s ∷ shares) =
    lagrange i xi (suc j) (if j == i then num else gf_mul num (x_of s))
      (if j == i then den else gf_mul den (bit_xor xi (x_of s))) shares

-- The sum over the shares from position `i` on of y_i * num * inv(den).
unfoldable pub interpolate : List Str → ℕ → ℕ → ℕ → List Str → Result ℕ
unfolding lagrange
interpolate all idx acc i [] = ok acc
interpolate all idx acc i (s ∷ shares) =
    let (num, den) = lagrange i (x_of s) 0 1 1 all in
    let rest = λ (inv : ℕ).
      interpolate all idx (bit_xor acc (gf_mul (y_of idx s) (gf_mul num inv))) (suc i) shares in
    elim (gf_inv den) [ none ↦ err zero_inverse | some inv ↦ rest inv ]

-- The loop over the bytes of the secret, with the bytes left.
unfoldable pub interpolate_bytes : List Str → ℕ → ℕ → Result Str
unfolding interpolate
interpolate_bytes shares zero idx = ok []
interpolate_bytes shares (suc left) idx =
    let rest = interpolate_bytes shares left (suc idx) in
    elim (interpolate shares idx 0 0 shares) [
      | err e ↦ err e
      | ok b ↦ elim rest [ err e ↦ err e | ok plain ↦ ok (b ∷ plain) ]
    ]

-- Combine
unfoldable pub combine : List Str → Result Str
combine [] = err invalid_share_format
combine (s ∷ shares) =
    if ltb (length (s ∷ shares)) 2
    then err invalid_share_format
    else if ltb (length s) 2
    then err invalid_share_format
    else if all_well_formed (length s) (s ∷ shares)
    then (if distinct_x [] (s ∷ shares)
        then interpolate_bytes (s ∷ shares) (length s - 1) 0
        else err invalid_share_format)
    else err invalid_share_format

-- CombineWithThreshold
unfoldable pub combine_with_threshold : List Str → ℕ → Result Str
combine_with_threshold shares threshold =
    if ltb 0 threshold && ltb (length shares) threshold
    then err invalid_share_format
    else combine shares

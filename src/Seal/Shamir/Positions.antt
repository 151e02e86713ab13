-- ===== src/Seal/Shamir/Positions.antt =====
-- Combine's loops over positions (internal/seal/shamir.go), on shares at given points, are the
-- interpolation over the field of bytes.
use Prim.Native.Nat.{Fin, bit_xor}
use native.Mathlib.Fin.{val_path}
use yvonne.Base.{
  ℕ, suc, ◌+◌, ◌<◌, Str, List, [], ◌∷◌, ◌++◌, map, true, false, some, ◌==◌, ◌≡◌, ◌≢◌, refl, ap, sym,
  subst, ◌∙◌, arith, length, length-append, append_assoc,
}
use yvonne.Seal.Shamir.Field.{gf_mul, gf_inv}
use yvonne.Seal.Shamir.Sharing.{ok, gf_eval, share_at, x_of, y_of, lagrange, interpolate}
use yvonne.Seal.Shamir.BinaryField
use yvonne.Seal.Shamir.BinaryField.{BinaryField}
use yvonne.Seal.Shamir.Weights.{eval, ratio, weight, weighted, weighted-everywhere, Apart, Distinct}
use yvonne.Seal.Shamir.Products.{
  accumulated, accumulated-weight_from_one, weight-append, weight-snoc, Distinct-Apart,
}
use yvonne.Seal.Shamir.Bytes.{bytes, inverse_or_zero}

-- The numbers of a list of bytes.
abbrev pub numbers : List (Fin 256) → Str
numbers = map (λ b. b.0)

-- The shares that the polynomials have at the points.
abbrev pub shares_at : List Str → List (Fin 256) → List Str
shares_at polys [] = []
shares_at polys (p ∷ points) = share_at polys p.0 ∷ shares_at polys points

pub gf_eval-eval :
    (x : Fin 256) (coef : List (Fin 256)) → gf_eval x.0 (numbers coef) ≡ (eval bytes x coef).0
unfolding gf_eval
gf_eval-eval x [] = refl
gf_eval-eval x (c ∷ coef) = rw (gf_eval-eval x coef) refl

module _ (polys : List Str) where
  -- Past the position that is left out.
  lagrange_after :
      (i : ℕ) (y : Fin 256) (j : ℕ) (num den : Fin 256) (points : List (Fin 256))
      → i < j
      → lagrange i y.0 j num.0 den.0 (shares_at polys points)
        ≡ ((accumulated bytes y num den points).0.0, (accumulated bytes y num den points).1.0)
  unfolding lagrange
  lagrange_after i y j num den [] h = refl
  lagrange_after i y j num den (p ∷ points) h =
      let other : (j == i) ≡ false = ground arith in
      rw (lagrange, other)
        (lagrange_after i y (suc j) (bytes.mul num p) (bytes.mul den (bytes.add y p)) points
          (omega arith))

  lagrange_at :
      (before after : List (Fin 256)) (i : ℕ) (x y : Fin 256) (j : ℕ) (num den : Fin 256)
      → i ≡ j + length before
      → lagrange i y.0 j num.0 den.0 (shares_at polys (before ++ x ∷ after)) ≡ (
        (accumulated bytes y num den (before ++ after)).0.0,
        (accumulated bytes y num den (before ++ after)).1.0,
      )
  unfolding lagrange
  lagrange_at [] after i x y j num den h =
      let here : (j == i) ≡ true = ground arith in
      rw (lagrange, here) (lagrange_after i y (suc j) num den after (omega arith))
  lagrange_at (p ∷ before) after i x y j num den h =
      let other : (j == i) ≡ false = ground arith in
      rw (lagrange, other)
        (lagrange_at before after i x y (suc j) (bytes.mul num p) (bytes.mul den (bytes.add y p))
          (omega arith))

pub gf_inv-some : (a : ℕ) → a ≢ 0 → gf_inv a ≡ some (inverse_or_zero a)
unfolding gf_inv
gf_inv-some a ne =
    let other : (a == 0) ≡ false = ground arith in rw (gf_inv, inverse_or_zero, other) refl

interpolate_step :
    (all : List Str) (idx acc i num den inv : ℕ) (s : Str) (rest : List Str)
    → lagrange i (x_of s) 0 1 1 all ≡ (num, den)
    → gf_inv den ≡ some inv
    → interpolate all idx acc i (s ∷ rest)
      ≡ interpolate all idx (bit_xor acc (gf_mul (y_of idx s) (gf_mul num inv))) (suc i) rest
unfolding interpolate
interpolate_step all idx acc i num den inv s rest h g =
    let inverse : gf_inv (lagrange i (x_of s) 0 1 1 all).1 ≡ some inv =
      ap (λ r. gf_inv r.1) h ∙ g in
    rw (interpolate, inverse)
      (ap
        (λ r. interpolate all idx (bit_xor acc (gf_mul (y_of idx s) (gf_mul r.0 inv))) (suc i) rest)
        h)

module _ (polys : List Str) (idx : ℕ) (f : Fin 256 → Fin 256)
    (value : (p : Fin 256) → y_of idx (share_at polys p.0) ≡ (f p).0) where
  -- One share's term, at the point `x` between the points before and after it.
  interpolate_term :
      (before after : List (Fin 256)) (x acc : Fin 256) (rest : List Str)
      → Apart bytes x (before ++ after)
      → interpolate
          (shares_at polys (before ++ x ∷ after))
          idx
          acc.0
          (length before)
          (share_at polys x.0 ∷ rest)
        ≡ interpolate
            (shares_at polys (before ++ x ∷ after))
            idx
            (bytes.add acc (bytes.mul (f x) (weight bytes x (before ++ after)))).0
            (suc (length before))
            rest
  interpolate_term before after x acc rest apart =
      let (left, same) = accumulated-weight_from_one bytes x (before ++ after) apart in
      let num = (accumulated bytes x bytes.one bytes.one (before ++ after)).0 in
      let den = (accumulated bytes x bytes.one bytes.one (before ++ after)).1 in
      interpolate_step (shares_at polys (before ++ x ∷ after)) idx acc.0 (length before) num.0 den.0
        (inverse_or_zero den.0) (share_at polys x.0) rest
        (lagrange_at polys before after (length before) x x 0 bytes.one bytes.one (omega arith))
        (gf_inv-some den.0 (λ e. left (val_path e)))
      ∙ ap
          (λ v.
            interpolate (shares_at polys (before ++ x ∷ after)) idx
              (bit_xor acc.0 (gf_mul v (gf_mul num.0 (inverse_or_zero den.0))))
              (suc (length before)) rest)
          (value x)
      ∙ ap
          (λ w.
            interpolate (shares_at polys (before ++ x ∷ after)) idx
              (bytes.add acc (bytes.mul (f x) w)).0 (suc (length before)) rest)
          same

  -- From the point after `before` on, the loop adds the weighted sum of what is left.
  pub interpolate-weighted :
      (before after all : List (Fin 256)) (acc : Fin 256)
      → all ≡ before ++ after
      → Distinct bytes all
      → interpolate (shares_at polys all) idx acc.0 (length before) (shares_at polys after)
        ≡ ok (bytes.add acc (weighted bytes (λ y. bytes.mul (f y) (weight bytes y before)) after)).0
  unfolding interpolate
  interpolate-weighted before [] all acc e d = ap (λ b. ok b.0) (sym (bytes.add_null acc))
  interpolate-weighted before (x ∷ after) all acc e d =
      let apart = Distinct-Apart bytes before after x (subst (Distinct bytes) e d) in
      let term = bytes.mul (f x) (weight bytes x (before ++ after)) in
      ap
        (λ l.
          interpolate (shares_at polys l) idx acc.0 (length before) (shares_at polys (x ∷ after)))
        e
      ∙ interpolate_term before after x acc (shares_at polys after) apart
      ∙ ap
          (λ l.
            interpolate (shares_at polys l) idx (bytes.add acc term).0 (suc (length before))
              (shares_at polys after))
          (sym e)
      ∙ ap
          (λ n.
            interpolate (shares_at polys all) idx (bytes.add acc term).0 n (shares_at polys after))
          (omega (arith, length-append before (x ∷ [])))
      ∙ interpolate-weighted (before ++ x ∷ []) after all (bytes.add acc term)
          (e ∙ sym (append_assoc before (x ∷ []) after)) d
      ∙ ap (λ b. ok b.0)
          (bytes.add_assoc acc term _
            ∙ ap (bytes.add acc) (
                BinaryField.add-same bytes
                  (ap (bytes.mul (f x)) (weight-append bytes x before after)
                    ∙ sym (bytes.mul_assoc (f x) (weight bytes x before) (weight bytes x after)))
                  (weighted-everywhere bytes
                    (λ y. bytes.mul (f y) (weight bytes y (before ++ x ∷ [])))
                    (λ y. bytes.mul (bytes.mul (f y) (weight bytes y before)) (ratio bytes x y))
                    after
                    (λ y.
                      ap (bytes.mul (f y)) (weight-snoc bytes y x before)
                      ∙ sym (bytes.mul_assoc (f y) (weight bytes y before) (ratio bytes x y))))))

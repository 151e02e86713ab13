-- ===== src/Seal/Shamir/Lagrange.antt =====
-- Interpolation at 0 over a field (the loops of Combine, internal/seal/shamir.go, over a field in
-- place of bytes): the weighted sum of the values of a polynomial at enough points is its value
-- at 0.
use yvonne.Base.{suc, ◌≤◌, List, [], ◌∷◌, ◌≡◌, ◌≢◌, refl, ap, sym, ◌∙◌, arith, length}
use yvonne.Seal.Shamir.BinaryField
use yvonne.Seal.Shamir.BinaryField.{BinaryField}
use yvonne.Seal.Shamir.Weights.{
  eval, ratio, weighted, weight, Apart, Distinct, weighted-add, weighted-mul, weighted-same,
  add-ratio, weights_sum,
}

module _ {F : Type 0} (k : BinaryField F) where
  open k use {
    null, one, add, mul, add_comm, add_assoc, add_null, mul_comm, mul_assoc, mul_one, mul_add,
  }

  -- The quotient of the polynomial by x + a, by synthetic division.
  abbrev quotient : F → List F → List F
  quotient a [] = []
  quotient a (c ∷ []) = []
  quotient a (c ∷ d ∷ coef) = eval k a (d ∷ coef) ∷ quotient a (d ∷ coef)

  length-quotient : (a c : F) (coef : List F) → length (quotient a (c ∷ coef)) ≡ length coef
  length-quotient a c [] = refl
  length-quotient a c (d ∷ coef) = ap suc (length-quotient a d coef)

  -- One more coefficient, on both sides of the division.
  divide_step :
      (x a c p q : F)
      → add (mul (add p (mul (add x a) q)) x) c
        ≡ add (add (mul p a) c) (mul (add x a) (add (mul q x) p))
  divide_step x a c p q =
      ap (λ s. add s c)
        (BinaryField.add_mul k p (mul (add x a) q) x ∙ ap (add (mul p x)) (mul_assoc (add x a) q x))
      ∙ sym (
          BinaryField.add-same k (add_comm (mul p a) c) (
            mul_add (add x a) (mul q x) p
            ∙ ap (add (mul (add x a) (mul q x)))
                (mul_comm (add x a) p ∙ mul_add p x a ∙ add_comm (mul p x) (mul p a)))
          ∙ BinaryField.add_swap k c (mul p a) (mul (add x a) (mul q x)) (add (mul p a) (mul p x))
          ∙ ap (add (add c (mul (add x a) (mul q x))))
              (BinaryField.add_cancel k (mul p a) (mul p x))
          ∙ add_assoc c (mul (add x a) (mul q x)) (mul p x)
          ∙ add_comm c _
          ∙ ap (λ s. add s c) (add_comm (mul (add x a) (mul q x)) (mul p x)))

  divide :
      (x a c : F) (coef : List F)
      → eval k x (c ∷ coef)
        ≡ add (eval k a (c ∷ coef)) (mul (add x a) (eval k x (quotient a (c ∷ coef))))
  divide x a c [] =
      ap (λ s. add s c) (BinaryField.null_mul k x ∙ sym (BinaryField.null_mul k a))
      ∙ sym (ap (add (add (mul null a) c)) (BinaryField.mul_null k (add x a)) ∙ add_null _)
  divide x a c (d ∷ coef) =
      ap (λ s. add (mul s x) c) (divide x a d coef)
      ∙ divide_step x a c (eval k a (d ∷ coef)) (eval k x (quotient a (d ∷ coef)))

  -- A factor's denominator is the factor that the division takes out.
  divided_factor :
      (a y p q : F)
      → y ≢ a
      → mul (add p (mul (add y a) q)) (ratio k a y) ≡ add (mul p (mul one (ratio k a y))) (mul a q)
  divided_factor a y p q ne =
      BinaryField.add_mul k p (mul (add y a) q) (ratio k a y)
      ∙ BinaryField.add-same k (ap (mul p) (sym (BinaryField.one_mul k (ratio k a y)))) (
          ap (λ s. mul s (ratio k a y)) (mul_comm (add y a) q)
          ∙ mul_assoc q (add y a) (ratio k a y)
          ∙ ap (mul q) (add-ratio k a y ne)
          ∙ mul_comm q a)

  all_null : (f : F → F) (xs : List F) → ((y : F) → f y ≡ null) → weighted k f xs ≡ null
  all_null f [] h = refl
  all_null f (x ∷ xs) h =
      BinaryField.add-same k (ap (λ s. mul s (weight k x xs)) (h x) ∙ BinaryField.null_mul k _) (
        all_null (λ y. mul (f y) (ratio k x y)) xs
          (λ y. ap (λ s. mul s (ratio k x y)) (h y) ∙ BinaryField.null_mul k (ratio k x y)))
      ∙ add_null null

  module _ (a c : F) (coef : List F) where
    abbrev at_a : F
    at_a = eval k a (c ∷ coef)

    abbrev less : F → F
    less y = eval k y (quotient a (c ∷ coef))

    split_point :
        (xs : List F)
        → Apart k a xs
        → weighted k (λ y. eval k y (c ∷ coef)) (a ∷ xs)
          ≡ add (mul at_a (weighted k (λ y. one) (a ∷ xs))) (mul a (weighted k less xs))
    split_point xs apart =
        ap (add (mul at_a (weight k a xs))) (
          weighted-same k (λ y. mul (eval k y (c ∷ coef)) (ratio k a y))
            (λ y. add (mul at_a (mul one (ratio k a y))) (mul a (less y))) (λ y. y ≢ a) xs
            (λ y ne.
              ap (λ s. mul s (ratio k a y)) (divide y a c coef)
              ∙ divided_factor a y at_a (less y) ne)
            apart
          ∙ weighted-add k (λ y. mul at_a (mul one (ratio k a y))) (λ y. mul a (less y)) xs
          ∙ BinaryField.add-same k (weighted-mul k at_a (λ y. mul one (ratio k a y)) xs)
              (weighted-mul k a less xs))
        ∙ sym (add_assoc (mul at_a (weight k a xs)) _ (mul a (weighted k less xs)))
        ∙ ap (λ s. add s (mul a (weighted k less xs)))
            (sym (mul_add at_a (weight k a xs) (weighted k (λ y. mul one (ratio k a y)) xs))
              ∙ ap (λ s. mul at_a (add s (weighted k (λ y. mul one (ratio k a y)) xs)))
                  (sym (BinaryField.one_mul k (weight k a xs))))

  -- With no more coefficients than points, and the points all different, the weighted k sum of a
  -- polynomial's values is its value at 0.
  pub interpolation :
      (xs coef : List F)
      → Distinct k xs
      → length coef ≤ length xs
      → weighted k (λ y. eval k y coef) xs ≡ eval k null coef
  interpolation xs [] d h = all_null (λ y. null) xs (λ y. refl)
  interpolation [] (c ∷ coef) d h = absurd (omega arith)
  interpolation (a ∷ xs) (c ∷ coef) d h =
      split_point a c coef xs d.0
      ∙ BinaryField.add-same k
          (ap (mul (eval k a (c ∷ coef))) (weights_sum k a xs d) ∙ mul_one (eval k a (c ∷ coef)))
          (ap (mul a) (
              interpolation xs (quotient a (c ∷ coef)) d.1
                (omega (arith, length-quotient a c coef)))
            ∙ ap (λ s. mul s (eval k null (quotient a (c ∷ coef))))
                (sym (BinaryField.null_add k a)))
      ∙ sym (divide null a c coef)

-- ===== src/Seal/Shamir/Weights.antt =====
-- The weights of an interpolation at 0 over a field (the loops of Combine, internal/seal/shamir.go,
-- over a field in place of bytes): they sum to one.
use yvonne.Base.{List, [], ◌∷◌, ◌≡◌, ◌≢◌, refl, ap, sym, ◌∙◌, All}
use yvonne.Seal.Shamir.BinaryField
use yvonne.Seal.Shamir.BinaryField.{BinaryField}

module _ {F : Type 0} (k : BinaryField F) where
  open k use {
    null, one, add, mul, inv, add_comm, add_assoc, add_null, add_self, mul_comm, mul_assoc, mul_one,
    mul_add, mul_inv,
  }

  -- The value of a polynomial, by Horner's rule.
  abbrev pub eval : F → List F → F
  eval x [] = null
  eval x (c ∷ coef) = add (mul (eval x coef) x) c

  -- What the point `x` adds to the weight of the point `y`.
  abbrev pub ratio : F → F → F
  ratio x y = mul x (inv (add y x))

  -- The weight of `y` among the other points `xs`, a factor for each.
  abbrev pub weight : F → List F → F
  weight y [] = one
  weight y (x ∷ xs) = mul (ratio x y) (weight y xs)

  -- The weighted sum of the values `f` at the points `xs`; `f` takes in the factors of the points
  -- before.
  abbrev pub weighted : (F → F) → List F → F
  weighted f [] = null
  weighted f (x ∷ xs) = add (mul (f x) (weight x xs)) (weighted (λ y. mul (f y) (ratio x y)) xs)

  abbrev pub Apart : F → List F → Type 0
  Apart x xs = All (λ y. y ≢ x) xs

  abbrev pub Distinct : List F → Type 0
  Distinct [] = Unit
  Distinct (x ∷ xs) = Apart x xs × Distinct xs

  pub weighted-same :
      (f g : F → F) (P : F → Type 0) (xs : List F)
      → ((y : F) → P y → f y ≡ g y)
      → All P xs
      → weighted f xs ≡ weighted g xs
  weighted-same f g P [] h all = refl
  weighted-same f g P (x ∷ xs) h all =
      BinaryField.add-same k (ap (λ v. mul v (weight x xs)) (h x all.0)) (
        weighted-same (λ y. mul (f y) (ratio x y)) (λ y. mul (g y) (ratio x y)) P xs
          (λ y p. ap (λ v. mul v (ratio x y)) (h y p)) all.1)

  always : (xs : List F) → All {0, 0} (λ y. Unit) xs
  always [] = tt
  always (x ∷ xs) = (tt, always xs)

  pub weighted-everywhere :
      (f g : F → F) (xs : List F) → ((y : F) → f y ≡ g y) → weighted f xs ≡ weighted g xs
  weighted-everywhere f g xs h = weighted-same f g (λ y. Unit) xs (λ y u. h y) (always xs)

  pub weighted-add :
      (f g : F → F) (xs : List F)
      → weighted (λ y. add (f y) (g y)) xs ≡ add (weighted f xs) (weighted g xs)
  weighted-add f g [] = sym (add_null null)
  weighted-add f g (x ∷ xs) =
      BinaryField.add-same k (BinaryField.add_mul k (f x) (g x) (weight x xs)) (
        weighted-everywhere (λ y. mul (add (f y) (g y)) (ratio x y))
          (λ y. add (mul (f y) (ratio x y)) (mul (g y) (ratio x y))) xs
          (λ y. BinaryField.add_mul k (f y) (g y) (ratio x y))
        ∙ weighted-add (λ y. mul (f y) (ratio x y)) (λ y. mul (g y) (ratio x y)) xs)
      ∙ BinaryField.add_swap k _ _ _ _

  pub weighted-mul :
      (c : F) (f : F → F) (xs : List F) → weighted (λ y. mul c (f y)) xs ≡ mul c (weighted f xs)
  weighted-mul c f [] = sym (BinaryField.mul_null k c)
  weighted-mul c f (x ∷ xs) =
      BinaryField.add-same k (mul_assoc c (f x) (weight x xs)) (
        weighted-everywhere (λ y. mul (mul c (f y)) (ratio x y))
          (λ y. mul c (mul (f y) (ratio x y))) xs (λ y. mul_assoc c (f y) (ratio x y))
        ∙ weighted-mul c (λ y. mul (f y) (ratio x y)) xs)
      ∙ sym (mul_add c (mul (f x) (weight x xs)) (weighted (λ y. mul (f y) (ratio x y)) xs))

  -- At a point apart from `x`, the factor's denominator goes away.
  pub add-ratio : (x y : F) → y ≢ x → mul (add y x) (ratio x y) ≡ x
  add-ratio x y ne =
      BinaryField.mul_left_comm k (add y x) x (inv (add y x))
      ∙ ap (mul x) (mul_inv (add y x) (λ h. ne (BinaryField.add-null k y x h)))
      ∙ mul_one x

  -- The product of two factors is a combination of the two.
  ratio-ratio :
      (a b y : F)
      → y ≢ a
      → y ≢ b
      → mul (add a b) (mul (ratio a y) (ratio b y)) ≡ add (mul b (ratio a y)) (mul a (ratio b y))
  ratio-ratio a b y ha hb =
      ap (λ d. mul d (mul (ratio a y) (ratio b y))) through
      ∙ BinaryField.add_mul k (add y a) (add y b) (mul (ratio a y) (ratio b y))
      ∙ ap (λ p. add p (mul (add y b) (mul (ratio a y) (ratio b y))))
          (sym (mul_assoc (add y a) (ratio a y) (ratio b y))
            ∙ ap (λ p. mul p (ratio b y)) (add-ratio a y ha))
      ∙ ap (add (mul a (ratio b y))) (
          BinaryField.mul_left_comm k (add y b) (ratio a y) (ratio b y)
          ∙ ap (mul (ratio a y)) (add-ratio b y hb)
          ∙ mul_comm (ratio a y) b)
      ∙ add_comm (mul a (ratio b y)) (mul b (ratio a y))
    where
      through : add a b ≡ add (add y a) (add y b)
      through = sym (
          BinaryField.add_swap k y a y b
          ∙ ap (λ p. add p (add a b)) (add_self y)
          ∙ BinaryField.null_add k (add a b))

  -- The weights of the points of `r` beside `a`, from the sum of all.
  rest_of_weights :
      (a : F) (r : List F)
      → weighted (λ y. one) (a ∷ r) ≡ one
      → weighted (ratio a) r ≡ add (weight a r) one
  rest_of_weights a r h =
      weighted-everywhere (ratio a) (λ y. mul one (ratio a y)) r
        (λ y. sym (BinaryField.one_mul k (ratio a y)))
      ∙ BinaryField.add_move k (weight a r) _ one
          (BinaryField.add-same k (sym (BinaryField.one_mul k (weight a r))) refl ∙ h)

  module _ (a b : F) (r : List F) (ab : b ≢ a) (ar : Apart a r) (br : Apart b r) where
    both-Apart : (xs : List F) → Apart a xs → Apart b xs → All (λ y. (y ≢ a) × (y ≢ b)) xs
    both-Apart [] p q = tt
    both-Apart (x ∷ xs) p q = ((p.0, q.0), both-Apart xs p.1 q.1)

    pair_of_factors :
        mul (add a b) (weighted (λ y. mul (ratio a y) (ratio b y)) r)
        ≡ add (mul b (weighted (ratio a) r)) (mul a (weighted (ratio b) r))
    pair_of_factors =
        sym (weighted-mul (add a b) (λ y. mul (ratio a y) (ratio b y)) r)
        ∙ weighted-same (λ y. mul (add a b) (mul (ratio a y) (ratio b y)))
            (λ y. add (mul b (ratio a y)) (mul a (ratio b y))) (λ y. (y ≢ a) × (y ≢ b)) r
            (λ y p. ratio-ratio a b y p.0 p.1) (both-Apart r ar br)
        ∙ weighted-add (λ y. mul b (ratio a y)) (λ y. mul a (ratio b y)) r
        ∙ BinaryField.add-same k (weighted-mul b (ratio a) r) (weighted-mul a (ratio b) r)

    first_factor : (w : F) → mul (add a b) (mul (ratio b a) w) ≡ mul b w
    first_factor w =
        sym (mul_assoc (add a b) (ratio b a) w)
        ∙ ap (λ p. mul p w) (add-ratio b a (λ e. ab (sym e)))

    second_factor : (w : F) → mul (add a b) (mul (ratio a b) w) ≡ mul a w
    second_factor w =
        sym (mul_assoc (add a b) (ratio a b) w)
        ∙ ap (λ p. mul p w) (ap (λ s. mul s (ratio a b)) (add_comm a b) ∙ add-ratio a b ab)

    -- What is left once the denominators are gone.
    rearranged :
        (v w : F)
        → add (mul b v) (add (mul a w) (add (mul b (add v one)) (mul a (add w one)))) ≡ add a b
    rearranged v w =
        ap (λ s. add (mul b v) (add (mul a w) s))
          (BinaryField.add-same k (mul_add b v one ∙ ap (add (mul b v)) (mul_one b))
            (mul_add a w one ∙ ap (add (mul a w)) (mul_one a)))
        ∙ ap (add (mul b v)) (
            ap (add (mul a w)) (BinaryField.add_swap k (mul b v) b (mul a w) a)
            ∙ BinaryField.add_left_comm k (mul a w) (add (mul b v) (mul a w)) (add b a)
            ∙ add_assoc (mul b v) (mul a w) (add (mul a w) (add b a))
            ∙ ap (add (mul b v)) (BinaryField.add_cancel k (mul a w) (add b a)))
        ∙ BinaryField.add_cancel k (mul b v) (add b a)
        ∙ add_comm b a

    two_points :
        weighted (λ y. one) (a ∷ r) ≡ one
        → weighted (λ y. one) (b ∷ r) ≡ one
        → weighted (λ y. one) (a ∷ b ∷ r) ≡ one
    two_points ha hb =
        BinaryField.mul_cancel k (add a b) (weighted (λ y. one) (a ∷ b ∷ r)) one
          (λ e. ab (sym (BinaryField.add-null k a b e)))
          (ap (mul (add a b)) shape
            ∙ mul_add (add a b) (mul (ratio b a) (weight a r)) _
            ∙ BinaryField.add-same k (first_factor (weight a r)) (
                mul_add (add a b) (mul (ratio a b) (weight b r)) _
                ∙ BinaryField.add-same k (second_factor (weight b r)) (
                    pair_of_factors
                    ∙ BinaryField.add-same k (ap (mul b) (rest_of_weights a r ha))
                        (ap (mul a) (rest_of_weights b r hb))))
            ∙ rearranged (weight a r) (weight b r)
            ∙ sym (mul_one (add a b)))
      where
        shape :
            weighted (λ y. one) (a ∷ b ∷ r)
            ≡ add
                (mul (ratio b a) (weight a r))
                (add (mul (ratio a b) (weight b r)) (weighted (λ y. mul (ratio a y) (ratio b y)) r))
        shape = BinaryField.add-same k (BinaryField.one_mul k _) (
            BinaryField.add-same k
              (ap (λ s. mul s (weight b r)) (BinaryField.one_mul k (ratio a b)))
              (weighted-everywhere (λ y. mul (mul one (ratio a y)) (ratio b y))
                (λ y. mul (ratio a y) (ratio b y)) r
                (λ y. ap (λ s. mul s (ratio b y)) (BinaryField.one_mul k (ratio a y)))))

  -- The weights of one or more points that are all different sum to one.
  pub weights_sum : (a : F) (r : List F) → Distinct (a ∷ r) → weighted (λ y. one) (a ∷ r) ≡ one
  weights_sum a [] d = add_null (mul one one) ∙ mul_one one
  weights_sum a (b ∷ r) d =
      two_points a b r d.0.0 d.0.1 d.1.0 (weights_sum a r (d.0.1, d.1.1)) (weights_sum b r d.1)

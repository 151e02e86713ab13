-- ===== src/Seal/Shamir/Products.antt =====
-- The numerator and the denominator that Combine (internal/seal/shamir.go) multiplies up, over a
-- field, give the weight of the interpolation.
use yvonne.Base.{List, [], ◌∷◌, ◌++◌, ◌≡◌, ◌≢◌, ap, sym, ◌∙◌, All}
use yvonne.Seal.Shamir.BinaryField
use yvonne.Seal.Shamir.BinaryField.{BinaryField}
use yvonne.Seal.Shamir.Weights.{ratio, weight, Apart, Distinct}

module _ {F : Type 0} (k : BinaryField F) where
  open k use {null, one, add, mul, inv, add_comm, mul_comm, mul_assoc, mul_one, mul_inv}

  -- The inner loop at the point `y`, over the points other than `y`.
  abbrev pub accumulated : F → F → F → List F → F × F
  accumulated y num den [] = (num, den)
  accumulated y num den (x ∷ xs) = accumulated y (mul num x) (mul den (add y x)) xs

  inv-mul : (a b : F) → a ≢ null → b ≢ null → inv (mul a b) ≡ mul (inv a) (inv b)
  inv-mul a b ha hb = BinaryField.mul_cancel k a (inv (mul a b)) (mul (inv a) (inv b)) ha (
      BinaryField.mul-inv-mul k a b ha hb
      ∙ sym (
          sym (mul_assoc a (inv a) (inv b))
          ∙ ap (λ p. mul p (inv b)) (mul_inv a ha)
          ∙ BinaryField.one_mul k (inv b)))

  one_more_factor :
      (y x num den : F)
      → den ≢ null
      → add y x ≢ null
      → mul (mul num x) (inv (mul den (add y x))) ≡ mul (mul num (inv den)) (ratio k x y)
  one_more_factor y x num den hd hs =
      ap (mul (mul num x)) (inv-mul den (add y x) hd hs)
      ∙ mul_assoc num x (mul (inv den) (inv (add y x)))
      ∙ ap (mul num) (BinaryField.mul_left_comm k x (inv den) (inv (add y x)))
      ∙ sym (mul_assoc num (inv den) (ratio k x y))

  pub accumulated-weight :
      (y num den : F) (xs : List F)
      → den ≢ null
      → Apart k y xs
      → ((accumulated y num den xs).1 ≢ null)
        × (mul (accumulated y num den xs).0 (inv (accumulated y num den xs).1)
            ≡ mul (mul num (inv den)) (weight k y xs))
  accumulated-weight y num den [] hd apart = (hd, sym (mul_one (mul num (inv den))))
  accumulated-weight y num den (x ∷ xs) hd apart =
      let hs : add y x ≢ null = λ e. apart.0 (sym (BinaryField.add-null k y x e)) in
      let (left, same) =
        accumulated-weight y (mul num x) (mul den (add y x)) xs
          (BinaryField.mul-nonzero k den (add y x) hd hs) apart.1 in
      (
        left,
        same
            ∙ ap (λ p. mul p (weight k y xs)) (one_more_factor y x num den hd hs)
            ∙ mul_assoc (mul num (inv den)) (ratio k x y) (weight k y xs),
      )

  -- From the start of the loop.
  pub accumulated-weight_from_one :
      (y : F) (xs : List F)
      → Apart k y xs
      → ((accumulated y one one xs).1 ≢ null)
        × (mul (accumulated y one one xs).0 (inv (accumulated y one one xs).1) ≡ weight k y xs)
  accumulated-weight_from_one y xs apart =
      let (left, same) = accumulated-weight y one one xs k.one_null apart in
      (
        left,
        same
            ∙ ap (λ p. mul p (weight k y xs)) (mul_inv one k.one_null)
            ∙ BinaryField.one_mul k (weight k y xs),
      )

  pub weight-append :
      (y : F) (before after : List F)
      → weight k y (before ++ after) ≡ mul (weight k y before) (weight k y after)
  weight-append y [] after = sym (BinaryField.one_mul k (weight k y after))
  weight-append y (x ∷ before) after =
      ap (mul (ratio k x y)) (weight-append y before after)
      ∙ sym (mul_assoc (ratio k x y) (weight k y before) (weight k y after))

  -- The factor of the point that moves to those before.
  pub weight-snoc :
      (y x : F) (before : List F)
      → weight k y (before ++ x ∷ []) ≡ mul (weight k y before) (ratio k x y)
  weight-snoc y x before =
      weight-append y before (x ∷ []) ∙ ap (mul (weight k y before)) (mul_one (ratio k x y))

  All-append :
      (P : F → Type 0) (before after : List F) (x : F)
      → All P (before ++ x ∷ after)
      → P x × All P (before ++ after)
  All-append P [] after x h = h
  All-append P (p ∷ before) after x h =
      let (at_x, rest) = All-append P before after x h.1 in (at_x, (h.0, rest))

  -- A point of a list of points that are all different is apart from the others.
  pub Distinct-Apart :
      (before after : List F) (x : F)
      → Distinct k (before ++ x ∷ after)
      → Apart k x (before ++ after)
  Distinct-Apart [] after x h = h.0
  Distinct-Apart (p ∷ before) after x h = (
    (λ e. (All-append (λ y. y ≢ p) before after x h.0).0 (sym e)),
    Distinct-Apart before after x h.1,
  )

-- ===== src/Seal/Shamir/BinaryField.antt =====
-- What Split and Combine (internal/seal/shamir.go) use of their arithmetic: a field where every
-- element is its own negative, so that subtraction is addition.
use yvonne.Base.{◌≡◌, ◌≢◌, ap, sym, ◌∙◌}

pub record BinaryField (F : Type 0) : Type 0 where
  pub null : F
  pub one : F
  pub add : F → F → F
  pub mul : F → F → F
  pub inv : F → F
  pub one_null : one ≢ null
  pub add_comm : (a b : F) → add a b ≡ add b a
  pub add_assoc : (a b c : F) → add (add a b) c ≡ add a (add b c)
  pub add_null : (a : F) → add a null ≡ a
  pub add_self : (a : F) → add a a ≡ null
  pub mul_comm : (a b : F) → mul a b ≡ mul b a
  pub mul_assoc : (a b c : F) → mul (mul a b) c ≡ mul a (mul b c)
  pub mul_one : (a : F) → mul a one ≡ a
  pub mul_add : (a b c : F) → mul a (add b c) ≡ add (mul a b) (mul a c)
  pub mul_inv : (a : F) → a ≢ null → mul a (inv a) ≡ one

module _ {F : Type 0} (k : BinaryField F) where
  open k use {
    null, one, add, mul, inv, one_null, add_comm, add_assoc, add_null, add_self, mul_comm,
    mul_assoc, mul_one, mul_add, mul_inv,
  }

  pub add-same : {a b c d : F} → a ≡ b → c ≡ d → add a c ≡ add b d
  add-same {a} {b} {c} {d} h g = ap (λ p. add p c) h ∙ ap (add b) g

  pub mul-same : {a b c d : F} → a ≡ b → c ≡ d → mul a c ≡ mul b d
  mul-same {a} {b} {c} {d} h g = ap (λ p. mul p c) h ∙ ap (mul b) g

  pub add_left_comm : (a b c : F) → add a (add b c) ≡ add b (add a c)
  add_left_comm a b c = sym (add_assoc a b c) ∙ ap (λ p. add p c) (add_comm a b) ∙ add_assoc b a c

  -- The two in the middle change places.
  pub add_swap : (a b c d : F) → add (add a b) (add c d) ≡ add (add a c) (add b d)
  add_swap a b c d =
      add_assoc a b (add c d) ∙ ap (add a) (add_left_comm b c d) ∙ sym (add_assoc a c (add b d))

  pub mul_left_comm : (a b c : F) → mul a (mul b c) ≡ mul b (mul a c)
  mul_left_comm a b c = sym (mul_assoc a b c) ∙ ap (λ p. mul p c) (mul_comm a b) ∙ mul_assoc b a c

  pub null_add : (a : F) → add null a ≡ a
  null_add a = add_comm null a ∙ add_null a

  pub one_mul : (a : F) → mul one a ≡ a
  one_mul a = mul_comm one a ∙ mul_one a

  pub add_mul : (a b c : F) → mul (add a b) c ≡ add (mul a c) (mul b c)
  add_mul a b c = rw (mul_comm (add a b) c, mul_comm a c, mul_comm b c) (mul_add c a b)

  pub add_cancel : (a b : F) → add a (add a b) ≡ b
  add_cancel a b = sym (add_assoc a a b) ∙ ap (λ p. add p b) (add_self a) ∙ null_add b

  -- Terms move from one side of an equation to the other.
  pub add_move : (a b c : F) → add a b ≡ c → b ≡ add a c
  add_move a b c h = sym (add_cancel a b) ∙ ap (add a) h

  pub add-null : (a b : F) → add a b ≡ null → a ≡ b
  add-null a b h = sym (add_null a) ∙ sym (add_move a b null h)

  pub mul_null : (a : F) → mul a null ≡ null
  mul_null a = sym (ap (mul a) (add_self null)) ∙ mul_add a null null ∙ add_self (mul a null)

  pub null_mul : (a : F) → mul null a ≡ null
  null_mul a = mul_comm null a ∙ mul_null a

  pub mul_cancel : (a b c : F) → a ≢ null → mul a b ≡ mul a c → b ≡ c
  mul_cancel a b c ne h = sym (undo b) ∙ ap (mul (inv a)) h ∙ undo c
    where
      undo : (d : F) → mul (inv a) (mul a d) ≡ d
      undo d =
          sym (mul_assoc (inv a) a d)
          ∙ ap (λ p. mul p d) (mul_comm (inv a) a ∙ mul_inv a ne)
          ∙ one_mul d

  pub mul-nonzero : (a b : F) → a ≢ null → b ≢ null → mul a b ≢ null
  mul-nonzero a b ha hb h = hb (mul_cancel a b null ha (h ∙ sym (mul_null a)))

  pub inv-one : inv one ≡ one
  inv-one = sym (one_mul (inv one)) ∙ mul_inv one one_null

  -- The inverse of a product, one factor cancelled.
  pub mul-inv-mul : (a b : F) → a ≢ null → b ≢ null → mul a (inv (mul a b)) ≡ inv b
  mul-inv-mul a b ha hb = mul_cancel b (mul a (inv (mul a b))) (inv b) hb (
      sym (mul_assoc b a (inv (mul a b)))
      ∙ ap (λ p. mul p (inv (mul a b))) (mul_comm b a)
      ∙ mul_inv (mul a b) (mul-nonzero a b ha hb)
      ∙ sym (mul_inv b hb))

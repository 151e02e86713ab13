-- ===== src/Seal/Shamir/Distributing.antt =====
-- The multiplication distributes over the exclusive or (internal/seal/shamir.go): first for
-- gfMulNoTable, round by round, then for the tables, which agree with it.
use Prim.Native.Nat.{bit_and, bit_xor}
use yvonne.Base.{
  ℕ, zero, suc, ◌*◌, ◌/◌, ◌%◌, ◌<◌, true, ◌==◌, ==_iff, if◌then◌else◌, ◌≡◌, refl, ap, sym, ◌∙◌,
  arith, every_byte, every_below, every_byte-at, bit_xor-halves, bit_xor_comm, bit_xor_assoc,
  bit_xor_self, bit_xor_bound, zero-bit_xor, ◌⊎◌, inl, inr, Bool-cases,
}
use yvonne.Seal.Shamir.Field
use yvonne.Seal.Shamir.Field.{gf_mul, gf_mul_no_table}
use yvonne.Seal.Shamir.Table.{gf_mul-gf_mul_no_table}

low_bits_table : every_byte (λ b. bit_and b 1 == b % 2) ≡ true
unfolding every_byte every_below
low_bits_table = refl

low_bit : (b : ℕ) → b < 256 → bit_and b 1 ≡ b % 2
low_bit b h = (==_iff _ _).0 (every_byte-at (λ b. bit_and b 1 == b % 2) b h low_bits_table)

-- Four terms in the other order.
pub bit_xor_swap :
    (r s t u : ℕ) → bit_xor (bit_xor r s) (bit_xor t u) ≡ bit_xor (bit_xor r t) (bit_xor s u)
bit_xor_swap r s t u =
    bit_xor_assoc r s (bit_xor t u)
    ∙ ap (bit_xor r)
        (sym (bit_xor_assoc s t u) ∙ ap (λ p. bit_xor p u) (bit_xor_comm s t) ∙ bit_xor_assoc t s u)
    ∙ sym (bit_xor_assoc r t (bit_xor s u))

-- What a round adds to the result.
abbrev with_bit : ℕ → ℕ → ℕ → ℕ
with_bit a b r = if bit_and b 1 == 0 then r else bit_xor r a

parity_cases : (b : ℕ) → (b % 2 ≡ 0) ⊎ (b % 2 ≡ 1)
parity_cases b = elim (Bool-cases (b % 2 == 0)) [
  | inl even ↦ inl ((==_iff _ _).0 even)
  | inr odd ↦ inr (ground arith)
]

clear_bit : (a b r : ℕ) → b < 256 → b % 2 ≡ 0 → with_bit a b r ≡ r
clear_bit a b r h e = rw (low_bit b h, e) refl

set_bit : (a b r : ℕ) → b < 256 → b % 2 ≡ 1 → with_bit a b r ≡ bit_xor r a
set_bit a b r h e = rw (low_bit b h, e) refl

pub bit_xor-zero : (x : ℕ) → bit_xor x 0 ≡ x
bit_xor-zero x = bit_xor_comm x 0 ∙ zero-bit_xor x

swap_last : (r s a : ℕ) → bit_xor (bit_xor r s) a ≡ bit_xor (bit_xor r a) s
swap_last r s a =
    bit_xor_assoc r s a ∙ ap (bit_xor r) (bit_xor_comm s a) ∙ sym (bit_xor_assoc r a s)

cancel_twice : (r s a : ℕ) → bit_xor r s ≡ bit_xor (bit_xor r a) (bit_xor s a)
cancel_twice r s a = sym (
    bit_xor_swap r a s a ∙ ap (bit_xor (bit_xor r s)) (bit_xor_self a) ∙ bit_xor-zero (bit_xor r s))

module _ (a b c r s : ℕ) (hb : b < 256) (hc : c < 256) where
  sum_bound : bit_xor b c < 256
  sum_bound = bit_xor_bound 8 b c hb hc

  with_bit_sum : with_bit a (bit_xor b c) (bit_xor r s) ≡ bit_xor (with_bit a b r) (with_bit a c s)
  with_bit_sum = elim (parity_cases b) [
    | inl eb ↦ elim (parity_cases c) [
      | inl ec ↦
          clear_bit a (bit_xor b c) (bit_xor r s) sum_bound (omega (arith, bit_xor-halves b c))
          ∙ sym (
              ap (λ p. bit_xor p (with_bit a c s)) (clear_bit a b r hb eb)
              ∙ ap (bit_xor r) (clear_bit a c s hc ec))
      | inr oc ↦
          set_bit a (bit_xor b c) (bit_xor r s) sum_bound (omega (arith, bit_xor-halves b c))
          ∙ bit_xor_assoc r s a
          ∙ sym (
              ap (λ p. bit_xor p (with_bit a c s)) (clear_bit a b r hb eb)
              ∙ ap (bit_xor r) (set_bit a c s hc oc))
    ]
    | inr ob ↦ elim (parity_cases c) [
      | inl ec ↦
          set_bit a (bit_xor b c) (bit_xor r s) sum_bound (omega (arith, bit_xor-halves b c))
          ∙ swap_last r s a
          ∙ sym (
              ap (λ p. bit_xor p (with_bit a c s)) (set_bit a b r hb ob)
              ∙ ap (bit_xor (bit_xor r a)) (clear_bit a c s hc ec))
      | inr oc ↦
          clear_bit a (bit_xor b c) (bit_xor r s) sum_bound (omega (arith, bit_xor-halves b c))
          ∙ cancel_twice r s a
          ∙ sym (
              ap (λ p. bit_xor p (with_bit a c s)) (set_bit a b r hb ob)
              ∙ ap (bit_xor (bit_xor r a)) (set_bit a c s hc oc))
    ]
  ]

-- The two factors and the two results are added at the start of the rounds or at their end.
loop_sum :
    (rounds a b c r s : ℕ)
    → b < 256
    → c < 256
    → Field.gf_mul_loop rounds a (bit_xor b c) (bit_xor r s)
      ≡ bit_xor (Field.gf_mul_loop rounds a b r) (Field.gf_mul_loop rounds a c s)
unfolding Field.gf_mul_loop
loop_sum zero a b c r s hb hc = refl
loop_sum (suc rounds) a b c r s hb hc =
    let next = if bit_and a 0x80 == 0 then a * 2 % 256 else bit_xor (a * 2 % 256) 0x1b in
    let half : bit_xor b c / 2 ≡ bit_xor (b / 2) (c / 2) = omega (arith, bit_xor-halves b c) in
    ap (λ p. Field.gf_mul_loop rounds next p (with_bit a (bit_xor b c) (bit_xor r s))) half
    ∙ ap (Field.gf_mul_loop rounds next (bit_xor (b / 2) (c / 2))) (with_bit_sum a b c r s hb hc)
    ∙ loop_sum rounds next (b / 2) (c / 2) (with_bit a b r) (with_bit a c s) (omega arith)
        (omega arith)

-- Multiplying a sum is adding the products.
pub gf_mul-bit_xor :
    (a b c : ℕ)
    → a < 256
    → b < 256
    → c < 256
    → gf_mul a (bit_xor b c) ≡ bit_xor (gf_mul a b) (gf_mul a c)
unfolding gf_mul_no_table
gf_mul-bit_xor a b c ha hb hc =
    gf_mul-gf_mul_no_table a (bit_xor b c) ha (bit_xor_bound 8 b c hb hc)
    ∙ loop_sum 8 a b c 0 0 hb hc
    ∙ sym (
        ap (λ p. bit_xor p (gf_mul a c)) (gf_mul-gf_mul_no_table a b ha hb)
        ∙ ap (bit_xor (gf_mul_no_table a b)) (gf_mul-gf_mul_no_table a c ha hc))

-- ===== src/Seal/Shamir/Table.antt =====
-- The multiplication by tables is the one by shifts (internal/seal/shamir.go): every pair of bytes is
-- checked by evaluation, a quarter of them at a time.
use yvonne.Base.{
  ℕ, ◌+◌, ◌-◌, ◌<◌, ◌≤◌, Bool, true, ◌==◌, ==_iff, ltb, ◌≡◌, subst, inl, inr, Bool-cases, refl,
  arith, every_byte, every_below, every_byte-at, every_below-at,
}
use yvonne.Seal.Shamir.Field.{gf_mul, gf_mul_no_table, gf_exp, gf_log}

abbrev row_agrees : ℕ → Bool
row_agrees a = every_byte (λ b. gf_mul a b == gf_mul_no_table a b)

-- The rows of a quarter agree.
abbrev quarter_agrees : ℕ → Bool
quarter_agrees first = every_below (λ i. row_agrees (first + i)) 64

first_quarter : quarter_agrees 0 ≡ true
unfolding every_byte every_below gf_mul gf_mul_no_table gf_exp gf_log
first_quarter = refl

second_quarter : quarter_agrees 64 ≡ true
unfolding every_byte every_below gf_mul gf_mul_no_table gf_exp gf_log
second_quarter = refl

third_quarter : quarter_agrees 128 ≡ true
unfolding every_byte every_below gf_mul gf_mul_no_table gf_exp gf_log
third_quarter = refl

last_quarter : quarter_agrees 192 ≡ true
unfolding every_byte every_below gf_mul gf_mul_no_table gf_exp gf_log
last_quarter = refl

row_in :
    (first a : ℕ) → quarter_agrees first ≡ true → first ≤ a → a < first + 64 → row_agrees a ≡ true
row_in first a table low high =
    subst (λ k. row_agrees k ≡ true) (the_row first a low)
      (every_below-at (λ i. row_agrees (first + i)) 64 (a - first) (omega arith) table)
  where
    the_row : (first a : ℕ) → first ≤ a → first + (a - first) ≡ a
    the_row first a low = omega arith

row : (a : ℕ) → a < 256 → row_agrees a ≡ true
row a h = elim (Bool-cases (ltb a 64)) [
  | inl in_first ↦ row_in 0 a first_quarter (omega arith) (ground arith)
  | inr after ↦ elim (Bool-cases (ltb a 128)) [
    | inl in_second ↦ row_in 64 a second_quarter (ground arith) (ground arith)
    | inr after ↦ elim (Bool-cases (ltb a 192)) [
      | inl in_third ↦ row_in 128 a third_quarter (ground arith) (ground arith)
      | inr in_last ↦ row_in 192 a last_quarter (ground arith) (ground arith)
    ]
  ]
]

-- The product of two bytes that the tables give is the one that shifting and reducing gives.
pub gf_mul-gf_mul_no_table : (a b : ℕ) → a < 256 → b < 256 → gf_mul a b ≡ gf_mul_no_table a b
gf_mul-gf_mul_no_table a b ka kb =
    (==_iff (gf_mul a b) (gf_mul_no_table a b)).0
      (every_byte-at (λ b. gf_mul a b == gf_mul_no_table a b) b kb (row a ka))

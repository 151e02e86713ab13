-- ===== src/Seal/Shamir/Inverse.antt =====
-- The tables of internal/seal/shamir.go make a multiplication with inverses: every value of a
-- byte is checked by evaluation.
use yvonne.Base.{
  ℕ, ◌<◌, ◌-◌, true, none, some, ◌≡◌, ◌≢◌, refl, arith, ◌==◌, ◌&&◌, ◌||◌, get_or, every_byte,
  every_below, every_byte-at,
}
use yvonne.Seal.Shamir.Field.{gf_mul, gf_inv, gf_exp, gf_log}

-- gf_mul a (gf_inv a), or 0 where there is no inverse.
abbrev times_inverse : ℕ → ℕ
times_inverse a = elim (gf_inv a) [ none ↦ 0 | some b ↦ gf_mul a b ]

inverse_table : every_byte (λ a. a == 0 || times_inverse a == 1) ≡ true
unfolding every_byte every_below gf_mul gf_inv gf_exp gf_log
inverse_table = refl

one_table : every_byte (λ a. (gf_mul a 1 == a) && (gf_mul 1 a == a)) ≡ true
unfolding every_byte every_below gf_mul gf_exp gf_log
one_table = refl

times_inverse-one : (a : ℕ) → a < 256 → a ≢ 0 → times_inverse a ≡ 1
times_inverse-one a h ne =
    ground (arith, every_byte-at (λ a. a == 0 || times_inverse a == 1) a h inverse_table)

-- Zero has no inverse, and every other byte has one: their product is 1.
pub gf_mul-gf_inv :
    (a : ℕ)
    → a < 256
    → (gf_inv 0 ≡ none) × (a ≢ 0 → (b : ℕ) × (gf_inv a ≡ some b) × (gf_mul a b ≡ 1))
unfolding gf_inv
gf_mul-gf_inv a h = (
  refl,
  λ ne. (
    get_or gf_exp (255 - get_or gf_log a 0) 0,
    ground arith,
    ground (arith, times_inverse-one a h ne),
  ),
)

-- One is neutral on both sides.
pub gf_mul-one : (a : ℕ) → a < 256 → (gf_mul a 1 ≡ a) × (gf_mul 1 a ≡ a)
gf_mul-one a h =
    ground (arith, every_byte-at (λ a. (gf_mul a 1 == a) && (gf_mul 1 a == a)) a h one_table)

-- ===== src/Seal/Shamir/Multiplying.antt =====
-- The laws of the multiplication in GF(2^8) (internal/seal/shamir.go), from what the tables hold.
use yvonne.Base.{
  ℕ, zero, suc, ◌+◌, ◌-◌, ◌<◌, Bool, true, false, ◌&&◌, ◌||◌, ◌==◌, ltb, if◌then◌else◌, ◌≡◌, ◌≢◌,
  refl, ap, sym, ◌∙◌, arith, get_or, every_byte, every_below, every_byte-at, ◌⊎◌, inl, inr,
  Bool-cases,
}
use yvonne.Seal.Shamir.Field.{gf_mul, gf_exp, gf_log}

abbrev exp_at : ℕ → ℕ
exp_at i = get_or gf_exp i 0

abbrev log_at : ℕ → ℕ
log_at a = get_or gf_log a 0

-- What holds of an entry of gfExp among the first 255.
abbrev good_power : ℕ → Bool
good_power i =
    ltb 254 i
    || ((exp_at (i + 255) == exp_at i)
        && (log_at (exp_at i) == i)
        && ltb 0 (exp_at i)
        && ltb (exp_at i) 256)

powers_table : every_byte good_power ≡ true
unfolding every_byte every_below gf_exp gf_log
powers_table = refl

-- What holds of the logarithm of a byte that is not 0.
abbrev good_log : ℕ → Bool
good_log a = (a == 0) || (ltb (log_at a) 255 && (exp_at (log_at a) == a))

logs_table : every_byte good_log ≡ true
unfolding every_byte every_below gf_exp gf_log
logs_table = refl

-- The exponent from 0 to 254 that stands for one below 510.
abbrev reduced : ℕ → ℕ
reduced k = if ltb k 255 then k else k - 255

power_facts :
    (i : ℕ)
    → i < 255
    → (exp_at (i + 255) ≡ exp_at i) × (log_at (exp_at i) ≡ i) × (0 < exp_at i) × (exp_at i < 256)
power_facts i h = ground (arith, every_byte-at good_power i (omega arith) powers_table)

log_facts : (a : ℕ) → a < 256 → a ≢ 0 → (log_at a < 255) × (exp_at (log_at a) ≡ a)
log_facts a h ne = ground (arith, every_byte-at good_log a h logs_table)

split_power : (k : ℕ) → ltb k 255 ≡ false → k ≡ k - 255 + 255
split_power k h = ground arith

exp_reduced : (k : ℕ) → k < 510 → exp_at k ≡ exp_at (reduced k)
exp_reduced k h = elim (Bool-cases (ltb k 255)) [
  | inl low ↦ rw low refl
  | inr high ↦ rw high (ap exp_at (split_power k high) ∙ (power_facts (k - 255) (ground arith)).0)
]

reduced_small : (k : ℕ) → k < 510 → reduced k < 255
reduced_small k h = ground arith

gf_mul-powers : (a b : ℕ) → a ≢ 0 → b ≢ 0 → gf_mul a b ≡ exp_at (log_at a + log_at b)
unfolding gf_mul
gf_mul-powers a b ha hb = ground arith

-- A product of two bytes that are not 0 is one, and its logarithm is the reduced sum.
product_facts :
    (a b : ℕ)
    → a < 256
    → b < 256
    → a ≢ 0
    → b ≢ 0
    → (gf_mul a b < 256) × (0 < gf_mul a b) × (log_at (gf_mul a b) ≡ reduced (log_at a + log_at b))
product_facts a b ka kb ha hb =
    let la = (log_facts a ka ha).0 in
    let lb = (log_facts b kb hb).0 in
    let k = log_at a + log_at b in
    let small = reduced_small k (omega arith) in
    let p = power_facts (reduced k) small in
    rw (gf_mul-powers a b ha hb, exp_reduced k (omega arith)) (p.3, p.2, p.1)

reduced_assoc :
    (x y z : ℕ)
    → x < 255
    → y < 255
    → z < 255
    → reduced (reduced (x + y) + z) ≡ reduced (x + reduced (y + z))
reduced_assoc x y z hx hy hz = ground arith

gf_mul_comm : (a b : ℕ) → gf_mul a b ≡ gf_mul b a
unfolding gf_mul
gf_mul_comm a b =
    let e : exp_at (log_at a + log_at b) ≡ exp_at (log_at b + log_at a) = ap exp_at (omega arith) in
    ground (arith, e)

gf_mul-zero : (a : ℕ) → (gf_mul 0 a ≡ 0) × (gf_mul a 0 ≡ 0)
unfolding gf_mul
gf_mul-zero a = ground arith

gf_mul_assoc-nonzero :
    (a b c : ℕ)
    → a < 256
    → b < 256
    → c < 256
    → a ≢ 0
    → b ≢ 0
    → c ≢ 0
    → gf_mul (gf_mul a b) c ≡ gf_mul a (gf_mul b c)
gf_mul_assoc-nonzero a b c ka kb kc ha hb hc =
    let ab = product_facts a b ka kb ha hb in
    let bc = product_facts b c kb kc hb hc in
    let la = (log_facts a ka ha).0 in
    let lb = (log_facts b kb hb).0 in
    let lc = (log_facts c kc hc).0 in
    let left = reduced (log_at a + log_at b) + log_at c in
    let right = log_at a + reduced (log_at b + log_at c) in
    let sl = reduced_small (log_at a + log_at b) (omega arith) in
    let sr = reduced_small (log_at b + log_at c) (omega arith) in
    gf_mul-powers (gf_mul a b) c (omega arith) hc
    ∙ ap (λ i. exp_at (i + log_at c)) ab.2
    ∙ exp_reduced left (omega arith)
    ∙ ap exp_at (reduced_assoc (log_at a) (log_at b) (log_at c) la lb lc)
    ∙ sym (exp_reduced right (omega arith))
    ∙ sym (ap (λ i. exp_at (log_at a + i)) bc.2)
    ∙ sym (gf_mul-powers a (gf_mul b c) ha (omega arith))

zero_cases : (a : ℕ) → (a ≡ 0) ⊎ (a ≢ 0)
zero_cases zero = inl refl
zero_cases (suc a) = inr (λ e. omega arith)

gf_mul_assoc :
    (a b c : ℕ) → a < 256 → b < 256 → c < 256 → gf_mul (gf_mul a b) c ≡ gf_mul a (gf_mul b c)
gf_mul_assoc a b c ka kb kc = elim (zero_cases a) [
  | inl za ↦ rw (za, (gf_mul-zero b).0, (gf_mul-zero c).0, (gf_mul-zero (gf_mul b c)).0) refl
  | inr ha ↦ elim (zero_cases b) [
    | inl zb ↦ rw (zb, (gf_mul-zero a).1, (gf_mul-zero c).0, (gf_mul-zero a).1) refl
    | inr hb ↦ elim (zero_cases c) [
      | inl zc ↦ rw (zc, (gf_mul-zero b).1, (gf_mul-zero (gf_mul a b)).1, (gf_mul-zero a).1) refl
      | inr hc ↦ gf_mul_assoc-nonzero a b c ka kb kc ha hb hc
    ]
  ]
]

gf_mul-bound : (a b : ℕ) → a < 256 → b < 256 → gf_mul a b < 256
gf_mul-bound a b ka kb = elim (zero_cases a) [
  | inl za ↦ rw (za, (gf_mul-zero b).0) (omega arith)
  | inr ha ↦ elim (zero_cases b) [
    | inl zb ↦ rw (zb, (gf_mul-zero a).1) (omega arith)
    | inr hb ↦ (product_facts a b ka kb ha hb).0
  ]
]

-- The multiplication by tables is commutative and associative on bytes, gives bytes, and gives 0
-- only if a factor is 0.
pub gf_mul_laws :
    (a b c : ℕ)
    → a < 256
    → b < 256
    → c < 256
    → (gf_mul a b ≡ gf_mul b a)
      × (gf_mul (gf_mul a b) c ≡ gf_mul a (gf_mul b c))
      × (gf_mul a b < 256)
      × (a ≢ 0 → b ≢ 0 → 0 < gf_mul a b)
gf_mul_laws a b c ka kb kc = (
  gf_mul_comm a b,
  gf_mul_assoc a b c ka kb kc,
  gf_mul-bound a b ka kb,
  λ ha hb. (product_facts a b ka kb ha hb).1,
)

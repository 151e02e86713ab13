-- ===== src/Seal/Shamir/Field.antt =====
-- internal/seal/shamir.go: arithmetic in GF(2^8), by the logarithm tables that `init` builds.
use Prim.Native.Nat.{bit_and, bit_xor}
use yvonne.Base.{
  ℕ, zero, suc, ◌+◌, ◌-◌, ◌*◌, ◌/◌, ◌%◌, List, [], ◌∷◌, ◌++◌, Option, none, some, ◌==◌, ◌||◌,
  length, get_or, replicate, if◌then◌else◌,
}

-- The loop of gfMulNoTable, with the rounds left.
unfoldable pub gf_mul_loop : ℕ → ℕ → ℕ → ℕ → ℕ
gf_mul_loop zero a b result = result
gf_mul_loop (suc rounds) a b result =
    let doubled = a * 2 % 256 in
    gf_mul_loop rounds (if bit_and a 0x80 == 0 then doubled else bit_xor doubled 0x1b) (b / 2)
      (if bit_and b 1 == 0 then result else bit_xor result a)

-- gfMulNoTable
unfoldable pub gf_mul_no_table : ℕ → ℕ → ℕ
unfolding gf_mul_loop
gf_mul_no_table a b = gf_mul_loop 8 a b 0

abbrev pub gf_generator : ℕ
gf_generator = 3

-- The first loop of `init`, for gfExp: the powers of the generator from `x` on.
gf_powers : ℕ → ℕ → List ℕ
gf_powers zero x = []
gf_powers (suc rounds) x = x ∷ gf_powers rounds (gf_mul_no_table x gf_generator)

-- The second loop of `init`: gfExp[i] = gfExp[i-255].
gf_repeat : ℕ → List ℕ → List ℕ
gf_repeat zero t = t
gf_repeat (suc rounds) t = gf_repeat rounds (t ++ get_or t (length t - 255) 0 ∷ [])

-- A write into an array.
abbrev pub set : List ℕ → ℕ → ℕ → List ℕ
set [] i v = []
set (x ∷ xs) zero v = v ∷ xs
set (x ∷ xs) (suc i) v = x ∷ set xs i v

-- The first loop of `init`, for gfLog: gfLog[x] = i.
gf_logs : ℕ → ℕ → ℕ → List ℕ → List ℕ
gf_logs zero i x t = t
gf_logs (suc rounds) i x t = gf_logs rounds (i + 1) (gf_mul_no_table x gf_generator) (set t x i)

-- gfExp and gfLog as `init` leaves them.
unfoldable pub gf_exp : List ℕ
unfolding gf_powers gf_repeat gf_mul_no_table
gf_exp = gf_repeat 257 (gf_powers 255 1)

unfoldable pub gf_log : List ℕ
unfolding gf_logs gf_mul_no_table
gf_log = gf_logs 255 0 1 (replicate 256 0)

unfoldable pub gf_mul : ℕ → ℕ → ℕ
gf_mul a b = if a == 0 || b == 0 then 0 else get_or gf_exp (get_or gf_log a 0 + get_or gf_log b 0) 0

-- gfInv; `none` is errZeroInverse.
unfoldable pub gf_inv : ℕ → Option ℕ
gf_inv a = if a == 0 then none else some (get_or gf_exp (255 - get_or gf_log a 0) 0)

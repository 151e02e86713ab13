-- ===== src/Seal/Shamir/Bytes.antt =====
-- The bytes with gfMul, gfInv and `^` (internal/seal/shamir.go) are a field where every element is
-- its own negative.
use Prim.Native.Nat.{bit_xor, Fin}
use native.Mathlib.Fin.{val_path}
use yvonne.Base.{
  ℕ, suc, ◌%◌, ◌<◌, true, none, some, ltb, ltb→lt, ◌≡◌, ◌≢◌, refl, ap, arith, every_byte,
  every_below, every_byte-at, bit_xor_comm, bit_xor_assoc, bit_xor_self, bit_xor_bound,
}
use yvonne.Seal.Shamir.Field.{gf_mul, gf_inv, gf_exp, gf_log}
use yvonne.Seal.Shamir.Multiplying.{gf_mul_laws}
use yvonne.Seal.Shamir.Inverse.{gf_mul-gf_inv, gf_mul-one}
use yvonne.Seal.Shamir.Distributing.{gf_mul-bit_xor, bit_xor-zero}
use yvonne.Seal.Shamir.BinaryField.{BinaryField}

-- The byte of a number.
abbrev pub to_byte : ℕ → Fin 256
to_byte n = (n % 256, omega arith)

-- gf_inv with 0 where there is no inverse.
abbrev pub inverse_or_zero : ℕ → ℕ
inverse_or_zero a = elim (gf_inv a) [ none ↦ 0 | some b ↦ b ]

bound_table : every_byte (λ a. ltb (inverse_or_zero a) 256) ≡ true
unfolding every_byte every_below gf_inv gf_exp gf_log
bound_table = refl

pub inverse_bound : (a : ℕ) → a < 256 → inverse_or_zero a < 256
inverse_bound a h = ltb→lt _ _ (every_byte-at (λ a. ltb (inverse_or_zero a) 256) a h bound_table)

pub gf_mul-inverse : (a : ℕ) → a < 256 → a ≢ 0 → gf_mul a (inverse_or_zero a) ≡ 1
gf_mul-inverse a h ne = let (b, e, m) = (gf_mul-gf_inv a h).1 ne in rw (inverse_or_zero, e) m

pub different : to_byte 1 ≢ to_byte 0
different e = let same : suc 0 ≡ 0 = ap (λ b. b.0) e in omega arith

-- The field of bytes.
abbrev pub bytes : BinaryField (Fin 256)
bytes = record {
  null = to_byte 0;
  one = to_byte 1;
  add = λ a b. (bit_xor a.0 b.0, bit_xor_bound 8 a.0 b.0 a.1 b.1);
  mul = λ a b. (gf_mul a.0 b.0, (gf_mul_laws a.0 b.0 b.0 a.1 b.1 b.1).2);
  inv = λ a. (inverse_or_zero a.0, inverse_bound a.0 a.1);
  one_null = different;
  add_comm = λ a b. val_path (bit_xor_comm a.0 b.0);
  add_assoc = λ a b c. val_path (bit_xor_assoc a.0 b.0 c.0);
  add_null = λ a. val_path (bit_xor-zero a.0);
  add_self = λ a. val_path (bit_xor_self a.0);
  mul_comm = λ a b. val_path ((gf_mul_laws a.0 b.0 b.0 a.1 b.1 b.1).0);
  mul_assoc = λ a b c. val_path ((gf_mul_laws a.0 b.0 c.0 a.1 b.1 c.1).1);
  mul_one = λ a. val_path ((gf_mul-one a.0 a.1).0);
  mul_add = λ a b c. val_path (gf_mul-bit_xor a.0 b.0 c.0 a.1 b.1 c.1);
  mul_inv = λ a ne. val_path (gf_mul-inverse a.0 a.1 (λ e. ne (val_path e)));
}

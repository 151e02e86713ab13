-- ===== src/Base/Xor.antt =====
-- Laws of `^` on Go's unsigned integers, digit by digit.
use Prim.Native.Nat.{
  ℕ, zero, suc, ◌+◌, ◌*◌, ◌/◌, ◌%◌, ◌^◌, ◌≤◌, ◌<◌, bit_xor, bit_xor-bitwise, differ, digits,
}
use mathlib.Core.Path.{◌≡◌, refl, ap, ◌∙◌}
use native.Mathlib.Nat.{pow-suc}
use native.Mathlib.Omega.{arith}

-- The digits of the exclusive or, with a count of rounds.
abbrev rounds : ℕ → ℕ → ℕ → ℕ
rounds count x y = digits (λ y. y) differ count x y

enough_rounds : (count other x y : ℕ) → x ≤ count → x ≤ other → rounds count x y ≡ rounds other x y
enough_rounds zero zero x y h g = refl
enough_rounds zero (suc other) zero y h g = refl
enough_rounds zero (suc other) (suc x) y h g = absurd (omega arith)
enough_rounds (suc count) other zero y h g = none_left other y
  where
    none_left : (other y : ℕ) → y ≡ rounds other 0 y
    none_left zero y = refl
    none_left (suc other) y = refl
enough_rounds (suc count) zero (suc x) y h g = absurd (omega arith)
enough_rounds (suc count) (suc other) (suc x) y h g =
    ap (λ r. r * 2 + differ (suc x % 2) (y % 2))
      (enough_rounds count other (suc x / 2) (y / 2) (omega arith) (omega arith))

pub zero-bit_xor : (y : ℕ) → bit_xor 0 y ≡ y
zero-bit_xor y = bit_xor-bitwise 0 y

-- The lowest digit of each is the parity of the sum.
differ_parity : (x y : ℕ) → x < 2 → y < 2 → differ x y ≡ (x + y) % 2
differ_parity zero zero h g = refl
differ_parity zero (suc zero) h g = refl
differ_parity (suc zero) zero h g = refl
differ_parity (suc zero) (suc zero) h g = refl
differ_parity (suc (suc x)) y h g = absurd (omega arith)
differ_parity zero (suc (suc y)) h g = absurd (omega arith)
differ_parity (suc zero) (suc (suc y)) h g = absurd (omega arith)

pub bit_xor-halves : (x y : ℕ) → bit_xor x y ≡ bit_xor (x / 2) (y / 2) * 2 + (x % 2 + y % 2) % 2
bit_xor-halves zero y = omega (arith, zero-bit_xor y, zero-bit_xor (y / 2))
bit_xor-halves (suc x) y =
    bit_xor-bitwise (suc x) y
    ∙ omega (
      arith,
      enough_rounds x (suc x / 2) (suc x / 2) (y / 2) (omega arith) (omega arith),
      bit_xor-bitwise (suc x / 2) (y / 2),
      differ_parity (suc x % 2) (y % 2) (omega arith) (omega arith),
    )

comm_up_to : (n x y : ℕ) → x ≤ n → y ≤ n → bit_xor x y ≡ bit_xor y x
comm_up_to zero x y h g = let e : x ≡ y = omega arith in rw e refl
comm_up_to (suc n) x y h g = omega (
  arith,
  bit_xor-halves x y,
  bit_xor-halves y x,
  comm_up_to n (x / 2) (y / 2) (omega arith) (omega arith),
)

pub bit_xor_comm : (x y : ℕ) → bit_xor x y ≡ bit_xor y x
bit_xor_comm x y = comm_up_to (x + y) x y (omega arith) (omega arith)

self_up_to : (n x : ℕ) → x ≤ n → bit_xor x x ≡ 0
self_up_to zero zero h = refl
self_up_to zero (suc x) h = absurd (omega arith)
self_up_to (suc n) x h = omega (arith, bit_xor-halves x x, self_up_to n (x / 2) (omega arith))

pub bit_xor_self : (x : ℕ) → bit_xor x x ≡ 0
bit_xor_self x = self_up_to x x (omega arith)

assoc_up_to :
    (n x y z : ℕ) → x ≤ n → y ≤ n → z ≤ n → bit_xor (bit_xor x y) z ≡ bit_xor x (bit_xor y z)
assoc_up_to zero x y z h g k =
    let e : x ≡ 0 = omega arith in
    let f : y ≡ 0 = omega arith in rw (e, f, zero-bit_xor z, zero-bit_xor 0, zero-bit_xor z) refl
assoc_up_to (suc n) x y z h g k =
    let left = bit_xor-halves (bit_xor x y) z in
    let right = bit_xor-halves x (bit_xor y z) in
    let xy = bit_xor-halves x y in
    let yz = bit_xor-halves y z in
    let xy_half : bit_xor x y / 2 ≡ bit_xor (x / 2) (y / 2) = omega arith in
    let yz_half : bit_xor y z / 2 ≡ bit_xor (y / 2) (z / 2) = omega arith in
    let ih = assoc_up_to n (x / 2) (y / 2) (z / 2) (omega arith) (omega arith) (omega arith) in
    omega (arith, ap (λ q. bit_xor q (z / 2)) xy_half, ap (λ q. bit_xor (x / 2) q) yz_half)

pub bit_xor_assoc : (x y z : ℕ) → bit_xor (bit_xor x y) z ≡ bit_xor x (bit_xor y z)
bit_xor_assoc x y z = assoc_up_to (x + y + z) x y z (omega arith) (omega arith) (omega arith)

pub bit_xor_bound : (k x y : ℕ) → x < 2 ^ k → y < 2 ^ k → bit_xor x y < 2 ^ k
bit_xor_bound zero x y h g = let e : x ≡ 0 = omega arith in rw (e, zero-bit_xor y) g
bit_xor_bound (suc k) x y h g = omega (
  arith,
  bit_xor-halves x y,
  pow-suc 2 k,
  bit_xor_bound k (x / 2) (y / 2) (omega (arith, pow-suc 2 k)) (omega (arith, pow-suc 2 k)),
)

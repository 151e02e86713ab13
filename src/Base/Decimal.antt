-- ===== src/Base/Decimal.antt =====
-- `%d` of `fmt.Sprintf` and `json.Marshal` of an int, for the numbers from 0 up, and the reading
-- back of such a text.
use Prim.Native.Nat.{ℕ, zero, suc, ◌+◌, ◌-◌, ◌*◌, ◌/◌, ◌%◌, ◌^◌, ◌≤◌, ◌<◌}
use mathlib.Core.Path.{◌≡◌, refl, ap}
use mathlib.Core.Logic.{inl, inr, ◌≢◌}
use mathlib.Core.Bool.{Bool, true, false, ◌&&◌}
use mathlib.Core.Option.{Option, none, some}
use mathlib.Core.List.{[], ◌∷◌, ◌++◌}
use native.Mathlib.Omega.{arith}
use yvonne.Base.Tests.{ltb, leb, if◌then◌else◌, Bool-cases, ltb→lt}
use native.Mathlib.Nat.{pow-suc}
use yvonne.Base.Lists.{All, All-append, length, length-append}
use yvonne.Base.Text.{Str}

decimal_digits : ℕ → ℕ → Str
decimal_digits zero n = []
decimal_digits (suc f) n =
    let more = decimal_digits f (n / 10) ++ (48 + n % 10) ∷ [] in
    if ltb n 10 then (48 + n) ∷ [] else more

-- One more round than the number's value is always enough.
unfoldable pub decimal : ℕ → Str
unfolding decimal_digits
decimal n = decimal_digits (suc n) n

-- The value of a string of digits read after `acc`.
abbrev read_digits : ℕ → Str → ℕ
read_digits acc [] = acc
read_digits acc (c ∷ s) = read_digits (acc * 10 + (c - 48)) s

all_digits : Str → Bool
all_digits [] = true
all_digits (c ∷ s) = leb 48 c && leb c 57 && all_digits s

abbrev nonempty : Str → Bool
nonempty [] = false
nonempty (c ∷ s) = true

-- `json.Unmarshal(data, &v)` into an int, at the texts that `decimal` writes.
unfoldable pub parse_int : Str → Option ℕ
unfolding all_digits
parse_int s = if nonempty s && all_digits s then some (read_digits 0 s) else none

abbrev pub IsDigit : ℕ → Type 0
IsDigit c = (48 ≤ c) × (c ≤ 57)

read_digits-append :
    (acc : ℕ) (s t : Str) → read_digits acc (s ++ t) ≡ read_digits (read_digits acc s) t
read_digits-append acc [] t = refl
read_digits-append acc (c ∷ s) t = read_digits-append (acc * 10 + (c - 48)) s t

read_decimal_digits : (f n : ℕ) → n < f → read_digits 0 (decimal_digits f n) ≡ n
unfolding decimal_digits
read_decimal_digits zero n h = absurd (omega arith)
read_decimal_digits (suc f) n h = ground (
  arith,
  read_digits-append 0 (decimal_digits f (n / 10)) ((48 + n % 10) ∷ []),
  read_decimal_digits f (n / 10),
)

decimal_digits-IsDigit : (f n : ℕ) → All IsDigit (decimal_digits f n)
unfolding decimal_digits
decimal_digits-IsDigit zero n = tt
decimal_digits-IsDigit (suc f) n = elim (Bool-cases (ltb n 10)) [
  | inl e ↦ rw e (let h : n < 10 = ltb→lt n 10 e in omega arith)
  | inr e ↦ rw e (
      All-append IsDigit (decimal_digits f (n / 10)) ((48 + n % 10) ∷ [])
        (decimal_digits-IsDigit f (n / 10)) (omega arith))
]

nonempty_snoc : (s : Str) (c : ℕ) → nonempty (s ++ c ∷ []) ≡ true
nonempty_snoc [] c = refl
nonempty_snoc (x ∷ s) c = refl

nonempty-decimal_digits : (f n : ℕ) → nonempty (decimal_digits (suc f) n) ≡ true
unfolding decimal_digits
nonempty-decimal_digits f n = elim (Bool-cases (ltb n 10)) [
  | inl e ↦ rw e
  | inr e ↦ rw e (nonempty_snoc (decimal_digits f (n / 10)) (48 + n % 10))
]

all_digits_of : (s : Str) → All IsDigit s → all_digits s ≡ true
unfolding all_digits
all_digits_of [] h = refl
all_digits_of (c ∷ s) h = ground (arith, all_digits_of s h.1)

pub decimal-IsDigit : (n : ℕ) → All IsDigit (decimal n)
unfolding decimal
decimal-IsDigit n = decimal_digits-IsDigit (suc n) n

nonempty-decimal : (n : ℕ) → nonempty (decimal n) ≡ true
unfolding decimal
nonempty-decimal n = nonempty-decimal_digits n n

-- The length of a written number is never 0.
pub decimal_nonempty : (n : ℕ) → decimal n ≢ []
decimal_nonempty n e = cc (ap nonempty e, nonempty-decimal n)

read-decimal : (n : ℕ) → read_digits 0 (decimal n) ≡ n
unfolding decimal
read-decimal n = read_decimal_digits (suc n) n (omega arith)

pub parse_int-decimal : (n : ℕ) → parse_int (decimal n) ≡ some n
unfolding parse_int
parse_int-decimal n =
    rw (nonempty-decimal n, all_digits_of (decimal n) (decimal-IsDigit n))
      (ap some (read-decimal n))

-- A number below a power of ten has as many digits at most.
pub length-decimal : (k n : ℕ) → 0 < k → n < 10 ^ k → length (decimal n) ≤ k
unfolding decimal decimal_digits
length-decimal k n h g = digits (suc n) k n h g
  where
    digits : (f k n : ℕ) → 0 < k → n < 10 ^ k → length (decimal_digits f n) ≤ k
    digits zero k n h g = omega arith
    digits (suc f) zero n h g = absurd (omega arith)
    digits (suc f) (suc zero) n h g =
        let one : ltb n 10 ≡ true = ground arith in rw one (omega arith)
    digits (suc f) (suc (suc k)) n h g = elim (Bool-cases (ltb n 10)) [
      | inl low ↦ rw low (omega arith)
      | inr high ↦
          let fewer = digits f (suc k) (n / 10) (omega arith) (omega (arith, pow-suc 10 (suc k))) in
          rw high
            (omega (arith, fewer, length-append (decimal_digits f (n / 10)) ((48 + n % 10) ∷ [])))
    ]

-- ===== src/Base/Wiping.antt =====
-- Go's `clear` on a byte slice, and arrays that hold nothing but zeros.
use Prim.Native.Nat.{ℕ, zero, suc}
use mathlib.Core.Path.{◌≡◌, refl}
use mathlib.Core.List.{List, [], ◌∷◌, ◌++◌, map}
use yvonne.Base.Lists.{length, replicate, All}
use yvonne.Base.Text.{Str}

-- `clear(b)`: the array keeps its length and holds zeros.
abbrev pub clear : Str → Str
clear b = replicate (length b) 0

abbrev pub IsZero : Str → Type 0
IsZero = All (λ b. b ≡ 0)

IsZero-replicate : (n : ℕ) → IsZero (replicate n 0)
IsZero-replicate zero = tt
IsZero-replicate (suc n) = (refl, IsZero-replicate n)

-- A cleared array is zeros.
pub IsZero-clear : (b : Str) → IsZero (clear b)
IsZero-clear b = IsZero-replicate (length b)

pub IsZero-clear-All :
    (pool rest : List Str) → All IsZero rest → All IsZero (map clear pool ++ rest)
IsZero-clear-All [] rest h = h
IsZero-clear-All (s ∷ pool) rest h = (IsZero-clear s, IsZero-clear-All pool rest h)

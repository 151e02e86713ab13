-- ===== src/Base/Bytes.antt =====
-- Tests that run over every value of a byte.
use Prim.Native.Nat.{ℕ, zero, suc, ◌<◌}
use mathlib.Core.Path.{◌≡◌}
use mathlib.Core.Bool.{Bool, true, false}
use native.Mathlib.Omega.{arith}
use yvonne.Base.Tests.{if◌then◌else◌}

-- Whether the test holds from 0 up to the bound, without it.
unfoldable pub every_below : (ℕ → Bool) → ℕ → Bool
every_below test zero = true
every_below test (suc bound) = if test bound then every_below test bound else false

pub every_below-at :
    (test : ℕ → Bool) (bound i : ℕ) → i < bound → every_below test bound ≡ true → test i ≡ true
unfolding every_below
every_below-at test zero i small held = absurd (omega arith)
every_below-at test (suc bound) i small held = ground (arith, every_below-at test bound i)

unfoldable pub every_byte : (ℕ → Bool) → Bool
every_byte test = every_below test 256

pub every_byte-at : (test : ℕ → Bool) (i : ℕ) → i < 256 → every_byte test ≡ true → test i ≡ true
unfolding every_byte
every_byte-at test = every_below-at test 256

-- ===== src/Base.antt =====
-- The names that every other module shares: the libraries', passed on, and the helpers of the
-- children (tests, lists, Go strings, association lists, decimal numbers, bytes).
mod Tests
mod Lists
mod Text
mod Maps
mod Decimal
mod Wiping
mod Bytes
mod Xor
pub use Tests.*
pub use Lists.*
pub use Wiping.*
unfoldable pub use Bytes.*
pub use Xor.*
unfoldable pub use Text.*
unfoldable pub use Maps.*
unfoldable pub use Decimal.*
pub use Prim.Native.Nat.{ℕ, zero, suc, ◌+◌, ◌-◌, ◌*◌, ◌/◌, ◌%◌, ◌^◌, ◌≤◌, ◌<◌}
pub use mathlib.Core.Path.{◌≡◌, refl, sym, ap, subst, ◌∙◌}
pub use mathlib.Core.Logic.{◌≢◌, ◌↔◌, ◌⊎◌, inl, inr}
pub use mathlib.Core.Bool.{Bool, true, false, not, ◌&&◌, ◌||◌}
pub use mathlib.Core.Option.{Option, none, some}
pub use mathlib.Core.List.{List, [], ◌∷◌, ◌++◌, map, append_assoc, append-nil}
pub use native.Mathlib.Omega.{arith}

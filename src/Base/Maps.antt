-- ===== src/Base/Maps.antt =====
-- A Go map with string keys as an association list.
use mathlib.Core.Path.{◌≡◌, subst}
use mathlib.Core.Bool.{Bool, true, false}
use mathlib.Core.Option.{Option, none, some}
use mathlib.Core.List.{List, [], ◌∷◌}
use native.Mathlib.Omega.{arith}
use yvonne.Base.Lists.{All}
use yvonne.Base.Tests.{if◌then◌else◌}
use yvonne.Base.Text.{Str, str_eq, str_eq_iff}

abbrev pub Assoc {ℓ} : Type ℓ → Type ℓ
Assoc V = List (Str × V)

module _ {ℓ} {V : Type ℓ} where
  -- `m[k]`
  unfoldable pub lookup : Str → Assoc V → Option V
  lookup k [] = none
  lookup k ((j, v) ∷ m) = if str_eq j k then some v else lookup k m

  -- `delete(m, k)`
  unfoldable pub remove : Str → Assoc V → Assoc V
  remove k [] = []
  remove k ((j, v) ∷ m) = let rest = remove k m in if str_eq j k then rest else (j, v) ∷ rest

  -- `m[k] = v`
  unfoldable pub insert : Str → V → Assoc V → Assoc V
  insert k v m = (k, v) ∷ remove k m

  -- `for k := range m { if p(k) { delete(m, k) } }`
  unfoldable pub remove_where : (Str → Bool) → Assoc V → Assoc V
  remove_where p [] = []
  remove_where p ((j, v) ∷ m) = let rest = remove_where p m in if p j then rest else (j, v) ∷ rest

  pub lookup-remove :
      (k j : Str) (m : Assoc V) → lookup j (remove k m) ≡ (if str_eq k j then none else lookup j m)
  unfolding lookup remove
  lookup-remove k j [] = ground arith
  lookup-remove k j ((i, v) ∷ m) =
      ground (arith, lookup-remove k j m, str_eq_iff i k, str_eq_iff i j, str_eq_iff k j)

  pub lookup-insert :
      (k j : Str) (v : V) (m : Assoc V)
      → lookup j (insert k v m) ≡ (if str_eq k j then some v else lookup j m)
  unfolding lookup insert
  lookup-insert k j v m = ground (arith, lookup-remove k j m)

  pub lookup-remove_where :
      (p : Str → Bool) (j : Str) (m : Assoc V)
      → lookup j (remove_where p m) ≡ (if p j then none else lookup j m)
  unfolding lookup remove_where
  lookup-remove_where p j [] = ground arith
  lookup-remove_where p j ((i, v) ∷ m) = ground (arith, lookup-remove_where p j m, str_eq_iff i j)

-- Every value of the map satisfies P.
abbrev pub AllValues {ℓ κ} : {V : Type ℓ} → (V → Type κ) → Assoc V → Type κ
AllValues P m = All (λ e. P e.1) m

module _ {ℓ κ} {V : Type ℓ} (P : V → Type κ) where
  choose_tail :
      (b : Bool) (j : Str) (v : V) (m : Assoc V)
      → P v
      → AllValues P m
      → AllValues P (if b then m else (j, v) ∷ m)
  choose_tail true j v m hv hm = hm
  choose_tail false j v m hv hm = (hv, hm)

  pub AllValues-remove : (k : Str) (m : Assoc V) → AllValues P m → AllValues P (remove k m)
  unfolding remove
  AllValues-remove k [] h = tt
  AllValues-remove k ((j, v) ∷ m) h =
      choose_tail (str_eq j k) j v (remove k m) h.0 (AllValues-remove k m h.1)

  pub AllValues-insert :
      (k : Str) (v : V) (m : Assoc V) → P v → AllValues P m → AllValues P (insert k v m)
  unfolding insert
  AllValues-insert k v m hv h = (hv, AllValues-remove k m h)

  choose_value :
      (b : Bool) (u v : V) (o : Option V)
      → (o ≡ some v → P v)
      → P u
      → (if b then some u else o) ≡ some v
      → P v
  choose_value true u v o f hu e = subst P (cc) hu
  choose_value false u v o f hu e = f e

  pub AllValues-lookup : (k : Str) (m : Assoc V) (v : V) → AllValues P m → lookup k m ≡ some v → P v
  unfolding lookup
  AllValues-lookup k [] v h e = absurd cc
  AllValues-lookup k ((j, u) ∷ m) v h e =
      choose_value (str_eq j k) u v (lookup k m) (AllValues-lookup k m v h.1) h.0 e

-- ===== src/Seal/Shamir/Sharing/Shape.antt =====
-- The shape of what Split gives and of what Combine accepts (internal/seal/shamir.go).
use yvonne.Base.{
  ℕ, zero, suc, ◌+◌, ◌-◌, ◌≤◌, ◌<◌, Str, List, [], ◌∷◌, ◌++◌, map, true, false, Option, some, ◌≡◌,
  ◌≢◌, refl, ap, sym, arith, length, All,
}
use yvonne.Seal.Shamir.Sharing.{
  Result, ok, err, gf_eval, polynomials, shares_from, make_shares, split, all_well_formed, x_of,
  seen, distinct_x, interpolate_bytes, combine, combine_with_threshold,
}

length-map {ℓ κ} :
    {A : Type ℓ} {B : Type κ} (f : A → B) (xs : List A) → length (map f xs) ≡ length xs
length-map f [] = refl
length-map f (x ∷ xs) = ap suc (length-map f xs)

-- A share with as many bytes after its x coordinate, which is not 0 and at most `top`.
abbrev pub IsShare : ℕ → ℕ → Str → Type 0
IsShare bytes top s = (length s ≡ suc bytes) × (0 < x_of s) × (x_of s ≤ top)

length-polynomials :
    (random : ℕ → ℕ → Option Str) (n idx : ℕ) (secret : Str) (polys : List Str)
    → polynomials random n idx secret ≡ ok polys
    → length polys ≡ length secret
unfolding polynomials
length-polynomials random n idx [] polys h = ground arith
length-polynomials random n idx (b ∷ secret) [] h = ground arith
length-polynomials random n idx (b ∷ secret) (p ∷ polys) h =
    ground (arith, length-polynomials random n (idx + 1) secret polys)

shares_from-IsShare :
    (polys : List Str) (parts x top : ℕ)
    → 0 < x
    → x + parts ≤ suc top
    → All (IsShare (length polys) top) (shares_from polys parts x)
shares_from-IsShare polys zero x top h g = tt
shares_from-IsShare polys (suc parts) x top h g = (
  (ap suc (length-map (gf_eval x) polys), h, omega arith),
  shares_from-IsShare polys parts (suc x) top (omega arith) (omega arith),
)

length-shares_from : (polys : List Str) (parts x : ℕ) → length (shares_from polys parts x) ≡ parts
length-shares_from polys zero x = refl
length-shares_from polys (suc parts) x = ap suc (length-shares_from polys parts (suc x))

-- The value is at no place of the list.
abbrev pub Absent : ℕ → List ℕ → Type 0
Absent x ys = All (λ y. y ≢ x) ys

abbrev pub Distinct : List ℕ → Type 0
Distinct [] = Unit
Distinct (x ∷ xs) = Absent x xs × Distinct xs

Absent-shares_from :
    (polys : List Str) (parts x y : ℕ) → x < y → Absent x (map x_of (shares_from polys parts y))
Absent-shares_from polys zero x y h = tt
Absent-shares_from polys (suc parts) x y h =
    ((λ e. omega arith), Absent-shares_from polys parts x (suc y) (omega arith))

shares_from-Distinct :
    (polys : List Str) (parts x : ℕ) → Distinct (map x_of (shares_from polys parts x))
shares_from-Distinct polys zero x = tt
shares_from-Distinct polys (suc parts) x = (
  Absent-shares_from polys parts x (suc x) (omega arith),
  shares_from-Distinct polys parts (suc x),
)

pub make_shares-ok :
    (parts : ℕ) (r : Result (List Str)) (shares : List Str)
    → make_shares parts r ≡ ok shares
    → (polys : List Str) × (r ≡ ok polys) × (shares ≡ shares_from polys parts 1)
make_shares-ok parts (err e) shares h = cc
make_shares-ok parts (ok polys) shares h = (polys, refl, cc)

pub split-ok :
    (random : ℕ → ℕ → Option Str) (secret : Str) (parts threshold : ℕ) (shares : List Str)
    → split random (some secret) parts threshold ≡ ok shares
    → (2 ≤ threshold)
      × (threshold ≤ parts)
      × (parts ≤ 255)
      × (make_shares parts (polynomials random (threshold - 1) 0 secret) ≡ ok shares)
unfolding split
split-ok random [] parts threshold shares h = ground arith
split-ok random (b ∷ secret) parts threshold shares h = ground arith

-- A Split that succeeds was asked for 2 to 255 shares with a threshold from 2 up to their number,
-- and gives that many shares: each one byte longer than the secret, with x coordinates that are
-- not 0, at most the number of shares, and all different.
pub split-shape :
    (random : ℕ → ℕ → Option Str) (secret : Str) (parts threshold : ℕ) (shares : List Str)
    → split random (some secret) parts threshold ≡ ok shares
    → (2 ≤ threshold)
      × (threshold ≤ parts)
      × (parts ≤ 255)
      × (length shares ≡ parts)
      × All (IsShare (length secret) parts) shares
      × Distinct (map x_of shares)
split-shape random secret parts threshold shares h =
    let q = split-ok random secret parts threshold shares h in
    let (polys, e, same) = make_shares-ok parts _ shares q.3 in
    let size = length-polynomials random (threshold - 1) 0 secret polys e in
    (
      q.0,
      q.1,
      q.2,
      rw same (length-shares_from polys parts 1),
      rw (same, ← size) (shares_from-IsShare polys parts 1 parts (omega arith) (omega arith)),
      rw same (shares_from-Distinct polys parts 1),
    )

all_well_formed-IsShare :
    (n : ℕ) (shares : List Str)
    → all_well_formed (suc n) shares ≡ true
    → All (λ s. (length s ≡ suc n) × (0 < x_of s)) shares
unfolding all_well_formed
all_well_formed-IsShare n [] h = tt
all_well_formed-IsShare n ([] ∷ shares) h = absurd (ground arith)
all_well_formed-IsShare n ((x ∷ ys) ∷ shares) h =
    (ground arith, all_well_formed-IsShare n shares (ground arith))

seen-Absent : (x : ℕ) (xs : List ℕ) → seen x xs ≡ false → Absent x xs
unfolding seen
seen-Absent x [] h = tt
seen-Absent x (y ∷ ys) h = (ground arith, seen-Absent x ys (ground arith))

-- Values that are all different, and none of which is among those seen before.
abbrev FreshAgainst : List ℕ → List ℕ → Type 0
FreshAgainst xs [] = Unit
FreshAgainst xs (y ∷ ys) = Absent y xs × FreshAgainst (y ∷ xs) ys

distinct_x-FreshAgainst :
    (xs : List ℕ) (shares : List Str)
    → distinct_x xs shares ≡ true
    → FreshAgainst xs (map x_of shares)
unfolding distinct_x
distinct_x-FreshAgainst xs [] h = tt
distinct_x-FreshAgainst xs (s ∷ shares) h = (
  seen-Absent (x_of s) xs (ground arith),
  distinct_x-FreshAgainst (x_of s ∷ xs) shares (ground arith),
)

member-Absent : (before after : List ℕ) (x y : ℕ) → Absent y (before ++ (x ∷ after)) → ¬ (y ≡ x)
member-Absent [] after x y h e = h.0 (sym e)
member-Absent (b ∷ before) after x y h e = member-Absent before after x y h.1 e

FreshAgainst-Absent :
    (x : ℕ) (before after ys : List ℕ) → FreshAgainst (before ++ (x ∷ after)) ys → Absent x ys
FreshAgainst-Absent x before after [] h = tt
FreshAgainst-Absent x before after (y ∷ ys) h =
    ((λ e. member-Absent before after x y h.0 e), FreshAgainst-Absent x (y ∷ before) after ys h.1)

FreshAgainst-Distinct : (xs ys : List ℕ) → FreshAgainst xs ys → Distinct ys
FreshAgainst-Distinct xs [] h = tt
FreshAgainst-Distinct xs (y ∷ ys) h =
    (FreshAgainst-Absent y [] xs ys h.1, FreshAgainst-Distinct (y ∷ xs) ys h.1)

length-interpolate_bytes :
    (shares : List Str) (left idx : ℕ) (plain : Str)
    → interpolate_bytes shares left idx ≡ ok plain
    → length plain ≡ left
unfolding interpolate_bytes
length-interpolate_bytes shares zero idx plain h = ground arith
length-interpolate_bytes shares (suc left) idx [] h = ground arith
length-interpolate_bytes shares (suc left) idx (b ∷ plain) h =
    ground (arith, length-interpolate_bytes shares left (suc idx) plain)

combine-ok :
    (s : Str) (shares : List Str) (plain : Str)
    → combine (s ∷ shares) ≡ ok plain
    → (2 ≤ length (s ∷ shares))
      × (2 ≤ length s)
      × (all_well_formed (length s) (s ∷ shares) ≡ true)
      × (distinct_x [] (s ∷ shares) ≡ true)
      × (interpolate_bytes (s ∷ shares) (length s - 1) 0 ≡ ok plain)
unfolding combine
combine-ok s shares plain h = ground arith

threshold-combine :
    (shares : List Str) (threshold : ℕ) (plain : Str)
    → combine_with_threshold shares threshold ≡ ok plain
    → (threshold ≤ length shares) × (combine shares ≡ ok plain)
unfolding combine_with_threshold
threshold-combine shares threshold plain h = ground arith

combine-nil : (threshold : ℕ) (plain : Str) → combine_with_threshold [] threshold ≢ ok plain
unfolding combine_with_threshold combine
combine-nil threshold plain h = ground arith

-- A Combine that succeeds was given at least two shares, all of them one byte longer than the
-- result, which is not empty, with x coordinates that are not 0 and all different. Under a
-- threshold, CombineWithThreshold succeeds only with at least as many shares.
pub combine-shape :
    (shares : List Str) (threshold : ℕ) (plain : Str)
    → combine_with_threshold shares threshold ≡ ok plain
    → (2 ≤ length shares)
      × (threshold ≤ length shares)
      × (0 < length plain)
      × All (λ s. (length s ≡ suc (length plain)) × (0 < x_of s)) shares
      × Distinct (map x_of shares)
combine-shape [] threshold plain h = absurd (combine-nil threshold plain h)
combine-shape (s ∷ shares) threshold plain h =
    let c = combine-ok s shares plain (threshold-combine (s ∷ shares) threshold plain h).1 in
    let size = length-interpolate_bytes (s ∷ shares) (length s - 1) 0 plain c.4 in
    let same : length s ≡ suc (length plain) = omega arith in
    (
      c.0,
      (threshold-combine (s ∷ shares) threshold plain h).0,
      omega arith,
      all_well_formed-IsShare (length plain) (s ∷ shares) (rw same at c.2),
      FreshAgainst-Distinct [] (map x_of (s ∷ shares))
          (distinct_x-FreshAgainst [] (s ∷ shares) c.3),
    )

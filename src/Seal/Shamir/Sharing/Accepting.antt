-- ===== src/Seal/Shamir/Sharing/Accepting.antt =====
-- The checks at the start of Combine (internal/seal/shamir.go) let good shares through.
use yvonne.Base.{
  ℕ, suc, ◌≤◌, ◌<◌, Str, List, [], ◌∷◌, map, true, false, ◌==◌, ltb, ◌≡◌, ◌≢◌, refl, arith, length,
  All,
}
use yvonne.Seal.Shamir.Sharing.{
  all_well_formed, x_of, seen, distinct_x, interpolate_bytes, combine, combine_with_threshold,
}
use yvonne.Seal.Shamir.Sharing.Shape.{Absent, Distinct}

accept_form :
    (n : ℕ) (shares : List Str)
    → All (λ s. (length s ≡ suc n) × (0 < x_of s)) shares
    → all_well_formed (suc n) shares ≡ true
unfolding all_well_formed
accept_form n [] h = refl
accept_form n ([] ∷ shares) h = absurd (omega (arith, h.0.0))
accept_form n ((x ∷ ys) ∷ shares) h = ground (arith, h.0.0, h.0.1, accept_form n shares h.1)

still_unseen :
    (s : Str) (xs : List ℕ) (shares : List Str)
    → Absent (x_of s) (map x_of shares)
    → All (λ t. seen (x_of t) xs ≡ false) shares
    → All (λ t. seen (x_of t) (x_of s ∷ xs) ≡ false) shares
unfolding seen
still_unseen s xs [] h g = tt
still_unseen s xs (t ∷ shares) h g =
    let other : (x_of s == x_of t) ≡ false = different (x_of s) (x_of t) h.0 in
    (rw (seen, other) g.0, still_unseen s xs shares h.1 g.1)
  where
    different : (a b : ℕ) → b ≢ a → (a == b) ≡ false
    different a b ne = ground arith

accept-Distinct :
    (xs : List ℕ) (shares : List Str)
    → All (λ t. seen (x_of t) xs ≡ false) shares
    → Distinct (map x_of shares)
    → distinct_x xs shares ≡ true
unfolding distinct_x
accept-Distinct xs [] h d = refl
accept-Distinct xs (s ∷ shares) h d =
    rw (distinct_x, h.0)
      (accept-Distinct (x_of s ∷ xs) shares (still_unseen s xs shares d.0 h.1) d.1)

none_seen : (shares : List Str) → All (λ t. seen (x_of t) [] ≡ false) shares
unfolding seen
none_seen [] = tt
none_seen (s ∷ shares) = (refl, none_seen shares)

pub combine-interpolate_bytes :
    (shares : List Str) (n threshold : ℕ)
    → threshold ≤ length shares
    → 2 ≤ length shares
    → 0 < n
    → All (λ s. (length s ≡ suc n) × (0 < x_of s)) shares
    → Distinct (map x_of shares)
    → combine_with_threshold shares threshold ≡ interpolate_bytes shares n 0
unfolding combine_with_threshold combine
combine-interpolate_bytes [] n threshold ht h2 hn all d = absurd (omega arith)
combine-interpolate_bytes (s ∷ shares) n threshold ht h2 hn all d =
    let enough : ltb (length (s ∷ shares)) threshold ≡ false = ground arith in
    let two : ltb (length (s ∷ shares)) 2 ≡ false = ground arith in
    let size : length s ≡ suc n = all.0.0 in
    let long : ltb (suc n) 2 ≡ false = ground arith in
    let form = accept_form n (s ∷ shares) all in
    let fresh = accept-Distinct [] (s ∷ shares) (none_seen (s ∷ shares)) d in
    ground (arith, enough, two, size, long, form, fresh)

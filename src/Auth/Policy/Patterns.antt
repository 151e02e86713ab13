-- ===== src/Auth/Policy/Patterns.antt =====
-- What a key pattern of a policy matches (internal/auth/auth.go).
use yvonne.Base.{
  ℕ, Str, codes, str_eq, str_ne, has_prefix, [], ◌∷◌, ◌++◌, false, Option, none, some, ◌≡◌, refl,
  arith,
}
use yvonne.Auth.Policy.Defs.{trim_star, match_pattern}

-- The last character is a star.
abbrev EndsInStar : Str → Type 0
EndsInStar s = (p : Str) × (s ≡ p ++ b'*' ∷ [])

trim_star-append : (p : Str) → trim_star (p ++ b'*' ∷ []) ≡ some p
unfolding trim_star
trim_star-append [] = refl
trim_star-append (c ∷ []) = refl
trim_star-append (c ∷ d ∷ p) = rw (trim_star-append (d ∷ p)) refl

trim_star-some : (s p : Str) → trim_star s ≡ some p → s ≡ p ++ b'*' ∷ []
unfolding trim_star
trim_star-some [] p h = cc
trim_star-some (c ∷ []) [] h = ground arith
trim_star-some (c ∷ []) (e ∷ p) h = ground arith
trim_star-some (c ∷ d ∷ s) [] h = ground arith
trim_star-some (c ∷ d ∷ s) (e ∷ p) h = ground (arith, trim_star-some (d ∷ s) p)

star_is_short : (c : ℕ) (p : Str) → str_eq (c ∷ (p ++ b'*' ∷ [])) (codes "*") ≡ false
unfolding str_eq
star_is_short c [] = ground arith
star_is_short c (d ∷ p) = ground arith

starred :
    (prefix key_id : Str)
    → str_eq (prefix ++ b'*' ∷ []) (codes "*") ≡ false
    → trim_star (prefix ++ b'*' ∷ []) ≡ some prefix
    → match_pattern (prefix ++ b'*' ∷ []) key_id ≡ has_prefix key_id prefix
unfolding match_pattern
starred prefix key_id e t = ground arith

plain_pattern :
    (pattern' key_id : Str)
    → str_eq pattern' (codes "*") ≡ false
    → trim_star pattern' ≡ none
    → match_pattern pattern' key_id ≡ str_eq pattern' key_id
unfolding match_pattern
plain_pattern pattern' key_id e t = ground arith

trim_star-none : (s : Str) → ¬ EndsInStar s → trim_star s ≡ none
trim_star-none s h = go (trim_star s) refl
  where
    go : (o : Option Str) → trim_star s ≡ o → trim_star s ≡ none
    go none e = e
    go (some p) e = absurd (h (p, trim_star-some s p e))

match_literal :
    (pattern' key_id : Str)
    → ¬ EndsInStar pattern'
    → match_pattern pattern' key_id ≡ str_eq pattern' key_id
match_literal pattern' key_id h =
    plain_pattern pattern' key_id (str_ne pattern' (codes "*") (λ e. h ([], e)))
      (trim_star-none pattern' h)

match_star :
    (prefix key_id : Str) → match_pattern (prefix ++ b'*' ∷ []) key_id ≡ has_prefix key_id prefix
unfolding match_pattern str_eq has_prefix
match_star [] key_id = refl
match_star (c ∷ p) key_id = starred (c ∷ p) key_id (star_is_short c p) (trim_star-append (c ∷ p))

-- A pattern that ends in a star matches exactly the keys that begin with what stands before the
-- star, so the single star matches every key; any other pattern matches itself only.
pub match_pattern_lem :
    (key_id : Str)
    → ((prefix : Str) → match_pattern (prefix ++ b'*' ∷ []) key_id ≡ has_prefix key_id prefix)
      × ((pattern' : Str)
          → ¬ EndsInStar pattern'
          → match_pattern pattern' key_id ≡ str_eq pattern' key_id)
match_pattern_lem key_id =
    (λ prefix. match_star prefix key_id, λ pattern' h. match_literal pattern' key_id h)

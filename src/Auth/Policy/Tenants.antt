-- ===== src/Auth/Policy/Tenants.antt =====
-- Tenant prefixes of key ids (internal/auth/auth.go).
use yvonne.Base.{
  ℕ, ◌<◌, Str, has_prefix-append, List, [], ◌∷◌, ◌++◌, ◌≡◌, ◌≢◌, refl, ap, sym, ◌∙◌, arith, length,
  length-append, drop-append_length, lt→ltb, All,
}
use mathlib.Core.List.{append_assoc}
use yvonne.Auth.Policy.Defs.{scoped_key_id, unscoped_key_id}

scoped-eq :
    (c : ℕ) (tenant key_id : Str)
    → scoped_key_id (c ∷ tenant) key_id ≡ ((c ∷ tenant) ++ b':' ∷ []) ++ key_id
unfolding scoped_key_id
scoped-eq c tenant key_id = sym (append_assoc (c ∷ tenant) (b':' ∷ []) key_id)

strips :
    (c : ℕ) (tenant k : Str)
    → 0 < length k
    → unscoped_key_id (c ∷ tenant) (((c ∷ tenant) ++ b':' ∷ []) ++ k) ≡ k
unfolding unscoped_key_id
strips c tenant k h =
    let p = (c ∷ tenant) ++ b':' ∷ [] in
    let e = has_prefix-append p k in
    let d = drop-append_length p k in
    let l = lt→ltb (length p) (length (p ++ k)) (omega (arith, length-append p k)) in rw (l, e, d)

-- Taking a tenant's prefix off a key id that was put under it gives the key id back, unless that
-- is empty.
pub unscoped-scoped :
    (tenant key_id : Str)
    → key_id ≢ []
    → unscoped_key_id tenant (scoped_key_id tenant key_id) ≡ key_id
unfolding unscoped_key_id
unscoped-scoped [] key_id h = unfold scoped_key_id in refl
unscoped-scoped (c ∷ tenant) [] h = absurd (h refl)
unscoped-scoped (c ∷ tenant) (k ∷ key_id) h =
    ap (unscoped_key_id (c ∷ tenant)) (scoped-eq c tenant (k ∷ key_id))
    ∙ strips c tenant (k ∷ key_id) (omega arith)

cons_head {ℓ} : {A : Type ℓ} {x y : A} {s t : List A} → x ∷ s ≡ y ∷ t → x ≡ y
cons_head e = cc

cons_tail {ℓ} : {A : Type ℓ} {x y : A} {s t : List A} → x ∷ s ≡ y ∷ t → s ≡ t
cons_tail e = cc

-- The first colon of a text splits it in one way.
first_colon :
    (s t k j : Str)
    → All (λ c. c ≢ b':') s
    → All (λ c. c ≢ b':') t
    → s ++ (b':' ∷ k) ≡ t ++ (b':' ∷ j)
    → (s ≡ t) × (k ≡ j)
first_colon [] [] k j hs ht e = (refl, cons_tail e)
first_colon [] (y ∷ t) k j hs ht e = absurd (ht.0 (sym (cons_head e)))
first_colon (x ∷ s) [] k j hs ht e = absurd (hs.0 (cons_head e))
first_colon (x ∷ s) (y ∷ t) k j hs ht e =
    let (q, r) = first_colon s t k j hs.1 ht.1 (cons_tail e) in (cc, r)

-- Key ids of two tenants meet only if the tenants are the same and the ids too, as long as no
-- tenant's name holds a colon and neither is empty.
pub scoped-injective :
    (s t k j : Str)
    → s ≢ []
    → t ≢ []
    → All (λ c. c ≢ b':') s
    → All (λ c. c ≢ b':') t
    → scoped_key_id s k ≡ scoped_key_id t j
    → (s ≡ t) × (k ≡ j)
unfolding scoped_key_id
scoped-injective [] t k j hs ht ns nt e = absurd (hs refl)
scoped-injective (x ∷ s) [] k j hs ht ns nt e = absurd (ht refl)
scoped-injective (x ∷ s) (y ∷ t) k j hs ht ns nt e = first_colon (x ∷ s) (y ∷ t) k j ns nt e

-- ===== src/Audit/Sorting.antt =====
-- The order and the limit of Query in internal/audit/query.go.
use yvonne.Base.{
  ℕ, zero, suc, ◌-◌, ◌<◌, length, drop, ltb, List, [], ◌∷◌, map, All, Bool-cases, inl, inr, Option,
  none, some, leb, ◌≡◌, refl, ap, ◌∙◌, arith,
}
use yvonne.Audit.Query.{QueryResult, insert_by_seq, sort_by_seq, limited}

-- The sequence numbers rise, from above the number.
abbrev pub IsRising : ℕ → List QueryResult → Type 0
IsRising n [] = Unit
IsRising n (r ∷ l) = (n < r.envelope.chain_seq) × IsRising r.envelope.chain_seq l

pub IsRising-weaken : (m n : ℕ) (l : List QueryResult) → m < n → IsRising n l → IsRising m l
IsRising-weaken m n [] h rising = tt
IsRising-weaken m n (r ∷ l) h rising = (omega (arith, rising.0), rising.1)

insert_by_seq-first :
    (r : QueryResult) (l : List QueryResult)
    → IsRising r.envelope.chain_seq l
    → insert_by_seq r l ≡ r ∷ l
unfolding insert_by_seq
insert_by_seq-first r [] h = refl
insert_by_seq-first r (s ∷ l) h = ground (arith, h.0)

pub sort_by_seq-IsRising : (n : ℕ) (l : List QueryResult) → IsRising n l → sort_by_seq l ≡ l
unfolding sort_by_seq
sort_by_seq-IsRising n [] h = refl
sort_by_seq-IsRising n (r ∷ l) h =
    ap (insert_by_seq r) (sort_by_seq-IsRising r.envelope.chain_seq l h.1)
    ∙ insert_by_seq-first r l h.1

module _ (Holds : QueryResult → Type 0) where
  insert_by_seq-All :
      (r : QueryResult) (l : List QueryResult)
      → Holds r
      → All Holds l
      → All Holds (insert_by_seq r l)
  unfolding insert_by_seq
  insert_by_seq-All r [] h all = (h, tt)
  insert_by_seq-All r (s ∷ l) h all =
      elim (Bool-cases (leb r.envelope.chain_seq s.envelope.chain_seq)) [
        | inl le ↦ rw le (h, all)
        | inr gt ↦ rw gt (all.0, insert_by_seq-All r l h all.1)
      ]

  pub sort_by_seq-All : (l : List QueryResult) → All Holds l → All Holds (sort_by_seq l)
  unfolding sort_by_seq
  sort_by_seq-All [] h = tt
  sort_by_seq-All (r ∷ l) h = insert_by_seq-All r (sort_by_seq l) h.0 (sort_by_seq-All l h.1)

  drop-All : (n : ℕ) (l : List QueryResult) → All Holds l → All Holds (drop n l)
  drop-All zero l h = h
  drop-All (suc n) [] h = tt
  drop-All (suc n) (r ∷ l) h = drop-All n l h.1

  pub limited-All :
      (limit : Option ℕ) (l : List QueryResult) → All Holds l → All Holds (limited limit l)
  limited-All none l h = h
  limited-All (some n) l h = elim (Bool-cases (ltb n (length l))) [
    | inl over ↦ rw over (drop-All (length l - n) l h)
    | inr within ↦ rw within h
  ]

module _ (f : QueryResult → QueryResult) where
  pub length-mapped : (l : List QueryResult) → length (map f l) ≡ length l
  length-mapped [] = refl
  length-mapped (r ∷ l) = ap suc (length-mapped l)

  map-drop : (n : ℕ) (l : List QueryResult) → map f (drop n l) ≡ drop n (map f l)
  map-drop zero l = refl
  map-drop (suc n) [] = refl
  map-drop (suc n) (r ∷ l) = map-drop n l

  pub map-limited :
      (limit : Option ℕ) (l : List QueryResult) → map f (limited limit l) ≡ limited limit (map f l)
  map-limited none l = refl
  map-limited (some n) l = elim (Bool-cases (ltb n (length l))) [
    | inl over ↦ rw (length-mapped l, over) (map-drop (length l - n) l)
    | inr within ↦ rw (length-mapped l, within) refl
  ]

-- ===== src/Storage/Paging.antt =====
-- internal/storage/memory.go: ScanPrefix and ScanPrefixPaged against the plain list of the entries
-- whose key has the prefix.
use mathlib.Core.List.{Perm}
use mathlib.Core.List.Perm
use yvonne.Base.{
  ℕ, zero, suc, ◌+◌, ◌-◌, ◌≤◌, Str, Assoc, has_prefix, str_le, List, [], ◌∷◌, true, false, ◌≡◌,
  refl, ap, arith, length, take, drop, leb, ltb, ◌==◌, if◌then◌else◌, Bool-cases, inl, inr, tests,
  ltb→lt, leb→le, lookup, str_eq_iff, none,
}
use yvonne.Storage.Memory.{
  MemoryStore, scan_prefix, insert_sorted, sort_strings, sorted_matches, scan_prefix_paged, get,
}

drop_all {ℓ} : {A : Type ℓ} (n : ℕ) (xs : List A) → length xs ≤ n → drop n xs ≡ []
drop_all zero [] h = refl
drop_all zero (x ∷ xs) h = absurd (omega arith)
drop_all (suc n) [] h = refl
drop_all (suc n) (x ∷ xs) h = drop_all n xs (omega arith)

take_enough {ℓ} :
    {A : Type ℓ} (n k : ℕ) (xs : List A) → length xs ≤ n → length xs ≤ k → take n xs ≡ take k xs
take_enough zero zero [] h g = refl
take_enough zero (suc k) [] h g = refl
take_enough (suc n) zero [] h g = refl
take_enough (suc n) (suc k) [] h g = refl
take_enough zero k (x ∷ xs) h g = absurd (omega arith)
take_enough (suc n) zero (x ∷ xs) h g = absurd (omega arith)
take_enough (suc n) (suc k) (x ∷ xs) h g =
    ap (λ l. x ∷ l) (take_enough n k xs (omega arith) (omega arith))

length-drop_sub {ℓ} : {A : Type ℓ} (n : ℕ) (xs : List A) → length (drop n xs) ≡ length xs - n
length-drop_sub zero xs = omega arith
length-drop_sub (suc n) [] = omega arith
length-drop_sub (suc n) (x ∷ xs) = omega (arith, length-drop_sub n xs)

take_nil {ℓ} : {A : Type ℓ} (n : ℕ) → take {A = A} n [] ≡ []
take_nil zero = refl
take_nil (suc n) = refl

abbrev page_end : ℕ → ℕ → ℕ → ℕ
page_end total offset limit = if ltb total (offset + limit) then total else offset + limit

take-page_end {ℓ} :
    {A : Type ℓ} (xs : List A) (offset limit : ℕ)
    → leb (length xs) offset ≡ false
    → take (page_end (length xs) offset limit - offset) (drop offset xs)
      ≡ take limit (drop offset xs)
take-page_end xs offset limit h = elim (Bool-cases (ltb (length xs) (offset + limit))) [
  | inl short ↦ rw short (
      take_enough (length xs - offset) limit (drop offset xs)
        (omega (arith, length-drop_sub offset xs))
        (omega (tests, length-drop_sub offset xs, ltb→lt (length xs) (offset + limit) short)))
  | inr long ↦ rw long (ap (λ n. take n (drop offset xs)) (omega arith))
]

page_of {ℓ} :
    {A : Type ℓ} (xs : List A) (offset limit : ℕ)
    → ◌≡◌ {A = List A × ℕ}
        (if leb (length xs) offset
          then ([], length xs)
          else (take (page_end (length xs) offset limit - offset) (drop offset xs), length xs))
        (take limit (drop offset xs), length xs)
page_of xs offset limit = elim (Bool-cases (leb (length xs) offset)) [
  | inl past ↦ rw (past, drop_all offset xs (leb→le (length xs) offset past), take_nil limit) refl
  | inr inside ↦ rw (inside, take-page_end xs offset limit inside)
]

-- The default page size stands in for a limit of 0.
abbrev pub page_limit : ℕ → ℕ
page_limit limit = if limit == 0 then 1000 else limit

-- The page at an offset is the window of that offset and limit in the sorted matches, empty past
-- their end, and the reported total is their number, whatever the offset and the limit.
pub page_window :
    (m : MemoryStore) (prefix : Str) (offset limit : ℕ)
    → ((scan_prefix_paged m prefix offset limit).0
        ≡ take (page_limit limit) (drop offset (sorted_matches m prefix)))
      × ((scan_prefix_paged m prefix offset limit).1 ≡ length (sorted_matches m prefix))
unfolding scan_prefix_paged
page_window m prefix offset limit =
    let e = page_of (sorted_matches m prefix) offset (page_limit limit) in
    (ap (λ p. p.0) e, ap (λ p. p.1) e)

insert_sorted-perm : (e : Str × Str) (l : Assoc Str) → Perm (insert_sorted e l) (e ∷ l)
unfolding insert_sorted
insert_sorted-perm e [] = Perm.refl (e ∷ [])
insert_sorted-perm e (f ∷ l) = elim (Bool-cases (str_le e.0 f.0)) [
  | inl le ↦ rw le (Perm.refl (e ∷ f ∷ l))
  | inr gt ↦ rw gt (Perm.trans (Perm.cons f (insert_sorted-perm e l)) (Perm.swap e f l))
]

pub sort_strings-perm : (l : Assoc Str) → Perm (sort_strings l) l
unfolding sort_strings
sort_strings-perm [] = Perm.refl []
sort_strings-perm (e ∷ l) =
    Perm.trans (insert_sorted-perm e (sort_strings l)) (Perm.cons e (sort_strings-perm l))

-- Each key is at most the next one in the byte order.
abbrev IsSortedFrom : Str → Assoc Str → Type 0
IsSortedFrom k [] = Unit
IsSortedFrom k (e ∷ l) = (str_le k e.0 ≡ true) × IsSortedFrom e.0 l

abbrev pub IsSorted : Assoc Str → Type 0
IsSorted [] = Unit
IsSorted (e ∷ l) = IsSortedFrom e.0 l

str_le_total : (s t : Str) → str_le s t ≡ false → str_le t s ≡ true
unfolding str_le
str_le_total [] t h = cc
str_le_total (x ∷ xs) [] h = refl
str_le_total (x ∷ xs) (y ∷ ys) h = ground (arith, str_le_total xs ys)

insert_sorted-IsSortedFrom :
    (k : Str) (e : Str × Str) (l : Assoc Str)
    → str_le k e.0 ≡ true
    → IsSortedFrom k l
    → IsSortedFrom k (insert_sorted e l)
unfolding insert_sorted
insert_sorted-IsSortedFrom k e [] h s = (h, tt)
insert_sorted-IsSortedFrom k e (f ∷ l) h s = elim (Bool-cases (str_le e.0 f.0)) [
  | inl le ↦ rw le (h, (le, s.1))
  | inr gt ↦ rw gt (s.0, insert_sorted-IsSortedFrom f.0 e l (str_le_total e.0 f.0 gt) s.1)
]

insert_sorted-IsSorted : (e : Str × Str) (l : Assoc Str) → IsSorted l → IsSorted (insert_sorted e l)
unfolding insert_sorted
insert_sorted-IsSorted e [] s = tt
insert_sorted-IsSorted e (f ∷ l) s = elim (Bool-cases (str_le e.0 f.0)) [
  | inl le ↦ rw le (le, s)
  | inr gt ↦ rw gt (insert_sorted-IsSortedFrom f.0 e l (str_le_total e.0 f.0 gt) s)
]

sort_strings-IsSorted : (l : Assoc Str) → IsSorted (sort_strings l)
unfolding sort_strings
sort_strings-IsSorted [] = tt
sort_strings-IsSorted (e ∷ l) = insert_sorted-IsSorted e (sort_strings l) (sort_strings-IsSorted l)

-- The scan that a page is cut from lists the entries under the prefix, each as often as the store
-- holds it, in the byte order of their keys.
pub sorted_matches_lem :
    (m : MemoryStore) (prefix : Str)
    → Perm (sorted_matches m prefix) (scan_prefix m.entries prefix)
      × IsSorted (sorted_matches m prefix)
unfolding sorted_matches
sorted_matches_lem m prefix = (
  sort_strings-perm (scan_prefix m.entries prefix),
  sort_strings-IsSorted (scan_prefix m.entries prefix),
)

lookup-scan_prefix :
    (m : Assoc Str) (prefix j : Str)
    → lookup j (scan_prefix m prefix) ≡ (if has_prefix j prefix then lookup j m else none)
unfolding lookup scan_prefix
lookup-scan_prefix [] prefix j = ground arith
lookup-scan_prefix ((k, v) ∷ m) prefix j =
    ground (arith, lookup-scan_prefix m prefix j, str_eq_iff k j)

-- A prefix scan holds exactly what Get finds under the keys that have the prefix.
pub scan_prefix_lem :
    (m : MemoryStore) (prefix j : Str)
    → lookup j (scan_prefix m.entries prefix) ≡ (if has_prefix j prefix then get m j else none)
unfolding get
scan_prefix_lem m prefix j = lookup-scan_prefix m.entries prefix j

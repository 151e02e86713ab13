-- ===== src/Lifecycle/Listing/Pages.antt =====
-- ListKeyIDs and countKeys end, and page by page see what one scan sees
-- (internal/lifecycle/manager.go).
use yvonne.Base.{
  ℕ, zero, suc, ◌+◌, ◌-◌, ◌<◌, Str, codes, Assoc, List, [], ◌∷◌, true, false, some, length,
  length-take, length-drop, take, drop, ltb, ltb→lt, ◌==◌, if◌then◌else◌, ◌≡◌, refl, ap, sym, ◌∙◌,
  arith, Bool-cases, inl, inr,
}
use yvonne.Storage.Memory.{MemoryStore, sorted_matches, scan_prefix_paged}
use yvonne.Storage.Paging.{page_window}
use yvonne.Lifecycle.Metadata.{Codec}
use yvonne.Lifecycle.Listing.Defs.{
  add_item, add_items, list_from, list_key_ids, count_keys, counted, list_key_ids_legacy,
}

drop_nil {ℓ} : {A : Type ℓ} (n : ℕ) → drop {A = A} n [] ≡ []
drop_nil zero = refl
drop_nil (suc n) = refl

drop-drop {ℓ} : {A : Type ℓ} (m n : ℕ) (xs : List A) → drop m (drop n xs) ≡ drop (n + m) xs
drop-drop m zero xs = ap (λ k. drop k xs) (omega arith)
drop-drop m (suc n) [] = drop_nil m ∙ sym (drop_nil (suc n + m))
drop-drop m (suc n) (x ∷ xs) =
    drop-drop m n xs ∙ ap (λ k. drop k (x ∷ xs)) {x = suc (n + m)} {y = suc n + m} (omega arith)

add_items-page :
    (codec : Codec) (seen : List Str) (n : ℕ) (items : Assoc Str)
    → add_items codec (add_items codec seen (take n items)) (drop n items)
      ≡ add_items codec seen items
unfolding add_items
add_items-page codec seen zero items = refl
add_items-page codec seen (suc n) [] = refl
add_items-page codec seen (suc n) ((k, v) ∷ items) =
    add_items-page codec (add_item codec seen v) n items

-- A page that is not full is all that is left.
short_page {ℓ} : {A : Type ℓ} (n : ℕ) (xs : List A) → length (take n xs) < n → take n xs ≡ xs
short_page zero xs h = absurd (omega arith)
short_page (suc n) [] h = refl
short_page (suc n) (x ∷ xs) h = ap (λ l. x ∷ l) (short_page n xs (omega arith))

full_page {ℓ} :
    {A : Type ℓ} (n : ℕ) (xs : List A) → ltb (length (take n xs)) n ≡ false → length (take n xs) ≡ n
full_page n xs h = ground (arith, length-take n xs)

no_items {ℓ} : {A : Type ℓ} (xs : List A) → length xs ≡ 0 → xs ≡ []
no_items [] h = refl
no_items (x ∷ xs) h = absurd (omega arith)

module _ (codec : Codec) (size : ℕ) (all : Assoc Str) (page : ℕ → Assoc Str)
    (paged : (offset : ℕ) → page offset ≡ take size (drop offset all)) (some_size : 0 < size) where
  step :
      (fuel offset : ℕ) (seen : List Str) (items : Assoc Str)
      → page offset ≡ items
      → list_from codec page size (suc fuel) offset seen ≡ (
          if length items == 0
          then some seen
          else if ltb (length items) size
          then some (add_items codec seen items)
          else list_from codec page size fuel (offset + length items) (add_items codec seen items))
  unfolding list_from
  step fuel offset seen items h = rw h refl

  nothing_left : {xs : Assoc Str} → (length (take size xs) == 0) ≡ true → xs ≡ []
  nothing_left {xs} h =
      sym (short_page size xs (ground arith)) ∙ no_items (take size xs) (ground arith)

  list_all :
      (fuel offset : ℕ) (seen : List Str)
      → length all - offset < fuel
      → list_from codec page size fuel offset seen ≡ some (add_items codec seen (drop offset all))
  unfolding add_items
  list_all zero offset seen h = absurd (omega arith)
  list_all (suc fuel) offset seen h =
      let rest = drop offset all in
      let items = take size rest in
      let first = step fuel offset seen items (paged offset) in
      elim (Bool-cases (length items == 0)) [
        | inl empty ↦
            first
            ∙ rw empty
                (ap (λ l. some (add_items codec seen l)) (sym (nothing_left {xs = rest} empty)))
        | inr busy ↦ elim (Bool-cases (ltb (length items) size)) [
          | inl last ↦
              first
              ∙ rw (busy, last)
                  (ap (λ l. some (add_items codec seen l))
                    (short_page size rest (ltb→lt (length items) size last)))
          | inr full ↦
              first
              ∙ rw (busy, full)
                  (list_all fuel (offset + length items) (add_items codec seen items) (
                      omega (
                        arith,
                        full_page size rest full,
                        length-take size rest,
                        length-drop offset all,
                      ))
                    ∙ ap some (
                        ap (add_items codec (add_items codec seen items)) (
                          ap (λ k. drop (offset + k) all) (full_page size rest full)
                          ∙ sym (drop-drop size offset all))
                        ∙ add_items-page codec seen size rest))
        ]
      ]

-- ListKeyIDs, whose pages hold 1000 items, ends within as many pages as there are items and one
-- more, and gives the ids that one scan of all the items in their order gives; countKeys gives their
-- number. Neither misses an item, nor sees one twice, at the border of two pages.
pub list_key_ids_lem :
    (codec : Codec) (m : MemoryStore) (fuel : ℕ)
    → length (sorted_matches m (codes "key:")) < fuel
    → (list_key_ids codec fuel m
        ≡ some (list_key_ids_legacy codec (sorted_matches m (codes "key:"))))
      × (count_keys codec fuel m
          ≡ some (length (list_key_ids_legacy codec (sorted_matches m (codes "key:")))))
unfolding list_key_ids count_keys list_key_ids_legacy
list_key_ids_lem codec m fuel h =
    let e =
      list_all codec 1000 (sorted_matches m (codes "key:"))
        (λ offset. (scan_prefix_paged m (codes "key:") offset 1000).0)
        (λ offset. (page_window m (codes "key:") offset 1000).0) (omega arith) fuel 0 []
        (omega arith) in
    (e, ap counted e)

-- ===== src/Lifecycle/Daemon/Scanning.antt =====
-- Which keys a scan of internal/lifecycle/daemon.go takes.
use mathlib.Core.List.{Memᴰ}
use mathlib.Core.List.Memᴰ
use yvonne.Base.{
  ℕ, ◌<◌, ◌≤◌, Str, Assoc, List, [], ◌∷◌, true, false, none, some, inl, inr, ◌≡◌, ◌↔◌, refl, sym,
  ◌∙◌, ap, subst, arith, Bool-cases, Option-cases,
}
use yvonne.Lifecycle.Metadata.{KeyMetadata, active, Codec}
use yvonne.Lifecycle.Daemon.{is_due, scan_expired_keys}

-- Active, with a period, and with a time of its next rotation that is not after `now`.
abbrev pub IsDue : ℕ → KeyMetadata → Type 0
IsDue now meta =
    (meta.state ≡ active)
    × (0 < meta.rotation_period_days)
    × ((at' : ℕ) × (meta.next_rotation_at ≡ some at') × (at' ≤ now))

pub is_due-IsDue : (now : ℕ) (meta : KeyMetadata) → is_due now meta ≡ true → IsDue now meta
unfolding is_due
is_due-IsDue now meta h = elim (Option-cases meta.next_rotation_at) [
  | inl none_set ↦ absurd (ground arith)
  | inr (at', set) ↦ (ground arith, ground arith, (at', set, ground arith))
]

pub is_due-of : (now : ℕ) (meta : KeyMetadata) → IsDue now meta → is_due now meta ≡ true
unfolding is_due
is_due-of now meta h = ground (arith, h.0, h.1, h.2)

-- An item of the scan that parses as the metadata, which is due.
abbrev pub HasDueItem : Codec → ℕ → Assoc Str → KeyMetadata → Type 0
HasDueItem codec now items meta =
    (item : Str × Str) × Memᴰ item items × (codec.unmarshal item.1 ≡ some meta) × IsDue now meta

module _ (codec : Codec) (now : ℕ) where
  scan : Assoc Str → List KeyMetadata
  unfolding scan_expired_keys
  scan = scan_expired_keys codec now

  module _ (k value : Str) (items : Assoc Str) where
    skips : codec.unmarshal value ≡ none → scan ((k, value) ∷ items) ≡ scan items
    unfolding scan scan_expired_keys
    skips e = ground arith

    takes :
        (read : KeyMetadata)
        → codec.unmarshal value ≡ some read
        → is_due now read ≡ true
        → scan ((k, value) ∷ items) ≡ read ∷ scan items
    unfolding scan scan_expired_keys
    takes read e due = ground arith

    passes :
        (read : KeyMetadata)
        → codec.unmarshal value ≡ some read
        → is_due now read ≡ false
        → scan ((k, value) ∷ items) ≡ scan items
    unfolding scan scan_expired_keys
    passes read e due = ground arith

    later :
        (meta : KeyMetadata)
        → HasDueItem codec now items meta
        → HasDueItem codec now ((k, value) ∷ items) meta
    later meta (item, there, parses, due) = (item, Memᴰ.tail there, parses, due)

  sound :
      (items : Assoc Str) (meta : KeyMetadata)
      → Memᴰ meta (scan items)
      → HasDueItem codec now items meta
  unfolding scan scan_expired_keys
  sound [] meta m = absurd (Memᴰ.not-nil m)
  sound ((k, value) ∷ items) meta m = elim (Option-cases (codec.unmarshal value)) [
    | inl damaged ↦
        later k value items meta
          (sound items meta (subst (Memᴰ meta) (skips k value items damaged) m))
    | inr (read, e) ↦ elim (Bool-cases (is_due now read)) [
      | inl due ↦ elim (Memᴰ.cases_cons (subst (Memᴰ meta) (takes k value items read e due) m)) [
        | inl same ↦ (
          (k, value),
          Memᴰ.head refl,
          e ∙ ap some (sym same),
          subst (IsDue now) (sym same) (is_due-IsDue now read due),
        )
        | inr after ↦ later k value items meta (sound items meta after)
      ]
      | inr not_due ↦
          later k value items meta
            (sound items meta (subst (Memᴰ meta) (passes k value items read e not_due) m))
    ]
  ]

  complete :
      (items : Assoc Str) (meta : KeyMetadata)
      → HasDueItem codec now items meta
      → Memᴰ meta (scan items)
  complete [] meta (item, there, parses, due) = absurd (Memᴰ.not-nil there)
  complete ((k, value) ∷ items) meta (item, there, parses, due) = elim (Memᴰ.cases_cons there) [
    | inl here ↦
        subst (Memᴰ meta)
          (sym (
            takes k value items meta (ap (λ i. codec.unmarshal i.1) (sym here) ∙ parses)
              (is_due-of now meta due)))
          (Memᴰ.head refl)
    | inr after ↦
        let rest = complete items meta (item, after, parses, due) in
        elim (Option-cases (codec.unmarshal value)) [
          | inl damaged ↦ subst (Memᴰ meta) (sym (skips k value items damaged)) rest
          | inr (read, e) ↦ elim (Bool-cases (is_due now read)) [
            | inl taken ↦
                subst (Memᴰ meta) (sym (takes k value items read e taken)) (Memᴰ.tail rest)
            | inr passed ↦ subst (Memᴰ meta) (sym (passes k value items read e passed)) rest
          ]
        ]
  ]

  -- A scan takes a version's metadata exactly if some item of the store parses as it and it is due:
  -- Active, with a rotation period, and with a time of its next rotation that has come. Items that do
  -- not parse are passed over.
  pub scan_expired_keys_iff :
      (items : Assoc Str) (meta : KeyMetadata)
      → Memᴰ meta (scan_expired_keys codec now items) ↔ HasDueItem codec now items meta
  unfolding scan
  scan_expired_keys_iff items meta = (sound items meta, complete items meta)

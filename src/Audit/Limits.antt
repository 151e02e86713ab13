-- ===== src/Audit/Limits.antt =====
-- What Query of internal/audit/query.go gives back, whatever the files hold.
use yvonne.Base.{
  ℕ, ◌-◌, ◌≤◌, Str, length, length-drop, ltb, List, [], ◌∷◌, map, All, All-append, true, Bool-cases,
  Option, none, some, Option-cases, inl, inr, ◌≡◌, sym, subst, arith,
}
use yvonne.Audit.Logger.{LogJson, AuditLogger}
use yvonne.Audit.Query.{
  QueryFilter, QueryResult, LogFile, match_filter, parse_line, parse_audit_file, parse_files,
  collect_audit_files, limit_of, limited, with_validity, verify_chain_entry, query, sort_by_seq,
}
use yvonne.Audit.Sorting.{sort_by_seq-All, limited-All, length-mapped}

length-limited : (n : ℕ) (l : List QueryResult) → length (limited (some n) l) ≤ n
length-limited n l = elim (Bool-cases (ltb n (length l))) [
  | inl over ↦ rw over (omega (arith, length-drop (length l - n) l))
  | inr within ↦ rw within (ground (arith, within))
]

module _ (digest : Str → Str) (hmac : Str → Str → Str) (json : LogJson) (filter : QueryFilter) where
  abbrev Matches : QueryResult → Type 0
  Matches r = match_filter r.entry filter ≡ true

  parse_line-Matches :
      (line : Str) (r : QueryResult) → parse_line digest hmac json filter line ≡ some r → Matches r
  unfolding parse_line
  parse_line-Matches line r h = ground (arith, h)

  parse_audit_file-Matches :
      (lines : List Str) → All Matches (parse_audit_file digest hmac json filter lines)
  unfolding parse_audit_file
  parse_audit_file-Matches [] = tt
  parse_audit_file-Matches (line ∷ lines) =
      let rest = parse_audit_file-Matches lines in
      elim (Option-cases (parse_line digest hmac json filter line)) [
        | inl skipped ↦ rw skipped rest
        | inr (r, found) ↦ rw found (parse_line-Matches line r found, rest)
      ]

  parse_files-Matches :
      (files : List (Option (List Str))) → All Matches (parse_files digest hmac json filter files)
  parse_files-Matches [] = tt
  parse_files-Matches (none ∷ files) = parse_files-Matches files
  parse_files-Matches (some lines ∷ files) =
      All-append Matches (parse_audit_file digest hmac json filter lines)
        (parse_files digest hmac json filter files) (parse_audit_file-Matches lines)
        (parse_files-Matches files)

  validity-Matches :
      (key : Str) (l : List QueryResult)
      → All Matches l
      → All Matches (map (with_validity (verify_chain_entry digest hmac json key)) l)
  validity-Matches key [] h = tt
  validity-Matches key (r ∷ l) h = (h.0, validity-Matches key l h.1)

  -- Query gives back at most as many results as its limit, where it has one (100 for a limit of 0), and
  -- only entries that match the filter, whatever the files hold.
  pub length-query :
      (l : AuditLogger) (files : List LogFile) (n : ℕ)
      → limit_of filter.limit ≡ some n
      → (length (query digest hmac json l files filter) ≤ n)
        × All (λ r. match_filter r.entry filter ≡ true) (query digest hmac json l files filter)
  unfolding query
  length-query l files n h =
      let results = parse_files digest hmac json filter (collect_audit_files files) in
      let sorted = sort_by_seq results in
      let size = length-limited n sorted in
      let matching =
        limited-All Matches (some n) sorted
          (sort_by_seq-All Matches results (parse_files-Matches (collect_audit_files files))) in
      elim (Option-cases l.audit_key) [
        | inl closed ↦ rw (query, closed, h) (size, matching)
        | inr (key, keyed) ↦
            rw (query, keyed, h)
              (
                subst (λ k. k ≤ n)
                    (sym (
                      length-mapped (with_validity (verify_chain_entry digest hmac json key))
                        (limited (some n) sorted)))
                    size,
                validity-Matches key (limited (some n) sorted) matching,
              )
      ]

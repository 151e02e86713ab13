-- ===== src/Audit/Omitting.antt =====
-- What Query of internal/audit/query.go finds in a log from which lines were taken.
use mathlib.Core.List.{Memᴰ}
use yvonne.Base.{
  Str, codes, str_eq, List, [], ◌∷◌, append-nil, map, All, true, some, inl, inr, Option-cases, ◌≡◌,
  refl, ap, sym, ◌∙◌, subst, arith,
}
use yvonne.Audit.Hex.{IsBytes}
use yvonne.Audit.Logger.{SignedEnvelope, LogJson, Request, new_audit_logger, record_all}
use yvonne.Audit.Query.{
  QueryFilter, QueryResult, parse_line, parse_audit_file, limit_of, with_validity,
  verify_chain_entry, is_audit_file, query,
}
use yvonne.Audit.Recording.{envelopes, lines-record_all, audit_key-record_all, envelopes-verify}
use yvonne.Audit.Sorting.{sort_by_seq-All, limited-All}

module _ (digest : Str → Str) (hmac : Str → Str → Str) (json : LogJson) (key : Str) where
  abbrev Verifies : SignedEnvelope → Type 0
  Verifies e = verify_chain_entry digest hmac json key e ≡ true

  -- The line is an envelope that verifies.
  abbrev IsGenuine : Str → Type 0
  IsGenuine line = (e : SignedEnvelope) × (line ≡ json.marshal_envelope e) × Verifies e

  IsGenuine-marshal :
      (es : List SignedEnvelope) → All Verifies es → All IsGenuine (map json.marshal_envelope es)
  IsGenuine-marshal [] h = tt
  IsGenuine-marshal (e ∷ es) h = ((e, refl, h.0), IsGenuine-marshal es h.1)

  IsGenuine-line :
      (line : Str) (lines : List Str) → Memᴰ line lines → All IsGenuine lines → IsGenuine line
  IsGenuine-line line [] there all = elim there [ ]
  IsGenuine-line line (other ∷ lines) (Memᴰ.head same) all = subst IsGenuine (sym same) all.0
  IsGenuine-line line (other ∷ lines) (Memᴰ.tail later) all = IsGenuine-line line lines later all.1

  -- Every line of the log is one of the others.
  abbrev pub IsTakenFrom : List Str → List Str → Type 0
  IsTakenFrom log lines = All (λ line. Memᴰ line lines) log

  IsGenuine-log :
      (log lines : List Str) → IsTakenFrom log lines → All IsGenuine lines → All IsGenuine log
  IsGenuine-log [] lines taken all = tt
  IsGenuine-log (line ∷ log) lines taken all =
      (IsGenuine-line line lines taken.0 all, IsGenuine-log log lines taken.1 all)

  parse_line-Verifies :
      (filter : QueryFilter) (line : Str) (r : QueryResult)
      → IsGenuine line
      → parse_line digest hmac json filter line ≡ some r
      → Verifies r.envelope
  unfolding parse_line
  parse_line-Verifies filter line r genuine parses =
      let (e, same, verifies) = genuine in
      let read : json.unmarshal_envelope line ≡ some e =
        ap json.unmarshal_envelope same ∙ json.unmarshal_marshal_envelope e in
      let whole : r.envelope ≡ e = ground (arith, read, parses) in
      subst Verifies (sym whole) verifies

  abbrev IsVerified : QueryResult → Type 0
  IsVerified r = Verifies r.envelope

  parse-Verifies :
      (filter : QueryFilter) (log : List Str)
      → All IsGenuine log
      → All IsVerified (parse_audit_file digest hmac json filter log)
  unfolding parse_audit_file
  parse-Verifies filter [] h = tt
  parse-Verifies filter (line ∷ log) h =
      let rest = parse-Verifies filter log h.1 in
      elim (Option-cases (parse_line digest hmac json filter line)) [
        | inl skipped ↦ rw skipped rest
        | inr (r, found) ↦ rw found (parse_line-Verifies filter line r h.0 found, rest)
      ]

  found_valid :
      (l : List QueryResult)
      → All IsVerified l
      → All (λ r. r.valid ≡ true) (map (with_validity (verify_chain_entry digest hmac json key)) l)
  found_valid [] h = tt
  found_valid (r ∷ l) h = (h.0, found_valid l h.1)

  -- Query checks each line by the signature that the line itself names as the one before: of a log from
  -- which lines were removed, and of one whose lines were moved or repeated, it finds every entry
  -- valid. So it does for every log that is taken from the lines of a new logger after any records.
  pub query_accepts_omissions :
      (requests : List Request) (log : List Str) (filter : QueryFilter)
      → IsBytes (digest key)
      → ((k m : Str) → IsBytes (hmac k m))
      → IsTakenFrom log
          (record_all digest hmac json (new_audit_logger digest hmac json key) requests).lines
      → let l = record_all digest hmac json (new_audit_logger digest hmac json key) requests in
        All
          (λ r. r.valid ≡ true)
          (query digest hmac json l ((codes "audit.log", some log) ∷ []) filter)
  unfolding query new_audit_logger is_audit_file str_eq
  query_accepts_omissions requests log filter anchor mac_bytes taken =
      let new = new_audit_logger digest hmac json key in
      let l = record_all digest hmac json new requests in
      let keyed : l.audit_key ≡ some key =
        audit_key-record_all digest hmac json key new requests refl in
      let es = envelopes digest hmac json key (digest key) 0 requests in
      let genuine =
        IsGenuine-marshal es
          (envelopes-verify digest hmac json key mac_bytes (digest key) 0 requests anchor) in
      let lines = lines-record_all digest hmac json key new requests refl in
      let verified =
        parse-Verifies filter log
          (IsGenuine-log log l.lines taken (subst (All IsGenuine) (sym lines) genuine)) in
      rw (query, keyed, append-nil (parse_audit_file digest hmac json filter log))
        (found_valid _ (
          limited-All IsVerified (limit_of filter.limit) _
            (sort_by_seq-All IsVerified (parse_audit_file digest hmac json filter log) verified)))

-- ===== src/Audit/Query.antt =====
-- internal/audit/query.go: the filter, the parsing of log files and Query. A file is its lines, or
-- `none` where it cannot be opened or read to its end.
use yvonne.Base.{
  ℕ, ◌-◌, Str, codes, str_eq, has_prefix, length, drop, ◌==◌, ltb, leb, List, [], ◌∷◌, ◌++◌, map,
  Bool, true, false, not, ◌&&◌, ◌||◌, Option, none, some, if◌then◌else◌,
}
use yvonne.Auth.Approval.Handlers.{ℤ, pos, negsuc}
use yvonne.Audit.Logger.{LogEntry, SignedEnvelope, LogJson, AuditLogger, verify_chain_signature}

pub record QueryFilter : Type 0 where
  pub start_time : Option ℕ
  pub end_time : Option ℕ
  pub actor : Str
  pub action : Str
  pub limit : ℤ

pub record QueryResult : Type 0 where
  pub envelope : SignedEnvelope
  pub entry : LogEntry
  pub valid : Bool

-- `t.Before(u)`, with the zero time before all others.
abbrev pub before : Option ℕ → Option ℕ → Bool
before _ none = false
before none (some u) = true
before (some t) (some u) = ltb t u

-- matchFilter
unfoldable pub match_filter : LogEntry → QueryFilter → Bool
match_filter entry filter =
    if (elim filter.start_time [ none ↦ false | some t ↦ before entry.timestamp (some t) ])
    then false
    else if (elim filter.end_time [ none ↦ false | some t ↦ before (some t) entry.timestamp ])
    then false
    else if not (str_eq filter.actor []) && not (str_eq entry.actor filter.actor)
    then false
    else not (not (str_eq filter.action []) && not (str_eq entry.action filter.action))

-- The names that collectAuditFiles takes; a name ends in `.log` where its last bytes are those.
unfoldable pub is_audit_file : Str → Bool
is_audit_file name =
    str_eq name (codes "audit.log")
    || (has_prefix name (codes "audit-")
        && leb 4 (length name)
        && str_eq (drop (length name - 4) name) (codes ".log"))

-- A file of the directory with its lines.
abbrev pub LogFile : Type 0
LogFile = Str × Option (List Str)

abbrev pub collect_audit_files : List LogFile → List (Option (List Str))
collect_audit_files [] = []
collect_audit_files ((name, lines) ∷ files) =
    let rest = collect_audit_files files in if is_audit_file name then lines ∷ rest else rest

-- sort.Slice by ChainSeq.
unfoldable pub insert_by_seq : QueryResult → List QueryResult → List QueryResult
insert_by_seq r [] = r ∷ []
insert_by_seq r (s ∷ l) =
    let rest = insert_by_seq r l in
    if leb r.envelope.chain_seq s.envelope.chain_seq then r ∷ s ∷ l else s ∷ rest

unfoldable pub sort_by_seq : List QueryResult → List QueryResult
unfolding insert_by_seq
sort_by_seq [] = []
sort_by_seq (r ∷ l) = insert_by_seq r (sort_by_seq l)

-- The limit of a query: 0 stands for 100, and a negative one for none.
abbrev pub limit_of : ℤ → Option ℕ
limit_of (negsuc n) = none
limit_of (pos n) = if n == 0 then some 100 else some n

-- The last results, up to the limit.
abbrev pub limited : Option ℕ → List QueryResult → List QueryResult
limited none l = l
limited (some n) l = if ltb n (length l) then drop (length l - n) l else l

abbrev pub with_validity : (SignedEnvelope → Bool) → QueryResult → QueryResult
with_validity check r = record r { valid = check r.envelope }

module _ (digest : Str → Str) (hmac : Str → Str → Str) (json : LogJson) where
  -- The body of parseAuditFile's loop: the result of a line, if it has one.
  unfoldable pub parse_line : QueryFilter → Str → Option QueryResult
  unfolding match_filter
  parse_line filter line = if length line == 0 then none else elim (json.unmarshal_envelope line) [
    | none ↦ none
    | some env ↦ elim (json.unmarshal_entry env.payload) [
      | none ↦ none
      | some entry ↦
          if not (match_filter entry filter)
          then none
          else some (record { envelope = env; entry = entry; valid = false })
    ]
  ]

  abbrev pub kept : Option QueryResult → List QueryResult → List QueryResult
  kept none l = l
  kept (some r) l = r ∷ l

  -- parseAuditFile
  unfoldable pub parse_audit_file : QueryFilter → List Str → List QueryResult
  unfolding parse_line
  parse_audit_file filter [] = []
  parse_audit_file filter (line ∷ lines) =
      kept (parse_line filter line) (parse_audit_file filter lines)

  abbrev pub parse_files : QueryFilter → List (Option (List Str)) → List QueryResult
  parse_files filter [] = []
  parse_files filter (none ∷ files) = parse_files filter files
  parse_files filter (some lines ∷ files) =
      parse_audit_file filter lines ++ parse_files filter files

  -- verifyChainEntry
  unfoldable pub verify_chain_entry : Str → SignedEnvelope → Bool
  unfolding verify_chain_signature
  verify_chain_entry key env =
      elim (verify_chain_signature digest hmac json key env.payload env.prev_signature
        env.signature) [ none ↦ false | some verified ↦ verified ]

  -- Query on the files of a directory that could be read.
  unfoldable pub query : AuditLogger → List LogFile → QueryFilter → List QueryResult
  unfolding parse_audit_file sort_by_seq verify_chain_entry is_audit_file
  query l files filter =
      let results =
        limited (limit_of filter.limit)
          (sort_by_seq (parse_files filter (collect_audit_files files))) in
      elim l.audit_key [
        | none ↦ results
        | some key ↦ map (with_validity (verify_chain_entry key)) results
      ]

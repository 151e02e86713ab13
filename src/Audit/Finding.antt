-- ===== src/Audit/Finding.antt =====
-- Query of internal/audit/query.go on a log that Record has written.
use yvonne.Base.{ℕ, Str, codes, List, [], ◌∷◌, Bool, true, false, ◌&&◌, some}
use yvonne.Audit.Logger.{LogJson, AuditLogger, Request, stamped, next_seq}
use yvonne.Audit.Query.{QueryFilter, QueryResult, match_filter, LogFile}
use yvonne.Audit.Recording.{sealed, signed_by}

module _ (digest : Str → Str) (hmac : Str → Str → Str) (json : LogJson) (key : Str) where
  -- The result for a request, and those of a sequence that were written and match the filter.
  abbrev pub result_for : Bool → Str → ℕ → Request → QueryResult
  result_for valid last seq r = record {
    envelope = sealed digest hmac json key last seq r;
    entry = stamped r.now r.entry;
    valid = valid;
  }

  abbrev pub if_kept : Bool → QueryResult → List QueryResult → List QueryResult
  if_kept true r l = r ∷ l
  if_kept false r l = l

  abbrev pub logged : Bool → QueryFilter → Str → ℕ → List Request → List QueryResult
  logged valid filter last seq [] = []
  logged valid filter last seq (r ∷ requests) =
      if_kept (r.writes && match_filter (stamped r.now r.entry) filter)
        (result_for valid last seq r)
        (logged valid filter (signed_by digest hmac json key last r) (next_seq seq) requests)

  -- The files of a directory that holds the log alone.
  abbrev pub log_only : AuditLogger → List LogFile
  log_only l = (codes "audit.log", some l.lines) ∷ []

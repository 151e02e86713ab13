-- ===== src/Audit/Logger.antt =====
-- internal/audit/chain.go and logger.go: the hash chain, Record and the verification of signatures.
-- The lines of the file are a list; Syslog gets the same lines and is left out.
use yvonne.Base.{
  ℕ, ◌+◌, ◌%◌, ◌^◌, Str, str_eq, length, ◌==◌, List, [], ◌∷◌, ◌++◌, Bool, true, false, Option, none,
  some, ◌≡◌, ◌≢◌, if◌then◌else◌,
}
use yvonne.Audit.Hex.{hex_encode, hex_decode}

-- `none` is the zero time.
pub record LogEntry : Type 0 where
  pub trace_id : Str
  pub timestamp : Option ℕ
  pub client_ip : Str
  pub actor : Str
  pub resource : Str
  pub action : Str
  pub result : Str
  pub key_id : Str
  pub status : Str

pub record SignedEnvelope : Type 0 where
  pub payload : Str
  pub signature : Str
  pub prev_signature : Str
  pub chain_seq : ℕ

-- encoding/json on these two types: what was written is read back, and is never empty.
pub record LogJson : Type 0 where
  pub marshal_entry : LogEntry → Str
  pub unmarshal_entry : Str → Option LogEntry
  pub marshal_envelope : SignedEnvelope → Str
  pub unmarshal_envelope : Str → Option SignedEnvelope
  pub unmarshal_marshal_entry : (e : LogEntry) → unmarshal_entry (marshal_entry e) ≡ some e
  pub unmarshal_marshal_envelope :
      (e : SignedEnvelope) → unmarshal_envelope (marshal_envelope e) ≡ some e
  pub marshal_envelope_nonempty : (e : SignedEnvelope) → marshal_envelope e ≢ []

-- `audit_key` is none after Close; `anchored` says whether anchorFile is set, and `anchor` is what
-- that file holds; `lines` are those of the log, the oldest first.
pub record AuditLogger : Type 0 where
  pub audit_key : Option Str
  pub last_signature : Str
  pub chain_seq : ℕ
  pub anchored : Bool
  pub anchor : Option Str
  pub lines : List Str

-- How Record ends; it panics on a nil auditKey.
pub data Outcome : Type 0 where
  recorded write_failed panicked : Outcome

-- A record, and what happens around it: the clock, and whether the log and the anchor can be written.
pub record Request : Type 0 where
  pub entry : LogEntry
  pub now : ℕ
  pub writes : Bool
  pub saves : Bool

abbrev pub stamped : ℕ → LogEntry → LogEntry
stamped now entry = elim entry.timestamp [
  | some t ↦ entry
  | none ↦ record entry { timestamp = some now }
]

-- chainSeq.Add(1)
abbrev pub next_seq : ℕ → ℕ
next_seq seq = (seq + 1) % 2 ^ 64

-- `digest` is SHA-256 and `hmac key message` HMAC-SHA256.
module _ (digest : Str → Str) (hmac : Str → Str → Str) (json : LogJson) where
  -- NewAuditLogger, with the random key.
  unfoldable pub new_audit_logger : Str → AuditLogger
  new_audit_logger key = record {
    audit_key = some key;
    last_signature = digest key;
    chain_seq = 0;
    anchored = false;
    anchor = none;
    lines = [];
  }

  -- loadAnchor, once the text of the file is trimmed; `none` is its error.
  unfoldable pub load_anchor : Str → Option Str
  load_anchor text = elim (hex_decode text) [
    | none ↦ none
    | some sig ↦ if length sig == 32 then some sig else none
  ]

  -- NewDualWriteLogger with the random key, on the anchor and the log that are there; `none` is its
  -- error.
  unfoldable pub new_dual_write_logger : Str → Option Str → List Str → Option AuditLogger
  unfolding load_anchor
  new_dual_write_logger key none lines = some (record {
    audit_key = some key;
    last_signature = digest key;
    chain_seq = 0;
    anchored = true;
    anchor = none;
    lines = lines;
  })
  new_dual_write_logger key (some text) lines = elim (load_anchor text) [
    | none ↦ none
    | some sig ↦ some (record {
      audit_key = some key;
      last_signature = sig;
      chain_seq = 0;
      anchored = true;
      anchor = some text;
      lines = lines;
    })
  ]

  -- computeAndAdvance: the new signature.
  unfoldable pub compute_and_advance : Str → Str → Str → Str
  compute_and_advance key last payload = hmac key (last ++ payload)

  -- saveAnchor
  unfoldable pub save_anchor : Bool → AuditLogger → AuditLogger
  save_anchor saves l =
      if l.anchored
      then if saves then record l { anchor = some (hex_encode l.last_signature) } else l
      else l

  -- The envelope of a payload, after the signature `last` and at the place `seq`.
  abbrev pub envelope_of : Str → Str → ℕ → Str → SignedEnvelope
  envelope_of key last seq payload = record {
    payload = payload;
    signature = hex_encode (compute_and_advance key last payload);
    prev_signature = hex_encode last;
    chain_seq = seq;
  }

  abbrev write_line : Bool → Str → AuditLogger → AuditLogger × Outcome
  write_line true line l = (record l { lines = l.lines ++ line ∷ [] }, recorded)
  write_line false line l = (l, write_failed)

  -- Record
  unfoldable pub record_entry : AuditLogger → Request → AuditLogger × Outcome
  unfolding compute_and_advance save_anchor hex_encode
  record_entry l r = elim l.audit_key [
    | none ↦ (l, panicked)
    | some key ↦
        let payload = json.marshal_entry (stamped r.now r.entry) in
        let seq = next_seq l.chain_seq in
        let envelope = envelope_of key l.last_signature seq payload in
        write_line r.writes (json.marshal_envelope envelope) (
          save_anchor r.saves (record l {
            last_signature = compute_and_advance key l.last_signature payload;
            chain_seq = seq;
          }))
  ]

  -- A sequence of calls of Record.
  unfoldable pub record_all : AuditLogger → List Request → AuditLogger
  record_all l [] = l
  record_all l (r ∷ requests) = record_all (record_entry l r).0 requests

  -- VerifySignature; `none` is its error.
  unfoldable pub verify_signature : Str → Str → Str → Option Bool
  verify_signature key payload want_hex = elim (hex_decode want_hex) [
    | none ↦ none
    | some want ↦ if str_eq (hmac key payload) want then some true else none
  ]

  -- VerifyChainSignature
  unfoldable pub verify_chain_signature : Str → Str → Str → Str → Option Bool
  verify_chain_signature key payload prev_hex want_hex = elim (hex_decode prev_hex) [
    | none ↦ none
    | some prev ↦ elim (hex_decode want_hex) [
      | none ↦ none
      | some want ↦ some (str_eq (hmac key (prev ++ payload)) want)
    ]
  ]

  -- InitialChainSignatureHex
  unfoldable pub initial_chain_signature_hex : Str → Str
  initial_chain_signature_hex key = hex_encode (digest key)

-- LastSignatureHex
unfoldable pub last_signature_hex : AuditLogger → Str
last_signature_hex l = hex_encode l.last_signature

-- Close
unfoldable pub close : AuditLogger → AuditLogger
close l = record l { audit_key = none }

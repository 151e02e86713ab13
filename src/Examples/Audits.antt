-- ===== src/Examples/Audits.antt =====
-- The audit log of internal/audit with a small digest and HMAC, and a codec made of fields.
use mathlib.Core.List.{Memᴰ}
use yvonne.Base.{
  ◌≤◌, ℕ, zero, suc, ◌%◌, ◌<◌, Str, codes, length, replicate, All, List, [], ◌∷◌, ◌++◌, append-nil,
  map, true, false, Option, none, some, ◌≡◌, ◌≢◌, refl, ap, sym, ◌∙◌, arith,
}
use yvonne.Auth.Approval.Handlers.{pos, negsuc}
use yvonne.Audit.Hex.{IsBytes}
use yvonne.Audit.Logger.{
  LogEntry, SignedEnvelope, LogJson, AuditLogger, Request, new_audit_logger, record_entry,
  record_all, compute_and_advance, save_anchor, initial_chain_signature_hex,
}
use yvonne.Audit.Query.{QueryFilter, query}
use yvonne.Audit.Recording.{sealed, payload_of}
use yvonne.Audit.Finding.{log_only}
use yvonne.Audit.Omitting.{query_accepts_omissions}
use yvonne.Audit.Limits.{length-query}
use yvonne.Audit.Linked.{IsLinked, AllVerify, record_all-IsLinked}
use yvonne.Examples.Json.{Pickle, paired, texts, numbers, options}

abbrev Fields : Type 0
Fields = (Str × Option ℕ) × ((Str × Str) × ((Str × Str) × ((Str × Str) × Str)))

abbrev fields : Pickle Fields
fields =
    paired (paired texts options) (
      paired (paired texts texts) (paired (paired texts texts) (paired (paired texts texts) texts)))

abbrev to_fields : LogEntry → Fields
to_fields e = (
  (e.trace_id, e.timestamp),
  ((e.client_ip, e.actor), ((e.resource, e.action), ((e.result, e.key_id), e.status))),
)

abbrev of_fields : Fields → LogEntry
of_fields ((a, b), ((c, d), ((e, f), ((g, h), i)))) = record {
  trace_id = a;
  timestamp = b;
  client_ip = c;
  actor = d;
  resource = e;
  action = f;
  result = g;
  key_id = h;
  status = i;
}

abbrev EnvelopeFields : Type 0
EnvelopeFields = (Str × Str) × (Str × ℕ)

abbrev envelope_fields : Pickle EnvelopeFields
envelope_fields = paired (paired texts texts) (paired texts numbers)

abbrev of_envelope_fields : EnvelopeFields → SignedEnvelope
of_envelope_fields ((a, b), (c, d)) = record {
  payload = a;
  signature = b;
  prev_signature = c;
  chain_seq = d;
}

abbrev to_envelope_fields : SignedEnvelope → EnvelopeFields
to_envelope_fields e = ((e.payload, e.signature), (e.prev_signature, e.chain_seq))

abbrev read_as : {A B : Type 0} → (A → B) → Option (A × Str) → Option B
read_as f none = none
read_as f (some r) = some (f r.0)

pub reads_back :
    {A B : Type 0} (p : Pickle A) (f : A → B) (a : A) → read_as f (p.read (p.write a)) ≡ some (f a)
reads_back p f a =
    ap (λ s. read_as f (p.read s)) (sym (append-nil (p.write a)))
    ∙ ap (read_as f) (p.read_write a [])

pub log_law : (e : LogEntry) → read_as of_fields (fields.read (fields.write (to_fields e))) ≡ some e
log_law e = reads_back fields of_fields (to_fields e)

pub envelope_law :
    (e : SignedEnvelope)
    → read_as of_envelope_fields
        (envelope_fields.read (envelope_fields.write (to_envelope_fields e)))
      ≡ some e
envelope_law e = reads_back envelope_fields of_envelope_fields (to_envelope_fields e)

pub envelope_nonempty : (e : SignedEnvelope) → envelope_fields.write (to_envelope_fields e) ≢ []
envelope_nonempty e h = cc

abbrev log_json : LogJson
log_json = record {
  marshal_entry = λ e. fields.write (to_fields e);
  unmarshal_entry = λ s. read_as of_fields (fields.read s);
  marshal_envelope = λ e. envelope_fields.write (to_envelope_fields e);
  unmarshal_envelope = λ s. read_as of_envelope_fields (envelope_fields.read s);
  unmarshal_marshal_entry = log_law;
  unmarshal_marshal_envelope = envelope_law;
  marshal_envelope_nonempty = envelope_nonempty;
}

abbrev digest : Str → Str
digest s = replicate 32 7

abbrev hmac : Str → Str → Str
hmac key m = replicate 32 (length m % 256)

All-replicate : (n b : ℕ) → b < 256 → All (λ c. c < 256) (replicate n b)
All-replicate zero b h = tt
All-replicate (suc n) b h = (h, All-replicate n b h)

hmac-IsBytes : (k m : Str) → IsBytes (hmac k m)
hmac-IsBytes k m = All-replicate 32 (length m % 256) (omega arith)

anchor : IsBytes (digest (codes "k"))
anchor = All-replicate 32 7 (omega arith)

abbrev entry : Str → LogEntry
entry action = record {
  trace_id = [];
  timestamp = none;
  client_ip = [];
  actor = codes "ops";
  resource = codes "user";
  action = action;
  result = codes "success";
  key_id = [];
  status = [];
}

abbrev rotation : Request
rotation = record { entry = entry (codes "RotateKey"); now = 5; writes = true; saves = true }

abbrev shredding : Request
shredding = record { entry = entry (codes "ShredKey"); now = 6; writes = true; saves = true }

abbrev lost : Request
lost = record shredding { writes = false }

abbrev shreds : QueryFilter
shreds = record {
  start_time = some 1;
  end_time = none;
  actor = [];
  action = codes "ShredKey";
  limit = negsuc 0;
}

abbrev logger_after : List Request → AuditLogger
logger_after requests =
    record_all digest hmac log_json (new_audit_logger digest hmac log_json (codes "k")) requests

-- The second line alone, once the first one is gone.
abbrev second_line : Str
second_line = log_json.marshal_envelope (
    sealed digest hmac log_json (codes "k")
      (hmac (codes "k")
        (digest (codes "k") ++ payload_of digest hmac log_json (codes "k") rotation))
      1 shredding)

second_line_in : Memᴰ second_line (logger_after (rotation ∷ shredding ∷ [])).lines
unfolding record_all record_entry new_audit_logger compute_and_advance save_anchor
second_line_in = Memᴰ.tail (Memᴰ.head refl)

query_accepts_omissions_example :
    All
      (λ r. r.valid ≡ true)
      (query digest hmac log_json
        (logger_after (rotation ∷ shredding ∷ []))
        ((codes "audit.log", some (second_line ∷ [])) ∷ [])
        shreds)
query_accepts_omissions_example =
    query_accepts_omissions digest hmac log_json (codes "k") (rotation ∷ shredding ∷ [])
      (second_line ∷ []) shreds anchor hmac-IsBytes (second_line_in, tt)

record_all-IsLinked_example :
    (es : List SignedEnvelope) × ((logger_after (rotation ∷ shredding ∷ [])).lines
      ≡ map log_json.marshal_envelope es)
    × IsLinked (initial_chain_signature_hex digest hmac log_json (codes "k")) 0 es
    × AllVerify digest hmac log_json (codes "k") es
record_all-IsLinked_example =
    record_all-IsLinked digest hmac log_json (codes "k") (rotation ∷ shredding ∷ []) anchor
      hmac-IsBytes (refl, (refl, tt))

abbrev chain : List SignedEnvelope
chain = sealed digest hmac log_json (codes "k") (digest (codes "k")) 0 rotation ∷ []

-- A query for the last record of two.
abbrev last_one : QueryFilter
last_one = record shreds { start_time = none; action = []; limit = pos 1 }

length-query_example :
    length (
      query digest hmac log_json
        (logger_after (rotation ∷ shredding ∷ []))
        (log_only digest hmac log_json (codes "k") (logger_after (rotation ∷ shredding ∷ [])))
        last_one)
    ≤ 1
length-query_example =
    (length-query digest hmac log_json last_one (logger_after (rotation ∷ shredding ∷ []))
      (log_only digest hmac log_json (codes "k") (logger_after (rotation ∷ shredding ∷ []))) 1
      refl).0

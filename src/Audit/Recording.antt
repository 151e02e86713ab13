-- ===== src/Audit/Recording.antt =====
-- What Record of internal/audit/logger.go leaves in the log.
use yvonne.Base.{
  ℕ, Str, str_eq_refl, List, [], ◌∷◌, ◌++◌, append_assoc, append-nil, map, All, Bool, true, false,
  some, ◌≡◌, refl, ap, sym, ◌∙◌, arith,
}
use yvonne.Audit.Hex.{hex_encode, hex_decode-hex_encode, IsBytes}
use yvonne.Audit.Logger.{
  SignedEnvelope, LogJson, AuditLogger, Request, stamped, next_seq, compute_and_advance,
  save_anchor, record_entry, record_all, verify_chain_signature,
}
use yvonne.Audit.Query.{verify_chain_entry}

module _ (digest : Str → Str) (hmac : Str → Str → Str) (json : LogJson) (key : Str) where
  -- The payload of a request, the signature that it makes, and its envelope.
  abbrev pub payload_of : Request → Str
  payload_of r = json.marshal_entry (stamped r.now r.entry)

  abbrev pub signed_by : Str → Request → Str
  signed_by last r = hmac key (last ++ payload_of r)

  abbrev pub sealed : Str → ℕ → Request → SignedEnvelope
  sealed last seq r = record {
    payload = payload_of r;
    signature = hex_encode (signed_by last r);
    prev_signature = hex_encode last;
    chain_seq = next_seq seq;
  }

  abbrev pub when : Bool → SignedEnvelope → List SignedEnvelope → List SignedEnvelope
  when true e l = e ∷ l
  when false e l = l

  -- The envelopes of a sequence of requests, those that could be written.
  abbrev pub envelopes : Str → ℕ → List Request → List SignedEnvelope
  envelopes last seq [] = []
  envelopes last seq (r ∷ requests) =
      when r.writes (sealed last seq r) (envelopes (signed_by last r) (next_seq seq) requests)

  -- What one Record does.
  pub record_entry_lem :
      (l : AuditLogger) (r : Request)
      → l.audit_key ≡ some key
      → let after = (record_entry digest hmac json l r).0 in
        (after.audit_key ≡ some key)
        × (after.last_signature ≡ signed_by l.last_signature r)
        × (after.chain_seq ≡ next_seq l.chain_seq)
        × (after.lines
            ≡ l.lines
              ++ map json.marshal_envelope
                  (when r.writes (sealed l.last_signature l.chain_seq r) []))
  unfolding record_entry compute_and_advance save_anchor
  record_entry_lem l r h = ground (arith, append-nil l.lines, h)

  pub audit_key-record_all :
      (l : AuditLogger) (requests : List Request)
      → l.audit_key ≡ some key
      → (record_all digest hmac json l requests).audit_key ≡ some key
  unfolding record_all
  audit_key-record_all l [] h = h
  audit_key-record_all l (r ∷ requests) h =
      audit_key-record_all (record_entry digest hmac json l r).0 requests (record_entry_lem l r h).0

  marshalled_when :
      (written : Bool) (e : SignedEnvelope) (l : List SignedEnvelope)
      → map json.marshal_envelope (when written e l)
        ≡ map json.marshal_envelope (when written e []) ++ map json.marshal_envelope l
  marshalled_when true e l = refl
  marshalled_when false e l = refl

  pub lines-record_all :
      (l : AuditLogger) (requests : List Request)
      → l.audit_key ≡ some key
      → (record_all digest hmac json l requests).lines
        ≡ l.lines ++ map json.marshal_envelope (envelopes l.last_signature l.chain_seq requests)
  unfolding record_all
  lines-record_all l [] h = sym (append-nil l.lines)
  lines-record_all l (r ∷ requests) h =
      let (keyed, last, seq, lines) = record_entry_lem l r h in
      let after = (record_entry digest hmac json l r).0 in
      let e = sealed l.last_signature l.chain_seq r in
      let rest = envelopes (signed_by l.last_signature r) (next_seq l.chain_seq) requests in
      lines-record_all after requests keyed
      ∙ ap (λ s. after.lines ++ map json.marshal_envelope (envelopes s after.chain_seq requests))
          last
      ∙ ap
          (λ n.
            after.lines
            ++ map json.marshal_envelope (envelopes (signed_by l.last_signature r) n requests))
          seq
      ∙ ap (λ w. w ++ map json.marshal_envelope rest) lines
      ∙ append_assoc l.lines (map json.marshal_envelope (when r.writes e []))
          (map json.marshal_envelope rest)
      ∙ ap (λ w. l.lines ++ w) (sym (marshalled_when r.writes e rest))

  module _ (mac_bytes : (k m : Str) → IsBytes (hmac k m)) where
    -- A signature that was made here is accepted.
    pub sealed-verifies :
        (last : Str) (seq : ℕ) (r : Request)
        → IsBytes last
        → verify_chain_entry digest hmac json key (sealed last seq r) ≡ true
    unfolding verify_chain_entry verify_chain_signature
    sealed-verifies last seq r h =
        rw
          (
            verify_chain_entry,
            verify_chain_signature,
            hex_decode-hex_encode last h,
            hex_decode-hex_encode (signed_by last r) (mac_bytes key (last ++ payload_of r)),
            str_eq_refl (signed_by last r),
          )
          refl

    pub envelopes-verify :
        (last : Str) (seq : ℕ) (requests : List Request)
        → IsBytes last
        → All (λ e. verify_chain_entry digest hmac json key e ≡ true) (envelopes last seq requests)
    envelopes-verify last seq [] h = tt
    envelopes-verify last seq (r ∷ requests) h =
        let rest =
          envelopes-verify (signed_by last r) (next_seq seq) requests
            (mac_bytes key (last ++ payload_of r)) in
        all_when r.writes _ _ (sealed-verifies last seq r h) rest
      where
        all_when :
            (written : Bool) (e : SignedEnvelope) (l : List SignedEnvelope)
            → verify_chain_entry digest hmac json key e ≡ true
            → All (λ e. verify_chain_entry digest hmac json key e ≡ true) l
            → All (λ e. verify_chain_entry digest hmac json key e ≡ true) (when written e l)
        all_when true e l first later = (first, later)
        all_when false e l first later = later

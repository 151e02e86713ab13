-- ===== src/Audit/Linked.antt =====
-- The chain of internal/audit/chain.go: a log as a chain of envelopes, and what a change of it takes.
use yvonne.Base.{ℕ, Str, List, [], ◌∷◌, map, All, true, ◌≡◌, refl}
use yvonne.Audit.Hex.{hex_encode, IsBytes}
use yvonne.Audit.Logger.{
  SignedEnvelope, LogJson, Request, next_seq, new_audit_logger, record_all,
  initial_chain_signature_hex,
}
use yvonne.Audit.Query.{verify_chain_entry}
use yvonne.Audit.Recording.{signed_by, envelopes, lines-record_all, envelopes-verify}

-- Each envelope names the signature of the one before, and has the next number.
abbrev pub IsLinked : Str → ℕ → List SignedEnvelope → Type 0
IsLinked prev seq [] = Unit
IsLinked prev seq (e ∷ es) =
    (e.prev_signature ≡ prev) × (e.chain_seq ≡ next_seq seq) × IsLinked e.signature e.chain_seq es

-- The last signature of a chain that starts after `prev`, and its payloads.
abbrev pub last_of : Str → List SignedEnvelope → Str
last_of prev [] = prev
last_of prev (e ∷ es) = last_of e.signature es

abbrev pub payloads : List SignedEnvelope → List Str
payloads es = map (λ e. e.payload) es

module _ (digest : Str → Str) (hmac : Str → Str → Str) (json : LogJson) (key : Str) where
  abbrev pub AllVerify : List SignedEnvelope → Type 0
  AllVerify es = All (λ e. verify_chain_entry digest hmac json key e ≡ true) es

  envelopes-IsLinked :
      (last : Str) (seq : ℕ) (requests : List Request)
      → All (λ r. r.writes ≡ true) requests
      → IsLinked (hex_encode last) seq (envelopes digest hmac json key last seq requests)
  envelopes-IsLinked last seq [] h = tt
  envelopes-IsLinked last seq (r ∷ requests) h = rw h.0 (
    refl,
    refl,
    envelopes-IsLinked (signed_by digest hmac json key last r) (next_seq seq) requests h.1,
  )

  -- Where HMAC and the digest give bytes and the log can be written, the lines of a new logger are
  -- those of a chain of envelopes after any records: each names the signature of the one before it, the
  -- first InitialChainSignatureHex, their numbers follow each other from 1, and each verifies.
  pub record_all-IsLinked :
      (requests : List Request)
      → IsBytes (digest key)
      → ((k m : Str) → IsBytes (hmac k m))
      → All (λ r. r.writes ≡ true) requests
      → (es : List SignedEnvelope) × ((record_all digest hmac json
            (new_audit_logger digest hmac json key)
            requests).lines
          ≡ map json.marshal_envelope es)
        × IsLinked (initial_chain_signature_hex digest hmac json key) 0 es
        × AllVerify es
  unfolding new_audit_logger initial_chain_signature_hex
  record_all-IsLinked requests anchor mac_bytes written = (
    envelopes digest hmac json key (digest key) 0 requests,
    lines-record_all digest hmac json key (new_audit_logger digest hmac json key) requests refl,
    envelopes-IsLinked (digest key) 0 requests written,
    envelopes-verify digest hmac json key mac_bytes (digest key) 0 requests anchor,
  )

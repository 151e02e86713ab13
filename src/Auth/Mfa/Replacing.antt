-- ===== src/Auth/Mfa/Replacing.antt =====
-- What a role can do to its second factor (internal/api/handler_mfa.go), as the middleware of
-- internal/api/middleware_mfa.go sees it.
use yvonne.Base.{
  ℕ, Str, str_eq_iff, str_eq_refl, str_ne, lookup, lookup-insert, [], Bool, true, false, Option,
  none, some, if◌then◌else◌, ◌≡◌, ◌≢◌, refl, ap, ◌∙◌,
}
use yvonne.Auth.Policy.Defs.{Policy}
use yvonne.Auth.Approval.Handlers.{parsed, post}
use yvonne.Auth.Mfa.Totp.{generate_totp_secret, totp_secret_len, build_totp_uri}
use yvonne.Auth.Approval.Gate.{mfa_check, mfa_check_iff}
use yvonne.Auth.Mfa.Handlers.{
  MfaState, MfaStore, MfaSetupResponse, ok_setup, issuer, get_mfa_state, save_mfa_state,
  handle_mfa_setup, handle_mfa_verify,
}
use yvonne.Auth.Mfa.Setup.{setup, verify, serve}

module _ (now : ℕ) (random : ℕ → Option Str) (encode : Str → Str) (valid : Str → Str → Bool) where
  module _ (s : MfaStore) (p : Policy) (bytes code : Str) where
    -- The role sets a second factor up, and verifies it.
    abbrev pub replaced : MfaStore
    replaced =
        serve now random encode valid
          (serve now random encode valid s (setup (some p) post (parsed p.role_id)))
          (verify post (parsed (record { role_id = p.role_id; code = code })))

    abbrev fresh : MfaState
    fresh = record {
      role_id = p.role_id;
      secret = encode bytes;
      enabled = false;
      created_at = now;
      verified_at = none;
    }

    abbrev pub shown : MfaSetupResponse
    shown = record {
      secret = encode bytes;
      uri = build_totp_uri issuer p.role_id (encode bytes);
      issuer = issuer;
      account = p.role_id;
    }

    module _ (named : p.role_id ≢ []) (drawn : random totp_secret_len ≡ some bytes) where
      set_up :
          handle_mfa_setup now random encode (some p) post (parsed p.role_id) s
          ≡ (ok_setup shown, save_mfa_state s fresh)
      unfolding handle_mfa_setup generate_totp_secret
      set_up =
          rw
            (
              handle_mfa_setup,
              str_ne p.role_id [] named,
              str_eq_refl p.role_id,
              generate_totp_secret,
              drawn,
            )
            refl

      stored :
          (t : MfaStore) (state : MfaState)
          → state.role_id ≡ p.role_id
          → get_mfa_state (save_mfa_state t state) p.role_id ≡ some state
      unfolding get_mfa_state save_mfa_state
      stored t state e =
          lookup-insert state.role_id p.role_id state t
          ∙ ap (λ b. if b then some state else lookup p.role_id t)
              ((str_eq_iff state.role_id p.role_id).1 e)

      verified :
          code ≢ []
          → valid (encode bytes) code ≡ true
          → replaced
            ≡ save_mfa_state
                (save_mfa_state s fresh)
                (record fresh { enabled = true; verified_at = some now })
      unfolding serve handle_mfa_verify
      verified given right =
          ap
            (λ r.
              (handle_mfa_verify now valid post
                (parsed (record { role_id = p.role_id; code = code })) r.1).1)
            set_up
          ∙ rw
              (
                handle_mfa_verify,
                str_ne p.role_id [] named,
                str_ne code [] given,
                stored s fresh refl,
                right,
              )
              refl

      passes :
          (states : Str → Option MfaState) (state : MfaState)
          → states p.role_id ≡ some state
          → state.enabled ≡ true
          → code ≢ []
          → valid state.secret code ≡ true
          → mfa_check valid p (some states) code ≡ none
      passes states state found on given right =
          (mfa_check_iff valid p states code).1 (λ needed. (given, state, found, on, right))

      -- Whatever second factor a role has, a request with no more than the role's policy replaces it by
      -- a secret that the response shows: once a code that is valid for that secret has been verified,
      -- it passes the middleware's check of the role's second factor.
      pub second_factor_replaced :
          code ≢ []
          → valid (encode bytes) code ≡ true
          → ((handle_mfa_setup now random encode (some p) post (parsed p.role_id) s).0
              ≡ ok_setup shown)
            × (mfa_check valid p (some (get_mfa_state replaced)) code ≡ none)
      second_factor_replaced given right = (
        ap (λ r. r.0) set_up,
        passes (get_mfa_state replaced) (record fresh { enabled = true; verified_at = some now })
            (ap (λ t. get_mfa_state t p.role_id) (verified given right)
              ∙ stored (save_mfa_state s fresh)
                  (record fresh { enabled = true; verified_at = some now }) refl)
            refl given right,
      )

-- ===== src/Auth/Mfa/Handlers.antt =====
-- internal/auth/auth.go (MFAState), mfa_store_memory.go, and the handlers of
-- internal/api/handler_mfa.go on that store. Times are nanoseconds; the texts of errors are left out.
use yvonne.Base.{
  ℕ, Str, codes, str_eq, Assoc, lookup, insert, remove, [], Bool, true, false, ◌||◌, not, Option,
  none, some, if◌then◌else◌,
}
use yvonne.Auth.Policy.Defs.{Policy}
use yvonne.Auth.Approval.Handlers.{
  Body, read_failed, invalid_json, parsed, Method, get, post, other,
}
use yvonne.Auth.Mfa.Totp.{build_totp_uri, generate_totp_secret}

-- `none` is the zero time.
pub record MfaState : Type 0 where
  pub role_id : Str
  pub secret : Str
  pub enabled : Bool
  pub created_at : ℕ
  pub verified_at : Option ℕ

-- MemoryMFAStore
abbrev pub MfaStore : Type 0
MfaStore = Assoc MfaState

-- NewMemoryMFAStore
unfoldable pub new_memory_mfa_store : MfaStore
new_memory_mfa_store = []

-- GetMFAState; `none` is its error.
unfoldable pub get_mfa_state : MfaStore → Str → Option MfaState
get_mfa_state s role_id = lookup role_id s

-- SaveMFAState
unfoldable pub save_mfa_state : MfaStore → MfaState → MfaStore
save_mfa_state s state = insert state.role_id state s

-- DeleteMFAState
unfoldable pub delete_mfa_state : MfaStore → Str → MfaStore
delete_mfa_state s role_id = remove role_id s

pub record MfaSetupResponse : Type 0 where
  pub secret : Str
  pub uri : Str
  pub issuer : Str
  pub account : Str

pub data Response : Type 0 where
  json_error : ℕ → Response
  ok_setup : MfaSetupResponse → Response
  ok_enabled : Str → Bool → Response

pub record MfaCodeRequest : Type 0 where
  pub role_id : Str
  pub code : Str

abbrev pub Outcome : Type 0
Outcome = Response × MfaStore

-- requireMethod for POST, then the reading of the body.
abbrev pub with_body : {A : Type 0} → Method → Body A → MfaStore → (A → Outcome) → Outcome
with_body get body s act = (json_error 405, s)
with_body other body s act = (json_error 405, s)
with_body post read_failed s act = (json_error 400, s)
with_body post invalid_json s act = (json_error 400, s)
with_body post (parsed b) s act = act b

abbrev pub issuer : Str
issuer = codes "Yvonne KMS"

-- The end of handleMFASetup, with the secret that was generated.
abbrev pub bind_secret : ℕ → MfaStore → Str → Option Str → Outcome
bind_secret now s role_id none = (json_error 500, s)
bind_secret now s role_id (some secret) = (
  ok_setup (record {
    secret = secret;
    uri = build_totp_uri issuer role_id secret;
    issuer = issuer;
    account = role_id;
  }),
  save_mfa_state s (record {
    role_id = role_id;
    secret = secret;
    enabled = false;
    created_at = now;
    verified_at = none;
  }),
)

-- handleMFASetup; the body is its role_id.
unfoldable pub handle_mfa_setup :
    ℕ → (ℕ → Option Str) → (Str → Str) → Option Policy → Method → Body Str → MfaStore → Outcome
unfolding build_totp_uri generate_totp_secret save_mfa_state
handle_mfa_setup now random encode policy method body s = with_body method body s λ role_id.
    if str_eq role_id [] then (json_error 400, s) else elim policy [
      | none ↦ (json_error 403, s)
      | some p ↦
          if not (str_eq p.role_id role_id)
          then (json_error 403, s)
          else bind_secret now s role_id (generate_totp_secret random encode)
    ]

-- What handleMFAVerify and handleMFADisable begin with; `valid` says whether ValidateTOTP with a nil
-- markUsed accepts a code for a secret at that time.
abbrev pub with_valid_code :
    (Str → Str → Bool)
    → Method
    → Body MfaCodeRequest
    → MfaStore
    → (Str → MfaState → Outcome)
    → Outcome
with_valid_code valid method body s act = with_body method body s λ b.
    if str_eq b.role_id [] || str_eq b.code []
    then (json_error 400, s)
    else elim (get_mfa_state s b.role_id) [
      | none ↦ (json_error 404, s)
      | some state ↦
          if not (valid state.secret b.code) then (json_error 403, s) else act b.role_id state
    ]

-- handleMFAVerify
unfoldable pub handle_mfa_verify :
    ℕ → (Str → Str → Bool) → Method → Body MfaCodeRequest → MfaStore → Outcome
unfolding get_mfa_state save_mfa_state
handle_mfa_verify now valid method body s = with_valid_code valid method body s λ role_id state. (
  ok_enabled role_id true,
  save_mfa_state s (record state { enabled = true; verified_at = some now }),
)

-- handleMFADisable
unfoldable pub handle_mfa_disable :
    (Str → Str → Bool) → Method → Body MfaCodeRequest → MfaStore → Outcome
unfolding get_mfa_state delete_mfa_state
handle_mfa_disable valid method body s =
    with_valid_code valid method body s
      λ role_id state. (ok_enabled role_id false, delete_mfa_state s role_id)

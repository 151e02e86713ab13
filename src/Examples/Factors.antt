-- ===== src/Examples/Factors.antt =====
-- The second factor of internal/auth/totp.go and internal/api/handler_mfa.go, run with a hash of 20
-- bytes that are all the message's last.
use yvonne.Base.{
  ℕ, ◌*◌, Str, codes, [], ◌∷◌, Bool, true, Option, none, some, replicate, get_or, str_eq,
  str_eq_refl, str_eq_iff, ◌≡◌, ◌⊎◌, refl, arith, decimal, lookup,
}
use yvonne.Auth.Policy.Defs.{Policy}
use yvonne.Auth.Approval.Handlers.{parsed, post}
use yvonne.Auth.Approval.Gate.{mfa_check}
use yvonne.Auth.Mfa.Totp.{
  second, generate_totp, validate_totp, hotp, counter_at, six_digits, truncation, put_uint64,
}
use yvonne.Auth.Mfa.Drift.{validate_totp-generate_totp, validate_totp_iff}
use yvonne.Auth.Mfa.Handlers.{MfaStore, get_mfa_state}
use yvonne.Auth.Mfa.Setup.{setup, serve, serve_lem, IsKeyed, IsAuthorised}
use yvonne.Auth.Mfa.Replacing.{second_factor_replaced, replaced}

abbrev last_byte : Str → Str → Str
last_byte key message = replicate 20 (get_or message 7 0)

abbrev decode : Str → Option Str
decode secret = some secret

-- The code of the period that starts at 60 seconds.
generated : generate_totp last_byte decode (codes "secret") (60 * second) ≡ some (codes "686018")
unfolding generate_totp hotp six_digits truncation put_uint64 decimal
generated = refl

validate_totp-generate_totp_example :
    validate_totp last_byte decode none true (codes "secret") (codes "686018") (90 * second)
    ≡ (true, none)
validate_totp-generate_totp_example =
    validate_totp-generate_totp last_byte decode true (codes "secret") (codes "686018")
      (60 * second) (90 * second) generated (omega arith) (omega arith) (omega arith)

-- The code of the period before.
earlier :
    hotp last_byte (codes "secret") (counter_at last_byte decode (90 * second) 0) ≡ codes "686018"
unfolding hotp counter_at six_digits truncation put_uint64 decimal
earlier = refl

validate_totp_iff_example :
    validate_totp last_byte decode none true (codes "secret") (codes "686018") (90 * second)
    ≡ (true, none)
validate_totp_iff_example =
    (validate_totp_iff last_byte decode true (codes "686018") (90 * second) (codes "secret")).1
      (codes "secret", refl, (0, omega arith, earlier))

abbrev random : ℕ → Option Str
random n = some (replicate n 7)

abbrev encode : Str → Str
encode bytes = bytes

-- The code must be the secret's first three bytes.
abbrev valid : Str → Str → Bool
valid secret code = str_eq code (7 ∷ 7 ∷ 7 ∷ [])

abbrev operator : Policy
operator = record {
  role_id = codes "ops";
  allowed_keys = [];
  allowed_actions = [];
  require_mfa = true;
  require_quorum = 0;
  approver_roles = [];
  tenant_id = [];
}

abbrev bound : MfaStore
bound =
    (
      codes "ops",
      record {
        role_id = codes "ops";
        secret = codes "old";
        enabled = true;
        created_at = 1;
        verified_at = some 2;
      },
    )
    ∷ []

bound-IsKeyed : IsKeyed bound
unfolding get_mfa_state lookup
bound-IsKeyed j state e = ground (arith, str_eq_iff (codes "ops") j)

-- Another role cannot replace it.
serve_lem_example :
    (get_mfa_state
        (serve 9 random encode valid bound (setup none post (parsed (codes "ops"))))
        (codes "ops")
      ≡ get_mfa_state bound (codes "ops"))
    ⊎ IsAuthorised 9 random encode valid bound
        (codes "ops")
        (setup none post (parsed (codes "ops")))
serve_lem_example =
    serve_lem 9 random encode valid bound (codes "ops") (setup none post (parsed (codes "ops")))
      bound-IsKeyed

second_factor_replaced_example :
    mfa_check valid operator
      (some (
        get_mfa_state
          (replaced 9 random encode valid bound operator (replicate 20 7) (7 ∷ 7 ∷ 7 ∷ []))))
      (7 ∷ 7 ∷ 7 ∷ [])
    ≡ none
second_factor_replaced_example =
    (second_factor_replaced 9 random encode valid bound operator (replicate 20 7) (7 ∷ 7 ∷ 7 ∷ [])
      (λ e. cc) refl (λ e. cc) (str_eq_refl (7 ∷ 7 ∷ 7 ∷ []))).1

-- ===== src/Auth/Mfa/Setup.antt =====
-- Who can change a role's second factor (internal/api/handler_mfa.go).
use yvonne.Base.{
  ℕ, Str, str_eq, str_eq_iff, lookup-insert, lookup-remove, [], Bool, true, false, ◌||◌, Option,
  none, some, ◌≡◌, ◌⊎◌, inl, inr, refl, sym, ap, ◌∙◌, arith, Bool-cases, Option-cases,
}
use yvonne.Auth.Policy.Defs.{Policy}
use yvonne.Auth.Approval.Handlers.{
  Body, read_failed, invalid_json, parsed, Method, get, post, other,
}
use yvonne.Auth.Mfa.Totp.{generate_totp_secret}
use yvonne.Auth.Mfa.Handlers.{
  MfaState, MfaStore, Outcome, get_mfa_state, save_mfa_state, delete_mfa_state, bind_secret,
  with_valid_code, MfaCodeRequest, handle_mfa_setup, handle_mfa_verify, handle_mfa_disable,
}

-- Another role's state stays.
pub saved_elsewhere :
    (s : MfaStore) (j : Str) (state : MfaState)
    → str_eq state.role_id j ≡ false
    → get_mfa_state (save_mfa_state s state) j ≡ get_mfa_state s j
unfolding get_mfa_state save_mfa_state
saved_elsewhere s j state e = lookup-insert state.role_id j state s ∙ rw e refl

pub data Request : Type 0 where
  setup : Option Policy → Method → Body Str → Request
  verify disable : Method → Body MfaCodeRequest → Request

-- Every state stands under its own role.
abbrev pub IsKeyed : MfaStore → Type 0
IsKeyed s = (j : Str) (state : MfaState) → get_mfa_state s j ≡ some state → state.role_id ≡ j

module _ (now : ℕ) (random : ℕ → Option Str) (encode : Str → Str) (valid : Str → Str → Bool) where
  unfoldable pub serve : MfaStore → Request → MfaStore
  serve s (setup policy method body) = (handle_mfa_setup now random encode policy method body s).1
  serve s (verify method body) = (handle_mfa_verify now valid method body s).1
  serve s (disable method body) = (handle_mfa_disable valid method body s).1

  -- The request shows a code that is valid for the secret of the role.
  abbrev pub ShowsCode : MfaStore → Str → Body MfaCodeRequest → Type 0
  ShowsCode s j body =
      (b : MfaCodeRequest) × (body ≡ parsed b)
      × (b.role_id ≡ j)
      × ((state : MfaState) × (get_mfa_state s j ≡ some state) × (valid state.secret b.code ≡ true))

  -- Who may change the state of the role `j`: the role itself, or whoever has a valid code.
  abbrev pub IsAuthorised : MfaStore → Str → Request → Type 0
  IsAuthorised s j (setup policy method body) = (p : Policy) × (policy ≡ some p) × (p.role_id ≡ j)
  IsAuthorised s j (verify method body) = ShowsCode s j body
  IsAuthorised s j (disable method body) = ShowsCode s j body

  abbrev Unchanged : MfaStore → MfaStore → Str → Type 0
  Unchanged s after j = get_mfa_state after j ≡ get_mfa_state s j

  setup_changes :
      (s : MfaStore) (j : Str) (policy : Option Policy) (method : Method) (body : Body Str)
      → Unchanged s (serve s (setup policy method body)) j
        ⊎ IsAuthorised s j (setup policy method body)
  unfolding serve handle_mfa_setup
  setup_changes s j policy get body = inl refl
  setup_changes s j policy other body = inl refl
  setup_changes s j policy post read_failed = inl refl
  setup_changes s j policy post invalid_json = inl refl
  setup_changes s j none post (parsed role_id) = inl (ground arith)
  setup_changes s j (some p) post (parsed role_id) = elim (Bool-cases (str_eq role_id [])) [
    | inl unnamed ↦ inl (rw (serve, handle_mfa_setup, unnamed) refl)
    | inr named ↦ elim (Bool-cases (str_eq p.role_id role_id)) [
      | inr foreign ↦ inl (rw (serve, handle_mfa_setup, named, foreign) refl)
      | inl own ↦ elim (Bool-cases (str_eq p.role_id j)) [
        | inl mine ↦ inr (p, refl, (str_eq_iff p.role_id j).0 mine)
        | inr not_mine ↦
            let elsewhere : str_eq role_id j ≡ false =
              ap (λ r. str_eq r j) (sym ((str_eq_iff p.role_id role_id).0 own)) ∙ not_mine in
            inl (
              rw (serve, handle_mfa_setup, named, own)
                (bound role_id elsewhere (generate_totp_secret random encode)))
      ]
    ]
  ]
    where
      bound :
          (role_id : Str)
          → str_eq role_id j ≡ false
          → (secret : Option Str) → Unchanged s (bind_secret now s role_id secret).1 j
      bound role_id elsewhere none = refl
      bound role_id elsewhere (some secret) = saved_elsewhere s j _ elsewhere

  -- What handleMFAVerify and handleMFADisable do to a store, if `act` changes no other role's state.
  code_changes :
      (s : MfaStore) (j : Str) (method : Method) (body : Body MfaCodeRequest)
      (act : Str → MfaState → Outcome)
      → ((role_id : Str) (state : MfaState)
          → get_mfa_state s role_id ≡ some state
          → str_eq role_id j ≡ false
          → Unchanged s (act role_id state).1 j)
      → Unchanged s (with_valid_code valid method body s act).1 j ⊎ ShowsCode s j body
  code_changes s j get body act keeps = inl refl
  code_changes s j other body act keeps = inl refl
  code_changes s j post read_failed act keeps = inl refl
  code_changes s j post invalid_json act keeps = inl refl
  code_changes s j post (parsed b) act keeps =
      elim (Bool-cases (str_eq b.role_id [] || str_eq b.code [])) [
        | inl missing ↦ inl (rw missing refl)
        | inr given ↦ elim (Option-cases (get_mfa_state s b.role_id)) [
          | inl unknown ↦ inl (rw (given, unknown) refl)
          | inr (state, found) ↦ elim (Bool-cases (valid state.secret b.code)) [
            | inr wrong ↦ inl (rw (given, found, wrong) refl)
            | inl right ↦ elim (Bool-cases (str_eq b.role_id j)) [
              | inl mine ↦
                  let same = (str_eq_iff b.role_id j).0 mine in
                  inr (b, refl, same, (state, ap (get_mfa_state s) (sym same) ∙ found, right))
              | inr not_mine ↦ inl (rw (given, found, right) (keeps b.role_id state found not_mine))
            ]
          ]
        ]
      ]

  -- A request changes a role's second factor only if it is a setup with the role's own policy, or if
  -- it shows a code that is valid for the secret that the role has.
  pub serve_lem :
      (s : MfaStore) (j : Str) (r : Request)
      → IsKeyed s
      → (get_mfa_state (serve s r) j ≡ get_mfa_state s j) ⊎ IsAuthorised s j r
  unfolding serve handle_mfa_verify handle_mfa_disable get_mfa_state delete_mfa_state
  serve_lem s j (setup policy method body) keyed = setup_changes s j policy method body
  serve_lem s j (verify method body) keyed =
      code_changes s j method body _ λ role_id state found elsewhere.
        saved_elsewhere s j (record state { enabled = true; verified_at = some now })
          (ap (λ r. str_eq r j) (keyed role_id state found) ∙ elsewhere)
  serve_lem s j (disable method body) keyed =
      code_changes s j method body _
        λ role_id state found elsewhere. lookup-remove role_id j s ∙ rw elsewhere refl

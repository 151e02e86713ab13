-- ===== src/Auth/Mfa/Keyed.antt =====
-- The store of second factors keeps every state under its own role, whatever requests
-- internal/api/handler_mfa.go serves.
use yvonne.Base.{
  ℕ, Str, str_eq, str_eq_iff, lookup-insert, lookup-remove, [], Bool, ◌||◌, Option, none, some, ◌≡◌,
  inl, inr, refl, sym, ap, ◌∙◌, Bool-cases, Option-cases,
}
use yvonne.Auth.Policy.Defs.{Policy}
use yvonne.Auth.Approval.Handlers.{
  Body, read_failed, invalid_json, parsed, Method, get, post, other,
}
use yvonne.Auth.Mfa.Totp.{generate_totp_secret}
use yvonne.Auth.Mfa.Handlers.{
  MfaState, MfaStore, Outcome, get_mfa_state, save_mfa_state, delete_mfa_state, bind_secret,
  with_valid_code, MfaCodeRequest, handle_mfa_setup, handle_mfa_verify, handle_mfa_disable,
}
use yvonne.Auth.Mfa.Setup.{Request, setup, verify, disable, IsKeyed, serve, saved_elsewhere}

none_ne_some {ℓ} : {A : Type ℓ} {x : A} → ¬ none ≡ some x
none_ne_some e = cc

module _ (now : ℕ) (random : ℕ → Option Str) (encode : Str → Str) (valid : Str → Str → Bool) where
  saved-IsKeyed : (s : MfaStore) (state : MfaState) → IsKeyed s → IsKeyed (save_mfa_state s state)
  unfolding get_mfa_state save_mfa_state
  saved-IsKeyed s state keyed j found e = elim (Bool-cases (str_eq state.role_id j)) [
    | inl same ↦
        let here : some state ≡ some found =
          sym (lookup-insert state.role_id j state s ∙ rw same refl) ∙ e in
        let it : state ≡ found = cc in
        ap (λ m. m.role_id) (sym it) ∙ (str_eq_iff state.role_id j).0 same
    | inr elsewhere ↦ keyed j found (sym (saved_elsewhere s j state elsewhere) ∙ e)
  ]

  deleted-IsKeyed :
      (s : MfaStore) (role_id : Str) → IsKeyed s → IsKeyed (delete_mfa_state s role_id)
  unfolding get_mfa_state delete_mfa_state
  deleted-IsKeyed s role_id keyed j found e = elim (Bool-cases (str_eq role_id j)) [
    | inl gone ↦ absurd (none_ne_some (sym (lookup-remove role_id j s ∙ rw gone refl) ∙ e))
    | inr elsewhere ↦ keyed j found (sym (lookup-remove role_id j s ∙ rw elsewhere refl) ∙ e)
  ]

  code_keeps :
      (s : MfaStore) (method : Method) (body : Body MfaCodeRequest) (act : Str → MfaState → Outcome)
      → ((role_id : Str) (state : MfaState) → IsKeyed (act role_id state).1)
      → IsKeyed s
      → IsKeyed (with_valid_code valid method body s act).1
  code_keeps s get body act acts keyed = keyed
  code_keeps s other body act acts keyed = keyed
  code_keeps s post read_failed act acts keyed = keyed
  code_keeps s post invalid_json act acts keyed = keyed
  code_keeps s post (parsed b) act acts keyed =
      elim (Bool-cases (str_eq b.role_id [] || str_eq b.code [])) [
        | inl missing ↦ rw missing keyed
        | inr given ↦ elim (Option-cases (get_mfa_state s b.role_id)) [
          | inl unknown ↦ rw (given, unknown) keyed
          | inr (state, found) ↦ elim (Bool-cases (valid state.secret b.code)) [
            | inr wrong ↦ rw (given, found, wrong) keyed
            | inl right ↦ rw (given, found, right) (acts b.role_id state)
          ]
        ]
      ]

  setup_keeps :
      (s : MfaStore) (policy : Option Policy) (method : Method) (body : Body Str)
      → IsKeyed s
      → IsKeyed (handle_mfa_setup now random encode policy method body s).1
  unfolding handle_mfa_setup
  setup_keeps s policy get body keyed = keyed
  setup_keeps s policy other body keyed = keyed
  setup_keeps s policy post read_failed keyed = keyed
  setup_keeps s policy post invalid_json keyed = keyed
  setup_keeps s none post (parsed role_id) keyed = elim (Bool-cases (str_eq role_id [])) [
    | inl unnamed ↦ rw (handle_mfa_setup, unnamed) keyed
    | inr named ↦ rw (handle_mfa_setup, named) keyed
  ]
  setup_keeps s (some p) post (parsed role_id) keyed = elim (Bool-cases (str_eq role_id [])) [
    | inl unnamed ↦ rw (handle_mfa_setup, unnamed) keyed
    | inr named ↦ elim (Bool-cases (str_eq p.role_id role_id)) [
      | inr foreign ↦ rw (handle_mfa_setup, named, foreign) keyed
      | inl own ↦ rw (handle_mfa_setup, named, own) (bound (generate_totp_secret random encode))
    ]
  ]
    where
      bound : (secret : Option Str) → IsKeyed (bind_secret now s role_id secret).1
      bound none = keyed
      bound (some secret) = saved-IsKeyed s _ keyed

  -- Every request leaves the states of the store under their own roles.
  pub serve-IsKeyed :
      (s : MfaStore) (r : Request) → IsKeyed s → IsKeyed (serve now random encode valid s r)
  unfolding serve handle_mfa_verify handle_mfa_disable
  serve-IsKeyed s (setup policy method body) keyed = setup_keeps s policy method body keyed
  serve-IsKeyed s (verify method body) keyed =
      code_keeps s method body _ (λ role_id state. saved-IsKeyed s _ keyed) keyed
  serve-IsKeyed s (disable method body) keyed =
      code_keeps s method body _ (λ role_id state. deleted-IsKeyed s role_id keyed) keyed

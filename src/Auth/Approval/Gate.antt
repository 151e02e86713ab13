-- ===== src/Auth/Approval/Gate.antt =====
-- internal/api/middleware_mfa.go: what a sensitive operation passes before its handler runs.
use yvonne.Base.{
  ℕ, zero, suc, ◌<◌, Str, codes, str_eq, str_eq_iff, str_ne, [], ◌∷◌, Bool, true, false, ◌||◌, not,
  Option, none, some, ◌≡◌, ◌≢◌, refl, ◌↔◌, arith, ap, sym, subst, ◌∙◌, if◌then◌else◌,
}
use yvonne.Auth.Policy.Defs.{Policy}
use yvonne.Auth.Mfa.Handlers.{MfaState}
use yvonne.Auth.Approval.Defs.{ApprovalTicket, Tickets, is_approved, get_ticket}

-- `next` is called, or the request ends with that status.
pub data Passage : Type 0 where
  forwarded : Passage
  stopped : ℕ → Passage

unfoldable pub sensitive_operations : Str → Bool
sensitive_operations action =
    str_eq action (codes "ShredKey")
    || str_eq action (codes "EmergencySeal")
    || str_eq action (codes "ExportKey")
    || str_eq action (codes "SoftDeleteKey")

-- What GetTicket found must be an approved ticket of that operation.
unfoldable pub ticket_check : Str → Option ApprovalTicket → Option ℕ
ticket_check action none = some 404
ticket_check action (some t) =
    if not (is_approved t.status)
    then some 403
    else if not (str_eq t.operation action)
    then some 403
    else none

-- The quorum check: the status that ends the request, or `none` to go on.
unfoldable pub quorum_check : Str → ℕ → Option Tickets → Str → Option ℕ
quorum_check action zero store ticket_id = none
quorum_check action (suc k) none ticket_id = none
quorum_check action (suc k) (some s) [] = some 202
quorum_check action (suc k) (some s) (c ∷ ticket_id) =
    ticket_check action (get_ticket s (c ∷ ticket_id))

-- The code must be valid for the secret of an enabled state.
unfoldable pub code_check : (Str → Str → Bool) → Option MfaState → Str → Option ℕ
code_check valid none code = some 403
code_check valid (some state) code =
    if not state.enabled
    then some 403
    else if str_eq code []
    then some 401
    else if not (valid state.secret code)
    then some 403
    else none

-- The MFA check: `states` is GetMFAState, `valid` is ValidateTOTP at the time of the request.
unfoldable pub mfa_check :
    (Str → Str → Bool) → Policy → Option (Str → Option MfaState) → Str → Option ℕ
mfa_check valid p states code = if not p.require_mfa then none else elim states [
  | none ↦ some 503
  | some get_mfa_state ↦ code_check valid (get_mfa_state p.role_id) code
]

unfoldable pub passage : Option ℕ → Option ℕ → Passage
passage (some status) after = stopped status
passage none (some status) = stopped status
passage none none = forwarded

-- mfaMiddleware
unfoldable pub mfa_middleware :
    (Str → Str → Bool)
    → Str
    → Option Policy
    → Option Tickets
    → Str
    → Option (Str → Option MfaState)
    → Str
    → Passage
mfa_middleware valid action policy store ticket_id states code =
    if not (sensitive_operations action) then forwarded else elim policy [
      | none ↦ forwarded
      | some p ↦
          passage (quorum_check action p.require_quorum store ticket_id)
            (mfa_check valid p states code)
    ]

-- An approved ticket for the action stands in the store under that id.
abbrev pub HasApproval : Str → Tickets → Str → Type 0
HasApproval action s ticket_id =
    (ticket_id ≢ [])
    × (t : ApprovalTicket) × (get_ticket s ticket_id ≡ some t)
    × (is_approved t.status ≡ true)
    × (t.operation ≡ action)

-- The role has an enabled secret that the code is valid for.
abbrev pub HasSecondFactor : (Str → Str → Bool) → (Str → Option MfaState) → Str → Str → Type 0
HasSecondFactor valid states role_id code =
    (code ≢ [])
    × (state : MfaState) × (states role_id ≡ some state)
    × (state.enabled ≡ true)
    × (valid state.secret code ≡ true)

some_ne_none {ℓ} : {A : Type ℓ} {x : A} → ¬ some x ≡ none
some_ne_none e = cc

none_ne_some {ℓ} : {A : Type ℓ} {x : A} → ¬ none ≡ some x
none_ne_some e = cc

some_value {ℓ} : {A : Type ℓ} {x y : A} → some x ≡ some y → x ≡ y
some_value e = cc

-- Two guards in a row let a request on only if both tests hold.
both_hold :
    (b c : Bool) (x y : ℕ)
    → ((if not b then some x else if not c then some y else none) ≡ none)
      ↔ ((b ≡ true) × (c ≡ true))
both_hold b c x y = ground arith

ticket_check_iff :
    (action : Str) (found : Option ApprovalTicket)
    → (ticket_check action found ≡ none) ↔ (
        (t : ApprovalTicket) × (found ≡ some t)
        × (is_approved t.status ≡ true)
        × (t.operation ≡ action))
unfolding ticket_check
ticket_check_iff action none =
    (λ q. absurd (some_ne_none q), λ (t, e, a, o). absurd (none_ne_some e))
ticket_check_iff action (some t) =
    let both = both_hold (is_approved t.status) (str_eq t.operation action) 403 403 in
    let op = str_eq_iff t.operation action in
    (
      λ q. (t, refl, (both.0 q).0, op.0 (both.0 q).1),
      λ (u, e, a, o). both.1 (
        subst (λ v. is_approved v.status ≡ true) (sym (some_value e)) a,
        op.1 (ap (λ v. v.operation) (some_value e) ∙ o),
      ),
    )

quorum_check_iff :
    (action : Str) (k : ℕ) (s : Tickets) (ticket_id : Str)
    → (quorum_check action k (some s) ticket_id ≡ none) ↔ (0 < k → HasApproval action s ticket_id)
unfolding quorum_check
quorum_check_iff action zero s ticket_id = (λ e h. absurd (omega arith), λ f. refl)
quorum_check_iff action (suc k) s [] =
    (λ e h. absurd (some_ne_none e), λ f. absurd ((f (omega arith)).0 refl))
quorum_check_iff action (suc k) s (c ∷ id) =
    let found = ticket_check_iff action (get_ticket s (c ∷ id)) in
    (
      λ q h. let (t, e, a, o) = found.0 q in (λ ne. cc, t, e, a, o),
      λ f. let (ne, t, e, a, o) = f (omega arith) in found.1 (t, e, a, o),
    )

code_check_iff :
    (valid : Str → Str → Bool) (found : Option MfaState) (code : Str)
    → (code_check valid found code ≡ none) ↔ (
        (code ≢ [])
        × (state : MfaState) × (found ≡ some state)
        × (state.enabled ≡ true)
        × (valid state.secret code ≡ true))
unfolding code_check
code_check_iff valid none code =
    (λ q. absurd (some_ne_none q), λ (ne, t, e, a, o). absurd (none_ne_some e))
code_check_iff valid (some state) code = (
  λ q. (λ ne. ground (arith, str_eq_iff code []), state, refl, ground arith, ground arith),
  λ (ne, u, e, a, o).
      rw
        (
          subst (λ v. v.enabled ≡ true) (sym (some_value e)) a,
          str_ne code [] ne,
          subst (λ v. valid v.secret code ≡ true) (sym (some_value e)) o,
        )
        refl,
)

passage_iff : (a b : Option ℕ) → (passage a b ≡ forwarded) ↔ ((a ≡ none) × (b ≡ none))
unfolding passage
passage_iff none none = (λ e. (refl, refl), λ p. refl)
passage_iff none (some y) = (λ e. absurd (cc), λ p. absurd (some_ne_none p.1))
passage_iff (some x) b = (λ e. absurd (cc), λ p. absurd (some_ne_none p.0))

-- A check that only some requests need.
needed_iff {ℓ} :
    {P : Type ℓ} (b : Bool) (o : Option ℕ)
    → (o ≡ none) ↔ P
    → ((if not b then none else o) ≡ none) ↔ (b ≡ true → P)
needed_iff true o f = (λ e h. f.0 e, λ g. f.1 (g refl))
needed_iff false o f = (λ e h. absurd (cc), λ g. refl)

pub mfa_check_iff :
    (valid : Str → Str → Bool) (p : Policy) (states : Str → Option MfaState) (code : Str)
    → (mfa_check valid p (some states) code ≡ none)
      ↔ (p.require_mfa ≡ true → HasSecondFactor valid states p.role_id code)
unfolding mfa_check
mfa_check_iff valid p states code =
    needed_iff p.require_mfa (code_check valid (states p.role_id) code)
      (code_check_iff valid (states p.role_id) code)

-- A sensitive request of a role is forwarded, where both stores are configured, exactly if the
-- role needs no quorum or shows the id of an approved ticket for the operation, and needs no second
-- factor or shows a code that is valid for its enabled secret.
pub mfa_middleware_iff :
    (valid : Str → Str → Bool) (action : Str) (p : Policy) (s : Tickets) (ticket_id : Str)
    (states : Str → Option MfaState) (code : Str)
    → sensitive_operations action ≡ true
    → (mfa_middleware valid action (some p) (some s) ticket_id (some states) code ≡ forwarded) ↔ (
        (0 < p.require_quorum → HasApproval action s ticket_id)
        × (p.require_mfa ≡ true → HasSecondFactor valid states p.role_id code))
unfolding mfa_middleware
mfa_middleware_iff valid action p s ticket_id states code h =
    let q = quorum_check_iff action p.require_quorum s ticket_id in
    let m = mfa_check_iff valid p states code in
    let both =
      passage_iff (quorum_check action p.require_quorum (some s) ticket_id)
        (mfa_check valid p (some states) code) in
    rw h (λ e. (q.0 (both.0 e).0, m.0 (both.0 e).1), λ f. both.1 (q.1 f.0, m.1 f.1))

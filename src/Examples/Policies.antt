-- ===== src/Examples/Policies.antt =====
-- The policies, tenants and approvals of internal/auth, run on small inputs.
use yvonne.Base.{
  lookup, ℕ, ◌<◌, ◌↔◌, Str, codes, str_eq, List, [], ◌∷◌, some, Option, true, Bool, ◌≡◌, refl,
  arith,
}
use yvonne.Auth.Policy.Defs.{Policy}
use yvonne.Auth.Approval.Defs.{
  ApprovalTicket, ApprovalStatus, Tickets, is_pending, is_expired, has_approved, has_role_id,
  get_ticket,
}
use yvonne.Auth.Approval.Handlers.{parsed, post, pos, CreateApprovalRequest, add_approver}
use yvonne.Auth.Approval.Races.{overwritten_store, approval_overwrites_rejection}
use yvonne.Auth.Approval.Serving.{Request, create, approve, serve_all}
use yvonne.Auth.Approval.Invariant.{Holds, serve_all-Holds}
use yvonne.Auth.Mfa.Handlers.{MfaState}
use yvonne.Auth.Approval.Gate.{
  forwarded, mfa_middleware, mfa_middleware_iff, sensitive_operations, HasApproval, HasSecondFactor,
}

abbrev policy_of : Str → Policy
policy_of role_id = record {
  role_id = role_id;
  allowed_keys = codes "app-*" ∷ [];
  allowed_actions = codes "*" ∷ [];
  require_mfa = true;
  require_quorum = 2;
  approver_roles = [];
  tenant_id = [];
}

-- Two roles approve a ticket that a third one asked for.
abbrev body : CreateApprovalRequest
body = record {
  operation = codes "ShredKey";
  key_id = codes "k";
  required = pos 2;
  ttl_hours = pos 0;
}

abbrev requests : List (ℕ × Request)
requests =
    (1, create (codes "id") (some (policy_of (codes "ops"))) (parsed body))
    ∷ (2, approve (some (policy_of (codes "ann"))) post (parsed (codes "id")))
    ∷ (3, approve (some (policy_of (codes "bob"))) post (parsed (codes "id")))
    ∷ []

serve_all_example : Holds (serve_all (some []) requests)
serve_all_example = serve_all-Holds (some []) requests tt

abbrev ticket : ApprovalTicket
ticket = record {
  id = codes "id";
  operation = codes "ShredKey";
  key_id = codes "k";
  requested_by = codes "ops";
  approvers = codes "ann" ∷ codes "bob" ∷ [];
  rejectors = [];
  required = 2;
  status = ApprovalStatus.approved;
  created_at = 1;
  expires_at = 9;
  resolved_at = 3;
}

abbrev states : Str → Option MfaState
states role_id = some (record {
  role_id = role_id;
  secret = codes "secret";
  enabled = true;
  created_at = 0;
  verified_at = some 0;
})

sensitive : sensitive_operations (codes "ShredKey") ≡ true
unfolding sensitive_operations str_eq
sensitive = refl

mfa_middleware_example :
    (mfa_middleware
        (λ secret code. true)
        (codes "ShredKey")
        (some (policy_of (codes "ops")))
        (some ((codes "id", ticket) ∷ []))
        (codes "id")
        (some states)
        (codes "123456")
      ≡ forwarded)
    ↔ ((0 < 2 → HasApproval (codes "ShredKey") ((codes "id", ticket) ∷ []) (codes "id"))
        × (◌≡◌ {A = Bool} true true
            → HasSecondFactor (λ secret code. true) states (codes "ops") (codes "123456")))
mfa_middleware_example =
    mfa_middleware_iff (λ secret code. true) (codes "ShredKey") (policy_of (codes "ops"))
      ((codes "id", ticket) ∷ []) (codes "id") states (codes "123456") sensitive

-- The ticket before bob's approval, which eve rejects meanwhile.
abbrev open_ticket : ApprovalTicket
open_ticket = record ticket { approvers = codes "ann" ∷ []; status = ApprovalStatus.pending }

abbrev open_tickets : Tickets
open_tickets = (codes "id", open_ticket) ∷ []

held : get_ticket open_tickets (codes "id") ≡ some open_ticket
unfolding get_ticket lookup str_eq
held = refl

approval_overwrites_rejection_example :
    get_ticket
      (overwritten_store 5 open_tickets open_ticket (codes "eve") (codes "bob"))
      (codes "id")
    ≡ some (add_approver 5 open_ticket (codes "bob"))
approval_overwrites_rejection_example =
    (approval_overwrites_rejection 5 open_tickets open_ticket (codes "eve") (codes "bob") held
      (unfold is_pending in refl) (unfold is_expired in refl) (unfold str_eq in refl)
      (unfold has_approved has_role_id str_eq in refl) (omega arith)).4

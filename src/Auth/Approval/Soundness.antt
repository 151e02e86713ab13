-- ===== src/Auth/Approval/Soundness.antt =====
-- What holds of a ticket, and that the changes that the handlers make keep it
-- (internal/api/handler_approval.go).
use yvonne.Base.{
  ℕ, ◌<◌, ◌≤◌, Str, str_eq, str_eq_iff, List, [], ◌∷◌, ◌++◌, true, false, some, ◌≡◌, refl, arith,
  length, length-append,
}
use yvonne.Auth.Policy.Defs.{Policy}
use yvonne.Auth.Approval.Defs.{
  ApprovalTicket, is_pending, is_approved, has_role_id, has_approved, is_approval_complete, expire,
}
use yvonne.Auth.Approval.Handlers.{
  CreateApprovalRequest, at_least_one, new_ticket, add_approver, add_rejector, ℤ,
}

-- No role stands twice.
pub IsDistinct : List Str → Type 0
IsDistinct [] = Unit
IsDistinct (a ∷ roles) = (has_role_id roles a ≡ false) × IsDistinct roles

pub record IsSound (t : ApprovalTicket) : Type 0 where
  pub needs_one : 0 < t.required
  pub by_quorum : is_approved t.status ≡ true → t.required ≤ length t.approvers
  pub still_short : is_pending t.status ≡ true → length t.approvers < t.required
  pub distinct : IsDistinct t.approvers
  pub not_own : has_approved t t.requested_by ≡ false

has_role_id-append :
    (roles : List Str) (a b : Str)
    → has_role_id roles b ≡ false
    → str_eq a b ≡ false
    → has_role_id (roles ++ a ∷ []) b ≡ false
unfolding has_role_id
has_role_id-append [] a b h e = ground arith
has_role_id-append (r ∷ roles) a b h e = ground (arith, has_role_id-append roles a b)

IsDistinct-append :
    (roles : List Str) (a : Str)
    → IsDistinct roles
    → has_role_id roles a ≡ false
    → IsDistinct (roles ++ a ∷ [])
unfolding IsDistinct has_role_id
IsDistinct-append [] a d h = (refl, tt)
IsDistinct-append (r ∷ roles) a d h = ground (
  arith,
  has_role_id-append roles a r d.0,
  IsDistinct-append roles a d.1,
  str_eq_iff r a,
  str_eq_iff a r,
)

pub at_least_one-positive : (z : ℤ) (k : ℕ) → at_least_one z ≡ some k → 0 < k
unfolding at_least_one
at_least_one-positive z k h = ground arith

pub new_ticket-IsSound :
    (now : ℕ) (uuid : Str) (p : Policy) (body : CreateApprovalRequest) (required : ℕ)
    → at_least_one body.required ≡ some required
    → IsSound (new_ticket now uuid p body required)
unfolding new_ticket is_approved is_pending has_approved
new_ticket-IsSound now uuid p body required h = record {
  needs_one = at_least_one-positive body.required required h;
  by_quorum = λ e. absurd cc;
  still_short = λ e. at_least_one-positive body.required required h;
  distinct = unfold IsDistinct in tt;
  not_own = unfold has_role_id in refl;
}

pub expire-IsSound : (now : ℕ) (t : ApprovalTicket) → IsSound t → IsSound (expire now t)
unfolding expire is_approved is_pending has_approved
expire-IsSound now t h = ground arith

pub add_rejector-IsSound :
    (now : ℕ) (t : ApprovalTicket) (role_id : Str)
    → IsSound t
    → IsSound (add_rejector now t role_id)
unfolding add_rejector is_approved is_pending has_approved
add_rejector-IsSound now t role_id h = ground arith

pub add_approver-IsSound :
    (now : ℕ) (t : ApprovalTicket) (role_id : Str)
    → IsSound t
    → is_pending t.status ≡ true
    → str_eq t.requested_by role_id ≡ false
    → has_approved t role_id ≡ false
    → IsSound (add_approver now t role_id)
unfolding add_approver is_approved is_pending has_approved is_approval_complete
add_approver-IsSound now t role_id h waiting foreign fresh = ground (
  arith,
  length-append t.approvers (role_id ∷ []),
  IsDistinct-append t.approvers role_id h.distinct fresh,
  has_role_id-append t.approvers role_id t.requested_by h.not_own,
  str_eq_iff role_id t.requested_by,
  str_eq_iff t.requested_by role_id,
)

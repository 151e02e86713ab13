-- ===== src/Auth/Approval/Handlers.antt =====
-- internal/api/handler_approval.go. A handler takes the time, the store if one is configured, the
-- body as read, and the policy of the request; the text of an error is left out.
use yvonne.Base.{
  ℕ, zero, suc, ◌+◌, ◌-◌, ◌*◌, ◌%◌, ◌^◌, Str, str_eq, List, [], ◌∷◌, ◌++◌, Option, none, some, ltb,
  not, ◌==◌, length, if◌then◌else◌, ◌⊎◌, inl, inr,
}
use yvonne.Auth.Policy.Defs.{Policy}
use yvonne.Auth.Approval.Defs.{
  ApprovalStatus, ApprovalTicket, ApprovalErr, Tickets, is_pending, is_expired, has_approved,
  has_rejected, is_approval_complete, create_ticket, get_ticket, update_ticket, list_pending,
  expire,
}

-- What io.ReadAll and json.Unmarshal give.
pub data Body (A : Type 0) : Type 0 where
  read_failed : Body A
  invalid_json : Body A
  parsed : A → Body A

-- Go's `int`.
pub data ℤ : Type 0 where
  pos : ℕ → ℤ
  negsuc : ℕ → ℤ

pub record CreateApprovalRequest : Type 0 where
  pub operation : Str
  pub key_id : Str
  pub required : ℤ
  pub ttl_hours : ℤ

pub data Response : Type 0 where
  json_error : ℕ → Response
  ok_ticket : ApprovalTicket → Response
  ok_tickets : List ApprovalTicket → ℕ → Response

pub data Method : Type 0 where
  get : Method
  post : Method
  other : Method

abbrev pub hour : ℕ
hour = 3600000000000

-- A 64-bit pattern read as a signed number.
unfoldable pub to_int64 : ℕ → ℤ
to_int64 n = if ltb n (2 ^ 63) then pos n else negsuc (2 ^ 64 - n - 1)

-- `time.Duration(ttlHours) * time.Hour`, which wraps; 24 hours where the request gives none.
unfoldable pub time_to_live : ℤ → ℤ
time_to_live (pos n) = to_int64 ((if n == 0 then 24 else n) * hour % 2 ^ 64)
time_to_live (negsuc n) = to_int64 ((2 ^ 64 - suc n * hour % 2 ^ 64) % 2 ^ 64)

-- time.Time.Add
unfoldable pub add_duration : ℕ → ℤ → ℕ
add_duration now (pos d) = now + d
add_duration now (negsuc d) = now - suc d

-- The guard `Required < 1`: the number of approvals where it passes.
unfoldable pub at_least_one : ℤ → Option ℕ
at_least_one (pos zero) = none
at_least_one (pos (suc k)) = some (suc k)
at_least_one (negsuc n) = none

unfoldable pub new_ticket : ℕ → Str → Policy → CreateApprovalRequest → ℕ → ApprovalTicket
new_ticket now uuid policy body required = record {
  id = uuid;
  operation = body.operation;
  key_id = body.key_id;
  requested_by = policy.role_id;
  approvers = [];
  rejectors = [];
  required = required;
  status = ApprovalStatus.pending;
  created_at = now;
  expires_at = add_duration now (time_to_live body.ttl_hours);
  resolved_at = 0;
}

abbrev pub Outcome : Type 0
Outcome = Response × Option Tickets

-- What a handler answers once it has written its ticket: the ticket, or a 500.
unfoldable pub written : Tickets → ApprovalTicket → Tickets ⊎ ApprovalErr → Outcome
written before t (inl after) = (ok_ticket t, some after)
written before t (inr e) = (json_error 500, some before)

-- handleCreateApproval after the body's operation is seen to be there.
unfoldable pub create_checked :
    ℕ → Str → Option Tickets → Option Policy → CreateApprovalRequest → Option ℕ → Outcome
create_checked now uuid store policy body none = (json_error 400, store)
create_checked now uuid store none body (some required) = (json_error 403, store)
create_checked now uuid none (some p) body (some required) = (json_error 503, none)
create_checked now uuid (some s) (some p) body (some required) =
    let t = new_ticket now uuid p body required in written s t (create_ticket s t)

-- handleCreateApproval; `uuid` is generateUUID's.
unfoldable pub handle_create_approval :
    ℕ → Str → Option Tickets → Option Policy → Body CreateApprovalRequest → Outcome
handle_create_approval now uuid store policy read_failed = (json_error 400, store)
handle_create_approval now uuid store policy invalid_json = (json_error 400, store)
handle_create_approval now uuid store policy (parsed body) =
    if str_eq body.operation []
    then (json_error 400, store)
    else create_checked now uuid store policy body (at_least_one body.required)

-- handleGetApproval
unfoldable pub handle_get_approval : Option Tickets → Str → Outcome
handle_get_approval store [] = (json_error 400, store)
handle_get_approval none (c ∷ id) = (json_error 503, none)
handle_get_approval (some s) (c ∷ id) = elim (get_ticket s (c ∷ id)) [
  | none ↦ (json_error 404, some s)
  | some t ↦ (ok_ticket t, some s)
]

-- handleListApprovals
unfoldable pub handle_list_approvals : Option Tickets → Outcome
handle_list_approvals none = (json_error 503, none)
handle_list_approvals (some s) = (ok_tickets (list_pending s) (length (list_pending s)), some s)

-- handleApprovals, by the request's method; `id` is the query's parameter.
unfoldable pub handle_approvals :
    ℕ → Str → Option Tickets → Option Policy → Method → Str → Body CreateApprovalRequest → Outcome
handle_approvals now uuid store policy post id body =
    handle_create_approval now uuid store policy body
handle_approvals now uuid store policy get [] body = handle_list_approvals store
handle_approvals now uuid store policy get (c ∷ id) body = handle_get_approval store (c ∷ id)
handle_approvals now uuid store policy other id body = (json_error 405, store)

-- What the store found, or a 404.
unfoldable pub act_on_found :
    Tickets → Str → (Tickets → ApprovalTicket → Str → Outcome) → Option ApprovalTicket → Outcome
act_on_found s role_id act none = (json_error 404, some s)
act_on_found s role_id act (some t) = act s t role_id

-- The guards that handleApprove and handleReject share, then `act` on the ticket that they find.
unfoldable pub with_ticket :
    Option Tickets
    → Option Policy
    → Method
    → Body Str
    → (Tickets → ApprovalTicket → Str → Outcome)
    → Outcome
with_ticket store policy get body act = (json_error 405, store)
with_ticket store policy other body act = (json_error 405, store)
with_ticket store policy post read_failed act = (json_error 400, store)
with_ticket store policy post invalid_json act = (json_error 400, store)
with_ticket store policy post (parsed []) act = (json_error 400, store)
with_ticket store none post (parsed (c ∷ id)) act = (json_error 403, store)
with_ticket none (some p) post (parsed (c ∷ id)) act = (json_error 503, none)
with_ticket (some s) (some p) post (parsed (c ∷ id)) act =
    act_on_found s p.role_id act (get_ticket s (c ∷ id))

-- `_ = UpdateTicket(ticket)`
unfoldable pub update_ignoring_error : Tickets → ApprovalTicket → Tickets
update_ignoring_error s t = elim (update_ticket s t) [ inl after ↦ after | inr e ↦ s ]

-- The ticket with one more approver, approved if that completes it.
unfoldable pub add_approver : ℕ → ApprovalTicket → Str → ApprovalTicket
add_approver now t role_id =
    let more = record t { approvers = t.approvers ++ role_id ∷ [] } in
    if is_approval_complete more
    then record more { status = ApprovalStatus.approved; resolved_at = now }
    else more

-- The part of handleApprove that has a ticket.
unfoldable pub approve_ticket : ℕ → Tickets → ApprovalTicket → Str → Outcome
approve_ticket now s t role_id =
    if not (is_pending t.status)
    then (json_error 409, some s)
    else if is_expired now t
    then (json_error 409, some (update_ignoring_error s (expire now t)))
    else if str_eq t.requested_by role_id
    then (json_error 403, some s)
    else if has_approved t role_id
    then (json_error 409, some s)
    else let more = add_approver now t role_id in written s more (update_ticket s more)

-- handleApprove
unfoldable pub handle_approve : ℕ → Option Tickets → Option Policy → Method → Body Str → Outcome
handle_approve now store policy method body =
    with_ticket store policy method body (approve_ticket now)

-- The ticket rejected by the role.
unfoldable pub add_rejector : ℕ → ApprovalTicket → Str → ApprovalTicket
add_rejector now t role_id = record t {
  rejectors = (if has_rejected t role_id then t.rejectors else t.rejectors ++ role_id ∷ []);
  status = ApprovalStatus.rejected;
  resolved_at = now;
}

-- The part of handleReject that has a ticket.
unfoldable pub reject_ticket : ℕ → Tickets → ApprovalTicket → Str → Outcome
reject_ticket now s t role_id =
    if not (is_pending t.status)
    then (json_error 409, some s)
    else let closed = add_rejector now t role_id in written s closed (update_ticket s closed)

-- handleReject
unfoldable pub handle_reject : ℕ → Option Tickets → Option Policy → Method → Body Str → Outcome
handle_reject now store policy method body =
    with_ticket store policy method body (reject_ticket now)

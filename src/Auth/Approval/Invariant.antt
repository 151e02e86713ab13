-- ===== src/Auth/Approval/Invariant.antt =====
-- The invariant of the ticket store under every sequence of requests
-- (internal/api/handler_approval.go, internal/auth/approval_store_memory.go).
use yvonne.Base.{
  ℕ, suc, Str, str_eq, lookup, insert, AllValues, AllValues-remove, AllValues-insert,
  AllValues-lookup, List, [], ◌∷◌, Bool, true, false, not, ◌&&◌, Option, none, some, ◌≡◌, refl,
  subst, arith, if◌then◌else◌, ◌⊎◌, inl, inr,
}
use yvonne.Auth.Policy.Defs.{Policy}
use yvonne.Auth.Approval.Defs.{
  ApprovalTicket, ApprovalErr, Tickets, is_pending, has_approved, is_expired, create_ticket,
  get_ticket, update_ticket, delete_ticket, expire, cleanup_expired,
}
use yvonne.Auth.Approval.Handlers.{
  Body, read_failed, invalid_json, parsed, CreateApprovalRequest, Method, get, post, other, Outcome,
  at_least_one, new_ticket, written, create_checked, act_on_found, handle_create_approval,
  with_ticket, update_ignoring_error, add_approver, approve_ticket, handle_approve, add_rejector,
  reject_ticket, handle_reject,
}
use yvonne.Auth.Approval.Soundness.{
  IsSound, new_ticket-IsSound, expire-IsSound, add_rejector-IsSound, add_approver-IsSound,
}
use yvonne.Auth.Approval.Serving.{
  Request, create, approve, reject, cleanup, delete, serve, serve_all,
}

abbrev pub AllSound : Tickets → Type 0
AllSound s = AllValues IsSound s

abbrev pub Holds : Option Tickets → Type 0
Holds none = Unit
Holds (some s) = AllSound s

written-Holds :
    (s : Tickets) (t : ApprovalTicket) (r : Tickets ⊎ ApprovalErr)
    → AllSound s
    → ((after : Tickets) → r ≡ inl after → AllSound after)
    → Holds (written s t r).1
unfolding written
written-Holds s t (inl after) h f = f after refl
written-Holds s t (inr e) h f = h

if-Holds :
    (b : Bool) (x y : Outcome)
    → (b ≡ true → Holds x.1)
    → (b ≡ false → Holds y.1)
    → Holds (if b then x else y).1
if-Holds true x y f g = f refl
if-Holds false x y f g = g refl

-- The store after a write is the old one with the ticket put in it.
create_ticket-inl :
    (s : Tickets) (t : ApprovalTicket) (after : Tickets)
    → create_ticket s t ≡ inl after
    → insert t.id t s ≡ after
unfolding create_ticket
create_ticket-inl s t after e = ground arith

update_ticket-inl :
    (s : Tickets) (t : ApprovalTicket) (after : Tickets)
    → update_ticket s t ≡ inl after
    → insert t.id t s ≡ after
unfolding update_ticket
update_ticket-inl s t after e = ground arith

create_ticket-AllSound :
    (s : Tickets) (t : ApprovalTicket) (after : Tickets)
    → AllSound s
    → IsSound t
    → create_ticket s t ≡ inl after
    → AllSound after
create_ticket-AllSound s t after h ht e =
    subst AllSound (create_ticket-inl s t after e) (AllValues-insert IsSound t.id t s ht h)

update_ticket-AllSound :
    (s : Tickets) (t : ApprovalTicket) (after : Tickets)
    → AllSound s
    → IsSound t
    → update_ticket s t ≡ inl after
    → AllSound after
update_ticket-AllSound s t after h ht e =
    subst AllSound (update_ticket-inl s t after e) (AllValues-insert IsSound t.id t s ht h)

update_ignoring_error-cases :
    (s : Tickets) (t : ApprovalTicket)
    → (insert t.id t s ≡ update_ignoring_error s t) ⊎ (s ≡ update_ignoring_error s t)
unfolding update_ignoring_error update_ticket
update_ignoring_error-cases s t = ground arith

update_ignoring_error-AllSound :
    (s : Tickets) (t : ApprovalTicket)
    → AllSound s
    → IsSound t
    → AllSound (update_ignoring_error s t)
update_ignoring_error-AllSound s t h ht = elim (update_ignoring_error-cases s t) [
  | inl e ↦ subst AllSound e (AllValues-insert IsSound t.id t s ht h)
  | inr e ↦ subst AllSound e h
]

create_checked-Holds :
    (now : ℕ) (uuid : Str) (store : Option Tickets) (policy : Option Policy)
    (body : CreateApprovalRequest) (required : Option ℕ)
    → Holds store
    → at_least_one body.required ≡ required
    → Holds (create_checked now uuid store policy body required).1
unfolding create_checked
create_checked-Holds now uuid store policy body none h e = h
create_checked-Holds now uuid store none body (some k) h e = h
create_checked-Holds now uuid none (some p) body (some k) h e = h
create_checked-Holds now uuid (some s) (some p) body (some k) h e =
    let t = new_ticket now uuid p body k in
    written-Holds s t (create_ticket s t) h
      (λ after. create_ticket-AllSound s t after h (new_ticket-IsSound now uuid p body k e))

handle_create_approval-Holds :
    (now : ℕ) (uuid : Str) (store : Option Tickets) (policy : Option Policy)
    (body : Body CreateApprovalRequest)
    → Holds store
    → Holds (handle_create_approval now uuid store policy body).1
unfolding handle_create_approval
handle_create_approval-Holds now uuid store policy read_failed h = h
handle_create_approval-Holds now uuid store policy invalid_json h = h
handle_create_approval-Holds now uuid store policy (parsed body) h =
    if-Holds (str_eq body.operation []) _ _ (λ e. h)
      (λ e. create_checked-Holds now uuid store policy body (at_least_one body.required) h refl)

act_on_found-Holds :
    (s : Tickets) (role_id : Str) (act : Tickets → ApprovalTicket → Str → Outcome)
    (found : Option ApprovalTicket)
    → AllSound s
    → ((t : ApprovalTicket) → found ≡ some t → Holds (act s t role_id).1)
    → Holds (act_on_found s role_id act found).1
unfolding act_on_found
act_on_found-Holds s role_id act none h f = h
act_on_found-Holds s role_id act (some t) h f = f t refl

with_ticket-Holds :
    (store : Option Tickets) (policy : Option Policy) (method : Method) (body : Body Str)
    (act : Tickets → ApprovalTicket → Str → Outcome)
    → Holds store
    → ((s : Tickets) (t : ApprovalTicket) (role_id : Str)
        → AllSound s
        → IsSound t
        → Holds (act s t role_id).1)
    → Holds (with_ticket store policy method body act).1
unfolding with_ticket get_ticket
with_ticket-Holds store policy get body act h f = h
with_ticket-Holds store policy other body act h f = h
with_ticket-Holds store policy post read_failed act h f = h
with_ticket-Holds store policy post invalid_json act h f = h
with_ticket-Holds store policy post (parsed []) act h f = h
with_ticket-Holds store none post (parsed (c ∷ id)) act h f = h
with_ticket-Holds none (some p) post (parsed (c ∷ id)) act h f = h
with_ticket-Holds (some s) (some p) post (parsed (c ∷ id)) act h f =
    act_on_found-Holds s p.role_id act (lookup (c ∷ id) s) h
      (λ t e. f s t p.role_id h (AllValues-lookup IsSound (c ∷ id) s t h e))

approve_ticket-Holds :
    (now : ℕ) (s : Tickets) (t : ApprovalTicket) (role_id : Str)
    → AllSound s
    → IsSound t
    → Holds (approve_ticket now s t role_id).1
unfolding approve_ticket
approve_ticket-Holds now s t role_id h ht =
    if-Holds (not (is_pending t.status)) _ _ (λ _. h)
      (λ waiting.
        if-Holds (is_expired now t) _ _
          (λ _. update_ignoring_error-AllSound s (expire now t) h (expire-IsSound now t ht))
          (λ _.
            if-Holds (str_eq t.requested_by role_id) _ _ (λ _. h)
              (λ foreign.
                if-Holds (has_approved t role_id) _ _ (λ _. h)
                  (λ fresh.
                    written-Holds s (add_approver now t role_id)
                      (update_ticket s (add_approver now t role_id)) h
                      (λ after.
                        update_ticket-AllSound s (add_approver now t role_id) after h
                          (add_approver-IsSound now t role_id ht (ground arith) foreign fresh))))))

reject_ticket-Holds :
    (now : ℕ) (s : Tickets) (t : ApprovalTicket) (role_id : Str)
    → AllSound s
    → IsSound t
    → Holds (reject_ticket now s t role_id).1
unfolding reject_ticket
reject_ticket-Holds now s t role_id h ht =
    if-Holds (not (is_pending t.status)) _ _ (λ _. h)
      (λ waiting.
        written-Holds s (add_rejector now t role_id) (update_ticket s (add_rejector now t role_id))
          h
          (λ after.
            update_ticket-AllSound s (add_rejector now t role_id) after h
              (add_rejector-IsSound now t role_id ht)))

mark-AllSound :
    (b : Bool) (now : ℕ) (id : Str) (t : ApprovalTicket) (r : Tickets × ℕ)
    → IsSound t
    → AllSound r.0
    → AllSound
        (if◌then◌else◌ {A = Tickets × ℕ} b
          ((id, expire now t) ∷ r.0, suc r.1)
          ((id, t) ∷ r.0, r.1)).0
mark-AllSound true now id t r ht h = (expire-IsSound now t ht, h)
mark-AllSound false now id t r ht h = (ht, h)

cleanup_expired-AllSound : (now : ℕ) (s : Tickets) → AllSound s → AllSound (cleanup_expired now s).0
unfolding cleanup_expired
cleanup_expired-AllSound now [] h = tt
cleanup_expired-AllSound now ((id, t) ∷ s) h =
    mark-AllSound (is_pending t.status && is_expired now t) now id t (cleanup_expired now s) h.0
      (cleanup_expired-AllSound now s h.1)

serve-Holds :
    (store : Option Tickets) (now : ℕ) (r : Request) → Holds store → Holds (serve store now r)
unfolding serve
serve-Holds store now (create uuid policy body) h =
    handle_create_approval-Holds now uuid store policy body h
serve-Holds store now (approve policy method body) h =
    unfold handle_approve in
    with_ticket-Holds store policy method body (approve_ticket now) h (approve_ticket-Holds now)
serve-Holds store now (reject policy method body) h =
    unfold handle_reject in
    with_ticket-Holds store policy method body (reject_ticket now) h (reject_ticket-Holds now)
serve-Holds none now cleanup h = h
serve-Holds (some s) now cleanup h = cleanup_expired-AllSound now s h
serve-Holds none now (delete id) h = h
serve-Holds (some s) now (delete id) h = unfold delete_ticket in AllValues-remove IsSound id s h

-- Whatever requests are served, a ticket that was sound or is created stays sound: it is approved
-- only with as many approvers as it requires, of whom no two are equal and none is the requester,
-- and it is pending only with fewer.
pub serve_all-Holds :
    (store : Option Tickets) (requests : List (ℕ × Request))
    → Holds store
    → Holds (serve_all store requests)
unfolding serve_all
serve_all-Holds store [] h = h
serve_all-Holds store ((now, r) ∷ requests) h =
    serve_all-Holds (serve store now r) requests (serve-Holds store now r h)

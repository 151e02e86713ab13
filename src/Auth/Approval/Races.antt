-- ===== src/Auth/Approval/Races.antt =====
-- Two requests on one ticket at a time (internal/api/handler_approval.go): a handler reads the ticket
-- and writes it in two steps, and the other request can come between them.
use yvonne.Base.{
  ℕ, suc, ◌≤◌, Str, str_eq, str_eq_refl, lookup-insert, insert, [], ◌∷◌, true, false, some, ◌≡◌,
  refl, arith, ◌∙◌, length, length-append, inl,
}
use yvonne.Auth.Approval.Defs.{
  ApprovalStatus, ApprovalTicket, Tickets, is_pending, is_approved, has_approved, is_expired,
  is_approval_complete, get_ticket, update_ticket,
}
use yvonne.Auth.Approval.Handlers.{
  ok_ticket, written, add_approver, approve_ticket, add_rejector, reject_ticket,
}

update_ticket-known :
    (s : Tickets) (t new : ApprovalTicket) (id : Str)
    → new.id ≡ id
    → get_ticket s id ≡ some t
    → update_ticket s new ≡ inl (insert id new s)
unfolding update_ticket get_ticket
update_ticket-known s t new id e h = ground arith

id-add_approver :
    (now : ℕ) (t : ApprovalTicket) (role_id : Str) → (add_approver now t role_id).id ≡ t.id
unfolding add_approver
id-add_approver now t role_id = ground arith

id-add_rejector :
    (now : ℕ) (t : ApprovalTicket) (role_id : Str) → (add_rejector now t role_id).id ≡ t.id
unfolding add_rejector
id-add_rejector now t role_id = refl

add_approver-completes :
    (now : ℕ) (t : ApprovalTicket) (role_id : Str)
    → t.required ≤ suc (length t.approvers)
    → is_approved (add_approver now t role_id).status ≡ true
unfolding add_approver is_approval_complete is_approved
add_approver-completes now t role_id h = ground (arith, length-append t.approvers (role_id ∷ []))

module _ (now : ℕ) (s : Tickets) (t : ApprovalTicket) (rejector approver : Str) where
  abbrev pub rejected_store : Tickets
  rejected_store = insert t.id (add_rejector now t rejector) s

  abbrev pub overwritten_store : Tickets
  overwritten_store = insert t.id (add_approver now t approver) rejected_store

  module _ (held : get_ticket s t.id ≡ some t) (waiting : is_pending t.status ≡ true)
      (live : is_expired now t ≡ false) (foreign : str_eq t.requested_by approver ≡ false)
      (fresh : has_approved t approver ≡ false) where
    rejecting :
        reject_ticket now s t rejector
        ≡ (ok_ticket (add_rejector now t rejector), some rejected_store)
    unfolding reject_ticket written
    rejecting =
        let w =
          update_ticket-known s t (add_rejector now t rejector) t.id
            (id-add_rejector now t rejector) held in
        rw (waiting, w) refl

    found_rejected : get_ticket rejected_store t.id ≡ some (add_rejector now t rejector)
    unfolding get_ticket
    found_rejected =
        lookup-insert t.id t.id (add_rejector now t rejector) s ∙ rw (str_eq_refl t.id) refl

    approving :
        approve_ticket now rejected_store t approver
        ≡ (ok_ticket (add_approver now t approver), some overwritten_store)
    unfolding approve_ticket written
    approving =
        let w =
          update_ticket-known rejected_store (add_rejector now t rejector)
            (add_approver now t approver) t.id (id-add_approver now t approver) found_rejected in
        rw (waiting, live, foreign, fresh, w) refl

    found_approved : get_ticket overwritten_store t.id ≡ some (add_approver now t approver)
    unfolding get_ticket
    found_approved =
        lookup-insert t.id t.id (add_approver now t approver) rejected_store
        ∙ rw (str_eq_refl t.id) refl

    -- A role reads a pending ticket that it may approve and that lacks one approval; before it
    -- writes, another role rejects the ticket. The rejection is answered as done and the ticket is
    -- rejected in the store. The approval, with the ticket that it read, is answered as done all the
    -- same, and leaves the ticket approved, with no rejector but those it had.
    pub approval_overwrites_rejection :
        t.required ≤ suc (length t.approvers)
        → (reject_ticket now s t rejector
            ≡ (ok_ticket (add_rejector now t rejector), some rejected_store))
          × (get_ticket rejected_store t.id ≡ some (add_rejector now t rejector))
          × ((add_rejector now t rejector).status ≡ ApprovalStatus.rejected)
          × (approve_ticket now rejected_store t approver
              ≡ (ok_ticket (add_approver now t approver), some overwritten_store))
          × (get_ticket overwritten_store t.id ≡ some (add_approver now t approver))
          × (is_approved (add_approver now t approver).status ≡ true)
          × ((add_approver now t approver).rejectors ≡ t.rejectors)
    unfolding add_approver
    approval_overwrites_rejection h = (
      rejecting,
      found_rejected,
      unfold add_rejector in refl,
      approving,
      found_approved,
      add_approver-completes now t approver h,
      ground arith,
    )

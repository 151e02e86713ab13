-- ===== src/Auth/Approval/Defs.antt =====
-- internal/auth/approval.go and approval_store_memory.go. Times are nanoseconds. A store's tickets
-- stand in the order of the list, where Go ranges over its map in any order.
use yvonne.Base.{
  ℕ, suc, Str, str_eq, Assoc, lookup, insert, remove, List, [], ◌∷◌, Bool, true, false, ◌&&◌,
  Option, none, some, leb, ltb, length, if◌then◌else◌, ◌⊎◌, inl, inr,
}

pub data ApprovalStatus : Type 0 where
  pending : ApprovalStatus
  approved : ApprovalStatus
  rejected : ApprovalStatus
  expired : ApprovalStatus

pub record ApprovalTicket : Type 0 where
  pub id : Str
  pub operation : Str
  pub key_id : Str
  pub requested_by : Str
  pub approvers : List Str
  pub rejectors : List Str
  pub required : ℕ
  pub status : ApprovalStatus
  pub created_at : ℕ
  pub expires_at : ℕ
  pub resolved_at : ℕ

pub data ApprovalErr : Type 0 where
  approval_not_found : ApprovalErr
  already_exists : ApprovalErr

unfoldable pub is_pending : ApprovalStatus → Bool
is_pending ApprovalStatus.pending = true
is_pending _ = false

unfoldable pub is_approved : ApprovalStatus → Bool
is_approved ApprovalStatus.approved = true
is_approved _ = false

-- Whether a role stands in a list of roles: the loops of HasApproved and HasRejected.
unfoldable pub has_role_id : List Str → Str → Bool
has_role_id [] role_id = false
has_role_id (a ∷ roles) role_id = if str_eq a role_id then true else has_role_id roles role_id

-- IsApprovalComplete
unfoldable pub is_approval_complete : ApprovalTicket → Bool
is_approval_complete t = leb t.required (length t.approvers)

-- IsExpired
unfoldable pub is_expired : ℕ → ApprovalTicket → Bool
is_expired now t = ltb t.expires_at now

-- HasApproved
unfoldable pub has_approved : ApprovalTicket → Str → Bool
has_approved t role_id = has_role_id t.approvers role_id

-- HasRejected
unfoldable pub has_rejected : ApprovalTicket → Str → Bool
has_rejected t role_id = has_role_id t.rejectors role_id

-- The tickets of a MemoryApprovalStore. The copies it makes are values here.
abbrev pub Tickets : Type 0
Tickets = Assoc ApprovalTicket

-- NewMemoryApprovalStore
abbrev pub new_memory_approval_store : Tickets
new_memory_approval_store = []

-- CreateTicket
unfoldable pub create_ticket : Tickets → ApprovalTicket → Tickets ⊎ ApprovalErr
create_ticket s t = elim (lookup t.id s) [
  | some old ↦ inr already_exists
  | none ↦ inl (insert t.id t s)
]

-- GetTicket; `none` is ErrApprovalNotFound.
unfoldable pub get_ticket : Tickets → Str → Option ApprovalTicket
get_ticket s id = lookup id s

-- UpdateTicket
unfoldable pub update_ticket : Tickets → ApprovalTicket → Tickets ⊎ ApprovalErr
update_ticket s t = elim (lookup t.id s) [
  | none ↦ inr approval_not_found
  | some old ↦ inl (insert t.id t s)
]

-- ListPending
unfoldable pub list_pending : Tickets → List ApprovalTicket
list_pending [] = []
list_pending ((id, t) ∷ s) =
    let rest = list_pending s in if is_pending t.status then t ∷ rest else rest

-- ListByOperation
unfoldable pub list_by_operation : Tickets → Str → List ApprovalTicket
list_by_operation [] operation = []
list_by_operation ((id, t) ∷ s) operation =
    let rest = list_by_operation s operation in
    if str_eq t.operation operation then t ∷ rest else rest

-- DeleteTicket
unfoldable pub delete_ticket : Tickets → Str → Tickets
delete_ticket s id = remove id s

unfoldable pub expire : ℕ → ApprovalTicket → ApprovalTicket
expire now t = record t { status = ApprovalStatus.expired; resolved_at = now }

-- CleanupExpired: the store and how many tickets it marked.
unfoldable pub cleanup_expired : ℕ → Tickets → Tickets × ℕ
cleanup_expired now [] = ([], 0)
cleanup_expired now ((id, t) ∷ s) =
    let (rest, count) = cleanup_expired now s in
    if is_pending t.status && is_expired now t
    then ((id, expire now t) ∷ rest, suc count)
    else ((id, t) ∷ rest, count)

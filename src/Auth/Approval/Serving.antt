-- ===== src/Auth/Approval/Serving.antt =====
-- Sequences of calls of the approval handlers and of the store's own operations.
use yvonne.Base.{ℕ, Str, List, [], ◌∷◌, Option, none, some}
use yvonne.Auth.Policy.Defs.{Policy}
use yvonne.Auth.Approval.Defs.{Tickets, delete_ticket, cleanup_expired}
use yvonne.Auth.Approval.Handlers.{
  Body, CreateApprovalRequest, Method, handle_create_approval, handle_approve, handle_reject,
}

-- A call of the store or of its handlers.
pub data Request : Type 0 where
  create : Str → Option Policy → Body CreateApprovalRequest → Request
  approve : Option Policy → Method → Body Str → Request
  reject : Option Policy → Method → Body Str → Request
  cleanup : Request
  delete : Str → Request

-- The store after the request, served at that time.
unfoldable pub serve : Option Tickets → ℕ → Request → Option Tickets
serve store now (create uuid policy body) = (handle_create_approval now uuid store policy body).1
serve store now (approve policy method body) = (handle_approve now store policy method body).1
serve store now (reject policy method body) = (handle_reject now store policy method body).1
serve none now cleanup = none
serve (some s) now cleanup = some (cleanup_expired now s).0
serve none now (delete id) = none
serve (some s) now (delete id) = some (delete_ticket s id)

-- The store after a sequence of requests and their times.
unfoldable pub serve_all : Option Tickets → List (ℕ × Request) → Option Tickets
serve_all store [] = store
serve_all store ((now, r) ∷ requests) = serve_all (serve store now r) requests

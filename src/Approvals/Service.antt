-- ===== src/Approvals/Service.antt =====
-- core/src/approvals/approval.service.ts: session binding, the mapping of repository errors to HTTP
-- errors, and the realtime notices. A method that awaits two repository calls lets other requests
-- run between them: those are an argument, a list of repository calls.
pub mod Binding
use icos_v.Base.{
  String, ◌≡◌, refl, sym, ap, subst, ◌∙◌, inl, inr, ◌⊎◌, ◌≢◌, Bool, true, false, Option, none, some,
  List, [], ◌∷◌, ◌++◌, ℕ, ◌+◌, arith, str_eq, eq_iff, eq_refl, if◌then◌else◌, Option-cases,
  Bool-cases,
}
use icos_v.Base.Exec.{
  Exec, Result, ok, err, pure, throw, gets, modify, ◌>>=◌, ◌>>◌, or_throw, Clock, after,
}
use icos_v.Base.Table.{UniqueKeys}
use icos_v.Base.Text.{trim}
use icos_v.Approvals.{
  ApprovalStatus, expired, Resolution, approve, reject, cancel, status_of, is_pending, ApprovalRow,
  ApprovalEvent, NewApproval, ApprovalRequest, to_request, Db, Repo, key, Error, approval_not_found,
  invalid_transition, sqlite_error, has_session, find_approval, get_approval, create_approval,
  resolve_approval, list_approvals, list_events,
}
use icos_v.Approvals.Outcomes.{
  resolved, resolve_approval-eq, get_approval-eq, get_approval-missing, is_due,
}
use icos_v.Approvals.Runs.{Call, run}

pub data Notice : Type 0 where
  approval_created : (approval_id action session_id : String) → Notice
  approval_resolved : (approval_id : String) → ApprovalStatus → (session_id : String) → Notice

-- `internal` is an error that is thrown on unmapped.
pub data HttpError : Type 0 where
  not_found bad_request conflict : HttpError
  internal : Error → HttpError

pub record Server : Type 0 where
  pub db : Db
  pub published : List Notice

abbrev pub Method : Type 0 → Type 0
Method A = Exec HttpError Server A

abbrev pub from_repo :
    {A : Type 0}
    → (Error → HttpError)
    → List Notice
    → Result Error A × Db
    → Result HttpError A × Server
from_repo catch notices (ok a, db) = (ok a, record { db = db; published = notices })
from_repo catch notices (err e, db) = (err (catch e), record { db = db; published = notices })

abbrev pub on_db : {A : Type 0} → (Error → HttpError) → Repo A → Method A
on_db catch m s = from_repo catch s.published (m s.db)

abbrev pub publish : Notice → Method (Unit {0})
publish notice = modify (λ s. record s { published = s.published ++ notice ∷ [] })

-- The `catch` of `resolve`.
abbrev pub http_error : Error → HttpError
http_error (approval_not_found id) = not_found
http_error (invalid_transition id current to) = conflict
http_error sqlite_error = internal sqlite_error

abbrev deadline : ℕ → Option ℕ → Option ℕ
deadline now none = none
deadline now (some ttl) = some (now + ttl)

unfoldable pub create :
    Clock → (id session_id action : String) → Option String → Option ℕ → Method ApprovalRequest
create clock id session_id action description ttl = do
  known ← gets (λ s. has_session session_id s.db.sessions)
  if known
      then (do
        request ← on_db internal (
            create_approval (after 1 clock) id (record {
              session_id = session_id;
              action = trim action;
              description = description;
              expires_at = deadline (clock 0) ttl;
            }))
        publish (approval_created request.id request.action request.session_id)
        pure request)
      else throw not_found

pub record ApprovalDetail : Type 0 where
  pub request : ApprovalRequest
  pub events : List ApprovalEvent

unfoldable pub get : Clock → String → List Call → Method ApprovalDetail
get clock id others = do
  found ← on_db internal (get_approval clock id)
  request ← or_throw found not_found
  modify (λ s. record s { db = run others s.db })
  events ← gets (λ s. list_events request.id s.db)
  pure (record { request = request; events = events })

unfoldable pub list : Clock → Option String → Option ApprovalStatus → Method (List ApprovalRequest)
list clock session status = on_db internal (list_approvals clock session status)

abbrev pub announce : ApprovalRequest → Method ApprovalRequest
announce closed = do
  publish (approval_resolved closed.id closed.status closed.session_id)
  pure closed

abbrev pub finish : Clock → String → Resolution → Method ApprovalRequest
finish clock id to = do closed ← on_db http_error (resolve_approval clock id to); announce closed

-- `resolve`; `approve`, `reject` and `cancel` call it with their status.
unfoldable pub resolve : Clock → String → String → Resolution → List Call → Method ApprovalRequest
resolve clock id session_id to others = do
  found ← on_db internal (get_approval clock id)
  current ← or_throw found not_found
  modify (λ s. record s { db = run others s.db })
  if str_eq current.session_id session_id then finish (after 2 clock) id to else throw bad_request

-- ===== src/Approvals/Table.antt =====
-- The tables of the approvals, and the statements that the repository issues.
use icos_v.Base.{
  ℕ, suc, String, Bool, true, false, ◌&&◌, Option, none, some, List, [], ◌∷◌, ◌++◌, str_eq,
  if◌then◌else◌,
}
use icos_v.Base.Exec.{Exec, ok, err}
use icos_v.Base.Table.{update, changes, find}

pub data ApprovalStatus : Type 0 where
  pending approved rejected expired cancelled : ApprovalStatus

pub data ApprovalEventType : Type 0 where
  was_created was_approved was_rejected was_expired was_cancelled : ApprovalEventType

-- The statuses that `resolveApproval` accepts.
pub data Resolution : Type 0 where
  approve reject cancel : Resolution

abbrev pub status_of : Resolution → ApprovalStatus
status_of approve = approved
status_of reject = rejected
status_of cancel = cancelled

abbrev pub event_of : Resolution → ApprovalEventType
event_of approve = was_approved
event_of reject = was_rejected
event_of cancel = was_cancelled

abbrev pub is_pending : ApprovalStatus → Bool
is_pending pending = true
is_pending _ = false

abbrev pub status_eq : ApprovalStatus → ApprovalStatus → Bool
status_eq pending pending = true
status_eq approved approved = true
status_eq rejected rejected = true
status_eq expired expired = true
status_eq cancelled cancelled = true
status_eq _ _ = false

pub record ApprovalRow : Type 0 where
  pub id : String
  pub session_id : String
  pub action : String
  pub description : String
  pub status : ApprovalStatus
  pub created_at : ℕ
  pub updated_at : ℕ
  pub expires_at : Option ℕ
  pub resolved_at : Option ℕ

pub record ApprovalEvent : Type 0 where
  pub id : ℕ
  pub approval_id : String
  pub session_id : String
  pub event : ApprovalEventType
  pub created_at : ℕ

pub record NewApproval : Type 0 where
  pub session_id : String
  pub action : String
  pub description : Option String
  pub expires_at : Option ℕ

-- What `toRequest` returns: the row's columns, with a null deadline or resolution left out.
pub record ApprovalRequest : Type 0 where
  pub id : String
  pub session_id : String
  pub action : String
  pub description : String
  pub status : ApprovalStatus
  pub created_at : ℕ
  pub updated_at : ℕ
  pub expires_at : Option ℕ
  pub resolved_at : Option ℕ

abbrev pub to_request : ApprovalRow → ApprovalRequest
to_request row = record {
  id = row.id;
  session_id = row.session_id;
  action = row.action;
  description = row.description;
  status = row.status;
  created_at = row.created_at;
  updated_at = row.updated_at;
  expires_at = row.expires_at;
  resolved_at = row.resolved_at;
}

-- `sqlite_error` is a violated PRIMARY KEY or FOREIGN KEY.
pub data Error : Type 0 where
  approval_not_found : String → Error
  invalid_transition : String → ApprovalStatus → ApprovalStatus → Error
  sqlite_error : Error

-- The tables, the ids of the sessions that exist, and the last AUTOINCREMENT id.
pub record Db : Type 0 where
  pub sessions : List String
  pub approvals : List ApprovalRow
  pub approval_events : List ApprovalEvent
  pub last_event : ℕ

abbrev pub Repo : Type 0 → Type 0
Repo A = Exec Error Db A

abbrev pub key : ApprovalRow → String
key row = row.id

abbrev pub find_approval : String → Db → Option ApprovalRow
find_approval id s = find key id s.approvals

unfoldable pub has_session : String → List String → Bool
has_session id [] = false
has_session id (x ∷ xs) = if str_eq x id then true else has_session id xs

abbrev pub record_event : String → String → ApprovalEventType → ℕ → Db → Db
record_event approval_id session_id event at s = record s {
  approval_events =
      s.approval_events
      ++ record {
        id = suc s.last_event;
        approval_id = approval_id;
        session_id = session_id;
        event = event;
        created_at = at;
      }
        ∷ [];
  last_event = suc s.last_event;
}

-- WHERE id = ? AND status = 'pending'
abbrev pub pending_with : String → ApprovalRow → Bool
pending_with id row = (str_eq row.id id) && is_pending row.status

-- SET status = ?, updated_at = ?, resolved_at = ?
abbrev pub close_row : ApprovalStatus → ℕ → ApprovalRow → ApprovalRow
close_row to now row = record row { status = to; updated_at = now; resolved_at = some now }

abbrev pub close_pending : String → ApprovalStatus → ℕ → Db → Db
close_pending id to now s = record s {
  approvals = update (pending_with id) (close_row to now) s.approvals;
}

-- INSERT INTO approvals: the session and the key are checked by the schema.
abbrev pub insert_approval : ApprovalRow → Repo (Unit {0})
insert_approval row s =
    if has_session row.session_id s.sessions
    then elim (find_approval row.id s) [
      | none ↦ (ok tt, record s { approvals = s.approvals ++ row ∷ [] })
      | some _ ↦ (err sqlite_error, s)
    ]
    else (err sqlite_error, s)

-- The UPDATE of a pending row, with `info.changes`.
abbrev pub close_changes : String → ApprovalStatus → ℕ → Repo ℕ
close_changes id to now s = (ok (changes (pending_with id) s.approvals), close_pending id to now s)

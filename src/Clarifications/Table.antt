-- ===== src/Clarifications/Table.antt =====
-- The tables of the clarifications, and the statements that the repository issues.
use icos_v.Base.{
  ℕ, suc, String, Bool, true, false, ◌&&◌, Option, none, some, List, [], ◌∷◌, ◌++◌, str_eq,
  if◌then◌else◌,
}
use icos_v.Base.Exec.{Exec, ok, err}
use icos_v.Base.Table.{update, changes, find}
use icos_v.Approvals.{has_session}

pub data ClarificationStatus : Type 0 where
  pending answered cancelled expired : ClarificationStatus

pub data ClarificationEventType : Type 0 where
  was_created was_answered was_cancelled was_expired : ClarificationEventType

-- What closes a pending request.
pub data Ending : Type 0 where
  answers : String → Ending
  cancels expires : Ending

abbrev pub status_of : Ending → ClarificationStatus
status_of (answers a) = answered
status_of cancels = cancelled
status_of expires = expired

abbrev pub event_of : Ending → ClarificationEventType
event_of (answers a) = was_answered
event_of cancels = was_cancelled
event_of expires = was_expired

-- Only an answer sets the column.
abbrev pub answer_of : Ending → Option String → Option String
answer_of (answers a) old = some a
answer_of _ old = old

abbrev pub is_pending : ClarificationStatus → Bool
is_pending pending = true
is_pending _ = false

abbrev pub status_eq : ClarificationStatus → ClarificationStatus → Bool
status_eq pending pending = true
status_eq answered answered = true
status_eq cancelled cancelled = true
status_eq expired expired = true
status_eq _ _ = false

pub record ClarificationRow : Type 0 where
  pub id : String
  pub session_id : String
  pub question : String
  pub options : Option (List String)
  pub status : ClarificationStatus
  pub answer : Option String
  pub created_at : ℕ
  pub updated_at : ℕ
  pub expires_at : Option ℕ
  pub resolved_at : Option ℕ

pub record ClarificationEvent : Type 0 where
  pub id : ℕ
  pub clarification_id : String
  pub session_id : String
  pub event : ClarificationEventType
  pub created_at : ℕ

pub record NewClarification : Type 0 where
  pub session_id : String
  pub question : String
  pub options : Option (List String)
  pub expires_at : Option ℕ

-- A row's columns are all that `toRequest` returns, with a null left out.
abbrev pub ClarificationRequest : Type 0
ClarificationRequest = ClarificationRow

pub data Error : Type 0 where
  clarification_not_found : String → Error
  invalid_transition : String → ClarificationStatus → ClarificationStatus → Error
  invalid_answer : String → Error
  sqlite_error : Error

-- The tables, the ids of the sessions that exist, and the last AUTOINCREMENT id.
pub record Db : Type 0 where
  pub sessions : List String
  pub clarifications : List ClarificationRow
  pub clarification_events : List ClarificationEvent
  pub last_event : ℕ

abbrev pub Repo : Type 0 → Type 0
Repo A = Exec Error Db A

abbrev pub key : ClarificationRow → String
key row = row.id

abbrev pub find_clarification : String → Db → Option ClarificationRow
find_clarification id s = find key id s.clarifications

abbrev pub record_event : String → String → ClarificationEventType → ℕ → Db → Db
record_event clarification_id session_id event at s = record s {
  clarification_events =
      s.clarification_events
      ++ record {
        id = suc s.last_event;
        clarification_id = clarification_id;
        session_id = session_id;
        event = event;
        created_at = at;
      }
        ∷ [];
  last_event = suc s.last_event;
}

-- WHERE id = ? AND status = 'pending'
abbrev pub pending_with : String → ClarificationRow → Bool
pending_with id row = (str_eq row.id id) && is_pending row.status

-- SET status = ?, updated_at = ?, resolved_at = ?, and for an answer also answer = ?
abbrev pub close_row : Ending → ℕ → ClarificationRow → ClarificationRow
close_row to now row = record row {
  status = status_of to;
  answer = answer_of to row.answer;
  updated_at = now;
  resolved_at = some now;
}

abbrev pub close_pending : String → Ending → ℕ → Db → Db
close_pending id to now s = record s {
  clarifications = update (pending_with id) (close_row to now) s.clarifications;
}

-- INSERT INTO clarifications: the session and the key are checked by the schema.
abbrev pub insert_clarification : ClarificationRow → Repo (Unit {0})
insert_clarification row s =
    if has_session row.session_id s.sessions
    then elim (find_clarification row.id s) [
      | none ↦ (ok tt, record s { clarifications = s.clarifications ++ row ∷ [] })
      | some _ ↦ (err sqlite_error, s)
    ]
    else (err sqlite_error, s)

-- The UPDATE of a pending row, with `info.changes`.
abbrev pub close_changes : String → Ending → ℕ → Repo ℕ
close_changes id to now s =
    (ok (changes (pending_with id) s.clarifications), close_pending id to now s)

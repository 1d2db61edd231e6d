-- ===== src/Clarifications/Service.antt =====
-- core/src/clarifications/clarification.service.ts: session binding, the mapping of errors to HTTP, and the
-- announcements. Between the two reads of `answer` and `cancel` the calls of other requests run.
use icos_v.Base.{
  ℕ, ◌+◌, String, Option, none, some, List, [], ◌∷◌, ◌++◌, str_eq, if◌then◌else◌, ◌≡◌, ◌≢◌, arith,
  eq_iff,
}
use icos_v.Base.Exec.{
  Exec, Result, ok, err, pure, throw, gets, or_throw, modify, ◌>>=◌, ◌>>◌, Clock, after,
}
use icos_v.Base.Text.{trim}
use icos_v.Approvals.{has_session}
use icos_v.Clarifications.{
  ClarificationStatus, ClarificationRow, ClarificationRequest, ClarificationEvent, Db, Repo, Error,
  clarification_not_found, invalid_transition, invalid_answer, sqlite_error, find_clarification,
  get_clarification, create_clarification, answer_clarification, cancel_clarification,
  list_clarifications, list_events,
}
use icos_v.Clarifications.Outcomes.{get_clarification-eq}
use icos_v.Clarifications.Runs.{Call, run}

pub data Notice : Type 0 where
  clarification_created : (clarification_id session_id : String) → Notice
  clarification_resolved :
      (clarification_id : String) → ClarificationStatus → (session_id : String) → Notice

-- `internal` is an error that is thrown on unmapped.
pub data HttpError : Type 0 where
  not_found bad_request conflict : HttpError
  internal : Error → HttpError

pub record Server : Type 0 where
  pub db : Db
  pub published : List Notice

abbrev pub Method : Type 0 → Type 0
Method A = Exec HttpError Server A

abbrev pub from_repo :
    {A : Type 0}
    → (Error → HttpError)
    → List Notice
    → Result Error A × Db
    → Result HttpError A × Server
from_repo catch notices (ok a, db) = (ok a, record { db = db; published = notices })
from_repo catch notices (err e, db) = (err (catch e), record { db = db; published = notices })

abbrev on_db : {A : Type 0} → (Error → HttpError) → Repo A → Method A
on_db catch m s = from_repo catch s.published (m s.db)

abbrev publish : Notice → Method (Unit {0})
publish notice = modify (λ s. record s { published = s.published ++ notice ∷ [] })

-- `mapRepositoryError`
abbrev pub map_repository_error : Error → HttpError
map_repository_error (clarification_not_found id) = not_found
map_repository_error (invalid_transition id current to) = conflict
map_repository_error (invalid_answer id) = bad_request
map_repository_error sqlite_error = internal sqlite_error

abbrev deadline : ℕ → Option ℕ → Option ℕ
deadline now none = none
deadline now (some ttl) = some (now + ttl)

unfoldable pub create :
    Clock
    → (id session_id question : String) → Option (List String)
    → Option ℕ
    → Method ClarificationRequest
create clock id session_id question options ttl = do
  known ← gets (λ s. has_session session_id s.db.sessions)
  if known
      then (do
        request ← on_db internal (
            create_clarification (after 1 clock) id (record {
              session_id = session_id;
              question = trim question;
              options = options;
              expires_at = deadline (clock 0) ttl;
            }))
        publish (clarification_created request.id request.session_id)
        pure request)
      else throw not_found

pub record ClarificationDetail : Type 0 where
  pub request : ClarificationRequest
  pub events : List ClarificationEvent

unfoldable pub get : Clock → String → List Call → Method ClarificationDetail
get clock id others = do
  found ← on_db internal (get_clarification clock id)
  request ← or_throw found not_found
  modify (λ s. record s { db = run others s.db })
  events ← gets (λ s. list_events request.id s.db)
  pure (record { request = request; events = events })

unfoldable pub list :
    Clock → Option String → Option ClarificationStatus → Method (List ClarificationRequest)
list clock session status = on_db internal (list_clarifications clock session status)

abbrev pub announce : ClarificationRequest → Method ClarificationRequest
announce resolved = do
  publish (clarification_resolved resolved.id resolved.status resolved.session_id)
  pure resolved

abbrev pub finish : Repo ClarificationRequest → Method ClarificationRequest
finish m = do resolved ← on_db map_repository_error m; announce resolved

-- What `answer` and `cancel` have in common, with the call of the repository that they make.
abbrev pub close_as :
    Clock
    → (id session_id : String) → Repo ClarificationRequest
    → List Call
    → Method ClarificationRequest
close_as clock id session_id m others = do
  found ← on_db internal (get_clarification clock id)
  current ← or_throw found not_found
  modify (λ s. record s { db = run others s.db })
  if str_eq current.session_id session_id then finish m else throw bad_request

unfoldable pub answer :
    Clock → (id session_id text : String) → List Call → Method ClarificationRequest
answer clock id session_id text others =
    close_as clock id session_id (answer_clarification (after 2 clock) id text) others

unfoldable pub cancel : Clock → (id session_id : String) → List Call → Method ClarificationRequest
cancel clock id session_id others =
    close_as clock id session_id (cancel_clarification (after 2 clock) id) others

-- The database after the first read and the calls of the other requests.
abbrev seen : Clock → String → List Call → Db → Db
seen clock id others db = run others (get_clarification clock id db).1

-- A question of another session is neither answered nor cancelled: the answer is 400, nothing is
-- announced, and the database is as the first read and the other requests leave it.
pub close_other_session :
    (clock : Clock) (id session text : String) (others : List Call) (s : Server)
    (row : ClarificationRow)
    → find_clarification id s.db ≡ some row
    → row.session_id ≢ session
    → (answer clock id session text others s
        ≡ (err bad_request, record s { db = seen clock id others s.db }))
      × (cancel clock id session others s
          ≡ (err bad_request, record s { db = seen clock id others s.db }))
unfolding answer cancel
close_other_session clock id session text others s row found other =
    rw (get_clarification-eq clock id s.db row found)
      (ground (arith, eq_iff row.session_id session), ground (arith, eq_iff row.session_id session))

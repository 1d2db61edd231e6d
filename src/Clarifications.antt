-- ===== src/Clarifications.antt =====
-- core/src/clarifications/clarification.repository.ts and sqlite-clarification.repository.ts: the table of
-- questions to the user, its event table, and the repository's methods, each one uninterrupted run of the
-- event loop. Times are milliseconds, and a method takes its readings of the clock in order from
-- `Clock`. A UUID is an argument. The options are the list that their JSON text stands for.
mod Table
pub mod Outcomes
pub mod Spec
pub mod Late
pub mod Methods
pub mod Runs
pub mod Service
mod Tests
unfoldable pub use Table.*
use Prim.Native.Nat.{Ordering}
use Prim.Native.String.{compare}
use icos_v.Base.{
  ℕ, suc, String, Bool, true, false, ◌&&◌, ◌||◌, not, Option, none, some, List, [], ◌∷◌, ◌++◌, map,
  ltb, leb, ◌==◌, str_eq, if◌then◌else◌,
}
use icos_v.Base.Exec.{
  Exec, ok, err, pure, throw, gets, or_throw, transaction, modify, ◌>>=◌, ◌>>◌, Clock, after,
}
use icos_v.Base.Table.{select, update, changes, find}
use icos_v.Base.Sort.{sort}
use icos_v.Base.Text.{trim}
use icos_v.Approvals.{has_session}

abbrev expire_now : ℕ → ClarificationRow → Repo ClarificationRow
expire_now now row = do
  transaction (do
    modify (close_pending row.id expires now)
    modify (record_event row.id row.session_id was_expired now))
  pure (close_row expires now row)

abbrev expire_due : Clock → ClarificationRow → Option ℕ → Repo ClarificationRow
expire_due clock row none = pure row
expire_due clock row (some deadline) =
    if ltb (clock 0) deadline then pure row else expire_now (clock 1) row

unfoldable pub apply_lazy_expiry : Clock → ClarificationRow → Repo ClarificationRow
apply_lazy_expiry clock row =
    if is_pending row.status then expire_due clock row row.expires_at else pure row

unfoldable pub get_clarification : Clock → String → Repo (Option ClarificationRequest)
get_clarification clock id s = elim (find_clarification id s) [
  | none ↦ pure none s
  | some row ↦ (do fresh ← apply_lazy_expiry clock row; pure (some fresh)) s
]

abbrev pub new_row : String → ℕ → NewClarification → ClarificationRow
new_row id now input = record {
  id = id;
  session_id = input.session_id;
  question = input.question;
  options = input.options;
  status = pending;
  answer = none;
  created_at = now;
  updated_at = now;
  expires_at = input.expires_at;
  resolved_at = none;
}

unfoldable pub create_clarification : Clock → String → NewClarification → Repo ClarificationRequest
unfolding get_clarification
create_clarification clock id input = do
  transaction (do
    insert_clarification (new_row id (clock 0) input)
    modify (record_event id input.session_id was_created (clock 0)))
  created ← get_clarification (after 1 clock) id
  or_throw created (clarification_not_found id)

-- The loser of a race is told the status that it finds.
abbrev lost_race : String → Ending → Repo (Unit {0})
lost_race id to = do
  loser ← gets (find_clarification id)
  row ← or_throw loser (clarification_not_found id)
  throw (invalid_transition id row.status (status_of to))

abbrev pub close_once : ℕ → String → ClarificationRequest → Ending → Repo (Unit {0})
close_once now id current to = transaction (do
  n ← close_changes id to now
  if n == 0 then lost_race id to else modify (record_event id current.session_id (event_of to) now))

abbrev pub close_current :
    Clock → String → ClarificationRequest → Ending → Repo ClarificationRequest
close_current clock id current to = do
  close_once (clock 2) id current to
  closed ← get_clarification (after 3 clock) id
  or_throw closed (clarification_not_found id)

-- `options.includes`
unfoldable pub includes : String → List String → Bool
includes answer [] = false
includes answer (x ∷ xs) = let rest = includes answer xs in if str_eq x answer then true else rest

abbrev pub is_offered : String → Option (List String) → Bool
is_offered answer none = true
is_offered answer (some options) = includes answer options

-- What `answerClarification` checks of the answer; a cancellation has nothing to check.
abbrev pub is_permitted : Ending → Option (List String) → Bool
is_permitted (answers a) options = not (str_eq a "") && is_offered a options
is_permitted _ options = true

abbrev pub close_valid : Clock → String → ClarificationRequest → Ending → Repo ClarificationRequest
close_valid clock id current to =
    if is_permitted to current.options
    then close_current clock id current to
    else throw (invalid_answer id)

-- What `answerClarification` and `cancelClarification` have in common.
unfoldable pub close_clarification : Clock → String → Ending → Repo ClarificationRequest
unfolding apply_lazy_expiry get_clarification
close_clarification clock id to = do
  found ← gets (find_clarification id)
  row ← or_throw found (clarification_not_found id)
  current ← apply_lazy_expiry clock row
  if is_pending current.status
      then close_valid clock id current to
      else throw (invalid_transition id current.status (status_of to))

unfoldable pub answer_clarification : Clock → (id answer : String) → Repo ClarificationRequest
answer_clarification clock id answer = close_clarification clock id (answers (trim answer))

unfoldable pub cancel_clarification : Clock → String → Repo ClarificationRequest
cancel_clarification clock id = close_clarification clock id cancels

-- WHERE clauses that are left out when the option is undefined.
abbrev matches_text : Option String → String → Bool
matches_text none x = true
matches_text (some y) x = str_eq x y

abbrev matches_status : Option ClarificationStatus → ClarificationStatus → Bool
matches_status none x = true
matches_status (some y) x = status_eq x y

abbrev pub past : ℕ → Option ℕ → Bool
past now none = false
past now (some deadline) = leb deadline now

abbrev pub lapsed : ℕ → Option String → ClarificationRow → Bool
lapsed now session row =
    is_pending row.status && past now row.expires_at && matches_text session row.session_id

-- One round of the loop of `expireLapsed`: only the transition that lands records the event.
abbrev pub mark_expired : ℕ → ClarificationRow → Db → Db
mark_expired now row s =
    let marked = close_pending row.id expires now s in
    if changes (pending_with row.id) s.clarifications == 0
    then marked
    else record_event row.id row.session_id was_expired now marked

unfoldable pub mark_all : ℕ → List ClarificationRow → Db → Db
mark_all now [] s = s
mark_all now (row ∷ rows) s = mark_all now rows (mark_expired now row s)

unfoldable pub expire_lapsed : ℕ → Option String → Db → Db
expire_lapsed now session s = mark_all now (select (lapsed now session) s.clarifications) s

-- Texts compare by their bytes.
abbrev text_leb : String → String → Bool
text_leb a b = elim (compare a b) [ Ordering.gt ↦ false | _ ↦ true ]

abbrev listed : Option String → Option ClarificationStatus → ClarificationRow → Bool
listed session status row = matches_text session row.session_id && matches_status status row.status

-- ORDER BY created_at ASC, id ASC
abbrev row_before : ClarificationRow → ClarificationRow → Bool
row_before a b =
    if a.created_at == b.created_at then text_leb a.id b.id else leb a.created_at b.created_at

unfoldable pub list_clarifications :
    Clock → Option String → Option ClarificationStatus → Repo (List ClarificationRequest)
list_clarifications clock session status = do
  modify (expire_lapsed (clock 0) session)
  rows ← gets (λ s. select (listed session status) s.clarifications)
  pure (sort row_before rows)

unfoldable pub list_events : String → Db → List ClarificationEvent
list_events id s = select (λ e. str_eq e.clarification_id id) s.clarification_events

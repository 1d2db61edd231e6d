-- ===== src/Clarifications/Outcomes.antt =====
-- What each method of the clarification repository leaves behind.
use mathlib.Core.Option
use icos_v.Base.{
  ℕ, String, ◌≡◌, refl, inl, inr, ◌⊎◌, ◌≢◌, Bool, true, false, ◌&&◌, none, some, [], ◌∷◌, ◌++◌,
  arith, eq_iff, eq_refl, if◌then◌else◌, Bool-cases,
}
use icos_v.Base.Exec.{Result, ok, err, Clock, after}
use icos_v.Base.Table.{find-key, find-append, find-update, UniqueKeys, changes_found}
use icos_v.Approvals.{has_session}
use icos_v.Clarifications.{
  expired, was_created, Ending, answers, cancels, expires, status_of, event_of, is_pending,
  ClarificationRow, NewClarification, Db, key, Error, invalid_transition, invalid_answer,
  find_clarification, record_event, pending_with, close_row, close_pending, apply_lazy_expiry,
  get_clarification, create_clarification, close_clarification, new_row, past, ClarificationRequest,
  clarification_not_found, close_once, close_current, is_permitted, sqlite_error,
}

-- The row is pending and its deadline has come.
abbrev pub is_due : ℕ → ClarificationRow → Bool
is_due now row = is_pending row.status && past now row.expires_at

-- Closing a pending row: the UPDATE and the event that goes with it.
abbrev pub closed : String → String → Ending → ℕ → Db → Db
closed id session to now s = record_event id session (event_of to) now (close_pending id to now s)

pub find-closed :
    (id j session : String) (to : Ending) (now : ℕ) (s : Db)
    → find_clarification j (closed id session to now s)
      ≡ Option.map
          (λ r. if pending_with id r then close_row to now r else r)
          (find_clarification j s)
find-closed id j session to now s =
    find-update key (pending_with id) (close_row to now) (λ r. refl) j s.clarifications

pub apply_lazy_expiry-eq :
    (clock : Clock) (row : ClarificationRow) (s : Db)
    → apply_lazy_expiry clock row s ≡ (
        if is_due (clock 0) row
        then (
          ok (close_row expires (clock 1) row),
          closed row.id row.session_id expires (clock 1) s,
        )
        else (ok row, s))
unfolding apply_lazy_expiry
apply_lazy_expiry-eq clock row s = ground arith

pub get_clarification-eq :
    (clock : Clock) (id : String) (s : Db) (row : ClarificationRow)
    → find_clarification id s ≡ some row
    → get_clarification clock id s ≡ (
        if is_due (clock 0) row
        then (
          ok (some (close_row expires (clock 1) row)),
          closed row.id row.session_id expires (clock 1) s,
        )
        else (ok (some row), s))
unfolding get_clarification
get_clarification-eq clock id s row e =
    rw (e, get_clarification) (ground (arith, apply_lazy_expiry-eq clock row s))

pub get_clarification-missing :
    (clock : Clock) (id : String) (s : Db)
    → find_clarification id s ≡ none
    → get_clarification clock id s ≡ (ok none, s)
unfolding get_clarification
get_clarification-missing clock id s e = rw (e, get_clarification) refl

close_once-eq :
    (now : ℕ) (id : String) (row : ClarificationRow) (to : Ending) (s : Db)
    → UniqueKeys key s.clarifications
    → find_clarification id s ≡ some row
    → is_pending row.status ≡ true
    → close_once now id row to s ≡ (ok tt, closed id row.session_id to now s)
close_once-eq now id row to s u e p =
    ground (arith, changes_found key (λ r. is_pending r.status) id s.clarifications row u e)

pub find-closed_self :
    (id session : String) (to : Ending) (now : ℕ) (s : Db) (row : ClarificationRow)
    → find_clarification id s ≡ some row
    → is_pending row.status ≡ true
    → find_clarification id (closed id session to now s) ≡ some (close_row to now row)
find-closed_self id session to now s row e p =
    rw (find-closed, e) (ground (arith, eq_iff row.id id, find-key key id s.clarifications row e))

get_clarification-closed :
    (clock : Clock) (id : String) (to : Ending) (now : ℕ) (s : Db) (row : ClarificationRow)
    → find_clarification id s ≡ some (close_row to now row)
    → get_clarification clock id s ≡ (ok (some (close_row to now row)), s)
get_clarification-closed clock id (answers a) now s row e = get_clarification-eq clock id s _ e
get_clarification-closed clock id cancels now s row e = get_clarification-eq clock id s _ e
get_clarification-closed clock id expires now s row e = get_clarification-eq clock id s _ e

close_current-eq :
    (clock : Clock) (id : String) (to : Ending) (s : Db) (row : ClarificationRow)
    → UniqueKeys key s.clarifications
    → find_clarification id s ≡ some row
    → is_pending row.status ≡ true
    → close_current clock id row to s
      ≡ (ok (close_row to (clock 2) row), closed id row.session_id to (clock 2) s)
close_current-eq clock id to s row u e p =
    let s' : Db = closed id row.session_id to (clock 2) s in
    let found = find-closed_self id row.session_id to (clock 2) s row e p in
    rw (close_once-eq (clock 2) id row to s u e p)
      (rw (get_clarification-closed (after 3 clock) id to (clock 2) s' row found))

-- What an answer or a cancellation does with a row that it finds.
abbrev pub settled :
    Clock → String → Ending → ClarificationRow → Db → Result Error ClarificationRequest × Db
settled clock id to row s =
    if is_due (clock 0) row
    then (
      err (invalid_transition id expired (status_of to)),
      closed row.id row.session_id expires (clock 1) s,
    )
    else if is_pending row.status
    then if is_permitted to row.options
      then (ok (close_row to (clock 2) row), closed id row.session_id to (clock 2) s)
      else (err (invalid_answer id), s)
    else (err (invalid_transition id row.status (status_of to)), s)

-- Answering or cancelling a request that exists: one that is pending and not due is closed, with its
-- event, if the answer is not empty and is one of the options where there are any, and is left as it is
-- with an error otherwise; one that is not pending is refused with the status that it has, after a due one
-- has been marked as expired. Request ids are unique.
pub close_clarification-eq :
    (clock : Clock) (id : String) (to : Ending) (s : Db) (row : ClarificationRow)
    → UniqueKeys key s.clarifications
    → find_clarification id s ≡ some row
    → close_clarification clock id to s ≡ settled clock id to row s
unfolding close_clarification
close_clarification-eq clock id to s row u e =
    rw (e, close_clarification)
      (rw (apply_lazy_expiry-eq clock row s) (elim (Bool-cases (is_due (clock 0) row)) [
        | inl due ↦ rw due refl
        | inr in_time ↦ rw in_time (elim (Bool-cases (is_pending row.status)) [
          | inl p ↦ rw p (elim (Bool-cases (is_permitted to row.options)) [
            | inl permitted ↦ rw permitted (close_current-eq clock id to s row u e p)
            | inr refused ↦ rw refused refl
          ])
          | inr closed_before ↦ rw closed_before refl
        ])
      ]))

pub close_clarification-missing :
    (clock : Clock) (id : String) (to : Ending) (s : Db)
    → find_clarification id s ≡ none
    → close_clarification clock id to s ≡ (err (clarification_not_found id), s)
unfolding close_clarification
close_clarification-missing clock id to s e = rw (e, close_clarification) refl

abbrev pub inserted : String → ℕ → NewClarification → Db → Db
inserted id now input s =
    record_event id input.session_id was_created now
      (record s { clarifications = s.clarifications ++ new_row id now input ∷ [] })

pub find-inserted :
    (id : String) (now : ℕ) (input : NewClarification) (s : Db)
    → find_clarification id s ≡ none
    → find_clarification id (inserted id now input s) ≡ some (new_row id now input)
find-inserted id now input s e = rw (find-append, e) (ground (arith, eq_refl id))

pub create_clarification-eq :
    (clock : Clock) (id : String) (input : NewClarification) (s : Db)
    → has_session input.session_id s.sessions ≡ true
    → find_clarification id s ≡ none
    → create_clarification clock id input s ≡ (
        let row = new_row id (clock 0) input in
        if past (clock 1) input.expires_at
        then (
          ok (close_row expires (clock 2) row),
          closed id input.session_id expires (clock 2) (inserted id (clock 0) input s),
        )
        else (ok row, inserted id (clock 0) input s))
unfolding create_clarification
create_clarification-eq clock id input s known fresh =
    let s' : Db = inserted id (clock 0) input s in
    rw (known, fresh)
      (rw (get_clarification-eq (after 1 clock) id s' _ (find-inserted id (clock 0) input s fresh))
        (elim (Bool-cases (past (clock 1) input.expires_at)) [
          | inl due ↦ rw due
          | inr in_time ↦ rw in_time
        ]))

-- The schema refuses a session that does not exist and an id that is taken.
pub create_clarification-refused :
    (clock : Clock) (id : String) (input : NewClarification) (s : Db)
    → (has_session input.session_id s.sessions ≡ false) ⊎ (find_clarification id s ≢ none)
    → create_clarification clock id input s ≡ (err sqlite_error, s)
unfolding create_clarification
create_clarification-refused clock id input s bad = ground arith

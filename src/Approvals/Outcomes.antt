-- ===== src/Approvals/Outcomes.antt =====
-- What each method of the approval repository returns and leaves behind, on every branch.
use icos_v.Base.{
  ℕ, String, ◌≡◌, refl, inl, inr, ◌⊎◌, ◌≢◌, Bool, true, false, ◌&&◌, none, some, [], ◌∷◌, ◌++◌,
  arith, eq_iff, eq_refl, if◌then◌else◌, Bool-cases,
}
use icos_v.Base.Exec.{Result, ok, err, Clock, after}
use icos_v.Base.Table.{find-key, find-append, UniqueKeys, changes_found}
use icos_v.Approvals.{
  ApprovalStatus, expired, ApprovalEventType, was_created, was_expired, Resolution, approve, reject,
  cancel, status_of, event_of, is_pending, ApprovalRow, NewApproval, Db, key, Error,
  invalid_transition, find_approval, record_event, close_row, apply_lazy_expiry, get_approval,
  create_approval, resolve_approval, new_row, past, ApprovalRequest, to_request, approval_not_found,
  close_once, resolve_pending, has_session, sqlite_error,
}
use icos_v.Approvals.History.{closed, find-closed, closing}

-- The row is pending and its deadline has come.
abbrev pub is_due : ℕ → ApprovalRow → Bool
is_due now row = is_pending row.status && past now row.expires_at

abbrev pub expire : ApprovalRow → ℕ → Db → Db
expire row now s = closed row.id row.session_id expired was_expired now s

pub apply_lazy_expiry-eq :
    (clock : Clock) (row : ApprovalRow) (s : Db)
    → apply_lazy_expiry clock row s ≡ (
        if is_due (clock 0) row
        then (ok (close_row expired (clock 1) row), expire row (clock 1) s)
        else (ok row, s))
unfolding apply_lazy_expiry
apply_lazy_expiry-eq clock row s = ground arith

pub get_approval-eq :
    (clock : Clock) (id : String) (s : Db) (row : ApprovalRow)
    → find_approval id s ≡ some row
    → get_approval clock id s ≡ (
        if is_due (clock 0) row
        then (ok (some (to_request (close_row expired (clock 1) row))), expire row (clock 1) s)
        else (ok (some (to_request row)), s))
unfolding get_approval
get_approval-eq clock id s row e =
    rw (e, get_approval) (ground (arith, apply_lazy_expiry-eq clock row s))

pub get_approval-missing :
    (clock : Clock) (id : String) (s : Db)
    → find_approval id s ≡ none
    → get_approval clock id s ≡ (ok none, s)
unfolding get_approval
get_approval-missing clock id s e = rw (e, get_approval) refl

close_once-eq :
    (now : ℕ) (id : String) (row : ApprovalRow) (to : Resolution) (s : Db)
    → UniqueKeys key s.approvals
    → find_approval id s ≡ some row
    → is_pending row.status ≡ true
    → close_once now id (to_request row) to s
      ≡ (ok tt, closed id row.session_id (status_of to) (event_of to) now s)
close_once-eq now id row to s u e p =
    ground (arith, changes_found key (λ r. is_pending r.status) id s.approvals row u e)

pub find-closed_self :
    (id session : String) (to : ApprovalStatus) (event : ApprovalEventType) (now : ℕ) (s : Db)
    (row : ApprovalRow)
    → find_approval id s ≡ some row
    → is_pending row.status ≡ true
    → find_approval id (closed id session to event now s) ≡ some (close_row to now row)
find-closed_self id session to event now s row e p =
    rw (find-closed, e) (ground (arith, eq_iff row.id id, find-key key id s.approvals row e))

-- What `resolveApproval` does with a row that it finds.
abbrev pub resolved :
    Clock → String → Resolution → ApprovalRow → Db → Result Error ApprovalRequest × Db
resolved clock id to row s =
    if is_due (clock 0) row
    then (err (invalid_transition id expired (status_of to)), expire row (clock 1) s)
    else if is_pending row.status
    then (
      ok (to_request (close_row (status_of to) (clock 2) row)),
      closed id row.session_id (status_of to) (event_of to) (clock 2) s,
    )
    else (err (invalid_transition id row.status (status_of to)), s)

get_approval-closed :
    (clock : Clock) (id : String) (to : Resolution) (now : ℕ) (s : Db) (row : ApprovalRow)
    → find_approval id s ≡ some (close_row (status_of to) now row)
    → get_approval clock id s ≡ (ok (some (to_request (close_row (status_of to) now row))), s)
get_approval-closed clock id approve now s row e = get_approval-eq clock id s _ e
get_approval-closed clock id reject now s row e = get_approval-eq clock id s _ e
get_approval-closed clock id cancel now s row e = get_approval-eq clock id s _ e

resolve_pending-eq :
    (clock : Clock) (id : String) (to : Resolution) (s : Db) (row : ApprovalRow)
    → UniqueKeys key s.approvals
    → find_approval id s ≡ some row
    → is_pending row.status ≡ true
    → resolve_pending clock id (to_request row) to s ≡ (
      ok (to_request (close_row (status_of to) (clock 2) row)),
      closed id row.session_id (status_of to) (event_of to) (clock 2) s,
    )
resolve_pending-eq clock id to s row u e p =
    let s' : Db = closed id row.session_id (status_of to) (event_of to) (clock 2) s in
    let found =
      find-closed_self id row.session_id (status_of to) (event_of to) (clock 2) s row e p in
    rw (close_once-eq (clock 2) id row to s u e p)
      (rw (get_approval-closed (after 3 clock) id to (clock 2) s' row found))

-- Resolving an approval that exists: one that is pending and not due is closed as asked, with its
-- event; every other one is refused with the status that it has, after a due one has been marked as
-- expired. Approval ids are unique.
pub resolve_approval-eq :
    (clock : Clock) (id : String) (to : Resolution) (s : Db) (row : ApprovalRow)
    → UniqueKeys key s.approvals
    → find_approval id s ≡ some row
    → resolve_approval clock id to s ≡ resolved clock id to row s
unfolding resolve_approval
resolve_approval-eq clock id to s row u e =
    rw (e, resolve_approval)
      (rw (apply_lazy_expiry-eq clock row s) (elim (Bool-cases (is_due (clock 0) row)) [
        | inl due ↦ rw due refl
        | inr in_time ↦ rw in_time (elim (Bool-cases (is_pending row.status)) [
          | inl p ↦ rw p (resolve_pending-eq clock id to s row u e p)
          | inr closed_before ↦ rw closed_before refl
        ])
      ]))

abbrev pub inserted : String → ℕ → NewApproval → Db → Db
inserted id now input s =
    record_event id input.session_id was_created now
      (record s { approvals = s.approvals ++ new_row id now input ∷ [] })

pub find-inserted :
    (id : String) (now : ℕ) (input : NewApproval) (s : Db)
    → find_approval id s ≡ none
    → find_approval id (inserted id now input s) ≡ some (new_row id now input)
find-inserted id now input s e = rw (find-append, e) (ground (arith, eq_refl id))

-- A request for a known session and under a new id is stored as pending with its creation event, and
-- marked as expired at once when its deadline has come by the time it is read back.
pub create_approval-eq :
    (clock : Clock) (id : String) (input : NewApproval) (s : Db)
    → has_session input.session_id s.sessions ≡ true
    → find_approval id s ≡ none
    → create_approval clock id input s ≡ (
        let row = new_row id (clock 0) input in
        if past (clock 1) input.expires_at
        then (
          ok (to_request (close_row expired (clock 2) row)),
          expire row (clock 2) (inserted id (clock 0) input s),
        )
        else (ok (to_request row), inserted id (clock 0) input s))
unfolding create_approval
create_approval-eq clock id input s known fresh =
    let s' : Db = inserted id (clock 0) input s in
    rw (known, fresh)
      (rw (get_approval-eq (after 1 clock) id s' _ (find-inserted id (clock 0) input s fresh))
        (elim (Bool-cases (past (clock 1) input.expires_at)) [
          | inl due ↦ rw due
          | inr in_time ↦ rw in_time
        ]))

-- The schema refuses a session that does not exist and an id that is taken.
pub create_approval-refused :
    (clock : Clock) (id : String) (input : NewApproval) (s : Db)
    → (has_session input.session_id s.sessions ≡ false) ⊎ (find_approval id s ≢ none)
    → create_approval clock id input s ≡ (err sqlite_error, s)
unfolding create_approval
create_approval-refused clock id input s bad = ground arith

pub closing-status_of : (to : Resolution) → closing (status_of to) ≡ event_of to ∷ []
closing-status_of approve = refl
closing-status_of reject = refl
closing-status_of cancel = refl

pub resolve_approval-missing :
    (clock : Clock) (id : String) (to : Resolution) (s : Db)
    → find_approval id s ≡ none
    → resolve_approval clock id to s ≡ (err (approval_not_found id), s)
unfolding resolve_approval
resolve_approval-missing clock id to s e = rw (e, resolve_approval) refl

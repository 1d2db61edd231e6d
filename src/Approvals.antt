-- ===== src/Approvals.antt =====
-- core/src/approvals/approval.repository.ts and sqlite-approval.repository.ts: the approval table,
-- its event table, and the repository's methods, each one uninterrupted run of the event loop.
-- Times are milliseconds, and a method takes its readings of the clock in order from `Clock`.
-- The UUID that `randomUUID` returns is an argument.
mod Table
pub mod History
pub mod Outcomes
pub mod Runs
pub mod Permanence
pub mod Listing
pub mod Once
pub mod Service
mod Tests
unfoldable pub use Table.*
use Prim.Native.Nat.{Ordering}
use Prim.Native.String.{compare}
use icos_v.Base.{
  ℕ, suc, String, Bool, true, false, ◌&&◌, Option, none, some, List, [], ◌∷◌, ◌++◌, map, ltb, leb,
  ◌==◌, str_eq, if◌then◌else◌,
}
use icos_v.Base.Exec.{
  Exec, ok, err, pure, throw, gets, or_throw, transaction, modify, ◌>>=◌, ◌>>◌, Clock, after,
}
use icos_v.Base.Table.{select, update, changes, find}
use icos_v.Base.Sort.{sort}

abbrev expire_now : ℕ → ApprovalRow → Repo ApprovalRow
expire_now now row = do
  transaction (do
    modify (close_pending row.id expired now)
    modify (record_event row.id row.session_id was_expired now))
  pure (close_row expired now row)

abbrev expire_due : Clock → ApprovalRow → Option ℕ → Repo ApprovalRow
expire_due clock row none = pure row
expire_due clock row (some deadline) =
    if ltb (clock 0) deadline then pure row else expire_now (clock 1) row

unfoldable pub apply_lazy_expiry : Clock → ApprovalRow → Repo ApprovalRow
apply_lazy_expiry clock row =
    if is_pending row.status then expire_due clock row row.expires_at else pure row

unfoldable pub get_approval : Clock → String → Repo (Option ApprovalRequest)
get_approval clock id s = elim (find_approval id s) [
  | none ↦ pure none s
  | some row ↦ (do fresh ← apply_lazy_expiry clock row; pure (some (to_request fresh))) s
]

abbrev or_empty : Option String → String
or_empty none = ""
or_empty (some text) = text

abbrev pub new_row : String → ℕ → NewApproval → ApprovalRow
new_row id now input = record {
  id = id;
  session_id = input.session_id;
  action = input.action;
  description = or_empty input.description;
  status = pending;
  created_at = now;
  updated_at = now;
  expires_at = input.expires_at;
  resolved_at = none;
}

unfoldable pub create_approval : Clock → String → NewApproval → Repo ApprovalRequest
unfolding get_approval
create_approval clock id input = do
  transaction (do
    insert_approval (new_row id (clock 0) input)
    modify (record_event id input.session_id was_created (clock 0)))
  created ← get_approval (after 1 clock) id
  or_throw created (approval_not_found id)

-- The loser of a race is told the status that it finds.
abbrev lost_race : String → Resolution → Repo (Unit {0})
lost_race id to = do
  loser ← gets (find_approval id)
  row ← or_throw loser (approval_not_found id)
  throw (invalid_transition id row.status (status_of to))

abbrev pub close_once : ℕ → String → ApprovalRequest → Resolution → Repo (Unit {0})
close_once now id current to = transaction (do
  n ← close_changes id (status_of to) now
  if n == 0 then lost_race id to else modify (record_event id current.session_id (event_of to) now))

abbrev pub resolve_pending : Clock → String → ApprovalRequest → Resolution → Repo ApprovalRequest
resolve_pending clock id current to = do
  close_once (clock 2) id current to
  resolved ← get_approval (after 3 clock) id
  or_throw resolved (approval_not_found id)

unfoldable pub resolve_approval : Clock → String → Resolution → Repo ApprovalRequest
unfolding apply_lazy_expiry get_approval
resolve_approval clock id to = do
  found ← gets (find_approval id)
  row ← or_throw found (approval_not_found id)
  current ← apply_lazy_expiry clock row
  if is_pending current.status
      then resolve_pending clock id (to_request current) to
      else throw (invalid_transition id current.status (status_of to))

-- WHERE clauses that are left out when the option is undefined.
abbrev matches_text : Option String → String → Bool
matches_text none x = true
matches_text (some y) x = str_eq x y

abbrev matches_status : Option ApprovalStatus → ApprovalStatus → Bool
matches_status none x = true
matches_status (some y) x = status_eq x y

abbrev pub past : ℕ → Option ℕ → Bool
past now none = false
past now (some deadline) = leb deadline now

abbrev pub lapsed : ℕ → Option String → ApprovalRow → Bool
lapsed now session row =
    is_pending row.status && past now row.expires_at && matches_text session row.session_id

-- One round of the loop of `expireLapsed`: only the transition that lands records the event.
abbrev pub mark_expired : ℕ → ApprovalRow → Db → Db
mark_expired now row s =
    let marked = close_pending row.id expired now s in
    if changes (pending_with row.id) s.approvals == 0
    then marked
    else record_event row.id row.session_id was_expired now marked

pub mark_all : ℕ → List ApprovalRow → Db → Db
mark_all now [] s = s
mark_all now (row ∷ rows) s = mark_all now rows (mark_expired now row s)

unfoldable pub expire_lapsed : ℕ → Option String → Db → Db
unfolding mark_all
expire_lapsed now session s = mark_all now (select (lapsed now session) s.approvals) s

abbrev pub listed : Option String → Option ApprovalStatus → ApprovalRow → Bool
listed session status row = matches_text session row.session_id && matches_status status row.status

-- Texts compare by their bytes.
abbrev pub text_leb : String → String → Bool
text_leb a b = elim (compare a b) [ Ordering.gt ↦ false | _ ↦ true ]

-- ORDER BY created_at ASC, id ASC, texts by their bytes
abbrev pub row_before : ApprovalRow → ApprovalRow → Bool
row_before a b =
    if a.created_at == b.created_at then text_leb a.id b.id else leb a.created_at b.created_at

unfoldable pub list_approvals :
    Clock → Option String → Option ApprovalStatus → Repo (List ApprovalRequest)
unfolding expire_lapsed
list_approvals clock session status = do
  modify (expire_lapsed (clock 0) session)
  rows ← gets (λ s. select (listed session status) s.approvals)
  pure (map to_request (sort row_before rows))

unfoldable pub list_events : String → Db → List ApprovalEvent
list_events id s = select (λ e. str_eq e.approval_id id) s.approval_events

-- ===== src/Approvals/Once.antt =====
-- An approval is resolved at most once, whatever runs in between.
use icos_v.Base.{
  String, ◌≡◌, refl, sym, ap, ◌∙◌, inl, inr, true, false, some, List, Option-cases, Bool-cases,
}
use icos_v.Base.Exec.{Result, ok, err, Clock}
use icos_v.Base.Table.{UniqueKeys, UniqueKeys-update}
use icos_v.Approvals.{
  Resolution, approve, reject, cancel, status_of, event_of, is_pending, ApprovalRow, Db, key, Error,
  invalid_transition, find_approval, pending_with, close_row, resolve_approval, ApprovalRequest,
  to_request,
}
use icos_v.Approvals.History.{closed}
use icos_v.Approvals.Outcomes.{
  resolve_approval-eq, find-closed_self, resolve_approval-missing, is_due, resolved,
}
use icos_v.Approvals.Runs.{Call, run}
use icos_v.Approvals.Permanence.{run_settled, run-UniqueKeys}

not_pending : (to : Resolution) → is_pending (status_of to) ≡ false
not_pending approve = refl
not_pending reject = refl
not_pending cancel = refl

-- A successful resolution found a pending row that was not due, and closed it.
pub resolved_inversion :
    (clock : Clock) (id : String) (to : Resolution) (row : ApprovalRow) (s s' : Db)
    (q : ApprovalRequest)
    → resolved clock id to row s ≡ (ok q, s')
    → (is_pending row.status ≡ true)
      × (q ≡ to_request (close_row (status_of to) (clock 2) row))
      × (s' ≡ closed id row.session_id (status_of to) (event_of to) (clock 2) s)
resolved_inversion clock id to row s s' q e = elim (Bool-cases (is_due (clock 0) row)) [
  | inl due ↦ cc (rw due at e)
  | inr in_time ↦ elim (Bool-cases (is_pending row.status)) [
    | inl p ↦
        let e' = rw (in_time, p) at e in
        (
          p,
          cc (ap (λ (x : Result Error ApprovalRequest × Db). x.0) e'),
          sym (ap (λ (x : Result Error ApprovalRequest × Db). x.1) e'),
        )
    | inr n ↦ cc (rw (in_time, n) at e)
  ]
]

refused :
    (clock : Clock) (id : String) (to : Resolution) (row : ApprovalRow) (s : Db)
    → is_pending row.status ≡ false
    → resolved clock id to row s ≡ (err (invalid_transition id row.status (status_of to)), s)
refused clock id to row s p = rw p

-- After a successful resolution, whatever calls run next and whatever the clock reads, every
-- further attempt to resolve the approval is refused with the status of the first one, and changes
-- nothing. Approval ids are unique to begin with.
pub resolved_once :
    (clock again : Clock) (id : String) (to to' : Resolution) (q : ApprovalRequest) (s s' : Db)
    (cs : List Call)
    → UniqueKeys key s.approvals
    → resolve_approval clock id to s ≡ (ok q, s')
    → (q.status ≡ status_of to)
      × (resolve_approval again id to' (run cs s')
          ≡ (err (invalid_transition id (status_of to) (status_of to')), run cs s'))
resolved_once clock again id to to' q s s' cs u e = elim (Option-cases (find_approval id s)) [
  | inl missing ↦ cc (resolve_approval-missing clock id to s missing)
  | inr (row, found) ↦
      let (p, eq, es) =
        resolved_inversion clock id to row s s' q
          (sym (resolve_approval-eq clock id to s row u found) ∙ e) in
      let row' : ApprovalRow = close_row (status_of to) (clock 2) row in
      let found' : find_approval id s' ≡ some row' =
        rw es (
          find-closed_self id row.session_id (status_of to) (event_of to) (clock 2) s row found
            p) in
      let u' : UniqueKeys key s'.approvals = rw es (
        UniqueKeys-update key (pending_with id) (close_row (status_of to) (clock 2)) (λ r. refl)
          s.approvals u) in
      let found'' = run_settled cs s' id row' u' found' (not_pending to) in
      (
        rw eq refl,
        resolve_approval-eq again id to' (run cs s') row' (run-UniqueKeys cs s' u') found''
            ∙ refused again id to' row' (run cs s') (not_pending to),
      )
]

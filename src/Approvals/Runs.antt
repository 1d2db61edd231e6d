-- ===== src/Approvals/Runs.antt =====
-- Any sequence of repository calls, from an empty table, with any clock.
use icos_v.Base.{
  ℕ, String, ◌≡◌, refl, sym, subst, inl, inr, true, Option, none, some, List, [], ◌∷◌, arith,
  Option-cases, Bool-cases,
}
use icos_v.Base.Exec.{Clock}
use icos_v.Base.Table.{
  select, changes, find-key, UniqueKeys, changes_found, changes_missing, update_unchanged,
}
use icos_v.Approvals.{
  ApprovalStatus, expired, ApprovalEventType, was_expired, Resolution, status_of, event_of,
  is_pending, ApprovalRow, NewApproval, Db, key, find_approval, pending_with, close_row,
  get_approval, create_approval, resolve_approval, past, has_session, mark_expired, mark_all,
  expire_lapsed, list_approvals, lapsed,
}
use icos_v.Approvals.History.{closed, closing}
use icos_v.Approvals.Outcomes.{
  resolve_approval-eq, create_approval-eq, create_approval-refused, get_approval-eq,
  get_approval-missing, inserted, expire, is_due, find-inserted, resolve_approval-missing,
  closing-status_of,
}

-- One call of the repository with its arguments.
pub data Call : Type 0 where
  creates : Clock → String → NewApproval → Call
  gets_one : Clock → String → Call
  lists : Clock → Option String → Option ApprovalStatus → Call
  resolves : Clock → String → Resolution → Call

unfoldable pub step : Call → Db → Db
step (creates clock id input) s = (create_approval clock id input s).1
step (gets_one clock id) s = (get_approval clock id s).1
step (lists clock session status) s = (list_approvals clock session status s).1
step (resolves clock id to) s = (resolve_approval clock id to s).1

unfoldable pub run : List Call → Db → Db
run [] s = s
run (c ∷ cs) s = run cs (step c s)

-- An invariant of the tables is kept by every call, if it is kept by closing a pending row with its
-- event and by inserting a new pending row with its event.
module _ (P : Db → Type 0) (unique : (s : Db) → P s → UniqueKeys key s.approvals)
    (close : (id session : String) (to : ApprovalStatus) (event : ApprovalEventType) (now : ℕ)
        (s : Db) (row : ApprovalRow)
      → find_approval id s ≡ some row
      → is_pending row.status ≡ true
      → closing to ≡ event ∷ []
      → P s
      → P (closed id session to event now s))
    (insert : (id : String) (now : ℕ) (input : NewApproval) (s : Db)
      → find_approval id s ≡ none
      → P s
      → P (inserted id now input s)) where
  expire_keeps :
      (row : ApprovalRow) (id : String) (now at : ℕ) (s : Db)
      → find_approval id s ≡ some row
      → is_due at row ≡ true
      → P s
      → P (expire row now s)
  expire_keeps row id now at s e due =
      let e' =
        subst (λ k. find_approval k s ≡ some row) (sym (find-key key id s.approvals row e)) e in
      close row.id row.session_id expired was_expired now s row e' (ground arith) refl

  mark_expired_keeps : (now : ℕ) (row : ApprovalRow) (s : Db) → P s → P (mark_expired now row s)
  mark_expired_keeps now row s h = elim (Option-cases (find_approval row.id s)) [
    | inl missing ↦
        let none_left = changes_missing key (λ r. is_pending r.status) row.id s.approvals missing in
        rw
          (
            none_left,
            update_unchanged (pending_with row.id) (close_row expired now) s.approvals none_left,
          )
          h
    | inr (r, e) ↦
        let count =
          changes_found key (λ x. is_pending x.status) row.id s.approvals r (unique s h) e in
        elim (Bool-cases (is_pending r.status)) [
          | inl p ↦
              rw (count, p) (close row.id row.session_id expired was_expired now s r e p refl h)
          | inr q ↦
              let none_left : changes (pending_with row.id) s.approvals ≡ 0 = rw (count, q) in
              rw
                (
                  none_left,
                  update_unchanged (pending_with row.id) (close_row expired now) s.approvals
                      none_left,
                )
                h
        ]
  ]

  mark_all_keeps : (now : ℕ) (rows : List ApprovalRow) (s : Db) → P s → P (mark_all now rows s)
  unfolding mark_all
  mark_all_keeps now [] s h = h
  mark_all_keeps now (row ∷ rows) s h =
      mark_all_keeps now rows (mark_expired now row s) (mark_expired_keeps now row s h)

  get_approval_keeps : (clock : Clock) (id : String) (s : Db) → P s → P (get_approval clock id s).1
  get_approval_keeps clock id s h = elim (Option-cases (find_approval id s)) [
    | inl missing ↦ rw (get_approval-missing clock id s missing) h
    | inr (row, e) ↦
        rw (get_approval-eq clock id s row e) (elim (Bool-cases (is_due (clock 0) row)) [
          | inl due ↦ rw due (expire_keeps row id (clock 1) (clock 0) s e due h)
          | inr in_time ↦ rw in_time h
        ])
  ]

  create_approval_keeps :
      (clock : Clock) (id : String) (input : NewApproval) (s : Db)
      → P s
      → P (create_approval clock id input s).1
  create_approval_keeps clock id input s h =
      elim (Bool-cases (has_session input.session_id s.sessions)) [
        | inl known ↦ elim (Option-cases (find_approval id s)) [
          | inl fresh ↦
              let s' : Db = inserted id (clock 0) input s in
              let h' = insert id (clock 0) input s fresh h in
              rw (create_approval-eq clock id input s known fresh)
                (elim (Bool-cases (past (clock 1) input.expires_at)) [
                  | inl due ↦ rw due (
                      expire_keeps _ id (clock 2) (clock 1) s'
                        (find-inserted id (clock 0) input s fresh) due h')
                  | inr in_time ↦ rw in_time h'
                ])
          | inr (row, e) ↦ rw (create_approval-refused clock id input s (inr (λ q. cc))) h
        ]
        | inr unknown ↦ rw (create_approval-refused clock id input s (inl unknown)) h
      ]

  resolve_approval_keeps :
      (clock : Clock) (id : String) (to : Resolution) (s : Db)
      → P s
      → P (resolve_approval clock id to s).1
  resolve_approval_keeps clock id to s h = elim (Option-cases (find_approval id s)) [
    | inl missing ↦ rw (resolve_approval-missing clock id to s missing) h
    | inr (row, e) ↦
        rw (resolve_approval-eq clock id to s row (unique s h) e)
          (elim (Bool-cases (is_due (clock 0) row)) [
            | inl due ↦ rw due (expire_keeps row id (clock 1) (clock 0) s e due h)
            | inr in_time ↦ rw in_time (elim (Bool-cases (is_pending row.status)) [
              | inl p ↦ rw p (
                  close id row.session_id (status_of to) (event_of to) (clock 2) s row e p
                    (closing-status_of to) h)
              | inr q ↦ rw q h
            ])
          ])
  ]

  pub step_keeps : (c : Call) (s : Db) → P s → P (step c s)
  unfolding step list_approvals expire_lapsed
  step_keeps (creates clock id input) s h = create_approval_keeps clock id input s h
  step_keeps (gets_one clock id) s h = get_approval_keeps clock id s h
  step_keeps (lists clock session status) s h =
      mark_all_keeps (clock 0) (select (lapsed (clock 0) session) s.approvals) s h
  step_keeps (resolves clock id to) s h = resolve_approval_keeps clock id to s h

  pub run_keeps : (cs : List Call) (s : Db) → P s → P (run cs s)
  unfolding run
  run_keeps [] s h = h
  run_keeps (c ∷ cs) s h = run_keeps cs (step c s) (step_keeps c s h)

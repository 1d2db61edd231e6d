-- ===== src/Approvals/Service/Binding.antt =====
-- An approval is resolved for its own session only, and each resolution is announced once.
use icos_v.Base.{
  String, ◌≡◌, refl, inl, inr, ◌≢◌, none, some, List, [], ◌∷◌, ◌++◌, arith, eq_iff, eq_refl,
  Bool-cases,
}
use icos_v.Base.Exec.{Result, ok, err, ◌>>=◌, Clock, after}
use icos_v.Base.Table.{UniqueKeys}
use icos_v.Approvals.{
  Resolution, ApprovalRow, ApprovalRequest, Db, key, Error, find_approval, get_approval,
  resolve_approval,
}
use icos_v.Approvals.Outcomes.{
  resolved, resolve_approval-eq, get_approval-eq, get_approval-missing, is_due,
}
use icos_v.Approvals.Runs.{Call, run}
use icos_v.Approvals.Service.{
  Notice, approval_resolved, HttpError, not_found, bad_request, Server, http_error, resolve,
  announce, from_repo,
}

-- The repository after the first read of `resolve` and what runs until its second call.
abbrev pub seen : Clock → String → List Call → Db → Db
seen clock id others db = run others (get_approval clock id db).1

-- An approval of another session is not resolved: the answer is 400, nothing is announced, and the
-- database is as the first read and the other requests leave it.
pub resolve_other_session :
    (clock : Clock) (id session : String) (to : Resolution) (others : List Call) (s : Server)
    (row : ApprovalRow)
    → find_approval id s.db ≡ some row
    → row.session_id ≢ session
    → resolve clock id session to others s
      ≡ (err bad_request, record s { db = seen clock id others s.db })
unfolding resolve
resolve_other_session clock id session to others s row found other =
    rw (get_approval-eq clock id s.db row found) (ground (arith, eq_iff row.session_id session))

pub resolve_unknown :
    (clock : Clock) (id session : String) (to : Resolution) (others : List Call) (s : Server)
    → find_approval id s.db ≡ none
    → resolve clock id session to others s ≡ (err not_found, s)
unfolding resolve
resolve_unknown clock id session to others s missing =
    rw (get_approval-missing clock id s.db missing) refl

-- What the second call of `resolve` makes of the row that it finds.
abbrev pub answer :
    List Notice → Result Error ApprovalRequest × Db → Result HttpError ApprovalRequest × Server
answer notices (ok q, db) = (
  ok q,
  record { db = db; published = notices ++ approval_resolved q.id q.status q.session_id ∷ [] },
)
answer notices (err e, db) = (err (http_error e), record { db = db; published = notices })

announce-answer :
    (s : Server) (r : Result Error ApprovalRequest × Db)
    → ((λ (t : Server). from_repo http_error t.published r) >>= announce) s ≡ answer s.published r
announce-answer s (ok q, db) = refl
announce-answer s (err e, db) = refl

get_approval-session :
    (clock : Clock) (id : String) (db : Db) (row : ApprovalRow)
    → find_approval id db ≡ some row
    → (q : ApprovalRequest) × (get_approval clock id db
        ≡ (ok (some q), (get_approval clock id db).1))
      × (q.session_id ≡ row.session_id)
get_approval-session clock id db row e =
    rw (get_approval-eq clock id db row e) (elim (Bool-cases (is_due (clock 0) row)) [
      | inl due ↦ rw due (_, refl, refl)
      | inr in_time ↦ rw in_time (_, refl, refl)
    ])

-- For its own session the approval is resolved by the row that the second call finds, whatever ran
-- before it: a success is announced once with its status, a refusal not at all.
-- Approval ids are unique by then.
pub resolve_own_session :
    (clock : Clock) (id : String) (to : Resolution) (others : List Call) (s : Server)
    (row row' : ApprovalRow)
    → find_approval id s.db ≡ some row
    → UniqueKeys key (seen clock id others s.db).approvals
    → find_approval id (seen clock id others s.db) ≡ some row'
    → resolve clock id row.session_id to others s
      ≡ answer s.published (resolved (after 2 clock) id to row' (seen clock id others s.db))
unfolding resolve
resolve_own_session clock id to others s row row' found u found' =
    let (q, eq, same) = get_approval-session clock id s.db row found in
    let t : Server = record s { db = seen clock id others s.db } in
    let last = resolve_approval-eq (after 2 clock) id to t.db row' u found' in
    rw (← last) (
      rw (eq, resolve)
        (rw (same, eq_refl row.session_id)
          (announce-answer t (resolve_approval (after 2 clock) id to t.db))))

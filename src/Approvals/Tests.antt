-- ===== src/Approvals/Tests.antt =====
-- The theorems about approvals at concrete inputs, and runs of the code.
use mathlib.Core.List.{Perm}
use icos_v.Base.{ℕ, ◌+◌, ◌*◌, ◌≡◌, refl, false, none, some, List, [], ◌∷◌, map, arith, eq_iff, All}
use icos_v.Base.Exec.{ok, err, Clock, after}
use icos_v.Base.Sort.{sort, Chain}
use icos_v.Base.Table.{select, update, changes, find, UniqueKeys, has_key}
use icos_v.Approvals.{
  pending, approved, rejected, expired, cancelled, was_created, approve, reject, cancel, status_of,
  ApprovalRow, NewApproval, Db, key, invalid_transition, find_approval, close_row, create_approval,
  resolve_approval, list_events, past, to_request, has_session, expire_lapsed, list_approvals,
  listed,
}
use icos_v.Approvals.History.{History}
use icos_v.Approvals.Outcomes.{resolved, resolve_approval-eq}
use icos_v.Approvals.Runs.{Call, creates, lists, resolves, step, run}
use icos_v.Approvals.Permanence.{run-empty-History, run_settled, empty}
use icos_v.Approvals.Listing.{IsListedBefore, list_approvals_current}
use icos_v.Approvals.Once.{resolved_once}
use icos_v.Approvals.Service.{Server, resolve, bad_request}
use icos_v.Approvals.Service.Binding.{resolve_other_session, resolve_own_session, seen, answer}

code : Unit {0}
unfolding find select update changes has_session has_key list_events create_approval
    resolve_approval list_approvals run step sort
code = tt

-- One reading a second from the given time.
abbrev from : ℕ → Clock
from t n = t + 1000 * n

abbrev waiting : ApprovalRow
waiting = record {
  id = "a1";
  session_id = "s1";
  action = "fs.write";
  description = "";
  status = pending;
  created_at = 10;
  updated_at = 10;
  expires_at = some 60000;
  resolved_at = none;
}

abbrev one_waiting : Db
one_waiting = record {
  sessions = "s1" ∷ [];
  approvals = waiting ∷ [];
  approval_events =
      record { id = 1; approval_id = "a1"; session_id = "s1"; event = was_created; created_at = 10 }
      ∷ [];
  last_event = 1;
}

unique_waiting : UniqueKeys key one_waiting.approvals
unfolding code
unique_waiting = (refl, tt)

abbrev asked : NewApproval
asked = record {
  session_id = "s1";
  action = "fs.write";
  description = none;
  expires_at = some 60000;
}

abbrev others : List Call
others =
    creates (from 2000) "a2" asked
    ∷ lists (from 90000) none none
    ∷ resolves (from 91000) "a1" reject
    ∷ []

resolved_once_example :
    (approved ≡ status_of approve)
    × (resolve_approval
          (from 100000)
          "a1"
          cancel
          (run others (resolve_approval (from 1000) "a1" approve one_waiting).1)
        ≡ (
          err (invalid_transition "a1" approved cancelled),
          run others (resolve_approval (from 1000) "a1" approve one_waiting).1,
        ))
unfolding code
resolved_once_example =
    resolved_once (from 1000) (from 100000) "a1" approve cancel _ one_waiting _ others
      unique_waiting refl

run-empty-History_example : History (run others (empty ("s1" ∷ [])))
run-empty-History_example = run-empty-History ("s1" ∷ []) others

abbrev rejected_row : ApprovalRow
rejected_row = close_row rejected 50 waiting

run_settled_example :
    find_approval "a1" (run others (record one_waiting { approvals = rejected_row ∷ [] }))
    ≡ some rejected_row
unfolding code
run_settled_example =
    run_settled others (record one_waiting { approvals = rejected_row ∷ [] }) "a1" rejected_row
      (refl, tt) refl refl

resolve_approval-eq_example :
    resolve_approval (from 70000) "a1" approve one_waiting
    ≡ resolved (from 70000) "a1" approve waiting one_waiting
unfolding code
resolve_approval-eq_example =
    resolve_approval-eq (from 70000) "a1" approve one_waiting waiting unique_waiting refl

list_approvals_current_example :
    (shown : List ApprovalRow) × (list_approvals (from 70000) none (some expired) one_waiting
      ≡ (ok (map to_request shown), expire_lapsed 70000 none one_waiting))
    × Chain IsListedBefore shown
    × Perm shown
        (select (listed none (some expired)) (expire_lapsed 70000 none one_waiting).approvals)
    × All (λ r. r.status ≡ pending → past 70000 r.expires_at ≡ false) shown
list_approvals_current_example =
    list_approvals_current (from 70000) none (some expired) one_waiting unique_waiting

abbrev server : Server
server = record { db = one_waiting; published = [] }

resolve_other_session_example :
    resolve (from 1000) "a1" "s2" approve others server
    ≡ (err bad_request, record server { db = seen (from 1000) "a1" others one_waiting })
unfolding code
resolve_other_session_example =
    resolve_other_session (from 1000) "a1" "s2" approve others server waiting refl
      (λ e. ground (arith, eq_iff "s1" "s2"))

resolve_own_session_example :
    resolve (from 1000) "a1" "s1" approve [] server
    ≡ answer [] (resolved (after 2 (from 1000)) "a1" approve waiting one_waiting)
unfolding code
resolve_own_session_example =
    resolve_own_session (from 1000) "a1" approve [] server waiting waiting refl unique_waiting refl

-- A due request that is approved too late is marked as expired.
late_approval :
    (resolve_approval (from 70000) "a1" approve one_waiting).0
    ≡ err (invalid_transition "a1" expired approved)
unfolding code
late_approval = refl

-- ===== src/Approvals/Permanence.antt =====
-- What holds after any sequence of repository calls, with any clock.
use icos_v.Base.{ℕ, String, ◌≡◌, refl, false, none, some, List, [], arith, eq_iff, Option-cases}
use icos_v.Base.Table.{select, find, find-append, UniqueKeys, UniqueKeys-append, UniqueKeys-update}
use icos_v.Approvals.{
  ApprovalStatus, ApprovalEventType, is_pending, ApprovalRow, NewApproval, Db, key, find_approval,
  pending_with, close_row, list_events, new_row,
}
use icos_v.Approvals.History.{
  closed, find-closed, closed-History, History, types_of, lifecycle, types-record,
}
use icos_v.Approvals.Outcomes.{inserted}
use icos_v.Approvals.Runs.{Call, run, run_keeps}

inserted-log :
    (id j : String) (now : ℕ) (input : NewApproval) (s : Db)
    → find_approval id s ≡ none
    → types_of j s ≡ lifecycle (find_approval j s)
    → types_of j (inserted id now input s) ≡ lifecycle (find_approval j (inserted id now input s))
unfolding list_events
inserted-log id j now input s fresh h =
    rw (types-record, find-append, h)
      (ground (arith, eq_iff id j, Option-cases (find_approval j s)))

inserted-History :
    (id : String) (now : ℕ) (input : NewApproval) (s : Db)
    → find_approval id s ≡ none
    → History s
    → History (inserted id now input s)
inserted-History id now input s fresh h = record {
  unique = UniqueKeys-append key s.approvals (new_row id now input) fresh h.unique;
  log = λ j. inserted-log id j now input s fresh (h.log j);
}

abbrev pub empty : List String → Db
empty sessions = record {
  sessions = sessions;
  approvals = [];
  approval_events = [];
  last_event = 0;
}

empty-History : (sessions : List String) → History (empty sessions)
unfolding list_events select find
empty-History sessions = record { unique = tt; log = λ id. refl }

-- Whatever calls a server makes from empty tables, and whatever its clock reads, approval ids stay
-- unique and the events of each approval are exactly those of its status: none if it is unknown,
-- its creation if it is pending, and its creation and the one closing event of its status if not.
pub run-empty-History :
    (sessions : List String) (cs : List Call) → History (run cs (empty sessions))
run-empty-History sessions cs =
    run_keeps History (λ s h. h.unique) closed-History inserted-History cs (empty sessions)
      (empty-History sessions)

-- An approval that is no longer pending.
abbrev IsSettled : String → ApprovalRow → Db → Type 0
IsSettled id row s = UniqueKeys key s.approvals × (find_approval id s ≡ some row)

closed-IsSettled :
    (id : String) (row : ApprovalRow)
    → is_pending row.status ≡ false
    → (j session : String) (to : ApprovalStatus) (event : ApprovalEventType) (now : ℕ) (s : Db)
    → IsSettled id row s
    → IsSettled id row (closed j session to event now s)
closed-IsSettled id row q j session to event now s h = (
  UniqueKeys-update key (pending_with j) (close_row to now) (λ r. refl) s.approvals h.0,
  rw (find-closed, h.1) (ground arith),
)

inserted-IsSettled :
    (id : String) (row : ApprovalRow) (j : String) (now : ℕ) (input : NewApproval) (s : Db)
    → find_approval j s ≡ none
    → IsSettled id row s
    → IsSettled id row (inserted j now input s)
inserted-IsSettled id row j now input s fresh h =
    (UniqueKeys-append key s.approvals (new_row j now input) fresh h.0, rw (find-append, h.1))

-- Once an approval is approved, rejected, cancelled or expired, no sequence of calls changes any
-- column of its row, given that approval ids are unique to begin with.
pub run_settled :
    (cs : List Call) (s : Db) (id : String) (row : ApprovalRow)
    → UniqueKeys key s.approvals
    → find_approval id s ≡ some row
    → is_pending row.status ≡ false
    → find_approval id (run cs s) ≡ some row
run_settled cs s id row u e q =
    (run_keeps (IsSettled id row) (λ t h. h.0)
      (λ j session to event now t r f p c h. closed-IsSettled id row q j session to event now t h)
      (inserted-IsSettled id row) cs s (u, e)).1

pub run-UniqueKeys :
    (cs : List Call) (s : Db) → UniqueKeys key s.approvals → UniqueKeys key (run cs s).approvals
run-UniqueKeys =
    run_keeps (λ s. UniqueKeys key s.approvals) (λ s u. u)
      (λ id session to event now s row e p c u.
        UniqueKeys-update key (pending_with id) (close_row to now) (λ r. refl) s.approvals u)
      (λ id now input s fresh u. UniqueKeys-append key s.approvals (new_row id now input) fresh u)

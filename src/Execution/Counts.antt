-- ===== src/Execution/Counts.antt =====
-- How often a request is executed (core/src/tools/tool-execution.service.ts): the count over what was
-- sent out, and the invariant that goes with it.
use icos_v.Base.{
  ℕ, ◌+◌, String, false, some, List, [], ◌∷◌, ◌++◌, str_eq, if◌then◌else◌, ◌≡◌, ◌⊎◌, refl, arith,
}
use icos_v.Base.Exec.{Result, ok, err}
use icos_v.Base.Table.{UniqueKeys}
use icos_v.Ledger
use icos_v.Ledger.{Json, ToolExecutionInput, ValidationOutcome, Outcome, LedgerError, find_request}
use icos_v.Ledger.Moves.{is_claimable}
use icos_v.Execution.{Effect, tool_called, searched, asked_model, World, on_ledger, seen_by_ledger}
use icos_v.Execution.{from_ledger}

-- How often the request has been executed outside the ledger.
abbrev pub counts : String → Effect → ℕ
counts id (tool_called request_id server tool args) = if str_eq request_id id then 1 else 0
counts id (searched request_id args) = if str_eq request_id id then 1 else 0
counts id (asked_model request_id) = 0

abbrev pub executions : String → List Effect → ℕ
executions id [] = 0
executions id (e ∷ es) = counts id e + executions id es

pub executions-append :
    (id : String) (xs ys : List Effect)
    → executions id (xs ++ ys) ≡ executions id xs + executions id ys
executions-append id [] ys = omega arith
executions-append id (x ∷ xs) ys = omega (arith, executions-append id xs ys)

-- By the calls that are looked at and by the others.
abbrev pub total : String → World → ℕ
total id w = executions id w.effects + executions id w.elsewhere

-- A request that has been executed cannot be claimed any more.
abbrev pub IsSpent : String → World → Type 0
IsSpent id w =
    (row : Ledger.Row) × (find_request id w.ledger ≡ some row) × (is_claimable row.state ≡ false)

abbrev pub IsOnce : World → Type 0
IsOnce w =
    UniqueKeys Ledger.key w.ledger.tool_requests
    × ((id : String) → (total id w ≡ 0) ⊎ ((total id w ≡ 1) × IsSpent id w))

pub on_ledger-world :
    {A : Type 0} (m : Ledger.Repo A) (w : World)
    → (on_ledger m w).1 ≡ record w { ledger = (m (seen_by_ledger w)).1 }
unfolding on_ledger
on_ledger-world {A} m w = go (m (seen_by_ledger w))
  where
    go : (r : Result LedgerError A × Ledger.Db) → (from_ledger w r).1 ≡ record w { ledger = r.1 }
    go (ok a, s) = refl
    go (err e, s) = refl

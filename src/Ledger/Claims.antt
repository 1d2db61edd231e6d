-- ===== src/Ledger/Claims.antt =====
-- The claims: at most one owner executes a request, writes its final answer or its transcript.
-- The four claims of an execution differ in the state that they start from and in the kind of tool
-- that they accept. The UUID that becomes the token is an argument.
use icos_v.Base.{
  ℕ, String, Bool, true, false, not, ◌&&◌, Option, none, some, str_eq, ◌==◌, if◌then◌else◌,
}
use icos_v.Base.Exec.{pure, transaction, ◌>>=◌, ◌>>◌}
use icos_v.Ledger.{
  ToolExecutionInput, unpermitted_tool, ValidationOutcome, request, refused, Outcome, final_claimed,
  LedgerState, invalid, executing, released, Row, Repo, is_some, same_token, is_validated,
  is_awaiting, is_executing, is_done, is_released, is_final_pending, same_validation, required,
  require_session, write,
}

abbrev pub is_search : ValidationOutcome → Bool
is_search (request r) = str_eq r.name "session.search"
is_search _ = false

abbrev pub is_rename : ValidationOutcome → Bool
is_rename (request r) = str_eq r.name "session.rename"
is_rename _ = false

abbrev pub is_foreign : ValidationOutcome → Bool
is_foreign (request r) = is_some r.foreign
is_foreign _ = false

-- A validation that passes but is not the stored one invalidates as `unpermitted_tool`.
abbrev pub failure_of : ValidationOutcome → ValidationOutcome
failure_of (refused f) = refused f
failure_of _ = refused unpermitted_tool

abbrev pub invalidate_row : ValidationOutcome → Row → Row
invalidate_row validation r = record r { state = invalid; validation = failure_of validation }

abbrev pub execute_row : String → Row → Row
execute_row token r = record r { state = executing; execution_token = some token }

abbrev pub at_start : String → (LedgerState → Bool) → Row → Bool
at_start id start r = str_eq r.request_id id && start r.state

abbrev pub unowned : String → (LedgerState → Bool) → Row → Bool
unowned id start r = str_eq r.request_id id && (start r.state && not (is_some r.execution_token))

-- A row that starts parked must have its approval.
abbrev pub from_validated : Row → Bool
from_validated r = is_validated r.state

abbrev pub from_approved : Row → Bool
from_approved r = is_awaiting r.state && is_some r.approval_id

abbrev pub won : String → ℕ → Repo (Option String)
won token n = pure (if n == 1 then some token else none)

abbrev pub owned_by : String → Row → Bool
owned_by token r =
    same_token r.execution_token token && (is_executing r.state && not (is_released r.ownership))

abbrev pub unwritten : String → Row → Bool
unwritten id r = str_eq r.request_id id && not r.transcript_written

abbrev pub final_due : String → Row → Bool
final_due id r =
    str_eq r.request_id id
    && (is_done r.state
        && not (is_released r.ownership)
        && is_some r.execution
        && is_final_pending r.final
        && not (is_some r.final_token))

module _ (size : Outcome → ℕ) where
  abbrev pub claim_agreed :
      (LedgerState → Bool)
      → (ValidationOutcome → Bool)
      → String
      → String
      → ValidationOutcome
      → Row
      → Repo (Option String)
  claim_agreed start accepts id token validation row =
      if accepts validation && same_validation validation row.validation
      then (do n ← write size (unowned id start) (execute_row token); won token n)
      else (do write size (at_start id start) (invalidate_row validation); pure none)

  abbrev pub claim_ready :
      (LedgerState → Bool)
      → (ValidationOutcome → Bool)
      → String
      → String
      → (ToolExecutionInput → ValidationOutcome)
      → Row
      → Repo (Option String)
  claim_ready start accepts id token revalidate row = do
    require_session row.session_id
    claim_agreed start accepts id token (revalidate row.input) row

  abbrev pub claim_execution :
      (Row → Bool)
      → (LedgerState → Bool)
      → (ValidationOutcome → Bool)
      → String
      → String
      → (ToolExecutionInput → ValidationOutcome)
      → Repo (Option String)
  claim_execution startable start accepts id token revalidate = transaction (do
    row ← required id
    if startable row then claim_ready start accepts id token revalidate row else pure none)

  unfoldable pub claim_search :
      String → String → (ToolExecutionInput → ValidationOutcome) → Repo (Option String)
  claim_search = claim_execution from_validated is_validated is_search

  unfoldable pub claim_tool :
      String → String → (ToolExecutionInput → ValidationOutcome) → Repo (Option String)
  claim_tool = claim_execution from_validated is_validated is_foreign

  unfoldable pub claim_approved_tool :
      String → String → (ToolExecutionInput → ValidationOutcome) → Repo (Option String)
  claim_approved_tool = claim_execution from_approved is_awaiting is_foreign

  unfoldable pub claim_rename :
      String → String → (ToolExecutionInput → ValidationOutcome) → Repo (Option String)
  claim_rename = claim_execution from_approved is_awaiting is_rename

  unfoldable pub claim_rename_inline :
      String → String → (ToolExecutionInput → ValidationOutcome) → Repo (Option String)
  claim_rename_inline = claim_execution from_validated is_validated is_rename

  -- The owner gives its claim up.
  unfoldable pub release_owner : String → Repo Bool
  release_owner token = do
    n ← write size (owned_by token) (λ r. record r { ownership = released })
    pure (n == 1)

  unfoldable pub claim_transcript : String → Repo Bool
  claim_transcript id = do
    n ← write size (unwritten id) (λ r. record r { transcript_written = true })
    pure (n == 1)

  unfoldable pub claim_final : String → String → Repo (Option String)
  claim_final id token = transaction (do
    row ← required id
    require_session row.session_id
    n ←
        write size (final_due id)
          (λ r. record r { final = final_claimed; final_token = some token })
    won token n)

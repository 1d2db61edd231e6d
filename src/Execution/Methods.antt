-- ===== src/Execution/Methods.antt =====
-- What the methods of `ToolExecutionService` have in common. The UUIDs that a call draws are arguments.
pub mod Resume
pub mod Consume
use icos_v.Base.{
  ℕ, suc, ◌+◌, String, Bool, true, false, not, ◌&&◌, ◌||◌, Option, none, some, List, str_eq, leb,
  if◌then◌else◌,
}
use icos_v.Base.Exec.{Clock, after}
use icos_v.Base.Program.{pure, throw, gets, or_throw, ◌>>=◌, ◌>>◌}
use icos_v.Approvals
use icos_v.Approvals.{
  ApprovalStatus, pending, approved, rejected, expired, cancelled, ApprovalRequest,
}
use icos_v.Approvals.Service as ApprovalService
use icos_v.Ledger
use icos_v.Ledger.{
  Json, Proposal, text, tool_calls, ToolExecutionInput, ValidatedToolRequest, ValidationOutcome,
  request, text_only, refused, Outcome, matches, renamed, mcp, failure, ExecutionFailure, unknown,
  FinalFailure, LedgerState, Ownership, find_request, is_some, is_executing, is_awaiting, is_done,
  is_validated, is_released, is_final_pending, max_execution_bytes,
}
use icos_v.Ledger.Claims.{
  claim_search, claim_tool, claim_approved_tool, claim_rename, claim_rename_inline, claim_final,
}
use icos_v.Ledger.Finishes.{
  finish_search, finish_tool, finish_rename, mirror_outcome, resolve_released_to_unknown,
  finish_final, Mirror, was_rejected, was_cancelled, was_expired, FinalAnswer, answered, unanswered,
}
use icos_v.Ledger.Register.{register}
use icos_v.Ledger.Recent.{ExecutionPair, recent_executions}
use icos_v.Execution.{
  is_free, is_required, Policy, Measures, McpAnswer, mcp_threw, mcp_answered, SearchAnswer,
  found_matches, timed_out, LlmAnswer, llm_threw, malformed, replied, Answers, tool_called,
  searched, asked_model, World, ServiceError, invalid_request, invalid_session,
  invalid_execution_state, mcp_parking_bypassed, invalid_final_state, Method, on_ledger,
  on_approvals, effect, wait, Waits, required, is_blank, validate,
}

-- The UUIDs of one call.
pub record Fresh : Type 0 where
  pub approval : String
  pub invocation : String
  pub claim : String
  pub final : String

-- What one call of the service depends on besides its input.
pub record Context : Type 0 where
  pub clock : Clock
  pub policy : ℕ → Policy
  pub fresh : Fresh
  pub answers : Answers
  pub waits : Waits
  pub skip_final : Bool

abbrev pub foreign_of : ValidationOutcome → Option ValidatedToolRequest
foreign_of (request r) = if is_some r.foreign then some r else none
foreign_of _ = none

abbrev is_native : String → ValidatedToolRequest → Bool
is_native name r = str_eq r.name name && not (is_some r.foreign)

abbrev pub native_of : String → ValidationOutcome → Option ValidatedToolRequest
native_of name (request r) = if is_native name r then some r else none
native_of name _ = none

abbrev server_of : Option (String × String) → String
server_of none = ""
server_of (some (server, tool)) = server

abbrev tool_of : Option (String × String) → String
tool_of none = ""
tool_of (some (server, tool)) = tool

-- `status !== 'pending'`, as the state to mirror.
abbrev pub mirror_of : ApprovalStatus → Option Mirror
mirror_of rejected = some was_rejected
mirror_of cancelled = some was_cancelled
mirror_of expired = some was_expired
mirror_of _ = none

abbrev pub is_approved : ApprovalStatus → Bool
is_approved approved = true
is_approved _ = false

module _ (measures : Measures) where
  abbrev pub too_large : ℕ → Bool
  too_large n = not (leb n max_execution_bytes)

  abbrev pub mcp_outcome : (server tool : String) → McpAnswer → Outcome
  mcp_outcome server tool mcp_threw = failure ExecutionFailure.mcp_failed
  mcp_outcome server tool (mcp_answered answer is_error) =
      if too_large (measures.byte_length answer)
      then failure ExecutionFailure.result_too_large
      else if is_error
      then failure ExecutionFailure.mcp_failed
      else mcp server tool answer

  abbrev pub call_tool :
      Context → ℕ → (request_id token : String) → ValidatedToolRequest → Method (Unit {0})
  call_tool ctx n id token r = do
    effect (tool_called id (server_of r.foreign) (tool_of r.foreign) r.args)
    wait measures.size (ctx.waits n)
    on_ledger (
        finish_tool measures.size id token
          (mcp_outcome (server_of r.foreign) (tool_of r.foreign) ctx.answers.mcp))
    wait measures.size (ctx.waits (suc n))

  -- `executeForeign`, at the n-th wait.
  abbrev pub execute_foreign : Context → ℕ → (request_id token : String) → Method (Unit {0})
  execute_foreign ctx n id token = do
    claimed ← required id
    r ← or_throw (foreign_of claimed.validation) invalid_execution_state
    call_tool ctx n id token r

  abbrev pub if_claimed : Option String → (String → Method (Unit {0})) → Method (Unit {0})
  if_claimed none k = pure tt
  if_claimed (some token) k = k token

  abbrev pub search_outcome : SearchAnswer → Outcome
  search_outcome (found_matches json) =
      if too_large (measures.size (matches json))
      then failure ExecutionFailure.result_too_large
      else matches json
  search_outcome _ = failure ExecutionFailure.search_failed

  abbrev pub is_late : SearchAnswer → Bool
  is_late timed_out = true
  is_late _ = false

  -- `search`, raced with the timeout. A request that is not a search fails without a search.
  abbrev pub execute_search :
      Context → ℕ → (request_id token : String) → Option ValidatedToolRequest → Method Bool
  execute_search ctx n id token none = do
    wait measures.size (ctx.waits n)
    on_ledger (finish_search measures.size id token (failure ExecutionFailure.search_failed))
    pure true
  execute_search ctx n id token (some r) = do
    effect (searched id r.args)
    wait measures.size (ctx.waits n)
    if is_late ctx.answers.search then pure false else (do
      on_ledger (finish_search measures.size id token (search_outcome ctx.answers.search))
      pure true)

  abbrev pub final_answer : LlmAnswer → FinalAnswer
  final_answer llm_threw = unanswered FinalFailure.llm_failed
  final_answer malformed = unanswered FinalFailure.invalid_final
  final_answer (replied content model) =
      if is_blank content
      then unanswered FinalFailure.invalid_final
      else if too_large (measures.final_size content model)
      then unanswered FinalFailure.final_too_large
      else answered content model

  abbrev pub can_respond : Proposal → Option String → Option Outcome → Bool
  can_respond (tool_calls content model calls) (some invocation) (some outcome) =
      not (str_eq invocation "")
  can_respond _ _ _ = false

  -- `respond`
  abbrev pub respond : Context → ℕ → Ledger.Row → Method FinalAnswer
  respond ctx n durable =
      if can_respond durable.input.proposal durable.invocation_id durable.execution
      then (do
        effect (asked_model durable.request_id)
        wait measures.size (ctx.waits n)
        pure (final_answer ctx.answers.llm))
      else throw invalid_final_state

  abbrev pub answer_claimed : Context → ℕ → (request_id token : String) → Method (Unit {0})
  answer_claimed ctx n id token = do
    durable ← required id
    outcome ← respond ctx n durable
    wait measures.size (ctx.waits (suc n))
    on_ledger (finish_final measures.size id token outcome)

  abbrev pub answer_due : Context → ℕ → String → Method (Unit {0})
  answer_due ctx n id = do
    token ← on_ledger (claim_final measures.size id ctx.fresh.final)
    if_claimed token (answer_claimed ctx n id)

  unfoldable pub maybe_final : Context → ℕ → String → Method Ledger.Row
  maybe_final ctx n id = do
    row ← required id
    if is_done row.state && is_final_pending row.final then answer_due ctx n id else pure tt
    required id

  abbrev pub finally : Context → ℕ → String → Method Ledger.Row
  finally ctx n id = if ctx.skip_final then required id else maybe_final ctx n id

  abbrev pub rename_claimed : ℕ → (request_id token : String) → ServiceError → Method (Unit {0})
  rename_claimed now id token otherwise = do
    claimed ← required id
    r ← or_throw (native_of "session.rename" claimed.validation) otherwise
    on_ledger
        (finish_rename measures.size now id token claimed.session_id (measures.title_of r.args))

  -- As `rename_claimed`, where a request that is no rename is left as it is.
  abbrev pub rename_if_native :
      ℕ → (token : String) → Ledger.Row → Option ValidatedToolRequest → Method (Unit {0})
  rename_if_native now token claimed none = pure tt
  rename_if_native now token claimed (some r) = on_ledger (
      finish_rename measures.size now claimed.request_id token claimed.session_id
        (measures.title_of r.args))

-- ===== src/Execution/Methods/Resume.antt =====
-- `resume` of `ToolExecutionService`.
use icos_v.Base.{String, ◌&&◌, Option, none, some, str_eq, if◌then◌else◌}
use icos_v.Base.Program.{pure, throw, ◌>>=◌, ◌>>◌}
use icos_v.Approvals
use icos_v.Approvals.{
  ApprovalStatus, pending, approved, rejected, expired, cancelled, ApprovalRequest,
}
use icos_v.Approvals.Service as ApprovalService
use icos_v.Ledger
use icos_v.Ledger.{
  Json, Proposal, text, tool_calls, ToolExecutionInput, ValidatedToolRequest, ValidationOutcome,
  request, text_only, refused, Outcome, matches, renamed, mcp, failure, ExecutionFailure, unknown,
  FinalFailure, LedgerState, Ownership, find_request, is_some, is_executing, is_awaiting, is_done,
  is_validated, is_released, is_final_pending, max_execution_bytes,
}
use icos_v.Ledger.Claims.{claim_approved_tool, claim_rename}
use icos_v.Ledger.Finishes.{mirror_outcome, Mirror}
use icos_v.Execution.{
  Measures, invalid_session, invalid_execution_state, Method, on_ledger, on_approvals, wait,
  required, validate,
}
use icos_v.Execution.Methods.{
  Context, foreign_of, mirror_of, is_approved, execute_foreign, if_claimed, finally, rename_claimed,
}

module _ (measures : Measures) where
  -- An approval that is granted: the stored request executes, if its claim is won.
  abbrev pub resume_approved : Context → String → Option ValidatedToolRequest → Method (Unit {0})
  resume_approved ctx id (some r) = do
    token ←
        on_ledger (claim_approved_tool measures.size id ctx.fresh.claim (validate (ctx.policy 0)))
    if_claimed measures token (execute_foreign measures ctx 1 id)
  resume_approved ctx id none = do
    token ← on_ledger (claim_rename measures.size id ctx.fresh.claim (validate (ctx.policy 0)))
    if_claimed measures token
        (λ t. rename_claimed measures (ctx.clock 9) id t invalid_execution_state)

  abbrev pub mirror_closed : String → Option Mirror → Method (Unit {0})
  mirror_closed id none = pure tt
  mirror_closed id (some to) = do on_ledger (mirror_outcome measures.size id to); pure tt

  abbrev pub follow_approval : Context → Ledger.Row → ApprovalRequest → Method (Unit {0})
  follow_approval ctx row approval =
      if is_approved approval.status
      then resume_approved ctx row.request_id (foreign_of row.validation)
      else mirror_closed row.request_id (mirror_of approval.status)

  -- An approval that is not the one stored, or not of the request's session, has no effect.
  abbrev pub follow_found :
      Context → Ledger.Row → String → Option ApprovalRequest → Method (Unit {0})
  follow_found ctx row approval_id none = pure tt
  follow_found ctx row approval_id (some approval) =
      if str_eq approval.session_id row.session_id && str_eq approval.id approval_id
      then follow_approval ctx row approval
      else pure tt

  abbrev pub follow_stored : Context → Ledger.Row → Option String → Method (Unit {0})
  follow_stored ctx row none = pure tt
  follow_stored ctx row (some approval_id) = do
    approval ← on_approvals (
        ApprovalService.on_db ApprovalService.internal
          (Approvals.get_approval ctx.clock approval_id))
    wait measures.size (ctx.waits 0)
    follow_found ctx row approval_id approval

  abbrev pub resume_row :
      Context → (request_id session_id : String) → Ledger.Row → Method Ledger.Row
  resume_row ctx id session_id row = do
    if str_eq row.session_id session_id then pure tt else throw invalid_session
    if is_awaiting row.state then follow_stored ctx row row.approval_id else pure tt
    finally measures ctx 3 id

  unfoldable pub resume : Context → (request_id session_id : String) → Method Ledger.Row
  resume ctx id session_id = do row ← required id; resume_row ctx id session_id row

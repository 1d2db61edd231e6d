-- ===== src/Execution/Methods/Consume.antt =====
-- `consume` and `recentPairs` of `ToolExecutionService`.
use icos_v.Base.{
  ℕ, ◌+◌, String, Bool, true, false, ◌&&◌, ◌||◌, Option, none, some, List, if◌then◌else◌,
}
use icos_v.Base.Exec.{after}
use icos_v.Base.Program.{pure, throw, gets, ◌>>=◌, ◌>>◌}
use icos_v.Approvals.Service as ApprovalService
use icos_v.Ledger
use icos_v.Ledger.{
  Json, Proposal, text, tool_calls, ToolExecutionInput, ValidatedToolRequest, ValidationOutcome,
  request, text_only, refused, Outcome, matches, renamed, mcp, failure, ExecutionFailure, unknown,
  FinalFailure, LedgerState, Ownership, find_request, is_some, is_executing, is_awaiting, is_done,
  is_validated, is_released, is_final_pending, max_execution_bytes,
}
use icos_v.Ledger.Claims.{claim_transcript, claim_search, claim_tool, claim_rename_inline}
use icos_v.Ledger.Finishes.{resolve_released_to_unknown}
use icos_v.Ledger.Register.{register}
use icos_v.Ledger.Recent.{ExecutionPair, recent_executions}
use icos_v.Execution.{
  is_free, is_required, Measures, World, invalid_request, mcp_parking_bypassed, Method, on_ledger,
  on_approvals, wait, required, is_blank, validate,
}
use icos_v.Execution.Methods.{
  Context, foreign_of, native_of, execute_foreign, if_claimed, execute_search, finally,
  rename_if_native,
}
use icos_v.Execution.Methods.Resume.{resume}

module _ (measures : Measures) where
  unfoldable pub rename_inline : Context → String → Method Ledger.Row
  rename_inline ctx id = do
    token ←
        on_ledger (claim_rename_inline measures.size id ctx.fresh.claim (validate (ctx.policy 1)))
    if_claimed measures token (λ t. do
      claimed ← required id
      rename_if_native measures (ctx.clock 0) t claimed
          (native_of "session.rename" claimed.validation))
    required id

  -- `consumeForeign`
  unfoldable pub consume_foreign : Context → String → ValidatedToolRequest → Method Ledger.Row
  consume_foreign ctx id r =
      if is_free ((ctx.policy 1).lookup r.name)
      then (do
        token ← on_ledger (claim_tool measures.size id ctx.fresh.claim (validate (ctx.policy 1)))
        if_claimed measures token (execute_foreign measures ctx 2 id)
        finally measures ctx 4 id)
      else throw mcp_parking_bypassed

  -- The approval that `consume` mints for a new foreign request that needs one.
  abbrev pub mint : Context → ToolExecutionInput → ValidatedToolRequest → Method (Option String)
  mint ctx input r = do
    wait measures.size (ctx.waits 0)
    approval ← on_approvals (
        ApprovalService.create ctx.clock ctx.fresh.approval input.session_id "mcp.execute"
          (some ((ctx.policy 0).describe r)) none)
    wait measures.size (ctx.waits 1)
    pure (some approval.id)

  abbrev pub park_request :
      Context → ToolExecutionInput → Option ValidatedToolRequest → Method (Option String)
  park_request ctx input none = pure none
  park_request ctx input (some r) =
      if is_required ((ctx.policy 0).lookup r.name) then mint ctx input r else pure none

  abbrev pub park_new : Context → ToolExecutionInput → Option Ledger.Row → Method (Option String)
  park_new ctx input none = park_request ctx input (foreign_of (validate (ctx.policy 0) input))
  park_new ctx input (some prior) = pure none

  abbrev pub search_claimed : Context → String → Option String → Method Bool
  search_claimed ctx id none = pure true
  search_claimed ctx id (some token) = do
    claimed ← required id
    execute_search measures ctx 2 id token (native_of "session.search" claimed.validation)

  abbrev pub search_inline : Context → String → Method Bool
  search_inline ctx id = do
    token ← on_ledger (claim_search measures.size id ctx.fresh.claim (validate (ctx.policy 1)))
    search_claimed ctx id token

  -- The time, the policy and the waits after the first ten.
  abbrev pub later : Context → Context
  later ctx = record ctx {
    clock = after 10 ctx.clock;
    policy = λ n. ctx.policy (10 + n);
    waits = λ n. ctx.waits (10 + n);
  }

  -- What is left of `consume` once the request has been executed or needs no execution.
  abbrev pub conclude : Context → Ledger.Row → Method Ledger.Row
  conclude ctx row =
      if is_awaiting row.state
      then resume measures (later ctx) row.request_id row.session_id
      else finally measures ctx 4 row.request_id

  abbrev pub conclude_search : Context → String → Bool → Method Ledger.Row
  conclude_search ctx id true = do row ← required id; conclude ctx row
  conclude_search ctx id false = required id

  abbrev pub consume_native : Context → Ledger.Row → Method Ledger.Row
  consume_native ctx row =
      if is_some (native_of "session.rename" row.validation)
      then (do done ← rename_inline ctx row.request_id; conclude ctx done)
      else (do over ← search_inline ctx row.request_id; conclude_search ctx row.request_id over)

  abbrev pub consume_validated :
      Context → Ledger.Row → Option ValidatedToolRequest → Method Ledger.Row
  consume_validated ctx row (some r) = consume_foreign ctx row.request_id r
  consume_validated ctx row none = consume_native ctx row

  abbrev pub consume_registered : Context → Ledger.Row → Method Ledger.Row
  consume_registered ctx row =
      if is_validated row.state
      then consume_validated ctx row (foreign_of row.validation)
      else conclude ctx row

  -- An owner that has given up is replaced by the unknown outcome.
  abbrev pub recover : Ledger.Row → Method Ledger.Row
  recover row =
      if is_executing row.state && is_released row.ownership
      then (do
        on_ledger (resolve_released_to_unknown measures.size row.request_id)
        required row.request_id)
      else pure row

  unfoldable pub consume : Context → ToolExecutionInput → Method Ledger.Row
  consume ctx input = do
    if is_blank input.request_id || is_blank input.session_id
        then throw invalid_request
        else pure tt
    prior ← gets (λ w. find_request input.request_id w.ledger)
    parked ← park_new ctx input prior
    stored ←
        on_ledger
          (register measures.size input (validate (ctx.policy 1)) parked ctx.fresh.invocation)
    row ← recover stored
    consume_registered ctx row

-- `claimTranscript`
abbrev pub transcript_claim : Measures → String → Method Bool
transcript_claim measures id = on_ledger (claim_transcript measures.size id)

unfoldable pub recent_pairs : (session_id : String) → ℕ → World → List ExecutionPair
recent_pairs session_id limit w = recent_executions session_id limit w.ledger

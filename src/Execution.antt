-- ===== src/Execution.antt =====
-- core/src/tools/tool-execution.service.ts: the service that validates, parks, claims, executes and
-- answers a request, over the ledger and the approvals. This file has what it works on; `Methods` has
-- its methods.
-- Where a method waits (a call of an MCP server, a search, the language model, an approval), other
-- requests run: `Waits` says what they do at each wait. The answer of what is called is an argument.
pub mod Methods
pub mod Counts
pub mod Once
pub mod Neutral
pub mod Runs
pub mod Course
pub mod Mild
pub mod Granted
pub mod Authority
mod Tests
use icos_v.Base.{
  ℕ, String, Bool, true, false, not, ◌&&◌, ◌||◌, Option, none, some, List, [], ◌∷◌, ◌++◌, map,
  str_eq, if◌then◌else◌,
}
use icos_v.Base.Exec.{Exec, Result, ok, err}
use icos_v.Base.Program.{pure, throw, gets, modify, or_throw, ◌>>=◌, ◌>>◌}
use icos_v.Base.Text.{trim}
use icos_v.Approvals
use icos_v.Approvals.Runs as ApprovalRuns
use icos_v.Approvals.Service as ApprovalService
use icos_v.Ledger
use icos_v.Ledger.Runs as LedgerRuns
use icos_v.Ledger.{
  Json, Proposal, text, tool_calls, ToolExecutionInput, ValidatedToolRequest, ValidationFailure,
  unpermitted_tool, invalid_proposal, invalid_context, invalid_call_count, argument_mismatch,
  ValidationOutcome, request, text_only, refused, Outcome, LedgerError, find_request, session_key,
  is_some,
}

-- The answer of `registry.validate`.
pub data RegistryAnswer : Type 0 where
  accepted : ValidatedToolRequest → RegistryAnswer
  rejected : ValidationFailure → RegistryAnswer

pub data ApprovalPolicy : Type 0 where
  no_approval approval_required : ApprovalPolicy

abbrev pub is_free : Option ApprovalPolicy → Bool
is_free (some no_approval) = true
is_free _ = false

abbrev pub is_required : Option ApprovalPolicy → Bool
is_required (some approval_required) = true
is_required _ = false

-- The tool registry and the protocol's check of a context, as they stand at one time: `lookup`
-- is the approval policy of the descriptor of a name, `arguments_agree` whether the raw arguments of a
-- call are short enough and parse to its arguments.
pub record Policy : Type 0 where
  pub context_fits : List Json → Bool
  pub registry_validate : Json → (session_id : String) → List String → RegistryAnswer
  pub lookup : (name : String) → Option ApprovalPolicy
  pub arguments_agree : Json → Bool
  pub describe : ValidatedToolRequest → String

-- The sizes of texts and documents in bytes, and the title among the arguments of a rename.
pub record Measures : Type 0 where
  pub size : Outcome → ℕ
  pub byte_length : String → ℕ
  pub final_size : (content model : String) → ℕ
  pub title_of : Json → String

pub data McpAnswer : Type 0 where
  mcp_threw : McpAnswer
  mcp_answered : (text : String) → (is_error : Bool) → McpAnswer

-- A search that is not `in_time` is finished by a later call of the ledger.
pub data SearchAnswer : Type 0 where
  search_threw : SearchAnswer
  found_matches : Json → SearchAnswer
  timed_out : SearchAnswer

-- `malformed` is any answer that is not a text, or that carries tool calls.
pub data LlmAnswer : Type 0 where
  llm_threw malformed : LlmAnswer
  replied : (content model : String) → LlmAnswer

pub record Answers : Type 0 where
  pub mcp : McpAnswer
  pub search : SearchAnswer
  pub llm : LlmAnswer

-- What left the process, with the request that it was for.
pub data Effect : Type 0 where
  tool_called : (request_id server tool : String) → (args : Json) → Effect
  searched : (request_id : String) → (args : Json) → Effect
  asked_model : (request_id : String) → Effect

-- `effects` is what the calls that are looked at sent out, `elsewhere` what the other requests did.
pub record World : Type 0 where
  pub ledger : Ledger.Db
  pub approvals : ApprovalService.Server
  pub effects : List Effect
  pub elsewhere : List Effect

pub data ServiceError : Type 0 where
  invalid_request invalid_session no_request invalid_execution_state : ServiceError
  mcp_parking_bypassed invalid_final_state : ServiceError
  of_ledger : LedgerError → ServiceError
  of_approvals : ApprovalService.HttpError → ServiceError

abbrev pub Method : Type 0 → Type 0
Method A = Exec ServiceError World A

-- The approvals that the ledger's foreign key sees.
abbrev pub seen_by_ledger : World → Ledger.Db
seen_by_ledger w = record w.ledger { approvals = map Approvals.key w.approvals.db.approvals }

abbrev pub from_ledger :
    {A : Type 0} → World → Result LedgerError A × Ledger.Db → Result ServiceError A × World
from_ledger w (ok a, s) = (ok a, record w { ledger = s })
from_ledger w (err e, s) = (err (of_ledger e), record w { ledger = s })

unfoldable pub on_ledger : {A : Type 0} → Ledger.Repo A → Method A
on_ledger m w = from_ledger w (m (seen_by_ledger w))

abbrev pub seen_by_approvals : World → ApprovalService.Server
seen_by_approvals w = record w.approvals {
  db = record w.approvals.db { sessions = map session_key w.ledger.sessions };
}

abbrev pub from_approvals :
    {A : Type 0}
    → World
    → Result ApprovalService.HttpError A × ApprovalService.Server
    → Result ServiceError A × World
from_approvals w (ok a, s) = (ok a, record w { approvals = s })
from_approvals w (err e, s) = (err (of_approvals e), record w { approvals = s })

unfoldable pub on_approvals : {A : Type 0} → ApprovalService.Method A → Method A
on_approvals m w = from_approvals w (m (seen_by_approvals w))

unfoldable pub effect : Effect → Method (Unit {0})
unfolding modify
effect e = modify (λ w. record w { effects = w.effects ++ e ∷ [] })

-- One call that another request makes; an execution is its claim and, if that is won, what it sends out.
pub data Step : Type 0 where
  of_other_ledger : LedgerRuns.Call → Step
  of_other_approvals : ApprovalRuns.Call → Step
  of_other_execution :
      LedgerRuns.ClaimKind
      → (id token : String) → (ToolExecutionInput → ValidationOutcome)
      → (server tool : String) → (args : Json) → Step

abbrev pub effect_of : LedgerRuns.ClaimKind → (id server tool : String) → Json → Effect
effect_of LedgerRuns.of_search id server tool args = searched id args
effect_of _ id server tool args = tool_called id server tool args

-- What follows a claim of another request: it executes if it has won.
abbrev pub if_won : Effect → World → Result LedgerError (Option String) × Ledger.Db → World
if_won e w (ok (some token), s) = record w { ledger = s; elsewhere = w.elsewhere ++ e ∷ [] }
if_won e w (_, s) = record w { ledger = s }

module _ (size : Outcome → ℕ) where
  unfoldable pub other_step : Step → World → World
  other_step (of_other_ledger c) w = record w { ledger = LedgerRuns.step size c (seen_by_ledger w) }
  other_step (of_other_approvals c) w = record w {
    approvals = record w.approvals { db = ApprovalRuns.step c (seen_by_approvals w).db };
  }
  other_step (of_other_execution kind id token policy server tool args) w =
      if_won (effect_of kind id server tool args) w
        (LedgerRuns.claim size kind id token policy (seen_by_ledger w))

  unfoldable pub other_steps : List Step → World → World
  other_steps [] w = w
  other_steps (c ∷ cs) w = other_steps cs (other_step c w)

  -- `await`
  unfoldable pub wait : List Step → Method (Unit {0})
  unfolding modify
  wait steps = modify (other_steps steps)

-- What the other requests do at the n-th wait of a method.
abbrev pub Waits : Type 0
Waits = ℕ → List Step

unfoldable pub required : String → Method Ledger.Row
unfolding ◌>>=◌
required id = do found ← gets (λ w. find_request id w.ledger); or_throw found no_request

abbrev pub is_blank : String → Bool
is_blank s = str_eq (trim s) ""

-- `validate`, after the context.
abbrev checked_call : Policy → ToolExecutionInput → Json → RegistryAnswer → ValidationOutcome
checked_call policy input call (rejected failure) = refused failure
checked_call policy input call (accepted r) =
    if not (is_free (policy.lookup r.name)) && not (is_some r.foreign)
    then refused unpermitted_tool
    else if policy.arguments_agree call
    then request r
    else refused argument_mismatch

abbrev checked_calls : Policy → ToolExecutionInput → List Json → ValidationOutcome
checked_calls policy input (call ∷ []) =
    checked_call policy input call
      (policy.registry_validate call input.session_id input.allowed_tools)
checked_calls policy input _ = refused invalid_call_count

abbrev checked_proposal : Policy → ToolExecutionInput → Proposal → ValidationOutcome
checked_proposal policy input (text content model) =
    if is_blank model || is_blank content then refused invalid_proposal else text_only
checked_proposal policy input (tool_calls content model calls) =
    if is_blank model then refused invalid_proposal else checked_calls policy input calls

unfoldable pub validate : Policy → ToolExecutionInput → ValidationOutcome
unfolding trim
validate policy input =
    if policy.context_fits input.context
    then checked_proposal policy input input.proposal
    else refused invalid_context

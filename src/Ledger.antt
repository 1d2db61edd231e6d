-- ===== src/Ledger.antt =====
-- core/src/tools/tool-execution.repository.ts: the durable ledger of tool invocations. This file has
-- its types, the table `tool_requests` with the CHECKs of core/src/session/database.ts, and the
-- reads; the children have the methods that write.
-- A JSON document that the ledger only stores and compares is its canonical text, `Json`. A method
-- is one transaction; `access` turns every error that is not a `LedgerError` into
-- `ledger_unavailable`.
pub mod Register
pub mod Claims
pub mod Finishes
pub mod Moves
pub mod Growth
pub mod Runs
pub mod Once
pub mod Settled
pub mod Endings
pub mod Recent
mod Tests
use icos_v.Base.{
  ℕ, String, Bool, true, false, not, ◌&&◌, ◌||◌, Option, none, some, List, [], ◌∷◌, ◌++◌, str_eq,
  leb, if◌then◌else◌, ◌≡◌, ◌↔◌, arith,
}
use icos_v.Base.Exec.{Exec, ok, err, pure, throw, gets, or_throw, modify, ◌>>=◌, ◌>>◌}
use icos_v.Base.Table.{passes, update, changes, find}
use icos_v.Base.Text.{String-discrete}

abbrev pub Json : Type 0
Json = String

pub data Proposal : Type 0 where
  text : (content model : String) → Proposal
  tool_calls : (content : Option String) (model : String) (calls : List Json) → Proposal

pub record ToolExecutionInput : Type 0 where
  pub request_id : String
  pub session_id : String
  pub context : List Json
  pub allowed_tools : List String
  pub proposal : Proposal

-- `foreign` is the server and the tool of an MCP call.
pub record ValidatedToolRequest : Type 0 where
  pub name : String
  pub session_id : String
  pub args : Json
  pub foreign : Option (String × String)

pub data ValidationFailure : Type 0 where
  invalid_input unknown_tool unknown_version unpermitted_tool invalid_session invalid_args :
      ValidationFailure
  invalid_call_count argument_mismatch invalid_proposal invalid_context : ValidationFailure

pub data ValidationOutcome : Type 0 where
  request : ValidatedToolRequest → ValidationOutcome
  text_only : ValidationOutcome
  refused : ValidationFailure → ValidationOutcome

pub data ExecutionFailure : Type 0 where
  search_failed result_too_large unknown rename_failed mcp_failed mcp_unavailable : ExecutionFailure

-- `ExecutionOutcome`, `RenameOutcome` and `McpOutcome`.
pub data Outcome : Type 0 where
  matches : Json → Outcome
  renamed : (session_id title : String) → Outcome
  mcp : (server tool text : String) → Outcome
  failure : ExecutionFailure → Outcome

pub data FinalFailure : Type 0 where
  llm_failed invalid_final final_too_large : FinalFailure

pub data FinalOutcome : Type 0 where
  not_required : Option (String × String) → FinalOutcome
  final_pending final_claimed : FinalOutcome
  final_succeeded : (content model : String) → FinalOutcome
  final_failed : FinalFailure → FinalOutcome

pub data LedgerState : Type 0 where
  closed invalid validated awaiting_approval executing succeeded failed : LedgerState
  rejected cancelled expired : LedgerState

pub data Ownership : Type 0 where
  unconfirmed released : Ownership

pub LedgerState-discrete : Discrete LedgerState
LedgerState-discrete = hlevel

pub ValidationOutcome-discrete : Discrete ValidationOutcome
ValidationOutcome-discrete = hlevel String-discrete

pub ToolExecutionInput-discrete : Discrete ToolExecutionInput
ToolExecutionInput-discrete = hlevel String-discrete

-- A row; `final_state` is the tag of `final_json`.
pub record Row : Type 0 where
  pub request_id : String
  pub session_id : String
  pub input : ToolExecutionInput
  pub invocation_id : Option String
  pub approval_id : Option String
  pub state : LedgerState
  pub validation : ValidationOutcome
  pub execution_token : Option String
  pub ownership : Ownership
  pub execution : Option Outcome
  pub final : FinalOutcome
  pub final_token : Option String
  pub transcript_written : Bool

pub record Session : Type 0 where
  pub id : String
  pub title : String
  pub updated_at : ℕ

-- The rows of `sessions` and `tool_requests`, and the ids of the approvals that exist.
pub record Db : Type 0 where
  pub sessions : List Session
  pub approvals : List String
  pub tool_requests : List Row

pub data LedgerError : Type 0 where
  request_conflict session_not_found request_not_found claim_lost : LedgerError
  rename_failed ledger_unavailable : LedgerError

abbrev pub Repo : Type 0 → Type 0
Repo A = Exec LedgerError Db A

abbrev pub key : Row → String
key row = row.request_id

abbrev pub session_key : Session → String
session_key session = session.id

abbrev pub find_request : String → Db → Option Row
find_request id s = find key id s.tool_requests

abbrev pub is_some : {A : Type 0} → Option A → Bool
is_some none = false
is_some (some a) = true

abbrev pub same_token : Option String → String → Bool
same_token none token = false
same_token (some t) token = str_eq t token

abbrev pub is_validated : LedgerState → Bool
is_validated validated = true
is_validated _ = false

abbrev pub is_awaiting : LedgerState → Bool
is_awaiting awaiting_approval = true
is_awaiting _ = false

abbrev pub is_executing : LedgerState → Bool
is_executing executing = true
is_executing _ = false

-- state IN ('succeeded', 'failed')
abbrev pub is_done : LedgerState → Bool
is_done succeeded = true
is_done failed = true
is_done _ = false

abbrev pub is_released : Ownership → Bool
is_released released = true
is_released unconfirmed = false

abbrev pub is_final_pending : FinalOutcome → Bool
is_final_pending final_pending = true
is_final_pending _ = false

abbrev pub is_final_claimed : FinalOutcome → Bool
is_final_claimed final_claimed = true
is_final_claimed _ = false

abbrev is_not_required : FinalOutcome → Bool
is_not_required (not_required _) = true
is_not_required _ = false

-- `isDeepStrictEqual`
unfoldable pub same_validation : ValidationOutcome → ValidationOutcome → Bool
unfolding ValidationOutcome-discrete
same_validation v w = elim (ValidationOutcome-discrete v w) [ yes _ ↦ true | no _ ↦ false ]

unfoldable pub same_input : ToolExecutionInput → ToolExecutionInput → Bool
unfolding ToolExecutionInput-discrete
same_input v w = elim (ToolExecutionInput-discrete v w) [ yes _ ↦ true | no _ ↦ false ]

pub eq_of_same_validation : (v w : ValidationOutcome) → same_validation v w ≡ true → v ≡ w
unfolding same_validation
eq_of_same_validation v w h = ground arith

pub same_validation_refl : (v : ValidationOutcome) → same_validation v v ≡ true
unfolding same_validation
same_validation_refl v = ground arith

pub same_input_iff : (v w : ToolExecutionInput) → (same_input v w ≡ true) ↔ (v ≡ w)
unfolding same_input
same_input_iff v w = ground arith

abbrev implies : Bool → Bool → Bool
implies a b = not a || b

abbrev pub max_execution_bytes : ℕ
max_execution_bytes = 65536

-- `get` and `required`.
abbrev pub required : String → Repo Row
required id = do found ← gets (find_request id); or_throw found request_not_found

abbrev pub require_session : String → Repo (Unit {0})
require_session id s =
    if is_some (find session_key id s.sessions) then pure tt s else throw session_not_found s

-- The CHECKs of the schema; `size` is the number of bytes of an outcome's JSON.
module _ (size : Outcome → ℕ) where
  abbrev pub fits : Option Outcome → Bool
  fits none = true
  fits (some outcome) = leb (size outcome) max_execution_bytes

  abbrev pub checks : Row → Bool
  checks r =
      implies (is_executing r.state || is_done r.state) (is_some r.invocation_id)
      && implies (is_awaiting r.state) (is_some r.approval_id)
      && implies (is_done r.state) (is_some r.execution)
      && implies (is_some r.execution) (is_done r.state)
      && implies (is_executing r.state) (is_some r.execution_token)
      && implies (is_released r.ownership) (is_executing r.state)
      && implies (not (is_not_required r.final)) (is_some r.execution)
      && implies (is_final_claimed r.final) (is_some r.final_token)
      && fits r.execution

  -- UPDATE tool_requests SET … WHERE p, with `changes`.
  abbrev pub write : (Row → Bool) → (Row → Row) → Repo ℕ
  write p f s =
      if passes p (λ r. checks (f r)) s.tool_requests
      then (ok (changes p s.tool_requests), record s { tool_requests = update p f s.tool_requests })
      else (err ledger_unavailable, s)

-- ===== src/Execution/Tests.antt =====
-- The theorems on the service at concrete requests.
use icos_v.Base.{◌+◌, ◌≤◌, true, false, none, some, List, [], ◌∷◌, refl}
use icos_v.Approvals.{ApprovalRow, approved}
use icos_v.Ledger.{tool_calls, ToolExecutionInput, ValidatedToolRequest, request}
use icos_v.Ledger.Register.{new_row}
use icos_v.Ledger.Runs.{gives_up, of_tool}
use icos_v.Execution.{of_other_execution, validate}
use icos_v.Execution.{
  accepted, approval_required, no_approval, Policy, Measures, mcp_answered, found_matches, replied,
  World, of_other_ledger,
}
use icos_v.Execution.Methods.{Context}
use icos_v.Execution.Methods.Resume.{resume}
use icos_v.Execution.Counts.{executions}
use icos_v.Execution.Runs.{ServiceCall, consumes, resumes, serve_all, executed_once}
use icos_v.Execution.Course.{Course}

abbrev the_measures : Measures
the_measures = record {
  size = λ _. 100;
  byte_length = λ _. 10;
  final_size = λ _ _. 50;
  title_of = λ _. "Title";
}

abbrev foreign_call : ValidatedToolRequest
foreign_call = record {
  name = "mcp.files.read";
  session_id = "s1";
  args = "path";
  foreign = some ("files", "read");
}

abbrev guarded : Policy
guarded = record {
  context_fits = λ _. true;
  registry_validate = λ _ _ _. accepted foreign_call;
  lookup = λ _. some approval_required;
  arguments_agree = λ _. true;
  describe = λ _. "Read a file";
}

abbrev open_policy : Policy
open_policy = record guarded { lookup = λ _. some no_approval }

abbrev context_with : Policy → Context
context_with policy = record {
  clock = λ n. 1000;
  policy = λ _. policy;
  fresh = record { approval = "a1"; invocation = "u1"; claim = "t1"; final = "f1" };
  answers = record {
    mcp = mcp_answered "content" false;
    search = found_matches "[]";
    llm = replied "Done" "model";
  };
  waits = λ _.
      of_other_ledger (gives_up "t9")
      ∷ of_other_execution of_tool "r1" "t7" (validate open_policy) "files" "read" "path"
      ∷ [];
  skip_final = false;
}

abbrev the_input : ToolExecutionInput
the_input = record {
  request_id = "r1";
  session_id = "s1";
  context = [];
  allowed_tools = "mcp.files.read" ∷ [];
  proposal = tool_calls none "model" ("call" ∷ []);
}

abbrev start : World
start = record {
  ledger = record {
    sessions = record { id = "s1"; title = "Old"; updated_at = 0 } ∷ [];
    approvals = [];
    tool_requests = [];
  };
  approvals = record {
    db = record { sessions = "s1" ∷ []; approvals = []; approval_events = []; last_event = 0 };
    published = [];
  };
  effects = [];
  elsewhere = [];
}

-- A request that needs no approval is executed by the first call, and by no later one.
abbrev repeated : List ServiceCall
repeated =
    consumes (context_with open_policy) the_input
    ∷ consumes (context_with open_policy) the_input
    ∷ resumes (context_with open_policy) "r1" "s1"
    ∷ []

executed_once_example :
    executions "r1" (serve_all the_measures repeated start).effects
      + executions "r1" (serve_all the_measures repeated start).elsewhere
    ≤ 1
executed_once_example = executed_once the_measures repeated start tt refl refl "r1"

-- An approval that is granted.
abbrev granted : ApprovalRow
granted = record {
  id = "a1";
  session_id = "s1";
  action = "mcp.execute";
  description = "Read a file";
  status = approved;
  created_at = 900;
  updated_at = 950;
  expires_at = some 9000;
  resolved_at = some 950;
}

abbrev parked : World
parked = record start {
  ledger = record start.ledger {
    tool_requests = new_row the_input (request foreign_call) (some "a1") "u1" ∷ [];
  };
  approvals = record start.approvals {
    db = record start.approvals.db { approvals = granted ∷ [] };
  };
}

abbrev guarded_context : Context
guarded_context = context_with guarded

abbrev resumed : World
resumed = (resume the_measures guarded_context "r1" "s1" parked).1

-- ===== src/Agent.antt =====
-- core/src/agent/agent-run.repository.ts and core/src/agent/observation.ts: the runs of the agent,
-- with the ledger's rows that the observations of a run are read from. Request ids are a JSON list in
-- the table and a list here; a UUID is an argument.
pub mod Calls
pub mod Steps
pub mod Observation
mod Tests
use icos_v.Base.{
  ℕ, suc, ◌+◌, String, Bool, true, false, not, ◌&&◌, ◌||◌, Option, none, some, List, [], ◌∷◌, ◌++◌,
  str_eq, if◌then◌else◌,
}
use icos_v.Base.Exec.{
  Exec, ok, err, pure, throw, gets, or_throw, modify, transaction, Clock, ◌>>=◌, ◌>>◌,
}
use icos_v.Base.Table.{select, update, find}
use icos_v.Ledger
use icos_v.Ledger.{Json, Outcome, failure, unknown, ValidationOutcome, request}

pub data AgentRunState : Type 0 where
  created reasoning action_proposed executing observing awaiting_approval : AgentRunState
  completed failed cancelled budget_exhausted : AgentRunState

pub data AgentTransientState : Type 0 where
  to_reasoning to_action_proposed to_executing to_observing to_awaiting_approval :
      AgentTransientState

pub data AgentTerminalState : Type 0 where
  to_completed to_failed to_cancelled to_budget_exhausted : AgentTerminalState

abbrev pub transient : AgentTransientState → AgentRunState
transient to_reasoning = reasoning
transient to_action_proposed = action_proposed
transient to_executing = executing
transient to_observing = observing
transient to_awaiting_approval = awaiting_approval

abbrev pub terminal : AgentTerminalState → AgentRunState
terminal to_completed = completed
terminal to_failed = failed
terminal to_cancelled = cancelled
terminal to_budget_exhausted = budget_exhausted

abbrev pub is_terminal : AgentRunState → Bool
is_terminal completed = true
is_terminal failed = true
is_terminal cancelled = true
is_terminal budget_exhausted = true
is_terminal _ = false

pub record RunLimits : Type 0 where
  pub max_iterations : ℕ
  pub max_tool_steps : ℕ
  pub max_turn_duration_ms : ℕ

pub data Reason : Type 0 where
  final_answer turn_error was_cancelled step_bound time_budget approval_denied : Reason

pub record RunTermination : Type 0 where
  pub reason : Reason
  pub tool_steps : ℕ

pub record AgentRunRow : Type 0 where
  pub id : String
  pub session_id : String
  pub goal : String
  pub state : AgentRunState
  pub request_ids : List String
  pub current_request_id : Option String
  pub iteration_count : ℕ
  pub tool_call_count : ℕ
  pub limits : RunLimits
  pub approval_id : Option String
  pub termination : Option RunTermination
  pub created_at : ℕ
  pub updated_at : ℕ

pub record AgentRun : Type 0 where
  pub id : String
  pub session_id : String
  pub goal : String
  pub state : AgentRunState
  pub request_ids : List String
  pub current_request_id : Option String
  pub iteration_count : ℕ
  pub tool_call_count : ℕ
  pub limits : RunLimits
  pub approval_id : Option String
  pub termination : Option RunTermination
  pub created_at : ℕ
  pub updated_at : ℕ

abbrev pub to_run : AgentRunRow → AgentRun
to_run row = record {
  id = row.id;
  session_id = row.session_id;
  goal = row.goal;
  state = row.state;
  request_ids = row.request_ids;
  current_request_id = row.current_request_id;
  iteration_count = row.iteration_count;
  tool_call_count = row.tool_call_count;
  limits = row.limits;
  approval_id = row.approval_id;
  termination = row.termination;
  created_at = row.created_at;
  updated_at = row.updated_at;
}

pub data Error : Type 0 where
  agent_run_not_found sqlite_error : Error

-- The ids of the sessions, the runs, and the rows of the ledger.
pub record Db : Type 0 where
  pub sessions : List String
  pub agent_runs : List AgentRunRow
  pub tool_requests : List Ledger.Row

abbrev pub Repo : Type 0 → Type 0
Repo A = Exec Error Db A

abbrev pub key : AgentRunRow → String
key row = row.id

abbrev pub find_run : String → Db → Option AgentRunRow
find_run id s = find key id s.agent_runs

unfoldable pub includes : List String → String → Bool
includes [] x = false
includes (y ∷ ys) x = str_eq y x || includes ys x

abbrev pub required : String → Repo AgentRun
required id = do
  found ← gets (find_run id)
  row ← or_throw found agent_run_not_found
  pure (to_run row)

abbrev pub with_id : String → AgentRunRow → Bool
with_id id row = str_eq row.id id

-- UPDATE agent_runs SET … WHERE id = ?
abbrev pub write : String → (AgentRunRow → AgentRunRow) → Repo (Unit {0})
write id f = modify (λ s. record s { agent_runs = update (with_id id) f s.agent_runs })

abbrev pub new_row : String → ℕ → (session_id goal : String) → RunLimits → AgentRunRow
new_row id now session_id goal limits = record {
  id = id;
  session_id = session_id;
  goal = goal;
  state = created;
  request_ids = [];
  current_request_id = none;
  iteration_count = 0;
  tool_call_count = 0;
  limits = limits;
  approval_id = none;
  termination = none;
  created_at = now;
  updated_at = now;
}

-- The schema refuses an unknown session and an id that is taken.
abbrev pub insert_run : AgentRunRow → Repo (Unit {0})
insert_run row s = elim (find_run row.id s) [
  | none ↦
      if includes s.sessions row.session_id
      then (ok tt, record s { agent_runs = s.agent_runs ++ row ∷ [] })
      else (err sqlite_error, s)
  | some _ ↦ (err sqlite_error, s)
]

unfoldable pub create_run : Clock → String → (session_id goal : String) → RunLimits → Repo AgentRun
create_run clock id session_id goal limits = do
  insert_run (new_row id (clock 0) session_id goal limits)
  required id

-- The statement between the two reads of each of these methods.
abbrev pub rewrite_run : String → (AgentRunRow → AgentRunRow) → Repo AgentRun
rewrite_run id f = do required id; write id f; required id

unfoldable pub transition_run : Clock → String → AgentTransientState → Repo AgentRun
transition_run clock id state =
    rewrite_run id (λ r. record r { state = transient state; updated_at = clock 0 })

abbrev pub step_row : ℕ → List String → String → ℕ → AgentRunRow → AgentRunRow
step_row now request_ids request_id tool_calls row = record row {
  request_ids = request_ids;
  current_request_id = some request_id;
  iteration_count = suc row.iteration_count;
  tool_call_count = row.tool_call_count + tool_calls;
  updated_at = now;
}

unfoldable pub record_step :
    Clock → String → (request_id : String) → (tool_calls : ℕ) → Repo AgentRun
record_step clock id request_id tool_calls = transaction (do
  run ← required id
  write id (step_row (clock 0) (run.request_ids ++ request_id ∷ []) request_id tool_calls)
  required id)

unfoldable pub mark_parked : Clock → String → (approval_id : String) → Repo AgentRun
mark_parked clock id approval_id = rewrite_run id (λ r. record r {
  state = awaiting_approval;
  approval_id = some approval_id;
  updated_at = clock 0;
})

unfoldable pub mark_terminal : Clock → String → AgentTerminalState → RunTermination → Repo AgentRun
mark_terminal clock id state termination =
    rewrite_run id (λ r. record r {
      state = terminal state;
      termination = some termination;
      updated_at = clock 0;
    })

abbrev pub cancel_row : ℕ → ℕ → AgentRunRow → AgentRunRow
cancel_row now tool_steps row = record row {
  state = cancelled;
  termination = some (record { reason = was_cancelled; tool_steps = tool_steps });
  updated_at = now;
}

abbrev some_run : AgentRun → Option AgentRun
some_run run = some run

abbrev pub cancel_open : Clock → String → AgentRun → Repo (Option AgentRun)
cancel_open clock id run = do
  write id (cancel_row (clock 0) run.tool_call_count)
  done ← required id
  pure (some_run done)

unfoldable pub cancel_run : Clock → String → Repo (Option AgentRun)
cancel_run clock id = do
  run ← required id
  if is_terminal run.state then pure none else cancel_open clock id run

-- The newest run of the session with the request among its steps.
unfoldable pub find_by_request :
    (session_id request_id : String) → List AgentRunRow → Option AgentRun
find_by_request session_id request_id [] = none
find_by_request session_id request_id (row ∷ rows) =
    elim (find_by_request session_id request_id rows) [
      | none ↦
          if str_eq row.session_id session_id && includes row.request_ids request_id
          then some (to_run row)
          else none
      | some newer ↦ some newer
    ]

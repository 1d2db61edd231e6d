-- ===== src/Agent/Tests.antt =====
-- The theorems on the runs of the agent at concrete runs.
use icos_v.Base.{true, false, none, some, List, [], ◌∷◌, ◌≡◌, refl, eq_refl}
use icos_v.Base.Exec.{ok, Clock}
use icos_v.Base.Table.{update, find}
use icos_v.Agent.{
  RunLimits, AgentRunRow, AgentRun, to_run, Db, key, find_run, includes, new_row, create_run,
  step_row, record_step, find_by_request,
}
use icos_v.Base.{All}
use icos_v.Agent.{to_reasoning}
use icos_v.Ledger
use icos_v.Ledger.{matches, request, tool_calls, unconfirmed, final_pending}
use icos_v.Agent.Calls.{Call, run, transitions, records, cancels}
use icos_v.Agent.Steps.{Counted, run-Counted, step_found}
use icos_v.Agent.Observation.{RunObservation, observations, IsFaithful, observations-IsFaithful}

abbrev noon : Clock
noon _ = 12

abbrev small_limits : RunLimits
small_limits = record { max_iterations = 4; max_tool_steps = 2; max_turn_duration_ms = 1000 }

abbrev no_runs : Db
no_runs = record { sessions = "s1" ∷ []; agent_runs = []; tool_requests = [] }

abbrev new_run : AgentRunRow
new_run = new_row "run1" 12 "s1" "tidy up" small_limits

abbrev one_run : Db
one_run = record no_runs { agent_runs = new_run ∷ [] }

abbrev stepped_run : AgentRunRow
stepped_run = step_row 12 ("r1" ∷ []) "r1" 1 new_run

abbrev stepped : Db
stepped = record no_runs { agent_runs = stepped_run ∷ [] }

abbrev later : List Call
later = transitions noon "run1" to_reasoning ∷ records noon "run1" "r2" 1 ∷ cancels noon "run1" ∷ []

creates_run :
    create_run noon "run1" "s1" "tidy up" small_limits no_runs ≡ (ok (to_run new_run), one_run)
unfolding create_run find includes
creates_run = refl

records_step : record_step noon "run1" "r1" 1 one_run ≡ (ok (to_run stepped_run), stepped)
unfolding record_step find update
records_step = refl

run-Counted_example :
    (r : AgentRunRow) × (find_run "run1" (run later one_run) ≡ some r)
    × (Counted r × (r.session_id ≡ "s1"))
run-Counted_example =
    run-Counted noon "run1" "s1" "tidy up" small_limits no_runs one_run (to_run new_run) later
      creates_run

step_found_example :
    (found : AgentRun) × (find_by_request "s1" "r1" (run later stepped).agent_runs ≡ some found)
    × (found.session_id ≡ "s1")
    × (includes found.request_ids "r1" ≡ true)
step_found_example =
    step_found noon "run1" "r1" 1 one_run stepped (to_run stepped_run) later records_step

found_run :
    (row : AgentRunRow) (rows : List Ledger.Row)
    → find_run
        (key row)
        (record { sessions = "s1" ∷ []; agent_runs = row ∷ []; tool_requests = rows })
      ≡ some row
unfolding find
found_run row rows = rw (eq_refl (key row)) refl

abbrev the_request : Ledger.Row
the_request = record {
  request_id = "r1";
  session_id = "s1";
  input = record {
    request_id = "r1";
    session_id = "s1";
    context = [];
    allowed_tools = [];
    proposal = tool_calls none "model" ("call" ∷ []);
  };
  invocation_id = some "u1";
  approval_id = none;
  state = Ledger.succeeded;
  validation =
      request
        (record { name = "session.search"; session_id = "s1"; args = "query"; foreign = none });
  execution_token = some "t1";
  ownership = unconfirmed;
  execution = some (matches "m");
  final = final_pending;
  final_token = none;
  transcript_written = false;
}

abbrev seen_db : Db
seen_db = record stepped { tool_requests = the_request ∷ [] }

observations-IsFaithful_example :
    (seen : List RunObservation) × (observations "run1" seen_db ≡ (ok seen, seen_db))
    × All (IsFaithful seen_db.tool_requests ("r1" ∷ [])) seen
observations-IsFaithful_example =
    observations-IsFaithful "run1" seen_db stepped_run (found_run stepped_run (the_request ∷ []))

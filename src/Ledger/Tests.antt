-- ===== src/Ledger/Tests.antt =====
-- The theorems on the ledger at concrete requests.
use icos_v.Base.{ℕ, String, true, none, some, List, [], ◌∷◌, ◌≡◌, ◌≢◌, refl, eq_refl}
use icos_v.Base.Exec.{Result, ok, err}
use icos_v.Base.Table.{update, changes, find, UniqueKeys}
use icos_v.Ledger.{
  Json, Proposal, text, tool_calls, ToolExecutionInput, ValidatedToolRequest, ValidationFailure,
  unpermitted_tool, ValidationOutcome, request, text_only, refused, ExecutionFailure, unknown,
  Outcome, matches, renamed, mcp, failure, FinalFailure, FinalOutcome, not_required, final_pending,
  final_claimed, final_succeeded, final_failed, LedgerState, closed, invalid, validated,
  awaiting_approval, executing, succeeded, failed, rejected, cancelled, expired, Ownership,
  unconfirmed, released, Row, Session, Db, LedgerError, request_conflict, session_not_found,
  request_not_found, claim_lost, ledger_unavailable, Repo, key, session_key, find_request, is_some,
  same_token, is_validated, is_awaiting, is_executing, is_done, is_released, is_final_pending,
  is_final_claimed, same_validation, same_input, eq_of_same_validation, same_input_iff, required,
  require_session, fits, checks, write, max_execution_bytes,
}
use icos_v.Ledger.Claims.{claim_search, claim_transcript, claim_final, execute_row}
use icos_v.Ledger.Finishes.{finish_rename, finish_row, executed_by}
use icos_v.Ledger.Register.{register, new_row}
use icos_v.Ledger.Moves.{Grows}
use icos_v.Ledger.Runs.{of_search, of_rename, Call, claim, step, run, step-Grows}
use icos_v.Ledger.Settled.{outcome_settled, written_once, answered_once}
use icos_v.Ledger.Endings.{finish_rename-atomic}
use icos_v.Ledger.Once.{claimed_once, claim_won}
use icos_v.Ledger.Register.{register_idempotent}
use icos_v.Base.Table.{passes}
use icos_v.Ledger.Register.{taken}
use icos_v.Ledger.{same_validation_refl}
use icos_v.Ledger.Runs.{gives_up, recovers, writes_turn, finishes_search}

abbrev small : Outcome → ℕ
small _ = 100

abbrev the_input : ToolExecutionInput
the_input = record {
  request_id = "r1";
  session_id = "s1";
  context = [];
  allowed_tools = "session.search" ∷ [];
  proposal = tool_calls none "model" ("call" ∷ []);
}

abbrev search_call : ValidationOutcome
search_call =
    request (record { name = "session.search"; session_id = "s1"; args = "query"; foreign = none })

abbrev allow : ToolExecutionInput → ValidationOutcome
allow _ = search_call

abbrev one_session : Db
one_session = record {
  sessions = record { id = "s1"; title = "Old"; updated_at = 0 } ∷ [];
  approvals = [];
  tool_requests = [];
}

abbrev ready : Row
ready = new_row the_input search_call none "u1"

abbrev validated_db : Db
validated_db = record one_session { tool_requests = ready ∷ [] }

abbrev executing_row : Row
executing_row = execute_row "t1" ready

abbrev executing_db : Db
executing_db = record one_session { tool_requests = executing_row ∷ [] }

abbrev finished_row : Row
finished_row = finish_row (matches "m") executing_row

abbrev finished_db : Db
finished_db = record one_session { tool_requests = finished_row ∷ [] }

abbrev finals : String → Row → Row
finals token r = record r { final = final_claimed; final_token = some token }

abbrev later : List Call
later = gives_up "t1" ∷ recovers "r1" ∷ writes_turn "r1" ∷ []

claims_validated :
    claim small of_search "r1" "t1" allow validated_db ≡ (ok (some "t1"), executing_db)
unfolding claim_search find update changes passes
claims_validated = rw (same_validation_refl search_call) refl

registers_new : register small the_input allow none "u1" one_session ≡ (ok ready, validated_db)
unfolding register find taken
registers_new = refl

writes_finished : claim_transcript small "r1" finished_db ≡ (
  ok true,
  record one_session { tool_requests = record finished_row { transcript_written = true } ∷ [] },
)
unfolding claim_transcript update changes passes
writes_finished = refl

answers_finished :
    claim_final small "r1" "f1" finished_db
    ≡ (ok (some "f1"), record one_session { tool_requests = finals "f1" finished_row ∷ [] })
unfolding claim_final find update changes passes
answers_finished = refl

found_first :
    (row : Row)
    → find_request (key row) (record one_session { tool_requests = row ∷ [] }) ≡ some row
unfolding find
found_first row = rw (eq_refl (key row)) refl

unique_first : (row : Row) → UniqueKeys key (row ∷ [])
unfolding find
unique_first row = (refl, tt)

renames_executing : finish_rename small 7 "r1" "t1" "s1" "New" executing_db ≡ (
  ok tt,
  record {
    sessions = record { id = "s1"; title = "New"; updated_at = 7 } ∷ [];
    approvals = [];
    tool_requests = finish_row (renamed "s1" "New") executing_row ∷ [];
  },
)
unfolding finish_rename update changes passes
renames_executing = refl

claimed_once_example :
    claim small of_rename "r1" "t2" allow (run small later executing_db)
    ≡ (ok none, run small later executing_db)
claimed_once_example =
    claimed_once small of_search "r1" "t1" "t1" allow validated_db executing_db (unique_first ready)
      claims_validated later of_rename "t2" allow

claim_won_example :
    (row : Row) × (find_request "r1" validated_db ≡ some row)
    × (icos_v.Ledger.Once.startable of_search row ≡ true)
    × (allow row.input ≡ row.validation)
    × (icos_v.Ledger.Once.accepts of_search row.validation ≡ true)
    × (◌≡◌ {A = String} "t1" "t1")
    × (find_request "r1" executing_db ≡ some (execute_row "t1" row))
claim_won_example =
    claim_won small of_search "r1" "t1" "t1" allow validated_db executing_db (unique_first ready)
      claims_validated

step-Grows_example :
    Grows executing_db (step small (finishes_search "r1" "t1" (matches "m")) executing_db)
step-Grows_example = step-Grows small (finishes_search "r1" "t1" (matches "m")) executing_db

register_idempotent_example :
    register small the_input allow (some "a") "u2" validated_db ≡ (ok ready, validated_db)
register_idempotent_example =
    register_idempotent small the_input allow allow none (some "a") "u1" "u2" one_session
      validated_db ready registers_new

outcome_settled_example :
    (row' : Row) × (find_request "r1" (run small later finished_db) ≡ some row')
    × ((row'.state ≡ succeeded) × (row'.execution ≡ some (matches "m")))
outcome_settled_example =
    outcome_settled small finished_db "r1" finished_row (found_first finished_row) refl later

written_once_example :
    (claim_transcript small "r1" (
      run small later (record one_session {
        tool_requests = record finished_row { transcript_written = true } ∷ [];
      }))).0
    ≢ ok true
written_once_example =
    written_once small finished_db
      (record one_session {
        tool_requests = record finished_row { transcript_written = true } ∷ [];
      })
      "r1" (unique_first finished_row) writes_finished later

answered_once_example :
    (claim_final small "r1" "f2"
      (run small later (record one_session { tool_requests = finals "f1" finished_row ∷ [] }))).0
    ≢ ok (some "f2")
answered_once_example =
    answered_once small "r1" "f1" "f1" finished_db
      (record one_session { tool_requests = finals "f1" finished_row ∷ [] })
      (unique_first finished_row) answers_finished later "f2" "f2"

abbrev renamed_db : Db
renamed_db = record {
  sessions = record { id = "s1"; title = "New"; updated_at = 7 } ∷ [];
  approvals = [];
  tool_requests = finish_row (renamed "s1" "New") executing_row ∷ [];
}

finish_rename-atomic_example :
    (◌≡◌ {A = Result LedgerError (Unit {0})} (ok tt) (ok tt)
      → ((row : Row) × (find_request "r1" executing_db ≡ some row)
          × (executed_by "r1" "t1" row ≡ true)
          × (find_request "r1" renamed_db ≡ some (finish_row (renamed "s1" "New") row)))
        × ((t : Session) × (find session_key "s1" renamed_db.sessions ≡ some t)
            × (t.title ≡ "New")))
    × ((x : LedgerError)
        → ◌≡◌ {A = Result LedgerError (Unit {0})} (ok tt) (err x)
        → renamed_db ≡ executing_db)
finish_rename-atomic_example =
    finish_rename-atomic small 7 "r1" "t1" "s1" "New" executing_db renamed_db (ok tt)
      (unique_first executing_row) renames_executing

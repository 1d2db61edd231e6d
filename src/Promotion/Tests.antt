-- ===== src/Promotion/Tests.antt =====
-- The theorems on the promotion at a world with one candidate under review.
use icos_v.Base.{false, none, some, List, [], ◌∷◌, ◌≡◌, ◌⊎◌, refl, arith}
use icos_v.Base.Exec.{Clock}
use icos_v.Base.Table.{changes, find}
use icos_v.Approvals.{approved, ApprovalRow}
use icos_v.Journal.{new_claim, proposed, promoting, JournalRow, row_by_id, list_by_state}
use icos_v.Claims.{a_preference, user, MemoryCandidate}
use icos_v.Promotion.{Setting, World}
use icos_v.Promotion.Methods.{Fresh}
use icos_v.Promotion.Execute.{execute_entry}
use icos_v.Promotion.Sweep.{Draws, sweep}
use icos_v.Promotion.Authority.{IsGranted, execute_entry-authorised}
use icos_v.Promotion.Progress.{IsOver}
use icos_v.Promotion.Settling.{IsWaiting, execute_entry-Done, execute_entry_again}
use icos_v.Promotion.Totals.{Counts, sweep-total}
use icos_v.Promotion.Calls.{Coherent}
use icos_v.Promotion.Runs.{Call, executes, sweeps, restarts, run, run-Coherent}
use icos_v.Base.{length}

abbrev setting : Setting
setting = record {
  auto = false;
  auto_kinds = [];
  confidence_threshold = 500000;
  lower = λ s. s;
  to_fixed = λ _. "0.90";
  number_text = λ _. "0.9";
  sqlite_message = "constraint failed";
}

abbrev noon : Clock
noon _ = 12

abbrev fresh : Fresh
fresh = record { claim = "k1"; question = "q1" }

abbrev draws : Draws
draws = record { clock = λ _. noon; fresh = λ _. fresh }

abbrev editor : MemoryCandidate
editor = record {
  id = "c1";
  session_id = "s1";
  message_id = 3;
  kind = a_preference;
  subject = "user";
  predicate = "prefers";
  object = "Vim";
  confidence = 900000;
  importance = 500000;
  stability = 500000;
  extractor_model = "m";
  extractor_version = "1";
  extracted_at = 4;
  source_role = user;
  negated = false;
}

abbrev entry : JournalRow
entry = record {
  id = "j1";
  candidate_id = "c1";
  operation = new_claim;
  state = proposed;
  approval_id = some "a1";
  claim_id = none;
  detail = "";
  created_at = 5;
  updated_at = 5;
}

abbrev approval : ApprovalRow
approval = record {
  id = "a1";
  session_id = "s1";
  action = "memory.promote";
  description = "";
  status = approved;
  created_at = 5;
  updated_at = 6;
  expires_at = none;
  resolved_at = some 6;
}

abbrev under_review : World
under_review = record {
  claims = record { claims = []; memory_candidates = editor ∷ [] };
  journal = record { promotion_journal = entry ∷ [] };
  approvals = record {
    db = record {
      sessions = "s1" ∷ [];
      approvals = approval ∷ [];
      approval_events = [];
      last_event = 0;
    };
    published = [];
  };
  questions = record { prospective_items = [] };
  indexed = [];
  published = [];
}

entry_found : row_by_id "j1" under_review.journal ≡ some entry
unfolding find
entry_found = refl

nothing_live : Coherent under_review
unfolding changes
nothing_live = (tt, λ a b. omega arith)

some_calls : List Call
some_calls = executes noon fresh "j1" ∷ restarts noon ∷ sweeps draws ∷ []

run-Coherent_example : Coherent (run setting some_calls under_review)
run-Coherent_example = run-Coherent setting some_calls under_review nothing_live

execute_entry-authorised_example :
    ((execute_entry setting noon fresh "j1" under_review).1.claims ≡ under_review.claims)
    ⊎ IsGranted "a1" (execute_entry setting noon fresh "j1" under_review).1.approvals.db
execute_entry-authorised_example =
    execute_entry-authorised setting noon fresh "j1" "a1" under_review entry entry_found refl

execute_entry-Done_example :
    IsOver "j1" (execute_entry setting noon fresh "j1" under_review).1.journal
    ⊎ IsWaiting
        (some "a1")
        under_review.journal
        (execute_entry setting noon fresh "j1" under_review).1
execute_entry-Done_example =
    execute_entry-Done setting noon fresh "j1" under_review entry entry_found refl

execute_entry_again_example :
    IsWaiting
      (some "a1")
      under_review.journal
      (execute_entry setting noon fresh "j1" under_review).1
    ⊎ ((execute_entry setting noon fresh "j1"
          (execute_entry setting noon fresh "j1" under_review).1).1
        ≡ (execute_entry setting noon fresh "j1" under_review).1)
execute_entry_again_example =
    execute_entry_again setting noon noon fresh fresh "j1" under_review entry entry_found

sweep-total_example :
    Counts
      (length (list_by_state (proposed ∷ promoting ∷ []) under_review.journal))
      (sweep setting draws under_review)
sweep-total_example = sweep-total setting draws under_review

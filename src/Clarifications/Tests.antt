-- ===== src/Clarifications/Tests.antt =====
-- The theorems on clarifications at concrete requests.
use icos_v.Base.{none, some, List, [], ◌∷◌, ◌≡◌, refl}
use icos_v.Base.Exec.{Clock}
use icos_v.Base.Table.{find}
use icos_v.Clarifications.{
  ClarificationRow, pending, answered, Db, answers, find_clarification, close_clarification,
}
use icos_v.Clarifications.Outcomes.{settled, close_clarification-eq}
use icos_v.Clarifications.Spec.{QuestionRun, question, has_answer}
use icos_v.Clarifications.Runs.{
  Call, IsReading, gives_answer, gives_up, run, run-refines, closed_for_good,
}
use icos_v.Clarifications.Service.{Server}

abbrev clock : Clock
clock n = 1000

abbrev colour : ClarificationRow
colour = record {
  id = "c1";
  session_id = "s1";
  question = "Which colour?";
  options = some ("red" ∷ "blue" ∷ []);
  status = pending;
  answer = none;
  created_at = 900;
  updated_at = 900;
  expires_at = some 9000;
  resolved_at = none;
}

abbrev with_row : ClarificationRow → Db
with_row row = record {
  sessions = "s1" ∷ "s2" ∷ [];
  clarifications = row ∷ [];
  clarification_events = [];
  last_event = 0;
}

abbrev calls : List Call
calls = gives_answer clock "c1" "green" ∷ gives_answer clock "c1" " red " ∷ gives_up clock "c1" ∷ []

run-refines_example :
    QuestionRun
      (IsReading calls)
      (question (find_clarification "c1" (with_row colour)))
      (question (find_clarification "c1" (run calls (with_row colour))))
unfolding find
run-refines_example = run-refines calls (with_row colour) (refl, tt) "c1"

abbrev red : ClarificationRow
red = record colour { status = answered; answer = some "red"; resolved_at = some 950 }

closed_for_good_example :
    question (find_clarification "c1" (run calls (with_row red))) ≡ has_answer (some "red")
unfolding find
closed_for_good_example = closed_for_good calls (with_row red) "c1" red (refl, tt) refl refl

close_clarification-eq_example :
    close_clarification clock "c1" (answers "red") (with_row colour)
    ≡ settled clock "c1" (answers "red") colour (with_row colour)
unfolding find
close_clarification-eq_example =
    close_clarification-eq clock "c1" (answers "red") (with_row colour) colour (refl, tt) refl

abbrev server : Server
server = record { db = with_row colour; published = [] }

-- ===== src/Clarifications/Runs.antt =====
-- Any sequence of repository calls, and the machine of `Spec`.
use icos_v.Base.{
  ℕ, String, false, Option, some, List, [], ◌∷◌, ◌≡◌, refl, sym, subst, inl, inr, ◌⊎◌,
}
use icos_v.Base.Exec.{Clock}
use icos_v.Base.Table.{select, UniqueKeys}
use icos_v.Clarifications.{
  ClarificationStatus, cancels, is_pending, ClarificationRow, NewClarification, Db, key,
  find_clarification, get_clarification, create_clarification, answer_clarification,
  cancel_clarification, list_clarifications, expire_lapsed, lapsed,
}
use icos_v.Clarifications.Spec.{
  Question, QuestionRun, rests, question_of, question, Refines, question_of-IsClosed,
  settled_question,
}
use icos_v.Clarifications.Late.{selected-IsLate}
use icos_v.Clarifications.Methods.{
  mark_all-Refines, get_clarification-Refines, create_clarification-Refines,
  close_clarification-Refines,
}

-- One call of the repository with its arguments.
pub data Call : Type 0 where
  creates : Clock → String → NewClarification → Call
  gets_one : Clock → String → Call
  lists : Clock → Option String → Option ClarificationStatus → Call
  gives_answer : Clock → (id answer : String) → Call
  gives_up : Clock → String → Call

unfoldable pub step : Call → Db → Db
step (creates clock id input) s = (create_clarification clock id input s).1
step (gets_one clock id) s = (get_clarification clock id s).1
step (lists clock session status) s = (list_clarifications clock session status s).1
step (gives_answer clock id answer) s = (answer_clarification clock id answer s).1
step (gives_up clock id) s = (cancel_clarification clock id s).1

unfoldable pub run : List Call → Db → Db
run [] s = s
run (c ∷ cs) s = run cs (step c s)

-- The clock of a call.
abbrev pub clock_of : Call → Clock
clock_of (creates clock id input) = clock
clock_of (gets_one clock id) = clock
clock_of (lists clock session status) = clock
clock_of (gives_answer clock id answer) = clock
clock_of (gives_up clock id) = clock

-- The times that the calls read off their clocks.
abbrev pub IsReading : List Call → ℕ → Type 0
IsReading [] now = ⊥
IsReading (c ∷ cs) now = ((n : ℕ) × (clock_of c n ≡ now)) ⊎ IsReading cs now

module _ (seen : ℕ → Type 0) (start : String → Question) where
  step-Refines :
      (c : Call) (s : Db)
      → ((n : ℕ) → seen (clock_of c n))
      → Refines seen start s
      → Refines seen start (step c s)
  unfolding step list_clarifications expire_lapsed answer_clarification cancel_clarification
  step-Refines (creates clock id input) s reads h =
      create_clarification-Refines seen start clock id input s reads h
  step-Refines (gets_one clock id) s reads h =
      get_clarification-Refines seen start clock id s reads h
  step-Refines (lists clock session status) s reads h =
      mark_all-Refines seen start (clock 0) (select (lapsed (clock 0) session) s.clarifications) s
        (reads 0) (selected-IsLate (clock 0) session s h.0) h
  step-Refines (gives_answer clock id answer) s reads h =
      close_clarification-Refines seen start clock id _ s tt reads h
  step-Refines (gives_up clock id) s reads h =
      close_clarification-Refines seen start clock id cancels s tt reads h

  run-Refines :
      (cs : List Call) (s : Db)
      → ((now : ℕ) → IsReading cs now → seen now)
      → Refines seen start s
      → Refines seen start (run cs s)
  unfolding run
  run-Refines [] s reads h = h
  run-Refines (c ∷ cs) s reads h =
      run-Refines cs (step c s) (λ now r. reads now (inr r))
        (step-Refines c s (λ n. reads (clock_of c n) (inl (n, refl))) h)

-- Whatever calls of the repository run, in whatever order and with whatever clock, each question goes only
-- through steps of the machine: it is asked, and then closed at most once. An answer that is not empty and
-- is one of the options where there are any closes it, or a cancellation, each at a time that a call has
-- read before the question's deadline; or it lapses, if it has a deadline, at a time that a call has read
-- at the deadline or later. Request ids are unique to begin with.
pub run-refines :
    (cs : List Call) (s : Db)
    → UniqueKeys key s.clarifications
    → (id : String)
    → QuestionRun
        (IsReading cs)
        (question (find_clarification id s))
        (question (find_clarification id (run cs s)))
run-refines cs s unique id =
    (run-Refines (IsReading cs) (λ j. question (find_clarification j s)) cs s (λ now r. r)
        (unique, λ j. rests)).1
      id

-- A question that is answered, cancelled or lapsed stays so, with the same answer, whatever calls run.
-- Request ids are unique.
pub closed_for_good :
    (cs : List Call) (s : Db) (id : String) (row : ClarificationRow)
    → UniqueKeys key s.clarifications
    → find_clarification id s ≡ some row
    → is_pending row.status ≡ false
    → question (find_clarification id (run cs s)) ≡ question_of row.status row
closed_for_good cs s id row unique found closed_before = sym (
    settled_question
      (subst
        (λ o. QuestionRun (IsReading cs) (question o) (question (find_clarification id (run cs s))))
        found (run-refines cs s unique id))
      (question_of-IsClosed row.status row closed_before))

-- ===== src/Clarifications/Spec.antt =====
-- The life of a question as the repository promises it, and the two changes of the table that make up its
-- steps.
use mathlib.Core.Option
use icos_v.Base.{
  ℕ, ◌≤◌, ◌<◌, String, true, false, Option, none, some, List, str_eq, if◌then◌else◌, ◌≡◌, refl, sym,
  subst, ◌∙◌, inl, inr, arith, eq_iff, Bool-cases, Option-cases,
}
use icos_v.Base.Table.{find-key, find-append, UniqueKeys, UniqueKeys-append, UniqueKeys-update}
use mathlib.Core.Bool.{false≢true}
use icos_v.Clarifications.{
  ClarificationStatus, pending, answered, cancelled, expired, Ending, answers, cancels, expires,
  is_pending, ClarificationRow, NewClarification, Db, key, find_clarification, pending_with,
  close_row, new_row, is_permitted, past,
}
use icos_v.Clarifications.Outcomes.{closed, find-closed, find-closed_self, inserted}

-- The life of one question; one that waits has its options and its deadline.
pub data Question : Type 0 where
  unasked : Question
  waiting : Option (List String) → Option ℕ → Question
  has_answer : Option String → Question
  was_dropped has_lapsed : Question

abbrev pub IsOpenAt : ℕ → Option ℕ → Type 0
IsOpenAt now none = Unit {0}
IsOpenAt now (some deadline) = now < deadline

abbrev pub IsOverAt : ℕ → Option ℕ → Type 0
IsOverAt now none = ⊥
IsOverAt now (some deadline) = deadline ≤ now

-- `seen` says which times have been read off the clock.
pub data QuestionStep (seen : ℕ → Type 0) : Question → Question → Type 0 where
  asks :
      (options : Option (List String)) (deadline : Option ℕ)
      → QuestionStep seen unasked (waiting options deadline)
  is_answered :
      (options : Option (List String)) (deadline : Option ℕ) (a : String) (now : ℕ)
      → is_permitted (answers a) options ≡ true
      → seen now
      → IsOpenAt now deadline
      → QuestionStep seen (waiting options deadline) (has_answer (some a))
  is_dropped :
      (options : Option (List String)) (deadline : Option ℕ) (now : ℕ)
      → seen now
      → IsOpenAt now deadline
      → QuestionStep seen (waiting options deadline) was_dropped
  lapses :
      (options : Option (List String)) (deadline : Option ℕ) (now : ℕ)
      → seen now
      → IsOverAt now deadline
      → QuestionStep seen (waiting options deadline) has_lapsed

pub data QuestionRun (seen : ℕ → Type 0) : Question → Question → Type 0 where
  rests : {q : Question} → QuestionRun seen q q
  goes_on : {q r t : Question} → QuestionRun seen q r → QuestionStep seen r t → QuestionRun seen q t

-- The question that a row stands for.
abbrev pub question_of : ClarificationStatus → ClarificationRow → Question
question_of pending row = waiting row.options row.expires_at
question_of answered row = has_answer row.answer
question_of cancelled row = was_dropped
question_of expired row = has_lapsed

abbrev pub question : Option ClarificationRow → Question
question none = unasked
question (some row) = question_of row.status row

-- An answer and a cancellation come before the deadline, a lapse comes after it.
abbrev pub IsTimely : Ending → ℕ → Option ℕ → Type 0
IsTimely expires now deadline = IsOverAt now deadline
IsTimely _ now deadline = IsOpenAt now deadline

pub past-IsOverAt :
    (now : ℕ) (deadline : Option ℕ) → past now deadline ≡ true → IsOverAt now deadline
past-IsOverAt now none h = absurd (false≢true h)
past-IsOverAt now (some deadline) h = ground arith

pub past-IsOpenAt :
    (now : ℕ) (deadline : Option ℕ) → past now deadline ≡ false → IsOpenAt now deadline
past-IsOpenAt now none h = tt
past-IsOpenAt now (some deadline) h = ground arith

closes :
    (seen : ℕ → Type 0) (to : Ending) (now at : ℕ) (row : ClarificationRow)
    → is_pending row.status ≡ true
    → is_permitted to row.options ≡ true
    → seen at
    → IsTimely to at row.expires_at
    → QuestionStep seen (question_of row.status row) (question (some (close_row to now row)))
closes seen to now at row p permitted read timely = go row.status p to permitted timely
  where
    go :
        (status : ClarificationStatus)
        → is_pending status ≡ true
        → (to : Ending) → is_permitted to row.options ≡ true
        → IsTimely to at row.expires_at
        → QuestionStep seen (question_of status row) (question (some (close_row to now row)))
    go pending p (answers a) permitted timely =
        is_answered row.options row.expires_at a at permitted read timely
    go pending p cancels permitted timely = is_dropped row.options row.expires_at at read timely
    go pending p expires permitted timely = lapses row.options row.expires_at at read timely
    go answered p to permitted timely = absurd (false≢true p)
    go cancelled p to permitted timely = absurd (false≢true p)
    go expired p to permitted timely = absurd (false≢true p)

-- A row with another id is not closed.
untouched :
    (id j : String) (to : Ending) (now : ℕ) (s : Db)
    → str_eq id j ≡ false
    → Option.map (λ r. if pending_with id r then close_row to now r else r) (find_clarification j s)
      ≡ find_clarification j s
untouched id j to now s other = elim (Option-cases (find_clarification j s)) [
  | inl missing ↦ rw missing refl
  | inr (r, found) ↦
      rw found
        (ground (arith, find-key key j s.clarifications r found, eq_iff r.id id, eq_iff id j))
]

module _ (seen : ℕ → Type 0) (start : String → Question) where
  -- The rows stand for questions that have come from `start` as the machine allows.
  abbrev pub Refines : Db → Type 0
  Refines s =
      UniqueKeys key s.clarifications
      × ((id : String) → QuestionRun seen (start id) (question (find_clarification id s)))

  pub close-Refines :
      (id session : String) (to : Ending) (now at : ℕ) (s : Db) (row : ClarificationRow)
      → find_clarification id s ≡ some row
      → is_pending row.status ≡ true
      → is_permitted to row.options ≡ true
      → seen at
      → IsTimely to at row.expires_at
      → Refines s
      → Refines (closed id session to now s)
  close-Refines id session to now at s row e p permitted read timely (unique, runs) = (
    UniqueKeys-update key (pending_with id) (close_row to now) (λ r. refl) s.clarifications unique,
    (λ j. elim (Bool-cases (str_eq id j)) [
      | inl same ↦
          subst
            (λ k.
              QuestionRun seen (start k)
                (question (find_clarification k (closed id session to now s))))
            ((eq_iff id j).0 same)
            (rw (find-closed_self id session to now s row e p) (
              goes_on (subst (λ o. QuestionRun seen (start id) (question o)) e (runs id))
                (closes seen to now at row p permitted read timely)))
      | inr other ↦
          subst (λ o. QuestionRun seen (start j) (question o))
            (sym (find-closed id j session to now s ∙ untouched id j to now s other)) (runs j)
    ]),
  )

  pub insert-Refines :
      (id : String) (now : ℕ) (input : NewClarification) (s : Db)
      → find_clarification id s ≡ none
      → Refines s
      → Refines (inserted id now input s)
  insert-Refines id now input s e (unique, runs) = (
    UniqueKeys-append key s.clarifications (new_row id now input) e unique,
    (λ j. elim (Option-cases (find_clarification j s)) [
      | inr (r, there) ↦
          rw (find-append, there)
            (subst (λ o. QuestionRun seen (start j) (question o)) there (runs j))
      | inl missing ↦
          let begun = subst (λ o. QuestionRun seen (start j) (question o)) missing (runs j) in
          elim (Bool-cases (str_eq id j)) [
            | inl same ↦
                rw (find-append, missing, same)
                  (goes_on begun (asks input.options input.expires_at))
            | inr other ↦ rw (find-append, missing, other) begun
          ]
    ]),
  )

-- A closed question takes no step.
abbrev pub IsClosed : Question → Type 0
IsClosed unasked = ⊥
IsClosed (waiting options deadline) = ⊥
IsClosed _ = Unit {0}

pub question_of-IsClosed :
    (status : ClarificationStatus) (row : ClarificationRow)
    → is_pending status ≡ false
    → IsClosed (question_of status row)
question_of-IsClosed pending row h = absurd (false≢true (sym h))
question_of-IsClosed answered row h = tt
question_of-IsClosed cancelled row h = tt
question_of-IsClosed expired row h = tt

pub settled_question :
    {seen : ℕ → Type 0} {q r : Question} → QuestionRun seen q r → IsClosed q → q ≡ r
settled_question rests h = refl
settled_question {seen} (goes_on {q} {r} path last) h =
    absurd (no_step last (subst IsClosed (settled_question path h) h))
  where
    no_step : {a b : Question} → QuestionStep seen a b → IsClosed a → ⊥
    no_step (asks o d) h = h
    no_step (is_answered o d a now ok read timely) h = h
    no_step (is_dropped o d now read timely) h = h
    no_step (lapses o d now read timely) h = h

-- ===== src/Journal/Outcomes.antt =====
-- What the journal promises about proposals and transitions.
use icos_v.Base.{
  String, Bool, true, not, ◌&&◌, ◌||◌, none, some, List, if◌then◌else◌, ◌≡◌, inl, inr, ◌∙◌, sym, ap,
  subst, refl, arith, eq_iff, eq_refl, Bool-cases, Option-cases,
}
use icos_v.Base.Exec.{ok, Clock}
use icos_v.Base.Table.{find-key, find-append, find-update, UniqueKeys}
use icos_v.Journal.{
  JournalState, JournalRow, PromotionJournalEntry, to_entry, Proposal, Options, Db, key, candidate,
  row_by_id, row_by_candidate, state_eq, is_terminal, allowed, new_row, record_proposal,
  operation_given, claim_given, with_id, move_row, set_state,
}
use icos_v.Base.Table.{find_by}
use icos_v.Journal.Runs.{
  Call, step, run, Move, stays, moves, run-invariant, run-Unique, moved, move-eq, step-Extends,
  proposes,
}

-- The row of a call that changes nothing but the state.
abbrev pub plain : Options
plain = record { operation = none; claim_id = none; detail = none }

abbrev pub repeats : JournalState → Options → JournalRow → Bool
repeats to options row =
    state_eq row.state to
    && (not (operation_given options.operation) && not (claim_given options.claim_id))

-- Setting the state of a known entry, in all its branches: the state that it has, with no operation
-- and no claim, returns it as it is; else a terminal state and a move that is not allowed return
-- null and write nothing; else the entry is stored as moved and returned.
pub set_state-eq :
    (clock : Clock) (id : String) (to : JournalState) (options : Options) (s : Db)
    (row : JournalRow)
    → row_by_id id s ≡ some row
    → set_state clock id to options s ≡ (
        if repeats to options row
        then (ok (some (to_entry row)), s)
        else if is_terminal row.state || not (allowed row.state to)
        then (ok none, s)
        else (
          ok (some (to_entry (move_row (clock 0) to options row))),
          moved clock id to options s,
        ))
unfolding set_state
set_state-eq clock id to options s row found =
    rw (found, set_state)
      (elim (Bool-cases (repeats to options row)) [
        | inl again ↦ rw again refl
        | inr other ↦
            rw other (elim (Bool-cases (is_terminal row.state || not (allowed row.state to))) [
              | inl shut ↦ rw shut refl
              | inr free ↦ rw free (move-eq clock id to options s row found)
            ])
      ])

Move-terminal :
    (row r r' : JournalRow) → is_terminal row.state ≡ true → Move r r' → r ≡ row → r' ≡ row
Move-terminal row r r' t (stays e) h = e ∙ h
Move-terminal row r r' t (moves now to options open_still fine e) h = ground arith

-- An entry that is committed, denied or failed keeps every column through any sequence of proposals
-- and transitions.
pub run_terminal :
    (cs : List Call) (s : Db) (id : String) (row : JournalRow)
    → row_by_id id s ≡ some row
    → is_terminal row.state ≡ true
    → row_by_id id (run cs s) ≡ some row
run_terminal cs s id row found t =
    let (r, there, same) =
      run-invariant (λ r. r ≡ row) (λ r r' m. Move-terminal row r r' t m) cs s id row found refl in
    rw there (ap some same)

pub find-moved :
    (clock : Clock) (id : String) (to : JournalState) (options : Options) (s : Db)
    (row : JournalRow)
    → row_by_id id s ≡ some row
    → row_by_id id (moved clock id to options s) ≡ some (move_row (clock 0) to options row)
find-moved clock id to options s row found =
    let name = find-key key id s.promotion_journal row found in
    rw (find-update key (with_id id) (move_row (clock 0) to options) (λ x. refl), found)
      (ground (arith, eq_iff row.id id))

-- Whether a call names an operation or a claim; an empty text names none.
abbrev pub names_change : Options → Bool
names_change options = operation_given options.operation || claim_given options.claim_id

record_proposal_stored :
    (clock : Clock) (id : String) (input : Proposal) (s s' : Db) (e : PromotionJournalEntry)
    → record_proposal clock id input s ≡ (ok e, s')
    → (row : JournalRow) × (row_by_candidate input.candidate_id s' ≡ some row) × (to_entry row ≡ e)
unfolding record_proposal
record_proposal_stored clock id input s s' e h =
    elim (Option-cases (row_by_candidate input.candidate_id s)) [
      | inl missing ↦
          let by_id = find-append key id s.promotion_journal (new_row id (clock 0) input) in
          let by_candidate =
            find-append candidate input.candidate_id s.promotion_journal
              (new_row id (clock 0) input) in
          elim (Option-cases (row_by_id id s)) [
            | inl fresh ↦ (
              new_row id (clock 0) input,
              ground (arith, eq_refl id, eq_refl input.candidate_id),
              ground (arith, eq_refl id),
            )
            | inr (taken_by, taken) ↦ ground arith
          ]
      | inr (row, found) ↦ (row, ground arith, ground arith)
    ]

Move-kept :
    (i c : String) (r r' : JournalRow)
    → Move r r'
    → (r.id ≡ i) × (r.candidate_id ≡ c)
    → (r'.id ≡ i) × (r'.candidate_id ≡ c)
Move-kept i c r r' (stays e) h = rw e h
Move-kept i c r r' (moves now to options open_still fine e) h = rw e h

record_proposal_known :
    (clock : Clock) (id : String) (input : Proposal) (s : Db) (row : JournalRow)
    → row_by_candidate input.candidate_id s ≡ some row
    → record_proposal clock id input s ≡ (ok (to_entry row), s)
unfolding record_proposal
record_proposal_known clock id input s row found = rw (found, record_proposal) refl

-- Once a candidate has been proposed, then after any sequence of proposals and transitions a further
-- proposal of that candidate, whatever it says, writes nothing and returns the entry with the id of
-- the first. Ids and candidates are unique to begin with.
pub proposed_once :
    (clock again : Clock) (id other : String) (input next : Proposal) (s s' : Db)
    (e : PromotionJournalEntry) (cs : List Call)
    → UniqueKeys key s.promotion_journal
    → UniqueKeys candidate s.promotion_journal
    → record_proposal clock id input s ≡ (ok e, s')
    → next.candidate_id ≡ input.candidate_id
    → (e' : PromotionJournalEntry) × (e'.id ≡ e.id)
      × (record_proposal again other next (run cs s') ≡ (ok e', run cs s'))
unfolding step
proposed_once clock again id other input next s s' e cs u v h same =
    let (row, stored, shown) = record_proposal_stored clock id input s s' e h in
    let is_candidate = find-key candidate input.candidate_id s'.promotion_journal row stored in
    let grown = step-Extends (proposes clock id input) s in
    let ids = subst (λ z. UniqueKeys key z.promotion_journal) (ap (λ x. x.1) h) (grown.0 u) in
    let candidates =
      subst (λ z. UniqueKeys candidate z.promotion_journal) (ap (λ x. x.1) h) (grown.1 v) in
    let by_id = find_by candidate key input.candidate_id s'.promotion_journal row ids stored in
    let (last, there, (same_id, same_candidate)) =
      run-invariant (λ r. (r.id ≡ row.id) × (r.candidate_id ≡ row.candidate_id))
        (Move-kept row.id row.candidate_id) cs s' row.id row by_id (refl, refl) in
    let (_, unique) = run-Unique cs s' ids candidates in
    let found = find_by key candidate row.id (run cs s').promotion_journal last unique there in
    (
      to_entry last,
      same_id ∙ ap (λ x. x.id) shown,
      record_proposal_known again other next (run cs s') last (
          subst (λ c. row_by_candidate c (run cs s') ≡ some last)
            (same_candidate ∙ is_candidate ∙ sym same) found),
    )

-- ===== src/Journal/Tests.antt =====
-- The theorems on the promotion journal at concrete entries.
use icos_v.Base.{none, some, List, [], ◌∷◌, ◌≡◌, refl, eq_refl}
use icos_v.Base.Exec.{ok, Clock}
use icos_v.Base.Table.{find}
use icos_v.Journal.{
  promoting, denied, JournalRow, PromotionJournalEntry, to_entry, Proposal, Db, key, row_by_id,
  new_row, record_proposal, move_row,
}
use icos_v.Journal.{new_claim, reinforce}
use icos_v.Journal.Runs.{Call, run, proposes, sets}
use icos_v.Journal.Outcomes.{plain, run_terminal, proposed_once}

abbrev noon : Clock
noon _ = 12

abbrev the_proposal : Proposal
the_proposal = record {
  candidate_id = "c1";
  operation = new_claim;
  approval_id = none;
  detail = none;
}

abbrev journal_of : JournalRow → Db
journal_of row = record { promotion_journal = row ∷ [] }

abbrev first_row : JournalRow
first_row = new_row "j1" 12 the_proposal

abbrev promoting_row : JournalRow
promoting_row = move_row 12 promoting plain first_row

abbrev denied_row : JournalRow
denied_row = move_row 12 denied plain first_row

abbrev later : List Call
later = proposes noon "j2" the_proposal ∷ sets noon "j1" promoting plain ∷ []

found_first : (row : JournalRow) → row_by_id (key row) (journal_of row) ≡ some row
unfolding find
found_first row = rw (eq_refl (key row)) refl

proposes_first :
    record_proposal noon "j1" the_proposal (record { promotion_journal = [] })
    ≡ (ok (to_entry first_row), journal_of first_row)
unfolding record_proposal find
proposes_first = refl

proposed_once_example :
    (e : PromotionJournalEntry) × (e.id ≡ "j1")
    × (record_proposal noon "j9"
          (record the_proposal { operation = reinforce })
          (run later (journal_of first_row))
        ≡ (ok e, run later (journal_of first_row)))
proposed_once_example =
    proposed_once noon noon "j1" "j9" the_proposal (record the_proposal { operation = reinforce })
      (record { promotion_journal = [] }) (journal_of first_row) (to_entry first_row) later tt tt
      proposes_first refl

run_terminal_example : row_by_id "j1" (run later (journal_of denied_row)) ≡ some denied_row
run_terminal_example =
    run_terminal later (journal_of denied_row) "j1" denied_row (found_first denied_row) refl

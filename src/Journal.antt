-- ===== src/Journal.antt =====
-- core/src/memory/sqlite-promotion-journal.repository.ts and the table `promotion_journal` of
-- core/src/session/database.ts: one row per proposed candidate. The CHECKs of the table keep unknown
-- operations and states out, so `toEntry` does not throw here. A UUID is an argument.
pub mod Runs
pub mod Outcomes
mod Tests
use icos_v.Base.{
  ℕ, String, Bool, true, false, not, ◌&&◌, ◌||◌, Option, none, some, List, [], ◌∷◌, ◌++◌, map,
  str_eq, if◌then◌else◌,
}
use icos_v.Base.Exec.{Exec, ok, err, pure, throw, gets, or_throw, modify, Clock, ◌>>=◌, ◌>>◌}
use icos_v.Base.Table.{select, update, find}

pub data PromotionOperation : Type 0 where
  new_claim reinforce contradict : PromotionOperation

pub data JournalState : Type 0 where
  proposed promoting committed denied failed : JournalState

pub record JournalRow : Type 0 where
  pub id : String
  pub candidate_id : String
  pub operation : PromotionOperation
  pub state : JournalState
  pub approval_id : Option String
  pub claim_id : Option String
  pub detail : String
  pub created_at : ℕ
  pub updated_at : ℕ

-- The columns under their names in the code.
pub record PromotionJournalEntry : Type 0 where
  pub id : String
  pub candidate_id : String
  pub operation : PromotionOperation
  pub state : JournalState
  pub approval_id : Option String
  pub claim_id : Option String
  pub detail : String
  pub created_at : ℕ
  pub updated_at : ℕ

abbrev pub to_entry : JournalRow → PromotionJournalEntry
to_entry row = record {
  id = row.id;
  candidate_id = row.candidate_id;
  operation = row.operation;
  state = row.state;
  approval_id = row.approval_id;
  claim_id = row.claim_id;
  detail = row.detail;
  created_at = row.created_at;
  updated_at = row.updated_at;
}

pub record Proposal : Type 0 where
  pub candidate_id : String
  pub operation : PromotionOperation
  pub approval_id : Option String
  pub detail : Option String

-- The last argument of `setState`; all three are none when it is left out.
pub record Options : Type 0 where
  pub operation : Option PromotionOperation
  pub claim_id : Option String
  pub detail : Option String

pub data Error : Type 0 where
  vanished : String → Error
  sqlite_error : Error

pub record Db : Type 0 where
  pub promotion_journal : List JournalRow

abbrev pub Repo : Type 0 → Type 0
Repo A = Exec Error Db A

abbrev pub key : JournalRow → String
key row = row.id

abbrev pub candidate : JournalRow → String
candidate row = row.candidate_id

abbrev pub row_by_id : String → Db → Option JournalRow
row_by_id id s = find key id s.promotion_journal

abbrev pub row_by_candidate : String → Db → Option JournalRow
row_by_candidate id s = find candidate id s.promotion_journal

abbrev pub state_eq : JournalState → JournalState → Bool
state_eq proposed proposed = true
state_eq promoting promoting = true
state_eq committed committed = true
state_eq denied denied = true
state_eq failed failed = true
state_eq _ _ = false

-- TERMINAL.includes
abbrev pub is_terminal : JournalState → Bool
is_terminal committed = true
is_terminal denied = true
is_terminal failed = true
is_terminal _ = false

-- ALLOWED[from].includes(to)
abbrev pub allowed : JournalState → JournalState → Bool
allowed proposed to = not (state_eq to proposed)
allowed promoting to = not (state_eq to promoting)
allowed committed to = false
allowed denied to = false
allowed failed to = false

-- The value that COALESCE(?, column) takes.
abbrev pub coalesce : {A : Type 0} → Option A → A → A
coalesce none b = b
coalesce (some a) b = a

abbrev coalesce_null : Option String → Option String → Option String
coalesce_null none b = b
coalesce_null (some a) b = some a

abbrev pub new_row : String → ℕ → Proposal → JournalRow
new_row id now input = record {
  id = id;
  candidate_id = input.candidate_id;
  operation = input.operation;
  state = proposed;
  approval_id = input.approval_id;
  claim_id = none;
  detail = coalesce input.detail "";
  created_at = now;
  updated_at = now;
}

-- The schema refuses an id or a candidate that is taken.
abbrev pub insert_row : JournalRow → Repo (Unit {0})
insert_row row s = elim (row_by_id row.id s) [
  | none ↦ elim (row_by_candidate row.candidate_id s) [
    | none ↦ (ok tt, record s { promotion_journal = s.promotion_journal ++ row ∷ [] })
    | some _ ↦ (err sqlite_error, s)
  ]
  | some _ ↦ (err sqlite_error, s)
]

abbrev insert_proposal : Clock → String → Proposal → Repo PromotionJournalEntry
insert_proposal clock id input = do
  insert_row (new_row id (clock 0) input)
  found ← gets (row_by_id id)
  row ← or_throw found (vanished id)
  pure (to_entry row)

unfoldable pub record_proposal : Clock → String → Proposal → Repo PromotionJournalEntry
record_proposal clock id input s = elim (row_by_candidate input.candidate_id s) [
  | none ↦ insert_proposal clock id input s
  | some existing ↦ (ok (to_entry existing), s)
]

unfoldable pub get_entry : String → Db → Option PromotionJournalEntry
get_entry id s = elim (row_by_id id s) [ none ↦ none | some row ↦ some (to_entry row) ]

unfoldable pub get_by_candidate : String → Db → Option PromotionJournalEntry
get_by_candidate id s = elim (row_by_candidate id s) [
  | none ↦ none
  | some row ↦ some (to_entry row)
]

unfoldable pub includes : List JournalState → JournalState → Bool
includes [] state = false
includes (x ∷ xs) state = state_eq x state || includes xs state

unfoldable pub list_by_state : List JournalState → Db → List PromotionJournalEntry
list_by_state [] s = []
list_by_state (x ∷ xs) s =
    map to_entry (select (λ r. includes (x ∷ xs) r.state) s.promotion_journal)

abbrev is_claim : String → Option String → Bool
is_claim id none = false
is_claim id (some x) = str_eq x id

unfoldable pub list_by_claim_id : String → Db → List PromotionJournalEntry
list_by_claim_id id s = map to_entry (select (λ r. is_claim id r.claim_id) s.promotion_journal)

abbrev pub operation_given : Option PromotionOperation → Bool
operation_given none = false
operation_given (some _) = true

-- An empty text counts as left out in `!options?.claimId`, but not in COALESCE.
abbrev pub claim_given : Option String → Bool
claim_given none = false
claim_given (some text) = not (str_eq text "")

abbrev pub with_id : String → JournalRow → Bool
with_id id row = str_eq row.id id

abbrev pub move_row : ℕ → JournalState → Options → JournalRow → JournalRow
move_row now to options row = record row {
  state = to;
  operation = coalesce options.operation row.operation;
  claim_id = coalesce_null options.claim_id row.claim_id;
  detail = coalesce options.detail row.detail;
  updated_at = now;
}

abbrev pub move : Clock → String → JournalState → Options → Repo (Option PromotionJournalEntry)
move clock id to options = do
  modify (λ s. record s {
    promotion_journal = update (with_id id) (move_row (clock 0) to options) s.promotion_journal;
  })
  found ← gets (row_by_id id)
  row ← or_throw found (vanished id)
  pure (some (to_entry row))

abbrev pub set_found :
    Clock → String → JournalState → Options → JournalRow → Repo (Option PromotionJournalEntry)
set_found clock id to options current =
    if state_eq current.state to
      && (not (operation_given options.operation) && not (claim_given options.claim_id))
    then pure (some (to_entry current))
    else if is_terminal current.state || not (allowed current.state to)
    then pure none
    else move clock id to options

unfoldable pub set_state :
    Clock → String → JournalState → Options → Repo (Option PromotionJournalEntry)
set_state clock id to options s = elim (row_by_id id s) [
  | none ↦ (ok none, s)
  | some current ↦ set_found clock id to options current s
]

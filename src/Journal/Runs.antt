-- ===== src/Journal/Runs.antt =====
-- Any sequence of proposals and transitions.
use icos_v.Base.{
  ℕ, String, true, false, not, ◌&&◌, ◌||◌, none, some, List, [], ◌∷◌, ◌++◌, if◌then◌else◌, ◌≡◌, inl,
  inr, refl, arith, eq_iff, Bool-cases, Option-cases,
}
use icos_v.Base.Exec.{ok, Clock}
use icos_v.Base.Table.{
  update, find-key, find-append, find-update, UniqueKeys, UniqueKeys-update, UniqueKeys-append,
}
use icos_v.Journal.{
  JournalState, JournalRow, to_entry, Proposal, Options, Db, key, candidate, row_by_id,
  row_by_candidate, state_eq, is_terminal, allowed, new_row, record_proposal, operation_given,
  claim_given, with_id, move_row, move, set_found, set_state,
}

pub data Call : Type 0 where
  proposes : Clock → (id : String) → Proposal → Call
  sets : Clock → (id : String) → JournalState → Options → Call

unfoldable pub step : Call → Db → Db
step (proposes clock id input) s = (record_proposal clock id input s).1
step (sets clock id to options) s = (set_state clock id to options s).1

unfoldable pub run : List Call → Db → Db
run [] s = s
run (c ∷ cs) s = run cs (step c s)

-- What one call does to a row: it stays, or a row that is not terminal makes an allowed move.
pub data Move (r r' : JournalRow) : Type 0 where
  stays : r' ≡ r → Move r r'
  moves :
      (now : ℕ) (to : JournalState) (options : Options)
      → is_terminal r.state ≡ false
      → allowed r.state to ≡ true
      → r' ≡ move_row now to options r
      → Move r r'

-- Ids and candidates stay unique, and every row is still there, moved at most once.
abbrev pub Extends : Db → Db → Type 0
Extends s s' =
    (UniqueKeys key s.promotion_journal → UniqueKeys key s'.promotion_journal)
    × (UniqueKeys candidate s.promotion_journal → UniqueKeys candidate s'.promotion_journal)
    × ((id : String) (r : JournalRow)
        → row_by_id id s ≡ some r
        → (r' : JournalRow) × (row_by_id id s' ≡ some r') × Move r r')

pub Extends-refl : (s : Db) → Extends s s
Extends-refl s = ((λ u. u), (λ u. u), (λ id r e. (r, e, stays refl)))

insert_row-Extends :
    (row : JournalRow) (s : Db)
    → row_by_id (key row) s ≡ none
    → row_by_candidate (candidate row) s ≡ none
    → Extends s (record s { promotion_journal = s.promotion_journal ++ row ∷ [] })
insert_row-Extends row s fresh free = (
  UniqueKeys-append key s.promotion_journal row fresh,
  UniqueKeys-append candidate s.promotion_journal row free,
  (λ id r e. (r, rw (find-append, e), stays refl)),
)

record_proposal-cases :
    (P : Db → Type 0) (clock : Clock) (id : String) (input : Proposal) (s : Db)
    → P s
    → (row_by_id id s ≡ none
        → row_by_candidate input.candidate_id s ≡ none
        → P (record s {
          promotion_journal = s.promotion_journal ++ new_row id (clock 0) input ∷ [];
        }))
    → P (record_proposal clock id input s).1
unfolding record_proposal
record_proposal-cases P clock id input s unchanged inserted = ground arith

found_same :
    (j id : String) (s : Db) (r row : JournalRow)
    → row_by_id j s ≡ some r
    → row_by_id id s ≡ some row
    → with_id id r ≡ true
    → r ≡ row
found_same j id s r row e found same =
    let name = find-key key j s.promotion_journal r e in ground (arith, eq_iff r.id id)

abbrev pub moved : Clock → String → JournalState → Options → Db → Db
moved clock id to options s = record s {
  promotion_journal = update (with_id id) (move_row (clock 0) to options) s.promotion_journal;
}

moved-Extends :
    (clock : Clock) (id : String) (to : JournalState) (options : Options) (s : Db)
    (row : JournalRow)
    → row_by_id id s ≡ some row
    → is_terminal row.state ≡ false
    → allowed row.state to ≡ true
    → Extends s (moved clock id to options s)
moved-Extends clock id to options s row found open_still fine = (
  UniqueKeys-update key (with_id id) (move_row (clock 0) to options) (λ r. refl)
      s.promotion_journal,
  UniqueKeys-update candidate (with_id id) (move_row (clock 0) to options) (λ r. refl)
      s.promotion_journal,
  (λ j r e. (
    (if with_id id r then move_row (clock 0) to options r else r),
    rw (find-update key (with_id id) (move_row (clock 0) to options) (λ x. refl), e) refl,
    elim (Bool-cases (with_id id r)) [
      | inl same ↦
          let eq : r ≡ row = found_same j id s r row e found same in
          rw same (moves (clock 0) to options (rw eq open_still) (rw eq fine) refl)
      | inr other ↦ rw other (stays refl)
    ],
  )),
)

pub move-eq :
    (clock : Clock) (id : String) (to : JournalState) (options : Options) (s : Db)
    (row : JournalRow)
    → row_by_id id s ≡ some row
    → move clock id to options s
      ≡ (ok (some (to_entry (move_row (clock 0) to options row))), moved clock id to options s)
move-eq clock id to options s row found =
    let name = find-key key id s.promotion_journal row found in
    rw (find-update key (with_id id) (move_row (clock 0) to options) (λ x. refl), found)
      (ground (arith, eq_iff row.id id))

set_found-cases :
    (P : Db → Type 0) (clock : Clock) (id : String) (to : JournalState) (options : Options) (s : Db)
    (row : JournalRow)
    → P s
    → (is_terminal row.state ≡ false
        → allowed row.state to ≡ true
        → P (move clock id to options s).1)
    → P (set_found clock id to options row s).1
set_found-cases P clock id to options s row unchanged written =
    elim (Bool-cases (
      state_eq row.state to
      && (not (operation_given options.operation) && not (claim_given options.claim_id)))) [
        | inl again ↦ rw again unchanged
        | inr other ↦
            rw other (elim (Bool-cases (is_terminal row.state || not (allowed row.state to))) [
              | inl shut ↦ rw shut unchanged
              | inr free ↦ rw free (written (ground arith) (ground arith))
            ])
      ]

set_state-cases :
    (P : Db → Type 0) (clock : Clock) (id : String) (to : JournalState) (options : Options) (s : Db)
    → P s
    → ((row : JournalRow)
        → row_by_id id s ≡ some row
        → is_terminal row.state ≡ false
        → allowed row.state to ≡ true
        → P (moved clock id to options s))
    → P (set_state clock id to options s).1
unfolding set_state
set_state-cases P clock id to options s unchanged written = elim (Option-cases (row_by_id id s)) [
  | inl missing ↦ rw (missing, set_state) unchanged
  | inr (row, found) ↦
      rw (found, set_state)
        (set_found-cases P clock id to options s row unchanged (λ open_still fine.
          rw (move-eq clock id to options s row found) (written row found open_still fine)))
]

-- What a call does to the journal: ids and candidates stay unique, and every row is still there and
-- is the same or has made one allowed move out of a state that is not terminal.
pub step-Extends : (c : Call) (s : Db) → Extends s (step c s)
unfolding step
step-Extends (proposes clock id input) s =
    record_proposal-cases (Extends s) clock id input s (Extends-refl s)
      (insert_row-Extends (new_row id (clock 0) input) s)
step-Extends (sets clock id to options) s =
    set_state-cases (Extends s) clock id to options s (Extends-refl s)
      (moved-Extends clock id to options s)

-- What a move keeps, a run keeps.
pub run-invariant :
    (P : JournalRow → Type 0)
    → ((r r' : JournalRow) → Move r r' → P r → P r')
    → (cs : List Call) (s : Db) (id : String) (r : JournalRow) → row_by_id id s ≡ some r
    → P r
    → (r' : JournalRow) × (row_by_id id (run cs s) ≡ some r') × P r'
unfolding run
run-invariant P keeps [] s id r e h = (r, e, h)
run-invariant P keeps (c ∷ cs) s id r e h =
    let (r', e', m) = (step-Extends c s).2 id r e in
    run-invariant P keeps cs (step c s) id r' e' (keeps r r' m h)

-- Ids and candidates are unique after any sequence of calls.
pub run-Unique :
    (cs : List Call) (s : Db)
    → UniqueKeys key s.promotion_journal
    → UniqueKeys candidate s.promotion_journal
    → UniqueKeys key (run cs s).promotion_journal
      × UniqueKeys candidate (run cs s).promotion_journal
unfolding run
run-Unique [] s u v = (u, v)
run-Unique (c ∷ cs) s u v =
    let (keep_ids, keep_candidates, _) = step-Extends c s in
    run-Unique cs (step c s) (keep_ids u) (keep_candidates v)

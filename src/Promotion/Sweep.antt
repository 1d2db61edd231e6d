-- ===== src/Promotion/Sweep.antt =====
-- `sweep`, `onModuleInit` and `listByStates` of core/src/memory/promotion.service.ts.
use icos_v.Base.{ℕ, suc, String, Option, none, some, List, [], ◌∷◌, length}
use icos_v.Base.Exec.{Clock, after}
use icos_v.Base.Program.{pure, gets, attempt, ◌>>=◌, ◌>>◌}
use icos_v.Base.Rows.{take}
use icos_v.Approvals.{ApprovalStatus, ApprovalRequest, get_approval}
use icos_v.Journal.{
  JournalState, proposed, promoting, PromotionJournalEntry, set_state, list_by_state,
}
use icos_v.Promotion.{Setting, Method, on_journal, on_approvals}
use icos_v.Promotion.Methods.{
  Fresh, EntryOutcome, was_new, was_reinforced, was_contradicted, was_denied, was_failed,
  was_skipped, with_detail, truthy,
}
use icos_v.Promotion.Execute.{execute_entry}

pub record SweepSummary : Type 0 where
  pub new : ℕ
  pub reinforced : ℕ
  pub contradicted : ℕ
  pub denied : ℕ
  pub failed : ℕ
  pub skipped : ℕ

abbrev pub empty_sweep : SweepSummary
empty_sweep = record {
  new = 0;
  reinforced = 0;
  contradicted = 0;
  denied = 0;
  failed = 0;
  skipped = 0;
}

-- `summary[outcome] += 1`
abbrev pub count : EntryOutcome → SweepSummary → SweepSummary
count was_new t = record t { new = suc t.new }
count was_reinforced t = record t { reinforced = suc t.reinforced }
count was_contradicted t = record t { contradicted = suc t.contradicted }
count was_denied t = record t { denied = suc t.denied }
count was_failed t = record t { failed = suc t.failed }
count was_skipped t = record t { skipped = suc t.skipped }

-- The readings and UUIDs of the n-th execution of a sweep.
pub record Draws : Type 0 where
  pub clock : ℕ → Clock
  pub fresh : ℕ → Fresh

module _ (setting : Setting) (draws : Draws) where
  -- An execution that throws counts as failed.
  abbrev pub swept_outcome : ℕ → PromotionJournalEntry → Method EntryOutcome
  swept_outcome n row =
      attempt
        (do done ← execute_entry setting (draws.clock n) (draws.fresh n) row.id; pure done.outcome)
        (λ e. pure was_failed)

  unfoldable pub sweep_rows : ℕ → List PromotionJournalEntry → SweepSummary → Method SweepSummary
  sweep_rows n [] summary = pure summary
  sweep_rows n (row ∷ rows) summary = do
    outcome ← swept_outcome n row
    sweep_rows (suc n) rows (count outcome summary)

  unfoldable pub sweep : Method SweepSummary
  unfolding sweep_rows
  sweep = do
    rows ← gets (λ w. list_by_state (proposed ∷ promoting ∷ []) w.journal)
    sweep_rows 0 rows empty_sweep

unfoldable pub requeue : Clock → List PromotionJournalEntry → Method (Unit {0})
requeue clock [] = pure tt
requeue clock (row ∷ rows) = do
  on_journal (set_state clock row.id proposed (with_detail "recovery replay after restart"))
  requeue (after 1 clock) rows

unfoldable pub on_module_init : Clock → Method (Unit {0})
unfolding requeue
on_module_init clock = do
  stranded ← gets (λ w. list_by_state (promoting ∷ []) w.journal)
  requeue clock stranded

-- `approval ? approval.status : 'missing'`
pub data ShownStatus : Type 0 where
  shown : ApprovalStatus → ShownStatus
  missing : ShownStatus

pub record ShownEntry : Type 0 where
  pub entry : PromotionJournalEntry
  pub approval_status : Option ShownStatus

abbrev shown_status : Option ApprovalRequest → ShownStatus
shown_status none = missing
shown_status (some approval) = shown approval.status

abbrev status_of : Clock → Option String → Method (Option ShownStatus)
status_of clock none = pure none
status_of clock (some id) = do
  approval ← on_approvals (get_approval clock id)
  pure (some (shown_status approval))

unfoldable pub with_statuses : Clock → List PromotionJournalEntry → Method (List ShownEntry)
with_statuses clock [] = pure []
with_statuses clock (row ∷ rows) = do
  status ← status_of clock (truthy row.approval_id)
  rest ← with_statuses (after 2 clock) rows
  pure (record { entry = row; approval_status = status } ∷ rest)

-- The entries within the limit, and how many there are without it.
unfoldable pub list_by_states : Clock → List JournalState → ℕ → Method (List ShownEntry × ℕ)
unfolding with_statuses
list_by_states clock states limit = do
  rows ← gets (λ w. list_by_state states w.journal)
  all ← with_statuses clock rows
  pure (take limit all, length all)

-- `promotions` of the answer for what is not terminal.
unfoldable pub list_pending : Clock → Method (List ShownEntry)
unfolding list_by_states
list_pending clock = do answer ← list_by_states clock (proposed ∷ promoting ∷ []) 200; pure answer.0

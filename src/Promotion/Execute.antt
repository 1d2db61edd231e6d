-- ===== src/Promotion/Execute.antt =====
-- `executeEntry`, `sweep` and `onModuleInit` of core/src/memory/promotion.service.ts.
use Prim.Native.String as Text
use icos_v.Base.{String, Option, none, some, if◌then◌else◌}
use icos_v.Base.Exec.{Clock, after}
use icos_v.Base.Program.{pure, gets, attempt, ◌>>=◌, ◌>>◌}
use icos_v.Approvals.{ApprovalStatus, pending, approved, ApprovalRequest, get_approval}
use icos_v.Journal.{
  PromotionOperation, new_claim, reinforce, contradict, JournalState, promoting, committed, denied,
  failed, PromotionJournalEntry, Options, is_terminal, set_state, get_entry,
}
use icos_v.Journal
use icos_v.Claims
use icos_v.Claims.{
  candidate, active, contradicted, retired, ClaimStatus, ClaimOrigin, of_user, of_agent, SourceRole,
  user, assistant, unknown, MemoryCandidate, ClaimEvidence, Claim, status_eq, category_from_kind,
  append_evidence, set_status, create_claim,
}
use icos_v.Claims.Candidates.{get_candidate}
use icos_v.Promotion.{
  Setting, PromotionError, claim_vanished, unknown_origin, of_claims, of_journal, Method,
  on_journal, on_approvals, index_claim,
}
use icos_v.Promotion.Methods.{
  Fresh, Applied, was_denied, was_failed, was_skipped, Execution, truthy, approval_text, no_options,
  outcome_of, mark_as, emit_committed, is_unknown,
}
use icos_v.Promotion.Apply.{apply}

module _ (setting : Setting) where
  -- `err.message`; a row that was just written does not vanish.
  unfoldable pub message : PromotionError → String
  message claim_vanished = "claim_vanished"
  message unknown_origin = "unknown_origin"
  message (of_claims (Claims.identity_exists id)) =
      Text.◌++◌ "Claim identity already exists ("
        (Text.◌++◌ id "); append evidence instead of creating a duplicate")
  message (of_claims (Claims.vanished id)) =
      Text.◌++◌ "Claim " (Text.◌++◌ id " vanished during update")
  message (of_journal (Journal.vanished id)) = Text.◌++◌ "Journal entry " (Text.◌++◌ id " vanished")
  message _ = setting.sqlite_message

  abbrev pub index_new : Applied → Method (Unit {0})
  index_new applied = elim applied.operation [
    | reinforce ↦ pure tt
    | new_claim ↦ index_claim applied.claim.id
    | contradict ↦ index_claim applied.claim.id
  ]

  abbrev pub commit : Clock → Fresh → MemoryCandidate → PromotionJournalEntry → Method Execution
  commit clock fresh c row = do
    applied ← apply setting clock fresh c row
    entry ← on_journal (
        set_state (after 4 clock) row.id committed (record {
          operation = some applied.operation;
          claim_id = some applied.claim.id;
          detail = truthy applied.note;
        }))
    index_new applied
    emit_committed entry applied.claim.id
    pure (record { entry = entry; outcome = outcome_of applied.operation })

  abbrev pub promote_claimed :
      Clock
      → Fresh
      → MemoryCandidate
      → PromotionJournalEntry
      → Option PromotionJournalEntry
      → Method Execution
  promote_claimed clock fresh c row none = pure (record { entry = some row; outcome = was_skipped })
  promote_claimed clock fresh c row (some _) =
      attempt (commit clock fresh c row)
        (λ e. mark_as (after 5 clock) row failed was_failed (Text.◌++◌ "error:" (message e)))

  abbrev pub promote : Clock → Fresh → MemoryCandidate → PromotionJournalEntry → Method Execution
  promote clock fresh c row = do
    claimed ← on_journal (set_state clock row.id promoting no_options)
    promote_claimed (after 1 clock) fresh c row claimed

  abbrev pub execute_origin :
      Clock → Fresh → PromotionJournalEntry → MemoryCandidate → Method Execution
  execute_origin clock fresh row c =
      if is_unknown c.source_role
      then mark_as clock row failed was_failed "unknown_origin"
      else promote clock fresh c row

  abbrev pub follow_status :
      Clock → Fresh → PromotionJournalEntry → MemoryCandidate → ApprovalStatus → Method Execution
  follow_status clock fresh row c pending =
      pure (record { entry = some row; outcome = was_skipped })
  follow_status clock fresh row c approved = execute_origin clock fresh row c
  follow_status clock fresh row c status =
      mark_as clock row denied was_denied (approval_text status)

  abbrev pub follow_approval :
      Clock
      → Fresh
      → PromotionJournalEntry
      → MemoryCandidate
      → Option ApprovalRequest
      → Method Execution
  follow_approval clock fresh row c none = mark_as clock row failed was_failed "missing_approval"
  follow_approval clock fresh row c (some approval) =
      follow_status clock fresh row c approval.status

  abbrev pub execute_gated :
      Clock → Fresh → PromotionJournalEntry → MemoryCandidate → Option String → Method Execution
  execute_gated clock fresh row c none = execute_origin clock fresh row c
  execute_gated clock fresh row c (some id) = do
    approval ← on_approvals (get_approval clock id)
    follow_approval (after 2 clock) fresh row c approval

  abbrev pub execute_candidate :
      Clock → Fresh → PromotionJournalEntry → Option MemoryCandidate → Method Execution
  execute_candidate clock fresh row none = mark_as clock row failed was_failed "missing_candidate"
  execute_candidate clock fresh row (some c) =
      execute_gated clock fresh row c (truthy row.approval_id)

  abbrev pub execute_row : Clock → Fresh → Option PromotionJournalEntry → Method Execution
  execute_row clock fresh none = pure (record { entry = none; outcome = was_skipped })
  execute_row clock fresh (some row) =
      if is_terminal row.state
      then pure (record { entry = some row; outcome = was_skipped })
      else (do
        c ← gets (λ w. get_candidate row.candidate_id w.claims)
        execute_candidate clock fresh row c)

  unfoldable pub execute_entry : Clock → Fresh → String → Method Execution
  execute_entry clock fresh id = do
    row ← gets (λ w. get_entry id w.journal)
    execute_row clock fresh row

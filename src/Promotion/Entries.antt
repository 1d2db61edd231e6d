-- ===== src/Promotion/Entries.antt =====
-- What an execution, a sweep and a proposal keep of a world, from what `apply` keeps.
use icos_v.Base.{ℕ, suc, String, Option, none, some, List, [], ◌∷◌}
use icos_v.Base.Exec.{Clock, after}
use icos_v.Base.Program.{
  pure, ◌>>=◌, Keeps, Keeps-pure, Keeps-gets, Keeps-if, Keeps-bind, Keeps-attempt,
}
use icos_v.Approvals
use icos_v.Approvals.{
  pending, approved, rejected, expired, cancelled, ApprovalStatus, ApprovalRequest,
}
use icos_v.Approvals.Service as ApprovalService
use icos_v.Journal.{denied, failed, JournalState, PromotionJournalEntry}
use icos_v.Claims.{MemoryCandidate}
use icos_v.Promotion.{Setting, World, on_service, on_approvals}
use icos_v.Promotion.Methods.{Fresh, Execution, EntryOutcome, mark, truthy}
use icos_v.Promotion.Apply.{apply}
use icos_v.Promotion.Execute.{
  commit, promote_claimed, execute_origin, follow_status, follow_approval, execute_gated,
  execute_candidate, execute_row, execute_entry,
}
use icos_v.Promotion.Sweep.{Draws, SweepSummary, count, empty_sweep, sweep_rows, sweep}
use icos_v.Promotion.Propose.{ProposalFresh, propose_unless, propose_one, propose_candidates}
use icos_v.Promotion.Frames.{Neutral, index_new-Keeps, mark-Keeps, emit_committed-Keeps}

module _ {P : World → Type 0} (n : Neutral P) where
  -- An execution, from what `apply` and the approvals keep.
  module _ (setting : Setting)
      (applies : (clock : Clock) (fresh : Fresh) (c : MemoryCandidate) (row : PromotionJournalEntry)
        → Keeps P (apply setting clock fresh c row)) where
    commit-Keeps :
        (clock : Clock) (fresh : Fresh) (c : MemoryCandidate) (row : PromotionJournalEntry)
        → Keeps P (commit setting clock fresh c row)
    commit-Keeps clock fresh c row = Keeps-bind _ _ (applies clock fresh c row) (λ applied.
        Keeps-bind _ _ (n.journal _) (λ entry.
          Keeps-bind _ _ (index_new-Keeps n.aside setting applied)
            (λ _. Keeps-bind _ _ (emit_committed-Keeps n.aside entry _) (λ _. Keeps-pure _))))

    pub mark_as-Keeps :
        (clock : Clock) (row : PromotionJournalEntry) (state : JournalState) (o : EntryOutcome)
        (detail : String)
        → Keeps P (
            mark clock row state detail >>= λ entry.
            pure {A = Execution} (record { entry = entry; outcome = o }))
    mark_as-Keeps clock row state o detail =
        Keeps-bind _ _ (mark-Keeps n clock row state detail) (λ entry. Keeps-pure _)

    promote_claimed-Keeps :
        (clock : Clock) (fresh : Fresh) (c : MemoryCandidate) (row : PromotionJournalEntry)
        (claimed : Option PromotionJournalEntry)
        → Keeps P (promote_claimed setting clock fresh c row claimed)
    promote_claimed-Keeps clock fresh c row none = Keeps-pure _
    promote_claimed-Keeps clock fresh c row (some _) =
        Keeps-attempt _ _ (commit-Keeps clock fresh c row) (λ e. mark_as-Keeps _ row failed _ _)

    pub execute_origin-Keeps :
        (clock : Clock) (fresh : Fresh) (row : PromotionJournalEntry) (c : MemoryCandidate)
        → Keeps P (execute_origin setting clock fresh row c)
    execute_origin-Keeps clock fresh row c = Keeps-if _ _ _ (mark_as-Keeps clock row failed _ _) (
        Keeps-bind _ _ (n.journal _)
          (λ claimed. promote_claimed-Keeps (after 1 clock) fresh c row claimed))

    follow_status-Keeps :
        (clock : Clock) (fresh : Fresh) (row : PromotionJournalEntry) (c : MemoryCandidate)
        (status : ApprovalStatus)
        → Keeps P (follow_status setting clock fresh row c status)
    follow_status-Keeps clock fresh row c pending = Keeps-pure _
    follow_status-Keeps clock fresh row c approved = execute_origin-Keeps clock fresh row c
    follow_status-Keeps clock fresh row c rejected = mark_as-Keeps clock row denied _ _
    follow_status-Keeps clock fresh row c expired = mark_as-Keeps clock row denied _ _
    follow_status-Keeps clock fresh row c cancelled = mark_as-Keeps clock row denied _ _

    follow_approval-Keeps :
        (clock : Clock) (fresh : Fresh) (row : PromotionJournalEntry) (c : MemoryCandidate)
        (approval : Option ApprovalRequest)
        → Keeps P (follow_approval setting clock fresh row c approval)
    follow_approval-Keeps clock fresh row c none = mark_as-Keeps clock row failed _ _
    follow_approval-Keeps clock fresh row c (some approval) =
        follow_status-Keeps clock fresh row c approval.status

    module _ (asks : (m : Approvals.Repo (Option ApprovalRequest)) → Keeps P (on_approvals m)) where
      execute_gated-Keeps :
          (clock : Clock) (fresh : Fresh) (row : PromotionJournalEntry) (c : MemoryCandidate)
          (approval : Option String)
          → Keeps P (execute_gated setting clock fresh row c approval)
      execute_gated-Keeps clock fresh row c none = execute_origin-Keeps clock fresh row c
      execute_gated-Keeps clock fresh row c (some id) =
          Keeps-bind _ _ (asks _)
            (λ approval. follow_approval-Keeps (after 2 clock) fresh row c approval)

      execute_candidate-Keeps :
          (clock : Clock) (fresh : Fresh) (row : PromotionJournalEntry) (c : Option MemoryCandidate)
          → Keeps P (execute_candidate setting clock fresh row c)
      execute_candidate-Keeps clock fresh row none = mark_as-Keeps clock row failed _ _
      execute_candidate-Keeps clock fresh row (some c) =
          execute_gated-Keeps clock fresh row c (truthy row.approval_id)

      execute_row-Keeps :
          (clock : Clock) (fresh : Fresh) (row : Option PromotionJournalEntry)
          → Keeps P (execute_row setting clock fresh row)
      execute_row-Keeps clock fresh none = Keeps-pure _
      execute_row-Keeps clock fresh (some row) =
          Keeps-if _ _ _ (Keeps-pure _)
            (Keeps-bind _ _ (Keeps-gets _) (λ c. execute_candidate-Keeps clock fresh row c))

      pub execute_entry-Keeps :
          (clock : Clock) (fresh : Fresh) (id : String)
          → Keeps P (execute_entry setting clock fresh id)
      unfolding execute_entry
      execute_entry-Keeps clock fresh id =
          Keeps-bind _ _ (Keeps-gets _) (λ row. execute_row-Keeps clock fresh row)

      sweep_rows-Keeps :
          (draws : Draws) (k : ℕ) (rows : List PromotionJournalEntry) (t : SweepSummary)
          → Keeps P (sweep_rows setting draws k rows t)
      unfolding sweep_rows
      sweep_rows-Keeps draws k [] t = Keeps-pure t
      sweep_rows-Keeps draws k (row ∷ rows) t =
          Keeps-bind _ _
            (Keeps-attempt _ _
              (Keeps-bind _ _ (execute_entry-Keeps _ _ row.id) (λ done. Keeps-pure _))
              (λ e. Keeps-pure _))
            (λ outcome. sweep_rows-Keeps draws (suc k) rows (count outcome t))

      pub sweep-Keeps : (draws : Draws) → Keeps P (sweep setting draws)
      unfolding sweep
      sweep-Keeps draws =
          Keeps-bind _ _ (Keeps-gets _) (λ rows. sweep_rows-Keeps draws 0 rows empty_sweep)

      module _
          (serves : (m : ApprovalService.Method ApprovalRequest) → Keeps P (on_service m)) where
        propose_unless-Keeps :
            (clock : Clock) (fresh : ProposalFresh) (c : MemoryCandidate)
            (existing : Option PromotionJournalEntry)
            → Keeps P (propose_unless setting clock fresh c existing)
        propose_unless-Keeps clock fresh c (some existing) = Keeps-pure _
        propose_unless-Keeps clock fresh c none = Keeps-bind _ _ (Keeps-gets _) (λ intent.
            Keeps-if _ _ _
              (Keeps-bind _ _ (n.journal _) (λ entry.
                Keeps-bind _ _ (execute_entry-Keeps _ _ entry.id)
                  (λ _. Keeps-bind _ _ (Keeps-gets _) (λ stored. Keeps-pure _))))
              (Keeps-bind _ _ (serves _) (λ approval.
                Keeps-bind _ _ (n.journal _)
                  (λ entry. Keeps-bind _ _ (n.aside.publishes _) (λ _. Keeps-pure entry)))))

        pub propose_candidates-Keeps :
            (clocks : ℕ → Clock) (fresh : ℕ → ProposalFresh) (k : ℕ) (cs : List MemoryCandidate)
            → Keeps P (propose_candidates setting clocks fresh k cs)
        unfolding propose_candidates propose_one
        propose_candidates-Keeps clocks fresh k [] = Keeps-pure _
        propose_candidates-Keeps clocks fresh k (c ∷ cs) =
            Keeps-bind _ _
              (Keeps-attempt _ _
                (Keeps-bind _ _
                  (Keeps-bind _ _ (Keeps-gets _)
                    (λ existing. propose_unless-Keeps (clocks k) (fresh k) c existing))
                  (λ e. Keeps-pure _))
                (λ e. Keeps-pure _))
              (λ entry.
                Keeps-bind _ _ (propose_candidates-Keeps clocks fresh (suc k) cs)
                  (λ rest. Keeps-pure _))

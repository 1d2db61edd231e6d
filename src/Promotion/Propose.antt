-- ===== src/Promotion/Propose.antt =====
-- `proposeCandidates` of core/src/memory/promotion.service.ts.
use icos_v.Base.{
  ℕ, suc, String, Bool, true, false, not, ◌&&◌, ◌||◌, Option, none, some, List, [], ◌∷◌,
  if◌then◌else◌,
}
use icos_v.Base.Exec.{Clock, after}
use icos_v.Base.Program.{pure, gets, attempt, ◌>>=◌, ◌>>◌}
use icos_v.Approvals.Service as ApprovalService
use icos_v.Journal.{
  PromotionOperation, new_claim, PromotionJournalEntry, record_proposal, get_entry,
  get_by_candidate, coalesce,
}
use icos_v.Claims.{
  MemoryCandidateKind, a_fact, a_preference, person, a_relationship, project, work, skill, hobby,
  interest, goal, decision, event, observation, MemoryCandidate,
}
use icos_v.Promotion.{
  Setting, promotion_proposed, Method, on_journal, on_service, publish, derive_intent,
}
use icos_v.Promotion.Texts.{describe}
use icos_v.Promotion.Methods.{Fresh, is_unknown}
use icos_v.Promotion.Execute.{execute_entry}
use Prim.Native.String as Text
use icos_v.Promotion.Texts.{operation_text}

abbrev is_new : PromotionOperation → Bool
is_new new_claim = true
is_new _ = false

abbrev kind_eq : MemoryCandidateKind → MemoryCandidateKind → Bool
kind_eq a_fact a_fact = true
kind_eq a_preference a_preference = true
kind_eq person person = true
kind_eq a_relationship a_relationship = true
kind_eq project project = true
kind_eq work work = true
kind_eq skill skill = true
kind_eq hobby hobby = true
kind_eq interest interest = true
kind_eq goal goal = true
kind_eq decision decision = true
kind_eq event event = true
kind_eq observation observation = true
kind_eq _ _ = false

abbrev kinds_include : List MemoryCandidateKind → MemoryCandidateKind → Bool
kinds_include [] k = false
kinds_include (x ∷ xs) k = kind_eq x k || kinds_include xs k

-- What a proposal draws: the UUIDs of the approval and the entry, and those of an execution.
pub record ProposalFresh : Type 0 where
  pub approval : String
  pub entry : String
  pub execution : Fresh

abbrev intent_detail : PromotionOperation → String
intent_detail new_claim = ""
intent_detail intent = Text.◌++◌ "intent:" (operation_text intent)

module _ (setting : Setting) where
  unfoldable pub auto_eligible : MemoryCandidate → PromotionOperation → Bool
  auto_eligible c intent =
      setting.auto
      && is_new intent
      && not (is_unknown c.source_role)
      && kinds_include setting.auto_kinds c.kind

  abbrev pub propose_automatic :
      Clock → ProposalFresh → MemoryCandidate → PromotionOperation → Method PromotionJournalEntry
  propose_automatic clock fresh c intent = do
    entry ← on_journal (
        record_proposal clock fresh.entry (record {
          candidate_id = c.id;
          operation = intent;
          approval_id = none;
          detail = some "automatic (config-admitted)";
        }))
    execute_entry setting (after 1 clock) fresh.execution entry.id
    stored ← gets (λ w. get_entry entry.id w.journal)
    pure (coalesce stored entry)

  abbrev pub propose_for_review :
      Clock → ProposalFresh → MemoryCandidate → PromotionOperation → Method PromotionJournalEntry
  propose_for_review clock fresh c intent = do
    approval ← on_service (
        ApprovalService.create clock fresh.approval c.session_id "memory.promote"
          (some (describe setting.number_text c intent)) none)
    entry ← on_journal (
        record_proposal (after 4 clock) fresh.entry (record {
          candidate_id = c.id;
          operation = intent;
          approval_id = some approval.id;
          detail = some (intent_detail intent);
        }))
    publish (promotion_proposed entry.id entry.candidate_id)
    pure entry

  abbrev pub propose_fresh :
      Clock → ProposalFresh → MemoryCandidate → PromotionOperation → Method PromotionJournalEntry
  propose_fresh clock fresh c intent =
      if auto_eligible c intent
      then propose_automatic clock fresh c intent
      else propose_for_review clock fresh c intent

  abbrev pub propose_unless :
      Clock
      → ProposalFresh
      → MemoryCandidate
      → Option PromotionJournalEntry
      → Method PromotionJournalEntry
  propose_unless clock fresh c (some existing) = pure existing
  propose_unless clock fresh c none = do
    intent ← gets (λ w. derive_intent setting c w.claims)
    propose_fresh clock fresh c intent

  unfoldable pub propose_one :
      Clock → ProposalFresh → MemoryCandidate → Method PromotionJournalEntry
  propose_one clock fresh c = do
    existing ← gets (λ w. get_by_candidate c.id w.journal)
    propose_unless clock fresh c existing

  -- A proposal that throws is left out of the answer.
  unfoldable pub propose_candidates :
      (ℕ → Clock)
      → (ℕ → ProposalFresh)
      → ℕ
      → List MemoryCandidate
      → Method (List PromotionJournalEntry)
  propose_candidates clocks fresh n [] = pure []
  propose_candidates clocks fresh n (c ∷ cs) = do
    entry ← attempt (do e ← propose_one (clocks n) (fresh n) c; pure (some e)) (λ e. pure none)
    rest ← propose_candidates clocks fresh (suc n) cs
    pure (elim entry [ none ↦ rest | some e ↦ e ∷ rest ])

-- ===== src/Promotion/Apply.antt =====
-- `apply` and `createActive` of core/src/memory/promotion.service.ts: a candidate becomes a claim.
use Prim.Native.String as Text
use icos_v.Base.{ℕ, String, Option, none, some, if◌then◌else◌}
use icos_v.Base.Exec.{Clock, after}
use icos_v.Base.Program.{pure, throw, gets, or_throw, ◌>>=◌, ◌>>◌}
use icos_v.Journal.{
  PromotionOperation, new_claim, reinforce, contradict, JournalState, promoting, committed, denied,
  failed, PromotionJournalEntry, Options, is_terminal, set_state, get_entry,
}
use icos_v.Journal
use icos_v.Claims.{
  candidate, active, contradicted, retired, ClaimStatus, MemoryCandidate, Claim, status_eq,
  category_from_kind, append_evidence, set_status, create_claim,
}
use icos_v.Promotion.{
  Setting, claim_vanished, unknown_origin, Method, on_claims, exact, contradicted_by,
}
use icos_v.Promotion.Texts.{extract_entities}
use icos_v.Promotion.Parking.{maybe_park_question}
use icos_v.Promotion.Methods.{
  Fresh, Applied, bumped, rederived, truthy, promotion_text, origin_of, evidence_of, is_unknown,
}

module _ (setting : Setting) where
  unfoldable pub create_active :
      Clock → Fresh → MemoryCandidate → (promotion : String) → Method Claim
  create_active clock fresh c promotion = do
    created ← on_claims (
        create_claim setting.lower fresh.claim (clock 0) (record {
          subject = c.subject;
          predicate = c.predicate;
          object = c.object;
          category = category_from_kind c.kind;
          status = candidate;
          extractor_confidence = c.confidence;
          confidence = c.confidence;
          first_asserted_at = c.id;
          last_surfaced_at = c.id;
          origin = origin_of c.source_role;
          negated = c.negated;
          evidence = evidence_of c;
          entities = extract_entities c;
          promotion = promotion;
        }))
    moved ← on_claims (set_status (clock 1) created.id active)
    pure (Journal.coalesce moved created)

  abbrev pub activate : ℕ → Claim → Method (Unit {0})
  activate now updated =
      if status_eq updated.status candidate
      then (on_claims (set_status now updated.id active) >> pure tt)
      else pure tt

  abbrev pub reinforce_claim :
      Clock → MemoryCandidate → PromotionJournalEntry → Claim → Method Applied
  reinforce_claim clock c row found = do
    answer ←
        on_claims (append_evidence (clock 0) found.id (evidence_of c) (bumped found.confidence))
    updated ← or_throw answer claim_vanished
    activate (clock 1) updated
    pure (record {
      operation = reinforce;
      claim = updated;
      note = rederived row.operation reinforce;
    })

  -- A claim that was never active is retired, not contradicted.
  abbrev pub settled_status : ClaimStatus → ClaimStatus
  settled_status candidate = retired
  settled_status _ = contradicted

  abbrev pub contradict_claim :
      Clock → Fresh → MemoryCandidate → (promotion : String) → Claim → Method Applied
  contradict_claim clock fresh c promotion rival = do
    answer ← on_claims (set_status (clock 0) rival.id (settled_status rival.status))
    settled ← or_throw answer claim_vanished
    created ← create_active (after 1 clock) fresh c promotion
    maybe_park_question setting (clock 3) fresh.question settled created
    pure (record {
      operation = contradict;
      claim = created;
      note = some (Text.◌++◌ "contradicts:" rival.id);
    })

  abbrev pub adopt_claim :
      Clock
      → Fresh
      → MemoryCandidate
      → (promotion : String) → PromotionJournalEntry
      → Method Applied
  adopt_claim clock fresh c promotion row = do
    created ← create_active clock fresh c promotion
    pure (record {
      operation = new_claim;
      claim = created;
      note = rederived row.operation new_claim;
    })

  abbrev pub apply_new :
      Clock → Fresh → MemoryCandidate → PromotionJournalEntry → Option Claim → Method Applied
  apply_new clock fresh c row none =
      adopt_claim clock fresh c (promotion_text (truthy row.approval_id)) row
  apply_new clock fresh c row (some rival) =
      contradict_claim clock fresh c (promotion_text (truthy row.approval_id)) rival

  abbrev pub apply_known :
      Clock → Fresh → MemoryCandidate → PromotionJournalEntry → Option Claim → Method Applied
  apply_known clock fresh c row (some found) = reinforce_claim clock c row found
  apply_known clock fresh c row none = do
    rival ← gets (λ w. contradicted_by setting c w.claims)
    apply_new clock fresh c row rival

  unfoldable pub apply : Clock → Fresh → MemoryCandidate → PromotionJournalEntry → Method Applied
  apply clock fresh c row =
      if is_unknown c.source_role
      then throw unknown_origin
      else (do found ← gets (λ w. exact setting c w.claims); apply_known clock fresh c row found)

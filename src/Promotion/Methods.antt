-- ===== src/Promotion/Methods.antt =====
-- The methods of core/src/memory/promotion.service.ts that execute an entry of the journal.
use Prim.Native.String as Text
use icos_v.Base.{
  ℕ, ◌+◌, String, Bool, true, false, Option, none, some, List, [], ◌∷◌, str_eq, if◌then◌else◌, leb,
}
use icos_v.Base.Exec.{Clock}
use icos_v.Base.Program.{pure, ◌>>=◌, ◌>>◌}
use icos_v.Approvals.{ApprovalStatus, pending, approved, rejected, expired, cancelled}
use icos_v.Journal.{
  PromotionOperation, new_claim, reinforce, contradict, JournalState, denied, PromotionJournalEntry,
  Options, set_state,
}
use icos_v.Claims.{
  active, ClaimOrigin, of_user, of_agent, SourceRole, user, unknown, MemoryCandidate, ClaimEvidence,
  Claim,
}
use icos_v.Promotion.{
  promotion_denied, promotion_failed, promotion_committed, claim_updated, Method, on_journal,
  publish,
}
use icos_v.Promotion.Texts.{operation_text}

-- The UUIDs of one execution.
pub record Fresh : Type 0 where
  pub claim : String
  pub question : String

pub data EntryOutcome : Type 0 where
  was_new was_reinforced was_contradicted was_denied was_failed was_skipped : EntryOutcome

pub record Execution : Type 0 where
  pub entry : Option PromotionJournalEntry
  pub outcome : EntryOutcome

pub record Applied : Type 0 where
  pub operation : PromotionOperation
  pub claim : Claim
  pub note : Option String

abbrev pub reinforce_step : ℕ
reinforce_step = 50000

abbrev pub confidence_cap : ℕ
confidence_cap = 990000

abbrev min : ℕ → ℕ → ℕ
min a b = if leb a b then a else b

abbrev pub bumped : ℕ → ℕ
bumped confidence = min confidence_cap (confidence + reinforce_step)

-- `rederived:…`, unless the intent was the operation
abbrev pub rederived : (from to : PromotionOperation) → Option String
rederived new_claim new_claim = none
rederived reinforce reinforce = none
rederived contradict contradict = none
rederived from to =
    some (
      Text.◌++◌ "rederived:" (Text.◌++◌ (operation_text from) (Text.◌++◌ "->" (operation_text to))))

-- An id that is not the empty text.
abbrev pub truthy : Option String → Option String
truthy none = none
truthy (some id) = if str_eq id "" then none else some id

abbrev pub promotion_text : Option String → String
promotion_text none = "auto"
promotion_text (some id) = Text.◌++◌ "approved:" id

abbrev pub origin_of : SourceRole → ClaimOrigin
origin_of user = of_user
origin_of _ = of_agent

abbrev pub evidence_of : MemoryCandidate → List ClaimEvidence
evidence_of c = record { candidate_id = c.id; role = c.source_role } ∷ []

abbrev pub approval_text : ApprovalStatus → String
approval_text pending = "approval:pending"
approval_text approved = "approval:approved"
approval_text rejected = "approval:rejected"
approval_text expired = "approval:expired"
approval_text cancelled = "approval:cancelled"

abbrev pub with_detail : String → Options
with_detail detail = record { operation = none; claim_id = none; detail = some detail }

abbrev pub no_options : Options
no_options = record { operation = none; claim_id = none; detail = none }

abbrev pub outcome_of : PromotionOperation → EntryOutcome
outcome_of new_claim = was_new
outcome_of reinforce = was_reinforced
outcome_of contradict = was_contradicted

abbrev pub is_unknown : SourceRole → Bool
is_unknown unknown = true
is_unknown _ = false

-- The notice of a terminal state.
abbrev terminal_notice : JournalState → PromotionJournalEntry → Method (Unit {0})
terminal_notice denied entry = publish (promotion_denied entry.id entry.detail)
terminal_notice _ entry = publish (promotion_failed entry.id entry.detail)

abbrev pub announce : JournalState → Option PromotionJournalEntry → Method (Unit {0})
announce state none = pure tt
announce state (some entry) = terminal_notice state entry

unfoldable pub mark :
    Clock → PromotionJournalEntry → JournalState → String → Method (Option PromotionJournalEntry)
mark clock row state detail = do
  updated ← on_journal (set_state clock row.id state (with_detail detail))
  announce state updated
  pure updated

abbrev pub mark_as :
    Clock → PromotionJournalEntry → JournalState → EntryOutcome → String → Method Execution
mark_as clock row state outcome detail = do
  entry ← mark clock row state detail
  pure (record { entry = entry; outcome = outcome })

unfoldable pub emit_committed : Option PromotionJournalEntry → String → Method (Unit {0})
emit_committed none claim_id = pure tt
emit_committed (some entry) claim_id = do
  publish (promotion_committed entry.id claim_id)
  publish (claim_updated claim_id active)

-- ===== src/Promotion.antt =====
-- core/src/memory/promotion.service.ts: the service that turns saved candidates into claims, over the
-- claims, the journal, the approvals and the parked questions. This file has what it works on and what
-- it reads off the claims; the methods are in the children. Each method runs to its end before the
-- next. The index and the realtime channel are lists of what they were handed.
pub mod Texts
pub mod Parking
pub mod Methods
pub mod Apply
pub mod Execute
pub mod Sweep
pub mod Propose
pub mod Live
pub mod Rivals
pub mod Calls
pub mod Coherence
pub mod Steps
pub mod Authority
pub mod Progress
pub mod Settling
pub mod Totals
pub mod Runs
mod Tests
pub mod Frames
pub mod Entries
use icos_v.Base.{
  ℕ, String, Bool, true, false, not, ◌&&◌, ◌||◌, Option, none, some, List, [], ◌∷◌, ◌++◌, map,
  str_eq, if◌then◌else◌,
}
use icos_v.Base.Exec.{Exec, Result, ok, err}
use icos_v.Base.Program.{pure, gets, modify, ◌>>=◌, ◌>>◌}
use icos_v.Base.Table.{select}
use icos_v.Base.Rows.{find_where}
use icos_v.Approvals
use icos_v.Approvals.Service as ApprovalService
use icos_v.Journal
use icos_v.Journal.{PromotionOperation, new_claim, reinforce, contradict, JournalState}
use icos_v.Claims
use icos_v.Claims.{
  candidate, active, ClaimStatus, MemoryCandidateKind, MemoryCandidate, Claim, negated_eq,
  find_by_triple, find_by_subject_predicate,
}
use icos_v.Claims.Identity.{Triple, normalize_triple_field}
use icos_v.Prospective

-- The configuration, and the platform's `toLowerCase`, `toFixed(2)` and the text of a number.
pub record Setting : Type 0 where
  pub auto : Bool
  pub auto_kinds : List MemoryCandidateKind
  pub confidence_threshold : ℕ
  pub lower : String → String
  pub to_fixed : ℕ → String
  pub number_text : ℕ → String
  pub sqlite_message : String

pub data Notice : Type 0 where
  promotion_proposed : (journal_id candidate_id : String) → Notice
  promotion_denied promotion_failed : (journal_id detail : String) → Notice
  promotion_committed : (journal_id claim_id : String) → Notice
  claim_updated : (claim_id : String) → ClaimStatus → Notice
  prospective_updated prospective_created : (prospective_id : String) → Notice

pub record World : Type 0 where
  pub claims : Claims.Db
  pub journal : Journal.Db
  pub approvals : ApprovalService.Server
  pub questions : Prospective.Db
  pub indexed : List String
  pub published : List Notice

pub data PromotionError : Type 0 where
  claim_vanished unknown_origin : PromotionError
  of_claims : Claims.Error → PromotionError
  of_journal : Journal.Error → PromotionError
  of_service : ApprovalService.HttpError → PromotionError
  of_approvals : Approvals.Error → PromotionError
  of_questions : Prospective.Error → PromotionError

abbrev pub Method : Type 0 → Type 0
Method A = Exec PromotionError World A

-- The answer of a component, with its part of the world put back.
abbrev pub from_part :
    {A E S : Type 0}
    → (E → PromotionError)
    → (S → World)
    → Result E A × S
    → Result PromotionError A × World
from_part wrap put (ok a, s) = (ok a, put s)
from_part wrap put (err e, s) = (err (wrap e), put s)

unfoldable pub on_claims : {A : Type 0} → Claims.Repo A → Method A
on_claims m w = from_part of_claims (λ s. record w { claims = s }) (m w.claims)

unfoldable pub on_journal : {A : Type 0} → Journal.Repo A → Method A
on_journal m w = from_part of_journal (λ s. record w { journal = s }) (m w.journal)

unfoldable pub on_questions : {A : Type 0} → Prospective.Repo A → Method A
on_questions m w = from_part of_questions (λ s. record w { questions = s }) (m w.questions)

unfoldable pub on_service : {A : Type 0} → ApprovalService.Method A → Method A
on_service m w = from_part of_service (λ s. record w { approvals = s }) (m w.approvals)

-- The approval repository itself, which publishes nothing.
unfoldable pub on_approvals : {A : Type 0} → Approvals.Repo A → Method A
on_approvals m w =
    from_part of_approvals (λ s. record w { approvals = record w.approvals { db = s } })
      (m w.approvals.db)

unfoldable pub publish : Notice → Method (Unit {0})
unfolding modify
publish notice = modify (λ w. record w { published = w.published ++ notice ∷ [] })

unfoldable pub index_claim : String → Method (Unit {0})
unfolding modify
index_claim id = modify (λ w. record w { indexed = w.indexed ++ id ∷ [] })

abbrev pub triple_of : MemoryCandidate → Triple
triple_of c = record { subject = c.subject; predicate = c.predicate; object = c.object }

abbrev pub is_live : ClaimStatus → Bool
is_live candidate = true
is_live active = true
is_live _ = false

abbrev pub is_active : ClaimStatus → Bool
is_active active = true
is_active _ = false

abbrev pub or_else : Option Claim → Option Claim → Option Claim
or_else none o = o
or_else (some c) o = some c

abbrev pub head : List Claim → Option Claim
head [] = none
head (c ∷ cs) = some c

module _ (setting : Setting) where
  abbrev pub exact : MemoryCandidate → Claims.Db → Option Claim
  exact c s = find_by_triple setting.lower (triple_of c) c.negated s

  abbrev pub contestable : MemoryCandidate → Claims.Db → List Claim
  contestable c s =
      select (λ (x : Claim). is_live x.status)
        (find_by_subject_predicate setting.lower c.subject c.predicate s)

  abbrev pub is_negation : MemoryCandidate → Claim → Bool
  is_negation c x =
      is_live x.status
      && str_eq (normalize_triple_field setting.lower x.object)
          (normalize_triple_field setting.lower c.object)
      && not (negated_eq x.negated c.negated)

  abbrev pub negated_rival : MemoryCandidate → Claims.Db → Option Claim
  negated_rival c s =
      let matches =
        select (is_negation c) (find_by_subject_predicate setting.lower c.subject c.predicate s) in
      or_else (find_where (λ (x : Claim). is_active x.status) matches) (head matches)

  -- `(await this.negatedRival(candidate)) ?? conflicts[0]`
  unfoldable pub contradicted_by : MemoryCandidate → Claims.Db → Option Claim
  contradicted_by c s = or_else (negated_rival c s) (head (contestable c s))

  abbrev intent_of : Option Claim → Option Claim → List Claim → PromotionOperation
  intent_of (some c) rival conflicts = reinforce
  intent_of none (some c) conflicts = contradict
  intent_of none none (c ∷ cs) = contradict
  intent_of none none [] = new_claim

  unfoldable pub derive_intent : MemoryCandidate → Claims.Db → PromotionOperation
  derive_intent c s = intent_of (exact c s) (negated_rival c s) (contestable c s)

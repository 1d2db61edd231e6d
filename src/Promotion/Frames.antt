-- ===== src/Promotion/Frames.antt =====
-- What the methods of the promotion keep of a world, from what their calls keep.
use icos_v.Base.{ℕ, String, Option, none, some, List}
use icos_v.Base.Exec.{Clock, Result, ok, err}
use icos_v.Base.Program.{modify, Keeps, Keeps-pure, Keeps-gets, Keeps-if, Keeps-bind, Keeps-attempt}
use icos_v.Approvals
use icos_v.Approvals.{
  pending, approved, rejected, expired, cancelled, ApprovalStatus, ApprovalRequest,
}
use icos_v.Approvals.Service as ApprovalService
use icos_v.Journal
use icos_v.Journal.{
  PromotionOperation, new_claim, reinforce, contradict, denied, failed, JournalState,
  PromotionJournalEntry,
}
use icos_v.Claims
use icos_v.Claims.{MemoryCandidate, Claim, status_eq}
use icos_v.Prospective
use icos_v.Prospective.{ProspectiveItem, ProspectiveOption, ProspectiveTrigger}
use icos_v.Promotion.{
  Setting, Notice, World, PromotionError, of_claims, of_journal, of_questions, of_approvals,
  of_service, from_part, on_claims, on_journal, on_questions, on_approvals, on_service, publish,
  index_claim,
}
use icos_v.Base.Program.{pure}
use icos_v.Promotion.Execute.{index_new}
use icos_v.Promotion.{Method}
use icos_v.Promotion.Methods.{Applied, mark, announce, emit_committed}
use icos_v.Promotion.Parking.{announce_merged, store_question, maybe_park_question}

-- Kept by every call of the parked questions, of the index and of the realtime channel.
pub record Aside (P : World → Type 0) : Type 1 where
  pub questions : {A : Type 0} (m : Prospective.Repo A) → Keeps P (on_questions m)
  pub publishes : (notice : Notice) → Keeps P (publish notice)
  pub indexes : (id : String) → Keeps P (index_claim id)

-- Kept by every call that is not one of the claims or of the approvals.
pub record Neutral (P : World → Type 0) : Type 1 where
  pub aside : Aside P
  pub journal : {A : Type 0} (m : Journal.Repo A) → Keeps P (on_journal m)

from_part-keeps :
    {A E S : Type 0} (P : World → Type 0) (wrap : E → PromotionError) (put : S → World)
    (r : Result E A × S)
    → P (put r.1)
    → P (from_part wrap put r).1
from_part-keeps P wrap put (ok a, s) h = h
from_part-keeps P wrap put (err e, s) h = h

-- A predicate of the claims, the approvals and the journal alone.
pub Aside-of :
    (Q : Claims.Db → ApprovalService.Server → Journal.Db → Type 0)
    → Aside (λ w. Q w.claims w.approvals w.journal)
unfolding on_questions publish index_claim modify
Aside-of Q = record {
  questions = λ m. record {
    at = λ w h.
        from_part-keeps (λ w. Q w.claims w.approvals w.journal) of_questions
          (λ s. record w { questions = s }) (m w.questions) h;
  };
  publishes = λ notice. record { at = λ w h. h };
  indexes = λ id. record { at = λ w h. h };
}

-- A predicate of the claims and the approvals alone.
pub Neutral-of :
    (Q : Claims.Db → ApprovalService.Server → Type 0) → Neutral (λ w. Q w.claims w.approvals)
unfolding on_journal
Neutral-of Q = record {
  aside = Aside-of (λ s server _. Q s server);
  journal = λ m. record {
    at = λ w h.
        from_part-keeps (λ w. Q w.claims w.approvals) of_journal (λ s. record w { journal = s })
          (m w.journal) h;
  };
}

pub on_claims-Keeps :
    {A : Type 0} (P : World → Type 0) (m : Claims.Repo A)
    → ((w : World) → P w → P (record w { claims = (m w.claims).1 }))
    → Keeps P (on_claims m)
unfolding on_claims
on_claims-Keeps P m h = record {
  at = λ w p. from_part-keeps P of_claims (λ s. record w { claims = s }) (m w.claims) (h w p);
}

pub on_approvals-Keeps :
    {A : Type 0} (Q : Claims.Db → Type 0) (m : Approvals.Repo A)
    → Keeps (λ w. Q w.claims) (on_approvals m)
unfolding on_approvals
on_approvals-Keeps Q m = record {
  at = λ w p.
      from_part-keeps (λ w. Q w.claims) of_approvals
        (λ s. record w { approvals = record w.approvals { db = s } }) (m w.approvals.db) p;
}

pub on_service-Keeps :
    {A : Type 0} (Q : Claims.Db → Type 0) (m : ApprovalService.Method A)
    → Keeps (λ w. Q w.claims) (on_service m)
unfolding on_service
on_service-Keeps Q m = record {
  at = λ w p.
      from_part-keeps (λ w. Q w.claims) of_service (λ s. record w { approvals = s }) (m w.approvals)
        p;
}

module _ {P : World → Type 0} (n : Aside P) where
  pub announce-Keeps :
      (state : JournalState) (entry : Option PromotionJournalEntry) → Keeps P (announce state entry)
  announce-Keeps state none = Keeps-pure tt
  announce-Keeps denied (some entry) = n.publishes _
  announce-Keeps state (some entry) = n.publishes _

  pub emit_committed-Keeps :
      (entry : Option PromotionJournalEntry) (id : String) → Keeps P (emit_committed entry id)
  unfolding emit_committed
  emit_committed-Keeps none id = Keeps-pure tt
  emit_committed-Keeps (some entry) id = Keeps-bind _ _ (n.publishes _) (λ _. n.publishes _)

  announce_merged-Keeps :
      (setting : Setting) (item : Option ProspectiveItem) → Keeps P (announce_merged setting item)
  announce_merged-Keeps setting none = Keeps-pure tt
  announce_merged-Keeps setting (some item) = n.publishes _

  store_question-Keeps :
      (setting : Setting) (now : ℕ) (id : String) (loser : Claim) (fresh : List ProspectiveOption)
      (prior : ℕ) (trigger : ProspectiveTrigger) (item : Option ProspectiveItem)
      → Keeps P (store_question setting now id loser fresh prior trigger item)
  store_question-Keeps setting now id loser fresh prior trigger none =
      Keeps-bind _ _ (n.questions _) (λ _. n.publishes _)
  store_question-Keeps setting now id loser fresh prior trigger (some item) =
      Keeps-bind _ _ (n.questions _) (λ merged. announce_merged-Keeps setting merged)

  pub maybe_park_question-Keeps :
      (setting : Setting) (now : ℕ) (id : String) (loser winner : Claim)
      → Keeps P (maybe_park_question setting now id loser winner)
  unfolding maybe_park_question
  maybe_park_question-Keeps setting now id loser winner =
      Keeps-attempt _ _
        (Keeps-bind _ _ (Keeps-gets _) (λ rivals. Keeps-if _ _ _ (Keeps-pure tt) (
          Keeps-bind _ _ (Keeps-gets _)
            (λ item. store_question-Keeps setting now id loser _ _ _ item))))
        (λ e. Keeps-pure tt)

  pub index_new-Keeps :
      (setting : Setting) (applied : Applied) → Keeps P (index_new setting applied)
  index_new-Keeps setting applied = go applied.operation
    where
      go :
          (o : PromotionOperation)
          → Keeps P (elim o as (λ _. Method (Unit {0})) [
            | reinforce ↦ pure tt
            | new_claim ↦ index_claim applied.claim.id
            | contradict ↦ index_claim applied.claim.id
          ])
      go reinforce = Keeps-pure tt
      go new_claim = n.indexes _
      go contradict = n.indexes _

module _ {P : World → Type 0} (n : Neutral P) where
  pub mark-Keeps :
      (clock : Clock) (row : PromotionJournalEntry) (state : JournalState) (detail : String)
      → Keeps P (mark clock row state detail)
  unfolding mark
  mark-Keeps clock row state detail =
      Keeps-bind _ _ (n.journal _)
        (λ updated. Keeps-bind _ _ (announce-Keeps n.aside state updated) (λ _. Keeps-pure updated))

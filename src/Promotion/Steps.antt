-- ===== src/Promotion/Steps.antt =====
-- What `apply` of core/src/memory/promotion.service.ts keeps, from what a call of the claims keeps.
use icos_v.Base.{ℕ, String, Option, none, some}
use icos_v.Base.Exec.{Clock, after}
use icos_v.Base.Program.{
  Keeps, Keeps-pure, Keeps-throw, Keeps-gets, Keeps-or_throw, Keeps-if, Keeps-bind,
}
use icos_v.Journal.{PromotionJournalEntry}
use icos_v.Claims
use icos_v.Claims.{MemoryCandidate, Claim}
use icos_v.Promotion.{Setting, World, on_claims}
use icos_v.Promotion.Methods.{Fresh}
use icos_v.Promotion.Apply.{create_active, activate, apply_new, apply_known, apply}
use icos_v.Promotion.Frames.{Aside, maybe_park_question-Keeps}

module _ {P : World → Type 0} (n : Aside P) (setting : Setting)
    (calls : (A : Type 0) (m : Claims.Repo A) → Keeps P (on_claims m)) where
  create_active-Keeps :
      (clock : Clock) (fresh : Fresh) (c : MemoryCandidate) (promotion : String)
      → Keeps P (create_active setting clock fresh c promotion)
  unfolding create_active
  create_active-Keeps clock fresh c promotion =
      Keeps-bind _ _ (calls _ _) (λ created. Keeps-bind _ _ (calls _ _) (λ moved. Keeps-pure _))

  activate-Keeps : (now : ℕ) (c : Claim) → Keeps P (activate setting now c)
  activate-Keeps now c =
      Keeps-if _ _ _ (Keeps-bind _ _ (calls _ _) (λ _. Keeps-pure tt)) (Keeps-pure tt)

  apply_new-Keeps :
      (clock : Clock) (fresh : Fresh) (c : MemoryCandidate) (row : PromotionJournalEntry)
      (rival : Option Claim)
      → Keeps P (apply_new setting clock fresh c row rival)
  apply_new-Keeps clock fresh c row none =
      Keeps-bind _ _ (create_active-Keeps clock fresh c _) (λ created. Keeps-pure _)
  apply_new-Keeps clock fresh c row (some rival) = Keeps-bind _ _ (calls _ _) (λ answer.
      Keeps-bind _ _ (Keeps-or_throw answer _) (λ settled.
        Keeps-bind _ _ (create_active-Keeps (after 1 clock) fresh c _) (λ created.
          Keeps-bind _ _ (maybe_park_question-Keeps n setting _ _ settled created)
            (λ _. Keeps-pure _))))

  apply_known-Keeps :
      (clock : Clock) (fresh : Fresh) (c : MemoryCandidate) (row : PromotionJournalEntry)
      (found : Option Claim)
      → Keeps P (apply_known setting clock fresh c row found)
  apply_known-Keeps clock fresh c row (some found) = Keeps-bind _ _ (calls _ _) (λ answer.
      Keeps-bind _ _ (Keeps-or_throw answer _)
        (λ updated. Keeps-bind _ _ (activate-Keeps _ updated) (λ _. Keeps-pure _)))
  apply_known-Keeps clock fresh c row none =
      Keeps-bind _ _ (Keeps-gets _) (λ rival. apply_new-Keeps clock fresh c row rival)

  pub apply-Keeps :
      (clock : Clock) (fresh : Fresh) (c : MemoryCandidate) (row : PromotionJournalEntry)
      → Keeps P (apply setting clock fresh c row)
  unfolding apply
  apply-Keeps clock fresh c row =
      Keeps-if _ _ _ (Keeps-throw _)
        (Keeps-bind _ _ (Keeps-gets _) (λ found. apply_known-Keeps clock fresh c row found))

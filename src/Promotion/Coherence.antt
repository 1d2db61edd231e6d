-- ===== src/Promotion/Coherence.antt =====
-- The claims that core/src/memory/promotion.service.ts leaves live.
use icos_v.Base.{
  ℕ, String, true, false, Option, none, some, ◌≡◌, refl, sym, ap, ◌∙◌, inl, inr, arith, Bool-cases,
}
use icos_v.Base.Exec.{Clock, after}
use icos_v.Base.Program.{
  gets, Leads, Keeps, Keeps-pure, Keeps-throw, Keeps-gets, Keeps-or_throw, Keeps-if,
  Leads-bind_value, Leads-bind, Leads-from, Keeps-bind,
}
use mathlib.Core.Bool.{false≢true}
use icos_v.Base.Table.{changes}
use icos_v.Journal.{PromotionJournalEntry}
use icos_v.Claims.{candidate, ClaimStatus, MemoryCandidate, Claim, status_eq, allowed, set_status}
use icos_v.Claims.Identity.{normalize_triple_field}
use icos_v.Promotion.{Setting, World, on_claims, contradicted_by, is_live}
use icos_v.Promotion.Methods.{Fresh}
use icos_v.Promotion.Apply.{
  create_active, activate, reinforce_claim, contradict_claim, apply_new, apply_known, apply,
  settled_status,
}
use icos_v.Promotion.Live.{
  is_live_about, IsCoherent, set_status-none, set_status-IsCoherent, IsStored,
  create_claim-IsCoherent,
}
use icos_v.Promotion.Rivals.{IsRival, contradicted_by-IsRival, contradicted_by-none}
use icos_v.Promotion.Frames.{Aside-of, maybe_park_question-Keeps}
use icos_v.Promotion.Calls.{
  Coherent, on_claims-Ends, on_claims-Leads, IsLive, set_active-Coherent, live_of, AnswerStored,
  append_evidence-Ends, or_throw-Ends,
}

module _ (setting : Setting) where
  -- No claim is live on the candidate's subject and predicate.
  abbrev IsFree : MemoryCandidate → World → Type 0
  IsFree c w =
      Coherent w
      × (changes
            (is_live_about (normalize_triple_field setting.lower c.subject)
              (normalize_triple_field setting.lower c.predicate))
            w.claims.claims
          ≡ 0)

  create_active-Coherent :
      (clock : Clock) (fresh : Fresh) (c : MemoryCandidate) (promotion : String)
      → Leads (IsFree c) (create_active setting clock fresh c promotion) Coherent
  unfolding create_active
  create_active-Coherent clock fresh c promotion =
      Leads-bind_value (IsFree c)
        (λ (created : Claim) w.
          Coherent w × IsStored created w.claims × (created.status ≡ candidate))
        Coherent _ _
        (λ w (h, free).
          on_claims-Ends
            (λ created s. IsCoherent s × IsStored created s × (created.status ≡ candidate))
            IsCoherent _ w
            (create_claim-IsCoherent setting.lower fresh.claim (clock 0) _ w.claims free h))
        (λ created.
          Leads-bind _ Coherent Coherent _ _
            (Leads-from _ (IsLive created) Coherent _
              (λ w (h, stored, fresh). (h, stored, rw fresh refl))
              (set_active-Coherent (clock 1) created))
            (λ w h. h) (λ moved. Keeps-pure _))

  activate-Coherent :
      (now : ℕ) (updated : Claim)
      → Leads (λ w. Coherent w × IsStored updated w.claims) (activate setting now updated) Coherent
  activate-Coherent now updated = elim (Bool-cases (status_eq updated.status candidate)) [
    | inl waiting ↦ rw waiting (
        Leads-bind _ Coherent Coherent _ _
          (Leads-from _ (IsLive updated) Coherent _
            (λ w (h, stored). (h, stored, live_of updated.status waiting))
            (set_active-Coherent now updated))
          (λ w h. h) (λ _. Keeps-pure tt))
    | inr settled ↦
        rw settled (Leads-from _ Coherent Coherent _ (λ w (h, stored). h) (Keeps-pure tt))
  ]

  settled_status-fits :
      (status : ClaimStatus)
      → is_live status ≡ true
      → (status_eq status (settled_status setting status) ≡ false)
        × (allowed status (settled_status setting status) ≡ true)
        × (is_live (settled_status setting status) ≡ false)
  settled_status-fits status live = ground arith

  settle-IsFree :
      (now : ℕ) (c : MemoryCandidate) (rival : Claim)
      → Leads
          (λ w.
            Coherent w
            × IsRival
                (normalize_triple_field setting.lower c.subject)
                (normalize_triple_field setting.lower c.predicate)
                w.claims
                rival)
          (on_claims (set_status now rival.id (settled_status setting rival.status)))
          (IsFree c)
  settle-IsFree now c rival =
      on_claims-Leads _
        (λ s.
          IsCoherent s
          × (changes
                (is_live_about (normalize_triple_field setting.lower c.subject)
                  (normalize_triple_field setting.lower c.predicate))
                s.claims
              ≡ 0))
        _
        (λ w (h, (row, found, same, live)).
          let (other, fine, gone) = settled_status-fits row.claim.status (ground arith) in
          let status = ap (λ (x : Claim). x.status) same in
          (
            set_status-IsCoherent now rival.id (settled_status setting rival.status) w.claims
                (λ r there lives. absurd (false≢true (sym (rw status at gone) ∙ lives))) h,
            set_status-none now rival.id (settled_status setting rival.status) w.claims row _ _
                found live (rw (← status) other) (rw (← status) fine) (rw (← status) gone) h,
          ))

  reinforce_claim-Coherent :
      (clock : Clock) (c : MemoryCandidate) (row : PromotionJournalEntry) (found : Claim)
      → Keeps Coherent (reinforce_claim setting clock c row found)
  reinforce_claim-Coherent clock c row found =
      Leads-bind_value Coherent (λ answer w. Coherent w × AnswerStored answer w.claims) Coherent _ _
        (λ w h.
          on_claims-Ends (λ answer s. IsCoherent s × AnswerStored answer s) IsCoherent _ w
            (append_evidence-Ends (clock 0) found.id _ _ w.claims h))
        (λ answer.
          Leads-bind_value _ (λ (updated : Claim) w. Coherent w × IsStored updated w.claims)
            Coherent _ _ (or_throw-Ends answer)
            (λ updated.
              Leads-bind _ Coherent Coherent _ _ (activate-Coherent (clock 1) updated) (λ w h. h)
                (λ _. Keeps-pure _)))

  contradict_claim-Coherent :
      (clock : Clock) (fresh : Fresh) (c : MemoryCandidate) (promotion : String) (rival : Claim)
      → Leads
          (λ w.
            Coherent w
            × IsRival
                (normalize_triple_field setting.lower c.subject)
                (normalize_triple_field setting.lower c.predicate)
                w.claims
                rival)
          (contradict_claim setting clock fresh c promotion rival)
          Coherent
  contradict_claim-Coherent clock fresh c promotion rival =
      Leads-bind _ (IsFree c) Coherent _ _ (settle-IsFree (clock 0) c rival) (λ w (h, _). h)
        (λ answer.
          Leads-bind _ (IsFree c) Coherent _ _ (Keeps-or_throw answer _) (λ w (h, _). h)
            (λ settled.
              Leads-bind _ Coherent Coherent _ _
                (create_active-Coherent (after 1 clock) fresh c promotion) (λ w h. h)
                (λ created.
                  Keeps-bind _ _
                    (maybe_park_question-Keeps (Aside-of (λ s _ _. IsCoherent s)) setting _ _
                      settled created)
                    (λ _. Keeps-pure _))))

  apply_new-Coherent :
      (clock : Clock) (fresh : Fresh) (c : MemoryCandidate) (row : PromotionJournalEntry)
      (rival : Option Claim)
      → Leads
          (λ w. Coherent w × (contradicted_by setting c w.claims ≡ rival))
          (apply_new setting clock fresh c row rival)
          Coherent
  apply_new-Coherent clock fresh c row none =
      Leads-bind _ Coherent Coherent _ _
        (Leads-from _ (IsFree c) Coherent _
          (λ w (h, none_found). (h, contradicted_by-none setting c w.claims h.0 none_found))
          (create_active-Coherent clock fresh c _))
        (λ w h. h) (λ created. Keeps-pure _)
  apply_new-Coherent clock fresh c row (some rival) =
      Leads-from _ _ Coherent _
        (λ w (h, found). (h, contradicted_by-IsRival setting c w.claims h.0 rival found))
        (contradict_claim-Coherent clock fresh c _ rival)

  apply_known-Coherent :
      (clock : Clock) (fresh : Fresh) (c : MemoryCandidate) (row : PromotionJournalEntry)
      (found : Option Claim)
      → Keeps Coherent (apply_known setting clock fresh c row found)
  unfolding gets
  apply_known-Coherent clock fresh c row (some found) = reinforce_claim-Coherent clock c row found
  apply_known-Coherent clock fresh c row none =
      Leads-bind_value Coherent
        (λ rival w. Coherent w × (contradicted_by setting c w.claims ≡ rival)) Coherent _ _
        (λ w h. (h, refl)) (λ rival. apply_new-Coherent clock fresh c row rival)

  pub apply-Coherent :
      (clock : Clock) (fresh : Fresh) (c : MemoryCandidate) (row : PromotionJournalEntry)
      → Keeps Coherent (apply setting clock fresh c row)
  unfolding apply
  apply-Coherent clock fresh c row =
      Keeps-if _ _ _ (Keeps-throw _)
        (Keeps-bind _ _ (Keeps-gets _) (λ found. apply_known-Coherent clock fresh c row found))

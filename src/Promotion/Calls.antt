-- ===== src/Promotion/Calls.antt =====
-- The calls that core/src/memory/promotion.service.ts makes of the claims, and what they keep live.
use icos_v.Base.{
  ℕ, String, true, Option, none, some, List, ◌≡◌, refl, sym, ap, subst, ◌∙◌, inl, inr, arith,
  Option-cases,
}
use icos_v.Base.Exec.{Result, ok, err}
use icos_v.Base.Program.{pure, throw, or_throw, Leads, Ends}
use mathlib.Core.Option.{some_inj}
use icos_v.Claims.Outcomes.{append_evidence-missing, append_evidence-eq}
use icos_v.Claims.Growth.{find-rewrite_claim}
use icos_v.Base.Table.{find-key}
use icos_v.Claims
use icos_v.Claims.{
  candidate, active, contradicted, retired, ClaimStatus, MemoryCandidate, ClaimEvidence, Claim,
  ClaimRow, Db, reinforced, rewrite_claim, key, row_by_id, status_eq, allowed, write,
  append_evidence, set_status, create_claim,
}
use icos_v.Promotion.{World, claim_vanished, of_claims, from_part, on_claims, is_live}
use icos_v.Promotion.Live.{IsCoherent, set_status-IsCoherent, append_evidence-IsCoherent, IsStored}

abbrev pub Coherent : World → Type 0
Coherent w = IsCoherent w.claims

-- A call of the claims, with its answer.
pub on_claims-Ends :
    {A : Type 0} (R : A → Db → Type 0) (Q : Db → Type 0) (m : Claims.Repo A) (w : World)
    → Ends R Q (m w.claims)
    → Ends (λ a v. R a v.claims) (λ v. Q v.claims) (on_claims m w)
unfolding on_claims
on_claims-Ends {A} R Q m w h = go (m w.claims) h
  where
    go :
        (r : Result Claims.Error A × Db)
        → Ends R Q r
        → Ends
            (λ a v. R a v.claims)
            (λ v. Q v.claims)
            (from_part of_claims (λ s. record w { claims = s }) r)
    go (ok a, s) q = q
    go (err e, s) q = q

-- The state after a call of the claims.
pub on_claims-Leads :
    {A : Type 0} (P : World → Type 0) (Q : Db → Type 0) (m : Claims.Repo A)
    → ((w : World) → P w → Q (m w.claims).1)
    → Leads P (on_claims m) (λ w. Q w.claims)
unfolding on_claims
on_claims-Leads {A} P Q m h = record { at = λ w p. go w (m w.claims) (h w p) }
  where
    go :
        (w : World) (r : Result Claims.Error A × Db)
        → Q r.1
        → Q (from_part of_claims (λ s. record w { claims = s }) r).1.claims
    go w (ok a, s) q = q
    go w (err e, s) q = q

-- A stored claim that is live stays the only one when it is set active.
abbrev pub IsLive : Claim → World → Type 0
IsLive c w = Coherent w × IsStored c w.claims × (is_live c.status ≡ true)

live_row :
    (c : Claim) (s : Db) (row : ClaimRow)
    → IsStored c s
    → is_live c.status ≡ true
    → row_by_id c.id s ≡ some row
    → is_live row.claim.status ≡ true
live_row c s row (r, found, same) live there =
    subst (λ (x : Claim). is_live x.status ≡ true)
      (sym same ∙ ap (λ (x : ClaimRow). x.claim) (some_inj.0 (sym found ∙ there))) live

pub set_active-Coherent :
    (now : ℕ) (c : Claim) → Leads (IsLive c) (on_claims (set_status now c.id active)) Coherent
set_active-Coherent now c = on_claims-Leads (IsLive c) IsCoherent _ (λ w (h, stored, live).
    set_status-IsCoherent now c.id active w.claims
      (λ row there _. live_row c w.claims row stored live there) h)

pub live_of : (status : ClaimStatus) → status_eq status candidate ≡ true → is_live status ≡ true
live_of status h = ground arith

abbrev pub AnswerStored : Option Claim → Db → Type 0
AnswerStored none s = Unit
AnswerStored (some c) s = IsStored c s

pub append_evidence-Ends :
    (now : ℕ) (id : String) (evidence : List ClaimEvidence) (confidence : ℕ) (s : Db)
    → IsCoherent s
    → Ends
        (λ answer s'. IsCoherent s' × AnswerStored answer s')
        IsCoherent
        (append_evidence now id evidence confidence s)
append_evidence-Ends now id evidence confidence s h = elim (Option-cases (row_by_id id s)) [
  | inl missing ↦ rw (append_evidence-missing now id evidence confidence s missing) (h, tt)
  | inr (row, found) ↦
      let kept = append_evidence-IsCoherent now id evidence confidence s h in
      let eq = append_evidence-eq now id evidence confidence s row found in
      let name = find-key key id s.claims row found in
      let stored : IsStored (reinforced now evidence confidence row.claim)
          (rewrite_claim id (reinforced now evidence confidence) s) =
        (
          write (reinforced now evidence confidence) row,
          ap (λ i. row_by_id i (rewrite_claim id (reinforced now evidence confidence) s)) name
              ∙ find-rewrite_claim id (reinforced now evidence confidence) s row (λ r. refl) found,
          refl,
        ) in
      rw eq (rw eq at kept, stored)
]

pub or_throw-Ends :
    (answer : Option Claim) (w : World)
    → Coherent w × AnswerStored answer w.claims
    → Ends
        (λ updated v. Coherent v × IsStored updated v.claims)
        Coherent
        (or_throw answer claim_vanished w)
unfolding pure throw
or_throw-Ends none w (h, _) = h
or_throw-Ends (some updated) w h = h

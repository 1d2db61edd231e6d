-- ===== src/Execution/Once/Asks.antt =====
-- The invariant of the count across the calls of the approvals and the request that must be there
-- (core/src/tools/tool-execution.service.ts).
use icos_v.Base.{String, [], ◌∷◌, ◌++◌, inl, inr, arith}
use icos_v.Base.Exec.{Result, ok, err}
use icos_v.Base.Program.{Keeps, Keeps-or_throw, Keeps-bind, Keeps-gets, gets, or_throw}
use icos_v.Ledger.{find_request}
use icos_v.Approvals.Service as ApprovalService
use icos_v.Execution.{asked_model, World, no_request, on_approvals, seen_by_approvals, required}
use icos_v.Execution.{from_approvals}
use icos_v.Execution.Counts.{executions-append, IsOnce}

pub asked :
    (id : String) (w : World)
    → IsOnce w
    → IsOnce (record w { effects = w.effects ++ asked_model id ∷ [] })
asked id w (unique, once) = (
  unique,
  λ other.
      let grown = executions-append other w.effects (asked_model id ∷ []) in
      elim (once other) [
        | inl never ↦ inl (omega (arith, grown, never))
        | inr (one, spent) ↦ inr (omega (arith, grown, one), spent)
      ],
)

pub Keeps-approvals : {A : Type 0} (m : ApprovalService.Method A) → Keeps IsOnce (on_approvals m)
unfolding on_approvals
Keeps-approvals {A} m = record { at = λ w h. go w h (m (seen_by_approvals w)) }
  where
    go :
        (w : World)
        → IsOnce w
        → (r : Result ApprovalService.HttpError A × ApprovalService.Server)
        → IsOnce (from_approvals w r).1
    go w h (ok a, s) = h
    go w h (err e, s) = h

pub Keeps-required : {P : World → Type 0} (id : String) → Keeps P (required id)
unfolding required
Keeps-required {P} id = record {
  at = λ w h.
      (Keeps-bind {P = P} (gets (λ v. find_request id v.ledger)) (λ o. or_throw o no_request)
          (Keeps-gets (λ v. find_request id v.ledger)) (λ o. Keeps-or_throw o no_request)).at
        w h;
}

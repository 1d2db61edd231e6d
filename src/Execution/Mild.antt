-- ===== src/Execution/Mild.antt =====
-- The parts of `resume` of core/src/tools/tool-execution.service.ts that execute nothing, and its execution
-- of a request of its own.
use icos_v.Base.{ℕ, suc, String, Option, none, some, refl}
use icos_v.Base.Program.{Keeps, Keeps-bind, Keeps-pure, Keeps-throw, Keeps-or_throw, Keeps-if}
use icos_v.Ledger
use icos_v.Ledger.{ValidatedToolRequest}
use icos_v.Ledger.Finishes.{Mirror, mirror_outcome, finish_final, FinalAnswer}
use icos_v.Ledger.Claims.{claim_final}
use icos_v.Ledger.Runs.{
  step, of_approved_tool, of_rename, claims_execution, finishes_tool, finishes_rename,
  mirrors_approval, claims_answer, finishes_answer,
}
use icos_v.Execution.{Measures, tool_called, asked_model, World, Method, on_ledger}
use icos_v.Execution.Methods.{Context, call_tool, if_claimed, respond, maybe_final, finally}
use icos_v.Execution.Methods.Resume.{mirror_closed, resume_approved}
use icos_v.Execution.Once.Asks.{Keeps-required}
use icos_v.Execution.Course.{Mild}

module _ (measures : Measures) (ctx : Context) {own : String → Type 0} {P : World → Type 0}
    (mild : Mild measures.size ctx.waits own P) where
  finish_final-Keeps :
      (id token : String) (o : FinalAnswer)
      → Keeps P (on_ledger (finish_final measures.size id token o))
  unfolding step
  finish_final-Keeps id token o = mild.called (finishes_answer id token o) _ tt (λ s. refl)

  claim_final-Keeps : (id token : String) → Keeps P (on_ledger (claim_final measures.size id token))
  unfolding step
  claim_final-Keeps id token = mild.called (claims_answer id token) _ tt (λ s. refl)

  mirror_outcome-Keeps :
      (id : String) (to : Mirror) → Keeps P (on_ledger (mirror_outcome measures.size id to))
  unfolding step
  mirror_outcome-Keeps id to = mild.called (mirrors_approval id to) _ tt (λ s. refl)

  if_claimed-Keeps :
      (token : Option String) (k : String → Method (Unit {0}))
      → ((t : String) → Keeps P (k t))
      → Keeps P (if_claimed measures token k)
  if_claimed-Keeps none k h = Keeps-pure tt
  if_claimed-Keeps (some t) k h = h t

  respond-Keeps : (n : ℕ) (row : Ledger.Row) → Keeps P (respond measures ctx n row)
  respond-Keeps n row =
      Keeps-if _ _ _
        (Keeps-bind _ _ (mild.sent (asked_model row.request_id) tt)
          (λ _. Keeps-bind _ _ (mild.waited n) (λ _. Keeps-pure _)))
        (Keeps-throw _)

  maybe_final-Keeps : (n : ℕ) (id : String) → Keeps P (maybe_final measures ctx n id)
  unfolding maybe_final
  maybe_final-Keeps n id = Keeps-bind _ _ (Keeps-required id) (λ row.
      Keeps-bind _ _
        (Keeps-if _ _ _
          (Keeps-bind _ _ (claim_final-Keeps id _) (λ token. if_claimed-Keeps token _ (λ t.
            Keeps-bind _ _ (Keeps-required id) (λ durable.
              Keeps-bind _ _ (respond-Keeps n durable)
                (λ o. Keeps-bind _ _ (mild.waited (suc n)) (λ _. finish_final-Keeps id t o))))))
          (Keeps-pure tt))
        (λ _. Keeps-required id))

  pub finally-Keeps : (n : ℕ) (id : String) → Keeps P (finally measures ctx n id)
  finally-Keeps n id = Keeps-if _ _ _ (Keeps-required id) (maybe_final-Keeps n id)

  pub mirror_closed-Keeps :
      (id : String) (to : Option Mirror) → Keeps P (mirror_closed measures id to)
  mirror_closed-Keeps id none = Keeps-pure tt
  mirror_closed-Keeps id (some to) =
      Keeps-bind _ _ (mirror_outcome-Keeps id to) (λ _. Keeps-pure tt)

  call_tool-Keeps :
      (n : ℕ) (id token : String) (r : ValidatedToolRequest)
      → own id
      → Keeps P (call_tool measures ctx n id token r)
  unfolding step
  call_tool-Keeps n id token r h = Keeps-bind _ _ (mild.sent (tool_called id _ _ r.args) h) (λ _.
      Keeps-bind _ _ (mild.waited n) (λ _.
        Keeps-bind _ _ (mild.called (finishes_tool id token _) _ h (λ s. refl))
          (λ _. mild.waited (suc n))))

  -- A granted approval executes the request, if the call may.
  pub resume_approved-Keeps :
      (id : String) (r : Option ValidatedToolRequest)
      → own id
      → Keeps P (resume_approved measures ctx id r)
  unfolding step
  resume_approved-Keeps id (some r) h =
      Keeps-bind _ _
        (mild.called (claims_execution of_approved_tool id ctx.fresh.claim _) _ h (λ s. refl))
        (λ token. if_claimed-Keeps token _ (λ t.
          Keeps-bind _ _ (Keeps-required id)
            (λ claimed. Keeps-bind _ _ (Keeps-or_throw _ _) (λ q. call_tool-Keeps 1 id t q h))))
  resume_approved-Keeps id none h =
      Keeps-bind _ _ (mild.called (claims_execution of_rename id ctx.fresh.claim _) _ h (λ s. refl))
        (λ token. if_claimed-Keeps token _ (λ t. Keeps-bind _ _ (Keeps-required id) (λ claimed.
          Keeps-bind _ _ (Keeps-or_throw _ _)
            (λ q. mild.called (finishes_rename (ctx.clock 9) id t _ _) _ h (λ s. refl)))))

-- ===== src/Execution/Neutral.antt =====
-- Predicates on the world that all but an execution keeps, and the parts of the service's methods that
-- execute nothing.
use icos_v.Base.{ℕ, String, Option, none, some, List, ◌≡◌, refl}
use icos_v.Base.Program.{Keeps, Keeps-bind, Keeps-pure, Keeps-or_throw, Keeps-if}
use icos_v.Ledger
use icos_v.Ledger.{
  ToolExecutionInput, ValidatedToolRequest, ValidationOutcome, Outcome, find_request, is_executing,
  is_awaiting, is_done, is_validated, is_released, is_final_pending, is_some,
}
use icos_v.Ledger.Runs as LedgerRuns
use icos_v.Ledger.Runs.{
  step, of_search, of_tool, of_approved_tool, of_rename, of_rename_inline, registers,
  finishes_search, finishes_tool, finishes_rename, mirrors_approval, recovers, claims_answer,
  finishes_answer,
}
use icos_v.Ledger.Finishes.{finish_search, finish_tool, finish_rename, resolve_released_to_unknown}
use icos_v.Ledger.Register.{register}
use icos_v.Execution.Course.{Mild, Nobody, IsFor}
use icos_v.Execution.{
  Waits, Effect, tool_called, searched, Measures, asked_model, World, ServiceError, on_ledger,
  on_approvals, effect, wait, Step,
}
use icos_v.Execution.Methods.{Context, rename_claimed, rename_if_native}
use icos_v.Execution.Methods.Consume.{park_request, park_new, recover}
use icos_v.Execution.Once.Asks.{Keeps-required}
use icos_v.Approvals.Service as ApprovalService

pub record Neutral (size : Outcome → ℕ) (P : World → Type 0) : Type 1 where
  pub calls :
      {A : Type 0} (c : LedgerRuns.Call) (m : Ledger.Repo A)
      → ((s : Ledger.Db) → (m s).1 ≡ LedgerRuns.step size c s)
      → Keeps P (on_ledger m)
  pub asks_approvals : {A : Type 0} (m : ApprovalService.Method A) → Keeps P (on_approvals m)
  pub asks : (id : String) → Keeps P (effect (asked_model id))
  pub waits : (cs : List Step) → Keeps P (wait size cs)

pub Neutral-Mild :
    {size : Outcome → ℕ} {others : Waits} {P : World → Type 0}
    → Neutral size P
    → Mild size others Nobody P
Neutral-Mild {size} {others} {P} neutral = record {
  called = λ c m h same. neutral.calls c m same;
  sent = sent;
  waited = λ n. neutral.waits (others n);
}
  where
    sent : (e : Effect) → IsFor Nobody e → Keeps P (effect e)
    sent (tool_called id server tool args) h = absurd h
    sent (searched id args) h = absurd h
    sent (asked_model id) h = neutral.asks id

module _ (measures : Measures) {P : World → Type 0} (neutral : Neutral measures.size P) where
  pub finish_search-Keeps :
      (id token : String) (o : Outcome)
      → Keeps P (on_ledger (finish_search measures.size id token o))
  unfolding step
  finish_search-Keeps id token o = neutral.calls (finishes_search id token o) _ (λ s. refl)

  pub finish_tool-Keeps :
      (id token : String) (o : Outcome) → Keeps P (on_ledger (finish_tool measures.size id token o))
  unfolding step
  finish_tool-Keeps id token o = neutral.calls (finishes_tool id token o) _ (λ s. refl)

  pub finish_rename-Keeps :
      (now : ℕ) (id token session title : String)
      → Keeps P (on_ledger (finish_rename measures.size now id token session title))
  unfolding step
  finish_rename-Keeps now id token session title =
      neutral.calls (finishes_rename now id token session title) _ (λ s. refl)

  pub resolve-Keeps :
      (id : String) → Keeps P (on_ledger (resolve_released_to_unknown measures.size id))
  unfolding step
  resolve-Keeps id = neutral.calls (recovers id) _ (λ s. refl)

  pub register-Keeps :
      (input : ToolExecutionInput) (validation : ToolExecutionInput → ValidationOutcome)
      (parked : Option String) (uuid : String)
      → Keeps P (on_ledger (register measures.size input validation parked uuid))
  unfolding step
  register-Keeps input validation parked uuid =
      neutral.calls (registers input validation parked uuid) _ (λ s. refl)

  pub rename_claimed-Keeps :
      (now : ℕ) (id token : String) (otherwise : ServiceError)
      → Keeps P (rename_claimed measures now id token otherwise)
  rename_claimed-Keeps now id token otherwise =
      Keeps-bind _ _ (Keeps-required id)
        (λ claimed. Keeps-bind _ _ (Keeps-or_throw _ _) (λ r. finish_rename-Keeps now id token _ _))

  pub rename_if_native-Keeps :
      (now : ℕ) (token : String) (claimed : Ledger.Row) (r : Option ValidatedToolRequest)
      → Keeps P (rename_if_native measures now token claimed r)
  rename_if_native-Keeps now token claimed none = Keeps-pure tt
  rename_if_native-Keeps now token claimed (some r) = finish_rename-Keeps now _ token _ _

  pub park_request-Keeps :
      (ctx : Context) (input : ToolExecutionInput) (r : Option ValidatedToolRequest)
      → Keeps P (park_request measures ctx input r)
  park_request-Keeps ctx input none = Keeps-pure none
  park_request-Keeps ctx input (some r) =
      Keeps-if _ _ _
        (Keeps-bind _ _ (neutral.waits (ctx.waits 0)) (λ _.
          Keeps-bind _ _ (neutral.asks_approvals _)
            (λ a. Keeps-bind _ _ (neutral.waits (ctx.waits 1)) (λ _. Keeps-pure _))))
        (Keeps-pure none)

  pub park_new-Keeps :
      (ctx : Context) (input : ToolExecutionInput) (prior : Option Ledger.Row)
      → Keeps P (park_new measures ctx input prior)
  park_new-Keeps ctx input none = park_request-Keeps ctx input _
  park_new-Keeps ctx input (some row) = Keeps-pure none

  pub recover-Keeps : (row : Ledger.Row) → Keeps P (recover measures row)
  recover-Keeps row =
      Keeps-if _ _ _
        (Keeps-bind _ _ (resolve-Keeps row.request_id) (λ _. Keeps-required row.request_id))
        (Keeps-pure row)

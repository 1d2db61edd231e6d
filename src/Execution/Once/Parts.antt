-- ===== src/Execution/Once/Parts.antt =====
-- The executions of the service's methods and the invariant on their count.
use icos_v.Base.{ℕ, suc, String, true, false, Option, none, some, refl}
use icos_v.Base.Program.{
  Leads, Leads-bind, Keeps-bind, Keeps-pure, Keeps-or_throw, Keeps-if, Leads-weaken,
}
use icos_v.Ledger.{ValidatedToolRequest, Outcome}
use icos_v.Execution.{Measures, tool_called, searched, effect}
use icos_v.Execution.Methods.{Context, call_tool, execute_foreign, execute_search, is_late}
use icos_v.Execution.Once.{IsClaimed, Keeps-call, execute-IsClaimed, Keeps-wait}
use icos_v.Execution.Once.Asks.{asked, Keeps-required, Keeps-approvals}
use icos_v.Execution.Counts.{IsOnce}
use icos_v.Execution.Neutral.{Neutral, finish_search-Keeps, finish_tool-Keeps}

pub IsOnce-Neutral : (size : Outcome → ℕ) → Neutral size IsOnce
unfolding effect
IsOnce-Neutral size = record {
  calls = Keeps-call size;
  asks_approvals = Keeps-approvals;
  asks = λ id. record { at = asked id };
  waits = Keeps-wait size;
}

module _ (measures : Measures) where
  pub call_tool-IsOnce :
      (ctx : Context) (n : ℕ) (id token : String) (r : ValidatedToolRequest)
      → Leads (IsClaimed measures.size id) (call_tool measures ctx n id token r) IsOnce
  call_tool-IsOnce ctx n id token r =
      Leads-bind (IsClaimed measures.size id) IsOnce IsOnce _ _
        (execute-IsClaimed measures.size id (tool_called id _ _ r.args) (λ other. refl)) (λ w h. h)
        (λ _. Keeps-bind _ _ (Keeps-wait measures.size (ctx.waits n)) (λ _.
          Keeps-bind _ _ (finish_tool-Keeps measures (IsOnce-Neutral measures.size) id token _)
            (λ _. Keeps-wait measures.size (ctx.waits (suc n)))))

  pub execute_foreign-IsOnce :
      (ctx : Context) (n : ℕ) (id token : String)
      → Leads (IsClaimed measures.size id) (execute_foreign measures ctx n id token) IsOnce
  execute_foreign-IsOnce ctx n id token =
      Leads-bind (IsClaimed measures.size id) (IsClaimed measures.size id) IsOnce _ _
        (Keeps-required id) (λ w h. h.0)
        (λ claimed.
          Leads-bind (IsClaimed measures.size id) (IsClaimed measures.size id) IsOnce _ _
            (Keeps-or_throw _ _) (λ w h. h.0) (λ r. call_tool-IsOnce ctx n id token r))

  pub execute_search-IsOnce :
      (ctx : Context) (n : ℕ) (id token : String) (r : Option ValidatedToolRequest)
      → Leads (IsClaimed measures.size id) (execute_search measures ctx n id token r) IsOnce
  execute_search-IsOnce ctx n id token none =
      Leads-weaken _ (λ w h. h.0)
        (Keeps-bind _ _ (Keeps-wait measures.size (ctx.waits n)) (λ _.
          Keeps-bind _ _ (finish_search-Keeps measures (IsOnce-Neutral measures.size) id token _)
            (λ _. Keeps-pure true)))
  execute_search-IsOnce ctx n id token (some r) =
      Leads-bind (IsClaimed measures.size id) IsOnce IsOnce _ _
        (execute-IsClaimed measures.size id (searched id r.args) (λ other. refl)) (λ w h. h)
        (λ _. Keeps-bind _ _ (Keeps-wait measures.size (ctx.waits n)) (λ _.
          Keeps-if (is_late measures ctx.answers.search) _ _ (Keeps-pure false) (
            Keeps-bind _ _ (finish_search-Keeps measures (IsOnce-Neutral measures.size) id token _)
              (λ _. Keeps-pure true))))

-- ===== src/Execution/Runs.antt =====
-- Any sequence of calls of core/src/tools/tool-execution.service.ts, with those of others at every wait.
use icos_v.Base.{
  ℕ, ◌+◌, refl, ◌≤◌, String, Bool, true, false, Option, none, some, List, [], ◌∷◌, ◌≡◌, inl, inr,
  arith,
}
use icos_v.Base.Program.{
  Keeps, Leads-bind, Keeps-bind, Keeps-pure, Keeps-throw, Keeps-gets, Keeps-if, Leads-weaken,
}
use icos_v.Base.Table.{UniqueKeys}
use icos_v.Approvals.{ApprovalRequest}
use icos_v.Ledger
use icos_v.Ledger.{
  ToolExecutionInput, ValidatedToolRequest, ValidationOutcome, Outcome, find_request, is_executing,
  is_awaiting, is_done, is_validated, is_released, is_final_pending, is_some,
}
use icos_v.Ledger.Runs.{of_search, of_tool, of_approved_tool, of_rename, of_rename_inline}
use icos_v.Execution.{Measures, World, wait, Waits, Step, validate}
use icos_v.Execution.Methods.{Context, foreign_of, mirror_of}
use icos_v.Execution.Methods.Resume.{resume_approved, follow_found, follow_stored, resume}
use icos_v.Execution.Methods.Consume.{
  rename_inline, consume_foreign, search_inline, later, conclude, conclude_search,
  consume_validated, consume_registered, consume,
}
use icos_v.Execution.Once.{IsClaimed, claim_then, Keeps-wait}
use icos_v.Execution.Once.Asks.{Keeps-required, Keeps-approvals}
use icos_v.Execution.Counts.{IsOnce, executions}
use icos_v.Execution.Once.Parts.{IsOnce-Neutral, execute_foreign-IsOnce, execute_search-IsOnce}
use icos_v.Execution.Course.{Mild, Nobody}
use icos_v.Execution.Mild.{finally-Keeps, mirror_closed-Keeps}
use icos_v.Execution.Neutral.{
  register-Keeps, rename_claimed-Keeps, rename_if_native-Keeps, Neutral-Mild, park_new-Keeps,
  recover-Keeps,
}

IsOnce-Mild : (size : Outcome → ℕ) {others : Waits} → Mild size others Nobody IsOnce
IsOnce-Mild size = Neutral-Mild (IsOnce-Neutral size)

module _ (measures : Measures) where
  rename_inline-IsOnce :
      (ctx : Context) (id : String) → Keeps IsOnce (rename_inline measures ctx id)
  unfolding rename_inline
  rename_inline-IsOnce ctx id =
      claim_then measures.size of_rename_inline id ctx.fresh.claim (validate (ctx.policy 1)) _
        (Keeps-bind _ _ (Keeps-pure tt) (λ _. Keeps-required id))
        (λ t.
          Leads-weaken _ (λ w h. h.0)
            (Keeps-bind _ _
              (Keeps-bind _ _ (Keeps-required id) (λ claimed.
                rename_if_native-Keeps measures (IsOnce-Neutral measures.size) (ctx.clock 0) t
                  claimed _))
              (λ _. Keeps-required id)))

  consume_foreign-IsOnce :
      (ctx : Context) (id : String) (r : ValidatedToolRequest)
      → Keeps IsOnce (consume_foreign measures ctx id r)
  unfolding consume_foreign
  consume_foreign-IsOnce ctx id r =
      Keeps-if _ _ _
        (claim_then measures.size of_tool id ctx.fresh.claim (validate (ctx.policy 1)) _
          (Keeps-bind _ _ (Keeps-pure tt)
            (λ _. finally-Keeps measures ctx (IsOnce-Mild measures.size) 4 id))
          (λ t.
            Leads-bind (IsClaimed measures.size id) IsOnce IsOnce _ _
              (execute_foreign-IsOnce measures ctx 2 id t) (λ w h. h)
              (λ _. finally-Keeps measures ctx (IsOnce-Mild measures.size) 4 id)))
        (Keeps-throw _)

  resume_approved-IsOnce :
      (ctx : Context) (id : String) (r : Option ValidatedToolRequest)
      → Keeps IsOnce (resume_approved measures ctx id r)
  resume_approved-IsOnce ctx id (some r) =
      claim_then measures.size of_approved_tool id ctx.fresh.claim (validate (ctx.policy 0)) _
        (Keeps-pure tt) (λ t. execute_foreign-IsOnce measures ctx 1 id t)
  resume_approved-IsOnce ctx id none =
      claim_then measures.size of_rename id ctx.fresh.claim (validate (ctx.policy 0)) _
        (Keeps-pure tt)
        (λ t.
          Leads-weaken _ (λ w h. h.0)
            (rename_claimed-Keeps measures (IsOnce-Neutral measures.size) (ctx.clock 9) id t _))

  follow_found-IsOnce :
      (ctx : Context) (row : Ledger.Row) (approval_id : String) (a : Option ApprovalRequest)
      → Keeps IsOnce (follow_found measures ctx row approval_id a)
  follow_found-IsOnce ctx row approval_id none = Keeps-pure tt
  follow_found-IsOnce ctx row approval_id (some a) =
      Keeps-if _ _ _
        (Keeps-if _ _ _ (resume_approved-IsOnce ctx row.request_id (foreign_of row.validation)) (
          mirror_closed-Keeps measures ctx (IsOnce-Mild measures.size) row.request_id
            (mirror_of a.status)))
        (Keeps-pure tt)

  follow_stored-IsOnce :
      (ctx : Context) (row : Ledger.Row) (approval_id : Option String)
      → Keeps IsOnce (follow_stored measures ctx row approval_id)
  follow_stored-IsOnce ctx row none = Keeps-pure tt
  follow_stored-IsOnce ctx row (some approval_id) = Keeps-bind _ _ (Keeps-approvals _) (λ a.
      Keeps-bind _ _ (Keeps-wait measures.size (ctx.waits 0))
        (λ _. follow_found-IsOnce ctx row approval_id a))

  resume-IsOnce :
      (ctx : Context) (id session : String) → Keeps IsOnce (resume measures ctx id session)
  unfolding resume
  resume-IsOnce ctx id session = Keeps-bind _ _ (Keeps-required id) (λ row.
      Keeps-bind _ _ (Keeps-if _ _ _ (Keeps-pure tt) (Keeps-throw _)) (λ _.
        Keeps-bind _ _
          (Keeps-if _ _ _ (follow_stored-IsOnce ctx row row.approval_id) (Keeps-pure tt))
          (λ _. finally-Keeps measures ctx (IsOnce-Mild measures.size) 3 id)))

  conclude-IsOnce : (ctx : Context) (row : Ledger.Row) → Keeps IsOnce (conclude measures ctx row)
  conclude-IsOnce ctx row =
      Keeps-if _ _ _ (resume-IsOnce (later measures ctx) row.request_id row.session_id)
        (finally-Keeps measures ctx (IsOnce-Mild measures.size) 4 row.request_id)

  conclude_search-IsOnce :
      (ctx : Context) (id : String) (over : Bool)
      → Keeps IsOnce (conclude_search measures ctx id over)
  conclude_search-IsOnce ctx id true = Keeps-bind _ _ (Keeps-required id) (conclude-IsOnce ctx)
  conclude_search-IsOnce ctx id false = Keeps-required id

  search_inline-IsOnce :
      (ctx : Context) (id : String) → Keeps IsOnce (search_inline measures ctx id)
  search_inline-IsOnce ctx id =
      claim_then measures.size of_search id ctx.fresh.claim (validate (ctx.policy 1)) _
        (Keeps-pure true)
        (λ t.
          Leads-bind (IsClaimed measures.size id) (IsClaimed measures.size id) IsOnce _ _
            (Keeps-required id) (λ w h. h.0)
            (λ claimed. execute_search-IsOnce measures ctx 2 id t _))

  consume_registered-IsOnce :
      (ctx : Context) (row : Ledger.Row) → Keeps IsOnce (consume_registered measures ctx row)
  consume_registered-IsOnce ctx row =
      Keeps-if _ _ _ (validated (foreign_of row.validation)) (conclude-IsOnce ctx row)
    where
      validated :
          (r : Option ValidatedToolRequest) → Keeps IsOnce (consume_validated measures ctx row r)
      validated (some r) = consume_foreign-IsOnce ctx row.request_id r
      validated none =
          Keeps-if _ _ _
            (Keeps-bind _ _ (rename_inline-IsOnce ctx row.request_id) (conclude-IsOnce ctx))
            (Keeps-bind _ _ (search_inline-IsOnce ctx row.request_id)
              (conclude_search-IsOnce ctx row.request_id))

  consume-IsOnce :
      (ctx : Context) (input : ToolExecutionInput) → Keeps IsOnce (consume measures ctx input)
  unfolding consume
  consume-IsOnce ctx input = Keeps-bind _ _ (Keeps-if _ _ _ (Keeps-throw _) (Keeps-pure tt)) (λ _.
      Keeps-bind _ _ (Keeps-gets _) (λ prior.
        Keeps-bind _ _ (park_new-Keeps measures (IsOnce-Neutral measures.size) ctx input prior)
          (λ parked.
            Keeps-bind _ _ (register-Keeps measures (IsOnce-Neutral measures.size) input _ parked _)
              (λ stored.
                Keeps-bind _ _ (recover-Keeps measures (IsOnce-Neutral measures.size) stored)
                  (consume_registered-IsOnce ctx)))))

-- One call of the service, or a sequence of calls that others make of the ledger and the approvals.
pub data ServiceCall : Type 0 where
  consumes : Context → ToolExecutionInput → ServiceCall
  resumes : Context → (request_id session_id : String) → ServiceCall
  others : List Step → ServiceCall

module _ (measures : Measures) where
  unfoldable pub serve : ServiceCall → World → World
  serve (consumes ctx input) w = (consume measures ctx input w).1
  serve (resumes ctx id session) w = (resume measures ctx id session w).1
  serve (others cs) w = (wait measures.size cs w).1

  unfoldable pub serve_all : List ServiceCall → World → World
  serve_all [] w = w
  serve_all (c ∷ cs) w = serve_all cs (serve c w)

  serve_all-IsOnce : (cs : List ServiceCall) (w : World) → IsOnce w → IsOnce (serve_all cs w)
  unfolding serve_all serve
  serve_all-IsOnce [] w h = h
  serve_all-IsOnce (consumes ctx input ∷ cs) w h =
      serve_all-IsOnce cs _ ((consume-IsOnce measures ctx input).at w h)
  serve_all-IsOnce (resumes ctx id session ∷ cs) w h =
      serve_all-IsOnce cs _ ((resume-IsOnce measures ctx id session).at w h)
  serve_all-IsOnce (others steps ∷ cs) w h =
      serve_all-IsOnce cs _ ((Keeps-wait measures.size steps).at w h)

  -- A request is executed outside the ledger (a search or a call of an MCP server) at most once, by these
  -- calls and by the others together, over any sequence of calls of `consume`, of `resume`, of the ledger
  -- and of the approvals, whatever other requests do at each wait of a call, executions included, and
  -- whatever the servers answer. Request ids are unique to begin with, and nothing has been executed.
  pub executed_once :
      (cs : List ServiceCall) (w : World)
      → UniqueKeys Ledger.key w.ledger.tool_requests
      → w.effects ≡ []
      → w.elsewhere ≡ []
      → (id : String)
      → executions id (serve_all cs w).effects + executions id (serve_all cs w).elsewhere ≤ 1
  executed_once cs w unique fresh alone id =
      elim ((serve_all-IsOnce cs w (unique, (λ j. inl (rw (fresh, alone) refl)))).1 id) [
        | inl never ↦ omega (arith, never)
        | inr (one, _) ↦ omega (arith, one)
      ]

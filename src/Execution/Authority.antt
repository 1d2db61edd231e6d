-- ===== src/Execution/Authority.antt =====
-- What `resume` of core/src/tools/tool-execution.service.ts executes.
use icos_v.Base.{String, ◌⊎◌}
use icos_v.Approvals
use icos_v.Approvals.{
  ApprovalStatus, pending, approved, rejected, expired, cancelled, ApprovalRow, find_approval,
  get_approval,
}
use icos_v.Approvals.Service as ApprovalService
use icos_v.Ledger
use icos_v.Ledger.{Outcome}
use icos_v.Execution.{Measures, World}
use icos_v.Execution.Methods.{Context}
use icos_v.Execution.Course.{Course, Nobody, Mild}

module _ (measures : Measures) (w : World) (own : String → Type 0) (ctx : Context) where
  -- Nothing is executed, or `C` holds and what is executed is `own`.
  abbrev Authorised : Type 0 → World → Type 0
  Authorised C v =
      Course measures.size ctx.waits Nobody w v ⊎ (C × Course measures.size ctx.waits own w v)

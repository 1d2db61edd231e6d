-- ===== src/Execution/Once.antt =====
-- The calls of the ledger keep the count of executions (core/src/tools/tool-execution.service.ts).
pub mod Parts
pub mod Asks
use icos_v.Base.{
  ℕ, zero, suc, ◌+◌, ◌≤◌, String, Bool, true, false, not, ◌&&◌, ◌||◌, Option, none, some, List, [],
  ◌∷◌, ◌++◌, map, str_eq, if◌then◌else◌, ◌≡◌, ◌≢◌, ◌⊎◌, inl, inr, ◌∙◌, sym, ap, subst, refl, arith,
  eq_iff, eq_refl, Bool-cases, Option-cases,
}
use icos_v.Base.Exec.{Result, ok, err}
use icos_v.Base.Program.{
  Keeps, Leads, Keeps-or_throw, Keeps-bind, Keeps-gets, continue, gets, or_throw, ◌>>=◌,
}
use icos_v.Base.Table.{UniqueKeys}
use icos_v.Ledger
use icos_v.Ledger.{Json, ToolExecutionInput, ValidationOutcome, Outcome, LedgerError, find_request}
use icos_v.Ledger.Runs as LedgerRuns
use icos_v.Ledger.Moves.{Grows, Move, is_claimable}
use icos_v.Ledger.Runs.{
  ClaimKind, of_search, of_tool, of_approved_tool, of_rename, of_rename_inline, claims_execution,
  step,
}
use icos_v.Ledger.Claims.{execute_row}
use icos_v.Ledger.Once.{startable-claimable, startable, Move-unclaimable, claim_won}
use icos_v.Approvals.Service as ApprovalService
use icos_v.Execution.{
  Measures, Effect, tool_called, searched, asked_model, World, ServiceError, no_request, Method,
  on_ledger, on_approvals, seen_by_ledger, seen_by_approvals, effect, wait, Step, of_other_ledger,
  of_other_approvals, of_other_execution, effect_of, if_won, other_step, other_steps, required,
}
use icos_v.Execution.{from_ledger, from_approvals}
use mathlib.Core.Bool.{false≢true}
use icos_v.Execution.Counts.{
  counts, executions, executions-append, total, IsSpent, IsOnce, on_ledger-world,
}

module _ (size : Outcome → ℕ) where
  -- What the ledger does to its own rows keeps the invariant.
  pub IsOnce-step :
      (c : LedgerRuns.Call) (w : World)
      → IsOnce w
      → IsOnce (record w { ledger = LedgerRuns.step size c (seen_by_ledger w) })
  IsOnce-step c w (unique, once) =
      let (keeps, grows) = LedgerRuns.step-Grows size c (seen_by_ledger w) in
      (
        keeps unique,
        (λ id. elim (once id) [
          | inl never ↦ inl never
          | inr (one, (row, found, spent)) ↦
              let (row', found', moved) = grows id row found in
              inr (one, (row', found', Move-unclaimable row row' moved spent))
        ]),
      )

  pub Keeps-call :
      {A : Type 0} (c : LedgerRuns.Call) (m : Ledger.Repo A)
      → ((s : Ledger.Db) → (m s).1 ≡ LedgerRuns.step size c s)
      → Keeps IsOnce (on_ledger m)
  Keeps-call c m same = record {
    at = λ w h.
        subst IsOnce
          (sym (on_ledger-world m w ∙ ap (λ s. record w { ledger = s }) (same (seen_by_ledger w))))
          (IsOnce-step c w h);
  }

  -- A request whose claim has just been won.
  abbrev pub IsClaimed : String → World → Type 0
  IsClaimed id w = IsOnce w × (total id w ≡ 0) × IsSpent id w

  claim-IsOnce :
      (kind : ClaimKind) (id token : String) (policy : ToolExecutionInput → ValidationOutcome)
      (w : World)
      → IsOnce w
      → IsOnce
          (record w { ledger = (LedgerRuns.claim size kind id token policy (seen_by_ledger w)).1 })
  unfolding step
  claim-IsOnce kind id token policy w h = IsOnce-step (claims_execution kind id token policy) w h

  claim_won_world :
      (kind : ClaimKind) (id token t : String) (policy : ToolExecutionInput → ValidationOutcome)
      (w : World) (s' : Ledger.Db)
      → IsOnce w
      → LedgerRuns.claim size kind id token policy (seen_by_ledger w) ≡ (ok (some t), s')
      → IsClaimed id (record w { ledger = s' })
  claim_won_world kind id token t policy w s' (unique, once) won =
      let (row, found, ready, _, _, _, held) =
        claim_won size kind id token t policy (seen_by_ledger w) s' unique won in
      let after =
        subst (λ s. IsOnce (record w { ledger = s })) (ap (λ r. r.1) won)
          (claim-IsOnce kind id token policy w (unique, once)) in
      (
        after,
        elim (once id) [
          | inl never ↦ never
          | inr (one, (old, there, spent)) ↦
              let shut = startable-claimable kind old spent in
              absurd (false≢true (sym shut ∙ ap (startable kind) (cc) ∙ ready))
        ],
        (execute_row token row, held, refl),
      )

  -- A claim, and what follows it: where it is lost nothing is executed.
  pub claim_then :
      {B : Type 0} (kind : ClaimKind) (id token : String)
      (policy : ToolExecutionInput → ValidationOutcome) (k : Option String → Method B)
      → Keeps IsOnce (k none)
      → ((t : String) → Leads (IsClaimed id) (k (some t)) IsOnce)
      → Keeps IsOnce (on_ledger (LedgerRuns.claim size kind id token policy) >>= k)
  unfolding on_ledger ◌>>=◌
  claim_then {B} kind id token policy k lost won = record {
    at = λ w h. go w h (LedgerRuns.claim size kind id token policy (seen_by_ledger w)) refl;
  }
    where
      go :
          (w : World) (h : IsOnce w) (r : Result LedgerError (Option String) × Ledger.Db)
          → LedgerRuns.claim size kind id token policy (seen_by_ledger w) ≡ r
          → IsOnce (let (a, v) = from_ledger w r in continue a k v).1
      go w h (err e, s) same =
          subst (λ r. IsOnce (record w { ledger = r.1 })) same
            (claim-IsOnce kind id token policy w h)
      go w h (ok none, s) same =
          lost.at (record w { ledger = s })
            (subst (λ r. IsOnce (record w { ledger = r.1 })) same
              (claim-IsOnce kind id token policy w h))
      go w h (ok (some t), s) same =
          (won t).at (record w { ledger = s }) (claim_won_world kind id token t policy w s h same)

  -- One execution of a request that has just been claimed.
  one_more :
      (id other : String) (w : World) (m : ℕ)
      → m ≡ total other w + (if str_eq id other then 1 else 0)
      → IsClaimed id w
      → (m ≡ 0) ⊎ ((m ≡ 1) × IsSpent other w)
  one_more id other w m counted ((unique, once), never, spent) =
      elim (Bool-cases (str_eq id other)) [
        | inl same ↦
            let eq = (eq_iff id other).0 same in
            inr
              (omega (arith, rw same at counted, rw eq at never), subst (λ j. IsSpent j w) eq spent)
        | inr different ↦
            let more = rw different at counted in
            elim (once other) [
              | inl none_yet ↦ inl (omega (arith, more, none_yet))
              | inr (one, gone) ↦ inr (omega (arith, more, one), gone)
            ]
      ]

  -- The one execution of a request that has just been claimed.
  pub execute-IsClaimed :
      (id : String) (e : Effect)
      → ((other : String) → counts other e ≡ (if str_eq id other then 1 else 0))
      → Leads (IsClaimed id) (effect e) IsOnce
  unfolding effect
  execute-IsClaimed id e counted = record {
    at = λ w claimed. (
      claimed.0.0,
      (λ other.
          one_more id other w _
            (omega (arith, executions-append other w.effects (e ∷ []), counted other)) claimed),
    );
  }

  effect_of-counts :
      (kind : ClaimKind) (id server tool : String) (args : Json) (other : String)
      → counts other (effect_of kind id server tool args) ≡ (if str_eq id other then 1 else 0)
  effect_of-counts of_search id server tool args other = refl
  effect_of-counts of_tool id server tool args other = refl
  effect_of-counts of_approved_tool id server tool args other = refl
  effect_of-counts of_rename id server tool args other = refl
  effect_of-counts of_rename_inline id server tool args other = refl

  -- Another request claims, and executes if it has won.
  if_won-IsOnce :
      (kind : ClaimKind) (id token : String) (policy : ToolExecutionInput → ValidationOutcome)
      (e : Effect) (w : World)
      → ((other : String) → counts other e ≡ (if str_eq id other then 1 else 0))
      → IsOnce w
      → IsOnce (if_won e w (LedgerRuns.claim size kind id token policy (seen_by_ledger w)))
  if_won-IsOnce kind id token policy e w counted h =
      go (LedgerRuns.claim size kind id token policy (seen_by_ledger w)) refl
    where
      go :
          (r : Result LedgerError (Option String) × Ledger.Db)
          → LedgerRuns.claim size kind id token policy (seen_by_ledger w) ≡ r
          → IsOnce (if_won e w r)
      go (err x, s) same =
          subst (λ r. IsOnce (record w { ledger = r.1 })) same
            (claim-IsOnce kind id token policy w h)
      go (ok none, s) same =
          subst (λ r. IsOnce (record w { ledger = r.1 })) same
            (claim-IsOnce kind id token policy w h)
      go (ok (some t), s) same =
          let claimed = claim_won_world kind id token t policy w s h same in
          (
            claimed.0.0,
            (λ other.
                one_more id other (record w { ledger = s }) _
                  (omega (arith, executions-append other w.elsewhere (e ∷ []), counted other))
                  claimed),
          )

  pub IsOnce-others : (c : Step) (w : World) → IsOnce w → IsOnce (other_step size c w)
  unfolding other_step
  IsOnce-others (of_other_ledger c) w h = IsOnce-step c w h
  IsOnce-others (of_other_approvals c) w h = h
  IsOnce-others (of_other_execution kind id token policy server tool args) w h =
      if_won-IsOnce kind id token policy (effect_of kind id server tool args) w
        (effect_of-counts kind id server tool args) h

  other_steps-IsOnce : (cs : List Step) (w : World) → IsOnce w → IsOnce (other_steps size cs w)
  unfolding other_steps
  other_steps-IsOnce [] w h = h
  other_steps-IsOnce (c ∷ cs) w h =
      other_steps-IsOnce cs (other_step size c w) (IsOnce-others c w h)

  pub Keeps-wait : (cs : List Step) → Keeps IsOnce (wait size cs)
  unfolding wait
  Keeps-wait cs = record { at = other_steps-IsOnce cs }

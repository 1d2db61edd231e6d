-- ===== src/Execution/Course.antt =====
-- What a call of core/src/tools/tool-execution.service.ts does by itself, step by step, and what the other
-- requests do where it waits.
use icos_v.Base.{ℕ, String, [], ◌∷◌, ◌++◌, ◌⊎◌, inl, inr, ◌∙◌, ap, subst, sym, ◌≡◌}
use icos_v.Base.Exec.{Clock, Exec}
use icos_v.Base.Program.{Keeps}
use icos_v.Approvals.{get_approval}
use icos_v.Approvals.Service as ApprovalService
use icos_v.Ledger
use icos_v.Ledger.{Outcome}
use icos_v.Ledger.Runs as LedgerRuns
use icos_v.Ledger.Runs.{
  claims_execution, finishes_search, finishes_tool, finishes_rename, mirrors_approval,
  claims_answer, finishes_answer,
}
use icos_v.Execution.{
  Effect, tool_called, searched, asked_model, World, on_ledger, on_approvals, seen_by_ledger,
  effect, wait, other_steps, Waits,
}
use icos_v.Execution.Counts.{on_ledger-world}

-- The claim and the end of an execution are for a request of the call's own. Mirroring an approval and the
-- final answer are for any; nothing else is called.
abbrev pub Concerns : (String → Type 0) → LedgerRuns.Call → Type 0
Concerns own (claims_execution kind id token policy) = own id
Concerns own (finishes_search id token outcome) = own id
Concerns own (finishes_tool id token outcome) = own id
Concerns own (finishes_rename now id token session title) = own id
Concerns own (mirrors_approval id to) = Unit {0}
Concerns own (claims_answer id token) = Unit {0}
Concerns own (finishes_answer id token outcome) = Unit {0}
Concerns own _ = ⊥

-- A call of an MCP server and a search are for a request of the call's own.
abbrev pub IsFor : (String → Type 0) → Effect → Type 0
IsFor own (tool_called id server tool args) = own id
IsFor own (searched id args) = own id
IsFor own (asked_model id) = Unit {0}

abbrev pub read_approval : Clock → String → World → World
read_approval clock id w =
    (on_approvals (ApprovalService.on_db ApprovalService.internal (get_approval clock id)) w).1

-- From the world `w`, with `others` what other requests do where the call waits, and `own` the requests
-- that it may execute.
pub data Course (size : Outcome → ℕ) (others : Waits) (own : String → Type 0) (w : World)
    : World → Type 0 where
  begins : Course size others own w w
  waits :
      {v : World} (n : ℕ)
      → Course size others own w v
      → Course size others own w (other_steps size (others n) v)
  consults :
      {v : World} (clock : Clock) (id : String)
      → Course size others own w v
      → Course size others own w (read_approval clock id v)
  calls :
      {v : World} (c : LedgerRuns.Call)
      → Concerns own c
      → Course size others own w v
      → Course size others own w (record v { ledger = LedgerRuns.step size c (seen_by_ledger v) })
  sends :
      {v : World} (e : Effect)
      → IsFor own e
      → Course size others own w v
      → Course size others own w (record v { effects = v.effects ++ e ∷ [] })

abbrev pub Nobody : String → Type 0
Nobody id = ⊥

Concerns-Nobody : (own : String → Type 0) (c : LedgerRuns.Call) → Concerns Nobody c → Concerns own c
Concerns-Nobody own (claims_execution kind id token policy) h = absurd h
Concerns-Nobody own (finishes_search id token outcome) h = absurd h
Concerns-Nobody own (finishes_tool id token outcome) h = absurd h
Concerns-Nobody own (finishes_rename now id token session title) h = absurd h
Concerns-Nobody own (mirrors_approval id to) h = tt
Concerns-Nobody own (claims_answer id token) h = tt
Concerns-Nobody own (finishes_answer id token outcome) h = tt
Concerns-Nobody own (LedgerRuns.registers i v p u) h = absurd h
Concerns-Nobody own (LedgerRuns.gives_up token) h = absurd h
Concerns-Nobody own (LedgerRuns.recovers id) h = absurd h
Concerns-Nobody own (LedgerRuns.writes_turn id) h = absurd h

IsFor-Nobody : (own : String → Type 0) (e : Effect) → IsFor Nobody e → IsFor own e
IsFor-Nobody own (tool_called id server tool args) h = absurd h
IsFor-Nobody own (searched id args) h = absurd h
IsFor-Nobody own (asked_model id) h = tt

pub Course-Nobody :
    (size : Outcome → ℕ) (others : Waits) (own : String → Type 0) (w v : World)
    → Course size others Nobody w v
    → Course size others own w v
Course-Nobody size others own w v begins = begins
Course-Nobody size others own w v (waits n c) = waits n (Course-Nobody size others own w _ c)
Course-Nobody size others own w v (consults clock id c) =
    consults clock id (Course-Nobody size others own w _ c)
Course-Nobody size others own w v (calls call h c) =
    calls call (Concerns-Nobody own call h) (Course-Nobody size others own w _ c)
Course-Nobody size others own w v (sends e h c) =
    sends e (IsFor-Nobody own e h) (Course-Nobody size others own w _ c)

-- A predicate on the world that the calls with `own` keep.
pub record Mild (size : Outcome → ℕ) (others : Waits) (own : String → Type 0) (P : World → Type 0)
    : Type 1 where
  pub called :
      {A : Type 0} (c : LedgerRuns.Call) (m : Ledger.Repo A)
      → Concerns own c
      → ((s : Ledger.Db) → (m s).1 ≡ LedgerRuns.step size c s)
      → Keeps P (on_ledger m)
  pub sent : (e : Effect) → IsFor own e → Keeps P (effect e)
  pub waited : (n : ℕ) → Keeps P (wait size (others n))

pub Course-Mild :
    (size : Outcome → ℕ) (others : Waits) (own : String → Type 0) (w : World)
    → Mild size others own (Course size others own w)
unfolding effect wait
Course-Mild size others own w = record {
  called = λ c m h same. record {
    at = λ v course.
        subst (Course size others own w)
          (sym (on_ledger-world m v ∙ ap (λ s. record v { ledger = s }) (same (seen_by_ledger v))))
          (calls c h course);
  };
  sent = λ e h. record { at = λ v course. sends e h course };
  waited = λ n. record { at = λ v course. waits n course };
}

-- What executes nothing keeps both alternatives.
pub Mild-either :
    {size : Outcome → ℕ} {others : Waits} {own : String → Type 0} {P Q : World → Type 0}
    (C : Type 0)
    → Mild size others Nobody P
    → Mild size others own Q
    → Mild size others Nobody (λ v. P v ⊎ (C × Q v))
Mild-either {size} {others} {own} C p q = record {
  called = λ c m h same. either (p.called c m h same) (q.called c m (Concerns-Nobody own c h) same);
  sent = λ e h. either (p.sent e h) (q.sent e (IsFor-Nobody own e h));
  waited = λ n. either (p.waited n) (q.waited n);
}
  where
    either :
        {E A : Type 0} {P Q : World → Type 0} {m : Exec E World A}
        → Keeps P m
        → Keeps Q m
        → Keeps (λ v. P v ⊎ (C × Q v)) m
    either k l = record {
      at = λ v h. elim h [ inl x ↦ inl (k.at v x) | inr (c, y) ↦ inr (c, l.at v y) ];
    }

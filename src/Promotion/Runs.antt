-- ===== src/Promotion/Runs.antt =====
-- Any sequence of calls of core/src/memory/promotion.service.ts.
use icos_v.Base.{ℕ, String, List, [], ◌∷◌}
use icos_v.Base.Exec.{Clock, after}
use icos_v.Base.Program.{Keeps, Keeps-pure, Keeps-gets, Keeps-bind}
use icos_v.Journal.{PromotionJournalEntry}
use icos_v.Claims.{MemoryCandidate}
use icos_v.Promotion.{Setting, World}
use icos_v.Promotion.Methods.{Fresh}
use icos_v.Promotion.Execute.{execute_entry}
use icos_v.Promotion.Sweep.{Draws, sweep, requeue, on_module_init}
use icos_v.Promotion.Propose.{ProposalFresh, propose_candidates}
use icos_v.Promotion.Frames.{Neutral, Neutral-of, on_approvals-Keeps, on_service-Keeps}
use icos_v.Promotion.Entries.{execute_entry-Keeps, sweep-Keeps, propose_candidates-Keeps}
use icos_v.Promotion.Calls.{Coherent}
use icos_v.Promotion.Coherence.{apply-Coherent}
use icos_v.Promotion.Live.{IsCoherent}

pub data Call : Type 0 where
  proposes : (ℕ → Clock) → (ℕ → ProposalFresh) → List MemoryCandidate → Call
  executes : Clock → Fresh → (id : String) → Call
  sweeps : Draws → Call
  restarts : Clock → Call

module _ (setting : Setting) where
  unfoldable pub step : Call → World → World
  step (proposes clocks fresh cs) w = (propose_candidates setting clocks fresh 0 cs w).1
  step (executes clock fresh id) w = (execute_entry setting clock fresh id w).1
  step (sweeps draws) w = (sweep setting draws w).1
  step (restarts clock) w = (on_module_init clock w).1

  unfoldable pub run : List Call → World → World
  unfolding step
  run [] w = w
  run (c ∷ cs) w = run cs (step c w)

requeue-Keeps :
    {P : World → Type 0} (n : Neutral P) (clock : Clock) (rows : List PromotionJournalEntry)
    → Keeps P (requeue clock rows)
unfolding requeue
requeue-Keeps n clock [] = Keeps-pure tt
requeue-Keeps n clock (row ∷ rows) =
    Keeps-bind _ _ (n.journal _) (λ _. requeue-Keeps n (after 1 clock) rows)

pub on_module_init-Keeps :
    {P : World → Type 0} (n : Neutral P) (clock : Clock) → Keeps P (on_module_init clock)
unfolding on_module_init
on_module_init-Keeps n clock = Keeps-bind _ _ (Keeps-gets _) (λ rows. requeue-Keeps n clock rows)

coherent : Neutral Coherent
coherent = Neutral-of (λ s _. IsCoherent s)

step-Coherent :
    (setting : Setting) (c : Call) (w : World) → Coherent w → Coherent (step setting c w)
unfolding step
step-Coherent setting (proposes clocks fresh cs) w h =
    (propose_candidates-Keeps coherent setting (apply-Coherent setting)
        (on_approvals-Keeps IsCoherent) (on_service-Keeps IsCoherent) clocks fresh 0 cs).at
      w h
step-Coherent setting (executes clock fresh id) w h =
    (execute_entry-Keeps coherent setting (apply-Coherent setting) (on_approvals-Keeps IsCoherent)
        clock fresh id).at
      w h
step-Coherent setting (sweeps draws) w h =
    (sweep-Keeps coherent setting (apply-Coherent setting) (on_approvals-Keeps IsCoherent) draws).at
      w h
step-Coherent setting (restarts clock) w h = (on_module_init-Keeps coherent clock).at w h

-- Whatever candidates are proposed, entries executed, sweeps made and restarts recovered from, in any
-- order: from a state in which claim ids are unique and no subject and predicate has more than one
-- claim that is candidate or active, every later state is such a state too.
pub run-Coherent :
    (setting : Setting) (cs : List Call) (w : World) → Coherent w → Coherent (run setting cs w)
unfolding run
run-Coherent setting [] w h = h
run-Coherent setting (c ∷ cs) w h =
    run-Coherent setting cs (step setting c w) (step-Coherent setting c w h)

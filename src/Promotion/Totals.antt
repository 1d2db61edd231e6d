-- ===== src/Promotion/Totals.antt =====
-- What `sweep` of core/src/memory/promotion.service.ts counts.
use icos_v.Base.{ℕ, suc, ◌+◌, List, [], ◌∷◌, ◌≡◌, refl, arith, length}
use icos_v.Base.Exec.{Result, ok, err}
use icos_v.Base.Program.{pure, gets, attempt, handle, ◌>>=◌}
use icos_v.Journal.{proposed, promoting, PromotionJournalEntry, list_by_state}
use icos_v.Promotion.{Setting, World, PromotionError}
use icos_v.Promotion.Methods.{
  EntryOutcome, was_new, was_reinforced, was_contradicted, was_denied, was_failed, was_skipped,
}
use icos_v.Promotion.Sweep.{
  Draws, SweepSummary, empty_sweep, count, swept_outcome, sweep_rows, sweep,
}

abbrev pub total : SweepSummary → ℕ
total t = t.new + t.reinforced + t.contradicted + t.denied + t.failed + t.skipped

total-count : (o : EntryOutcome) (t : SweepSummary) → total (count o t) ≡ suc (total t)
total-count was_new t = omega arith
total-count was_reinforced t = omega arith
total-count was_contradicted t = omega arith
total-count was_denied t = omega arith
total-count was_failed t = omega arith
total-count was_skipped t = omega arith

-- It returns a summary of so many entries.
abbrev pub Counts : ℕ → Result PromotionError SweepSummary × World → Type 0
Counts n r = (t : SweepSummary) × (v : World) × (r ≡ (ok t, v)) × (total t ≡ n)

handle-returns :
    {E S A : Type 0} (a : A) (r : Result E A × S)
    → (o : A) × (v : S) × (handle (λ e s. (ok a, s)) r ≡ (ok o, v))
handle-returns a (ok o, s) = (o, s, refl)
handle-returns a (err e, s) = (a, s, refl)

module _ (setting : Setting) (draws : Draws) where
  swept_outcome-returns :
      (n : ℕ) (row : PromotionJournalEntry) (w : World)
      → (o : EntryOutcome) × (v : World) × (swept_outcome setting draws n row w ≡ (ok o, v))
  unfolding attempt pure
  swept_outcome-returns n row w = handle-returns was_failed _

  sweep_rows-Counts :
      (n : ℕ) (rows : List PromotionJournalEntry) (t : SweepSummary) (w : World)
      → Counts (total t + length rows) (sweep_rows setting draws n rows t w)
  unfolding sweep_rows pure ◌>>=◌
  sweep_rows-Counts n [] t w = (t, w, refl, omega arith)
  sweep_rows-Counts n (row ∷ rows) t w =
      let (o, v, returns) = swept_outcome-returns n row w in
      let (t', u, swept, sum) = sweep_rows-Counts (suc n) rows (count o t) v in
      (t', u, rw returns swept, omega (arith, sum, total-count o t))

  -- A sweep returns, whatever its executions throw, and the six counts of its summary add up to the
  -- number of entries that were proposed or promoting when it began.
  pub sweep-total :
      (w : World)
      → Counts
          (length (list_by_state (proposed ∷ promoting ∷ []) w.journal))
          (sweep setting draws w)
  unfolding sweep gets ◌>>=◌
  sweep-total w =
      let rows = list_by_state (proposed ∷ promoting ∷ []) w.journal in
      let (t, v, swept, sum) = sweep_rows-Counts 0 rows empty_sweep w in
      (t, v, swept, omega (arith, sum))

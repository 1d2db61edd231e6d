-- ===== src/Promotion/Progress.antt =====
-- How `executeEntry` of core/src/memory/promotion.service.ts leaves the entry that it executes.
use icos_v.Base.{
  String, true, false, not, ◌||◌, Option, none, some, ◌≡◌, ◌⊎◌, inl, inr, refl, arith, Bool-cases,
}
use icos_v.Base.Exec.{Clock, after, Result, ok, err}
use icos_v.Base.Program.{
  Leads, Keeps, Ends, Keeps-pure, Keeps-bind, Leads-bind_value, Leads-bind, Leads-from,
  Leads-attempt, Finishes, Finishes-bind, Finishes-keeps,
}
use icos_v.Journal
use icos_v.Journal.{
  PromotionJournalEntry, JournalState, promoting, committed, denied, failed, is_terminal, allowed,
  JournalRow, Options, to_entry, key, row_by_id, get_entry, move_row, set_state,
}
use icos_v.Journal.Outcomes.{repeats, set_state-eq, find-moved}
use icos_v.Claims.{MemoryCandidate}
use icos_v.Promotion.{Setting, World, of_journal, from_part, on_journal}
use icos_v.Promotion.Methods.{Fresh, EntryOutcome, mark, mark_as, no_options, is_unknown}
use icos_v.Promotion.Apply.{apply}
use icos_v.Promotion.Execute.{commit, promote_claimed, execute_origin}
use icos_v.Promotion.Frames.{
  Aside, index_new-Keeps, Aside-of, on_claims-Keeps, announce-Keeps, emit_committed-Keeps,
}
use icos_v.Promotion.Steps.{apply-Keeps}

abbrev pub IsOpen : String → Journal.Db → Type 0
IsOpen id s = (row : JournalRow) × (row_by_id id s ≡ some row) × (is_terminal row.state ≡ false)

-- The entry is committed, denied or failed.
abbrev pub IsOver : String → Journal.Db → Type 0
IsOver id s = (row : JournalRow) × (row_by_id id s ≡ some row) × (is_terminal row.state ≡ true)

abbrev IsGiven : Option PromotionJournalEntry → Type 0
IsGiven none = ⊥
IsGiven (some e) = Unit

set_state-IsOver :
    (clock : Clock) (id : String) (to : JournalState) (options : Options) (s : Journal.Db)
    → is_terminal to ≡ true
    → IsOpen id s
    → Ends (λ _. IsOver id) (λ _. ⊥) (set_state clock id to options s)
set_state-IsOver clock id to options s last (row, found, open_still) =
    let other : repeats to options row ≡ false = ground arith in
    let fine : (is_terminal row.state || not (allowed row.state to)) ≡ false = ground arith in
    rw (set_state-eq clock id to options s row found, other, fine)
      (move_row (clock 0) to options row, find-moved clock id to options s row found, last)

-- An entry that is over is left as it is.
set_state-closes :
    (clock : Clock) (id : String) (to : JournalState) (options : Options) (s : Journal.Db)
    → is_terminal to ≡ true
    → IsOpen id s ⊎ IsOver id s
    → Ends (λ _. IsOver id) (λ _. ⊥) (set_state clock id to options s)
set_state-closes clock id to options s last (inl open_still) =
    set_state-IsOver clock id to options s last open_still
set_state-closes clock id to options s last (inr (row, found, over)) =
    rw (set_state-eq clock id to options s row found) (elim (Bool-cases (repeats to options row)) [
      | inl again ↦ rw again (row, found, over)
      | inr other ↦
          let shut : (is_terminal row.state || not (allowed row.state to)) ≡ true = ground arith in
          rw (other, shut) (row, found, over)
    ])

set_state-promotes :
    (clock : Clock) (id : String) (s : Journal.Db)
    → IsOpen id s
    → Ends
        (λ answer s'. IsGiven answer × IsOpen id s')
        (λ _. ⊥)
        (set_state clock id promoting no_options s)
set_state-promotes clock id s (row, found, open_still) =
    rw (set_state-eq clock id promoting no_options s row found)
      (elim (Bool-cases (repeats promoting no_options row)) [
        | inl again ↦ rw again (tt, (row, found, open_still))
        | inr other ↦
            let fine : (is_terminal row.state || not (allowed row.state promoting)) ≡ false =
              ground arith in
            rw (other, fine)
              (
                tt,
                (
                  move_row (clock 0) promoting no_options row,
                  find-moved clock id promoting no_options s row found,
                  refl,
                ),
              )
      ])

on_journal-Ends :
    {A : Type 0} (R : A → Journal.Db → Type 0) (T : World → Type 0) (m : Journal.Repo A) (w : World)
    → Ends R (λ _. ⊥) (m w.journal)
    → Ends (λ a v. R a v.journal) T (on_journal m w)
unfolding on_journal
on_journal-Ends {A} R T m w h = go (m w.journal) h
  where
    go :
        (r : Result Journal.Error A × Journal.Db)
        → Ends R (λ _. ⊥) r
        → Ends (λ a v. R a v.journal) T (from_part of_journal (λ s. record w { journal = s }) r)
    go (ok a, s) q = q
    go (err e, s) q = absurd q

module _ (setting : Setting) (id : String) where
  abbrev Open : World → Type 0
  Open v = IsOpen id v.journal

  abbrev Over : World → Type 0
  Over v = IsOver id v.journal

  unfinished : Aside Open
  unfinished = Aside-of (λ _ _ s. IsOpen id s)

  finished : Aside Over
  finished = Aside-of (λ _ _ s. IsOver id s)

  -- Open or over.
  abbrev There : World → Type 0
  There v = IsOpen id v.journal ⊎ IsOver id v.journal

  closes-Over :
      (clock : Clock) (row : PromotionJournalEntry) (state : JournalState) (options : Options)
      (T : World → Type 0) (w : World)
      → row.id ≡ id
      → is_terminal state ≡ true
      → There w
      → Ends (λ _. Over) T (on_journal (set_state clock row.id state options) w)
  closes-Over clock row state options T w name last h = rw name (
      on_journal-Ends (λ _. IsOver id) T _ w
        (set_state-closes clock id state options w.journal last h))

  pub mark-Over :
      (clock : Clock) (row : PromotionJournalEntry) (state : JournalState) (o : EntryOutcome)
      (detail : String)
      → row.id ≡ id
      → is_terminal state ≡ true
      → Leads There (mark_as clock row state o detail) Over
  unfolding mark
  mark-Over clock row state o detail name last =
      Leads-bind There Over Over _ _
        (Leads-bind_value There (λ _. Over) Over _ _
          (λ v h. closes-Over clock row state _ Over v name last h)
          (λ updated.
            Keeps-bind _ _ (announce-Keeps finished state updated) (λ _. Keeps-pure updated)))
        (λ v h. h) (λ entry. Keeps-pure _)

  apply-Open :
      (clock : Clock) (fresh : Fresh) (c : MemoryCandidate) (row : PromotionJournalEntry)
      → Keeps Open (apply setting clock fresh c row)
  apply-Open = apply-Keeps unfinished setting (λ A m. on_claims-Keeps Open m (λ v h. h))

  commit-Over :
      (clock : Clock) (fresh : Fresh) (c : MemoryCandidate) (row : PromotionJournalEntry)
      → row.id ≡ id
      → Finishes Open (commit setting clock fresh c row) Over There
  commit-Over clock fresh c row name =
      Finishes-bind Open Open Over There _ _
        (Finishes-keeps Open There _ (λ v h. inl h) (apply-Open clock fresh c row))
        (λ applied.
          Finishes-bind Open Over Over There _ _
            (record {
              at = λ v h. closes-Over (after 4 clock) row committed _ There v name refl (inl h);
            })
            (λ entry.
              Finishes-keeps Over There _ (λ v h. inr h)
                (Keeps-bind _ _ (index_new-Keeps finished setting applied) (λ _.
                  Keeps-bind _ _ (emit_committed-Keeps finished entry _) (λ _. Keeps-pure _)))))

  promote_claimed-Over :
      (clock : Clock) (fresh : Fresh) (c : MemoryCandidate) (row : PromotionJournalEntry)
      (answer : Option PromotionJournalEntry)
      → row.id ≡ id
      → Leads (λ v. IsGiven answer × Open v) (promote_claimed setting clock fresh c row answer) Over
  promote_claimed-Over clock fresh c row none name = record {
    at = λ v (no_answer, _). absurd no_answer;
  }
  promote_claimed-Over clock fresh c row (some _) name =
      Leads-attempt _ There Over _ _ (λ v (_, h). (commit-Over clock fresh c row name).at v h)
        (λ e. mark-Over _ row failed _ _ name refl)

  pub execute_origin-Over :
      (clock : Clock) (fresh : Fresh) (row : PromotionJournalEntry) (c : MemoryCandidate)
      → row.id ≡ id
      → Leads Open (execute_origin setting clock fresh row c) Over
  execute_origin-Over clock fresh row c name = elim (Bool-cases (is_unknown c.source_role)) [
    | inl nameless ↦
        rw nameless
          (Leads-from Open There Over _ (λ v h. inl h) (mark-Over clock row failed _ _ name refl))
    | inr known ↦ rw known (
        Leads-bind_value Open (λ answer v. IsGiven answer × Open v) Over _ _
          (λ v h. rw name (
            on_journal-Ends (λ answer s. IsGiven answer × IsOpen id s) Over _ v
              (set_state-promotes clock id v.journal h)))
          (λ answer. promote_claimed-Over (after 1 clock) fresh c row answer name))
  ]

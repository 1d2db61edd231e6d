-- ===== src/Promotion/Settling.antt =====
-- Executing an entry of core/src/memory/promotion.service.ts once, and again.
use icos_v.Base.{
  String, true, false, Option, none, some, ◌≡◌, ◌⊎◌, inl, inr, refl, ap, ◌∙◌, Bool-cases,
}
use icos_v.Base.Exec.{Exec, Clock, after, ok}
use icos_v.Base.Program.{pure, gets, ◌>>=◌, Leads, Leads-bind_value, Leads-from}
use icos_v.Base.Table.{find-key}
use icos_v.Approvals
use icos_v.Approvals.{
  ApprovalStatus, pending, approved, rejected, expired, cancelled, ApprovalRow, ApprovalRequest,
  find_approval, get_approval,
}
use icos_v.Journal
use icos_v.Journal.{
  PromotionJournalEntry, JournalState, denied, failed, is_terminal, JournalRow, to_entry, key,
  row_by_id, get_entry,
}
use icos_v.Claims.{MemoryCandidate}
use icos_v.Promotion.{Setting, World, PromotionError}
use icos_v.Promotion.Methods.{Fresh, Execution, EntryOutcome, mark_as, was_skipped, truthy}
use icos_v.Promotion.Execute.{
  follow_status, follow_approval, execute_gated, execute_candidate, execute_row, execute_entry,
}
use icos_v.Promotion.Authority.{Reads, on_approvals-Reads}
use icos_v.Promotion.Progress.{IsOpen, IsOver, mark-Over, execute_origin-Over}

-- The stored approval of the id waits for an answer.
abbrev pub IsPending : String → Approvals.Db → Type 0
IsPending id db = (a : ApprovalRow) × (find_approval id db ≡ some a) × (a.status ≡ pending)

-- The approval that the entry holds is pending, and the journal is as before.
abbrev pub IsWaiting : Option String → Journal.Db → World → Type 0
IsWaiting approval before v =
    (id : String) × (truthy approval ≡ some id) × IsPending id v.approvals.db × (v.journal ≡ before)

module _ (setting : Setting) (row : PromotionJournalEntry) (w : World) where
  abbrev Start : World → Type 0
  Start v = IsOpen row.id v.journal × (v.journal ≡ w.journal)

  abbrev Done : World → Type 0
  Done v = IsOver row.id v.journal ⊎ IsWaiting row.approval_id w.journal v

  over-Done :
      {m : Exec PromotionError World Execution}
      → Leads (λ v. IsOpen row.id v.journal) m (λ v. IsOver row.id v.journal)
      → Leads Start m Done
  over-Done h = record { at = λ v (open_still, _). inl (h.at v open_still) }

  mark-Done :
      (clock : Clock) (state : JournalState) (o : EntryOutcome) (detail : String)
      → is_terminal state ≡ true
      → Leads Start (mark_as clock row state o detail) Done
  mark-Done clock state o detail last = over-Done (
      Leads-from _ _ _ _ (λ v h. inl h)
        (mark-Over setting row.id clock row state o detail refl last))

  follow_status-Done :
      (clock : Clock) (fresh : Fresh) (c : MemoryCandidate) (id : String) (status : ApprovalStatus)
      → truthy row.approval_id ≡ some id
      → Leads
          (λ v.
            Start v
            × ((a : ApprovalRow) × (find_approval id v.approvals.db ≡ some a)
                × (a.status ≡ status)))
          (follow_status setting clock fresh row c status)
          Done
  unfolding pure
  follow_status-Done clock fresh c id pending held = record {
    at = λ v ((open_still, same), waits). inr (id, held, waits, same);
  }
  follow_status-Done clock fresh c id approved held =
      Leads-from _ Start Done _ (λ v (h, _). h)
        (over-Done (execute_origin-Over setting row.id clock fresh row c refl))
  follow_status-Done clock fresh c id rejected held =
      Leads-from _ Start Done _ (λ v (h, _). h) (mark-Done clock denied _ _ refl)
  follow_status-Done clock fresh c id expired held =
      Leads-from _ Start Done _ (λ v (h, _). h) (mark-Done clock denied _ _ refl)
  follow_status-Done clock fresh c id cancelled held =
      Leads-from _ Start Done _ (λ v (h, _). h) (mark-Done clock denied _ _ refl)

  follow_approval-Done :
      (clock : Clock) (fresh : Fresh) (c : MemoryCandidate) (id : String)
      (approval : Option ApprovalRequest)
      → truthy row.approval_id ≡ some id
      → Leads
          (λ v. Start v × Reads id approval v.approvals.db)
          (follow_approval setting clock fresh row c approval)
          Done
  follow_approval-Done clock fresh c id none held =
      Leads-from _ Start Done _ (λ v (h, _). h) (mark-Done clock failed _ _ refl)
  follow_approval-Done clock fresh c id (some q) held =
      follow_status-Done clock fresh c id q.status held

  execute_gated-Done :
      (clock : Clock) (fresh : Fresh) (c : MemoryCandidate) (approval : Option String)
      → truthy row.approval_id ≡ approval
      → Leads Start (execute_gated setting clock fresh row c approval) Done
  execute_gated-Done clock fresh c none held =
      over-Done (execute_origin-Over setting row.id clock fresh row c refl)
  execute_gated-Done clock fresh c (some id) held =
      Leads-bind_value Start (λ o v. Start v × Reads id o v.approvals.db) Done _ _
        (λ v h. on_approvals-Reads Start Done clock id v (λ db. h))
        (λ approval. follow_approval-Done (after 2 clock) fresh c id approval held)

  execute_candidate-Done :
      (clock : Clock) (fresh : Fresh) (c : Option MemoryCandidate)
      → Leads Start (execute_candidate setting clock fresh row c) Done
  execute_candidate-Done clock fresh none = mark-Done clock failed _ _ refl
  execute_candidate-Done clock fresh (some c) = execute_gated-Done clock fresh c _ refl

  execute_row-Done :
      (clock : Clock) (fresh : Fresh)
      → is_terminal row.state ≡ false
      → Leads Start (execute_row setting clock fresh (some row)) Done
  unfolding gets
  execute_row-Done clock fresh open_still = rw open_still (
      Leads-bind_value Start (λ _. Start) Done _ _ (λ v h. h)
        (λ c. execute_candidate-Done clock fresh c))

-- An entry that is neither committed, denied nor failed, once executed, is one of these, or the
-- approval that it holds is stored as pending and the journal is as it was. So an entry that holds no
-- approval, or one that is not pending, ends with its first execution, whatever throws in between.
pub execute_entry-Done :
    (setting : Setting) (clock : Clock) (fresh : Fresh) (id : String) (w : World) (row : JournalRow)
    → row_by_id id w.journal ≡ some row
    → is_terminal row.state ≡ false
    → IsOver id (execute_entry setting clock fresh id w).1.journal
      ⊎ IsWaiting row.approval_id w.journal (execute_entry setting clock fresh id w).1
unfolding execute_entry get_entry gets ◌>>=◌
execute_entry-Done setting clock fresh id w row found open_still =
    let name = find-key key id w.journal.promotion_journal row found in
    rw (found, get_entry, ← name)
      ((execute_row-Done setting (to_entry row) w clock fresh open_still).at w
        ((row, ap (λ i. row_by_id i w.journal) name ∙ found, open_still), refl))

over_shut :
    (id : String) (s : Journal.Db)
    → IsOver id s
    → (e : PromotionJournalEntry) × (get_entry id s ≡ some e) × (is_terminal e.state ≡ true)
unfolding get_entry
over_shut id s (row, found, over) = (to_entry row, rw (found, get_entry) refl, over)

execute_entry_over :
    (setting : Setting) (clock : Clock) (fresh : Fresh) (id : String) (w : World)
    → IsOver id w.journal
    → (e : PromotionJournalEntry) × (execute_entry setting clock fresh id w
        ≡ (ok (record { entry = some e; outcome = was_skipped }), w))
unfolding execute_entry gets ◌>>=◌ pure
execute_entry_over setting clock fresh id w over =
    let (e, found, shut) = over_shut id w.journal over in (e, rw (found, shut) refl)

-- Executing an entry that is there a second time, after an execution that may itself have been the
-- first or a later one, writes nothing at all, unless the approval that the entry holds was stored as
-- pending when the first of the two ended.
pub execute_entry_again :
    (setting : Setting) (clock clock' : Clock) (fresh fresh' : Fresh) (id : String) (w : World)
    (row : JournalRow)
    → row_by_id id w.journal ≡ some row
    → IsWaiting row.approval_id w.journal (execute_entry setting clock fresh id w).1
      ⊎ ((execute_entry setting clock' fresh' id (execute_entry setting clock fresh id w).1).1
          ≡ (execute_entry setting clock fresh id w).1)
execute_entry_again setting clock clock' fresh fresh' id w row found =
    elim (Bool-cases (is_terminal row.state)) [
      | inl shut ↦
          let (e, same) = execute_entry_over setting clock fresh id w (row, found, shut) in
          let (e', same') = execute_entry_over setting clock' fresh' id w (row, found, shut) in
          inr (rw same (ap (λ x. x.1) same'))
      | inr open_still ↦ elim (execute_entry-Done setting clock fresh id w row found open_still) [
        | inl over ↦
            let (e, same) = execute_entry_over setting clock' fresh' id _ over in
            inr (ap (λ x. x.1) same)
        | inr waits ↦ inl waits
      ]
    ]

-- ===== src/Promotion/Authority.antt =====
-- The approvals that `executeEntry` of core/src/memory/promotion.service.ts goes by.
use icos_v.Base.{
  String, Option, none, some, ◌≡◌, ◌⊎◌, inl, inr, refl, sym, ap, ◌∙◌, arith, Bool-cases,
  Option-cases,
}
use icos_v.Base.Exec.{Clock, after, Result, ok, err}
use icos_v.Base.Program.{
  pure, gets, ◌>>=◌, Leads, Keeps, Ends, Keeps-pure, Keeps-gets, Keeps-bind, Leads-bind_value,
  Leads-bind, Leads-from,
}
use icos_v.Approvals
use icos_v.Approvals.{
  ApprovalStatus, pending, approved, rejected, expired, cancelled, ApprovalRow, ApprovalRequest,
  find_approval, get_approval, close_row, was_expired,
}
use icos_v.Approvals.Outcomes.{
  get_approval-eq, get_approval-missing, is_due, expire, find-closed_self,
}
use icos_v.Base.Table.{find-key}
use icos_v.Journal.{
  PromotionJournalEntry, JournalState, denied, failed, is_terminal, JournalRow, to_entry, row_by_id,
  get_entry,
}
use icos_v.Claims
use icos_v.Claims.{MemoryCandidate, Claim}
use icos_v.Promotion.{
  Setting, World, PromotionError, from_part, of_approvals, on_claims, on_approvals,
}
use icos_v.Promotion.Methods.{Fresh, Execution, EntryOutcome, mark_as, truthy}
use icos_v.Promotion.Execute.{
  execute_origin, follow_status, follow_approval, execute_candidate, execute_row, execute_entry,
}
use icos_v.Promotion.Frames.{Neutral, Neutral-of, mark-Keeps, on_claims-Keeps}
use icos_v.Promotion.Steps.{apply-Keeps}
use icos_v.Promotion.Entries.{execute_origin-Keeps}

-- The stored approval of the id is granted.
abbrev pub IsGranted : String → Approvals.Db → Type 0
IsGranted id db = (a : ApprovalRow) × (find_approval id db ≡ some a) × (a.status ≡ approved)

-- The request that is read is the stored one.
abbrev pub Reads : String → Option ApprovalRequest → Approvals.Db → Type 0
Reads id none db = Unit {0}
Reads id (some q) db = (a : ApprovalRow) × (find_approval id db ≡ some a) × (a.status ≡ q.status)

pub get_approval-Reads :
    (clock : Clock) (id : String) (db : Approvals.Db)
    → Ends (λ o db'. Reads id o db') (λ _. ⊥) (get_approval clock id db)
get_approval-Reads clock id db = elim (Option-cases (find_approval id db)) [
  | inl missing ↦ rw (get_approval-missing clock id db missing) tt
  | inr (a, found) ↦
      rw (get_approval-eq clock id db a found) (elim (Bool-cases (is_due (clock 0) a)) [
        | inl due ↦ rw due (
          close_row expired (clock 1) a,
          ap (λ i. find_approval i (expire a (clock 1) db))
                (sym (find-key Approvals.key id db.approvals a found))
              ∙ find-closed_self a.id a.session_id expired was_expired (clock 1) db a
                  (ap (λ i. find_approval i db) (find-key Approvals.key id db.approvals a found)
                    ∙ found)
                  (ground arith),
          refl,
        )
        | inr in_time ↦ rw in_time (a, found, refl)
      ])
]

-- `Q` does not look at the approvals.
pub on_approvals-Reads :
    (Q T : World → Type 0) (clock : Clock) (id : String) (w : World)
    → ((db : Approvals.Db) → Q (record w { approvals = record w.approvals { db = db } }))
    → Ends (λ o v. Q v × Reads id o v.approvals.db) T (on_approvals (get_approval clock id) w)
unfolding on_approvals
on_approvals-Reads Q T clock id w q =
    go (get_approval clock id w.approvals.db) (get_approval-Reads clock id w.approvals.db)
  where
    go :
        (r : Result Approvals.Error (Option ApprovalRequest) × Approvals.Db)
        → Ends (λ o db. Reads id o db) (λ _. ⊥) r
        → Ends
            (λ o v. Q v × Reads id o v.approvals.db)
            T
            (from_part of_approvals (λ s. record w { approvals = record w.approvals { db = s } }) r)
    go (ok o, db) h = (q db, h)
    go (err e, db) h = absurd h

module _ (setting : Setting) (w : World) (id : String) where
  abbrev Unchanged : World → Type 0
  Unchanged v = v.claims ≡ w.claims

  abbrev Allowed : World → Type 0
  Allowed v = (v.claims ≡ w.claims) ⊎ IsGranted id v.approvals.db

  unchanged : Neutral Unchanged
  unchanged = Neutral-of (λ s _. s ≡ w.claims)

  granted : Neutral (λ v. IsGranted id v.approvals.db)
  granted = Neutral-of (λ _ server. IsGranted id server.db)

  calls-granted :
      (A : Type 0) (m : Claims.Repo A) → Keeps (λ v. IsGranted id v.approvals.db) (on_claims m)
  calls-granted A m = on_claims-Keeps (λ v. IsGranted id v.approvals.db) m (λ v h. h)

  origin-Allowed :
      (clock : Clock) (fresh : Fresh) (row : PromotionJournalEntry) (c : MemoryCandidate)
      → Leads (λ v. IsGranted id v.approvals.db) (execute_origin setting clock fresh row c) Allowed
  origin-Allowed clock fresh row c = record {
    at = λ v h. inr (
        (execute_origin-Keeps granted setting (apply-Keeps granted.aside setting calls-granted)
            clock fresh row c).at
          v h);
  }

  mark-Allowed :
      (clock : Clock) (row : PromotionJournalEntry) (state : JournalState) (o : EntryOutcome)
      (detail : String)
      → Leads Unchanged (mark_as clock row state o detail) Allowed
  mark-Allowed clock row state o detail = record {
    at = λ v h. inl (
        (Keeps-bind _ _ (mark-Keeps unchanged clock row state detail)
            (λ entry. Keeps-pure {P = Unchanged} (record { entry = entry; outcome = o }))).at
          v h);
  }

  pure-Allowed : (e : Execution) → Leads {E = PromotionError} Unchanged (pure e) Allowed
  unfolding pure
  pure-Allowed e = record { at = λ v h. inl h }

  follow_status-Allowed :
      (clock : Clock) (fresh : Fresh) (row : PromotionJournalEntry) (c : MemoryCandidate)
      (status : ApprovalStatus)
      → Leads
          (λ v.
            Unchanged v
            × ((a : ApprovalRow) × (find_approval id v.approvals.db ≡ some a)
                × (a.status ≡ status)))
          (follow_status setting clock fresh row c status)
          Allowed
  follow_status-Allowed clock fresh row c pending =
      Leads-from _ Unchanged Allowed _ (λ v (h, _). h) (pure-Allowed _)
  follow_status-Allowed clock fresh row c approved =
      Leads-from _ (λ v. IsGranted id v.approvals.db) Allowed _ (λ v (_, h). h)
        (origin-Allowed clock fresh row c)
  follow_status-Allowed clock fresh row c rejected =
      Leads-from _ Unchanged Allowed _ (λ v (h, _). h) (mark-Allowed clock row denied _ _)
  follow_status-Allowed clock fresh row c expired =
      Leads-from _ Unchanged Allowed _ (λ v (h, _). h) (mark-Allowed clock row denied _ _)
  follow_status-Allowed clock fresh row c cancelled =
      Leads-from _ Unchanged Allowed _ (λ v (h, _). h) (mark-Allowed clock row denied _ _)

  follow_approval-Allowed :
      (clock : Clock) (fresh : Fresh) (row : PromotionJournalEntry) (c : MemoryCandidate)
      (approval : Option ApprovalRequest)
      → Leads
          (λ v. Unchanged v × Reads id approval v.approvals.db)
          (follow_approval setting clock fresh row c approval)
          Allowed
  follow_approval-Allowed clock fresh row c none =
      Leads-from _ Unchanged Allowed _ (λ v (h, _). h) (mark-Allowed clock row failed _ _)
  follow_approval-Allowed clock fresh row c (some q) =
      follow_status-Allowed clock fresh row c q.status

  execute_candidate-Allowed :
      (clock : Clock) (fresh : Fresh) (row : PromotionJournalEntry) (c : Option MemoryCandidate)
      → truthy row.approval_id ≡ some id
      → Leads Unchanged (execute_candidate setting clock fresh row c) Allowed
  execute_candidate-Allowed clock fresh row none held = mark-Allowed clock row failed _ _
  execute_candidate-Allowed clock fresh row (some c) held = rw held (
      Leads-bind_value Unchanged (λ o v. Unchanged v × Reads id o v.approvals.db) Allowed _ _
        (λ v h. on_approvals-Reads Unchanged Allowed clock id v (λ db. h))
        (λ approval. follow_approval-Allowed (after 2 clock) fresh row c approval))

  execute_row-Allowed :
      (clock : Clock) (fresh : Fresh) (row : PromotionJournalEntry)
      → truthy row.approval_id ≡ some id
      → Leads Unchanged (execute_row setting clock fresh (some row)) Allowed
  execute_row-Allowed clock fresh row held = elim (Bool-cases (is_terminal row.state)) [
    | inl shut ↦ rw shut (pure-Allowed _)
    | inr free ↦ rw free (
        Leads-bind Unchanged Unchanged Allowed _ _ (Keeps-gets _) (λ v h. inl h)
          (λ c. execute_candidate-Allowed clock fresh row c held))
  ]

-- Executing an entry that holds the id of an approval: the claims are as before, or that approval is
-- stored as approved afterwards. An id that is the empty text counts as none.
pub execute_entry-authorised :
    (setting : Setting) (clock : Clock) (fresh : Fresh) (id approval_id : String) (w : World)
    (row : JournalRow)
    → row_by_id id w.journal ≡ some row
    → truthy row.approval_id ≡ some approval_id
    → ((execute_entry setting clock fresh id w).1.claims ≡ w.claims)
      ⊎ IsGranted approval_id (execute_entry setting clock fresh id w).1.approvals.db
unfolding execute_entry get_entry gets ◌>>=◌
execute_entry-authorised setting clock fresh id approval_id w row found held =
    rw (found, get_entry)
      ((execute_row-Allowed setting w approval_id clock fresh (to_entry row) held).at w refl)

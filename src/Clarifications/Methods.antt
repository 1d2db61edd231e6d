-- ===== src/Clarifications/Methods.antt =====
-- Each method of core/src/clarifications/sqlite-clarification.repository.ts and the machine of `Spec`.
use icos_v.Base.{
  ℕ, String, true, false, some, List, [], ◌∷◌, ◌≡◌, refl, sym, subst, inl, inr, arith, Bool-cases,
  Option-cases, All, All-weaken,
}
use icos_v.Base.Exec.{Clock}
use icos_v.Base.Table.{changes, find-key, changes_found, changes_missing, update_unchanged}
use icos_v.Approvals.{has_session}
use icos_v.Clarifications.{
  Ending, answers, cancels, expires, is_pending, ClarificationRow, NewClarification, Db, key,
  find_clarification, pending_with, close_row, get_clarification, create_clarification,
  close_clarification, past, mark_expired, mark_all, is_permitted,
}
use icos_v.Clarifications.Outcomes.{
  closed, inserted, find-inserted, is_due, get_clarification-eq, get_clarification-missing,
  close_clarification-eq, close_clarification-missing, create_clarification-eq,
  create_clarification-refused,
}
use icos_v.Clarifications.Spec.{
  Question, Refines, IsTimely, past-IsOverAt, past-IsOpenAt, close-Refines, insert-Refines,
}
use icos_v.Clarifications.Late.{IsLate, mark_expired-IsLate}

-- A user closes a question by an answer or a cancellation.
abbrev IsAsked : Ending → Type 0
IsAsked expires = ⊥
IsAsked _ = Unit {0}

in_time_IsTimely :
    (to : Ending) (now : ℕ) (row : ClarificationRow)
    → IsAsked to
    → is_pending row.status ≡ true
    → is_due now row ≡ false
    → IsTimely to now row.expires_at
in_time_IsTimely (answers a) now row asked p h = past-IsOpenAt now row.expires_at (ground arith)
in_time_IsTimely cancels now row asked p h = past-IsOpenAt now row.expires_at (ground arith)
in_time_IsTimely expires now row asked p h = absurd asked

module _ (seen : ℕ → Type 0) (start : String → Question) where
  expire-Refines :
      (row : ClarificationRow) (id : String) (now at : ℕ) (s : Db)
      → find_clarification id s ≡ some row
      → is_due at row ≡ true
      → seen at
      → Refines seen start s
      → Refines seen start (closed row.id row.session_id expires now s)
  expire-Refines row id now at s e due read =
      let e' =
        subst (λ k. find_clarification k s ≡ some row)
          (sym (find-key key id s.clarifications row e)) e in
      close-Refines seen start row.id row.session_id expires now at s row e' (ground arith) refl
        read (past-IsOverAt at row.expires_at (ground arith))

  mark_expired-Refines :
      (now : ℕ) (row : ClarificationRow) (s : Db)
      → seen now
      → IsLate now s row
      → Refines seen start s
      → Refines seen start (mark_expired now row s)
  mark_expired-Refines now row s read late h = elim (Option-cases (find_clarification row.id s)) [
    | inl missing ↦
        let none_left =
          changes_missing key (λ r. is_pending r.status) row.id s.clarifications missing in
        rw
          (
            none_left,
            update_unchanged (pending_with row.id) (close_row expires now) s.clarifications
                none_left,
          )
          h
    | inr (r, e) ↦
        let count = changes_found key (λ x. is_pending x.status) row.id s.clarifications r h.0 e in
        elim (Bool-cases (is_pending r.status)) [
          | inl p ↦
              rw (count, p)
                (close-Refines seen start row.id row.session_id expires now now s r e p refl read
                  (past-IsOverAt now r.expires_at (late r e p)) h)
          | inr q ↦
              let none_left : changes (pending_with row.id) s.clarifications ≡ 0 = rw (count, q) in
              rw
                (
                  none_left,
                  update_unchanged (pending_with row.id) (close_row expires now) s.clarifications
                      none_left,
                )
                h
        ]
  ]

  pub mark_all-Refines :
      (now : ℕ) (rows : List ClarificationRow) (s : Db)
      → seen now
      → All (IsLate now s) rows
      → Refines seen start s
      → Refines seen start (mark_all now rows s)
  unfolding mark_all
  mark_all-Refines now [] s read late h = h
  mark_all-Refines now (row ∷ rows) s read (late, rest) h =
      mark_all-Refines now rows (mark_expired now row s) read
        (All-weaken _ _ rows (λ other l. mark_expired-IsLate now row other s l) rest)
        (mark_expired-Refines now row s read late h)

  pub get_clarification-Refines :
      (clock : Clock) (id : String) (s : Db)
      → ((n : ℕ) → seen (clock n))
      → Refines seen start s
      → Refines seen start (get_clarification clock id s).1
  get_clarification-Refines clock id s reads h = elim (Option-cases (find_clarification id s)) [
    | inl missing ↦ rw (get_clarification-missing clock id s missing) h
    | inr (row, e) ↦
        rw (get_clarification-eq clock id s row e) (elim (Bool-cases (is_due (clock 0) row)) [
          | inl due ↦ rw due (expire-Refines row id (clock 1) (clock 0) s e due (reads 0) h)
          | inr in_time ↦ rw in_time h
        ])
  ]

  pub create_clarification-Refines :
      (clock : Clock) (id : String) (input : NewClarification) (s : Db)
      → ((n : ℕ) → seen (clock n))
      → Refines seen start s
      → Refines seen start (create_clarification clock id input s).1
  create_clarification-Refines clock id input s reads h =
      elim (Bool-cases (has_session input.session_id s.sessions)) [
        | inl known ↦ elim (Option-cases (find_clarification id s)) [
          | inl fresh ↦
              let s' : Db = inserted id (clock 0) input s in
              let h' = insert-Refines seen start id (clock 0) input s fresh h in
              rw (create_clarification-eq clock id input s known fresh)
                (elim (Bool-cases (past (clock 1) input.expires_at)) [
                  | inl due ↦ rw due (
                      expire-Refines _ id (clock 2) (clock 1) s'
                        (find-inserted id (clock 0) input s fresh) due (reads 1) h')
                  | inr in_time ↦ rw in_time h'
                ])
          | inr (row, e) ↦ rw (create_clarification-refused clock id input s (inr (λ q. cc))) h
        ]
        | inr unknown ↦ rw (create_clarification-refused clock id input s (inl unknown)) h
      ]

  pub close_clarification-Refines :
      (clock : Clock) (id : String) (to : Ending) (s : Db)
      → IsAsked to
      → ((n : ℕ) → seen (clock n))
      → Refines seen start s
      → Refines seen start (close_clarification clock id to s).1
  close_clarification-Refines clock id to s asked reads h =
      elim (Option-cases (find_clarification id s)) [
        | inl missing ↦ rw (close_clarification-missing clock id to s missing) h
        | inr (row, e) ↦
            rw (close_clarification-eq clock id to s row h.0 e)
              (elim (Bool-cases (is_due (clock 0) row)) [
                | inl due ↦ rw due (expire-Refines row id (clock 1) (clock 0) s e due (reads 0) h)
                | inr in_time ↦ rw in_time (elim (Bool-cases (is_pending row.status)) [
                  | inl p ↦ rw p (elim (Bool-cases (is_permitted to row.options)) [
                    | inl permitted ↦ rw permitted (
                        close-Refines seen start id row.session_id to (clock 2) (clock 0) s row e p
                          permitted (reads 0) (in_time_IsTimely to (clock 0) row asked p in_time) h)
                    | inr refused ↦ rw refused h
                  ])
                  | inr q ↦ rw q h
                ])
              ])
      ]

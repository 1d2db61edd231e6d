-- ===== src/Clarifications/Late.antt =====
-- The questions that the loop of `expireLapsed` (core/src/clarifications/sqlite-clarification.repository.ts)
-- has selected are past their deadlines.
use icos_v.Base.{
  ℕ, String, true, false, Option, some, ◌≡◌, refl, sym, subst, inl, inr, arith, Option-cases, All,
  All-weaken, ap, ◌∙◌, if◌then◌else◌, Bool,
}
use mathlib.Core.Option
use mathlib.Core.Option.{some_inj}
use mathlib.Core.Bool.{false≢true}
use icos_v.Base.Table.{find, update, find-update, All-find, All-select, select, UniqueKeys}
use icos_v.Clarifications.{
  expires, is_pending, ClarificationRow, Db, key, find_clarification, pending_with, close_row, past,
  mark_expired, lapsed,
}

-- The stored row with the id of this one is past its deadline if it is pending.
abbrev pub IsLate : ℕ → Db → ClarificationRow → Type 0
IsLate now s row =
    (r : ClarificationRow)
    → find_clarification row.id s ≡ some r
    → is_pending r.status ≡ true
    → past now r.expires_at ≡ true

is_late_lapsed :
    (now : ℕ) (session : Option String) (row r : ClarificationRow)
    → lapsed now session row ≡ true
    → some row ≡ some r
    → past now r.expires_at ≡ true
is_late_lapsed now session row r h same =
    subst (λ o. past now o.expires_at ≡ true) (some_inj.0 same) (ground arith)

pub selected-IsLate :
    (now : ℕ) (session : Option String) (s : Db)
    → UniqueKeys key s.clarifications
    → All (IsLate now s) (select (lapsed now session) s.clarifications)
selected-IsLate now session s unique =
    All-weaken _ _ (select (lapsed now session) s.clarifications)
      (λ row (h, found) r there p. is_late_lapsed now session row r h (sym found ∙ there))
      (All-select (λ row. find_clarification row.id s ≡ some row) (lapsed now session)
        s.clarifications (All-find key _ s.clarifications unique (λ r e. e)))

expired_or_same :
    (now : ℕ) (marked : Bool) (r r' : ClarificationRow)
    → (if marked then close_row expires now r else r) ≡ r'
    → is_pending r'.status ≡ true
    → r ≡ r'
expired_or_same now true r r' e p =
    absurd (false≢true (subst (λ x. is_pending x.status ≡ true) (sym e) p))
expired_or_same now false r r' e p = e

mark_expired-rows :
    (now : ℕ) (row : ClarificationRow) (s : Db)
    → (mark_expired now row s).clarifications
      ≡ update (pending_with row.id) (close_row expires now) s.clarifications
mark_expired-rows now row s = ground arith

pub mark_expired-IsLate :
    (now : ℕ) (other row : ClarificationRow) (s : Db)
    → IsLate now s row
    → IsLate now (mark_expired now other s) row
mark_expired-IsLate now other row s late r' there p =
    elim (Option-cases (find_clarification row.id s)) [
      | inl missing ↦ cc (sym (after ∙ ap (Option.map _) missing) ∙ there)
      | inr (r, found) ↦
          let same =
            expired_or_same now (pending_with other.id r) r r'
              (some_inj.0 (sym (after ∙ ap (Option.map _) found) ∙ there)) p in
          late r' (found ∙ ap some same) p
    ]
  where
    after :
        find_clarification row.id (mark_expired now other s)
        ≡ Option.map
            (λ r. if pending_with other.id r then close_row expires now r else r)
            (find_clarification row.id s)
    after =
        ap (find key row.id) (mark_expired-rows now other s)
        ∙ find-update key (pending_with other.id) (close_row expires now) (λ r. refl) row.id
            s.clarifications

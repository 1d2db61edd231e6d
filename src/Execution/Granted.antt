-- ===== src/Execution/Granted.antt =====
-- When `resume` of core/src/tools/tool-execution.service.ts may execute, and what its reads and guards tell.
use icos_v.Base.{
  String, Bool, true, false, ◌&&◌, Option, none, some, str_eq, if◌then◌else◌, ◌≡◌, inl, inr, ◌∙◌,
  sym, refl, eq_iff, Bool-cases, Option-cases,
}
use icos_v.Base.Exec.{Clock}
use icos_v.Base.Program.{pure, throw, ◌>>=◌, Ends}
use icos_v.Approvals
use icos_v.Approvals.{
  ApprovalStatus, pending, approved, rejected, expired, cancelled, ApprovalRow, ApprovalRequest,
  find_approval, get_approval,
}
use icos_v.Approvals.Outcomes.{get_approval-eq, get_approval-missing, is_due}
use icos_v.Ledger
use icos_v.Ledger.{Outcome, find_request, is_awaiting}
use icos_v.Execution.{World, ServiceError, required}
use icos_v.Execution.Methods.{is_approved}
use mathlib.Core.Bool.{false≢true}

eq_of_is_approved : (s : ApprovalStatus) → is_approved s ≡ true → s ≡ approved
eq_of_is_approved pending h = absurd (false≢true h)
eq_of_is_approved approved h = refl
eq_of_is_approved rejected h = absurd (false≢true h)
eq_of_is_approved expired h = absurd (false≢true h)
eq_of_is_approved cancelled h = absurd (false≢true h)

-- The stored approval of the id is granted, and is of the session.
abbrev pub IsGrantedBy : String → String → Approvals.Db → Type 0
IsGrantedBy id session db =
    (a : ApprovalRow) × (find_approval id db ≡ some a)
    × (a.status ≡ approved)
    × (a.session_id ≡ session)

-- An approval that is read as granted is stored as granted.
abbrev pub ReadsGranted : String → Approvals.Db → Option ApprovalRequest → Type 0
ReadsGranted id db none = Unit {0}
ReadsGranted id db (some q) = is_approved q.status ≡ true → IsGrantedBy id q.session_id db

pub get_approval-ReadsGranted :
    (clock : Clock) (id : String) (db : Approvals.Db)
    → Ends (λ o _. ReadsGranted id db o) (λ _. Unit {0}) (get_approval clock id db)
get_approval-ReadsGranted clock id db = elim (Option-cases (find_approval id db)) [
  | inl missing ↦ rw (get_approval-missing clock id db missing) tt
  | inr (a, found) ↦
      rw (get_approval-eq clock id db a found) (elim (Bool-cases (is_due (clock 0) a)) [
        | inl due ↦ rw due (λ h. absurd (false≢true h))
        | inr in_time ↦ rw in_time (λ h. (a, found, eq_of_is_approved a.status h, refl))
      ])
]

-- The request is of the session, it waits for an approval, and the one that it stores is granted and is
-- of the session too.
abbrev pub IsAuthorised : (request_id session_id : String) → World → Type 0
IsAuthorised request_id session_id w =
    (row : Ledger.Row) × (find_request request_id w.ledger ≡ some row)
    × (row.session_id ≡ session_id)
    × (is_awaiting row.state ≡ true)
    × (approval_id : String) × (row.approval_id ≡ some approval_id)
    × IsGrantedBy approval_id session_id w.approvals.db

pub eq_of_both : (x y : String) (b : Bool) → (str_eq x y && b) ≡ true → x ≡ y
eq_of_both x y b h = elim (Bool-cases (str_eq x y)) [
  | inl same ↦ (eq_iff x y).0 same
  | inr other ↦ absurd (false≢true (sym (rw other refl) ∙ h))
]

pub required-found :
    (Q : World → Type 0) (id : String) (w : World)
    → Q w
    → Ends (λ row v. (v ≡ w) × (find_request id w.ledger ≡ some row)) Q (required id w)
unfolding required ◌>>=◌
required-found Q id w q = elim (Option-cases (find_request id w.ledger)) [
  | inl missing ↦ rw missing q
  | inr (row, found) ↦ rw found (refl, refl)
]

-- A guard that throws.
pub guard-Ends :
    (Q : World → Type 0) (b : Bool) (e : ServiceError) (w : World)
    → Q w
    → Ends (λ _ v. (v ≡ w) × (b ≡ true)) Q ((if b then pure tt else throw e) w)
unfolding pure throw
guard-Ends Q true e w q = (refl, refl)
guard-Ends Q false e w q = q

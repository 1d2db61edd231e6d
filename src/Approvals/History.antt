-- ===== src/Approvals/History.antt =====
-- The event table tells the life of every approval: it is created once and closed at most once.
use mathlib.Core.List.{map-append, append-nil}
use mathlib.Core.Option
use icos_v.Base.{
  ℕ, String, ◌≡◌, refl, subst, true, Option, none, some, List, [], ◌∷◌, ◌++◌, map, arith, str_eq,
  eq_iff, if◌then◌else◌,
}
use icos_v.Base.Table.{select, select-append, find-key, find-update, UniqueKeys, UniqueKeys-update}
use icos_v.Approvals.{
  ApprovalStatus, pending, approved, rejected, expired, cancelled, ApprovalEventType, was_created,
  was_approved, was_rejected, was_expired, was_cancelled, is_pending, ApprovalRow, Db, key,
  find_approval, record_event, pending_with, close_row, close_pending, list_events,
}

abbrev pub types_of : String → Db → List ApprovalEventType
types_of id s = map (λ e. e.event) (list_events id s)

abbrev pub closing : ApprovalStatus → List ApprovalEventType
closing pending = []
closing approved = was_approved ∷ []
closing rejected = was_rejected ∷ []
closing expired = was_expired ∷ []
closing cancelled = was_cancelled ∷ []

-- The events that a row in its state has behind it.
abbrev pub lifecycle : Option ApprovalRow → List ApprovalEventType
lifecycle none = []
lifecycle (some row) = was_created ∷ closing row.status

pub types-record :
    (id j session : String) (event : ApprovalEventType) (at : ℕ) (s : Db)
    → types_of j (record_event id session event at s)
      ≡ types_of j s ++ (if str_eq id j then event ∷ [] else [])
unfolding list_events select
types-record id j session event at s = rw (select-append, map-append) (ground arith)

-- Closing a pending row: the UPDATE and the event that goes with it.
abbrev pub closed : String → String → ApprovalStatus → ApprovalEventType → ℕ → Db → Db
closed id session to event now s = record_event id session event now (close_pending id to now s)

pub find-closed :
    (id j session : String) (to : ApprovalStatus) (event : ApprovalEventType) (now : ℕ) (s : Db)
    → find_approval j (closed id session to event now s)
      ≡ Option.map (λ r. if pending_with id r then close_row to now r else r) (find_approval j s)
find-closed id j session to event now s =
    find-update key (pending_with id) (close_row to now) (λ r. refl) j s.approvals

-- What the tables of a running server satisfy.
pub record History (s : Db) : Type 0 where
  pub unique : UniqueKeys key s.approvals
  pub log : (id : String) → types_of id s ≡ lifecycle (find_approval id s)

closed-lifecycle :
    (id j : String) (to : ApprovalStatus) (event : ApprovalEventType) (now : ℕ) (row : ApprovalRow)
    (o : Option ApprovalRow)
    → ((r : ApprovalRow) → o ≡ some r → r.id ≡ j)
    → (id ≡ j → o ≡ some row)
    → is_pending row.status ≡ true
    → closing to ≡ event ∷ []
    → lifecycle o ++ (if str_eq id j then event ∷ [] else [])
      ≡ lifecycle (Option.map (λ r. if pending_with id r then close_row to now r else r) o)
closed-lifecycle id j to event now row none k f p c = ground (arith, eq_iff id j)
closed-lifecycle id j to event now row (some r) k f p c =
    ground (arith, eq_iff id j, eq_iff r.id id, k r refl, append-nil (lifecycle (some r)))

closed-log :
    (id j session : String) (to : ApprovalStatus) (event : ApprovalEventType) (now : ℕ) (s : Db)
    (row : ApprovalRow)
    → find_approval id s ≡ some row
    → is_pending row.status ≡ true
    → closing to ≡ event ∷ []
    → types_of j s ≡ lifecycle (find_approval j s)
    → types_of j (closed id session to event now s)
      ≡ lifecycle (find_approval j (closed id session to event now s))
unfolding list_events
closed-log id j session to event now s row e p c h =
    rw (find-closed, types-record, h)
      (closed-lifecycle id j to event now row (find_approval j s) (find-key key j s.approvals)
        (λ q. subst (λ k. find_approval k s ≡ some row) q e) p c)

pub closed-History :
    (id session : String) (to : ApprovalStatus) (event : ApprovalEventType) (now : ℕ) (s : Db)
    (row : ApprovalRow)
    → find_approval id s ≡ some row
    → is_pending row.status ≡ true
    → closing to ≡ event ∷ []
    → History s
    → History (closed id session to event now s)
closed-History id session to event now s row e p c h = record {
  unique =
      UniqueKeys-update key (pending_with id) (close_row to now) (λ r. refl) s.approvals h.unique;
  log = λ j. closed-log id j session to event now s row e p c (h.log j);
}

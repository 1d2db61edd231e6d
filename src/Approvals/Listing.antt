-- ===== src/Approvals/Listing.antt =====
-- What a listing shows: a request whose deadline has come is never shown as pending.
use mathlib.Core.Option
use mathlib.Core.List.{Perm}
use icos_v.Base.{
  ℕ, ◌≤◌, String, ◌≡◌, refl, sym, ◌∙◌, inl, inr, Bool, true, false, ◌&&◌, Option, some, List, [],
  ◌∷◌, map, arith, str_eq, eq_iff, if◌then◌else◌, Option-cases, All, All-weaken,
}
use icos_v.Base.Exec.{ok, Clock}
use icos_v.Base.Sort.{sort, sort-perm, sort-All, Chain, Chain-weaken, sort-Chain, InOrder}
use icos_v.Base.Table.{
  select, update, find-key, find-update, UniqueKeys, UniqueKeys-update, has_key, has_key-select,
  All-find, All-select,
}
use icos_v.Approvals.{
  ApprovalStatus, pending, expired, is_pending, ApprovalRow, Db, key, find_approval, pending_with,
  close_row, past, to_request, mark_expired, mark_all, expire_lapsed, list_approvals, lapsed,
  listed, row_before, text_leb,
}

abbrev touched : ℕ → Bool → ApprovalRow → ApprovalRow
touched now marked r = if marked && is_pending r.status then close_row expired now r else r

mark_expired-rows :
    (now : ℕ) (row : ApprovalRow) (s : Db)
    → (mark_expired now row s).approvals
      ≡ update (pending_with row.id) (close_row expired now) s.approvals
mark_expired-rows now row s = ground arith

find-mark_expired :
    (now : ℕ) (row : ApprovalRow) (id : String) (s : Db)
    → find_approval id (mark_expired now row s)
      ≡ Option.map (touched now (str_eq row.id id)) (find_approval id s)
find-mark_expired now row id s =
    rw
      (mark_expired-rows, find-update key (pending_with row.id) (close_row expired now) (λ r. refl))
      (elim (Option-cases (find_approval id s)) [
        | inl missing ↦ rw missing
        | inr (r, e) ↦
            rw e (
              ground (arith, find-key key id s.approvals r e, eq_iff r.id row.id, eq_iff row.id id))
      ])

find-mark_all :
    (now : ℕ) (rows : List ApprovalRow) (id : String) (s : Db)
    → find_approval id (mark_all now rows s)
      ≡ Option.map (touched now (has_key key id rows)) (find_approval id s)
unfolding mark_all has_key
find-mark_all now [] id s = ground (arith, Option-cases (find_approval id s))
find-mark_all now (row ∷ rows) id s =
    rw (find-mark_all now rows id (mark_expired now row s), find-mark_expired now row id s)
      (ground (arith, Option-cases (find_approval id s)))

mark_all-UniqueKeys :
    (now : ℕ) (rows : List ApprovalRow) (s : Db)
    → UniqueKeys key s.approvals
    → UniqueKeys key (mark_all now rows s).approvals
unfolding mark_all
mark_all-UniqueKeys now [] s u = u
mark_all-UniqueKeys now (row ∷ rows) s u = mark_all-UniqueKeys now rows (mark_expired now row s) (
    rw mark_expired-rows (
      UniqueKeys-update key (pending_with row.id) (close_row expired now) (λ r. refl) s.approvals
        u))

touched_not_lapsed :
    (now : ℕ) (session : Option String) (marked : Bool) (r : ApprovalRow)
    → (lapsed now session r ≡ true → marked ≡ true)
    → lapsed now session (touched now marked r) ≡ false
touched_not_lapsed now session marked r h = ground arith

-- No lapsed row of the session is left.
expire_lapsed-none :
    (now : ℕ) (session : Option String) (s : Db) (r : ApprovalRow)
    → find_approval r.id (expire_lapsed now session s) ≡ some r
    → lapsed now session r ≡ false
unfolding expire_lapsed
expire_lapsed-none now session s r e = elim (Option-cases (find_approval r.id s)) [
  | inl missing ↦ ground (arith, find-mark_all now rows r.id s)
  | inr (r', e') ↦
      let eq =
        touched_not_lapsed now session (has_key key r.id rows) r'
          (has_key-select key (lapsed now session) r.id s.approvals r' e') in
      let same : some (touched now (has_key key r.id rows) r') ≡ some r =
        sym (rw e' at (find-mark_all now rows r.id s)) ∙ e in
      ground (arith, eq, same)
]
  where
    rows : List ApprovalRow
    rows = select (lapsed now session) s.approvals

-- Created no later, and where at the same time with an id that is not the greater one.
abbrev pub IsListedBefore : ApprovalRow → ApprovalRow → Type 0
IsListedBefore a b =
    (a.created_at ≤ b.created_at)
    × (a.created_at ≡ b.created_at → text_leb b.id a.id ≡ true → text_leb a.id b.id ≡ true)

InOrder-IsListedBefore : (a b : ApprovalRow) → InOrder row_before a b → IsListedBefore a b
InOrder-IsListedBefore a b h = (ground (arith, h), (λ same later. ground (arith, h)))

-- A listing returns the requests that match its filters after the lapsed ones of its scope have been
-- marked, in order of creation and those of the same time in order of their ids, and shows no pending
-- request whose deadline has come.
-- Approval ids are unique.
pub list_approvals_current :
    (clock : Clock) (session : Option String) (status : Option ApprovalStatus) (s : Db)
    → UniqueKeys key s.approvals
    → (shown : List ApprovalRow) × (list_approvals clock session status s
        ≡ (ok (map to_request shown), expire_lapsed (clock 0) session s))
      × Chain IsListedBefore shown
      × Perm shown (select (listed session status) (expire_lapsed (clock 0) session s).approvals)
      × All (λ r. r.status ≡ pending → past (clock 0) r.expires_at ≡ false) shown
unfolding list_approvals
list_approvals_current clock session status s u = (
  sort row_before found,
  refl,
  Chain-weaken _ _ (sort row_before found) InOrder-IsListedBefore (sort-Chain row_before found),
  sort-perm row_before found,
  sort-All row_before _ found (
      All-weaken _ _ found (λ r h. ground (arith, h))
        (All-select _ (listed session status) rows (
          All-find key (λ r. lapsed (clock 0) session r ≡ false) rows
            (unfold expire_lapsed in
              mark_all-UniqueKeys (clock 0) (select (lapsed (clock 0) session) s.approvals) s u)
            (expire_lapsed-none (clock 0) session s)))),
)
  where
    rows : List ApprovalRow
    rows = (expire_lapsed (clock 0) session s).approvals

    found : List ApprovalRow
    found = select (listed session status) rows

-- ===== src/Ledger/Moves.antt =====
-- How a row may change: the state machine of an invocation, as a relation between a row and the row
-- under the same id after a call.
use icos_v.Base.{
  ℕ, String, Bool, true, false, ◌||◌, none, some, if◌then◌else◌, ◌≡◌, inl, inr, refl, Bool-cases,
}
use icos_v.Base.Exec.{bind-keeps, ◌>>=◌}
use icos_v.Base.Table.{passes, find-update, UniqueKeys, UniqueKeys-update}
use icos_v.Ledger.{
  ValidationOutcome, Outcome, final_claimed, LedgerState, released, Row, Db, Repo, key,
  find_request, is_validated, is_awaiting, is_executing, is_done, is_released, is_final_pending,
  is_final_claimed, checks, write,
}
use icos_v.Ledger.Claims.{invalidate_row, execute_row}
use icos_v.Ledger.Finishes.{Mirror, mirror_state, FinalAnswer, final_of, finish_row, lost_row}

abbrev pub is_claimable : LedgerState → Bool
is_claimable state = is_validated state || is_awaiting state

pub data Move (r r' : Row) : Type 0 where
  stays : r' ≡ r → Move r r'
  claims :
      (token : String)
      → is_claimable r.state ≡ true
      → r.execution_token ≡ none
      → r' ≡ execute_row token r
      → Move r r'
  is_invalidated :
      (validation : ValidationOutcome)
      → is_claimable r.state ≡ true
      → r' ≡ invalidate_row validation r
      → Move r r'
  ends : (outcome : Outcome) → is_executing r.state ≡ true → r' ≡ finish_row outcome r → Move r r'
  is_lost :
      is_executing r.state ≡ true → is_released r.ownership ≡ true → r' ≡ lost_row r → Move r r'
  mirrored :
      (to : Mirror)
      → is_awaiting r.state ≡ true
      → r' ≡ record r { state = mirror_state to }
      → Move r r'
  releases : is_executing r.state ≡ true → r' ≡ record r { ownership = released } → Move r r'
  claims_final :
      (token : String)
      → is_done r.state ≡ true
      → is_final_pending r.final ≡ true
      → r' ≡ record r { final = final_claimed; final_token = some token }
      → Move r r'
  ends_final :
      (answer : FinalAnswer)
      → is_final_claimed r.final ≡ true
      → r' ≡ record r { final = final_of answer }
      → Move r r'
  writes_transcript :
      r.transcript_written ≡ false → r' ≡ record r { transcript_written = true } → Move r r'

-- Request ids stay unique, and every row is still there, moved at most once.
abbrev pub Grows : Db → Db → Type 0
Grows s s' =
    (UniqueKeys key s.tool_requests → UniqueKeys key s'.tool_requests)
    × ((id : String) (r : Row)
        → find_request id s ≡ some r
        → (r' : Row) × (find_request id s' ≡ some r') × Move r r')

pub Grows-refl : (s : Db) → Grows s s
Grows-refl s = ((λ u. u), (λ id r e. (r, e, stays refl)))

module _ (size : Outcome → ℕ) where
  pub write-Grows :
      (p : Row → Bool) (f : Row → Row) (s t : Db)
      → t.tool_requests ≡ s.tool_requests
      → ((r : Row) → key (f r) ≡ key r)
      → ((r : Row) → p r ≡ true → Move r (f r))
      → Grows s (write size p f t).1
  write-Grows p f s t same keeps moves =
      rw (same, write)
        (elim (Bool-cases (passes p (λ r. checks size (f r)) s.tool_requests)) [
          | inl fine ↦ rw fine (
            UniqueKeys-update key p f keeps s.tool_requests,
            (λ id r e. (
              (if p r then f r else r),
              rw (find-update key p f keeps, e) refl,
              elim (Bool-cases (p r)) [ inl h ↦ rw h (moves r h) | inr n ↦ rw n (stays refl) ],
            )),
          )
          | inr violated ↦ rw violated (Grows-refl s)
        ])

  -- A write, and what follows it without writing.
  pub write_then-Grows :
      {A : Type 0} (p : Row → Bool) (f : Row → Row) (k : ℕ → Repo A) (s : Db)
      → ((n : ℕ) (t : Db) → (k n t).1 ≡ t)
      → ((r : Row) → key (f r) ≡ key r)
      → ((r : Row) → p r ≡ true → Move r (f r))
      → Grows s ((write size p f >>= k) s).1
  write_then-Grows p f k s same keeps moves =
      bind-keeps (Grows s) (write size p f) k s same (write-Grows p f s s refl keeps moves)

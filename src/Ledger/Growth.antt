-- ===== src/Ledger/Growth.antt =====
-- Every method of the ledger moves every row along the state machine.
use icos_v.Base.{ℕ, String, Bool, true, some, ◌≡◌, inl, inr, refl, arith, Option-cases}
use icos_v.Ledger.{
  ToolExecutionInput, ValidationOutcome, Outcome, renamed, final_claimed, LedgerState, Row, Db,
  find_request, is_validated, is_awaiting, write,
}
use icos_v.Ledger.Claims.{
  release_owner, claim_transcript, claim_final, claim_execution, invalidate_row, execute_row,
  at_start, unowned, owned_by, unwritten, final_due,
}
use icos_v.Ledger.Finishes.{
  exactly_one, finish_search, finish_tool, finish_rename, mirror_outcome,
  resolve_released_to_unknown, finish_final, Mirror, mirror_state, FinalAnswer, final_of,
  finish_row, executed_by, lost_row, given_up, parked, claimed_by, finish, retitle,
}
use icos_v.Ledger.Moves.{
  claims, is_invalidated, ends, is_lost, mirrored, releases, claims_final, ends_final,
  writes_transcript, is_claimable, Grows, Grows-refl, write-Grows, write_then-Grows,
}

module _ (size : Outcome → ℕ) where
  claim-cases :
      (P : Db → Type 0) (startable : Row → Bool) (start : LedgerState → Bool)
      (accepts : ValidationOutcome → Bool) (id token : String)
      (revalidate : ToolExecutionInput → ValidationOutcome) (s : Db)
      → P s
      → P (write size (unowned id start) (execute_row token) s).1
      → ((v : ValidationOutcome) → P (write size (at_start id start) (invalidate_row v) s).1)
      → P (claim_execution size startable start accepts id token revalidate s).1
  claim-cases P startable start accepts id token revalidate s unchanged claimed invalidated =
      elim (Option-cases (find_request id s)) [
        | inl missing ↦ rw missing unchanged
        | inr (row, found) ↦
            rw found (let inv = invalidated (revalidate row.input) in ground (arith, inv))
      ]

  pub claim_execution-Grows :
      (startable : Row → Bool) (start : LedgerState → Bool) (accepts : ValidationOutcome → Bool)
      (id token : String) (revalidate : ToolExecutionInput → ValidationOutcome) (s : Db)
      → ((x : LedgerState) → start x ≡ true → is_claimable x ≡ true)
      → Grows s (claim_execution size startable start accepts id token revalidate s).1
  claim_execution-Grows startable start accepts id token revalidate s claimable =
      claim-cases (Grows s) startable start accepts id token revalidate s (Grows-refl s)
        (write-Grows size (unowned id start) (execute_row token) s s refl (λ r. refl)
          (λ r h. claims token (claimable r.state (ground arith)) (ground arith) refl))
        (λ v.
          write-Grows size (at_start id start) (invalidate_row v) s s refl (λ r. refl)
            (λ r h. is_invalidated v (claimable r.state (ground arith)) refl))

  pub validated_claimable : (x : LedgerState) → is_validated x ≡ true → is_claimable x ≡ true
  validated_claimable x h = ground arith

  pub awaiting_claimable : (x : LedgerState) → is_awaiting x ≡ true → is_claimable x ≡ true
  awaiting_claimable x h = ground arith

  pub release_owner-Grows : (token : String) (s : Db) → Grows s (release_owner size token s).1
  unfolding release_owner
  release_owner-Grows token s =
      write_then-Grows size (owned_by token) _ _ s (λ n t. refl) (λ r. refl)
        (λ r h. releases (ground arith) refl)

  pub claim_transcript-Grows : (id : String) (s : Db) → Grows s (claim_transcript size id s).1
  unfolding claim_transcript
  claim_transcript-Grows id s =
      write_then-Grows size (unwritten id) _ _ s (λ n t. refl) (λ r. refl)
        (λ r h. writes_transcript (ground arith) refl)

  exactly_one-keeps : (n : ℕ) (t : Db) → (exactly_one size n t).1 ≡ t
  exactly_one-keeps n t = ground arith

  -- Each of these either leaves the ledger alone or writes it once.
  module _ (P : Db → Type 0) (s : Db) (unchanged : P s) where
    finish-cases :
        (id token : String) (outcome : Outcome)
        → P (write size (executed_by id token) (finish_row outcome) s).1
        → P (finish size id token outcome s).1
    finish-cases id token outcome written = ground arith

    finish_final-cases :
        (id token : String) (answer : FinalAnswer)
        → P (write size (claimed_by id token) (λ r. record r { final = final_of answer }) s).1
        → P (finish_final size id token answer s).1
    unfolding finish_final
    finish_final-cases id token answer written = ground arith

    claim_final-cases :
        (id token : String)
        → P
            (write size
              (final_due id)
              (λ r. record r { final = final_claimed; final_token = some token })
              s).1
        → P (claim_final size id token s).1
    unfolding claim_final
    claim_final-cases id token written = ground arith

    mirror_outcome-cases :
        (id : String) (to : Mirror)
        → P (write size (parked id) (λ r. record r { state = mirror_state to }) s).1
        → P (mirror_outcome size id to s).1
    unfolding mirror_outcome
    mirror_outcome-cases id to written = ground arith

    resolve_released_to_unknown-cases :
        (id : String)
        → P (write size (given_up id) lost_row s).1
        → P (resolve_released_to_unknown size id s).1
    unfolding resolve_released_to_unknown
    resolve_released_to_unknown-cases id written = ground arith

    finish_rename-cases :
        (now : ℕ) (id token session title : String)
        → P
            (write size
              (executed_by id token)
              (finish_row (renamed session title))
              (retitle now session title s).1).1
        → P (finish_rename size now id token session title s).1
    unfolding finish_rename
    finish_rename-cases now id token session title written = ground arith

  finish-Grows :
      (id token : String) (outcome : Outcome) (s : Db) → Grows s (finish size id token outcome s).1
  finish-Grows id token outcome s = finish-cases (Grows s) s (Grows-refl s) id token outcome (
      write-Grows size (executed_by id token) (finish_row outcome) s s refl (λ r. refl)
        (λ r h. ends outcome (ground arith) refl))

  retitle-requests :
      (now : ℕ) (session title : String) (s : Db)
      → (retitle now session title s).1.tool_requests ≡ s.tool_requests
  retitle-requests now session title s = ground arith

  -- The ledger's methods that are one write.
  pub finish_search-Grows :
      (id token : String) (outcome : Outcome) (s : Db)
      → Grows s (finish_search size id token outcome s).1
  unfolding finish_search
  finish_search-Grows = finish-Grows

  pub finish_tool-Grows :
      (id token : String) (outcome : Outcome) (s : Db)
      → Grows s (finish_tool size id token outcome s).1
  unfolding finish_tool
  finish_tool-Grows = finish-Grows

  pub finish_rename-Grows :
      (now : ℕ) (id token session title : String) (s : Db)
      → Grows s (finish_rename size now id token session title s).1
  finish_rename-Grows now id token session title s =
      finish_rename-cases (Grows s) s (Grows-refl s) now id token session title (
        write-Grows size (executed_by id token) (finish_row (renamed session title)) s
          (retitle now session title s).1 (retitle-requests now session title s) (λ r. refl)
          (λ r h. ends (renamed session title) (ground arith) refl))

  pub finish_final-Grows :
      (id token : String) (answer : FinalAnswer) (s : Db)
      → Grows s (finish_final size id token answer s).1
  finish_final-Grows id token answer s =
      finish_final-cases (Grows s) s (Grows-refl s) id token answer (
        write-Grows size (claimed_by id token) (λ r. record r { final = final_of answer }) s s refl
          (λ r. refl) (λ r h. ends_final answer (ground arith) refl))

  pub claim_final-Grows : (id token : String) (s : Db) → Grows s (claim_final size id token s).1
  claim_final-Grows id token s = claim_final-cases (Grows s) s (Grows-refl s) id token (
      write-Grows size (final_due id)
        (λ r. record r { final = final_claimed; final_token = some token }) s s refl (λ r. refl)
        (λ r h. claims_final token (ground arith) (ground arith) refl))

  pub mirror_outcome-Grows :
      (id : String) (to : Mirror) (s : Db) → Grows s (mirror_outcome size id to s).1
  mirror_outcome-Grows id to s = mirror_outcome-cases (Grows s) s (Grows-refl s) id to (
      write-Grows size (parked id) (λ r. record r { state = mirror_state to }) s s refl (λ r. refl)
        (λ r h. mirrored to (ground arith) refl))

  pub resolve_released_to_unknown-Grows :
      (id : String) (s : Db) → Grows s (resolve_released_to_unknown size id s).1
  resolve_released_to_unknown-Grows id s =
      resolve_released_to_unknown-cases (Grows s) s (Grows-refl s) id (
        write-Grows size (given_up id) lost_row s s refl (λ r. refl)
          (λ r h. is_lost (ground arith) (ground arith) refl))

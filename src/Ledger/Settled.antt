-- ===== src/Ledger/Settled.antt =====
-- What a call has settled, no later call unsettles: the outcome, the final answer, the transcript.
use icos_v.Base.{
  ℕ, String, Bool, true, false, not, ◌&&◌, Option, some, List, ◌≡◌, ◌≢◌, inl, inr, ap, subst, refl,
  arith, eq_iff, Option-cases,
}
use icos_v.Base.Exec.{ok}
use icos_v.Base.Table.{find-key, find-update, UniqueKeys, changes_found, changes_missing}
use icos_v.Ledger.{
  Outcome, final_pending, final_claimed, LedgerState, Row, Db, key, find_request, is_some, is_done,
  is_released, is_final_pending,
}
use icos_v.Ledger.Claims.{claim_transcript, claim_final, unwritten, final_due}
use icos_v.Ledger.Moves.{
  Move, stays, claims, is_invalidated, ends, is_lost, mirrored, releases, claims_final, ends_final,
  writes_transcript,
}
use icos_v.Ledger.Finishes.{answered, unanswered}
use icos_v.Ledger.Growth.{claim_transcript-Grows, claim_final-Grows}
use icos_v.Ledger.Runs.{run-UniqueKeys, Call, run, run-invariant}

Move-settled :
    (state : LedgerState) (x : Option Outcome) (r r' : Row)
    → is_done state ≡ true
    → Move r r'
    → (r.state ≡ state) × (r.execution ≡ x)
    → (r'.state ≡ state) × (r'.execution ≡ x)
Move-settled state x r r' d (stays e) h = rw e h
Move-settled state x r r' d (claims token c n e) h = ground arith
Move-settled state x r r' d (is_invalidated v c e) h = ground arith
Move-settled state x r r' d (ends o c e) h = ground arith
Move-settled state x r r' d (is_lost c y e) h = ground arith
Move-settled state x r r' d (mirrored to a e) h = ground arith
Move-settled state x r r' d (releases c e) h = ground arith
Move-settled state x r r' d (claims_final token c p e) h = rw e h
Move-settled state x r r' d (ends_final answer c e) h = rw e h
Move-settled state x r r' d (writes_transcript w e) h = rw e h

-- The final answer of a finished invocation is no longer there to be claimed.
abbrev final_taken : Row → Bool
final_taken r = is_done r.state && not (is_final_pending r.final)

Move-final_taken : (r r' : Row) → Move r r' → final_taken r ≡ true → final_taken r' ≡ true
Move-final_taken r r' (stays e) h = rw e h
Move-final_taken r r' (claims token c n e) h = ground arith
Move-final_taken r r' (is_invalidated v c e) h = ground arith
Move-final_taken r r' (ends o c e) h = ground arith
Move-final_taken r r' (is_lost c y e) h = ground arith
Move-final_taken r r' (mirrored to a e) h = ground arith
Move-final_taken r r' (releases c e) h = ground arith
Move-final_taken r r' (claims_final token c p e) h = ground arith
Move-final_taken r r' (ends_final (answered a b) c e) h = ground arith
Move-final_taken r r' (ends_final (unanswered f) c e) h = ground arith
Move-final_taken r r' (writes_transcript w e) h = ground arith

Move-written : (r r' : Row) → Move r r' → r.transcript_written ≡ true → r'.transcript_written ≡ true
Move-written r r' (stays e) h = rw e h
Move-written r r' (claims token c n e) h = rw e h
Move-written r r' (is_invalidated v c e) h = rw e h
Move-written r r' (ends o c e) h = rw e h
Move-written r r' (is_lost c y e) h = rw e h
Move-written r r' (mirrored to a e) h = rw e h
Move-written r r' (releases c e) h = rw e h
Move-written r r' (claims_final token c p e) h = rw e h
Move-written r r' (ends_final answer c e) h = rw e h
Move-written r r' (writes_transcript w e) h = rw e refl

module _ (size : Outcome → ℕ) where
  -- The state and the outcome of a finished invocation are the same after any sequence of ledger
  -- calls.
  pub outcome_settled :
      (s : Db) (id : String) (row : Row)
      → find_request id s ≡ some row
      → is_done row.state ≡ true
      → (calls : List Call)
      → (row' : Row) × (find_request id (run size calls s) ≡ some row')
        × ((row'.state ≡ row.state) × (row'.execution ≡ row.execution))
  outcome_settled s id row found done calls =
      run-invariant size (λ r. (r.state ≡ row.state) × (r.execution ≡ row.execution))
        (λ r r'. Move-settled row.state row.execution r r' done) calls s id row found (refl, refl)

  claim_transcript_lost :
      (id : String) (s : Db) (row : Row)
      → UniqueKeys key s.tool_requests
      → find_request id s ≡ some row
      → row.transcript_written ≡ true
      → (claim_transcript size id s).0 ≢ ok true
  unfolding claim_transcript
  claim_transcript_lost id s row u found written =
      let n = changes_found key (λ r. not r.transcript_written) id s.tool_requests row u found in
      ground arith

  claim_transcript_won :
      (id : String) (s s' : Db)
      → UniqueKeys key s.tool_requests
      → claim_transcript size id s ≡ (ok true, s')
      → (row : Row) × (find_request id s ≡ some row)
        × (row.transcript_written ≡ false)
        × (find_request id s' ≡ some (record row { transcript_written = true }))
  unfolding claim_transcript
  claim_transcript_won id s s' u e = elim (Option-cases (find_request id s)) [
    | inl missing ↦
        let n = changes_missing key (λ r. not r.transcript_written) id s.tool_requests missing in
        ground arith
    | inr (row, found) ↦
        let n = changes_found key (λ r. not r.transcript_written) id s.tool_requests row u found in
        let now =
          find-update key (unwritten id) (λ r. record r { transcript_written = true }) (λ r. refl)
            id s.tool_requests in
        let same_id = find-key key id s.tool_requests row found in
        (row, found, ground arith, ground (arith, eq_iff row.request_id id))
  ]

  -- Once claim_transcript has returned true for a request, then after any sequence of ledger calls
  -- it does not return true for that request again.
  -- Request ids are unique to begin with.
  pub written_once :
      (s s' : Db) (id : String)
      → UniqueKeys key s.tool_requests
      → claim_transcript size id s ≡ (ok true, s')
      → (calls : List Call) → (claim_transcript size id (run size calls s')).0 ≢ ok true
  written_once s s' id u e calls =
      let (row, _, _, held) = claim_transcript_won id s s' u e in
      let (row', there, written) =
        run-invariant size (λ r. r.transcript_written ≡ true) Move-written calls s' id
          (record row { transcript_written = true }) held refl in
      let unique =
        subst (λ z. UniqueKeys key z.tool_requests) (ap (λ x. x.1) e)
          ((claim_transcript-Grows size id s).0 u) in
      claim_transcript_lost id (run size calls s') row' (run-UniqueKeys size calls s' unique) there
        written

  final_lost :
      (id token t : String) (s : Db) (row : Row)
      → UniqueKeys key s.tool_requests
      → find_request id s ≡ some row
      → final_taken row ≡ true
      → (claim_final size id token s).0 ≢ ok (some t)
  unfolding claim_final
  final_lost id token t s row u found taken =
      let n =
        changes_found key
          (λ r.
            is_done r.state
            && not (is_released r.ownership)
            && is_some r.execution
            && is_final_pending r.final
            && not (is_some r.final_token))
          id s.tool_requests row u found in
      ground arith

  -- A claim of the final answer that returns a token found the invocation finished and its final
  -- answer pending; the token is the new one and the row holds it.
  -- Request ids are unique to begin with.
  pub final_won :
      (id token t : String) (s s' : Db)
      → UniqueKeys key s.tool_requests
      → claim_final size id token s ≡ (ok (some t), s')
      → (row : Row) × (find_request id s ≡ some row)
        × (is_done row.state ≡ true)
        × (row.final ≡ final_pending)
        × (t ≡ token)
        × (find_request id s'
            ≡ some (record row { final = final_claimed; final_token = some token }))
  unfolding claim_final
  final_won id token t s s' u e = elim (Option-cases (find_request id s)) [
    | inl missing ↦ absurd (let gone = missing in ground arith)
    | inr (row, found) ↦
        let n =
          changes_found key
            (λ r.
              is_done r.state
              && not (is_released r.ownership)
              && is_some r.execution
              && is_final_pending r.final
              && not (is_some r.final_token))
            id s.tool_requests row u found in
        let now =
          find-update key (final_due id)
            (λ r. record r { final = final_claimed; final_token = some token }) (λ r. refl) id
            s.tool_requests in
        let same_id = find-key key id s.tool_requests row found in
        (
          row,
          found,
          ground arith,
          ground arith,
          ground arith,
          ground (arith, eq_iff row.request_id id),
        )
  ]

  -- Once a claim of a request's final answer has returned a token, then after any sequence of
  -- ledger calls no claim of that final answer returns one.
  -- Request ids are unique to begin with.
  pub answered_once :
      (id token t : String) (s s' : Db)
      → UniqueKeys key s.tool_requests
      → claim_final size id token s ≡ (ok (some t), s')
      → (calls : List Call) (token' t' : String)
      → (claim_final size id token' (run size calls s')).0 ≢ ok (some t')
  answered_once id token t s s' u e calls token' t' =
      let (row, _, done, _, _, held) = final_won id token t s s' u e in
      let (row', there, taken) =
        run-invariant size (λ r. final_taken r ≡ true) Move-final_taken calls s' id
          (record row { final = final_claimed; final_token = some token }) held (ground arith) in
      let unique =
        subst (λ z. UniqueKeys key z.tool_requests) (ap (λ x. x.1) e)
          ((claim_final-Grows size id token s).0 u) in
      final_lost id token' t' (run size calls s') row' (run-UniqueKeys size calls s' unique) there
        taken

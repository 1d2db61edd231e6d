-- ===== src/Ledger/Once.antt =====
-- An invocation is executed by at most one owner, and only as it was validated.
use icos_v.Base.{
  ℕ, String, Bool, true, false, not, ◌&&◌, Option, none, some, List, if◌then◌else◌, ◌≡◌, ◌≢◌, inl,
  inr, ◌∙◌, sym, subst, refl, arith, eq_iff, Option-cases,
}
use icos_v.Base.Exec.{Result, ok, err, pure, throw, or_throw, transaction, ◌>>=◌, ◌>>◌, roll_back}
use icos_v.Base.Table.{find, find-key, find-update, UniqueKeys, changes_found}
use icos_v.Ledger.{
  ToolExecutionInput, ValidationOutcome, Outcome, matches, renamed, mcp, failure, LedgerState, Row,
  Db, LedgerError, session_not_found, request_not_found, Repo, key, session_key, find_request,
  is_some, is_validated, is_awaiting, same_validation, eq_of_same_validation, require_session,
}
use icos_v.Ledger.Claims.{
  claim_search, claim_tool, claim_approved_tool, claim_rename, claim_rename_inline, claim_execution,
  claim_ready, execute_row, unowned,
}
use icos_v.Ledger.Finishes.{was_rejected, was_cancelled, was_expired}
use icos_v.Ledger.Moves.{
  Move, stays, claims, is_invalidated, ends, is_lost, mirrored, releases, claims_final, ends_final,
  writes_transcript, is_claimable,
}
use icos_v.Ledger.Claims.{
  claim_agreed, is_search, is_foreign, is_rename, from_validated, from_approved,
}
use icos_v.Ledger.Runs.{
  ClaimKind, of_search, of_tool, of_approved_tool, of_rename, of_rename_inline, Call, claim, run,
  run-invariant,
}

abbrev pub startable : ClaimKind → Row → Bool
startable of_search = from_validated
startable of_tool = from_validated
startable of_approved_tool = from_approved
startable of_rename = from_approved
startable of_rename_inline = from_validated

abbrev pub accepts : ClaimKind → ValidationOutcome → Bool
accepts of_search = is_search
accepts of_tool = is_foreign
accepts of_approved_tool = is_foreign
accepts of_rename = is_rename
accepts of_rename_inline = is_rename

abbrev starts : ClaimKind → LedgerState → Bool
starts of_search = is_validated
starts of_tool = is_validated
starts of_approved_tool = is_awaiting
starts of_rename = is_awaiting
starts of_rename_inline = is_validated

-- Once an invocation has left the states in which it can be claimed, it never returns to them.
pub Move-unclaimable :
    (r r' : Row) → Move r r' → is_claimable r.state ≡ false → is_claimable r'.state ≡ false
Move-unclaimable r r' (stays e) h = rw e h
Move-unclaimable r r' (claims token c n e) h = cc
Move-unclaimable r r' (is_invalidated v c e) h = cc
Move-unclaimable r r' (ends (matches j) x e) h = ground arith
Move-unclaimable r r' (ends (renamed a b) x e) h = ground arith
Move-unclaimable r r' (ends (mcp a b c) x e) h = ground arith
Move-unclaimable r r' (ends (failure f) x e) h = ground arith
Move-unclaimable r r' (is_lost x y e) h = ground arith
Move-unclaimable r r' (mirrored was_rejected a e) h = ground arith
Move-unclaimable r r' (mirrored was_cancelled a e) h = ground arith
Move-unclaimable r r' (mirrored was_expired a e) h = ground arith
Move-unclaimable r r' (releases x e) h = ground arith
Move-unclaimable r r' (claims_final token d p e) h = ground arith
Move-unclaimable r r' (ends_final answer c e) h = ground arith
Move-unclaimable r r' (writes_transcript w e) h = ground arith

pub startable-claimable :
    (kind : ClaimKind) (row : Row) → is_claimable row.state ≡ false → startable kind row ≡ false
startable-claimable of_search row h = ground arith
startable-claimable of_tool row h = ground arith
startable-claimable of_approved_tool row h = ground arith
startable-claimable of_rename row h = ground arith
startable-claimable of_rename_inline row h = ground arith

rolled :
    (s s' : Db) (r : Result LedgerError (Option String) × Db) (a : Option String)
    → roll_back s r ≡ (ok a, s')
    → r ≡ (ok a, s')
rolled s s' (ok b, z) a h = h
rolled s s' (err x, z) a h = cc

open_claim :
    (m : Repo (Option String)) (ready : Bool) (session t : String) (s s' : Db)
    → transaction (if ready then (require_session session >> m) else pure none) s
      ≡ (ok (some t), s')
    → (ready ≡ true) × (m s ≡ (ok (some t), s'))
open_claim m false session t s s' h = cc
open_claim m true session t s s' h = go (is_some (find session_key session s.sessions)) h
  where
    go :
        (b : Bool)
        → transaction ((λ z. if b then pure tt z else throw session_not_found z) >> m) s
          ≡ (ok (some t), s')
        → (true ≡ true) × (m s ≡ (ok (some t), s'))
    go true h = (refl, rolled s s' (m s) (some t) h)
    go false h = cc

module _ (size : Outcome → ℕ) where
  claim-eq :
      (kind : ClaimKind) (id token : String) (revalidate : ToolExecutionInput → ValidationOutcome)
      (s : Db)
      → claim size kind id token revalidate s
        ≡ claim_execution size (startable kind) (starts kind) (accepts kind) id token revalidate s
  unfolding claim_search claim_tool claim_approved_tool claim_rename claim_rename_inline
  claim-eq of_search id token v s = refl
  claim-eq of_tool id token v s = refl
  claim-eq of_approved_tool id token v s = refl
  claim-eq of_rename id token v s = refl
  claim-eq of_rename_inline id token v s = refl

  claim_refused :
      (kind : ClaimKind) (id token : String) (revalidate : ToolExecutionInput → ValidationOutcome)
      (s : Db) (row : Row)
      → find_request id s ≡ some row
      → is_claimable row.state ≡ false
      → claim size kind id token revalidate s ≡ (ok none, s)
  claim_refused kind id token revalidate s row e h =
      rw (claim-eq kind id token revalidate s, e, startable-claimable kind row h) refl

  claim_agreed_won :
      (start : LedgerState → Bool) (acc : ValidationOutcome → Bool) (id token t : String)
      (v : ValidationOutcome) (s s' : Db) (row : Row)
      → UniqueKeys key s.tool_requests
      → find_request id s ≡ some row
      → claim_agreed size start acc id token v row s ≡ (ok (some t), s')
      → (same_validation v row.validation ≡ true)
        × (acc v ≡ true)
        × (t ≡ token)
        × (find_request id s' ≡ some (execute_row token row))
  claim_agreed_won start acc id token t v s s' row u found =
      let n =
        changes_found key (λ r. start r.state && not (is_some r.execution_token)) id s.tool_requests
          row u found in
      let after =
        find-update key (unowned id start) (execute_row token) (λ r. refl) id s.tool_requests in
      let same_id = find-key key id s.tool_requests row found in
      ground (arith, eq_iff row.request_id id)

  missing_wins :
      (st : Row → Bool) (start : LedgerState → Bool) (acc : ValidationOutcome → Bool)
      (id token t : String) (revalidate : ToolExecutionInput → ValidationOutcome) (s s' : Db)
      → find_request id s ≡ none
      → claim_execution size st start acc id token revalidate s ≢ (ok (some t), s')
  missing_wins st start acc id token t revalidate s s' missing = rw missing (λ e. cc)

  claim_execution_won :
      (st : Row → Bool) (start : LedgerState → Bool) (acc : ValidationOutcome → Bool)
      (id token t : String) (revalidate : ToolExecutionInput → ValidationOutcome) (s s' : Db)
      → UniqueKeys key s.tool_requests
      → claim_execution size st start acc id token revalidate s ≡ (ok (some t), s')
      → (row : Row) × (find_request id s ≡ some row)
        × (st row ≡ true)
        × (revalidate row.input ≡ row.validation)
        × (acc row.validation ≡ true)
        × (t ≡ token)
        × (find_request id s' ≡ some (execute_row token row))
  claim_execution_won st start acc id token t revalidate s s' u e =
      elim (Option-cases (find_request id s)) [
        | inl missing ↦ absurd (missing_wins st start acc id token t revalidate s s' missing e)
        | inr (row, found) ↦
            let (starts_here, agreed) =
              open_claim (claim_agreed size start acc id token (revalidate row.input) row) (st row)
                row.session_id t s s'
                (subst
                  (λ o.
                    transaction
                      (or_throw o request_not_found >>= λ r.
                        if st r
                        then claim_ready size start acc id token revalidate r
                        else pure none)
                      s
                    ≡ (ok (some t), s'))
                  found e) in
            let (same, accepted, is_token, now) =
              claim_agreed_won start acc id token t (revalidate row.input) s s' row u found
                agreed in
            let eq = eq_of_same_validation (revalidate row.input) row.validation same in
            (row, found, starts_here, eq, subst (λ v. acc v ≡ true) eq accepted, is_token, now)
      ]

  -- A claim that returns a token found the request ready, with a validation that is still the
  -- stored one and of the kind that it executes; the token is the new one and the row holds it.
  -- Request ids are unique to begin with.
  pub claim_won :
      (kind : ClaimKind) (id token t : String) (revalidate : ToolExecutionInput → ValidationOutcome)
      (s s' : Db)
      → UniqueKeys key s.tool_requests
      → claim size kind id token revalidate s ≡ (ok (some t), s')
      → (row : Row) × (find_request id s ≡ some row)
        × (startable kind row ≡ true)
        × (revalidate row.input ≡ row.validation)
        × (accepts kind row.validation ≡ true)
        × (t ≡ token)
        × (find_request id s' ≡ some (execute_row token row))
  claim_won kind id token t revalidate s s' u e =
      claim_execution_won (startable kind) (starts kind) (accepts kind) id token t revalidate s s' u
        (sym (claim-eq kind id token revalidate s) ∙ e)

  -- Once a claim of a request has returned a token, then after any sequence of ledger calls every
  -- further claim of that request, of whatever kind and under whatever policy, returns none and
  -- writes nothing.
  -- Request ids are unique to begin with.
  pub claimed_once :
      (kind : ClaimKind) (id token t : String) (revalidate : ToolExecutionInput → ValidationOutcome)
      (s s' : Db)
      → UniqueKeys key s.tool_requests
      → claim size kind id token revalidate s ≡ (ok (some t), s')
      → (calls : List Call) (again : ClaimKind) (other : String)
        (policy : ToolExecutionInput → ValidationOutcome)
      → claim size again id other policy (run size calls s') ≡ (ok none, run size calls s')
  claimed_once kind id token t revalidate s s' u e calls again other policy =
      let (row, _, _, _, _, _, held) = claim_won kind id token t revalidate s s' u e in
      let (row', there, left) =
        run-invariant size (λ r. is_claimable r.state ≡ false) Move-unclaimable calls s' id
          (execute_row token row) held refl in
      claim_refused again id other policy (run size calls s') row' there left

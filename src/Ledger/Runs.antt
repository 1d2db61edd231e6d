-- ===== src/Ledger/Runs.antt =====
-- Any sequence of ledger calls.
use icos_v.Base.{ℕ, String, Option, none, some, List, [], ◌∷◌, ◌++◌, ◌≡◌, refl, arith}
use icos_v.Base.Table.{find-append, UniqueKeys, UniqueKeys-append}
use icos_v.Ledger.{
  ToolExecutionInput, ValidationOutcome, Outcome, Row, Db, Repo, key, find_request, is_validated,
  is_awaiting,
}
use icos_v.Ledger.Claims.{
  claim_search, claim_tool, claim_approved_tool, claim_rename, claim_rename_inline, release_owner,
  claim_transcript, claim_final,
}
use icos_v.Ledger.Finishes.{
  finish_search, finish_tool, finish_rename, mirror_outcome, resolve_released_to_unknown,
  finish_final, Mirror, FinalAnswer, parked,
}
use icos_v.Ledger.Register.{register, new_row}
use icos_v.Ledger.Moves.{Move, stays, Grows, Grows-refl}
use icos_v.Ledger.Growth.{
  claim_execution-Grows, validated_claimable, awaiting_claimable, release_owner-Grows,
  claim_transcript-Grows, finish_search-Grows, finish_tool-Grows, finish_rename-Grows,
  finish_final-Grows, claim_final-Grows, mirror_outcome-Grows, resolve_released_to_unknown-Grows,
}
use icos_v.Ledger.Claims.{is_search, is_foreign, is_rename, from_validated, from_approved}

-- The five claims of an execution.
pub data ClaimKind : Type 0 where
  of_search of_tool of_approved_tool of_rename of_rename_inline : ClaimKind

-- The name `revalidate` stands for the policy at the time of the call.
pub data Call : Type 0 where
  registers :
      ToolExecutionInput → (ToolExecutionInput → ValidationOutcome) → Option String → String → Call
  claims_execution :
      ClaimKind → (id token : String) → (ToolExecutionInput → ValidationOutcome) → Call
  gives_up : (token : String) → Call
  finishes_search finishes_tool : (id token : String) → Outcome → Call
  finishes_rename : ℕ → (id token session title : String) → Call
  mirrors_approval : (id : String) → Mirror → Call
  recovers : (id : String) → Call
  writes_turn : (id : String) → Call
  claims_answer : (id token : String) → Call
  finishes_answer : (id token : String) → FinalAnswer → Call

module _ (size : Outcome → ℕ) where
  abbrev pub claim :
      ClaimKind
      → (id token : String) → (ToolExecutionInput → ValidationOutcome)
      → Repo (Option String)
  claim of_search = claim_search size
  claim of_tool = claim_tool size
  claim of_approved_tool = claim_approved_tool size
  claim of_rename = claim_rename size
  claim of_rename_inline = claim_rename_inline size

  unfoldable pub step : Call → Db → Db
  step (registers input validate parked uuid) s = (register size input validate parked uuid s).1
  step (claims_execution kind id token revalidate) s = (claim kind id token revalidate s).1
  step (gives_up token) s = (release_owner size token s).1
  step (finishes_search id token outcome) s = (finish_search size id token outcome s).1
  step (finishes_tool id token outcome) s = (finish_tool size id token outcome s).1
  step (finishes_rename now id token session title) s =
      (finish_rename size now id token session title s).1
  step (mirrors_approval id to) s = (mirror_outcome size id to s).1
  step (recovers id) s = (resolve_released_to_unknown size id s).1
  step (writes_turn id) s = (claim_transcript size id s).1
  step (claims_answer id token) s = (claim_final size id token s).1
  step (finishes_answer id token answer) s = (finish_final size id token answer s).1

  unfoldable pub run : List Call → Db → Db
  run [] s = s
  run (c ∷ cs) s = run cs (step c s)

  insert_row-Grows :
      (row : Row) (s : Db)
      → find_request (key row) s ≡ none
      → Grows s (record s { tool_requests = s.tool_requests ++ row ∷ [] })
  insert_row-Grows row s fresh = (
    UniqueKeys-append key s.tool_requests row fresh,
    (λ id r e. (r, rw (find-append, e), stays refl)),
  )

  register-cases :
      (P : Db → Type 0) (input : ToolExecutionInput)
      (validate : ToolExecutionInput → ValidationOutcome) (parked : Option String) (uuid : String)
      (s : Db)
      → P s
      → (find_request input.request_id s ≡ none
          → P (record s {
            tool_requests = s.tool_requests ++ new_row input (validate input) parked uuid ∷ [];
          }))
      → P (register size input validate parked uuid s).1
  unfolding register
  register-cases P input validate parked uuid s unchanged inserted = ground arith

  claim-Grows :
      (kind : ClaimKind) (id token : String) (revalidate : ToolExecutionInput → ValidationOutcome)
      (s : Db)
      → Grows s (claim kind id token revalidate s).1
  unfolding claim_search claim_tool claim_approved_tool claim_rename claim_rename_inline
  claim-Grows of_search id token v s =
      claim_execution-Grows size from_validated is_validated is_search id token v s
        (validated_claimable size)
  claim-Grows of_tool id token v s =
      claim_execution-Grows size from_validated is_validated is_foreign id token v s
        (validated_claimable size)
  claim-Grows of_approved_tool id token v s =
      claim_execution-Grows size from_approved is_awaiting is_foreign id token v s
        (awaiting_claimable size)
  claim-Grows of_rename id token v s =
      claim_execution-Grows size from_approved is_awaiting is_rename id token v s
        (awaiting_claimable size)
  claim-Grows of_rename_inline id token v s =
      claim_execution-Grows size from_validated is_validated is_rename id token v s
        (validated_claimable size)

  -- Whatever a call does to the ledger, request ids stay unique and every row is still there and has
  -- moved along the state machine by one step at most.
  pub step-Grows : (c : Call) (s : Db) → Grows s (step c s)
  unfolding step
  step-Grows (registers input validate parked uuid) s =
      register-cases (Grows s) input validate parked uuid s (Grows-refl s) (insert_row-Grows _ s)
  step-Grows (claims_execution kind id token revalidate) s = claim-Grows kind id token revalidate s
  step-Grows (gives_up token) s = release_owner-Grows size token s
  step-Grows (finishes_search id token outcome) s = finish_search-Grows size id token outcome s
  step-Grows (finishes_tool id token outcome) s = finish_tool-Grows size id token outcome s
  step-Grows (finishes_rename now id token session title) s =
      finish_rename-Grows size now id token session title s
  step-Grows (mirrors_approval id to) s = mirror_outcome-Grows size id to s
  step-Grows (recovers id) s = resolve_released_to_unknown-Grows size id s
  step-Grows (writes_turn id) s = claim_transcript-Grows size id s
  step-Grows (claims_answer id token) s = claim_final-Grows size id token s
  step-Grows (finishes_answer id token answer) s = finish_final-Grows size id token answer s

  -- What a move keeps, a run keeps.
  pub run-invariant :
      (P : Row → Type 0)
      → ((r r' : Row) → Move r r' → P r → P r')
      → (cs : List Call) (s : Db) (id : String) (r : Row) → find_request id s ≡ some r
      → P r
      → (r' : Row) × (find_request id (run cs s) ≡ some r') × P r'
  unfolding run
  run-invariant P keeps [] s id r e h = (r, e, h)
  run-invariant P keeps (c ∷ cs) s id r e h =
      let (r', e', m) = (step-Grows c s).1 id r e in
      run-invariant P keeps cs (step c s) id r' e' (keeps r r' m h)

  -- The rows have distinct request ids after any sequence of calls.
  pub run-UniqueKeys :
      (cs : List Call) (s : Db)
      → UniqueKeys key s.tool_requests
      → UniqueKeys key (run cs s).tool_requests
  unfolding run
  run-UniqueKeys [] s u = u
  run-UniqueKeys (c ∷ cs) s u = run-UniqueKeys cs (step c s) ((step-Grows c s).0 u)

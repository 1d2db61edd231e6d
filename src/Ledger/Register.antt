-- ===== src/Ledger/Register.antt =====
-- `register`: the first sight of a request stores it under its validation; later ones return it.
use icos_v.Base.{
  ℕ, String, Bool, true, false, not, ◌&&◌, ◌||◌, Option, none, some, List, [], ◌∷◌, ◌++◌, str_eq,
  if◌then◌else◌, ◌≡◌, ◌≢◌, inl, inr, sym, ap, refl, arith, eq_refl, Bool-cases, Option-cases,
}
use icos_v.Base.Exec.{Result, ok, err, pure, throw, transaction, ◌>>◌}
use icos_v.Base.Table.{find, find-append}
use icos_v.Ledger.{
  Proposal, text, tool_calls, ToolExecutionInput, ValidationOutcome, request, refused, Outcome,
  FinalOutcome, not_required, LedgerState, closed, invalid, validated, awaiting_approval,
  unconfirmed, Row, Db, LedgerError, request_conflict, ledger_unavailable, Repo, key, find_request,
  is_some, same_input, same_input_iff, required, require_session, checks,
}

abbrev validated_request : ValidationOutcome → Bool
validated_request (request r) = true
validated_request _ = false

abbrev is_refused : ValidationOutcome → Bool
is_refused (refused f) = true
is_refused _ = false

-- The state at birth: parked if an approval is bound to the request.
abbrev pub birth_state : ValidationOutcome → Option String → LedgerState
birth_state validation parked =
    if is_refused validation
    then invalid
    else if is_some parked
    then awaiting_approval
    else if validated_request validation
    then validated
    else closed

abbrev is_closed : LedgerState → Bool
is_closed closed = true
is_closed _ = false

abbrev birth_final : LedgerState → Proposal → FinalOutcome
birth_final state (text content model) =
    not_required (if is_closed state then some (content, model) else none)
birth_final state (tool_calls content model calls) = not_required none

-- One call gets the new UUID, any other number of calls none.
abbrev birth_invocation : Proposal → String → Option String
birth_invocation (tool_calls content model (call ∷ [])) uuid = some uuid
birth_invocation _ uuid = none

abbrev pub new_row : ToolExecutionInput → ValidationOutcome → Option String → String → Row
new_row input validation parked uuid = record {
  request_id = input.request_id;
  session_id = input.session_id;
  input = input;
  invocation_id = birth_invocation input.proposal uuid;
  approval_id = parked;
  state = birth_state validation parked;
  validation = validation;
  execution_token = none;
  ownership = unconfirmed;
  execution = none;
  final = birth_final (birth_state validation parked) input.proposal;
  final_token = none;
  transcript_written = false;
}

abbrev same_text : Option String → Option String → Bool
same_text none _ = false
same_text (some a) none = false
same_text (some a) (some b) = str_eq a b

unfoldable pub taken : (Row → Option String) → Option String → List Row → Bool
taken column value [] = false
taken column value (r ∷ rows) = same_text (column r) value || taken column value rows

abbrev listed : Option String → List String → Bool
listed none ids = true
listed (some id) ids = is_some (find (λ x. x) id ids)

-- UNIQUE(invocation_id), UNIQUE(approval_id) and approval_id REFERENCES approvals.
abbrev admissible : Row → Db → Bool
admissible row s =
    not (taken (λ r. r.invocation_id) row.invocation_id s.tool_requests)
    && not (taken (λ r. r.approval_id) row.approval_id s.tool_requests)
    && listed row.approval_id s.approvals

module _ (size : Outcome → ℕ) where
  abbrev pub insert_row : Row → Repo (Unit {0})
  insert_row row s =
      if checks size row && admissible row s
      then (ok tt, record s { tool_requests = s.tool_requests ++ row ∷ [] })
      else (err ledger_unavailable, s)

  abbrev pub register_new :
      ToolExecutionInput
      → (ToolExecutionInput → ValidationOutcome)
      → Option String
      → String
      → Repo Row
  register_new input validate parked uuid = do
    require_session input.session_id
    insert_row (new_row input (validate input) parked uuid)
    required input.request_id

  abbrev pub register_again : ToolExecutionInput → Row → Repo Row
  register_again input prior =
      if same_input prior.input input then pure prior else throw request_conflict

  unfoldable pub register :
      ToolExecutionInput
      → (ToolExecutionInput → ValidationOutcome)
      → Option String
      → String
      → Repo Row
  register input validate parked uuid s = elim (find_request input.request_id s) [
    | none ↦ transaction (register_new input validate parked uuid) s
    | some prior ↦ register_again input prior s
  ]

  -- A request that is known is never stored again: the same input gets its row, and another input
  -- under the same id is refused. Neither changes the ledger.
  pub register_known :
      (input : ToolExecutionInput) (validate : ToolExecutionInput → ValidationOutcome)
      (parked : Option String) (uuid : String) (s : Db) (prior : Row)
      → find_request input.request_id s ≡ some prior
      → (prior.input ≡ input → register input validate parked uuid s ≡ (ok prior, s))
        × (prior.input ≢ input → register input validate parked uuid s ≡ (err request_conflict, s))
  unfolding register
  register_known input validate parked uuid s prior e = (
    (λ q. rw (e, register) (rw ((same_input_iff prior.input input).1 q) refl)),
    (λ n.
        rw (e, register)
          (elim (Bool-cases (same_input prior.input input)) [
            | inl same ↦ absurd (n ((same_input_iff prior.input input).0 same))
            | inr other ↦ rw other refl
          ])),
  )

  register_new-eq :
      (input : ToolExecutionInput) (validate : ToolExecutionInput → ValidationOutcome)
      (parked : Option String) (uuid : String) (s s' : Db) (row : Row)
      → find_request input.request_id s ≡ none
      → transaction (register_new input validate parked uuid) s ≡ (ok row, s')
      → (row ≡ new_row input (validate input) parked uuid)
        × (s' ≡ record s {
          tool_requests = s.tool_requests ++ new_row input (validate input) parked uuid ∷ [];
        })
  register_new-eq input validate parked uuid s s' row missing e = ground (
    arith,
    find-append key input.request_id s.tool_requests (new_row input (validate input) parked uuid),
    eq_refl input.request_id,
  )

  register_again-eq :
      (input : ToolExecutionInput) (s s' : Db) (prior row : Row)
      → register_again input prior s ≡ (ok row, s')
      → (prior.input ≡ input) × (row ≡ prior) × (s' ≡ s)
  register_again-eq input s s' prior row e = elim (Bool-cases (same_input prior.input input)) [
    | inl same ↦
        let e' : ◌≡◌ {A = Result LedgerError Row × Db} (ok prior, s) (ok row, s') = rw same at e in
        (
          (same_input_iff prior.input input).0 same,
          cc (ap (λ (x : Result LedgerError Row × Db). x.0) e'),
          sym (ap (λ (x : Result LedgerError Row × Db). x.1) e'),
        )
    | inr other ↦ cc (rw other at e)
  ]

  -- What a successful `register` leaves: the row, under its id and with the input given.
  register-stored :
      (input : ToolExecutionInput) (validate : ToolExecutionInput → ValidationOutcome)
      (parked : Option String) (uuid : String) (s s' : Db) (row : Row)
      → register input validate parked uuid s ≡ (ok row, s')
      → (find_request input.request_id s' ≡ some row) × (row.input ≡ input)
  unfolding register
  register-stored input validate parked uuid s s' row e =
      elim (Option-cases (find_request input.request_id s)) [
        | inl missing ↦
            let (er, es) =
              register_new-eq input validate parked uuid s s' row missing
                (rw (missing, register) at e) in
            (
              rw (es, er) (rw (find-append, missing) (ground (arith, eq_refl input.request_id))),
              rw er refl,
            )
        | inr (prior, known) ↦
            let (same, er, es) =
              register_again-eq input s s' prior row (rw (known, register) at e) in
            (rw (es, er) known, rw er same)
      ]

  -- Registering is idempotent: when a request has been registered, registering the same input
  -- again returns the same row and changes nothing, whatever validation, approval or UUID comes
  -- with it.
  pub register_idempotent :
      (input : ToolExecutionInput) (validate validate' : ToolExecutionInput → ValidationOutcome)
      (parked parked' : Option String) (uuid uuid' : String) (s s' : Db) (row : Row)
      → register input validate parked uuid s ≡ (ok row, s')
      → register input validate' parked' uuid' s' ≡ (ok row, s')
  unfolding register
  register_idempotent input validate validate' parked parked' uuid uuid' s s' row e =
      let (stored, same) = register-stored input validate parked uuid s s' row e in
      (register_known input validate' parked' uuid' s' row stored).0 same

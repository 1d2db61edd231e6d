-- ===== src/Ledger/Recent.antt =====
-- `recentExecutions` of core/src/tools/tool-execution.repository.ts: the finished calls of a session
-- that the context of the model is rebuilt from.
use icos_v.Base.Rows.{take, reverse, All-reverse}
use icos_v.Base.{
  ℕ, zero, suc, ◌≤◌, String, Bool, true, ◌&&◌, Option, none, some, List, [], ◌∷◌, str_eq, ◌≡◌, refl,
  arith, Option-cases, inl, inr, All, length, length-append,
}
use icos_v.Base.Table.{select, All-select}
use icos_v.Ledger.{
  Json, Outcome, Proposal, tool_calls, ValidationOutcome, request, Row, Db, is_done, is_some,
}

-- `version` is always 1 and left out.
pub record ExecutionPair : Type 0 where
  pub invocation_id : Option String
  pub proposal_content : Option String
  pub name : String
  pub args : Json
  pub result : Option Outcome

abbrev pub ended_in : String → Row → Bool
ended_in session_id row =
    str_eq row.session_id session_id && (is_done row.state && is_some row.execution)

-- `Math.max(1, Math.floor(limit))`
abbrev pub at_least_one : ℕ → ℕ
at_least_one zero = 1
at_least_one (suc n) = suc n

abbrev pair_with : Row → ValidationOutcome → Proposal → Option ExecutionPair
pair_with row (request r) (tool_calls content model calls) = some (record {
  invocation_id = row.invocation_id;
  proposal_content = content;
  name = r.name;
  args = r.args;
  result = row.execution;
})
pair_with row _ _ = none

abbrev pub pair_of : Row → Option ExecutionPair
pair_of row = pair_with row row.validation row.input.proposal

unfoldable pub pairs_of : List Row → List ExecutionPair
pairs_of [] = []
pairs_of (row ∷ rows) = elim (pair_of row) [ none ↦ pairs_of rows | some p ↦ p ∷ pairs_of rows ]

-- The newest rows up to the limit, oldest first.
abbrev pub recent_rows : String → ℕ → Db → List Row
recent_rows session_id limit s =
    reverse (take (at_least_one limit) (reverse (select (ended_in session_id) s.tool_requests)))

unfoldable pub recent_executions : String → ℕ → Db → List ExecutionPair
recent_executions session_id limit s = pairs_of (recent_rows session_id limit s)

All-take : {A : Type 0} (P : A → Type 0) (n : ℕ) (xs : List A) → All P xs → All P (take n xs)
unfolding take
All-take P zero xs h = tt
All-take P (suc n) [] h = tt
All-take P (suc n) (x ∷ xs) (h, hs) = (h, All-take P n xs hs)

length-take : {A : Type 0} (n : ℕ) (xs : List A) → length (take n xs) ≤ n
unfolding take
length-take zero xs = omega arith
length-take (suc n) [] = omega arith
length-take (suc n) (x ∷ xs) = omega (arith, length-take n xs)

length-reverse : {A : Type 0} (xs : List A) → length (reverse xs) ≡ length xs
unfolding reverse
length-reverse [] = refl
length-reverse (x ∷ xs) = omega (arith, length-append (reverse xs) (x ∷ []), length-reverse xs)

length-pairs_of : (rows : List Row) → length (pairs_of rows) ≤ length rows
unfolding pairs_of
length-pairs_of [] = omega arith
length-pairs_of (row ∷ rows) =
    let rest = length-pairs_of rows in
    elim (Option-cases (pair_of row)) [
      | inl nothing ↦ rw (nothing, pairs_of) (omega (arith, rest))
      | inr (p, made) ↦ rw (made, pairs_of) (omega (arith, rest))
    ]

-- The pair carries the call and the stored outcome of a row that has ended in the session, and of
-- which `P` holds.
abbrev pub IsRecorded : (Row → Type 0) → String → ExecutionPair → Type 0
IsRecorded P session_id p =
    (row : Row) × (pair_of row ≡ some p) × ((ended_in session_id row ≡ true) × P row)

pairs_of-IsRecorded :
    (P : Row → Type 0) (session_id : String) (rows : List Row)
    → All (λ r. (ended_in session_id r ≡ true) × P r) rows
    → All (IsRecorded P session_id) (pairs_of rows)
unfolding pairs_of
pairs_of-IsRecorded P session_id [] h = tt
pairs_of-IsRecorded P session_id (row ∷ rows) (h, hs) =
    let rest = pairs_of-IsRecorded P session_id rows hs in
    elim (Option-cases (pair_of row)) [
      | inl nothing ↦ rw (nothing, All, pairs_of) rest
      | inr (p, made) ↦ rw (made, All, pairs_of) ((row, made, h), rest)
    ]

-- At most as many pairs are returned as the limit says, and at most one for a limit of zero; each
-- stands for a row of the ledger that has ended in the session, of which everything holds that holds
-- of every row.
pub recent_executions-IsRecorded :
    (P : Row → Type 0) (session_id : String) (limit : ℕ) (s : Db)
    → All P s.tool_requests
    → (length (recent_executions session_id limit s) ≤ at_least_one limit)
      × All (IsRecorded P session_id) (recent_executions session_id limit s)
unfolding recent_executions
recent_executions-IsRecorded P session_id limit s h =
    let n = at_least_one limit in
    let ended = select (ended_in session_id) s.tool_requests in
    (
      omega (
        arith,
        length-pairs_of (recent_rows session_id limit s),
        length-reverse (take n (reverse ended)),
        length-take n (reverse ended),
      ),
      pairs_of-IsRecorded P session_id (recent_rows session_id limit s) (
          All-reverse _ (take n (reverse ended)) (
            All-take _ n (reverse ended)
              (All-reverse _ ended (All-select P (ended_in session_id) s.tool_requests h)))),
    )

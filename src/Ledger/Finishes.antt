-- ===== src/Ledger/Finishes.antt =====
-- The ends of an invocation: its outcome, its rename, its final answer, and what mirrors a refused
-- approval or a lost owner.
use icos_v.Base.{
  ℕ, String, Bool, true, false, ◌&&◌, Option, none, some, str_eq, ◌==◌, if◌then◌else◌,
}
use icos_v.Base.Exec.{ok, err, pure, throw, transaction, ◌>>=◌, ◌>>◌}
use icos_v.Base.Table.{update, changes}
use icos_v.Ledger.{
  unknown, Outcome, renamed, failure, FinalFailure, FinalOutcome, final_pending, final_succeeded,
  final_failed, LedgerState, succeeded, failed, rejected, cancelled, expired, unconfirmed, Row,
  LedgerError, claim_lost, Repo, same_token, is_awaiting, is_executing, is_released,
  is_final_claimed, required, write,
}

abbrev pub outcome_state : Outcome → LedgerState
outcome_state (failure f) = failed
outcome_state _ = succeeded

abbrev pub finish_row : Outcome → Row → Row
finish_row outcome r = record r {
  state = outcome_state outcome;
  execution = some outcome;
  final = final_pending;
}

-- WHERE request_id = ? AND state = 'executing' AND execution_token = ?
abbrev pub executed_by : String → String → Row → Bool
executed_by id token r =
    str_eq r.request_id id && (is_executing r.state && same_token r.execution_token token)

-- The statuses of a refused approval.
pub data Mirror : Type 0 where
  was_rejected was_cancelled was_expired : Mirror

abbrev pub mirror_state : Mirror → LedgerState
mirror_state was_rejected = rejected
mirror_state was_cancelled = cancelled
mirror_state was_expired = expired

abbrev pub mirrors : Mirror → LedgerState → Bool
mirrors was_rejected rejected = true
mirrors was_cancelled cancelled = true
mirrors was_expired expired = true
mirrors _ _ = false

pub data FinalAnswer : Type 0 where
  answered : (content model : String) → FinalAnswer
  unanswered : FinalFailure → FinalAnswer

abbrev pub final_of : FinalAnswer → FinalOutcome
final_of (answered content model) = final_succeeded content model
final_of (unanswered f) = final_failed f

abbrev pub retitle : ℕ → String → String → Repo (Unit {0})
retitle now session_id title s =
    if changes (λ t. str_eq t.id session_id) s.sessions == 1
    then (
      ok tt,
      record s {
        sessions =
            update (λ t. str_eq t.id session_id) (λ t. record t { title = title; updated_at = now })
              s.sessions;
      },
    )
    else (err LedgerError.rename_failed, s)

abbrev pub parked : String → Row → Bool
parked id r = str_eq r.request_id id && is_awaiting r.state

abbrev pub given_up : String → Row → Bool
given_up id r = str_eq r.request_id id && (is_executing r.state && is_released r.ownership)

abbrev pub lost_row : Row → Row
lost_row r = record r {
  state = failed;
  execution = some (failure unknown);
  final = final_pending;
  ownership = unconfirmed;
}

abbrev pub claimed_by : String → String → Row → Bool
claimed_by id token r =
    str_eq r.request_id id && (is_final_claimed r.final && same_token r.final_token token)

module _ (size : Outcome → ℕ) where
  abbrev pub exactly_one : ℕ → Repo (Unit {0})
  exactly_one n = if n == 1 then pure tt else throw claim_lost

  abbrev pub finish : String → String → Outcome → Repo (Unit {0})
  finish id token outcome =
      transaction (do n ← write size (executed_by id token) (finish_row outcome); exactly_one n)

  unfoldable pub finish_search : String → String → Outcome → Repo (Unit {0})
  finish_search = finish

  unfoldable pub finish_tool : String → String → Outcome → Repo (Unit {0})
  finish_tool = finish

  unfoldable pub finish_rename : ℕ → String → String → String → String → Repo (Unit {0})
  finish_rename now id token session_id title = transaction (do
    retitle now session_id title
    n ← write size (executed_by id token) (finish_row (renamed session_id title))
    exactly_one n)

  unfoldable pub mirror_outcome : String → Mirror → Repo Bool
  mirror_outcome id to = transaction (do
    n ← write size (parked id) (λ r. record r { state = mirror_state to })
    if n == 1 then pure true else (do row ← required id; pure (mirrors to row.state)))

  unfoldable pub resolve_released_to_unknown : String → Repo (Option Outcome)
  resolve_released_to_unknown id = transaction (do
    row ← required id
    if is_executing row.state && is_released row.ownership
        then (do
          n ← write size (given_up id) lost_row
          pure (if n == 1 then some (failure unknown) else none))
        else pure none)

  unfoldable pub finish_final : String → String → FinalAnswer → Repo (Unit {0})
  finish_final id token answer = transaction (do
    n ← write size (claimed_by id token) (λ r. record r { final = final_of answer })
    exactly_one n)

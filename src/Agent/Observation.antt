-- ===== src/Agent/Observation.antt =====
-- core/src/agent/observation.ts and `observations` of core/src/agent/agent-run.repository.ts: what a
-- run has seen, read from the ledger.
use icos_v.Base.{
  String, true, Option, none, some, List, [], ◌∷◌, str_eq, if◌then◌else◌, ◌≡◌, refl, arith, eq_refl,
  Bool-cases, Option-cases, inl, inr, All, All-weaken, ◌∙◌, sym, ap,
}
use icos_v.Base.Exec.{ok, gets, ◌>>=◌}
use icos_v.Base.Table.{find}
use icos_v.Ledger
use icos_v.Ledger.{
  Json, Outcome, failure, unknown, ValidationOutcome, ValidatedToolRequest, request, text_only,
  refused,
}
use icos_v.Agent.{AgentRunRow, Db, Repo, find_run, required, includes}

pub data ObservationStatus : Type 0 where
  status_succeeded status_failed status_unknown : ObservationStatus

pub record RunObservation : Type 0 where
  pub request_id : String
  pub invocation_id : String
  pub tool : String
  pub args : Json
  pub status : ObservationStatus
  pub result : Outcome

abbrev pub observation_status : Outcome → ObservationStatus
observation_status (failure unknown) = status_unknown
observation_status (failure f) = status_failed
observation_status _ = status_succeeded

abbrev observation_of :
    (request_id invocation : String) → Outcome → ValidationOutcome → Option RunObservation
observation_of request_id invocation outcome (request r) =
    if str_eq invocation ""
    then none
    else some (record {
      request_id = request_id;
      invocation_id = invocation;
      tool = r.name;
      args = r.args;
      status = observation_status outcome;
      result = outcome;
    })
observation_of request_id invocation outcome _ = none

abbrev observed :
    (request_id : String)
    → Option String
    → Option Outcome
    → ValidationOutcome
    → Option RunObservation
observed request_id none execution validation = none
observed request_id (some invocation) none validation = none
observed request_id (some invocation) (some outcome) validation =
    observation_of request_id invocation outcome validation

-- `observationFromRecord` of the record that `observations` builds.
abbrev pub observation_from_row : String → Ledger.Row → Option RunObservation
observation_from_row request_id row =
    observed request_id row.invocation_id row.execution row.validation

abbrev pub observe : List Ledger.Row → String → Option RunObservation
observe rows request_id = elim (find Ledger.key request_id rows) [
  | none ↦ none
  | some row ↦ observation_from_row request_id row
]

unfoldable pub observe_all : List Ledger.Row → List String → List RunObservation
observe_all rows [] = []
observe_all rows (request_id ∷ request_ids) = elim (observe rows request_id) [
  | none ↦ observe_all rows request_ids
  | some o ↦ o ∷ observe_all rows request_ids
]

unfoldable pub observations : String → Repo (List RunObservation)
observations id = do run ← required id; gets (λ s. observe_all s.tool_requests run.request_ids)

-- An observation is of a step of the run, and says what the ledger stores for it.
abbrev pub IsFaithful : List Ledger.Row → List String → RunObservation → Type 0
IsFaithful rows request_ids o =
    (includes request_ids o.request_id ≡ true)
    × ((row : Ledger.Row) × (find Ledger.key o.request_id rows ≡ some row)
        × (row.execution ≡ some o.result)
        × (row.invocation_id ≡ some o.invocation_id)
        × (o.status ≡ observation_status o.result))

same :
    {A : Type 0} (f : RunObservation → A) {a o : RunObservation}
    → ◌≡◌ {A = Option RunObservation} (some a) (some o)
    → f o ≡ f a
same f h = cc

observation_of-fields :
    (request_id invocation : String) (outcome : Outcome) (validation : ValidationOutcome)
    (o : RunObservation)
    → observation_of request_id invocation outcome validation ≡ some o
    → (o.request_id ≡ request_id)
      × (o.result ≡ outcome)
      × (o.invocation_id ≡ invocation)
      × (o.status ≡ observation_status o.result)
observation_of-fields request_id invocation outcome (request r) o e =
    elim (Bool-cases (str_eq invocation "")) [
      | inl empty ↦ cc (rw empty at e)
      | inr given ↦ from_eq (rw given at e)
    ]
  where
    from_eq :
        ◌≡◌ {A = Option RunObservation}
          (some (record {
            request_id = request_id;
            invocation_id = invocation;
            tool = r.name;
            args = r.args;
            status = observation_status outcome;
            result = outcome;
          }))
          (some o)
        → (o.request_id ≡ request_id)
          × (o.result ≡ outcome)
          × (o.invocation_id ≡ invocation)
          × (o.status ≡ observation_status o.result)
    from_eq h = (
      same (λ x. x.request_id) h,
      same (λ x. x.result) h,
      same (λ x. x.invocation_id) h,
      same (λ x. x.status) h ∙ sym (ap observation_status (same (λ x. x.result) h)),
    )
observation_of-fields request_id invocation outcome text_only o e = cc
observation_of-fields request_id invocation outcome (refused f) o e = cc

observed-fields :
    (request_id : String) (invocation : Option String) (execution : Option Outcome)
    (validation : ValidationOutcome) (o : RunObservation)
    → observed request_id invocation execution validation ≡ some o
    → (o.request_id ≡ request_id)
      × (execution ≡ some o.result)
      × (invocation ≡ some o.invocation_id)
      × (o.status ≡ observation_status o.result)
observed-fields request_id none execution validation o e = cc
observed-fields request_id (some invocation) none validation o e = cc
observed-fields request_id (some invocation) (some outcome) validation o e =
    let (a, b, c, d) = observation_of-fields request_id invocation outcome validation o e in
    (a, ap some (sym b), ap some (sym c), d)

observe-IsFaithful :
    (rows : List Ledger.Row) (request_id : String) (request_ids : List String) (o : RunObservation)
    → observe rows request_id ≡ some o
    → IsFaithful rows (request_id ∷ request_ids) o
unfolding includes
observe-IsFaithful rows request_id request_ids o e =
    elim (Option-cases (find Ledger.key request_id rows)) [
      | inl missing ↦ cc (rw (missing, observe) at e)
      | inr (row, found) ↦
          let (a, b, c, d) =
            observed-fields request_id row.invocation_id row.execution row.validation o
              (rw (found, observe) at e) in
          (rw a (rw (eq_refl request_id) refl), (row, rw a found, b, c, d))
    ]

longer :
    (rows : List Ledger.Row) (x : String) (request_ids : List String) (o : RunObservation)
    → IsFaithful rows request_ids o
    → IsFaithful rows (x ∷ request_ids) o
unfolding includes
longer rows x request_ids o (h, rest) = (ground (arith, h), rest)

observe_all-IsFaithful :
    (rows : List Ledger.Row) (request_ids : List String)
    → All (IsFaithful rows request_ids) (observe_all rows request_ids)
unfolding observe_all
observe_all-IsFaithful rows [] = tt
observe_all-IsFaithful rows (x ∷ request_ids) =
    let rest =
      All-weaken (IsFaithful rows request_ids) (IsFaithful rows (x ∷ request_ids))
        (observe_all rows request_ids) (longer rows x request_ids)
        (observe_all-IsFaithful rows request_ids) in
    elim (Option-cases (observe rows x)) [
      | inl nothing ↦ rw (nothing, All, observe_all) rest
      | inr (o, seen) ↦
          rw (seen, All, observe_all) (observe-IsFaithful rows x request_ids o seen, rest)
    ]

-- The observations of a run write nothing, and each of them is of one of the run's steps and has the
-- invocation and the outcome that the ledger stores for it, with the status of that outcome.
pub observations-IsFaithful :
    (id : String) (s : Db) (row : AgentRunRow)
    → find_run id s ≡ some row
    → (seen : List RunObservation) × (observations id s ≡ (ok seen, s))
      × All (IsFaithful s.tool_requests row.request_ids) seen
unfolding observations
observations-IsFaithful id s row found = (
  observe_all s.tool_requests row.request_ids,
  rw (found, observations) refl,
  observe_all-IsFaithful s.tool_requests row.request_ids,
)

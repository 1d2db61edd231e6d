-- ===== src/Agent/Steps.antt =====
-- The steps of a run: their count, their list, and the run that a step leads to.
use icos_v.Base.{
  ℕ, String, Bool, true, ◌||◌, none, some, List, [], ◌∷◌, ◌++◌, str_eq, if◌then◌else◌, ◌≡◌, ◌∙◌,
  sym, ap, refl, arith, eq_iff, eq_refl, Bool-cases, Option-cases, inl, inr,
}
use icos_v.Base.{length, length-append}
use icos_v.Base.Exec.{Result, ok, Clock}
use icos_v.Base.Table.{find, find-key, find-append, find-update}
use icos_v.Agent.{
  is_terminal, RunLimits, AgentRunRow, AgentRun, to_run, Error, Db, key, find_run, includes,
  with_id, new_row, create_run, step_row, record_step, cancel_row, cancel_run, find_by_request,
}
use icos_v.Agent.Calls.{Call, run, Move, edits, steps, run-invariant, written}

-- The number of iterations is the number of steps recorded.
abbrev pub Counted : AgentRunRow → Type 0
Counted r = r.iteration_count ≡ length r.request_ids

Move-Counted :
    (session : String) (r r' : AgentRunRow)
    → Move r r'
    → Counted r × (r.session_id ≡ session)
    → Counted r' × (r'.session_id ≡ session)
Move-Counted session r r' (edits a b c d) (h, k) = (c ∙ h ∙ ap length (sym b), a ∙ k)
Move-Counted session r r' (steps now request_id tool_calls e) (h, k) =
    rw e ((let more = length-append r.request_ids (request_id ∷ []) in omega (arith, h, more)), k)

includes-append :
    (xs ys : List String) (x : String) → includes (xs ++ ys) x ≡ (includes xs x || includes ys x)
unfolding includes
includes-append [] ys x = refl
includes-append (y ∷ xs) ys x = ground (arith, includes-append xs ys x)

Move-includes :
    (session request : String) (r r' : AgentRunRow)
    → Move r r'
    → (includes r.request_ids request ≡ true) × (r.session_id ≡ session)
    → (includes r'.request_ids request ≡ true) × (r'.session_id ≡ session)
Move-includes session request r r' (edits a b c d) (h, k) = (rw b h, a ∙ k)
Move-includes session request r r' (steps now request_id tool_calls e) (h, k) =
    rw e (rw (includes-append r.request_ids (request_id ∷ []) request, h) refl, k)

find_by_request_sound :
    (session request : String) (rows : List AgentRunRow) (q : AgentRun)
    → find_by_request session request rows ≡ some q
    → (q.session_id ≡ session) × (includes q.request_ids request ≡ true)
unfolding find_by_request
find_by_request_sound session request [] q e = cc
find_by_request_sound session request (x ∷ rows) q e =
    elim (Option-cases (find_by_request session request rows)) [
      | inl nothing ↦ ground (arith, eq_iff x.session_id session)
      | inr (newer, found) ↦
          let known = find_by_request_sound session request rows newer found in ground arith
    ]

find_by_request_total :
    (session request id : String) (rows : List AgentRunRow) (r : AgentRunRow)
    → find key id rows ≡ some r
    → includes r.request_ids request ≡ true
    → r.session_id ≡ session
    → (q : AgentRun) × (find_by_request session request rows ≡ some q)
      × (q.session_id ≡ session)
      × (includes q.request_ids request ≡ true)
unfolding find find_by_request
find_by_request_total session request id [] r e h k = cc
find_by_request_total session request id (x ∷ rows) r e h k =
    elim (Option-cases (find_by_request session request rows)) [
      | inl nothing ↦ elim (Bool-cases (str_eq (key x) id)) [
        | inl here ↦
            let same : x ≡ r = ground (arith, here) in
            (
              to_run x,
              rw nothing (rw (same, h, k) (ground (arith, eq_refl session))),
              rw (same) k,
              rw same h,
            )
        | inr elsewhere ↦
            let (q, found, _, _) =
              find_by_request_total session request id rows r (ground (arith, elsewhere)) h k in
            absurd (let f = found in ground arith)
      ]
      | inr (newer, found) ↦
          let (a, b) = find_by_request_sound session request rows newer found in
          (newer, rw found refl, a, b)
    ]

find-written :
    (id : String) (f : AgentRunRow → AgentRunRow) (s : Db) (row : AgentRunRow)
    → ((r : AgentRunRow) → key (f r) ≡ key r)
    → find_run id s ≡ some row
    → find_run id (written id f s) ≡ some (f row)
find-written id f s row keeps found =
    let name = find-key key id s.agent_runs row found in
    rw (find-update key (with_id id) f keeps, found) (ground (arith, eq_iff row.id id))

create_run_stored :
    (clock : Clock) (id session goal : String) (limits : RunLimits) (s s' : Db) (q : AgentRun)
    → create_run clock id session goal limits s ≡ (ok q, s')
    → find_run id s' ≡ some (new_row id (clock 0) session goal limits)
unfolding create_run
create_run_stored clock id session goal limits s s' q e =
    ground (
      arith,
      find-append key id s.agent_runs (new_row id (clock 0) session goal limits),
      eq_refl id,
    )

-- After a run is created and any sequence of calls, the run is there, of the session that it was
-- created for, and its iteration count is the number of request ids in its list.
pub run-Counted :
    (clock : Clock) (id session goal : String) (limits : RunLimits) (s s' : Db) (q : AgentRun)
    (cs : List Call)
    → create_run clock id session goal limits s ≡ (ok q, s')
    → (r : AgentRunRow) × (find_run id (run cs s') ≡ some r)
      × (Counted r × (r.session_id ≡ session))
run-Counted clock id session goal limits s s' q cs e =
    run-invariant (λ r. Counted r × (r.session_id ≡ session)) (Move-Counted session) cs s' id
      (new_row id (clock 0) session goal limits)
      (create_run_stored clock id session goal limits s s' q e) (refl, refl)

record_step-eq :
    (clock : Clock) (id request : String) (calls : ℕ) (s : Db) (row : AgentRunRow)
    → find_run id s ≡ some row
    → (let after = step_row (clock 0) (row.request_ids ++ request ∷ []) request calls in
        record_step clock id request calls s ≡ (ok (to_run (after row)), written id after s))
unfolding record_step
record_step-eq clock id request calls s row found =
    rw (found, record_step)
      (rw
        (find-written id (step_row (clock 0) (row.request_ids ++ request ∷ []) request calls) s row
          (λ r. refl) found)
        refl)

last_included : (x : String) (b : Bool) → (b || includes (x ∷ []) x) ≡ true
unfolding includes
last_included x b = ground (arith, eq_refl x)

both :
    (a b : AgentRun) (s s' : Db)
    → ◌≡◌ {A = Result Error AgentRun × Db} (ok a, s) (ok b, s')
    → (a ≡ b) × (s ≡ s')
both a b s s' e = (cc (ap (λ x. x.0) e), ap (λ x. x.1) e)

record_step_stored :
    (clock : Clock) (id request : String) (calls : ℕ) (s s' : Db) (q : AgentRun)
    → record_step clock id request calls s ≡ (ok q, s')
    → (r : AgentRunRow) × (find_run id s' ≡ some r)
      × (includes r.request_ids request ≡ true)
      × (r.session_id ≡ q.session_id)
unfolding record_step
record_step_stored clock id request calls s s' q e = elim (Option-cases (find_run id s)) [
  | inl missing ↦ cc (rw (missing, record_step) at e)
  | inr (row, found) ↦
      let after = step_row (clock 0) (row.request_ids ++ request ∷ []) request calls in
      let now = find-written id after s row (λ r. refl) found in
      let done = record_step-eq clock id request calls s row found in
      let (shown, same) = both (to_run (after row)) q (written id after s) s' (sym done ∙ e) in
      (
        after row,
        rw (← same) now,
        rw (includes-append row.request_ids (request ∷ []) request)
            (last_included request (includes row.request_ids request)),
        ap (λ x. x.session_id) shown,
      )
]

-- Once a step is recorded, then after any sequence of calls its request id still leads to a run of
-- the same session that has it among its steps.
pub step_found :
    (clock : Clock) (id request : String) (calls : ℕ) (s s' : Db) (q : AgentRun) (cs : List Call)
    → record_step clock id request calls s ≡ (ok q, s')
    → (found : AgentRun) × (find_by_request q.session_id request (run cs s').agent_runs
        ≡ some found)
      × (found.session_id ≡ q.session_id)
      × (includes found.request_ids request ≡ true)
step_found clock id request calls s s' q cs e =
    let (r, stored, has, session) = record_step_stored clock id request calls s s' q e in
    let (r', there, (still, same)) =
      run-invariant (λ x. (includes x.request_ids request ≡ true) × (x.session_id ≡ q.session_id))
        (Move-includes q.session_id request) cs s' id r stored (has, session) in
    find_by_request_total q.session_id request id (run cs s').agent_runs r' there still same

-- Cancelling a run: one that has ended is left as it is and nothing is returned; an open one is
-- stored as cancelled, with the number of its tool calls as the reason's steps.
pub cancel_run-eq :
    (clock : Clock) (id : String) (s : Db) (row : AgentRunRow)
    → find_run id s ≡ some row
    → cancel_run clock id s ≡ (
        if is_terminal row.state then (ok none, s) else (
          ok (some (to_run (cancel_row (clock 0) row.tool_call_count row))),
          written id (cancel_row (clock 0) row.tool_call_count) s,
        ))
unfolding cancel_run
cancel_run-eq clock id s row found =
    rw (found, cancel_run)
      (elim (Bool-cases (is_terminal row.state)) [
        | inl over ↦ rw over refl
        | inr open_still ↦ rw open_still (
            rw (find-written id (cancel_row (clock 0) row.tool_call_count) s row (λ r. refl) found)
              refl)
      ])

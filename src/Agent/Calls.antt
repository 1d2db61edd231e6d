-- ===== src/Agent/Calls.antt =====
-- Any sequence of the calls that write the runs.
use icos_v.Base.{
  ℕ, String, none, some, List, [], ◌∷◌, ◌++◌, if◌then◌else◌, ◌≡◌, refl, arith, eq_iff, Bool-cases,
  Option-cases, inl, inr,
}
use icos_v.Base.Exec.{Clock}
use icos_v.Base.Table.{update, find-key, find-append, find-update}
use icos_v.Agent.{
  AgentTransientState, AgentTerminalState, RunLimits, RunTermination, AgentRunRow, Db, key,
  find_run, with_id, new_row, create_run, rewrite_run, transition_run, step_row, record_step,
  mark_parked, mark_terminal, cancel_row, cancel_run,
}

pub data Call : Type 0 where
  creates : Clock → (id session_id goal : String) → RunLimits → Call
  transitions : Clock → (id : String) → AgentTransientState → Call
  records : Clock → (id request_id : String) → (tool_calls : ℕ) → Call
  parks : Clock → (id approval_id : String) → Call
  ends : Clock → (id : String) → AgentTerminalState → RunTermination → Call
  cancels : Clock → (id : String) → Call

unfoldable pub step : Call → Db → Db
step (creates clock id session_id goal limits) s = (create_run clock id session_id goal limits s).1
step (transitions clock id state) s = (transition_run clock id state s).1
step (records clock id request_id tool_calls) s = (record_step clock id request_id tool_calls s).1
step (parks clock id approval_id) s = (mark_parked clock id approval_id s).1
step (ends clock id state termination) s = (mark_terminal clock id state termination s).1
step (cancels clock id) s = (cancel_run clock id s).1

unfoldable pub run : List Call → Db → Db
run [] s = s
run (c ∷ cs) s = run cs (step c s)

-- What one call does to a run: its steps stay as they are, or one is appended.
pub data Move (r r' : AgentRunRow) : Type 0 where
  edits :
      r'.session_id ≡ r.session_id
      → r'.request_ids ≡ r.request_ids
      → r'.iteration_count ≡ r.iteration_count
      → r'.tool_call_count ≡ r.tool_call_count
      → Move r r'
  steps :
      (now : ℕ) (request_id : String) (tool_calls : ℕ)
      → r' ≡ step_row now (r.request_ids ++ request_id ∷ []) request_id tool_calls r
      → Move r r'

-- Every run is still there.
abbrev pub Grows : Db → Db → Type 0
Grows s s' =
    (id : String) (r : AgentRunRow)
    → find_run id s ≡ some r
    → (r' : AgentRunRow) × (find_run id s' ≡ some r') × Move r r'

abbrev pub written : String → (AgentRunRow → AgentRunRow) → Db → Db
written id f s = record s { agent_runs = update (with_id id) f s.agent_runs }

kept : (r : AgentRunRow) → Move r r
kept r = edits refl refl refl refl

written-Grows :
    (id : String) (f : AgentRunRow → AgentRunRow) (s : Db)
    → ((r : AgentRunRow) → key (f r) ≡ key r)
    → ((r : AgentRunRow) → find_run id s ≡ some r → Move r (f r))
    → Grows s (written id f s)
written-Grows id f s keeps moves j r e = (
  (if with_id id r then f r else r),
  rw (find-update key (with_id id) f keeps, e) refl,
  elim (Bool-cases (with_id id r)) [
    | inl same ↦
        let name = find-key key j s.agent_runs r e in
        rw same (moves r (ground (arith, eq_iff r.id id)))
    | inr other ↦ rw other (kept r)
  ],
)

-- A method that reads a run, writes it and reads it again changes the table by that write, or not at
-- all when there is no such run.
pub rewrite_run-cases :
    (P : Db → Type 0) (id : String) (f : AgentRunRow → AgentRunRow) (s : Db)
    → P s
    → P (written id f s)
    → P (rewrite_run id f s).1
rewrite_run-cases P id f s unchanged changed = ground arith

record_step-cases :
    (P : Db → Type 0) (clock : Clock) (id request_id : String) (tool_calls : ℕ) (s : Db)
    → P s
    → ((r : AgentRunRow)
        → find_run id s ≡ some r
        → P (
            written id
              (step_row (clock 0) (r.request_ids ++ request_id ∷ []) request_id tool_calls)
              s))
    → P (record_step clock id request_id tool_calls s).1
unfolding record_step
record_step-cases P clock id request_id tool_calls s unchanged changed =
    elim (Option-cases (find_run id s)) [
      | inl missing ↦ rw (missing, record_step) unchanged
      | inr (row, found) ↦ rw (found, record_step) (let w = changed row found in ground arith)
    ]

cancel_run-cases :
    (P : Db → Type 0) (clock : Clock) (id : String) (s : Db)
    → P s
    → ((r : AgentRunRow) → P (written id (cancel_row (clock 0) r.tool_call_count) s))
    → P (cancel_run clock id s).1
unfolding cancel_run
cancel_run-cases P clock id s unchanged changed = elim (Option-cases (find_run id s)) [
  | inl missing ↦ rw (missing, cancel_run) unchanged
  | inr (row, found) ↦ rw (found, cancel_run) (let w = changed row in ground arith)
]

create_run-cases :
    (P : Db → Type 0) (clock : Clock) (id session_id goal : String) (limits : RunLimits) (s : Db)
    → P s
    → (find_run id s ≡ none
        → P (record s {
          agent_runs = s.agent_runs ++ new_row id (clock 0) session_id goal limits ∷ [];
        }))
    → P (create_run clock id session_id goal limits s).1
unfolding create_run
create_run-cases P clock id session_id goal limits s unchanged inserted = ground arith

same_row :
    (id : String) (s : Db) (r row : AgentRunRow)
    → find_run id s ≡ some r
    → find_run id s ≡ some row
    → row ≡ r
same_row id s r row e found = cc

Grows-refl : (s : Db) → Grows s s
Grows-refl s id r e = (r, e, kept r)

-- Whatever a call does, every run is still there, of the same session, and its steps are as before
-- or one step longer.
pub step-Keeps : (c : Call) (s : Db) → Grows s (step c s)
unfolding step transition_run mark_parked mark_terminal
step-Keeps (creates clock id session_id goal limits) s =
    create_run-cases (Grows s) clock id session_id goal limits s (Grows-refl s)
      (λ fresh j r e. (r, rw (find-append, e) refl, kept r))
step-Keeps (transitions clock id state) s =
    rewrite_run-cases (Grows s) id _ s (Grows-refl s)
      (written-Grows id _ s (λ r. refl) (λ r e. edits refl refl refl refl))
step-Keeps (records clock id request_id tool_calls) s =
    record_step-cases (Grows s) clock id request_id tool_calls s (Grows-refl s) (λ row found.
      written-Grows id _ s (λ r. refl)
        (λ r e. steps (clock 0) request_id tool_calls (rw (same_row id s r row e found) refl)))
step-Keeps (parks clock id approval_id) s =
    rewrite_run-cases (Grows s) id _ s (Grows-refl s)
      (written-Grows id _ s (λ r. refl) (λ r e. edits refl refl refl refl))
step-Keeps (ends clock id state termination) s =
    rewrite_run-cases (Grows s) id _ s (Grows-refl s)
      (written-Grows id _ s (λ r. refl) (λ r e. edits refl refl refl refl))
step-Keeps (cancels clock id) s =
    cancel_run-cases (Grows s) clock id s (Grows-refl s)
      (λ row. written-Grows id _ s (λ r. refl) (λ r e. edits refl refl refl refl))

-- What a move keeps, a sequence of calls keeps.
pub run-invariant :
    (P : AgentRunRow → Type 0)
    → ((r r' : AgentRunRow) → Move r r' → P r → P r')
    → (cs : List Call) (s : Db) (id : String) (r : AgentRunRow) → find_run id s ≡ some r
    → P r
    → (r' : AgentRunRow) × (find_run id (run cs s) ≡ some r') × P r'
unfolding run
run-invariant P keeps [] s id r e h = (r, e, h)
run-invariant P keeps (c ∷ cs) s id r e h =
    let (r', e', m) = step-Keeps c s id r e in
    run-invariant P keeps cs (step c s) id r' e' (keeps r r' m h)

-- ===== src/Ledger/Endings.antt =====
-- What the end of an invocation stores, and when it is refused.
use icos_v.Base.{
  ℕ, String, Bool, true, false, not, ◌&&◌, some, str_eq, leb, ◌≡◌, inl, inr, ◌∙◌, ap, refl, arith,
  eq_iff, eq_refl, Option-cases,
}
use icos_v.Base.Exec.{Result, ok, err}
use icos_v.Base.Table.{
  passes, update, changes, find, find-key, find-update, UniqueKeys, changes_found, changes_missing,
}
use icos_v.Ledger.{
  Outcome, matches, renamed, mcp, failure, Row, Session, Db, LedgerError, claim_lost,
  ledger_unavailable, key, session_key, find_request, is_some, same_token, is_executing,
  is_released, checks, max_execution_bytes,
}
use icos_v.Ledger.Finishes.{finish_tool, finish_rename, finish_row, executed_by, finish}
use icos_v.Base.Table.{changes-none, passes_found}

module _ (size : Outcome → ℕ) where
  -- An outcome can be stored for a call that has an invocation, an owner that has not given up, and
  -- an outcome within the bound.
  abbrev pub storable : Outcome → Row → Bool
  storable outcome row =
      is_some row.invocation_id
      && not (is_released row.ownership)
      && leb (size outcome) max_execution_bytes

  checks-finish_row :
      (outcome : Outcome) (row : Row) → checks size (finish_row outcome row) ≡ storable outcome row
  checks-finish_row (matches j) row = ground arith
  checks-finish_row (renamed a b) row = ground arith
  checks-finish_row (mcp a b c) row = ground arith
  checks-finish_row (failure f) row = ground arith

  module _ (id token : String) (outcome : Outcome) (s : Db) where
    finish_ok :
        passes (executed_by id token) (λ r. checks size (finish_row outcome r)) s.tool_requests
          ≡ true
        → changes (executed_by id token) s.tool_requests ≡ 1
        → finish size id token outcome s ≡ (
          ok tt,
          record s {
            tool_requests = update (executed_by id token) (finish_row outcome) s.tool_requests;
          },
        )
    finish_ok fine one = rw (fine, one) refl

    finish_unfit :
        passes (executed_by id token) (λ r. checks size (finish_row outcome r)) s.tool_requests
          ≡ false
        → finish size id token outcome s ≡ (err ledger_unavailable, s)
    finish_unfit unfit = rw unfit refl

    finish_foreign :
        passes (executed_by id token) (λ r. checks size (finish_row outcome r)) s.tool_requests
          ≡ true
        → changes (executed_by id token) s.tool_requests ≡ 0
        → finish size id token outcome s ≡ (err claim_lost, s)
    finish_foreign fine nobody = rw (fine, nobody) refl

  -- The end of an owned invocation, in all its branches: with the token of the row in execution, an
  -- outcome that can be stored is stored and the final answer is pending; one that cannot leaves the
  -- ledger as it was, and so does any other token or state.
  -- Request ids are unique.
  pub finish_tool-eq :
      (id token : String) (outcome : Outcome) (s : Db) (row : Row)
      → UniqueKeys key s.tool_requests
      → find_request id s ≡ some row
      → (executed_by id token row ≡ true
          → storable outcome row ≡ true
          → (s' : Db) × (finish_tool size id token outcome s ≡ (ok tt, s'))
            × (find_request id s' ≡ some (finish_row outcome row)))
        × (executed_by id token row ≡ true
            → storable outcome row ≡ false
            → finish_tool size id token outcome s ≡ (err ledger_unavailable, s))
        × (executed_by id token row ≡ false
            → finish_tool size id token outcome s ≡ (err claim_lost, s))
  unfolding finish_tool
  finish_tool-eq id token outcome s row u found =
      let g : Row → Bool = λ r. is_executing r.state && same_token r.execution_token token in
      let fits_in =
        passes_found key g (λ r. checks size (finish_row outcome r)) id s.tool_requests row u
          found in
      let n = changes_found key g id s.tool_requests row u found in
      let now =
        find-update key (executed_by id token) (finish_row outcome) (λ r. refl) id
          s.tool_requests in
      let same_id = find-key key id s.tool_requests row found in
      let stored = checks-finish_row outcome row in
      (
        (λ owned fine. (
          record s {
            tool_requests = update (executed_by id token) (finish_row outcome) s.tool_requests;
          },
          finish_ok id token outcome s (rw (fits_in, stored) (ground arith)) (rw n (ground arith)),
          rw (now, found, owned) refl,
        )),
        (λ owned unfit.
            finish_unfit id token outcome s (rw (fits_in, stored) (ground (arith, same_id)))),
        (λ foreign.
            finish_foreign id token outcome s
              (rw (fits_in, stored) (ground (arith, same_id, eq_refl id)))
              (rw n (ground (arith, same_id, eq_refl id)))),
      )

  abbrev retitled : ℕ → String → String → Db → Db
  retitled now session title s = record s {
    sessions =
        update (λ t. str_eq t.id session) (λ t. record t { title = title; updated_at = now })
          s.sessions;
  }

  finish_rename_ok :
      (now : ℕ) (id token session title : String) (s s' : Db)
      → finish_rename size now id token session title s ≡ (ok tt, s')
      → (changes (λ t. str_eq t.id session) s.sessions ≡ 1)
        × (changes (executed_by id token) s.tool_requests ≡ 1)
        × (s' ≡ record (retitled now session title s) {
          tool_requests =
              update (executed_by id token) (finish_row (renamed session title)) s.tool_requests;
        })
  unfolding finish_rename
  finish_rename_ok now id token session title s s' e = ground arith

  finish_rename_err :
      (now : ℕ) (id token session title : String) (s s' : Db) (x : LedgerError)
      → finish_rename size now id token session title s ≡ (err x, s')
      → s' ≡ s
  unfolding finish_rename
  finish_rename_err now id token session title s s' x e = ground arith

  executing_row :
      (id token : String) (s : Db)
      → UniqueKeys key s.tool_requests
      → changes (executed_by id token) s.tool_requests ≡ 1
      → (row : Row) × (find_request id s ≡ some row) × (executed_by id token row ≡ true)
  executing_row id token s u one =
      let g : Row → Bool = λ r. is_executing r.state && same_token r.execution_token token in
      elim (Option-cases (find_request id s)) [
        | inl missing ↦ let n = changes_missing key g id s.tool_requests missing in ground arith
        | inr (row, found) ↦
            let n = changes_found key g id s.tool_requests row u found in
            let same_id = find-key key id s.tool_requests row found in
            (row, found, ground (arith, eq_iff row.request_id id))
      ]

  renamed_session :
      (now : ℕ) (session title : String) (s : Db)
      → changes (λ t. str_eq t.id session) s.sessions ≡ 1
      → (t : Session) × (find session_key session (retitled now session title s).sessions ≡ some t)
        × (t.title ≡ title)
  renamed_session now session title s one =
      elim (Option-cases (find session_key session s.sessions)) [
        | inl missing ↦ let n = changes-none session_key session s.sessions missing in ground arith
        | inr (t, found) ↦
            let same_id = find-key session_key session s.sessions t found in
            (
              record t { title = title; updated_at = now },
              rw
                  (
                    find-update session_key (λ x. str_eq x.id session)
                        (λ x. record x { title = title; updated_at = now }) (λ x. refl),
                    found,
                  )
                  (ground (arith, eq_iff t.id session)),
              refl,
            )
      ]

  -- A rename is atomic. When it succeeds, the invocation was in execution under that token, it now
  -- stores the rename as its outcome, and the session has the title; when it fails, nothing has
  -- changed.
  -- Request ids are unique to begin with.
  pub finish_rename-atomic :
      (now : ℕ) (id token session title : String) (s s' : Db)
      (result : Result LedgerError (Unit {0}))
      → UniqueKeys key s.tool_requests
      → finish_rename size now id token session title s ≡ (result, s')
      → (result ≡ ok tt
          → ((row : Row) × (find_request id s ≡ some row)
              × (executed_by id token row ≡ true)
              × (find_request id s' ≡ some (finish_row (renamed session title) row)))
            × ((t : Session) × (find session_key session s'.sessions ≡ some t) × (t.title ≡ title)))
        × ((x : LedgerError) → result ≡ err x → s' ≡ s)
  finish_rename-atomic now id token session title s s' result u e = (
    (λ success.
        let (one_session, one_row, after) =
          finish_rename_ok now id token session title s s' (e ∙ ap (λ x. (x, s')) success) in
        let (row, found, owned) = executing_row id token s u one_row in
        rw after (
          (
            row,
            found,
            owned,
            rw
                (
                  find-update key (executed_by id token) (finish_row (renamed session title))
                      (λ r. refl),
                  found,
                  owned,
                )
                refl,
          ),
          renamed_session now session title s one_session,
        )),
    (λ x failed.
        finish_rename_err now id token session title s s' x (e ∙ ap (λ y. (y, s')) failed)),
  )

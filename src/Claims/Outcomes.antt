-- ===== src/Claims/Outcomes.antt =====
-- What the operations of the claim repository answer and write.
use mathlib.Core.Option
use icos_v.Base.{
  ℕ, String, not, none, some, List, [], ◌∷◌, ◌++◌, if◌then◌else◌, ◌≡◌, refl, sym, ap, ◌∙◌, inl, inr,
  arith, eq_refl, Bool-cases, Option-cases,
}
use icos_v.Base.Exec.{ok, err}
use icos_v.Base.Table.{find, find-append}
use icos_v.Base.Rows.{find_where, find_where-append}
use icos_v.Claims.{
  ClaimStatus, ClaimEvidence, NewClaim, Claim, ClaimRow, to_claim, Db, key, row_by_id, status_eq,
  allowed, with_identity, rewrite_claim, reinforced, append_evidence, with_status, set_status,
  new_row, create_claim, find_by_triple, get_claim, identity_exists, sqlite_error,
}
use icos_v.Claims.Growth.{rewrite-eq, insert_claim-eq, insert_claim-taken}

pub append_evidence-missing :
    (now : ℕ) (id : String) (evidence : List ClaimEvidence) (confidence : ℕ) (s : Db)
    → row_by_id id s ≡ none
    → append_evidence now id evidence confidence s ≡ (ok none, s)
unfolding append_evidence
append_evidence-missing now id evidence confidence s missing = rw (missing, append_evidence) refl

pub append_evidence-eq :
    (now : ℕ) (id : String) (evidence : List ClaimEvidence) (confidence : ℕ) (s : Db)
    (row : ClaimRow)
    → row_by_id id s ≡ some row
    → append_evidence now id evidence confidence s ≡ (
      ok (some (reinforced now evidence confidence row.claim)),
      rewrite_claim id (reinforced now evidence confidence) s,
    )
unfolding append_evidence
append_evidence-eq now id evidence confidence s row found =
    rw (found, append_evidence)
      (rewrite-eq id (reinforced now evidence confidence) s row (λ r. refl) found)

pub set_status-missing :
    (now : ℕ) (id : String) (status : ClaimStatus) (s : Db)
    → row_by_id id s ≡ none
    → set_status now id status s ≡ (ok none, s)
unfolding set_status
set_status-missing now id status s missing = rw (missing, set_status) refl

-- Setting the status of a claim that is there, in all its branches: the status that it has is
-- answered with the claim as it is, a transition that is not allowed with null, both without a write;
-- else the claim is stored with the status and answered.
pub set_status-eq :
    (now : ℕ) (id : String) (status : ClaimStatus) (s : Db) (row : ClaimRow)
    → row_by_id id s ≡ some row
    → set_status now id status s ≡ (
        if status_eq row.claim.status status
        then (ok (some row.claim), s)
        else if not (allowed row.claim.status status)
        then (ok none, s)
        else (
          ok (some (with_status now status row.claim)),
          rewrite_claim id (with_status now status) s,
        ))
unfolding set_status
set_status-eq now id status s row found =
    rw (found, set_status)
      (elim (Bool-cases (status_eq row.claim.status status)) [
        | inl same ↦ rw same refl
        | inr other ↦ rw other (elim (Bool-cases (allowed row.claim.status status)) [
          | inl fine ↦ rw fine (rewrite-eq id (with_status now status) s row (λ r. refl) found)
          | inr shut ↦ rw shut refl
        ])
      ])

find_where-inserted :
    (row : ClaimRow) (s : Db)
    → find_where (with_identity row.identity_key row.claim.negated) s.claims ≡ none
    → find_where (with_identity row.identity_key row.claim.negated) (s.claims ++ row ∷ [])
      ≡ some row
find_where-inserted row s free = ground (
  arith,
  find_where-append (with_identity row.identity_key row.claim.negated) s.claims row,
  eq_refl row.identity_key,
)

find-inserted :
    (row : ClaimRow) (s : Db)
    → row_by_id (key row) s ≡ none
    → find key (key row) (s.claims ++ row ∷ []) ≡ some row
find-inserted row s fresh =
    ground (arith, find-append key (key row) s.claims row, eq_refl (key row))

module _ (lower : String → String) where
  pub create_claim-eq :
      (id : String) (now : ℕ) (c : NewClaim) (s : Db)
      → find_where (with_identity (new_row lower id now c).identity_key c.negated) s.claims ≡ none
      → row_by_id id s ≡ none
      → create_claim lower id now c s ≡ (
        ok (new_row lower id now c).claim,
        record s { claims = s.claims ++ new_row lower id now c ∷ [] },
      )
  unfolding create_claim
  create_claim-eq id now c s free fresh =
      rw (free, create_claim) (insert_claim-eq (new_row lower id now c) s fresh)

  pub create_claim-taken :
      (id : String) (now : ℕ) (c : NewClaim) (s : Db) (other : ClaimRow)
      → find_where (with_identity (new_row lower id now c).identity_key c.negated) s.claims ≡ none
      → row_by_id id s ≡ some other
      → create_claim lower id now c s ≡ (err sqlite_error, s)
  unfolding create_claim
  create_claim-taken id now c s other free taken =
      rw (free, create_claim) (insert_claim-taken (new_row lower id now c) s other taken)

  pub create_claim-known :
      (id : String) (now : ℕ) (c : NewClaim) (s : Db) (other : ClaimRow)
      → find_where (with_identity (new_row lower id now c).identity_key c.negated) s.claims
        ≡ some other
      → create_claim lower id now c s ≡ (err (identity_exists (key other)), s)
  unfolding create_claim
  create_claim-known id now c s other known = rw (known, create_claim) refl

  -- A claim that was created is found by its triple and its marker, and by its id.
  pub create_claim-found :
      (id : String) (now : ℕ) (c : NewClaim) (s s' : Db) (claim : Claim)
      → create_claim lower id now c s ≡ (ok claim, s')
      → (find_by_triple lower
            (record { subject = c.subject; predicate = c.predicate; object = c.object })
            c.negated
            s'
          ≡ some claim)
        × (get_claim claim.id s' ≡ some claim)
  unfolding find_by_triple get_claim
  create_claim-found id now c s s' claim e =
      let row = new_row lower id now c in
      elim (Option-cases (find_where (with_identity row.identity_key c.negated) s.claims)) [
        | inr (other, known) ↦ cc (sym (create_claim-known id now c s other known) ∙ e)
        | inl free ↦ elim (Option-cases (row_by_id id s)) [
          | inr (other, taken) ↦ cc (sym (create_claim-taken id now c s other free taken) ∙ e)
          | inl fresh ↦
              let made = sym (create_claim-eq id now c s free fresh) ∙ e in
              let same_claim : row.claim ≡ claim = cc (ap (λ x. x.0) made) in
              let same_state = ap (λ x. x.1) made in
              rw (← same_state, ← same_claim)
                (
                  ap (Option.map to_claim) (find_where-inserted row s free),
                  ap (Option.map to_claim) (find-inserted row s fresh),
                )
        ]
      ]

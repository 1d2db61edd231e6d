-- ===== src/Claims/Runs.antt =====
-- Any sequence of calls of the claim repository.
use icos_v.Base.{
  ℕ, ◌≤◌, String, Bool, true, some, List, [], ◌∷◌, length, ◌==◌, ◌≡◌, inl, inr, refl, sym, arith,
  Bool-cases, Option-cases,
}
use mathlib.Core.List.{append-nil}
use icos_v.Base.Rows.{find_where}
use icos_v.Claims.{
  ClaimStatus, ClaimEvidence, NewClaim, Claim, ClaimRow, Db, key, row_by_id, status_eq, allowed,
  with_identity, write, rewrite, write_column, unseen, reinforced, append_evidence, with_status,
  set_status, includes, accessed, record_accessed, adjust_confidence, set_locked, set_source_type,
  set_activation, merge_related, add_related, new_row, create_claim,
}
use icos_v.Claims.Growth.{
  assertion, age, Advances, Advances-refl, Advances-trans, Extends, Extends-refl, update-Extends,
  insert-Extends, insert_claim-eq, insert_claim-taken, rewrite_claim-Extends, rewrite-eq,
}

-- `id` is the UUID that is drawn.
pub data Call : Type 0 where
  creates : (id : String) → ℕ → NewClaim → Call
  appends : ℕ → (id : String) → List ClaimEvidence → ℕ → Call
  sets_status : ℕ → (id : String) → ClaimStatus → Call
  accesses : (at now : ℕ) → List String → Call
  adjusts : ℕ → (id : String) → ℕ → Call
  locks : ℕ → (id : String) → Bool → Call
  sets_source : ℕ → (id : String) → String → Call
  activates : ℕ → (id : String) → ℕ → Call
  relates : ℕ → (id : String) → List String → Call

module _ (lower : String → String) where
  unfoldable pub step : Call → Db → Db
  step (creates id now c) s = (create_claim lower id now c s).1
  step (appends now id evidence confidence) s = (append_evidence now id evidence confidence s).1
  step (sets_status now id status) s = (set_status now id status s).1
  step (accesses at now ids) s = (record_accessed at now ids s).1
  step (adjusts now id confidence) s = (adjust_confidence now id confidence s).1
  step (locks now id locked) s = (set_locked now id locked s).1
  step (sets_source now id source) s = (set_source_type now id source s).1
  step (activates now id activation) s = (set_activation now id activation s).1
  step (relates now id related) s = (add_related now id related s).1

  unfoldable pub run : List Call → Db → Db
  unfolding step
  run [] s = s
  run (c ∷ cs) s = run cs (step c s)

rewrite-Extends :
    (id : String) (f : Claim → Claim) (s : Db) (row : ClaimRow)
    → ((r : ClaimRow) → assertion (write f r) ≡ assertion r)
    → row_by_id id s ≡ some row
    → Advances row (write f row)
    → Extends s (rewrite id f s).1
rewrite-Extends id f s row kept found advances =
    rw (rewrite-eq id f s row kept found) (rewrite_claim-Extends id f s row kept found advances)

-- A column that is not part of the life of a claim.
write_column-Extends :
    (id : String) (f : Claim → Claim) (s : Db)
    → ((r : ClaimRow) → assertion (write f r) ≡ assertion r)
    → ((r : ClaimRow) → Advances r (write f r))
    → Extends s (write_column id f s).1
write_column-Extends id f s kept advances = elim (Option-cases (row_by_id id s)) [
  | inl missing ↦ rw (missing, write_column) (Extends-refl s)
  | inr (row, found) ↦
      rw (found, write_column) (rewrite-Extends id f s row kept found (advances row))
]

append_evidence-Extends :
    (now : ℕ) (id : String) (evidence : List ClaimEvidence) (confidence : ℕ) (s : Db)
    → Extends s (append_evidence now id evidence confidence s).1
unfolding append_evidence
append_evidence-Extends now id evidence confidence s = elim (Option-cases (row_by_id id s)) [
  | inl missing ↦ rw (missing, append_evidence) (Extends-refl s)
  | inr (row, found) ↦
      rw (found, append_evidence)
        (rewrite-Extends id (reinforced now evidence confidence) s row (λ r. refl) found
          (refl, omega arith, omega arith, unseen row.claim.evidence evidence, refl))
]

age-allowed : (a b : ClaimStatus) → allowed a b ≡ true → age a ≤ age b
age-allowed a b h = ground arith

set_status-Extends :
    (now : ℕ) (id : String) (status : ClaimStatus) (s : Db)
    → Extends s (set_status now id status s).1
unfolding set_status
set_status-Extends now id status s = elim (Option-cases (row_by_id id s)) [
  | inl missing ↦ rw (missing, set_status) (Extends-refl s)
  | inr (row, found) ↦
      rw (found, set_status)
        (elim (Bool-cases (status_eq row.claim.status status)) [
          | inl same ↦ rw same (Extends-refl s)
          | inr other ↦ rw other (elim (Bool-cases (allowed row.claim.status status)) [
            | inl fine ↦ rw fine (
                rewrite-Extends id (with_status now status) s row (λ r. refl) found
                  (
                    refl,
                    age-allowed row.claim.status status fine,
                    omega arith,
                    [],
                    sym (append-nil row.claim.evidence),
                  ))
            | inr shut ↦ rw shut (Extends-refl s)
          ])
        ])
]

record_accessed-Extends :
    (at now : ℕ) (ids : List String) (s : Db) → Extends s (record_accessed at now ids s).1
unfolding record_accessed
record_accessed-Extends at now [] s = Extends-refl s
record_accessed-Extends at now (id ∷ ids) s =
    update-Extends (λ row. includes (id ∷ ids) (key row)) (accessed at now) (λ r. refl) s
      (λ j r e hit. (refl, omega arith, omega arith, [], sym (append-nil r.claim.evidence)))

add_related-Extends :
    (now : ℕ) (id : String) (ids : List String) (s : Db) → Extends s (add_related now id ids s).1
unfolding add_related
add_related-Extends now id ids s = elim (Option-cases (row_by_id id s)) [
  | inl missing ↦ rw (missing, add_related) (Extends-refl s)
  | inr (row, found) ↦
      let merged = merge_related id row.claim.related ids in
      rw (found, add_related)
        (elim (Bool-cases (length merged == length row.claim.related)) [
          | inl same ↦ rw same (Extends-refl s)
          | inr other ↦ rw other (
              rewrite-Extends id (λ c. record c { related = merged; updated_at = now }) s row
                (λ r. refl) found
                (refl, omega arith, omega arith, [], sym (append-nil row.claim.evidence)))
        ])
]

module _ (lower : String → String) where
  create_claim-Extends :
      (id : String) (now : ℕ) (c : NewClaim) (s : Db) → Extends s (create_claim lower id now c s).1
  unfolding create_claim
  create_claim-Extends id now c s =
      let row = new_row lower id now c in
      elim (Option-cases (find_where (with_identity row.identity_key c.negated) s.claims)) [
        | inl free ↦
            rw (free, create_claim)
              (elim (Option-cases (row_by_id id s)) [
                | inl fresh ↦ rw (insert_claim-eq row s fresh) (insert-Extends row s fresh free)
                | inr (other, taken) ↦ rw (insert_claim-taken row s other taken) (Extends-refl s)
              ])
        | inr (other, taken) ↦ rw (taken, create_claim) (Extends-refl s)
      ]

  -- What one call does to the claims: ids and identities stay unique, and every claim advances.
  pub step-Extends : (c : Call) (s : Db) → Extends s (step lower c s)
  unfolding step adjust_confidence set_locked set_source_type set_activation
  step-Extends (creates id now c) s = create_claim-Extends id now c s
  step-Extends (appends now id evidence confidence) s =
      append_evidence-Extends now id evidence confidence s
  step-Extends (sets_status now id status) s = set_status-Extends now id status s
  step-Extends (accesses at now ids) s = record_accessed-Extends at now ids s
  step-Extends (adjusts now id confidence) s = write_column-Extends id _ s (λ r. refl) Advances-refl
  step-Extends (locks now id locked) s = write_column-Extends id _ s (λ r. refl) Advances-refl
  step-Extends (sets_source now id source) s = write_column-Extends id _ s (λ r. refl) Advances-refl
  step-Extends (activates now id activation) s =
      write_column-Extends id _ s (λ r. refl) Advances-refl
  step-Extends (relates now id related) s = add_related-Extends now id related s

  -- Whatever calls of the repository run: ids that are unique stay unique, and so do the pairs of an
  -- identity key and a negation marker; a claim that is there stays under its id with what it asserts
  -- and when, where and how it was first asserted; its status never goes back in the order candidate,
  -- active, contradicted, retired; its count of observations never falls; and its evidence is only
  -- added to.
  pub run-Extends : (cs : List Call) (s : Db) → Extends s (run lower cs s)
  unfolding run
  run-Extends [] s = Extends-refl s
  run-Extends (c ∷ cs) s =
      let (ids, identities, rows) = step-Extends c s in
      let (ids', identities', rows') = run-Extends cs (step lower c s) in
      (
        (λ u. ids' (ids u)),
        (λ u. identities' (identities u)),
        (λ id r e.
            let (r', e', a) = rows id r e in
            let (r'', e'', a') = rows' id r' e' in (r'', e'', Advances-trans r r' r'' a a')),
      )

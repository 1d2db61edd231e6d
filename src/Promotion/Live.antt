-- ===== src/Promotion/Live.antt =====
-- How the statements of core/src/memory/promotion.service.ts count the claims that are candidate or
-- active on one subject and predicate.
use icos_v.Base.{
  ℕ, ◌≤◌, String, Bool, true, false, ◌&&◌, none, some, List, [], ◌∷◌, ◌++◌, ◌≡◌, refl, inl, inr,
  arith, eq_iff, eq_refl, Bool-cases, Option-cases,
}
use icos_v.Base.Table.{changes, find-append, UniqueKeys, UniqueKeys-append, UniqueKeys-update}
use icos_v.Base.Rows.{find_where, changes-append, changes-update}
use icos_v.Claims.{
  ClaimStatus, ClaimEvidence, NewClaim, Claim, ClaimRow, Db, key, row_by_id, status_eq, allowed,
  with_id, with_identity, write, rewrite_claim, reinforced, append_evidence, with_status,
  set_status, about, new_row, create_claim,
}
use icos_v.Base.Program.{Ends}
use icos_v.Claims.Outcomes.{
  append_evidence-missing, append_evidence-eq, set_status-missing, set_status-eq, create_claim-eq,
  create_claim-taken, create_claim-known,
}
use icos_v.Promotion.{is_live}
use icos_v.Claims.Identity.{normalize_triple_field}

abbrev pub is_live_about : (subject_norm predicate_norm : String) → ClaimRow → Bool
is_live_about a b row = about a b row && is_live row.claim.status

-- Ids are unique, and at most one claim on a subject and predicate is candidate or active.
abbrev pub IsCoherent : Db → Type 0
IsCoherent s = UniqueKeys key s.claims × ((a b : String) → changes (is_live_about a b) s.claims ≤ 1)

-- An UPDATE of a row that makes nothing live.
rewrite_claim-IsCoherent :
    (id : String) (f : Claim → Claim) (s : Db) (row : ClaimRow)
    → ((r : ClaimRow) → key (write f r) ≡ key r)
    → row_by_id id s ≡ some row
    → (is_live (f row.claim).status ≡ true → is_live row.claim.status ≡ true)
    → IsCoherent s
    → IsCoherent (rewrite_claim id f s)
rewrite_claim-IsCoherent id f s row kept found quiet (u, one) = (
  UniqueKeys-update key (with_id id) (write f) kept s.claims u,
  (λ a b.
      let moved = changes-update key (is_live_about a b) (write f) id s.claims row u found in
      let before = one a b in ground arith),
)

-- The rival gone, no claim of the pair is live.
rewrite_claim-none :
    (id : String) (f : Claim → Claim) (s : Db) (row : ClaimRow) (a b : String)
    → row_by_id id s ≡ some row
    → is_live_about a b row ≡ true
    → is_live (f row.claim).status ≡ false
    → IsCoherent s
    → changes (is_live_about a b) (rewrite_claim id f s).claims ≡ 0
rewrite_claim-none id f s row a b found live gone (u, one) =
    let moved = changes-update key (is_live_about a b) (write f) id s.claims row u found in
    let before = one a b in ground arith

-- A status that is not more live than the one that is there.
pub set_status-IsCoherent :
    (now : ℕ) (id : String) (status : ClaimStatus) (s : Db)
    → ((row : ClaimRow)
        → row_by_id id s ≡ some row
        → is_live status ≡ true
        → is_live row.claim.status ≡ true)
    → IsCoherent s
    → IsCoherent (set_status now id status s).1
set_status-IsCoherent now id status s quiet h = elim (Option-cases (row_by_id id s)) [
  | inl missing ↦ rw (set_status-missing now id status s missing) h
  | inr (row, found) ↦
      let written =
        rewrite_claim-IsCoherent id (with_status now status) s row (λ r. refl) found
          (quiet row found) h in
      rw (set_status-eq now id status s row found)
        (elim (Bool-cases (status_eq row.claim.status status)) [
          | inl same ↦ rw same h
          | inr other ↦ rw other (elim (Bool-cases (allowed row.claim.status status)) [
            | inl fine ↦ rw fine written
            | inr shut ↦ rw shut h
          ])
        ])
]

-- A live claim of the pair that is allowed to leave.
pub set_status-none :
    (now : ℕ) (id : String) (status : ClaimStatus) (s : Db) (row : ClaimRow) (a b : String)
    → row_by_id id s ≡ some row
    → is_live_about a b row ≡ true
    → status_eq row.claim.status status ≡ false
    → allowed row.claim.status status ≡ true
    → is_live status ≡ false
    → IsCoherent s
    → changes (is_live_about a b) (set_status now id status s).1.claims ≡ 0
set_status-none now id status s row a b found live other fine gone h =
    rw (set_status-eq now id status s row found, other, fine)
      (rewrite_claim-none id (with_status now status) s row a b found live gone h)

pub append_evidence-IsCoherent :
    (now : ℕ) (id : String) (evidence : List ClaimEvidence) (confidence : ℕ) (s : Db)
    → IsCoherent s
    → IsCoherent (append_evidence now id evidence confidence s).1
append_evidence-IsCoherent now id evidence confidence s h = elim (Option-cases (row_by_id id s)) [
  | inl missing ↦ rw (append_evidence-missing now id evidence confidence s missing) h
  | inr (row, found) ↦ rw (append_evidence-eq now id evidence confidence s row found) (
      rewrite_claim-IsCoherent id (reinforced now evidence confidence) s row (λ r. refl) found
        (λ live. live) h)
]

pub eq_of_about :
    (a b : String) (row : ClaimRow)
    → about a b row ≡ true
    → (row.subject_norm ≡ a) × (row.predicate_norm ≡ b)
eq_of_about a b row h = ground (arith, eq_iff row.subject_norm a, eq_iff row.predicate_norm b)

-- An INSERT where no claim of the pair is live.
insert-IsCoherent :
    (row : ClaimRow) (s : Db)
    → row_by_id (key row) s ≡ none
    → changes (is_live_about row.subject_norm row.predicate_norm) s.claims ≡ 0
    → IsCoherent s
    → IsCoherent (record s { claims = s.claims ++ row ∷ [] })
insert-IsCoherent row s fresh free (u, one) = (
  UniqueKeys-append key s.claims row fresh u,
  (λ a b.
      let before = one a b in
      let added = changes-append (is_live_about a b) s.claims row in
      elim (Bool-cases (about a b row)) [
        | inl same ↦
            let (on_subject, on_predicate) = eq_of_about a b row same in
            let none_yet : changes (is_live_about a b) s.claims ≡ 0 =
              rw (← on_subject, ← on_predicate) free in
            ground arith
        | inr other ↦ ground arith
      ]),
)

-- The claim is stored under its id.
abbrev pub IsStored : Claim → Db → Type 0
IsStored c s = (row : ClaimRow) × (row_by_id c.id s ≡ some row) × (row.claim ≡ c)

module _ (lower : String → String) where
  pub create_claim-IsCoherent :
      (id : String) (now : ℕ) (c : NewClaim) (s : Db)
      → changes
          (is_live_about
            (normalize_triple_field lower c.subject)
            (normalize_triple_field lower c.predicate))
          s.claims
        ≡ 0
      → IsCoherent s
      → Ends
          (λ created s'. IsCoherent s' × IsStored created s' × (created.status ≡ c.status))
          IsCoherent
          (create_claim lower id now c s)
  create_claim-IsCoherent id now c s free h =
      let row = new_row lower id now c in
      elim (Option-cases (find_where (with_identity row.identity_key c.negated) s.claims)) [
        | inr (other, known) ↦ rw (create_claim-known lower id now c s other known) h
        | inl unknown_triple ↦ elim (Option-cases (row_by_id id s)) [
          | inr (other, taken) ↦
              rw (create_claim-taken lower id now c s other unknown_triple taken) h
          | inl fresh ↦ rw (create_claim-eq lower id now c s unknown_triple fresh) (
            insert-IsCoherent row s fresh free h,
            (row, ground (arith, find-append key id s.claims row, eq_refl id), refl),
            refl,
          )
        ]
      ]

-- ===== src/Claims.antt =====
-- core/src/memory/sqlite-claim.repository.ts: the claims that the memory holds, each operation one
-- uninterrupted run of the event loop. A UUID and the readings of the clock are arguments; `lower` is
-- the platform's `toLowerCase`. The CHECKs of the table keep unknown statuses out, so `toClaim` does
-- not throw here.
mod Table
pub mod Identity
pub mod Listing
pub mod Candidates
pub mod Growth
pub mod Runs
pub mod Outcomes
mod Tests
unfoldable pub use Table.*
use mathlib.Core.Option
use icos_v.Base.{
  ℕ, suc, String, Bool, true, false, not, ◌&&◌, ◌||◌, Option, none, some, List, [], ◌∷◌, ◌++◌, map,
  leb, str_eq, if◌then◌else◌, length, ◌==◌,
}
use icos_v.Base.Exec.{Exec, ok, err, pure, throw, gets, or_throw, modify, ◌>>=◌, ◌>>◌}
use icos_v.Base.Table.{select, update, find}
use icos_v.Base.Rows.{find_where, reverse, take}
use icos_v.Claims.Identity.{Triple, normalize_triple_field, identity_key}

abbrev pub negated_eq : Bool → Bool → Bool
negated_eq true b = b
negated_eq false b = not b

-- WHERE identity_key = ? AND negated = ?
abbrev pub with_identity : String → Bool → ClaimRow → Bool
with_identity k negated row = str_eq row.identity_key k && negated_eq row.claim.negated negated

abbrev pub with_id : String → ClaimRow → Bool
with_id id row = str_eq (key row) id

abbrev pub write : (Claim → Claim) → ClaimRow → ClaimRow
write f row = record row { claim = f row.claim }

-- UPDATE claims SET … WHERE id = ?
abbrev pub rewrite_claim : String → (Claim → Claim) → Db → Db
rewrite_claim id f s = record s { claims = update (with_id id) (write f) s.claims }

-- The UPDATE of a row that was found, and its answer.
abbrev pub rewrite : String → (Claim → Claim) → Repo (Option Claim)
rewrite id f = do
  modify (rewrite_claim id f)
  updated ← gets (row_by_id id)
  row ← or_throw updated (vanished id)
  pure (some (to_claim row))

-- `adjustConfidence`, `setLocked`, `setSourceType` and `setActivation` write one column.
abbrev pub write_column : String → (Claim → Claim) → Repo (Option Claim)
write_column id f s = elim (row_by_id id s) [ none ↦ (ok none, s) | some row ↦ rewrite id f s ]

abbrev pub evidence_has : String → List ClaimEvidence → Bool
evidence_has id [] = false
evidence_has id (e ∷ es) = str_eq e.candidate_id id || evidence_has id es

-- `evidence.filter((item) => !seen.has(item.candidateId))`
unfoldable pub unseen : List ClaimEvidence → List ClaimEvidence → List ClaimEvidence
unseen seen evidence = select (λ e. not (evidence_has e.candidate_id seen)) evidence

-- `evidence.at(-1)?.candidateId ?? current.lastSurfacedAt`
unfoldable pub last_surfaced : String → List ClaimEvidence → String
last_surfaced current [] = current
last_surfaced current (e ∷ es) = last_surfaced e.candidate_id es

abbrev pub reinforced : ℕ → List ClaimEvidence → ℕ → Claim → Claim
reinforced now evidence confidence c = record c {
  evidence = c.evidence ++ unseen c.evidence evidence;
  last_surfaced_at = last_surfaced c.last_surfaced_at evidence;
  confidence = confidence;
  times_observed = suc c.times_observed;
  updated_at = now;
}

unfoldable pub append_evidence : ℕ → String → List ClaimEvidence → ℕ → Repo (Option Claim)
unfolding unseen last_surfaced
append_evidence now id evidence confidence s = elim (row_by_id id s) [
  | none ↦ (ok none, s)
  | some row ↦ rewrite id (reinforced now evidence confidence) s
]

abbrev pub with_status : ℕ → ClaimStatus → Claim → Claim
with_status now status c = record c { status = status; updated_at = now }

unfoldable pub set_status : ℕ → String → ClaimStatus → Repo (Option Claim)
set_status now id status s = elim (row_by_id id s) [
  | none ↦ (ok none, s)
  | some row ↦
      if status_eq row.claim.status status
      then (ok (some (to_claim row)), s)
      else if not (allowed row.claim.status status)
      then (ok none, s)
      else rewrite id (with_status now status) s
]

unfoldable pub includes : List String → String → Bool
includes [] id = false
includes (x ∷ xs) id = str_eq x id || includes xs id

abbrev pub accessed : ℕ → ℕ → Claim → Claim
accessed at now c = record c {
  access_count = suc c.access_count;
  last_accessed_at = some at;
  updated_at = now;
}

-- WHERE id IN (…)
unfoldable pub record_accessed : (at now : ℕ) → List String → Repo (Unit {0})
unfolding includes
record_accessed at now [] s = (ok tt, s)
record_accessed at now (id ∷ ids) s = (
  ok tt,
  record s {
    claims = update (λ row. includes (id ∷ ids) (key row)) (write (accessed at now)) s.claims;
  },
)

unfoldable pub adjust_confidence : ℕ → String → ℕ → Repo (Option Claim)
adjust_confidence now id confidence =
    write_column id (λ c. record c { confidence = confidence; updated_at = now })

unfoldable pub set_locked : ℕ → String → Bool → Repo (Option Claim)
set_locked now id locked = write_column id (λ c. record c { locked = locked; updated_at = now })

unfoldable pub set_source_type : ℕ → String → String → Repo (Option Claim)
set_source_type now id source_type =
    write_column id (λ c. record c { source_type = some source_type; updated_at = now })

unfoldable pub set_activation : ℕ → String → ℕ → Repo (Option Claim)
set_activation now id activation =
    write_column id (λ c. record c { activation = some activation; updated_at = now })

-- The loop of `addRelated`: `merged` after the ids that are left.
unfoldable pub merge_related : String → List String → List String → List String
unfolding includes
merge_related id merged [] = merged
merge_related id merged (x ∷ xs) =
    let kept = merge_related id merged xs in
    let pushed = merge_related id (merged ++ x ∷ []) xs in
    if not (str_eq x id) && not (includes merged x) then pushed else kept

unfoldable pub add_related : ℕ → String → List String → Repo (Option Claim)
unfolding merge_related
add_related now id related_ids s = elim (row_by_id id s) [
  | none ↦ (ok none, s)
  | some row ↦
      let merged = merge_related id row.claim.related related_ids in
      if length merged == length row.claim.related
      then (ok (some (to_claim row)), s)
      else rewrite id (λ c. record c { related = merged; updated_at = now }) s
]

unfoldable pub get_claim : String → Db → Option Claim
get_claim id s = Option.map to_claim (row_by_id id s)

-- INSERT INTO claims, after the SELECT of the same identity found none.
abbrev pub insert_row : ClaimRow → Repo (Unit {0})
insert_row row s = elim (row_by_id (key row) s) [
  | none ↦ (ok tt, record s { claims = s.claims ++ row ∷ [] })
  | some _ ↦ (err sqlite_error, s)
]

abbrev pub insert_claim : ClaimRow → Repo Claim
insert_claim row = do
  insert_row row
  found ← gets (row_by_id (key row))
  stored ← or_throw found (vanished (key row))
  pure (to_claim stored)

-- WHERE subject_norm = ? AND predicate_norm = ?
abbrev pub about : (subject_norm predicate_norm : String) → ClaimRow → Bool
about a b row = str_eq row.subject_norm a && str_eq row.predicate_norm b

module _ (lower : String → String) where
  abbrev pub new_row : String → ℕ → NewClaim → ClaimRow
  new_row id now c = record {
    claim = record {
      id = id;
      subject = c.subject;
      predicate = c.predicate;
      object = c.object;
      category = c.category;
      status = c.status;
      extractor_confidence = c.extractor_confidence;
      confidence = c.confidence;
      first_asserted_at = c.first_asserted_at;
      last_surfaced_at = c.last_surfaced_at;
      origin = c.origin;
      negated = c.negated;
      source_type = none;
      summary = none;
      evidence = c.evidence;
      related = [];
      entities = c.entities;
      times_observed = 1;
      access_count = 0;
      last_accessed_at = none;
      activation = none;
      locked = false;
      emotional = none;
      promotion = c.promotion;
      created_at = now;
      updated_at = now;
    };
    identity_key =
        identity_key lower
          (record { subject = c.subject; predicate = c.predicate; object = c.object });
    subject_norm = normalize_triple_field lower c.subject;
    predicate_norm = normalize_triple_field lower c.predicate;
  }

  unfoldable pub create_claim : String → ℕ → NewClaim → Repo Claim
  create_claim id now c s =
      let row = new_row id now c in
      elim (find_where (with_identity row.identity_key c.negated) s.claims) [
        | none ↦ insert_claim row s
        | some existing ↦ (err (identity_exists (key existing)), s)
      ]

  unfoldable pub find_by_triple : Triple → Bool → Db → Option Claim
  find_by_triple triple negated s =
      Option.map to_claim (find_where (with_identity (identity_key lower triple) negated) s.claims)

  unfoldable pub find_by_subject_predicate : (subject predicate : String) → Db → List Claim
  find_by_subject_predicate subject predicate s = map to_claim (
      reverse (
        select
          (about (normalize_triple_field lower subject) (normalize_triple_field lower predicate))
          s.claims))

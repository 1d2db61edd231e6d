-- ===== src/Claims/Growth.antt =====
-- What an UPDATE or an INSERT of the claim repository keeps of every claim.
use icos_v.Base.{
  ℕ, ◌≤◌, String, Bool, true, ◌&&◌, none, some, List, [], ◌∷◌, ◌++◌, if◌then◌else◌, ◌≡◌, inl, inr,
  refl, sym, ap, ◌∙◌, arith, str_eq, eq_iff, eq_refl, Bool-cases,
}
use mathlib.Core.Option
use mathlib.Core.List.{append_assoc, append-nil}
use icos_v.Base.Exec.{ok, err}
use icos_v.Base.Table.{
  update, find-key, find-append, find-update, UniqueKeys, UniqueKeys-append, UniqueKeys-update,
}
use icos_v.Base.Rows.{find_where, find_where-append, find_where-update}
use icos_v.Claims.{
  ClaimStatus, candidate, active, contradicted, retired, ClaimCategory, ClaimOrigin, ClaimEvidence,
  Claim, ClaimRow, Db, key, row_by_id, negated_eq, with_identity, with_id, write, rewrite_claim,
  rewrite, insert_claim, sqlite_error,
}

-- What no call rewrites.
pub record Assertion : Type 0 where
  pub id : String
  pub identity_key : String
  pub subject_norm : String
  pub predicate_norm : String
  pub subject : String
  pub predicate : String
  pub object : String
  pub category : ClaimCategory
  pub extractor_confidence : ℕ
  pub first_asserted_at : String
  pub origin : ClaimOrigin
  pub negated : Bool
  pub entities : List String
  pub promotion : String
  pub created_at : ℕ

abbrev pub assertion : ClaimRow → Assertion
assertion row = record {
  id = row.claim.id;
  identity_key = row.identity_key;
  subject_norm = row.subject_norm;
  predicate_norm = row.predicate_norm;
  subject = row.claim.subject;
  predicate = row.claim.predicate;
  object = row.claim.object;
  category = row.claim.category;
  extractor_confidence = row.claim.extractor_confidence;
  first_asserted_at = row.claim.first_asserted_at;
  origin = row.claim.origin;
  negated = row.claim.negated;
  entities = row.claim.entities;
  promotion = row.claim.promotion;
  created_at = row.claim.created_at;
}

-- How far a claim is in its life.
abbrev pub age : ClaimStatus → ℕ
age candidate = 0
age active = 1
age contradicted = 2
age retired = 3

abbrev pub Advances : ClaimRow → ClaimRow → Type 0
Advances r r' =
    (assertion r' ≡ assertion r)
    × (age r.claim.status ≤ age r'.claim.status)
    × (r.claim.times_observed ≤ r'.claim.times_observed)
    × (more : List ClaimEvidence) × (r'.claim.evidence ≡ r.claim.evidence ++ more)

pub Advances-refl : (r : ClaimRow) → Advances r r
Advances-refl r = (refl, omega arith, omega arith, [], sym (append-nil r.claim.evidence))

pub Advances-trans : (a b c : ClaimRow) → Advances a b → Advances b c → Advances a c
Advances-trans a b c (e, older, seen, more, f) (e', older', seen', more', f') = (
  e' ∙ e,
  omega arith,
  omega arith,
  more ++ more',
  f' ∙ rw f (append_assoc a.claim.evidence more more'),
)

-- UNIQUE (identity_key, negated)
abbrev pub UniqueIdentities : List ClaimRow → Type 0
UniqueIdentities [] = Unit
UniqueIdentities (r ∷ rows) =
    (find_where (with_identity r.identity_key r.claim.negated) rows ≡ none) × UniqueIdentities rows

abbrev pub Extends : Db → Db → Type 0
Extends s s' =
    (UniqueKeys key s.claims → UniqueKeys key s'.claims)
    × (UniqueIdentities s.claims → UniqueIdentities s'.claims)
    × ((id : String) (r : ClaimRow)
        → row_by_id id s ≡ some r
        → (r' : ClaimRow) × (row_by_id id s' ≡ some r') × Advances r r')

pub Extends-refl : (s : Db) → Extends s s
Extends-refl s = ((λ u. u), (λ u. u), (λ id r e. (r, e, Advances-refl r)))

UniqueIdentities-append :
    (rows : List ClaimRow) (r : ClaimRow)
    → find_where (with_identity r.identity_key r.claim.negated) rows ≡ none
    → UniqueIdentities rows
    → UniqueIdentities (rows ++ r ∷ [])
unfolding find_where
UniqueIdentities-append [] r e u = (refl, tt)
UniqueIdentities-append (x ∷ rows) r e (fresh, u) = ground (
  arith,
  find_where-append (with_identity x.identity_key x.claim.negated) rows r,
  UniqueIdentities-append rows r,
  eq_iff x.identity_key r.identity_key,
  eq_iff r.identity_key x.identity_key,
)

-- An UPDATE of other columns than those of the assertion.
module _ (q : ClaimRow → Bool) (f : Claim → Claim)
    (kept : (r : ClaimRow) → assertion (write f r) ≡ assertion r) where
  kept_identity :
      (k : String) (n : Bool) (r : ClaimRow) → with_identity k n (write f r) ≡ with_identity k n r
  kept_identity k n r =
      ap (λ (a : Assertion). str_eq a.identity_key k && negated_eq a.negated n) (kept r)

  updated_identity :
      (x : ClaimRow) (rows : List ClaimRow)
      → find_where (with_identity x.identity_key x.claim.negated) rows ≡ none
      → find_where
          (with_identity
            (if q x then write f x else x).identity_key
            (if q x then write f x else x).claim.negated)
          rows
        ≡ none
  updated_identity x rows h = elim (Bool-cases (q x)) [
    | inl yes_ ↦ rw (yes_, ap (λ (a : Assertion). a.negated) (kept x)) h
    | inr no_ ↦ rw no_ h
  ]

  UniqueIdentities-update :
      (rows : List ClaimRow) → UniqueIdentities rows → UniqueIdentities (update q (write f) rows)
  unfolding update
  UniqueIdentities-update [] u = tt
  UniqueIdentities-update (x ∷ rows) (fresh, u) = (
    updated_identity x (update q (write f) rows) (
        find_where-update (with_identity x.identity_key x.claim.negated) q (write f) rows
          (kept_identity x.identity_key x.claim.negated)
        ∙ ap (Option.map (λ r. if q r then write f r else r)) fresh),
    UniqueIdentities-update rows u,
  )

  pub update-Extends :
      (s : Db)
      → ((id : String) (r : ClaimRow)
          → row_by_id id s ≡ some r
          → q r ≡ true
          → Advances r (write f r))
      → Extends s (record s { claims = update q (write f) s.claims })
  update-Extends s advances = (
    UniqueKeys-update key q (write f) (λ r. ap (λ (a : Assertion). a.id) (kept r)) s.claims,
    UniqueIdentities-update s.claims,
    (λ id r e. (
      (if q r then write f r else r),
      rw (find-update key q (write f) (λ x. ap (λ (a : Assertion). a.id) (kept x)), e) refl,
      elim (Bool-cases (q r)) [
        | inl hit ↦ rw hit (advances id r e hit)
        | inr other ↦ rw other (Advances-refl r)
      ],
    )),
  )

pub insert-Extends :
    (row : ClaimRow) (s : Db)
    → row_by_id (key row) s ≡ none
    → find_where (with_identity row.identity_key row.claim.negated) s.claims ≡ none
    → Extends s (record s { claims = s.claims ++ row ∷ [] })
insert-Extends row s fresh free = (
  UniqueKeys-append key s.claims row fresh,
  UniqueIdentities-append s.claims row free,
  (λ id r e. (r, rw (find-append, e), Advances-refl r)),
)

found_same :
    (j id : String) (s : Db) (r row : ClaimRow)
    → row_by_id j s ≡ some r
    → row_by_id id s ≡ some row
    → with_id id r ≡ true
    → r ≡ row
found_same j id s r row e found same =
    let name = find-key key j s.claims r e in ground (arith, eq_iff (key r) id)

-- An UPDATE of one row that was found.
pub rewrite_claim-Extends :
    (id : String) (f : Claim → Claim) (s : Db) (row : ClaimRow)
    → ((r : ClaimRow) → assertion (write f r) ≡ assertion r)
    → row_by_id id s ≡ some row
    → Advances row (write f row)
    → Extends s (rewrite_claim id f s)
rewrite_claim-Extends id f s row kept found advances =
    update-Extends (with_id id) f kept s
      (λ j r e hit. let same = found_same j id s r row e found hit in rw same advances)

pub find-rewrite_claim :
    (id : String) (f : Claim → Claim) (s : Db) (row : ClaimRow)
    → ((r : ClaimRow) → assertion (write f r) ≡ assertion r)
    → row_by_id id s ≡ some row
    → row_by_id id (rewrite_claim id f s) ≡ some (write f row)
find-rewrite_claim id f s row kept found =
    let name = find-key key id s.claims row found in
    rw (find-update key (with_id id) (write f) (λ x. ap (λ (a : Assertion). a.id) (kept x)), found)
      (rw (name, eq_refl id) refl)

-- The answer of that UPDATE, and the state after it.
pub rewrite-eq :
    (id : String) (f : Claim → Claim) (s : Db) (row : ClaimRow)
    → ((r : ClaimRow) → assertion (write f r) ≡ assertion r)
    → row_by_id id s ≡ some row
    → rewrite id f s ≡ (ok (some (f row.claim)), rewrite_claim id f s)
rewrite-eq id f s row kept found = rw (find-rewrite_claim id f s row kept found) refl

pub insert_claim-eq :
    (row : ClaimRow) (s : Db)
    → row_by_id (key row) s ≡ none
    → insert_claim row s ≡ (ok row.claim, record s { claims = s.claims ++ row ∷ [] })
insert_claim-eq row s fresh =
    ground (arith, find-append key (key row) s.claims row, eq_refl (key row))

pub insert_claim-taken :
    (row : ClaimRow) (s : Db) (other : ClaimRow)
    → row_by_id (key row) s ≡ some other
    → insert_claim row s ≡ (err sqlite_error, s)
insert_claim-taken row s other taken = ground arith

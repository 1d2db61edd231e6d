-- ===== src/Claims/Listing.antt =====
-- `listClaims` and `listClaimsByTime` of core/src/memory/sqlite-claim.repository.ts.
use icos_v.Base.{
  ℕ, String, Bool, true, false, ◌&&◌, ◌||◌, Option, none, some, List, [], ◌∷◌, map, leb, str_eq,
  if◌then◌else◌,
}
use icos_v.Base.Table.{select}
use icos_v.Base.Sort.{sort}
use icos_v.Base.Rows.{reverse, take}
use icos_v.Claims.{
  ClaimStatus, ClaimCategory, fact, preference, relationship, procedure, ClaimOrigin, of_user,
  of_agent, MemoryCandidate, ClaimEvidence, Claim, ClaimRow, to_claim, Db, status_eq,
}

abbrev category_eq : ClaimCategory → ClaimCategory → Bool
category_eq fact fact = true
category_eq preference preference = true
category_eq relationship relationship = true
category_eq procedure procedure = true
category_eq _ _ = false

abbrev origin_eq : ClaimOrigin → ClaimOrigin → Bool
origin_eq of_user of_user = true
origin_eq of_agent of_agent = true
origin_eq _ _ = false

-- `Math.min(options?.limit ?? 50, MAX_LIST_LIMIT)`
abbrev pub capped : Option ℕ → ℕ
capped none = 50
capped (some limit) = if leb limit 200 then limit else 200

-- A clause that is left out when its option is undefined.
abbrev pub given : {A : Type 0} → (A → Bool) → Option A → Bool
given test none = true
given test (some a) = test a

pub record ListOptions : Type 0 where
  pub status : Option ClaimStatus
  pub category : Option ClaimCategory
  pub origin : Option ClaimOrigin
  pub limit : Option ℕ

abbrev pub is_listed : ListOptions → ClaimRow → Bool
is_listed options row =
    given (status_eq row.claim.status) options.status
    && given (category_eq row.claim.category) options.category
    && given (origin_eq row.claim.origin) options.origin

unfoldable pub list_claims : ListOptions → Db → List Claim
list_claims options s =
    map to_claim (take (capped options.limit) (reverse (select (is_listed options) s.claims)))

pub record TimeOptions : Type 0 where
  pub from : Option ℕ
  pub to : Option ℕ
  pub session_id : Option String
  pub limit : Option ℕ

-- A candidate of the session is the evidence.
abbrev pub is_from : String → ClaimEvidence → List MemoryCandidate → Bool
is_from session evidence [] = false
is_from session evidence (c ∷ cs) =
    (str_eq c.id evidence.candidate_id && str_eq c.session_id session)
    || is_from session evidence cs

-- EXISTS (SELECT 1 FROM memory_candidates AS mc, json_each(claims.evidence_json) AS je …)
abbrev pub rests_on : String → List MemoryCandidate → List ClaimEvidence → Bool
rests_on session candidates [] = false
rests_on session candidates (e ∷ es) =
    is_from session e candidates || rests_on session candidates es

abbrev pub is_in_window : TimeOptions → List MemoryCandidate → ClaimRow → Bool
is_in_window options candidates row =
    given (λ from. leb from row.claim.created_at) options.from
    && given (leb row.claim.created_at) options.to
    && given (λ session. rests_on session candidates row.claim.evidence) options.session_id

-- ORDER BY created_at DESC, rowid DESC: a stable sort of the newest rows first
abbrev pub is_newer : ClaimRow → ClaimRow → Bool
is_newer a b = leb b.claim.created_at a.claim.created_at

unfoldable pub list_claims_by_time : TimeOptions → Db → List Claim
list_claims_by_time options s = map to_claim (
    take (capped options.limit)
      (sort is_newer (reverse (select (is_in_window options s.memory_candidates) s.claims))))

-- ===== src/Claims/Table.antt =====
-- core/src/memory/claim.ts and memory-candidate.ts, and the tables `claims` and `memory_candidates` of
-- core/src/session/database.ts. A confidence is counted in millionths, a time in milliseconds, and the
-- documents in JSON columns are the lists that they hold.
use icos_v.Base.{ℕ, String, Bool, true, false, Option, List}
use icos_v.Base.Exec.{Exec}
use icos_v.Base.Table.{find}

pub data ClaimStatus : Type 0 where
  candidate active contradicted retired : ClaimStatus

pub data ClaimCategory : Type 0 where
  fact preference relationship procedure : ClaimCategory

pub data ClaimOrigin : Type 0 where
  of_user of_agent : ClaimOrigin

-- `CandidateSourceRole`, and the role of an evidence.
pub data SourceRole : Type 0 where
  user assistant unknown : SourceRole

pub data MemoryCandidateKind : Type 0 where
  a_fact a_preference person a_relationship project work skill : MemoryCandidateKind
  hobby interest goal decision event observation : MemoryCandidateKind

pub record MemoryCandidate : Type 0 where
  pub id : String
  pub session_id : String
  pub message_id : ℕ
  pub kind : MemoryCandidateKind
  pub subject : String
  pub predicate : String
  pub object : String
  pub confidence : ℕ
  pub importance : ℕ
  pub stability : ℕ
  pub extractor_model : String
  pub extractor_version : String
  pub extracted_at : ℕ
  pub source_role : SourceRole
  pub negated : Bool

pub record ClaimEvidence : Type 0 where
  pub candidate_id : String
  pub role : SourceRole

pub record NewClaim : Type 0 where
  pub subject : String
  pub predicate : String
  pub object : String
  pub category : ClaimCategory
  pub status : ClaimStatus
  pub extractor_confidence : ℕ
  pub confidence : ℕ
  pub first_asserted_at : String
  pub last_surfaced_at : String
  pub origin : ClaimOrigin
  pub negated : Bool
  pub evidence : List ClaimEvidence
  pub entities : List String
  pub promotion : String

pub record Claim : Type 0 where
  pub id : String
  pub subject : String
  pub predicate : String
  pub object : String
  pub category : ClaimCategory
  pub status : ClaimStatus
  pub extractor_confidence : ℕ
  pub confidence : ℕ
  pub first_asserted_at : String
  pub last_surfaced_at : String
  pub origin : ClaimOrigin
  pub negated : Bool
  pub source_type : Option String
  pub summary : Option String
  pub evidence : List ClaimEvidence
  pub related : List String
  pub entities : List String
  pub times_observed : ℕ
  pub access_count : ℕ
  pub last_accessed_at : Option ℕ
  pub activation : Option ℕ
  pub locked : Bool
  pub emotional : Option String
  pub promotion : String
  pub created_at : ℕ
  pub updated_at : ℕ

-- The columns that `toClaim` reads, under their names there, and the three that it does not read.
pub record ClaimRow : Type 0 where
  pub claim : Claim
  pub identity_key : String
  pub subject_norm : String
  pub predicate_norm : String

abbrev pub to_claim : ClaimRow → Claim
to_claim row = row.claim

-- `sqlite_error` is a violated PRIMARY KEY or unique index.
pub data Error : Type 0 where
  identity_exists vanished : String → Error
  sqlite_error : Error

pub record Db : Type 0 where
  pub claims : List ClaimRow
  pub memory_candidates : List MemoryCandidate

abbrev pub Repo : Type 0 → Type 0
Repo A = Exec Error Db A

abbrev pub key : ClaimRow → String
key row = row.claim.id

abbrev pub row_by_id : String → Db → Option ClaimRow
row_by_id id s = find key id s.claims

abbrev pub status_eq : ClaimStatus → ClaimStatus → Bool
status_eq candidate candidate = true
status_eq active active = true
status_eq contradicted contradicted = true
status_eq retired retired = true
status_eq _ _ = false

-- ALLOWED_TRANSITIONS[from].includes(to)
abbrev pub allowed : ClaimStatus → ClaimStatus → Bool
allowed candidate active = true
allowed candidate retired = true
allowed active contradicted = true
allowed active retired = true
allowed contradicted retired = true
allowed _ _ = false

abbrev pub category_from_kind : MemoryCandidateKind → ClaimCategory
category_from_kind a_preference = preference
category_from_kind a_relationship = relationship
category_from_kind _ = fact

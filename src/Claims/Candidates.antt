-- ===== src/Claims/Candidates.antt =====
-- core/src/memory/sqlite-memory-candidate.repository.ts: the candidates that an extraction saved.
use icos_v.Base.{ℕ, String, Bool, Option, none, some, List, [], ◌∷◌, ◌++◌, str_eq}
use icos_v.Base.Exec.{ok, err, pure, transaction, ◌>>=◌, ◌>>◌}
use icos_v.Base.Table.{select, find}
use icos_v.Base.Rows.{reverse, take}
use icos_v.Claims.{SourceRole, MemoryCandidateKind, MemoryCandidate, sqlite_error, Db, Repo}
use icos_v.Claims.Listing.{capped, given}

-- A candidate with the provenance and the extractor's marks.
pub record NewMemoryCandidate : Type 0 where
  pub session_id : String
  pub message_id : ℕ
  pub kind : MemoryCandidateKind
  pub subject : String
  pub predicate : String
  pub object : String
  pub confidence : ℕ
  pub importance : ℕ
  pub stability : ℕ
  pub extractor_model : String
  pub extractor_version : String
  pub source_role : SourceRole
  pub negated : Bool

abbrev pub candidate_key : MemoryCandidate → String
candidate_key c = c.id

abbrev pub saved_as : String → ℕ → NewMemoryCandidate → MemoryCandidate
saved_as id extracted_at item = record {
  id = id;
  session_id = item.session_id;
  message_id = item.message_id;
  kind = item.kind;
  subject = item.subject;
  predicate = item.predicate;
  object = item.object;
  confidence = item.confidence;
  importance = item.importance;
  stability = item.stability;
  extractor_model = item.extractor_model;
  extractor_version = item.extractor_version;
  extracted_at = extracted_at;
  source_role = item.source_role;
  negated = item.negated;
}

abbrev pub find_candidate : String → Db → Option MemoryCandidate
find_candidate id s = find candidate_key id s.memory_candidates

abbrev insert_candidate : MemoryCandidate → Repo (Unit {0})
insert_candidate c s = elim (find_candidate c.id s) [
  | none ↦ (ok tt, record s { memory_candidates = s.memory_candidates ++ c ∷ [] })
  | some _ ↦ (err sqlite_error, s)
]

-- Each item with the UUID that it draws.
abbrev pub save_all : ℕ → List (String × NewMemoryCandidate) → Repo (List MemoryCandidate)
save_all extracted_at [] = pure []
save_all extracted_at ((id, item) ∷ items) = do
  insert_candidate (saved_as id extracted_at item)
  rest ← save_all extracted_at items
  pure (saved_as id extracted_at item ∷ rest)

unfoldable pub save_candidates :
    ℕ → List (String × NewMemoryCandidate) → Repo (List MemoryCandidate)
save_candidates extracted_at [] = pure []
save_candidates extracted_at (item ∷ items) = transaction (save_all extracted_at (item ∷ items))

unfoldable pub get_candidate : String → Db → Option MemoryCandidate
get_candidate id s = find_candidate id s

unfoldable pub list_candidates : Option String → Option ℕ → Db → List MemoryCandidate
list_candidates session limit s =
    take (capped limit)
      (reverse (select (λ c. given (str_eq c.session_id) session) s.memory_candidates))

-- ===== src/Promotion/Rivals.antt =====
-- The claim that `apply` of core/src/memory/promotion.service.ts finds in the way of a candidate.
use icos_v.Base.{
  String, true, Option, none, some, List, [], ◌∷◌, map, ◌≡◌, refl, sym, ap, subst, ◌∙◌, arith, All,
  All-map, All-weaken,
}
use mathlib.Core.Option.{some_inj}
use icos_v.Base.Table.{select, changes, UniqueKeys, All-find, All-select}
use icos_v.Base.Rows.{
  reverse, find_where-All, changes-reverse, changes-select, changes-map, changes-zero, All-reverse,
}
use icos_v.Claims.{
  MemoryCandidate, Claim, ClaimRow, Db, key, row_by_id, to_claim, about, find_by_subject_predicate,
}
use icos_v.Claims.Identity.{normalize_triple_field}
use icos_v.Promotion.{Setting, is_live, or_else, head, contestable, is_negation, contradicted_by}
use icos_v.Promotion.Live.{is_live_about}

-- A claim of the table that is live on the pair.
abbrev pub IsRival : (subject_norm predicate_norm : String) → Db → Claim → Type 0
IsRival a b s c =
    (row : ClaimRow) × (row_by_id c.id s ≡ some row)
    × (row.claim ≡ c)
    × (is_live_about a b row ≡ true)

abbrev IsOnPair : (subject_norm predicate_norm : String) → Db → Claim → Type 0
IsOnPair a b s c =
    (row : ClaimRow) × (row_by_id c.id s ≡ some row) × (row.claim ≡ c) × (about a b row ≡ true)

live-IsRival :
    (a b : String) (s : Db) (c : Claim)
    → is_live c.status ≡ true
    → IsOnPair a b s c
    → IsRival a b s c
live-IsRival a b s c live (row, found, same, pair) =
    (row, found, same, ground (arith, ap (λ (x : Claim). is_live x.status) same))

module _ (setting : Setting) (c : MemoryCandidate) (s : Db) (u : UniqueKeys key s.claims) where
  abbrev subject_norm : String
  subject_norm = normalize_triple_field setting.lower c.subject

  abbrev predicate_norm : String
  predicate_norm = normalize_triple_field setting.lower c.predicate

  found-IsOnPair :
      All
        (IsOnPair subject_norm predicate_norm s)
        (find_by_subject_predicate setting.lower c.subject c.predicate s)
  unfolding find_by_subject_predicate
  found-IsOnPair = All-map (IsOnPair subject_norm predicate_norm s) to_claim _ (
      All-reverse (λ row. IsOnPair subject_norm predicate_norm s row.claim) _
        (All-weaken _ _ _ (λ row (pair, found). (row, found, refl, pair))
          (All-select (λ row. row_by_id (key row) s ≡ some row) (about subject_norm predicate_norm)
            s.claims
            (All-find key (λ row. row_by_id (key row) s ≡ some row) s.claims u (λ r e. e)))))

  contestable-IsRival : All (IsRival subject_norm predicate_norm s) (contestable setting c s)
  contestable-IsRival =
      All-weaken _ _ _ (λ x (live, pair). live-IsRival subject_norm predicate_norm s x live pair)
        (All-select _ (λ (x : Claim). is_live x.status) _ found-IsOnPair)

  negation-IsRival : All (IsRival subject_norm predicate_norm s) (
      select
        (is_negation setting c)
        (find_by_subject_predicate setting.lower c.subject c.predicate s))
  negation-IsRival =
      All-weaken _ _ _
        (λ x (live, pair). live-IsRival subject_norm predicate_norm s x (ground arith) pair)
        (All-select _ (is_negation setting c) _ found-IsOnPair)

  head-All : (P : Claim → Type 0) (cs : List Claim) (r : Claim) → All P cs → head cs ≡ some r → P r
  head-All P [] r h e = cc
  head-All P (x ∷ cs) r (h, hs) e = subst P (some_inj.0 e) h

  or_else-holds :
      (P : Claim → Type 0) (o p : Option Claim) (r : Claim)
      → ((x : Claim) → o ≡ some x → P x)
      → ((x : Claim) → p ≡ some x → P x)
      → or_else o p ≡ some r
      → P r
  or_else-holds P none p r left right e = right r e
  or_else-holds P (some x) p r left right e = left r e

  -- The claim in the way is a live one on the candidate's subject and predicate.
  pub contradicted_by-IsRival :
      (r : Claim) → contradicted_by setting c s ≡ some r → IsRival subject_norm predicate_norm s r
  unfolding contradicted_by
  contradicted_by-IsRival r e =
      or_else-holds (IsRival subject_norm predicate_norm s) _ _ r
        (λ x.
          or_else-holds (IsRival subject_norm predicate_norm s) _ _ x
            (λ y. find_where-All _ _ _ y negation-IsRival) (λ y. head-All _ _ y negation-IsRival))
        (λ x. head-All _ _ x contestable-IsRival) e

  or_else-none : (o p : Option Claim) → or_else o p ≡ none → p ≡ none
  or_else-none none p e = e
  or_else-none (some x) p e = cc

  head-none : (cs : List Claim) → head cs ≡ none → cs ≡ []
  head-none [] e = refl
  head-none (x ∷ cs) e = cc

  -- With no claim in the way, none is live on the candidate's subject and predicate.
  pub contradicted_by-none :
      contradicted_by setting c s ≡ none
      → changes (is_live_about subject_norm predicate_norm) s.claims ≡ 0
  unfolding contradicted_by find_by_subject_predicate
  contradicted_by-none e =
      let empty = head-none (contestable setting c s) (or_else-none _ _ e) in
      let rows = select (about subject_norm predicate_norm) s.claims in
      sym (
        changes-select (about subject_norm predicate_norm)
          (λ (row : ClaimRow). is_live row.claim.status) s.claims)
      ∙ sym (changes-reverse (λ (row : ClaimRow). is_live row.claim.status) rows)
      ∙ sym (changes-map (λ (x : Claim). is_live x.status) to_claim (reverse rows))
      ∙ changes-zero (λ (x : Claim). is_live x.status) (map to_claim (reverse rows)) empty

-- ===== src/Promotion/Parking.antt =====
-- `maybeParkQuestion` of core/src/memory/promotion.service.ts: a contradiction that leaves a question.
use icos_v.Base.{
  ℕ, ◌+◌, String, Bool, true, false, not, ◌&&◌, Option, none, some, List, [], ◌∷◌, ◌++◌, map,
  str_eq, if◌then◌else◌, length, ltb, leb,
}
use icos_v.Base.Program.{pure, gets, attempt, ◌>>=◌}
use icos_v.Base.Table.{select}
use icos_v.Claims.{contradicted, retired, ClaimStatus, Claim, find_by_subject_predicate}
use icos_v.Prospective.{
  ProspectiveTrigger, confidence_drop, repeated_contest, ProspectiveOption, ProspectiveItem,
  option_from_claim, options_have, unseen, suggest_prospective_question, create, merge_contest,
  find_open_by_subject_predicate,
}
use icos_v.Promotion.{
  Setting, prospective_updated, prospective_created, Method, on_questions, publish,
}

abbrev is_scar : ClaimStatus → Bool
is_scar contradicted = true
is_scar retired = true
is_scar _ = false

-- The rivals that an earlier contest left behind.
abbrev scars : (loser winner : Claim) → List Claim → List Claim
scars loser winner rivals =
    select
      (λ (c : Claim).
        is_scar c.status && (not (str_eq c.id loser.id) && not (str_eq c.id winner.id)))
      rivals

-- The loops with `seenIds`: an option whose claim is there is left out.
unfoldable seed : List ProspectiveOption → List ProspectiveOption → List ProspectiveOption
seed seeded [] = seeded
seed seeded (o ∷ os) =
    let pushed = seed (seeded ++ o ∷ []) os in
    let kept = seed seeded os in if options_have o.claim_id seeded then kept else pushed

unfoldable pub contenders : (loser winner : Claim) → List Claim → List ProspectiveOption
unfolding seed
contenders loser winner rivals = seed [] (
    map option_from_claim (scars loser winner rivals)
    ++ option_from_claim loser ∷ option_from_claim winner ∷ [])

-- `repeated ? 'repeated_contest' : 'confidence_drop'`
abbrev trigger_of : Bool → ProspectiveTrigger
trigger_of repeated = if repeated then repeated_contest else confidence_drop

module _ (setting : Setting) where
  abbrev pub announce_merged : Option ProspectiveItem → Method (Unit {0})
  announce_merged none = pure tt
  announce_merged (some merged) = publish (prospective_updated merged.id)

  abbrev merge_into :
      ℕ → Claim → List ProspectiveOption → ProspectiveTrigger → ProspectiveItem → Method (Unit {0})
  merge_into now loser fresh trigger item = do
    merged ← on_questions (
        merge_contest now item.id (unseen item.options fresh) trigger (
          suggest_prospective_question setting.to_fixed loser.subject loser.predicate
            (item.options ++ unseen item.options fresh)))
    announce_merged merged

  abbrev create_question :
      ℕ
      → (id : String) → Claim
      → List ProspectiveOption
      → ℕ
      → ProspectiveTrigger
      → Method (Unit {0})
  create_question now id loser fresh prior trigger = do
    created ← on_questions (
        create setting.lower id now (record {
          subject = loser.subject;
          predicate = loser.predicate;
          options = fresh;
          contest_count = prior + 1;
          trigger = trigger;
          suggested_question =
              suggest_prospective_question setting.to_fixed loser.subject loser.predicate fresh;
        }))
    publish (prospective_created created.id)

  abbrev pub store_question :
      ℕ
      → (id : String) → Claim
      → List ProspectiveOption
      → ℕ
      → ProspectiveTrigger
      → Option ProspectiveItem
      → Method (Unit {0})
  store_question now id loser fresh prior trigger none =
      create_question now id loser fresh prior trigger
  store_question now id loser fresh prior trigger (some item) =
      merge_into now loser fresh trigger item

  abbrev pub park : ℕ → (id : String) → (loser winner : Claim) → Method (Unit {0})
  park now id loser winner = do
    rivals ←
        gets (λ w. find_by_subject_predicate setting.lower loser.subject loser.predicate w.claims)
    let prior = length (scars loser winner rivals)
    let repeated = leb 1 prior
    if not repeated && not (ltb loser.confidence setting.confidence_threshold) then pure tt else (do
      item ← gets (λ w.
          find_open_by_subject_predicate setting.lower loser.subject loser.predicate w.questions)
      store_question now id loser (contenders loser winner rivals) prior (trigger_of repeated) item)

  unfoldable pub maybe_park_question :
      ℕ → (id : String) → (loser winner : Claim) → Method (Unit {0})
  maybe_park_question now id loser winner = attempt (park now id loser winner) (λ e. pure tt)

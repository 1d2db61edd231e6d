-- ===== src/Prospective.antt =====
-- core/src/memory/prospective-item.ts and sqlite-prospective-item.repository.ts: the parked questions
-- about claims that contradict each other. A UUID and the reading of the clock are arguments; `lower` is
-- the platform's `toLowerCase`, `to_fixed` its `toFixed(2)` of a confidence.
use Prim.Native.String as Text
use mathlib.Core.Option
use icos_v.Base.{
  ℕ, suc, String, Bool, true, false, not, ◌&&◌, ◌||◌, Option, none, some, List, [], ◌∷◌, ◌++◌, map,
  str_eq, if◌then◌else◌,
}
use icos_v.Base.Exec.{Exec, ok, err, pure, gets, or_throw, modify, ◌>>=◌, ◌>>◌}
use icos_v.Base.Table.{select, update, find}
use icos_v.Base.Rows.{find_where, reverse, take}
use icos_v.Claims.{ClaimOrigin, of_user, of_agent, Claim}
use icos_v.Claims.Identity.{normalize_triple_field}
use icos_v.Claims.Listing.{capped, given}

pub data ProspectiveTrigger : Type 0 where
  confidence_drop repeated_contest : ProspectiveTrigger

pub data ProspectiveStatus : Type 0 where
  open_item closed_item : ProspectiveStatus

pub data ProspectiveResolution : Type 0 where
  confirmed corrected dismissed : ProspectiveResolution

pub record ProspectiveOption : Type 0 where
  pub object : String
  pub origin : ClaimOrigin
  pub confidence : ℕ
  pub claim_id : String

pub record NewProspectiveItem : Type 0 where
  pub subject : String
  pub predicate : String
  pub options : List ProspectiveOption
  pub contest_count : ℕ
  pub trigger : ProspectiveTrigger
  pub suggested_question : String

pub record ProspectiveItem : Type 0 where
  pub id : String
  pub subject : String
  pub predicate : String
  pub options : List ProspectiveOption
  pub contest_count : ℕ
  pub trigger : ProspectiveTrigger
  pub suggested_question : String
  pub status : ProspectiveStatus
  pub resolution : Option ProspectiveResolution
  pub resolved_at : Option ℕ
  pub created_at : ℕ
  pub updated_at : ℕ

-- The columns that `toItem` reads, and the two that it does not read.
pub record ProspectiveRow : Type 0 where
  pub item : ProspectiveItem
  pub subject_norm : String
  pub predicate_norm : String

abbrev pub to_item : ProspectiveRow → ProspectiveItem
to_item row = row.item

-- `sqlite_error` is a violated PRIMARY KEY.
pub data Error : Type 0 where
  vanished : String → Error
  sqlite_error : Error

pub record Db : Type 0 where
  pub prospective_items : List ProspectiveRow

abbrev pub Repo : Type 0 → Type 0
Repo A = Exec Error Db A

abbrev pub key : ProspectiveRow → String
key row = row.item.id

abbrev pub row_by_id : String → Db → Option ProspectiveRow
row_by_id id s = find key id s.prospective_items

abbrev pub is_open : ProspectiveStatus → Bool
is_open open_item = true
is_open closed_item = false

abbrev status_eq : ProspectiveStatus → ProspectiveStatus → Bool
status_eq open_item open_item = true
status_eq closed_item closed_item = true
status_eq _ _ = false

abbrev pub write : (ProspectiveItem → ProspectiveItem) → ProspectiveRow → ProspectiveRow
write f row = record row { item = f row.item }

-- UPDATE prospective_items SET … WHERE id = ?, and its answer
abbrev rewrite : String → (ProspectiveItem → ProspectiveItem) → Repo (Option ProspectiveItem)
rewrite id f = do
  modify (λ s. record s {
    prospective_items = update (λ row. str_eq (key row) id) (write f) s.prospective_items;
  })
  updated ← gets (row_by_id id)
  row ← or_throw updated (vanished id)
  pure (some (to_item row))

-- `prospectiveOptionFromClaim`
abbrev pub option_from_claim : Claim → ProspectiveOption
option_from_claim claim = record {
  object = claim.object;
  origin = claim.origin;
  confidence = claim.confidence;
  claim_id = claim.id;
}

abbrev pub origin_text : ClaimOrigin → String
origin_text of_user = "user"
origin_text of_agent = "agent"

module _ (to_fixed : ℕ → String) where
  abbrev pub side : ProspectiveOption → String
  side option = Text.◌++◌ "\"" (
      Text.◌++◌ option.object (
        Text.◌++◌ "\" (origin " (
          Text.◌++◌ (origin_text option.origin)
            (Text.◌++◌ ", confidence " (Text.◌++◌ (to_fixed option.confidence) ")")))))

  -- `.join(' vs ')`
  unfoldable pub sides : List ProspectiveOption → String
  sides [] = ""
  sides (option ∷ []) = side option
  sides (option ∷ other ∷ rest) = Text.◌++◌ (side option) (Text.◌++◌ " vs " (sides (other ∷ rest)))

  unfoldable pub suggest_prospective_question :
      (subject predicate : String) → List ProspectiveOption → String
  unfolding sides
  suggest_prospective_question subject predicate options = Text.◌++◌ "Conflicting beliefs about " (
      Text.◌++◌ subject (
        Text.◌++◌ " " (
          Text.◌++◌ predicate
            (Text.◌++◌ ": " (Text.◌++◌ (sides options) ". Which should be kept?")))))

unfoldable pub get_item : String → Db → Option ProspectiveItem
get_item id s = Option.map to_item (row_by_id id s)

abbrev pub options_have : String → List ProspectiveOption → Bool
options_have id [] = false
options_have id (o ∷ os) = str_eq o.claim_id id || options_have id os

-- `options.filter((item) => !seen.has(item.claimId))`
abbrev pub unseen : List ProspectiveOption → List ProspectiveOption → List ProspectiveOption
unseen seen options = select (λ o. not (options_have o.claim_id seen)) options

abbrev pub contested :
    ℕ → List ProspectiveOption → ProspectiveTrigger → String → ProspectiveItem → ProspectiveItem
contested now options trigger question item = record item {
  options = item.options ++ unseen item.options options;
  contest_count = suc item.contest_count;
  trigger = trigger;
  suggested_question = question;
  updated_at = now;
}

unfoldable pub merge_contest :
    ℕ
    → String
    → List ProspectiveOption
    → ProspectiveTrigger
    → String
    → Repo (Option ProspectiveItem)
merge_contest now id options trigger question s = elim (row_by_id id s) [
  | none ↦ (ok none, s)
  | some row ↦ rewrite id (contested now options trigger question) s
]

abbrev pub closed : ℕ → ProspectiveResolution → ProspectiveItem → ProspectiveItem
closed now outcome item = record item {
  status = closed_item;
  resolution = some outcome;
  resolved_at = some now;
  updated_at = now;
}

unfoldable pub resolve : ℕ → String → ProspectiveResolution → Repo (Option ProspectiveItem)
resolve now id outcome s = elim (row_by_id id s) [
  | none ↦ (ok none, s)
  | some row ↦ if is_open row.item.status then rewrite id (closed now outcome) s else (ok none, s)
]

unfoldable pub list_items : Option ProspectiveStatus → Option ℕ → Db → List ProspectiveItem
list_items status limit s = map to_item (
    take (capped limit)
      (reverse (select (λ row. given (status_eq row.item.status) status) s.prospective_items)))

module _ (lower : String → String) where
  abbrev pub new_row : String → ℕ → NewProspectiveItem → ProspectiveRow
  new_row id now item = record {
    item = record {
      id = id;
      subject = item.subject;
      predicate = item.predicate;
      options = item.options;
      contest_count = item.contest_count;
      trigger = item.trigger;
      suggested_question = item.suggested_question;
      status = open_item;
      resolution = none;
      resolved_at = none;
      created_at = now;
      updated_at = now;
    };
    subject_norm = normalize_triple_field lower item.subject;
    predicate_norm = normalize_triple_field lower item.predicate;
  }

  abbrev insert_row : ProspectiveRow → Repo (Unit {0})
  insert_row row s = elim (row_by_id (key row) s) [
    | none ↦ (ok tt, record s { prospective_items = s.prospective_items ++ row ∷ [] })
    | some _ ↦ (err sqlite_error, s)
  ]

  unfoldable pub create : String → ℕ → NewProspectiveItem → Repo ProspectiveItem
  create id now item = do
    insert_row (new_row id now item)
    found ← gets (row_by_id id)
    row ← or_throw found (vanished id)
    pure (to_item row)

  abbrev pub is_open_about : (subject_norm predicate_norm : String) → ProspectiveRow → Bool
  is_open_about a b row =
      str_eq row.subject_norm a && str_eq row.predicate_norm b && is_open row.item.status

  -- ORDER BY rowid DESC LIMIT 1
  unfoldable pub find_open_by_subject_predicate :
      (subject predicate : String) → Db → Option ProspectiveItem
  find_open_by_subject_predicate subject predicate s = Option.map to_item (
      find_where
        (is_open_about (normalize_triple_field lower subject)
          (normalize_triple_field lower predicate))
        (reverse s.prospective_items))

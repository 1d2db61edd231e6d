-- ===== src/Promotion/Texts.antt =====
-- `describe` and `extractEntities` of core/src/memory/promotion.service.ts.
use Prim.Native.Char.{code}
use Prim.Native.String as Text
use Prim.Native.String.{String}
use icos_v.Base.{
  ℕ, zero, suc, Bool, false, not, ◌&&◌, ◌||◌, ◌==◌, leb, List, [], ◌∷◌, ◌++◌, str_eq, if◌then◌else◌,
}
use icos_v.Base.Text.{is_space}
use icos_v.Journal.{PromotionOperation, new_claim, reinforce, contradict}
use icos_v.Claims.{SourceRole, user, assistant, unknown, MemoryCandidate, includes}

abbrev pub operation_text : PromotionOperation → String
operation_text new_claim = "NEW"
operation_text reinforce = "REINFORCE"
operation_text contradict = "CONTRADICT"

abbrev pub role_text : SourceRole → String
role_text user = "user"
role_text assistant = "assistant"
role_text unknown = "unknown"

-- `.slice(0, n)` of an ASCII text
unfoldable pub slice : ℕ → String → String
slice zero s = ""
slice (suc n) Text.[] = ""
slice (suc n) (Text.◌∷◌ c s) = Text.◌∷◌ c (slice n s)

unfoldable pub concat : List String → String
concat [] = ""
concat (s ∷ rest) = Text.◌++◌ s (concat rest)

-- `number_text` is the text of a confidence.
unfoldable pub describe : (ℕ → String) → MemoryCandidate → PromotionOperation → String
unfolding slice concat
describe number_text c intent = concat (
    "["
    ∷ operation_text intent
    ∷ "] Promote to belief: "
    ∷ c.subject
    ∷ " "
    ∷ c.predicate
    ∷ " \""
    ∷ c.object
    ∷ "\""
    ∷ (if c.negated then " (negated — denies the triple)" else "")
    ∷ " (origin "
    ∷ role_text c.source_role
    ∷ ", confidence "
    ∷ number_text c.confidence
    ∷ ", candidate "
    ∷ slice 8 c.id
    ∷ ")"
    ∷ [])

abbrev is_letter : ℕ → Bool
is_letter c = (leb 65 c && leb c 90) || (leb 97 c && leb c 122)

abbrev is_word : ℕ → Bool
is_word c = is_letter c || (leb 48 c && leb c 57) || c == 95 || c == 45

-- `[A-Za-z0-9_-]*:.+`
unfoldable has_prefix : String → Bool
has_prefix Text.[] = false
has_prefix (Text.◌∷◌ c s) =
    let rest = has_prefix s in if code c == 58 then not (str_eq s "") else is_word (code c) && rest

-- `/^[A-Za-z][A-Za-z0-9_-]*:.+/`
unfoldable is_entity : String → Bool
unfolding has_prefix
is_entity Text.[] = false
is_entity (Text.◌∷◌ c s) = is_letter (code c) && has_prefix s

-- `.split(/\s+/)`, less the empty tokens at the ends, which are no entities; `token` is what stands
-- before the rest.
unfoldable words : (token rest : String) → List String
words token Text.[] = token ∷ []
words token (Text.◌∷◌ c s) =
    let next = words "" s in
    let longer = words (Text.◌++◌ token (Text.◌∷◌ c Text.[])) s in
    if is_space (code c) then (if str_eq token "" then next else token ∷ next) else longer

-- `entities.add(token)` for the tokens that are entities
unfoldable add_entities : List String → List String → List String
unfolding is_entity
add_entities entities [] = entities
add_entities entities (t ∷ ts) =
    let with_token = add_entities (entities ++ t ∷ []) ts in
    let without = add_entities entities ts in
    if is_entity t && not (includes entities t) then with_token else without

unfoldable pub extract_entities : MemoryCandidate → List String
unfolding words add_entities
extract_entities c =
    add_entities (add_entities (c.subject ∷ []) (words "" c.subject)) (words "" c.object)

-- ===== src/Claims/Identity.antt =====
-- core/src/memory/claim-identity.ts: the normal form of the fields of a triple, and the key of a
-- claim. `lower` is the platform's `toLowerCase`.
use Prim.Native.Char.{Char, code}
use mathlib.Core.Bool.{true≢false}
use Prim.Native.String as Text
use Prim.Native.String.{String, [], ◌∷◌}
use text.Mathlib.TextLemmas.{cons-append, nil-append, head-eq_of_cons-eq}
use icos_v.Base.{
  ℕ, Bool, true, false, not, ◌&&◌, ◌||◌, ◌==◌, str_eq, if◌then◌else◌, ◌≡◌, ◌↔◌, refl, sym, ◌∙◌,
  arith,
}
use icos_v.Base.Text.{is_space, trim}

-- `[\s_]`
unfoldable is_gap : ℕ → Bool
unfolding is_space
is_gap c = is_space c || c == 95

-- The quotes that the two ends lose.
unfoldable is_quote : ℕ → Bool
is_quote c =
    c == 39 || c == 34 || c == 0x201c || c == 0x201d || c == 0x2018 || c == 0x2019 || c == 96

-- `.replace(/[\s_]+/g, ' ')`, from a place that follows a gap or does not
unfoldable collapse : Bool → String → String
unfolding is_gap
collapse in_gap [] = ""
collapse in_gap (c ∷ s) =
    let after_gap = collapse true s in
    let after_text = collapse false s in
    if is_gap (code c) then (if in_gap then after_gap else " " ∷ after_gap) else c ∷ after_text

unfoldable strip_start : String → String
unfolding is_quote
strip_start [] = ""
strip_start (c ∷ s) = let rest = strip_start s in if is_quote (code c) then rest else c ∷ s

unfoldable strip_end : String → String
unfolding is_quote
strip_end [] = ""
strip_end (c ∷ s) =
    let rest = strip_end s in if is_quote (code c) && str_eq rest "" then "" else c ∷ rest

pub record Triple : Type 0 where
  pub subject : String
  pub predicate : String
  pub object : String

module _ (lower : String → String) where
  unfoldable pub normalize_triple_field : String → String
  unfolding trim collapse strip_start strip_end
  normalize_triple_field value =
      trim (strip_end (strip_start (collapse false (lower (trim value)))))

  unfoldable pub identity_key : Triple → String
  unfolding normalize_triple_field
  identity_key triple = Text.◌++◌ (normalize_triple_field triple.subject) (
      Text.◌∷◌ "|" (
        Text.◌++◌ (normalize_triple_field triple.predicate)
          (Text.◌∷◌ "|" (normalize_triple_field triple.object))))

-- No field separator in a text.
unfoldable pub is_barless : String → Bool
is_barless [] = true
is_barless (c ∷ s) = let rest = is_barless s in not (code c == 124) && rest

bar_first : (c : Char) (s : String) → ◌≡◌ {A = Char} c "|" → is_barless (c ∷ s) ≡ false
unfolding is_barless
bar_first c s e = rw e refl

append_bar-inj :
    (a a' x x' : String)
    → is_barless a ≡ true
    → is_barless a' ≡ true
    → Text.◌++◌ a (Text.◌∷◌ "|" x) ≡ Text.◌++◌ a' (Text.◌∷◌ "|" x')
    → (a ≡ a') × (x ≡ x')
unfolding is_barless
append_bar-inj [] [] x x' h h' e = ground (arith, nil-append ("|" ∷ x), nil-append ("|" ∷ x'))
append_bar-inj [] (c ∷ a') x x' h h' e =
    let same = sym (nil-append ("|" ∷ x)) ∙ e ∙ cons-append c a' ("|" ∷ x') in
    absurd (true≢false (sym h' ∙ bar_first c a' (sym (head-eq_of_cons-eq same))))
append_bar-inj (c ∷ a) [] x x' h h' e =
    let same = sym (cons-append c a ("|" ∷ x)) ∙ e ∙ nil-append ("|" ∷ x') in
    absurd (true≢false (sym h ∙ bar_first c a (head-eq_of_cons-eq same)))
append_bar-inj (c ∷ a) (c' ∷ a') x x' h h' e =
    ground
      (arith, cons-append c a ("|" ∷ x), cons-append c' a' ("|" ∷ x'), append_bar-inj a a' x x')

-- Where the normal forms of the subjects and predicates of two triples hold no `|`, the triples have
-- the same key exactly when all three of their fields have the same normal forms.
pub identity_key_iff :
    (lower : String → String) (t u : Triple)
    → is_barless (normalize_triple_field lower t.subject) ≡ true
    → is_barless (normalize_triple_field lower t.predicate) ≡ true
    → is_barless (normalize_triple_field lower u.subject) ≡ true
    → is_barless (normalize_triple_field lower u.predicate) ≡ true
    → (identity_key lower t ≡ identity_key lower u) ↔ (
        (normalize_triple_field lower t.subject ≡ normalize_triple_field lower u.subject)
        × (normalize_triple_field lower t.predicate ≡ normalize_triple_field lower u.predicate)
        × (normalize_triple_field lower t.object ≡ normalize_triple_field lower u.object))
unfolding identity_key
identity_key_iff lower t u ts tp us up = (
  (λ e.
      let (same_subject, rest) = append_bar-inj _ _ _ _ ts us e in
      let (same_predicate, same_object) = append_bar-inj _ _ _ _ tp up rest in
      (same_subject, same_predicate, same_object)),
  (λ (a, b, c). rw (a, b, c) refl),
)

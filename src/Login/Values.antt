-- ===== src/Login/Values.antt =====
-- The names and values that the `Cookie` header of core/src/auth/cookies.ts can hold.
use Prim.Native.Char.{code, Char}
use Prim.Native.String as Text
use text.Mathlib.TextLemmas.{cons-append, nil-append}
use icos_v.Base.{
  String, Bool, true, false, not, ◌&&◌, some, [], ◌∷◌, ◌==◌, str_eq, ◌≡◌, refl, arith,
}
use mathlib.Core.Bool.{true≢false}
use icos_v.Base.Text.{cons-str_eq, is_space, trim, trim_start, trim_end}
use icos_v.Login.Cookies.{pair_text, split_pairs, cut_pair}

-- No white space, no semicolon.
unfoldable pub is_value : String → Bool
unfolding is_space
is_value Text.[] = true
is_value (Text.◌∷◌ c s) =
    let rest = is_value s in not (is_space (code c)) && not (code c == 59) && rest

unfoldable pub has_no_equals : String → Bool
has_no_equals Text.[] = true
has_no_equals (Text.◌∷◌ c s) = let rest = has_no_equals s in not (code c == 61) && rest

-- A name is a value without `=` that is not empty.
unfoldable pub is_name : String → Bool
unfolding is_value has_no_equals
is_name name = is_value name && has_no_equals name && not (str_eq name "")

pub is_value-cons :
    (c : Char) (s : String)
    → is_value (Text.◌∷◌ c s) ≡ true
    → (is_space (code c) ≡ false) × ((code c == 59) ≡ false) × (is_value s ≡ true)
unfolding is_value
is_value-cons c s h = three (is_space (code c)) (code c == 59) (is_value s) h
  where
    three : (a b d : Bool) → (not a && not b && d) ≡ true → (a ≡ false) × (b ≡ false) × (d ≡ true)
    three a b d h = ground arith

pub trim_end-value : (s : String) → is_value s ≡ true → trim_end s ≡ s
unfolding is_value trim_end
trim_end-value Text.[] h = refl
trim_end-value (Text.◌∷◌ c s) h = ground (arith, trim_end-value s)

pub trim_start-value : (s : String) → is_value s ≡ true → trim_start s ≡ s
unfolding is_value trim_start
trim_start-value Text.[] h = refl
trim_start-value (Text.◌∷◌ c s) h = ground arith

pub trim-value : (s : String) → is_value s ≡ true → trim s ≡ s
unfolding trim
trim-value s h = rw (trim_start-value s h) (trim_end-value s h)

pub trim-space : (s : String) → is_value s ≡ true → trim (Text.◌∷◌ " " s) ≡ s
unfolding trim trim_start
trim-space s h = trim-value s h

pub cut_pair-name :
    (name value : String)
    → has_no_equals name ≡ true
    → cut_pair (pair_text name value) ≡ some (name, value)
unfolding has_no_equals cut_pair
cut_pair-name Text.[] value h = rw (nil-append (Text.◌∷◌ "=" value)) refl
cut_pair-name (Text.◌∷◌ c s) value h =
    rw (cons-append c s (Text.◌∷◌ "=" value)) (ground (arith, cut_pair-name s value))

pub split_pairs-value :
    (s rest : String)
    → is_value s ≡ true
    → split_pairs (Text.◌++◌ s (Text.◌∷◌ ";" rest)) ≡ s ∷ split_pairs rest
unfolding split_pairs
split_pairs-value Text.[] rest h = rw (nil-append (Text.◌∷◌ ";" rest)) refl
split_pairs-value (Text.◌∷◌ c s) rest h =
    let (_, not_semicolon, more) = is_value-cons c s h in
    rw (cons-append c s (Text.◌∷◌ ";" rest), not_semicolon, split_pairs-value s rest more) refl

pub split_pairs-last : (s : String) → is_value s ≡ true → split_pairs s ≡ s ∷ []
unfolding split_pairs
split_pairs-last Text.[] h = refl
split_pairs-last (Text.◌∷◌ c s) h =
    let (_, not_semicolon, more) = is_value-cons c s h in
    rw (not_semicolon, split_pairs-last s more) refl

pub is_value-pair :
    (name value : String)
    → is_value name ≡ true
    → is_value value ≡ true
    → is_value (pair_text name value) ≡ true
unfolding is_value
is_value-pair Text.[] value h k = rw (nil-append (Text.◌∷◌ "=" value)) k
is_value-pair (Text.◌∷◌ c s) value h k =
    rw (cons-append c s (Text.◌∷◌ "=" value)) (ground (arith, is_value-pair s value))

pub is_name-parts :
    (name : String)
    → is_name name ≡ true
    → (is_value name ≡ true) × (has_no_equals name ≡ true) × (str_eq name "" ≡ false)
unfolding is_name
is_name-parts name h = three (is_value name) (has_no_equals name) (str_eq name "") h
  where
    three : (a b d : Bool) → (a && b && not d) ≡ true → (a ≡ true) × (b ≡ true) × (d ≡ false)
    three a b d h = ground arith

pub trim_start-first :
    (c : Char) (s : String) → is_space (code c) ≡ false → trim_start (Text.◌∷◌ c s) ≡ Text.◌∷◌ c s
unfolding trim_start
trim_start-first c s h = rw h refl

pub trim_end-first :
    (c : Char) (s : String)
    → is_space (code c) ≡ false
    → str_eq (trim_end (Text.◌∷◌ c s)) "" ≡ false
unfolding trim_end
trim_end-first c s h = rw h (cons-str_eq c (trim_end s))

pub trim-not_blank :
    (c : Char) (s : String) → is_space (code c) ≡ false → str_eq (trim (Text.◌∷◌ c s)) "" ≡ false
unfolding trim
trim-not_blank c s h = rw (trim_start-first c s h) (trim_end-first c s h)

pub pair_text-not_blank :
    (name rest : String) → is_name name ≡ true → str_eq (trim (Text.◌++◌ name rest)) "" ≡ false
pair_text-not_blank Text.[] rest h = absurd (true≢false ((is_name-parts "" h).2))
pair_text-not_blank (Text.◌∷◌ c s) rest h =
    rw (cons-append c s rest) (
      trim-not_blank c (Text.◌++◌ s rest)
        (is_value-cons c s ((is_name-parts (Text.◌∷◌ c s) h).0)).0)

-- ===== src/Commands/Names.antt =====
-- The names and the ends of the texts that `parseSlashCommand` of core/src/commands/slash-command.parser.ts
-- takes apart.
use icos_v.Base.{
  ℕ, String, Bool, true, false, not, ◌&&◌, List, [], ◌∷◌, ◌==◌, str_eq, if◌then◌else◌, ◌≡◌, refl,
  ◌∙◌, ap, arith,
}
use icos_v.Base.Text.{cons-str_eq, is_space, trim, trim_start, trim_end}
use icos_v.Commands.{
  scan, scan_char, empty_scan, all_name_chars, is_name_char, is_letter, to_lower, lower_char,
}
use icos_v.Commands.Split.{append-cons, print_args, quote, escape, complete}
use Prim.Native.Char.{Char, code}
use Prim.Native.String as Text
use text.Mathlib.TextLemmas.{cons-append, append-nil, nil-append}
use mathlib.Core.Bool.{false≢true}

pub name_char-plain : (n : ℕ) → is_name_char n ≡ true → ((n == 34) ≡ false) × (is_space n ≡ false)
unfolding is_space
name_char-plain n h = (ground arith, ground arith)

pub letter-name_char : (n : ℕ) → is_letter n ≡ true → is_name_char n ≡ true
letter-name_char n h = ground arith

pub both : (a b : Bool) → (a && b) ≡ true → (a ≡ true) × (b ≡ true)
both true b h = (refl, h)
both false b h = absurd (false≢true h)

pub lower_char-name : (c : Char) → is_name_char (code c) ≡ true → lower_char c ≡ c
lower_char-name c h = ground arith

-- The text has a last character, and it is no white space.
abbrev pub ends_plain : String → Bool
ends_plain Text.[] = false
ends_plain (Text.◌∷◌ c Text.[]) = not (is_space (code c))
ends_plain (Text.◌∷◌ c (Text.◌∷◌ d s)) = ends_plain (Text.◌∷◌ d s)

pub cons-ends_plain :
    (c : Char) (s : String) → ends_plain s ≡ true → ends_plain (Text.◌∷◌ c s) ≡ true
cons-ends_plain c Text.[] h = absurd (false≢true h)
cons-ends_plain c (Text.◌∷◌ d s) h = h

pub append-ends_plain : (s t : String) → ends_plain t ≡ true → ends_plain (Text.◌++◌ s t) ≡ true
append-ends_plain Text.[] t h = rw (nil-append t) h
append-ends_plain (Text.◌∷◌ c s) t h =
    rw (cons-append c s t) (cons-ends_plain c (Text.◌++◌ s t) (append-ends_plain s t h))

-- A text with a character is not the empty one.
pub trim_end-cons :
    (c : Char) (s : String)
    → trim_end (Text.◌∷◌ c s)
      ≡ (if is_space (code c) && str_eq (trim_end s) "" then "" else Text.◌∷◌ c (trim_end s))
unfolding trim_end
trim_end-cons c s = refl

pub trim_end-nil : trim_end "" ≡ ""
unfolding trim_end
trim_end-nil = refl

pub eq-false : (b : Bool) → not b ≡ true → b ≡ false
eq-false true h = absurd (false≢true h)
eq-false false h = refl

pub and_false : (b : Bool) → (b && false) ≡ false
and_false true = refl
and_false false = refl

pub trim_end-plain : (s : String) → ends_plain s ≡ true → trim_end s ≡ s
trim_end-plain Text.[] h = absurd (false≢true h)
trim_end-plain (Text.◌∷◌ c Text.[]) h =
    rw (trim_end-cons c "", trim_end-nil, eq-false (is_space (code c)) h) refl
trim_end-plain (Text.◌∷◌ c (Text.◌∷◌ d s)) h =
    rw (trim_end-cons c (Text.◌∷◌ d s), trim_end-plain (Text.◌∷◌ d s) h, cons-str_eq d s, and_false)
      refl

pub trim-plain :
    (c : Char) (s : String)
    → is_space (code c) ≡ false
    → ends_plain (Text.◌∷◌ c s) ≡ true
    → trim (Text.◌∷◌ c s) ≡ Text.◌∷◌ c s
unfolding trim trim_start
trim-plain c s h k = rw h (trim_end-plain (Text.◌∷◌ c s) k)

pub name-ends_plain :
    (c : Char) (s : String)
    → is_name_char (code c) ≡ true
    → all_name_chars s ≡ true
    → ends_plain (Text.◌∷◌ c s) ≡ true
name-ends_plain c Text.[] h k = rw ((name_char-plain (code c) h).1) refl
name-ends_plain c (Text.◌∷◌ d s) h k =
    let (first, rest) = both (is_name_char (code d)) (all_name_chars s) k in
    name-ends_plain d s first rest

-- The characters of a name are added to a token.
pub scan_char-name :
    (c : Char) (tokens : List String) (current : String)
    → is_name_char (code c) ≡ true
    → scan_char c (complete tokens current)
      ≡ complete tokens (Text.◌++◌ current (Text.◌∷◌ c Text.[]))
scan_char-name c tokens current h =
    let (no_quote, no_space) = name_char-plain (code c) h in rw (no_quote, no_space) refl

pub scan_char-first :
    (c : Char)
    → is_name_char (code c) ≡ true
    → scan_char c empty_scan ≡ complete [] (Text.◌∷◌ c Text.[])
scan_char-first c h =
    let (no_quote, no_space) = name_char-plain (code c) h in
    rw (no_quote, no_space, nil-append) refl

pub scan-name :
    (s rest : String) (tokens : List String) (current : String)
    → all_name_chars s ≡ true
    → scan (Text.◌++◌ s rest) (complete tokens current)
      ≡ scan rest (complete tokens (Text.◌++◌ current s))
unfolding scan
scan-name Text.[] rest tokens current h = rw (nil-append rest, append-nil current) refl
scan-name (Text.◌∷◌ c s) rest tokens current h =
    let (first, more) = both (is_name_char (code c)) (all_name_chars s) h in
    ap (λ t. scan t (complete tokens current)) (cons-append c s rest)
    ∙ ap (scan (Text.◌++◌ s rest)) (scan_char-name c tokens current first)
    ∙ scan-name s rest tokens (Text.◌++◌ current (Text.◌∷◌ c Text.[])) more
    ∙ ap (λ t. scan rest (complete tokens t)) (append-cons current c s)

pub quote-ends_plain : (arg : String) → ends_plain (quote arg) ≡ true
unfolding is_space
quote-ends_plain arg =
    cons-ends_plain "\"" (Text.◌++◌ (escape arg) "\"") (append-ends_plain (escape arg) "\"" refl)

pub print_args-ends_plain :
    (arg : String) (rest : List String) → ends_plain (print_args (arg ∷ rest)) ≡ true
unfolding print_args
print_args-ends_plain arg [] =
    cons-ends_plain " " (Text.◌++◌ (quote arg) "")
      (rw (append-nil (quote arg)) (quote-ends_plain arg))
print_args-ends_plain arg (next ∷ rest) =
    cons-ends_plain " " (Text.◌++◌ (quote arg) (print_args (next ∷ rest)))
      (append-ends_plain (quote arg) (print_args (next ∷ rest)) (print_args-ends_plain next rest))

pub lower-name : (s : String) → all_name_chars s ≡ true → to_lower s ≡ s
unfolding to_lower
lower-name Text.[] h = refl
lower-name (Text.◌∷◌ c s) h =
    let (first, more) = both (is_name_char (code c)) (all_name_chars s) h in
    ap (λ d. Text.◌∷◌ d (to_lower s)) (lower_char-name c first)
    ∙ ap (Text.◌∷◌ c) (lower-name s more)

-- ===== src/Commands/Parse.antt =====
-- `parseSlashCommand` of core/src/commands/slash-command.parser.ts, and the printed form of a command.
use icos_v.Base.{
  String, true, false, ◌&&◌, List, [], ◌∷◌, str_eq, ◌≡◌, refl, ◌∙◌, sym, ap, subst, inl, inr,
  Bool-cases,
}
use icos_v.Base.Exec.{Result, ok, err}
use icos_v.Base.Text.{cons-str_eq, is_space, trim, trim_start, trim_end}
use icos_v.Commands.{
  scan, end_token, empty_scan, split_args, all_name_chars, is_name_char, is_letter, is_command_name,
  to_lower, parse_slash_command, is_slash_command_input, ParsedSlashCommand, SlashCommandError,
  of_tokens, of_body, begins_with_slash, after_slash, malformed,
}
use icos_v.Commands.Split.{print_args, complete, scan-print_args}
use Prim.Native.Char.{Char, code}
use Prim.Native.String as Text
use text.Mathlib.TextLemmas.{cons-append, append-nil, nil-append}
use mathlib.Core.Bool.{false≢true}
use icos_v.Commands.Names.{
  name_char-plain, letter-name_char, both, ends_plain, cons-ends_plain, append-ends_plain,
  trim_end-cons, trim-plain, name-ends_plain, scan_char-first, scan-name, print_args-ends_plain,
  lower-name,
}

-- A name, and arguments in double quotes.
unfoldable pub print_command : String → List String → String
print_command name args = Text.◌∷◌ "/" (Text.◌++◌ name (print_args args))

body-ends_plain :
    (c : Char) (s : String) (args : List String)
    → is_name_char (code c) ≡ true
    → all_name_chars s ≡ true
    → ends_plain (Text.◌++◌ (Text.◌∷◌ c s) (print_args args)) ≡ true
unfolding print_args
body-ends_plain c s [] h k = rw (append-nil (Text.◌∷◌ c s)) (name-ends_plain c s h k)
body-ends_plain c s (arg ∷ rest) h k =
    append-ends_plain (Text.◌∷◌ c s) (print_args (arg ∷ rest)) (print_args-ends_plain arg rest)

split_args-name :
    (c : Char) (s : String) (args : List String)
    → is_name_char (code c) ≡ true
    → all_name_chars s ≡ true
    → split_args (Text.◌++◌ (Text.◌∷◌ c s) (print_args args)) ≡ Text.◌∷◌ c s ∷ args
unfolding split_args scan
split_args-name c s args h k =
    ap (λ t. (end_token (scan t empty_scan)).tokens) (cons-append c s (print_args args))
    ∙ ap (λ σ. (end_token (scan (Text.◌++◌ s (print_args args)) σ)).tokens) (scan_char-first c h)
    ∙ ap (λ σ. (end_token σ).tokens) (scan-name s (print_args args) [] (Text.◌∷◌ c Text.[]) k)
    ∙ ap (λ t. (end_token (scan (print_args args) (complete [] t))).tokens)
        (cons-append c Text.[] s ∙ ap (Text.◌∷◌ c) (nil-append s))
    ∙ ap (λ σ. σ.tokens) (scan-print_args args [] (Text.◌∷◌ c s))

parse_slash_command-eq :
    (raw body name : String) (args : List String)
    → trim raw ≡ Text.◌∷◌ "/" body
    → trim body ≡ body
    → str_eq body "" ≡ false
    → split_args body ≡ name ∷ args
    → to_lower name ≡ name
    → is_command_name name ≡ true
    → parse_slash_command raw ≡ ok (record { name = name; args = args; raw = raw })
unfolding parse_slash_command
parse_slash_command-eq raw body name args outer inner filled split lower valid =
    rw (outer, inner, filled, split, lower, valid) refl

-- The command line of a name that the pattern allows and of any arguments, each in double quotes and
-- escaped, parses to that name and those arguments.
pub parse_slash_command-print_command :
    (name : String) (args : List String)
    → is_command_name name ≡ true
    → parse_slash_command (print_command name args)
      ≡ ok (record { name = name; args = args; raw = print_command name args })
unfolding print_command is_space
parse_slash_command-print_command Text.[] args h = absurd (false≢true h)
parse_slash_command-print_command (Text.◌∷◌ c s) args h =
    let (letter, rest) = both (is_letter (code c)) (all_name_chars s) h in
    let first = letter-name_char (code c) letter in
    let ended = body-ends_plain c s args first rest in
    let name_first = cons-append c s (print_args args) in
    parse_slash_command-eq (print_command (Text.◌∷◌ c s) args)
      (Text.◌++◌ (Text.◌∷◌ c s) (print_args args)) (Text.◌∷◌ c s) args
      (trim-plain "/" _ refl
        (cons-ends_plain "/" (Text.◌++◌ (Text.◌∷◌ c s) (print_args args)) ended))
      (rw name_first (
        trim-plain c (Text.◌++◌ s (print_args args)) ((name_char-plain (code c) first).1)
          (rw name_first at ended)))
      (rw name_first (cons-str_eq c (Text.◌++◌ s (print_args args))))
      (split_args-name c s args first rest) (lower-name (Text.◌∷◌ c s) (rw (first, rest) refl)) h

slash-trim_end : (s : String) → begins_with_slash (trim_end s) ≡ true → begins_with_slash s ≡ true
unfolding trim_end
slash-trim_end Text.[] h = h
slash-trim_end (Text.◌∷◌ c s) h = elim (Bool-cases (is_space (code c) && str_eq (trim_end s) "")) [
  | inl gone ↦ absurd (false≢true (rw (trim_end-cons c s, gone) at h))
  | inr kept ↦ rw (trim_end-cons c s, kept) at h
]

-- What a parsed command is.
abbrev pub IsParsed : String → Result SlashCommandError ParsedSlashCommand → Type 0
IsParsed raw (err e) = Unit {0}
IsParsed raw (ok command) = (is_command_name command.name ≡ true) × (command.raw ≡ raw)

of_tokens-IsParsed : (raw : String) (tokens : List String) → IsParsed raw (of_tokens raw tokens)
of_tokens-IsParsed raw [] = tt
of_tokens-IsParsed raw (first ∷ rest) = elim (Bool-cases (is_command_name (to_lower first))) [
  | inl valid ↦ rw valid (valid, refl)
  | inr invalid ↦ rw invalid tt
]

of_body-IsParsed : (raw body : String) → IsParsed raw (of_body raw body)
of_body-IsParsed raw body = elim (Bool-cases (str_eq body "")) [
  | inl empty ↦ rw empty tt
  | inr filled ↦ rw filled (of_tokens-IsParsed raw (split_args body))
]

refused_or_not :
    (raw : String) (command : ParsedSlashCommand)
    → ¬ (Path (Result SlashCommandError ParsedSlashCommand) (err (malformed raw)) (ok command))
refused_or_not raw command p = cc

-- Whatever is parsed was recognised as a command, and its name is one that the pattern allows.
pub parse_slash_command-is_command :
    (raw : String) (command : ParsedSlashCommand)
    → parse_slash_command raw ≡ ok command
    → (is_slash_command_input raw ≡ true)
      × (is_command_name command.name ≡ true)
      × (command.raw ≡ raw)
unfolding parse_slash_command is_slash_command_input trim
parse_slash_command-is_command raw command h = elim (Bool-cases (begins_with_slash (trim raw))) [
  | inl slash ↦
      let (valid, same) =
        subst (IsParsed raw) (sym (sym h ∙ rw slash refl))
          (of_body-IsParsed raw (trim (after_slash (trim raw)))) in
      (slash-trim_end (trim_start raw) slash, valid, same)
  | inr other ↦ absurd (refused_or_not raw command (sym (rw other refl) ∙ h))
]

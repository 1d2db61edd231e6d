-- ===== src/Commands/Split.antt =====
-- `splitArgs` of core/src/commands/slash-command.parser.ts, and the printed form of arguments.
use icos_v.Base.{
  String, true, false, ◌||◌, List, [], ◌∷◌, ◌++◌, ◌==◌, if◌then◌else◌, ◌≡◌, refl, ◌∙◌, ap, inl, inr,
  Bool-cases,
}
use icos_v.Base.Text.{is_space}
use icos_v.Commands.{Scan, scan, scan_char, end_token, empty_scan, split_args}
use Prim.Native.Char.{Char, code}
use Prim.Native.String as Text
use mathlib.Core.List.{append_assoc as append_assoc_list}
use text.Mathlib.TextLemmas.{cons-append, append_assoc, append-nil, nil-append}

-- A character as it stands between double quotes.
abbrev pub escape_char : Char → String → String
escape_char c rest =
    if code c == 92 || code c == 34 then Text.◌∷◌ "\\" (Text.◌∷◌ c rest) else Text.◌∷◌ c rest

unfoldable pub escape : String → String
escape Text.[] = ""
escape (Text.◌∷◌ c s) = escape_char c (escape s)

abbrev pub quote : String → String
quote arg = Text.◌∷◌ "\"" (Text.◌++◌ (escape arg) "\"")

-- Every argument in double quotes, after a space.
unfoldable pub print_args : List String → String
print_args [] = ""
print_args (arg ∷ rest) = Text.◌∷◌ " " (Text.◌++◌ (quote arg) (print_args rest))

-- Between double quotes, and after them.
abbrev opened : List String → String → Scan
opened tokens current = record {
  tokens = tokens;
  current = current;
  in_quotes = true;
  escaped = false;
  has_token = true;
}

abbrev pub complete : List String → String → Scan
complete tokens current = record (opened tokens current) { in_quotes = false }

pub scan-append : (s t : String) (σ : Scan) → scan (Text.◌++◌ s t) σ ≡ scan t (scan s σ)
unfolding scan
scan-append Text.[] t σ = rw (nil-append t) refl
scan-append (Text.◌∷◌ c s) t σ = rw (cons-append c s t) (scan-append s t (scan_char c σ))

scan_char-inside :
    (c : Char) (tokens : List String) (current : String)
    → (code c == 92) ≡ false
    → (code c == 34) ≡ false
    → scan_char c (opened tokens current) ≡ opened tokens (Text.◌++◌ current (Text.◌∷◌ c Text.[]))
scan_char-inside c tokens current other plain = rw (other, plain) refl

escape_char-append :
    (c : Char) (s rest : String)
    → Text.◌++◌ (escape_char c s) rest ≡ escape_char c (Text.◌++◌ s rest)
escape_char-append c s rest = elim (Bool-cases (code c == 92 || code c == 34)) [
  | inl escaped ↦ rw (escaped, cons-append, cons-append) refl
  | inr plain ↦ rw (plain, cons-append) refl
]

scan_inside :
    (c : Char) (tokens : List String) (current rest : String)
    → scan (escape_char c rest) (opened tokens current)
      ≡ scan rest (opened tokens (Text.◌++◌ current (Text.◌∷◌ c Text.[])))
unfolding scan
scan_inside c tokens current rest = elim (Bool-cases (code c == 92)) [
  | inl backslash ↦ rw backslash refl
  | inr other ↦ elim (Bool-cases (code c == 34)) [
    | inl double ↦ rw (other, double) refl
    | inr plain ↦ rw (other, plain) (ap (scan rest) (scan_char-inside c tokens current other plain))
  ]
]

pub append-cons :
    (s : String) (c : Char) (t : String)
    → Text.◌++◌ (Text.◌++◌ s (Text.◌∷◌ c Text.[])) t ≡ Text.◌++◌ s (Text.◌∷◌ c t)
append-cons s c t =
    append_assoc s (Text.◌∷◌ c Text.[]) t
    ∙ ap (Text.◌++◌ s) (cons-append c Text.[] t ∙ ap (Text.◌∷◌ c) (nil-append t))

-- What stands between double quotes is read as it was before it was escaped.
scan-escape :
    (arg rest : String) (tokens : List String) (current : String)
    → scan (Text.◌++◌ (escape arg) rest) (opened tokens current)
      ≡ scan rest (opened tokens (Text.◌++◌ current arg))
unfolding escape
scan-escape Text.[] rest tokens current = rw (nil-append rest, append-nil current) refl
scan-escape (Text.◌∷◌ c arg) rest tokens current =
    ap (λ t. scan t (opened tokens current)) (escape_char-append c (escape arg) rest)
    ∙ scan_inside c tokens current (Text.◌++◌ (escape arg) rest)
    ∙ scan-escape arg rest tokens (Text.◌++◌ current (Text.◌∷◌ c Text.[]))
    ∙ ap (λ t. scan rest (opened tokens t)) (append-cons current c arg)

scan-quote :
    (arg rest : String) (tokens : List String)
    → scan (Text.◌++◌ (quote arg) rest) (record empty_scan { tokens = tokens })
      ≡ scan rest (complete tokens arg)
unfolding scan
scan-quote arg rest tokens =
    ap (λ t. scan t (record empty_scan { tokens = tokens }))
      (cons-append _ (Text.◌++◌ (escape arg) "\"") rest)
    ∙ ap (λ t. scan t (opened tokens "")) (append_assoc (escape arg) "\"" rest)
    ∙ scan-escape arg (Text.◌++◌ "\"" rest) tokens ""
    ∙ ap (λ t. scan (Text.◌++◌ "\"" rest) (opened tokens t)) (nil-append arg)
    ∙ ap (λ t. scan t (opened tokens arg))
        (cons-append "\"" Text.[] rest ∙ ap (Text.◌∷◌ "\"") (nil-append rest))

pub scan-print_args :
    (args tokens : List String) (current : String)
    → end_token (scan (print_args args) (complete tokens current))
      ≡ record empty_scan { tokens = tokens ++ current ∷ args }
unfolding print_args scan is_space
scan-print_args [] tokens current = refl
scan-print_args (arg ∷ rest) tokens current =
    ap end_token (scan-quote arg (print_args rest) (tokens ++ current ∷ []))
    ∙ scan-print_args rest (tokens ++ current ∷ []) arg
    ∙ ap (λ t. record empty_scan { tokens = t })
        (append_assoc_list tokens (current ∷ []) (arg ∷ rest))

-- Arguments that are printed between double quotes, with a backslash before each double quote and each
-- backslash, are split into themselves: empty ones, and white space and quotes within them, included.
pub split_args-print_args : (args : List String) → split_args (print_args args) ≡ args
unfolding split_args print_args scan is_space
split_args-print_args [] = refl
split_args-print_args (arg ∷ rest) =
    ap (λ σ. (end_token σ).tokens) (scan-quote arg (print_args rest) [])
    ∙ ap (λ σ. σ.tokens) (scan-print_args rest [] arg)

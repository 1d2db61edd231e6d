-- ===== src/Commands.antt =====
-- core/src/commands/slash-command.parser.ts: the slash commands of the chat. A text is its Unicode
-- characters, which is what the source's loop goes over.
pub mod Split
pub mod Names
pub mod Parse
pub mod Registry
mod Tests
use icos_v.Base.{
  ℕ, String, Bool, true, false, not, ◌&&◌, ◌||◌, List, [], ◌∷◌, ◌++◌, ◌==◌, leb, str_eq,
  if◌then◌else◌,
}
use icos_v.Base.Exec.{Result, ok, err}
use icos_v.Base.Text.{is_space, trim, trim_start}
use Prim.Native.Char.{Char, code}
use Prim.Native.String as Text

pub record ParsedSlashCommand : Type 0 where
  pub name : String
  pub args : List String
  pub raw : String

pub data SlashCommandError : Type 0 where
  malformed : (raw : String) → SlashCommandError

abbrev pub begins_with_slash : String → Bool
begins_with_slash Text.[] = false
begins_with_slash (Text.◌∷◌ c s) = code c == 47

unfoldable pub is_slash_command_input : String → Bool
is_slash_command_input message = begins_with_slash (trim_start message)

-- The variables of the loop of `splitArgs`.
pub record Scan : Type 0 where
  pub tokens : List String
  pub current : String
  pub in_quotes : Bool
  pub escaped : Bool
  pub has_token : Bool

abbrev pub add : Char → Scan → Scan
add c s = record s { current = Text.◌++◌ s.current (Text.◌∷◌ c Text.[]); has_token = true }

abbrev pub end_token : Scan → Scan
end_token s =
    if s.has_token
    then record s { tokens = s.tokens ++ s.current ∷ []; current = ""; has_token = false }
    else s

-- One turn of the loop: 92 is the backslash, 34 the double quote.
abbrev pub scan_char : Char → Scan → Scan
scan_char c s =
    if s.escaped
    then record s {
      current = Text.◌++◌ s.current (Text.◌∷◌ c Text.[]);
      escaped = false;
      has_token = true;
    }
    else if s.in_quotes && code c == 92
    then record s { escaped = true }
    else if code c == 34
    then record s { in_quotes = not s.in_quotes; has_token = true }
    else if not s.in_quotes && is_space (code c)
    then end_token s
    else add c s

unfoldable pub scan : String → Scan → Scan
scan Text.[] s = s
scan (Text.◌∷◌ c text) s = scan text (scan_char c s)

abbrev pub empty_scan : Scan
empty_scan = record {
  tokens = [];
  current = "";
  in_quotes = false;
  escaped = false;
  has_token = false;
}

unfoldable pub split_args : String → List String
split_args body = (end_token (scan body empty_scan)).tokens

-- `toLowerCase`, as far as the pattern of a name can tell: of the characters that are not ASCII only the
-- Kelvin sign has an ASCII letter as its lower case.
abbrev lower_from : String → String → Char → Char
lower_from (Text.◌∷◌ u us) (Text.◌∷◌ l ls) c =
    let rest = lower_from us ls c in if code c == code u then l else rest
lower_from _ _ c = c

abbrev pub lower_char : Char → Char
lower_char = lower_from "ABCDEFGHIJKLMNOPQRSTUVWXYZK" "abcdefghijklmnopqrstuvwxyzk"

unfoldable pub to_lower : String → String
to_lower Text.[] = ""
to_lower (Text.◌∷◌ c s) = Text.◌∷◌ (lower_char c) (to_lower s)

abbrev pub is_letter : ℕ → Bool
is_letter c = leb 97 c && leb c 122

abbrev pub is_name_char : ℕ → Bool
is_name_char c = is_letter c || (leb 48 c && leb c 57) || c == 45

abbrev pub all_name_chars : String → Bool
all_name_chars Text.[] = true
all_name_chars (Text.◌∷◌ c s) = is_name_char (code c) && all_name_chars s

-- /^[a-z][a-z0-9-]*$/
abbrev pub is_command_name : String → Bool
is_command_name Text.[] = false
is_command_name (Text.◌∷◌ c s) = is_letter (code c) && all_name_chars s

abbrev pub after_slash : String → String
after_slash Text.[] = ""
after_slash (Text.◌∷◌ c s) = s

abbrev pub of_tokens : String → List String → Result SlashCommandError ParsedSlashCommand
of_tokens raw [] = err (malformed raw)
of_tokens raw (first ∷ rest) =
    let name = to_lower first in
    if is_command_name name
    then ok (record { name = name; args = rest; raw = raw })
    else err (malformed raw)

abbrev pub of_body : String → String → Result SlashCommandError ParsedSlashCommand
of_body raw body = if str_eq body "" then err (malformed raw) else of_tokens raw (split_args body)

unfoldable pub parse_slash_command : String → Result SlashCommandError ParsedSlashCommand
parse_slash_command raw =
    let text = trim raw in
    if begins_with_slash text then of_body raw (trim (after_slash text)) else err (malformed raw)

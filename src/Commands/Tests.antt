-- ===== src/Commands/Tests.antt =====
-- The theorems on slash commands at concrete inputs.
use icos_v.Base.{String, List, [], ◌∷◌, ◌≡◌, refl}
use icos_v.Base.Exec.{ok, err}
use icos_v.Base.Table.{find}
use icos_v.Base.Text.{trim, trim_start, trim_end, is_space}
use icos_v.Commands.{ParsedSlashCommand, malformed, parse_slash_command, split_args, scan, to_lower}
use icos_v.Commands.Split.{print_args, escape}
use icos_v.Commands.Parse.{print_command, parse_slash_command-print_command}
use icos_v.Commands.Registry.{SlashCommandHandler, Handlers, insert_aliases, register}

abbrev words : List String
words = "my \"own\" title" ∷ "" ∷ "a\\b" ∷ []

printed : print_command "rename" words ≡ "/rename \"my \\\"own\\\" title\" \"\" \"a\\\\b\""
unfolding print_command print_args escape
printed = refl

parse_slash_command-print_command_example :
    parse_slash_command (print_command "rename" words)
    ≡ ok (record { name = "rename"; args = words; raw = print_command "rename" words })
parse_slash_command-print_command_example = parse_slash_command-print_command "rename" words refl

abbrev shouted : String
shouted = "  /Restart-Runtime now "

abbrev restart : ParsedSlashCommand
restart = record { name = "restart-runtime"; args = "now" ∷ []; raw = shouted }

parsed_restart : parse_slash_command shouted ≡ ok restart
unfolding parse_slash_command trim trim_start trim_end is_space split_args scan to_lower
parsed_restart = refl

-- A path is not a command.
refused_path : parse_slash_command "/usr/bin" ≡ err (malformed "/usr/bin")
unfolding parse_slash_command trim trim_start trim_end is_space split_args scan to_lower
refused_path = refl

abbrev echo : SlashCommandHandler String
echo = record { name = "echo"; aliases = "Say" ∷ []; execute = λ context args. context.raw }

abbrev no_handlers : Handlers String
no_handlers = []

abbrev echo_only : Handlers String
echo_only = record { key = "echo"; handler = echo } ∷ record { key = "say"; handler = echo } ∷ []

registered : register to_lower echo no_handlers ≡ (ok tt, echo_only)
unfolding register insert_aliases to_lower find
registered = refl

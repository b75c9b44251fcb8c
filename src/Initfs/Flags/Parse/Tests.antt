-- ===== src/Initfs/Flags/Parse/Tests.antt =====
-- The command line of a build.
use void_init.Base.{◌≡◌, ◌⊎◌, refl, Bool, true, false, [], ◌∷◌, List, Bytes, codes, equal, ok}
use void_init.Os.Memory.{Host, memory, find}
use void_init.Text.Search.{has_prefix}
use void_init.Initfs.Flags.{Config, check_swallowed_values, validate}
use void_init.Initfs.Flags.Validate.{Reuses, Builds}
use void_init.Initfs.Flags.Parse.{defaults, parse_args, checked, returned, parse_flags}
use void_init.Initfs.Flags.Parse.Laws.{
  Assignment, bios, output, command_line, assigned, HasPlainValues, parse_flags-command_line,
  parse_flags-Accepted,
}

abbrev host : Host
host = record {
  files = [];
  path = [];
  commands = [];
  logged = [];
  time = 0;
  handles = [];
  owners = [];
}

-- `--bios=true -o -f --bios=false`
abbrev settings : List (Bool × Assignment)
settings = (true, bios true) ∷ (false, output (codes "-f")) ∷ (true, bios false) ∷ []

parse_flags-command_line_example :
    parse_flags memory (command_line settings) host
    ≡ returned (checked memory (assigned settings defaults) host)
parse_flags-command_line_example = parse_flags-command_line memory settings host

abbrev config : Config
config = record defaults { wants_efi = true; output = codes "vm.qcow2" }

accepted : checked memory config host ≡ ok config
unfolding checked check_swallowed_values validate has_prefix equal codes find
accepted = refl

abbrev args : List Bytes
args = codes "--efi" ∷ codes "-o" ∷ codes "vm.qcow2" ∷ []

parsed : parse_flags memory args host ≡ returned (ok config)
unfolding parse_flags parse_args checked check_swallowed_values validate has_prefix equal codes find
parsed = refl

parse_flags-Accepted_example :
    HasPlainValues config × (Reuses memory host config ⊎ Builds memory host config)
parse_flags-Accepted_example = parse_flags-Accepted memory args host config parsed

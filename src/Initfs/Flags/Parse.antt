-- ===== src/Initfs/Flags/Parse.antt =====
-- cmd/void-initfs/flags.go: the table of flags and `parseFlags`, with the loop of the standard flag
-- package that it calls. What that package prints for a wrong command line is left out.
pub mod Laws
mod Tests
use void_init.Base.{
  ℕ, Bool, true, false, not, ◌||◌, Option, none, some, List, [], ◌∷◌, ◌++◌, any, Bytes, codes,
  equal, ◌==◌, Error, text, Result, ok, err, and_then, map_error, if◌then◌else◌,
}
use void_init.Os.{Os}
use void_init.Text.Parts.{shown}
use void_init.Text.Trim.{is_empty}
use void_init.Initfs.Flags.{Config, check_swallowed_values, validate}

-- `flag.BoolVar` and `flag.StringVar`, each with the variable that it sets.
pub data Variable : Type 0 where
  bool_var : (Bool → Config → Config) → Variable
  string_var : (Bytes → Config → Config) → Variable

-- The defaults of `parseFlags`.
abbrev pub defaults : Config
defaults = record {
  wants_bios = false;
  wants_efi = false;
  libc = codes "glibc";
  packages = [];
  output = [];
  image = [];
  reinstall_bootloader = false;
  binary_path = codes ".";
  update_xbps = false;
  assume_yes = false;
  force = false;
}

abbrev set_packages : Bytes → Config → Config
set_packages v c = record c { packages = v }

abbrev set_output : Bytes → Config → Config
set_output v c = record c { output = v }

abbrev set_image : Bytes → Config → Config
set_image v c = record c { image = v }

abbrev set_assume_yes : Bool → Config → Config
set_assume_yes b c = record c { assume_yes = b }

abbrev set_force : Bool → Config → Config
set_force b c = record c { force = b }

-- The flags that `parseFlags` defines.
abbrev flags : List (Bytes × Variable)
flags =
    (codes "bios", bool_var (λ b c. record c { wants_bios = b }))
    ∷ (codes "efi", bool_var (λ b c. record c { wants_efi = b }))
    ∷ (codes "libc", string_var (λ v c. record c { libc = v }))
    ∷ (codes "p", string_var set_packages)
    ∷ (codes "packages", string_var set_packages)
    ∷ (codes "o", string_var set_output)
    ∷ (codes "output", string_var set_output)
    ∷ (codes "i", string_var set_image)
    ∷ (codes "image", string_var set_image)
    ∷ (codes "reinstall-bootloader", bool_var (λ b c. record c { reinstall_bootloader = b }))
    ∷ (codes "binary-path", string_var (λ v c. record c { binary_path = v }))
    ∷ (codes "update-xbps", bool_var (λ b c. record c { update_xbps = b }))
    ∷ (codes "y", bool_var set_assume_yes)
    ∷ (codes "yes", bool_var set_assume_yes)
    ∷ (codes "f", bool_var set_force)
    ∷ (codes "force", bool_var set_force)
    ∷ []

look_up : Bytes → List (Bytes × Variable) → Option Variable
look_up name [] = none
look_up name ((other_name, variable) ∷ rest) =
    let found = look_up name rest in if equal other_name name then some variable else found

-- One argument as the flag package reads it: no flag, the end of the flags, a syntax error, or a
-- flag, perhaps with the value behind its `=`.
pub data Argument : Type 0 where
  operand terminator malformed : Argument
  named : Bytes → Option Bytes → Argument

-- A name behind its first byte, at the first `=`.
split_value : Bytes → Bytes × Option Bytes
split_value [] = ([], none)
split_value (c ∷ s) =
    let (name, value) = split_value s in if c == b'=' then ([], some s) else (c ∷ name, value)

flag_of : Bytes → Argument
flag_of [] = malformed
flag_of (c ∷ s) =
    let (name, value) = split_value s in
    if c == b'-' || c == b'=' then malformed else named (c ∷ name) value

argument_of : Bytes → Argument
argument_of [] = operand
argument_of (c ∷ []) = operand
argument_of (c ∷ d ∷ s) =
    if not (c == b'-')
    then operand
    else if not (d == b'-')
    then flag_of (d ∷ s)
    else if is_empty s
    then terminator
    else flag_of s

-- `strconv.ParseBool`
parse_bool : Bytes → Option Bool
parse_bool s =
    if any (equal s)
      (codes "1" ∷ codes "t" ∷ codes "T" ∷ codes "TRUE" ∷ codes "true" ∷ codes "True" ∷ [])
    then some true
    else if any (equal s)
        (codes "0" ∷ codes "f" ∷ codes "F" ∷ codes "FALSE" ∷ codes "false" ∷ codes "False" ∷ [])
    then some false
    else none

-- What `flag.Parse` ends with: the process exits, or there are arguments left.
pub data Parsed : Type 0 where
  exits : ℕ → Parsed
  parsed : Config → List Bytes → Parsed

abbrev Waiting : Type 0
Waiting = Option (Bytes → Config → Config)

abbrev set_bool : Option Bool → (Bool → Config → Config) → Config → (Config → Parsed) → Parsed
set_bool none set c next = exits 2
set_bool (some b) set c next = next (set b c)

-- The arguments behind a flag are `next`: of the flag that waits for its value, and the variables.
take_flag : Option Variable → Bytes → Option Bytes → Config → (Waiting → Config → Parsed) → Parsed
take_flag none name value c next =
    exits (if equal name (codes "help") || equal name (codes "h") then 0 else 2)
take_flag (some (bool_var set)) name none c next = next none (set true c)
take_flag (some (bool_var set)) name (some v) c next = set_bool (parse_bool v) set c (next none)
take_flag (some (string_var set)) name none c next = next (some set) c
take_flag (some (string_var set)) name (some v) c next = next none (set v c)

take_argument : Argument → Bytes → List Bytes → Config → (Waiting → Config → Parsed) → Parsed
take_argument operand s args c next = parsed c (s ∷ args)
take_argument terminator s args c next = parsed c args
take_argument malformed s args c next = exits 2
take_argument (named name value) s args c next = take_flag (look_up name flags) name value c next

-- `flag.Parse`; a string flag without `=` waits for the argument behind it.
unfoldable pub parse_args : Waiting → List Bytes → Config → Parsed
unfolding take_argument take_flag argument_of flag_of split_value look_up parse_bool
parse_args none [] c = parsed c []
parse_args (some set) [] c = exits 2
parse_args (some set) (v ∷ args) c = parse_args none args (set v c)
parse_args none (s ∷ args) c =
    take_argument (argument_of s) s args c (λ waiting d. parse_args waiting args d)

-- What `parseFlags` ends with.
pub data Outcome : Type 0 where
  exited : ℕ → Outcome
  returned : Result Config → Outcome

module _ (O : Os) where
  -- The checks behind `flag.Parse`.
  unfoldable pub checked : Config → O.State → Result Config
  checked c s = and_then (check_swallowed_values O c) (λ _. and_then (validate O c s) (λ _. ok c))

  checked_parse : Parsed → O.State → Outcome
  checked_parse (exits status) s = exited status
  checked_parse (parsed c []) s = returned (checked c s)
  checked_parse (parsed c (arg ∷ args)) s = returned (
      err (
        text (
          codes "unexpected argument(s): "
          ++ shown (arg ∷ args)
          ++ codes " (every flag's value must immediately follow it)")))

  -- `parseFlags`, of the arguments behind the program's name.
  unfoldable pub parse_flags : List Bytes → O.State → Outcome
  unfolding checked_parse
  parse_flags args s = checked_parse (parse_args none args defaults) s

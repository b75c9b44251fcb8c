-- ===== src/Initfs/Flags/Parse/Laws.antt =====
-- Command lines that set what they are written for.
use void_init.Base.{
  ◌≡◌, refl, inl, inr, ap, subst, ◌∙◌, Bool, true, false, none, List, [], ◌∷◌, ◌++◌, Bytes, codes,
  equal, ok, ◌⊎◌, arith,
}
use void_init.Os.{Os}
use void_init.Text.Search.{has_prefix}
use void_init.Initfs.Flags.{Config, check_suspects, check_swallowed_values, validate}
use void_init.Initfs.Flags.Validate.{Reuses, Builds, validate_iff}
use void_init.Base.Effects.Laws.{Result-cases}
use void_init.Initfs.Flags.Parse.{
  defaults, parse_bool, split_value, flag_of, argument_of, look_up, Parsed, parsed, parse_args,
  exits, checked, checked_parse, returned, parse_flags,
}

-- One flag with its value, by the variable that it sets.
pub data Assignment : Type 0 where
  bios efi reinstall_bootloader update_xbps yes_flag force : Bool → Assignment
  libc packages output image binary_path : Bytes → Assignment

abbrev shown_bool : Bool → Bytes
shown_bool true = codes "true"
shown_bool false = codes "false"

-- The arguments that are written for it; `long` asks for the long name where there are two.
abbrev pub spelled : Bool × Assignment → List Bytes
spelled (_, bios b) = (codes "--bios=" ++ shown_bool b) ∷ []
spelled (_, efi b) = (codes "--efi=" ++ shown_bool b) ∷ []
spelled (_, reinstall_bootloader b) = (codes "--reinstall-bootloader=" ++ shown_bool b) ∷ []
spelled (_, update_xbps b) = (codes "--update-xbps=" ++ shown_bool b) ∷ []
spelled (true, yes_flag b) = (codes "--yes=" ++ shown_bool b) ∷ []
spelled (false, yes_flag b) = (codes "-y=" ++ shown_bool b) ∷ []
spelled (true, force b) = (codes "--force=" ++ shown_bool b) ∷ []
spelled (false, force b) = (codes "-f=" ++ shown_bool b) ∷ []
spelled (_, libc v) = codes "--libc" ∷ v ∷ []
spelled (true, packages v) = codes "--packages" ∷ v ∷ []
spelled (false, packages v) = codes "-p" ∷ v ∷ []
spelled (true, output v) = codes "--output" ∷ v ∷ []
spelled (false, output v) = codes "-o" ∷ v ∷ []
spelled (true, image v) = codes "--image" ∷ v ∷ []
spelled (false, image v) = codes "-i" ∷ v ∷ []
spelled (_, binary_path v) = codes "--binary-path" ∷ v ∷ []

abbrev pub assign : Assignment → Config → Config
assign (bios b) c = record c { wants_bios = b }
assign (efi b) c = record c { wants_efi = b }
assign (reinstall_bootloader b) c = record c { reinstall_bootloader = b }
assign (update_xbps b) c = record c { update_xbps = b }
assign (yes_flag b) c = record c { assume_yes = b }
assign (force b) c = record c { force = b }
assign (libc v) c = record c { libc = v }
assign (packages v) c = record c { packages = v }
assign (output v) c = record c { output = v }
assign (image v) c = record c { image = v }
assign (binary_path v) c = record c { binary_path = v }

abbrev pub command_line : List (Bool × Assignment) → List Bytes
command_line [] = []
command_line (a ∷ more) = spelled a ++ command_line more

abbrev pub assigned : List (Bool × Assignment) → Config → Config
assigned [] c = c
assigned ((_, a) ∷ more) c = assigned more (assign a c)

parse_args-spelled :
    (long : Bool) (a : Assignment) (args : List Bytes) (c : Config)
    → parse_args none (spelled (long, a) ++ args) c ≡ parse_args none args (assign a c)
unfolding parse_args argument_of flag_of split_value look_up parse_bool codes equal
parse_args-spelled long (bios true) args c = refl
parse_args-spelled long (bios false) args c = refl
parse_args-spelled long (efi true) args c = refl
parse_args-spelled long (efi false) args c = refl
parse_args-spelled long (reinstall_bootloader true) args c = refl
parse_args-spelled long (reinstall_bootloader false) args c = refl
parse_args-spelled long (update_xbps true) args c = refl
parse_args-spelled long (update_xbps false) args c = refl
parse_args-spelled true (yes_flag true) args c = refl
parse_args-spelled true (yes_flag false) args c = refl
parse_args-spelled false (yes_flag true) args c = refl
parse_args-spelled false (yes_flag false) args c = refl
parse_args-spelled true (force true) args c = refl
parse_args-spelled true (force false) args c = refl
parse_args-spelled false (force true) args c = refl
parse_args-spelled false (force false) args c = refl
parse_args-spelled long (libc v) args c = refl
parse_args-spelled true (packages v) args c = refl
parse_args-spelled false (packages v) args c = refl
parse_args-spelled true (output v) args c = refl
parse_args-spelled false (output v) args c = refl
parse_args-spelled true (image v) args c = refl
parse_args-spelled false (image v) args c = refl
parse_args-spelled long (binary_path v) args c = refl

parse_args-command_line :
    (settings : List (Bool × Assignment)) (c : Config)
    → parse_args none (command_line settings) c ≡ parsed (assigned settings c) []
unfolding parse_args
parse_args-command_line [] c = refl
parse_args-command_line ((long, a) ∷ more) c =
    parse_args-spelled long a (command_line more) c ∙ parse_args-command_line more (assign a c)

-- Boolean flags that are written with an equals sign and a value, and other flags with their values
-- behind them, in any order and number, set the variables that they stand for, where the last one
-- wins, and the configuration is then checked.
pub parse_flags-command_line :
    (O : Os) (settings : List (Bool × Assignment)) (s : O.State)
    → parse_flags O (command_line settings) s ≡ returned (checked O (assigned settings defaults) s)
unfolding parse_flags checked_parse
parse_flags-command_line O settings s = rw (parse_args-command_line settings defaults) refl

-- Every variable of a configuration, with its value.
abbrev pub all_of : Config → List (Bool × Assignment)
all_of c =
    (true, bios c.wants_bios)
    ∷ (true, efi c.wants_efi)
    ∷ (true, libc c.libc)
    ∷ (true, packages c.packages)
    ∷ (true, output c.output)
    ∷ (true, image c.image)
    ∷ (true, reinstall_bootloader c.reinstall_bootloader)
    ∷ (true, binary_path c.binary_path)
    ∷ (true, update_xbps c.update_xbps)
    ∷ (true, yes_flag c.assume_yes)
    ∷ (true, force c.force)
    ∷ []

-- A configuration that the checks accept is what comes back, if each of its variables is written on
-- the command line.
pub parse_flags-all_of :
    (O : Os) (c : Config) (s : O.State)
    → checked O c s ≡ ok c
    → parse_flags O (command_line (all_of c)) s ≡ returned (ok c)
parse_flags-all_of O c s h = parse_flags-command_line O (all_of c) s ∙ ap returned h

-- The flags whose values are taken for swallowed flags where they begin with a dash.
abbrev pub HasPlainValues : Config → Type 0
HasPlainValues c =
    (has_prefix c.output (codes "-") ≡ false)
    × (has_prefix c.image (codes "-") ≡ false)
    × (has_prefix c.libc (codes "-") ≡ false)
    × (has_prefix c.binary_path (codes "-") ≡ false)

module _ (O : Os) where
  check_swallowed_values-HasPlainValues :
      (c : Config) → check_swallowed_values O c ≡ ok tt → HasPlainValues c
  unfolding check_swallowed_values check_suspects
  check_swallowed_values-HasPlainValues c h =
      (ground arith, ground arith, ground arith, ground arith)

  -- What the checks let through is what they are given.
  checked-Accepted :
      (c d : Config) (s : O.State)
      → checked O d s ≡ ok c
      → HasPlainValues c × (Reuses O s c ⊎ Builds O s c)
  unfolding checked
  checked-Accepted c d s h = elim (Result-cases (check_swallowed_values O d)) [
    | inr (e, refused) ↦ absurd (ground arith)
    | inl (_, plain) ↦ elim (Result-cases (validate O d s)) [
      | inr (e, refused) ↦ absurd (ground arith)
      | inl (_, valid) ↦
          subst (λ e. HasPlainValues e × (Reuses O s e ⊎ Builds O s e)) (ground arith)
            (check_swallowed_values-HasPlainValues d plain, (validate_iff O s d).0 valid)
    ]
  ]

  -- Whatever the arguments, a configuration that is accepted describes a reuse of an image or a build
  -- of one, and its values for the output, the image, the libc and the programs' path do not start
  -- with a dash.
  pub parse_flags-Accepted :
      (args : List Bytes) (s : O.State) (c : Config)
      → parse_flags O args s ≡ returned (ok c)
      → HasPlainValues c × (Reuses O s c ⊎ Builds O s c)
  unfolding parse_flags checked_parse
  parse_flags-Accepted args s c h = accepted (parse_args none args defaults) h
    where
      accepted :
          (p : Parsed)
          → checked_parse O p s ≡ returned (ok c)
          → HasPlainValues c × (Reuses O s c ⊎ Builds O s c)
      accepted (exits n) h = absurd (cc)
      accepted (parsed d []) h = checked-Accepted c d s (ground arith)
      accepted (parsed d (arg ∷ args)) h = absurd (ground arith)

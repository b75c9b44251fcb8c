-- ===== src/Initfs/Flags.antt =====
-- cmd/void-initfs/flags.go: the command line's configuration and its checks.
pub mod Validate
pub mod Parse
mod Tests
use void_init.Base.{
  ℕ, Bool, true, false, not, ◌&&◌, ◌||◌, Option, none, some, List, [], ◌∷◌, ◌++◌, Bytes, codes,
  equal, Error, text, Result, ok, err, in_context, and_then, if◌then◌else◌,
}
use void_init.Os.{Os, FileInfo}
use void_init.Text.Search.{has_prefix}
use void_init.Text.Trim.{is_empty}
use void_init.Initfs.Layout.{Layout, bios, efi}

-- `config`; the flags `--bios` and `--efi` are `wants_bios` and `wants_efi`.
pub record Config : Type 0 where
  pub wants_bios : Bool
  pub wants_efi : Bool
  pub libc : Bytes
  pub packages : Bytes
  pub output : Bytes
  pub image : Bytes
  pub reinstall_bootloader : Bool
  pub binary_path : Bytes
  pub update_xbps : Bool
  pub assume_yes : Bool
  pub force : Bool

-- `requestedLayout`
unfoldable pub requested_layout : Config → Option Layout
requested_layout c = if c.wants_bios then some bios else if c.wants_efi then some efi else none

module _ (O : Os) where
  -- `checkSwallowedValues`: the loop over `suspects`, each a name and a value.
  check_suspects : List (Bytes × Bytes) → Result (Unit {0})
  check_suspects [] = ok tt
  check_suspects ((name, value) ∷ suspects) =
      let rest = check_suspects suspects in
      if has_prefix value (codes "-")
      then err (
          text (
            name
            ++ codes " got "
            ++ O.quote value
            ++ codes
                ", which looks like a flag rather than a value - check that a value immediately follows "
            ++ name))
      else rest

  unfoldable pub check_swallowed_values : Config → Result (Unit {0})
  unfolding check_suspects
  check_swallowed_values c = check_suspects (
      (codes "-o/--output", c.output)
      ∷ (codes "-i/--image", c.image)
      ∷ (codes "--libc", c.libc)
      ∷ (codes "--binary-path", c.binary_path)
      ∷ [])

  abbrev exists : Bytes → O.State → Bool
  exists path s = elim (O.stat path s) [ ok _ ↦ true | err _ ↦ false ]

  must_exist : Bytes → Result FileInfo → Result (Unit {0})
  must_exist path (ok _) = ok tt
  must_exist path (err e) = err (in_context (codes "-i " ++ path) e)

  -- The branch of `validate` for `-i`.
  validate_reuse : Config → O.State → Result (Unit {0})
  unfolding must_exist
  validate_reuse c s =
      if not (is_empty c.output)
      then err (text (codes "-i and -o are mutually exclusive"))
      else if c.update_xbps
      then err (
          text (
            codes
              "--update-xbps only applies when building from scratch (no packages are bootstrapped with -i)"))
      else if c.force
      then err (
          text
            (codes "-f/--force only applies to -o (there's no output file to overwrite with -i)"))
      else must_exist c.image (O.stat c.image s)

  -- The rest of `validate`.
  validate_build : Config → O.State → Result (Unit {0})
  validate_build c s =
      if c.reinstall_bootloader
      then err (text (codes "--reinstall-bootloader only applies with -i"))
      else if is_empty c.output
      then err (text (codes "-o is required (or -i to reuse an existing image)"))
      else if exists c.output s && not c.force
      then err
          (text (codes "-o " ++ c.output ++ codes ": already exists (use -f/--force to overwrite)"))
      else if not c.wants_bios && not c.wants_efi
      then err (text (codes "exactly one of --bios or --efi is required"))
      else if not (equal c.libc (codes "glibc")) && not (equal c.libc (codes "musl"))
      then err (text (codes "--libc must be \"glibc\" or \"musl\", got " ++ O.quote c.libc))
      else ok tt

  -- `validate`, which reads the file system and changes nothing.
  unfoldable pub validate : Config → O.State → Result (Unit {0})
  unfolding validate_reuse validate_build
  validate c s =
      if c.wants_bios && c.wants_efi
      then err (text (codes "--bios and --efi are mutually exclusive"))
      else if not (is_empty c.image)
      then validate_reuse c s
      else validate_build c s

-- ===== src/Initfs/Run.antt =====
-- cmd/void-initfs/main.go: the two ways to an image, and the stack that undoes what they do to the
-- host. `template` and `parse` are those of Initfs/Fstab.
pub mod Laws
pub mod Prepared
mod Tests
use void_init.Base.{
  Bool, true, false, not, Option, none, some, [], ◌∷◌, ◌++◌, Bytes, codes, text, message, Result,
  ok, err, Exec, pure, raise, when, ◌>>=◌, ◌>>◌, if◌then◌else◌,
}
use void_init.Os.{Os, log_info, log_error}
use void_init.Text.Trim.{is_empty}
use void_init.Initfs.Bootloader.{install_bootloader}
use void_init.Initfs.Bootstrap.{bootstrap}
use void_init.Initfs.BashPrompt.{configure_bash_prompt}
use void_init.Initfs.Cleanup.{Session, on_host, push, unwind}
use void_init.Initfs.Exec.{reconfigure}
use void_init.Initfs.Flags.{Config, requested_layout}
use void_init.Initfs.Fstab.{FstabTemplateData, write_fstab}
use void_init.Initfs.Image.{
  create_image, partition, make_filesystems, mount, detect_layout, push_callback,
}
use void_init.Initfs.Install.{install_binaries, enable_ssh_service, install_repo_keys}
use void_init.Initfs.Layout.{Layout, bios, efi, layout_string}
use void_init.Initfs.Nbd.{Clock, attach_image, detach_image}
use void_init.Initfs.Preflight.{preflight}
use void_init.Initfs.Shutdown.{configure_shutdown_aliases}
use void_init.Initfs.Xbps.Download.{Remote}

-- `requested != detected`
abbrev pub differs : Layout → Layout → Bool
differs bios bios = false
differs efi efi = false
differs _ _ = true

-- `l, _ := cfg.requestedLayout()`, where the zero value is the BIOS layout.
abbrev or_bios : Option Layout → Layout
or_bios none = bios
or_bios (some l) = l

-- `&cleanupStack{}`
abbrev pub fresh : {S : Type 0} → S → Session S
fresh s = record { host = s; fns = [] }

module _ (O : Os) (C : Clock O) (R : Remote O) (template : Bytes)
    (parse : Bytes → Result (FstabTemplateData → Result Bytes)) where
  -- The layout that the partitions imply, where none or the same was asked for.
  agreed : Option Layout → Layout → Exec O.State Layout
  agreed none detected = pure detected
  agreed (some requested) detected =
      if differs requested detected
      then raise (
          text (
            codes "--"
            ++ layout_string requested
            ++ codes " given but partition count implies "
            ++ layout_string detected
            ++ codes " layout"))
      else pure detected

  attach_existing : Config → Exec O.State (Unit {0})
  attach_existing c = do
    log_info O (codes "reusing existing image " ++ c.image)
    attach_image O C c.image

  implied_layout : Config → Exec O.State Layout
  unfolding agreed
  implied_layout c = do detected ← detect_layout O; agreed (requested_layout c) detected

  -- What `runReuse` does below the mounts.
  refresh : Config → Layout → Bytes → Exec O.State (Unit {0})
  refresh c detected root = do
    install_binaries O root c.binary_path
    enable_ssh_service O root
    when c.reinstall_bootloader (install_bootloader O root detected)

  -- `runReuse`
  unfoldable pub run_reuse : Config → Exec (Session O.State) (Unit {0})
  unfolding attach_existing implied_layout refresh
  run_reuse c = do
    on_host (attach_existing c)
    push_callback O (detach_image O C)
    detected ← on_host (implied_layout c)
    root ← mount O detected
    on_host (refresh c detected root)

  abbrev pub layout_to_build : Config → Layout
  layout_to_build c = or_bios (requested_layout c)

  attach_new : Config → Exec O.State (Unit {0})
  attach_new c = do
    log_info O (
        codes "building a new "
        ++ layout_string (layout_to_build c)
        ++ codes " image at "
        ++ c.output
        ++ codes " ("
        ++ c.libc
        ++ codes ")")
    create_image O c.output c.force
    attach_image O C c.output

  format : Layout → Exec O.State (Unit {0})
  format l = do partition O l; make_filesystems O l

  -- What `runBuild` does below the mounts.
  populate : Config → Layout → Bytes → Exec O.State (Unit {0})
  populate c l root = do
    install_repo_keys O root
    bootstrap O root l c.libc c.packages
    reconfigure O root
    configure_bash_prompt O root
    configure_shutdown_aliases O root
    write_fstab O template parse root l
    install_binaries O root c.binary_path
    enable_ssh_service O root
    install_bootloader O root l

  -- `runBuild`
  unfoldable pub run_build : Config → Exec (Session O.State) (Unit {0})
  unfolding attach_new format populate
  run_build c = do
    on_host (attach_new c)
    push_callback O (detach_image O C)
    on_host (format (layout_to_build c))
    root ← mount O (layout_to_build c)
    on_host (populate c (layout_to_build c) root)

  reuse_or_build : Config → Exec (Session O.State) (Unit {0})
  reuse_or_build c = if not (is_empty c.image) then run_reuse c else run_build c

  -- `run` before its deferred calls.
  unfoldable pub steps : Config → Exec (Session O.State) (Unit {0})
  unfolding reuse_or_build
  steps c = do
    on_host (preflight O R (is_empty c.image) c.update_xbps c.assume_yes)
    reuse_or_build c

  -- `run`, with the deferred unwinding of its stack.
  unfoldable pub run : Config → Exec O.State (Unit {0})
  unfolding steps
  run c s = let (r, w) = steps c (fresh s) in (r, let v = unwind w in v.host)

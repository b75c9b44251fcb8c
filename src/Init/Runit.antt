-- ===== src/Init/Runit.antt =====
-- cmd/void-init/runit.go: enabling and disabling the services of runit.
pub mod Laws
mod Tests
use void_init.Base.{
  ◌++◌, Bytes, codes, Result, ok, err, Exec, in_context, is_not_exist, wrapping, ◌>>◌,
  if◌then◌else◌,
}
use void_init.Os.{Os, log_info}

abbrev sv_dir : Bytes
sv_dir = codes "/etc/sv"

abbrev runsvdir_current : Bytes
runsvdir_current = codes "/etc/runit/runsvdir/current"

-- The link of a service in the active directory.
abbrev pub service_link : Bytes → Bytes
service_link name = runsvdir_current ++ codes "/" ++ name

module _ (O : Os) where
  link_service : Bytes → Exec O.State (Unit {0})
  link_service name = do
    log_info O (codes "enabling service " ++ name)
    wrapping (codes "enable service " ++ name)
        (O.symlink (sv_dir ++ codes "/" ++ name) (service_link name))

  -- `enableService`
  unfoldable pub enable_service : Bytes → Exec O.State (Unit {0})
  unfolding link_service
  enable_service name s = elim (O.lstat (service_link name) s) [
    | ok _ ↦ log_info O (codes "service " ++ name ++ codes " already enabled") s
    | err _ ↦ link_service name s
  ]

  after_removal : Bytes → Result (Unit {0}) → Exec O.State (Unit {0})
  after_removal name (ok _) s = log_info O (codes "disabling service " ++ name) s
  after_removal name (err e) s =
      if is_not_exist e
      then log_info O (codes "service " ++ name ++ codes " already disabled") s
      else (err (in_context (codes "disable service " ++ name) e), s)

  -- `disableService`
  unfoldable pub disable_service : Bytes → Exec O.State (Unit {0})
  unfolding after_removal
  disable_service name s = let (r, t) = O.remove (service_link name) s in after_removal name r t

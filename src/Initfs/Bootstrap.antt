-- ===== src/Initfs/Bootstrap.antt =====
-- cmd/void-initfs/bootstrap.go: the packages of an image.
pub mod Laws
use void_init.Base.{
  List, [], ◌∷◌, ◌++◌, Bytes, codes, equal, text, Result, ok, err, Exec, pure, lift, ◌>>=◌, ◌>>◌,
  if◌then◌else◌,
}
use void_init.Os.{Os, log_info}
use void_init.Text.Parts.{split}
use void_init.Text.Trim.{is_empty}
use void_init.Initfs.Exec.{run_command_env}
use void_init.Initfs.Layout.{Layout, bios, efi}

-- `packages`
abbrev base_packages : List Bytes
base_packages =
    codes "base-system"
    ∷ codes "linux"
    ∷ codes "dracut"
    ∷ codes "runit-void"
    ∷ codes "dhcpcd"
    ∷ codes "iproute2"
    ∷ codes "openssh"
    ∷ codes "shadow"
    ∷ codes "e2fsprogs"
    ∷ codes "dosfstools"
    ∷ codes "ca-certificates"
    ∷ codes "iana-etc"
    ∷ codes "bash-completion"
    ∷ codes "net-tools"
    ∷ codes "qemu-ga"
    ∷ codes "binutils"
    ∷ codes "zstd"
    ∷ []

abbrev grub_package : Layout → Bytes
grub_package efi = codes "grub-x86_64-efi"
grub_package bios = codes "grub"

unfoldable pub packages : Layout → List Bytes → List Bytes
packages l user_packages = base_packages ++ (user_packages ++ grub_package l ∷ [])

-- The user's packages: no package for an empty list, not one with an empty name.
unfoldable pub user_package_list : Bytes → List Bytes
user_package_list user_packages = if is_empty user_packages then [] else split user_packages b','

module _ (O : Os) where
  -- `repoAndArch`
  unfoldable pub repo_and_arch : Bytes → Result (Bytes × Bytes)
  repo_and_arch libc =
      if equal libc (codes "glibc")
      then ok (codes "https://repo-default.voidlinux.org/current", codes "x86_64")
      else if equal libc (codes "musl")
      then ok (codes "https://repo-default.voidlinux.org/current/musl", codes "x86_64-musl")
      else err (text (codes "unknown libc variant " ++ O.quote libc))

  -- `bootstrap`
  unfoldable pub bootstrap : Bytes → Layout → Bytes → Bytes → Exec O.State (Unit {0})
  unfolding packages user_package_list
  bootstrap root l libc user_packages = do
    (repo, arch) ← lift (repo_and_arch libc)
    log_info O (
        codes "bootstrapping "
        ++ libc
        ++ codes " and user packages ("
        ++ arch
        ++ codes ", "
        ++ repo
        ++ codes ") into "
        ++ root)
    _ ← run_command_env O ((codes "XBPS_ARCH=" ++ arch) ∷ []) (
        (codes "xbps-install"
          ∷ codes "-S"
          ∷ codes "-y"
          ∷ codes "-R"
          ∷ repo
          ∷ codes "-r"
          ∷ root
          ∷ [])
        ++ packages l (user_package_list user_packages))
    pure tt

-- ===== src/Initfs/Image/Tests.antt =====
-- Mounting an EFI image on a machine that cannot mount its boot partition: the host in memory, whose
-- mounts stand where it keeps its log.
use void_init.Base.{
  Error, Result, ◌≡◌, refl, Bool-cases, inl, inr, Option, none, some, List, [], ◌∷◌, ◌++◌, Bytes,
  codes, text, equal, ok, err, if◌then◌else◌, wrapping, ◌>>=◌, length,
}
use void_init.Os.{Os, Reply}
use void_init.Os.Memory.{Host, memory}
use void_init.Text.FilePath.{clean, join_path}
use void_init.Text.Parts.{split, join}
use void_init.Text.Search.{has_prefix}
use void_init.Initfs.Layout.{efi}
use void_init.Initfs.Exec.{command, run_command, run_command_env, run_words}
use void_init.Initfs.Cleanup.{Session, on_host, push}
use void_init.Initfs.Image.{mount, mounts, mount_at, mount_below, push_callback}
use void_init.Initfs.Image.Mounts.{MountLaws, Recorded, mount-Recorded}

abbrev broken : Bytes
broken = codes "/tmp/void-initfs-root/boot"

abbrev succeeded : Reply
succeeded = record { output = []; status = ok tt }

-- The place of a command with three words.
abbrev place : List Bytes → Option Bytes
place [] = none
place (name ∷ []) = none
place (name ∷ dev ∷ []) = none
place (name ∷ dev ∷ dir ∷ more) = some dir

abbrev mounting : Option Bytes → Host → Reply × Host
mounting none h = (succeeded, h)
mounting (some dir) h =
    if equal dir broken
    then (record { output = []; status = err (text (codes "exit status 32")) }, h)
    else (succeeded, record h { logged = h.logged ++ dir ∷ [] })

abbrev machine : Os
machine = record memory { log = λ l m h. h; run = λ c h. mounting (place c.args) h }

made :
    (dir : Bytes) (h : Host)
    → (mounting (some dir) h).0.status ≡ ok tt
    → (mounting (some dir) h).1.logged ≡ h.logged ++ dir ∷ []
made dir h e = elim (Bool-cases (equal dir broken)) [
  | inl bad ↦ absurd (cc (rw bad at e))
  | inr good ↦ rw good refl
]

not_made :
    (dir : Bytes) (h : Host) {why : Error}
    → (mounting (some dir) h).0.status ≡ err why
    → (mounting (some dir) h).1.logged ≡ h.logged
not_made dir h e = elim (Bool-cases (equal dir broken)) [
  | inl bad ↦ rw bad refl
  | inr good ↦ absurd (cc (rw good at e))
]

abbrev machine-MountLaws : MountLaws machine
machine-MountLaws = record {
  mounted = Host.logged;
  mounted-mount = λ dev dir s e. made dir s e;
  mounted-mount_failed = λ dev dir s e. not_made dir s e;
  mounted-log = λ l m s. refl;
  mounted-mkdir_temp = λ p s. refl;
  mounted-mkdir = λ p m s. refl;
}

abbrev session : Session Host
session = record {
  host = record {
    files = [];
    path = [];
    commands = [];
    logged = [];
    time = 0;
    handles = [];
    owners = [];
  };
  fns = [];
}

half : Result Bytes × Session Host
unfolding mount mounts mount_below mount_at push_callback push on_host command run_command
    run_command_env run_words wrapping ◌>>=◌ codes equal join_path clean split join has_prefix
half = mount machine efi session

-- The root is mounted, and with the removal of the directory two callbacks wait.
registered : (half.1.host.logged ≡ codes "/tmp/void-initfs-root" ∷ []) × (length half.1.fns ≡ 2)
unfolding half
registered = (refl, refl)

mount-Recorded_example : Recorded machine-MountLaws efi session half
unfolding half
mount-Recorded_example = mount-Recorded machine-MountLaws efi session

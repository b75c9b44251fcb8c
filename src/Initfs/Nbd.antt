-- ===== src/Initfs/Nbd.antt =====
-- cmd/void-initfs/image.go: attaching an image to the network block device and detaching it. The
-- clock is `time.Now` in milliseconds and `time.Sleep`.
pub mod Laws
pub mod Memory
mod Tests
use void_init.Base.{
  ℕ, zero, suc, ◌+◌, ◌<◌, ◌≤◌, ◌≡◌, Bool, true, false, not, Option, none, some, [], ◌∷◌, ◌++◌,
  Bytes, codes, ltb, ◌==◌, Error, text, Result, ok, err, Exec, pure, raise, wrapping, ◌>>=◌, ◌>>◌,
  if◌then◌else◌,
}
use void_init.Os.{Os, log_info, log_warn}
use void_init.Base.Effects.{message}
use void_init.Text.Atoi.{parse_uint}
use void_init.Text.FilePath.{join_path, base}
use void_init.Text.Space.{trim_space}
use void_init.Initfs.Exec.{run_command, command}
use void_init.Initfs.Layout.{nbd_device}

pub record Clock (O : Os) : Type 0 where
  pub now : O.State → ℕ
  pub sleep : ℕ → O.State → O.State

-- A sleep takes as long as it is asked to, or longer.
pub record ClockLaws (O : Os) (C : Clock O) : Type 0 where
  pub now-sleep : (d : ℕ) (s : O.State) → C.now s + d ≤ C.now (C.sleep d s)

abbrev pub nbd_poll_interval : ℕ
nbd_poll_interval = 100

abbrev pub nbd_poll_timeout : ℕ
nbd_poll_timeout = 5000

-- `nbdSizeSysfsPath`
unfoldable pub nbd_size_sysfs_path : Bytes
nbd_size_sysfs_path = join_path (codes "/sys/class/block" ∷ base nbd_device ∷ codes "size" ∷ [])

-- `func(sectors uint64) bool { return sectors > 0 }`
abbrev pub attached : ℕ → Bool
attached sectors = ltb 0 sectors

-- `func(sectors uint64) bool { return sectors == 0 }`
abbrev pub detached : ℕ → Bool
detached sectors = sectors == 0

-- Rounds that are enough for every wait: 50 sleeps last as long as the timeout.
abbrev pub poll_fuel : ℕ
poll_fuel = 52

-- What stands for a wait that its rounds do not end, which does not occur.
unfoldable pub or_stuck : Option (Result (Unit {0})) → Result (Unit {0})
or_stuck none = err (text [])
or_stuck (some r) = r

module _ (O : Os) (C : Clock O) where
  abbrev size_ready : (ℕ → Bool) → Bytes → Bool
  size_ready ready content = elim (parse_uint (trim_space content)) [
    | none ↦ false
    | some n ↦ ready n
  ]

  -- Whether the file can be read and its number is one waited for.
  unfoldable pub settled : (ℕ → Bool) → O.State → Bool
  settled ready s = elim (O.read_file nbd_size_sysfs_path s) [
    | err _ ↦ false
    | ok content ↦ size_ready ready content
  ]

  -- The loop of `waitForNBDSize`, `fuel` rounds of it at most: `none` where these are not enough.
  unfoldable pub poll : ℕ → (ℕ → Bool) → ℕ → O.State → Option (Result (Unit {0})) × O.State
  poll zero ready deadline s = (none, s)
  poll (suc fuel) ready deadline s =
      let later = poll fuel ready deadline (C.sleep nbd_poll_interval s) in
      if settled ready s
      then (some (ok tt), s)
      else if ltb deadline (C.now s)
      then (
        some (err (text (codes "timed out waiting for " ++ nbd_device ++ codes " to settle"))),
        s,
      )
      else later

  -- `waitForNBDSize`
  unfoldable pub wait_for_nbd_size : (ℕ → Bool) → Exec O.State (Unit {0})
  unfolding or_stuck
  wait_for_nbd_size ready s =
      let (r, t) = poll poll_fuel ready (C.now s + nbd_poll_timeout) s in (or_stuck r, t)

  -- `attachImage`
  unfoldable pub attach_image : Bytes → Exec O.State (Unit {0})
  attach_image path = do
    command O (codes "modprobe" ∷ codes "nbd" ∷ [])
    log_info O (codes "attaching " ++ path ++ codes " to " ++ nbd_device)
    command O (codes "qemu-nbd" ∷ codes "-c" ∷ nbd_device ∷ path ∷ [])
    wrapping (codes "wait for " ++ nbd_device ++ codes " to attach") (wait_for_nbd_size attached)

  -- An error is logged and dropped.
  abbrev warned : Result (Unit {0}) × O.State → O.State
  warned (ok _, s) = s
  warned (err e, s) = (log_warn O (message e) s).1

  -- `detachImage`
  unfoldable pub detach_image : O.State → O.State
  detach_image s =
      let (_, logged) = log_info O (codes "detaching " ++ nbd_device) s in
      warned (
        (command O (codes "qemu-nbd" ∷ codes "-d" ∷ nbd_device ∷ []) >> wait_for_nbd_size detached)
          logged)

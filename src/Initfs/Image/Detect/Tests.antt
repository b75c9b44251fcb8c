-- ===== src/Initfs/Image/Detect/Tests.antt =====
-- A disk whose partitions are counted, on the host in memory.
use void_init.Base.{
  ℕ, zero, suc, ◌≡◌, refl, ap, sym, ◌∙◌, arith, length, List, [], ◌∷◌, Bytes, codes, equal, ok,
  for_each, wrapping, ◌>>=◌, if◌then◌else◌,
}
use void_init.Base.Effects.Laws.{ok-injective}
use void_init.Os.{Os}
use void_init.Os.Memory.{Host, memory}
use void_init.Initfs.Layout.{efi, partition_specs}
use void_init.Initfs.Exec.{run_words, run_command_env, run_command, command}
use void_init.Initfs.Image.{sgdisk, reread, partition, detect_layout}
use void_init.Initfs.Image.Detect.{TableLaws, detect_layout-partition}

-- The number of partitions behind a command.
abbrev counted : List Bytes → ℕ → ℕ
counted (name ∷ option ∷ _) n =
    if equal name (codes "sgdisk") then (if equal option (codes "-o") then 0 else suc n) else n
counted _ n = n

abbrev names : ℕ → List Bytes
names zero = []
names (suc n) = codes "/dev/nbd0p" ∷ names n

abbrev machine : Os
machine = record memory {
  run = λ c h. (record { output = []; status = ok tt }, record h { time = counted c.args h.time });
  glob = λ p h. ok (names h.time);
}

names-length : (n : ℕ) → length (names n) ≡ n
names-length zero = refl
names-length (suc n) = omega (arith, names-length n)

counting : TableLaws machine
unfolding codes equal sgdisk
counting = record {
  partitions = λ h. h.time;
  known = λ h. h.time;
  nodes = λ h. h.time;
  clear-none = λ s fine. refl;
  sgdisk-one = λ p s fine. refl;
  partprobe-reads = λ s fine. refl;
  partprobe-keeps = λ s. refl;
  settle-makes = λ s fine. refl;
  settle-keeps = λ s. refl;
  glob-nodes = λ s h. listed s h;
  log-partitions = λ l m s. refl;
  log-known = λ l m s. refl;
}
  where
    listed : (s : Host) {ns : List Bytes} → ok (names s.time) ≡ ok ns → length ns ≡ s.time
    listed s h = ap length (sym (ok-injective h)) ∙ names-length s.time

abbrev host : Host
host = record {
  files = [];
  path = [];
  commands = [];
  logged = [];
  time = 9;
  handles = [];
  owners = [];
}

built : Host
unfolding partition reread partition_specs command run_command run_command_env run_words for_each
    wrapping codes equal sgdisk ◌>>=◌
built = (partition machine efi host).1

table : built.time ≡ 4
unfolding built sgdisk
table = refl

detect_layout-partition_example : (detect_layout machine built).0 ≡ ok efi
unfolding built counting
detect_layout-partition_example =
    detect_layout-partition counting efi host built built refl refl refl refl

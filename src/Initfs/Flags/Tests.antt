-- ===== src/Initfs/Flags/Tests.antt =====
-- The checks on a command line that builds an image.
use void_init.Base.{◌≡◌, ◌⊎◌, ◌↔◌, true, false, [], codes, ok}
use void_init.Os.Memory.{Host, memory}
use void_init.Initfs.Flags.{Config, validate}
use void_init.Initfs.Flags.Validate.{Reuses, Builds, validate_iff}

abbrev host : Host
host = record {
  files = [];
  path = [];
  commands = [];
  logged = [];
  time = 0;
  handles = [];
  owners = [];
}

abbrev config : Config
config = record {
  wants_bios = false;
  wants_efi = true;
  libc = codes "musl";
  packages = [];
  output = codes "vm.qcow2";
  image = [];
  reinstall_bootloader = false;
  binary_path = codes "/usr/bin/void-init";
  update_xbps = true;
  assume_yes = false;
  force = false;
}

validate_iff_example :
    (validate memory config host ≡ ok tt) ↔ (Reuses memory host config ⊎ Builds memory host config)
validate_iff_example = validate_iff memory host config

-- ===== src/Initfs/Layout/Laws.antt =====
-- The partition table agrees with the device nodes that are formatted and mounted.
use mathlib.Core.Option
use void_init.Base.{
  ℕ, zero, suc, ◌≡◌, refl, none, some, Option, List, [], ◌∷◌, map, Bytes, codes, equal,
  if◌then◌else◌,
}
use void_init.Initfs.Layout.{
  Layout, bios, efi, partition_count, PartitionSpec, partition_specs, partition_device,
  root_partition_device, boot_partition_device, efi_partition_device,
}

-- The numbers from `n` on, `k` of them.
abbrev pub range : ℕ → ℕ → List ℕ
range n zero = []
range n (suc k) = n ∷ range (suc n) k

-- The number of the first partition with this name.
abbrev number_of : Bytes → List PartitionSpec → Option ℕ
number_of name [] = none
number_of name (p ∷ ps) = if equal p.name name then some p.num else number_of name ps

-- The device node of the partition with this name in the layout's table.
abbrev pub device_of : Bytes → Layout → Option Bytes
device_of name l = Option.map partition_device (number_of name (partition_specs l))

-- In both layouts the partitions are numbered from 1 without a gap, as many as the layout counts;
-- the devices formatted and mounted as root and boot are those of the partitions named so. The
-- device of the EFI system partition is that of the partition named EFI, which only the EFI layout
-- has.
pub partition_specs-device :
    (l : Layout)
    → (map PartitionSpec.num (partition_specs l) ≡ range 1 (partition_count l))
      × (device_of (codes "root") l ≡ some (root_partition_device l))
      × (device_of (codes "boot") l ≡ some (boot_partition_device l))
      × (device_of (codes "EFI") l ≡ elim l [ efi ↦ some efi_partition_device | bios ↦ none ])
unfolding partition_specs root_partition_device boot_partition_device efi_partition_device codes
    equal
partition_specs-device bios = (refl, refl, refl, refl)
partition_specs-device efi = (refl, refl, refl, refl)

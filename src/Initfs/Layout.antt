-- ===== src/Initfs/Layout.antt =====
-- cmd/void-initfs/image.go: the two partition schemes, their tables and their device nodes.
pub mod Laws
use void_init.Base.{ℕ, ◌-◌, List, [], ◌∷◌, ◌++◌, Bytes, codes}
use void_init.Text.Decimal.{decimal}

-- `layout`
pub data Layout : Type 0 where
  bios efi : Layout

-- `layout.String`
unfoldable pub layout_string : Layout → Bytes
layout_string efi = codes "efi"
layout_string bios = codes "bios"

-- `layout.partitionCount`
abbrev pub partition_count : Layout → ℕ
partition_count efi = 4
partition_count bios = 3

-- `partitionSpec`; `kind` is its `typ`.
pub record PartitionSpec : Type 0 where
  pub num : ℕ
  pub size : Bytes
  pub kind : Bytes
  pub name : Bytes

abbrev spec : ℕ → Bytes → Bytes → Bytes → PartitionSpec
spec num size kind name = record { num = num; size = size; kind = kind; name = name }

-- `partitionSpecs`
unfoldable pub partition_specs : Layout → List PartitionSpec
partition_specs efi =
    spec 1 (codes "+1M") (codes "ef02") (codes "BIOS boot")
    ∷ spec 2 (codes "+199M") (codes "ef00") (codes "EFI")
    ∷ spec 3 (codes "+300M") (codes "8300") (codes "boot")
    ∷ spec 4 (codes "0") (codes "8300") (codes "root")
    ∷ []
partition_specs bios =
    spec 1 (codes "+1M") (codes "ef02") (codes "BIOS boot")
    ∷ spec 2 (codes "+499M") (codes "8300") (codes "boot")
    ∷ spec 3 (codes "0") (codes "8300") (codes "root")
    ∷ []

-- `nbdDevice`
abbrev pub nbd_device : Bytes
nbd_device = codes "/dev/nbd0"

-- `partitionDevice`
unfoldable pub partition_device : ℕ → Bytes
partition_device n = nbd_device ++ (b'p' ∷ decimal n)

-- `rootPartitionDevice`
unfoldable pub root_partition_device : Layout → Bytes
root_partition_device l = partition_device (partition_count l)

-- `bootPartitionDevice`
unfoldable pub boot_partition_device : Layout → Bytes
boot_partition_device l = partition_device (partition_count l - 1)

-- `efiPartitionDevice`
unfoldable pub efi_partition_device : Bytes
efi_partition_device = partition_device 2

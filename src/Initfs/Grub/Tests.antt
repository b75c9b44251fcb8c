-- ===== src/Initfs/Grub/Tests.antt =====
-- A file with one of the settings commented out and another line.
use void_init.Base.{[], ◌∷◌, All, Bytes, List, codes}
use void_init.Initfs.Grub.{grub_fastboot_settings, fastboot_lines}
use void_init.Initfs.Grub.Laws.{Holds, fastboot_lines-Holds}

abbrev lines : List Bytes
lines = codes "#GRUB_TIMEOUT=5" ∷ codes "GRUB_DISTRIBUTOR=Void" ∷ [] ∷ []

fastboot_lines-Holds_example :
    All (λ s. Holds s (fastboot_lines grub_fastboot_settings lines)) grub_fastboot_settings
fastboot_lines-Holds_example = fastboot_lines-Holds lines

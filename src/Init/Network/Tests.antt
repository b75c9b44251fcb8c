-- ===== src/Init/Network/Tests.antt =====
-- The prefix length of 255.255.240.0.
use void_init.Base.{◌≡◌, ◌↔◌, refl, some, [], ◌∷◌, Bytes, codes, ok, arith}
use void_init.Base.{List, All, map, ◌++◌}
use void_init.Text.Parts.{Lacks, split}
use void_init.Managed.{user_config_marker}
use void_init.Init.Network.{resolv_conf}
use void_init.Init.Network.Resolv.{search_lines, nameserver_line, resolv_conf-split}
use void_init.Os.Memory.{memory}
use void_init.Text.Atoi.{pos}
use void_init.Init.Network.{Net, netmask_to_cidr}
use void_init.Init.Network.Types.{ip4}
use void_init.Init.Network.Mask.{simple_mask_length, leading_ones}
use void_init.Init.Network.Mask.Laws.{IsMask}
use void_init.Init.Network.Laws.{netmask_to_cidr_iff}

-- It reads one netmask whatever the text.
abbrev net : Net
net = record { parse_ip = λ s. some (ip4 255 255 240 0); parse_mac = λ s. ok s }

abbrev netmask : Bytes
netmask = codes "255.255.240.0"

prefix_length : netmask_to_cidr memory net netmask ≡ ok (pos 20)
unfolding netmask_to_cidr simple_mask_length leading_ones
prefix_length = refl

netmask_to_cidr_iff_example :
    (netmask_to_cidr memory net netmask ≡ ok (pos 20)) ↔ IsMask (255 ∷ 255 ∷ 240 ∷ 0 ∷ []) 20
netmask_to_cidr_iff_example =
    netmask_to_cidr_iff memory net netmask refl 20 (omega arith) (omega arith) (omega arith)
      (omega arith)

abbrev servers : List Bytes
servers = codes "1.1.1.1" ∷ codes "9.9.9.9" ∷ []

abbrev domains : List Bytes
domains = codes "lan" ∷ []

servers-Lacks : All (Lacks b'\n') servers
unfolding codes
servers-Lacks = ground arith

domains-Lacks : All (Lacks b'\n') domains
unfolding codes
domains-Lacks = ground arith

resolv_conf-split_example :
    split (resolv_conf servers domains) b'\n'
    ≡ search_lines domains ++ (map nameserver_line servers ++ (user_config_marker ∷ [] ∷ []))
resolv_conf-split_example = resolv_conf-split servers domains servers-Lacks domains-Lacks

-- ===== src/Init/Network/Config/Tests.antt =====
-- A machine with one interface, a static address and a device of name servers.
use void_init.Base.{◌≡◌, refl, some, [], ◌∷◌, codes, equal, ok, ◌>>=◌, wrapping, for_each}
use void_init.Os.{Os}
use void_init.Os.Memory.{Host, memory, find, put}
use void_init.Init.Fsutil.{write_managed_file}
use void_init.Init.Runit.{disable_service}
use void_init.Text.Atoi.{atoi}
use void_init.Text.Search.{cut}
use void_init.Init.Network.{
  Net, interface_name_by_mac, apply_static_network, subnet_address_cidr, static_commands,
  apply_resolv_conf,
}
use void_init.Init.Network.Types.{Subnet, NetworkConfig, ip4}
use void_init.Init.Network.Config.{
  Gathered, is_dynamic, is_static, apply_device, apply_devices, apply_subnet, apply_network_config,
}
use void_init.Init.Network.Config.Gathered.{Resolved, apply_network_config-gathered}

abbrev machine : Os
machine = record memory {
  interfaces = λ h. ok (record { name = codes "eth0"; hardware_addr = codes "m" } ∷ []);
}

abbrev net : Net
net = record { parse_ip = λ s. some (ip4 255 255 240 0); parse_mac = λ s. ok s }

abbrev subnet : Subnet
subnet = record {
  kind = codes "static";
  address = codes "10.0.0.5/24";
  netmask = [];
  gateway = [];
  dns_nameservers = codes "10.0.0.1" ∷ [];
  dns_search = codes "lan" ∷ [];
}

abbrev config : NetworkConfig
config = record {
  version = 1;
  config =
      record {
        kind = codes "physical";
        name = codes "eth0";
        mac_address = codes "m";
        subnets = subnet ∷ [];
        address = [];
        search = [];
      }
      ∷ record {
        kind = codes "nameserver";
        name = [];
        mac_address = [];
        subnets = [];
        address = codes "1.1.1.1" ∷ [];
        search = [];
      }
      ∷ [];
}

abbrev host : Host
host = record {
  files = [];
  path = [];
  commands = [];
  logged = [];
  time = 0;
  handles = [];
  owners = [];
}

applied :
    apply_network_config machine net [] config host
    ≡ (ok tt, (apply_network_config machine net [] config host).1)
unfolding apply_network_config apply_device interface_name_by_mac apply_subnet is_dynamic is_static
    apply_static_network subnet_address_cidr static_commands disable_service apply_resolv_conf
    write_managed_file codes equal cut atoi find put for_each wrapping ◌>>=◌
applied = refl

apply_network_config-gathered_example :
    let t = (apply_network_config machine net [] config host).1 in
    let all : Gathered = (codes "10.0.0.1" ∷ codes "1.1.1.1" ∷ [], codes "lan" ∷ []) in
    (u : Host) × (apply_devices machine net [] config.config ([], []) host ≡ (ok all, u))
    × Resolved machine net [] all u t
unfolding is_static equal codes
apply_network_config-gathered_example =
    apply_network_config-gathered machine net [] config host applied

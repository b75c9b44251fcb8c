-- ===== src/Init/Hosts/Tests.antt =====
-- The address of a machine with one static subnet.
use void_init.Base.{◌≡◌, some, [], ◌∷◌, codes, equal, refl, ok}
use void_init.Text.Atoi.{pos, atoi}
use void_init.Text.Search.{cut}
use void_init.Os.Memory.{memory}
use void_init.Init.Network.{Net, subnet_address_cidr}
use void_init.Init.Network.Types.{Subnet, NetworkConfig, ip4}
use void_init.Init.Network.Config.{is_static}
use void_init.Init.Hosts.{static_address}
use void_init.Init.Hosts.Laws.{all_subnets, first_static, static_address-assigned}

-- It reads one netmask whatever the text.
abbrev net : Net
net = record { parse_ip = λ s. some (ip4 255 255 240 0); parse_mac = λ s. ok s }

abbrev subnet : Subnet
subnet = record {
  kind = codes "static";
  address = codes "10.0.0.5/24";
  netmask = [];
  gateway = codes "10.0.0.1";
  dns_nameservers = [];
  dns_search = [];
}

abbrev config : NetworkConfig
config = record {
  version = 1;
  config =
      record {
        kind = codes "physical";
        name = codes "eth0";
        mac_address = [];
        subnets = record subnet { kind = codes "dhcp" } ∷ subnet ∷ [];
        address = [];
        search = [];
      }
      ∷ [];
}

found : first_static (all_subnets config.config) ≡ some subnet
unfolding is_static codes equal
found = refl

read : subnet_address_cidr memory net subnet ≡ ok (codes "10.0.0.5", pos 24)
unfolding subnet_address_cidr atoi cut codes
read = refl

static_address-assigned_example : static_address (some config) ≡ codes "10.0.0.5"
static_address-assigned_example =
    static_address-assigned memory net config subnet (codes "10.0.0.5") (pos 24) found read

-- ===== src/Init/Network/Types.antt =====
-- cmd/void-init/network.go: the configuration that cloud-init hands over.
use void_init.Base.{ℕ, List, Bytes}

-- `Subnet`; `kind` is its `Type`.
pub record Subnet : Type 0 where
  pub kind : Bytes
  pub address : Bytes
  pub netmask : Bytes
  pub gateway : Bytes
  pub dns_nameservers : List Bytes
  pub dns_search : List Bytes

-- `NetworkConfigDevice`; `kind` is its `Type`.
pub record NetworkConfigDevice : Type 0 where
  pub kind : Bytes
  pub name : Bytes
  pub mac_address : Bytes
  pub subnets : List Subnet
  pub address : List Bytes
  pub search : List Bytes

-- `NetworkConfig`
pub record NetworkConfig : Type 0 where
  pub version : ℕ
  pub config : List NetworkConfigDevice

-- What `net.ParseIP` reads: an address that `To4` turns into four bytes, or another.
pub data Ip : Type 0 where
  ip4 : (a b c d : ℕ) → Ip
  ip6 : Bytes → Ip

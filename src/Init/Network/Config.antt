-- ===== src/Init/Network/Config.antt =====
-- cmd/void-init/network.go: the walk over the devices of a network configuration. The name servers
-- and the search domains that it gathers are handed from one device to the next.
pub mod Gathered
mod Tests
use void_init.Base.{
  Bool, List, [], ◌∷◌, ◌++◌, Bytes, codes, equal, any, text, Exec, pure, raise, ◌>>=◌, ◌>>◌,
  if◌then◌else◌,
}
use void_init.Os.{Os, log_info}
use void_init.Init.Network.{
  Net, interface_name_by_mac, apply_dynamic_network, apply_static_network, apply_resolv_conf,
}
use void_init.Text.Parts.{shown}
use void_init.Init.Network.Types.{Subnet, NetworkConfigDevice, NetworkConfig}

-- `nameservers` and `search`
abbrev pub Gathered : Type 0
Gathered = List Bytes × List Bytes

-- The types of subnets that dhcpcd serves, and those with an address of their own.
unfoldable pub is_dynamic : Bytes → Bool
is_dynamic kind = any (equal kind) (
    codes "dhcp"
    ∷ codes "dhcp4"
    ∷ codes "dhcp6"
    ∷ codes "ipv6_slaac"
    ∷ codes "ipv6_dhcpv6-stateless"
    ∷ codes "ipv6_dhcpv6-stateful"
    ∷ [])

unfoldable pub is_static : Bytes → Bool
is_static kind = any (equal kind) (codes "static" ∷ codes "static6" ∷ [])

module _ (O : Os) (N : Net) (template : Bytes) where
  dynamic_subnet : Bytes → Gathered → Exec O.State Gathered
  dynamic_subnet iface found = do apply_dynamic_network O N template iface; pure found

  static_subnet : Bytes → Subnet → Gathered → Exec O.State Gathered
  static_subnet iface subnet (nameservers, search) = do
    apply_static_network O N iface subnet
    pure (nameservers ++ subnet.dns_nameservers, search ++ subnet.dns_search)

  -- One subnet of the interface `iface`.
  unfoldable pub apply_subnet : Bytes → Bytes → Subnet → Gathered → Exec O.State Gathered
  unfolding dynamic_subnet static_subnet
  apply_subnet mac iface subnet found =
      if is_dynamic subnet.kind
      then dynamic_subnet iface found
      else if is_static subnet.kind
      then static_subnet iface subnet found
      else raise (
          text (
            codes "unsupported subnet type "
            ++ O.quote subnet.kind
            ++ codes " for interface "
            ++ mac))

  unfoldable pub apply_subnets : Bytes → Bytes → List Subnet → Gathered → Exec O.State Gathered
  apply_subnets mac iface [] found = pure found
  apply_subnets mac iface (subnet ∷ subnets) found = do
    more ← apply_subnet mac iface subnet found
    apply_subnets mac iface subnets more

  physical_device : NetworkConfigDevice → Gathered → Exec O.State Gathered
  unfolding apply_subnets
  physical_device device found = do
    iface ← interface_name_by_mac O N device.mac_address
    log_info O (
        codes "configuring interface "
        ++ iface
        ++ codes " (mac "
        ++ device.mac_address
        ++ codes ")")
    apply_subnets device.mac_address iface device.subnets found

  nameserver_device : NetworkConfigDevice → Gathered → Exec O.State Gathered
  nameserver_device device (nameservers, search) = do
    log_info O (codes "adding global nameserver(s) " ++ shown device.address)
    pure (nameservers ++ device.address, search ++ device.search)

  unfoldable pub apply_device : NetworkConfigDevice → Gathered → Exec O.State Gathered
  unfolding physical_device nameserver_device
  apply_device device found =
      if equal device.kind (codes "physical")
      then physical_device device found
      else if equal device.kind (codes "nameserver")
      then nameserver_device device found
      else raise (text (codes "unsupported config type " ++ O.quote device.kind))

  unfoldable pub apply_devices : List NetworkConfigDevice → Gathered → Exec O.State Gathered
  apply_devices [] found = pure found
  apply_devices (device ∷ devices) found = do
    more ← apply_device device found
    apply_devices devices more

  -- `ApplyNetworkConfig`
  unfoldable pub apply_network_config : NetworkConfig → Exec O.State (Unit {0})
  unfolding apply_devices
  apply_network_config nc = do
    (nameservers, search) ← apply_devices nc.config ([], [])
    apply_resolv_conf O N nameservers search

-- ===== src/Init/Network.antt =====
-- cmd/void-init/network.go: the addresses, routes and name servers of a machine. `net.ParseIP` and
-- `net.ParseMAC` are the fields of `Net`.
pub mod Types
pub mod Mask
pub mod Config
pub mod Resolv
pub mod Laws
mod Tests
use void_init.Base.{
  ℕ, Bool, true, false, not, ◌||◌, ◌&&◌, Option, none, some, List, [], ◌∷◌, ◌++◌, Bytes, codes,
  equal, map, any, Error, wrap, text, Result, ok, err, Exec, pure, raise, lift, query, when,
  for_each, in_context, map_error, and_then, wrapping, ◌>>=◌, ◌>>◌, if◌then◌else◌,
}
use void_init.Os.{Os, Interface, Reply, log_info}
use void_init.Text.Atoi.{ℤ, pos, atoi, decimal_ℤ}
use void_init.Text.Parts.{shown, join}
use void_init.Text.Search.{cut}
use void_init.Text.Trim.{is_empty}
use void_init.Managed.{user_config_marker}
use void_init.Init.Fsutil.{write_managed_file}
use void_init.Init.Runit.{enable_service, disable_service}
use void_init.Init.Network.Types.{Subnet, NetworkConfigDevice, NetworkConfig, Ip, ip4, ip6}
use void_init.Init.Network.Mask.{simple_mask_length}

pub record Net : Type 0 where
  pub parse_ip : Bytes → Option Ip
  pub parse_mac : Bytes → Result Bytes

abbrev dhcpcd_conf_path : Bytes
dhcpcd_conf_path = codes "/etc/dhcpcd.conf"

abbrev pub resolv_conf_path : Bytes
resolv_conf_path = codes "/etc/resolv.conf"

-- What `applyResolvConf` renders.
abbrev pub nameserver_lines : List Bytes → Bytes
nameserver_lines [] = []
nameserver_lines (ns ∷ rest) = codes "nameserver " ++ ns ++ codes "\n" ++ nameserver_lines rest

unfoldable pub resolv_conf : List Bytes → List Bytes → Bytes
resolv_conf nameservers search =
    (if is_empty search then [] else codes "search " ++ join search (codes " ") ++ codes "\n")
    ++ (nameserver_lines nameservers ++ (user_config_marker ++ codes "\n"))

-- `ParseNetworkConfig`, on the decoder of gopkg.in/yaml.v3.
unfoldable pub parse_network_config : (Bytes → Result NetworkConfig) → Bytes → Result NetworkConfig
parse_network_config unmarshal input =
    map_error (in_context (codes "parse network-config")) (unmarshal input)

-- What is logged where there is no name server.
abbrev pub untouched : Bytes
untouched = codes "no nameservers configured, leaving " ++ resolv_conf_path ++ codes " untouched"

module _ (O : Os) (N : Net) where
  -- `net.IPMask(ip4).Size()` and its test
  mask_size : Bytes → Option ℕ → Result ℤ
  mask_size netmask none = err (text (codes "invalid netmask " ++ O.quote netmask))
  mask_size netmask (some size) = ok (pos size)

  -- `netmaskToCIDR`
  unfoldable pub netmask_to_cidr : Bytes → Result ℤ
  unfolding mask_size
  netmask_to_cidr netmask = elim (N.parse_ip netmask) [
    | none ↦ err (text (codes "invalid netmask " ++ O.quote netmask))
    | some (ip6 _) ↦ err (text (codes "invalid IPv4 netmask " ++ O.quote netmask))
    | some (ip4 a b c d) ↦ mask_size netmask (simple_mask_length 0 (a ∷ b ∷ c ∷ d ∷ []))
  ]

  -- The address with its own prefix, or with that of the netmask.
  address_prefix : Subnet → Option (Bytes × Bytes) → Result (Bytes × ℤ)
  address_prefix subnet (some (address, prefix)) =
      and_then
        (map_error (in_context (codes "invalid address prefix " ++ O.quote subnet.address))
          (atoi O.quote prefix))
        (λ cidr. ok (address, cidr))
  address_prefix subnet none =
      if is_empty subnet.netmask
      then err (
          text (
            codes "address "
            ++ O.quote subnet.address
            ++ codes " has no CIDR prefix and no netmask was given"))
      else and_then (netmask_to_cidr subnet.netmask) (λ cidr. ok (subnet.address, cidr))

  -- `subnetAddressCIDR`
  unfoldable pub subnet_address_cidr : Subnet → Result (Bytes × ℤ)
  unfolding address_prefix
  subnet_address_cidr subnet = address_prefix subnet (cut subnet.address (codes "/"))

  -- `interfaceNameByMAC`: the loop over the interfaces.
  interface_with : Bytes → Bytes → List Interface → Result Bytes
  interface_with mac want [] =
      err (text (codes "no interface found with mac_address " ++ O.quote mac))
  interface_with mac want (i ∷ interfaces) =
      let rest = interface_with mac want interfaces in
      if equal i.hardware_addr want then ok i.name else rest

  unfoldable pub interface_name_by_mac : Bytes → Exec O.State Bytes
  unfolding interface_with
  interface_name_by_mac mac = do
    want ← wrapping (codes "invalid mac_address " ++ O.quote mac) (lift (N.parse_mac mac))
    interfaces ← wrapping (codes "list network interfaces") (query O.interfaces)
    lift (interface_with mac want interfaces)

  -- `exec.Command(…).CombinedOutput()`, whose error is put behind `before`.
  run_as : Bytes → List Bytes → Exec O.State (Unit {0})
  run_as before args s =
      let (reply, t) = O.run (record { env = []; args = args; stdin = [] }) s in
      (
        elim reply.status [
          | ok _ ↦ ok tt
          | err e ↦ err (wrap (before ++ codes ": ") e (codes ": " ++ reply.output))
        ],
        t,
      )

  -- `applyDynamicNetwork`, with the text of templates/etc/dhcpcd.conf.
  unfoldable pub apply_dynamic_network : Bytes → Bytes → Exec O.State (Unit {0})
  unfolding run_as
  apply_dynamic_network template iface = do
    log_info O (codes "bringing up " ++ iface ++ codes " for dynamic addressing (dhcpcd)")
    run_as (codes "ip link set dev " ++ iface ++ codes " up")
        (codes "ip" ∷ codes "link" ∷ codes "set" ∷ codes "dev" ∷ iface ∷ codes "up" ∷ [])
    write_managed_file O dhcpcd_conf_path template 0o644
    enable_service O (codes "dhcpcd")

  -- `net.ParseIP(address).To4() != nil`
  abbrev is_ip4 : Bytes → Bool
  is_ip4 address = elim (N.parse_ip address) [
    | some (ip4 a b c d) ↦ true
    | some (ip6 _) ↦ false
    | none ↦ false
  ]

  -- The commands of `applyStaticNetwork`.
  unfoldable pub static_commands : Bytes → Bytes → ℤ → Bytes → List (List Bytes)
  static_commands iface address cidr gateway =
      (codes "ip" ∷ codes "link" ∷ codes "set" ∷ codes "dev" ∷ iface ∷ codes "up" ∷ [])
      ∷ ((codes "ip" ∷ codes "addr" ∷ codes "add" ∷ (address ++ codes "/" ++ decimal_ℤ cidr) ∷ [])
          ++ ((if is_ip4 address then codes "brd" ∷ codes "+" ∷ [] else [])
              ++ (codes "dev" ∷ iface ∷ [])))
      ∷ (if is_empty gateway
          then []
          else (codes "ip"
              ∷ codes "route"
              ∷ codes "add"
              ∷ codes "default"
              ∷ codes "via"
              ∷ gateway
              ∷ [])
            ∷ [])

  run_logged : List Bytes → Exec O.State (Unit {0})
  unfolding run_as
  run_logged args = do
    log_info O (codes "running: " ++ join args (codes " "))
    run_as (join args (codes " ")) args

  -- `applyStaticNetwork`
  unfoldable pub apply_static_network : Bytes → Subnet → Exec O.State (Unit {0})
  unfolding run_logged
  apply_static_network iface subnet = do
    (address, cidr) ← wrapping (codes "interface " ++ iface) (lift (subnet_address_cidr subnet))
    log_info O (
        codes "bringing up "
        ++ iface
        ++ codes " with static address "
        ++ address
        ++ codes "/"
        ++ decimal_ℤ cidr)
    for_each run_logged (static_commands iface address cidr subnet.gateway)
    disable_service O (codes "dhcpcd")

  -- `applyResolvConf`
  unfoldable pub apply_resolv_conf : List Bytes → List Bytes → Exec O.State (Unit {0})
  apply_resolv_conf nameservers search = if is_empty nameservers then log_info O untouched else do
    log_info O
        (codes "writing " ++ resolv_conf_path ++ codes " with nameserver(s) " ++ shown nameservers)
    write_managed_file O resolv_conf_path (resolv_conf nameservers search) 0o644

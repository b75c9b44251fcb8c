-- ===== src/Init/Hosts.antt =====
-- cmd/void-init/hosts.go: the hosts file and the address in it. text/template is the parameter
-- `parse`, which turns the text of templates/etc/hosts into a function that renders it.
pub mod Laws
mod Tests
use void_init.Base.{
  not, ◌||◌, Option, none, some, List, [], ◌∷◌, ◌++◌, Bytes, codes, equal, Result, Exec, lift,
  wrapping, ◌>>=◌, ◌>>◌, if◌then◌else◌,
}
use void_init.Os.{Os, log_info}
use void_init.Text.Search.{cut}
use void_init.Text.Trim.{is_empty}
use void_init.Init.Fsutil.{write_managed_file}
use void_init.Init.UserData.{UserData}
use void_init.Init.Network.Types.{Subnet, NetworkConfigDevice, NetworkConfig}

abbrev hosts_path : Bytes
hosts_path = codes "/etc/hosts"

-- `hostsTemplateData`
pub record HostsTemplateData : Type 0 where
  pub address : Bytes
  pub hostname : Bytes
  pub fqdn : Bytes

module _ (O : Os) (template : Bytes)
    (parse : Bytes → Result (HostsTemplateData → Result Bytes)) where
  render_hosts : UserData → Bytes → Exec O.State (Unit {0})
  render_hosts u address = do
    log_info O (
        codes "rendering "
        ++ hosts_path
        ++ codes " for "
        ++ u.hostname
        ++ codes " ("
        ++ address
        ++ codes ")")
    execute ← wrapping (codes "parse hosts template") (lift (parse template))
    rendered ←
        wrapping (codes "render hosts template")
          (lift (execute (record { address = address; hostname = u.hostname; fqdn = u.fqdn })))
    write_managed_file O hosts_path rendered 0o644

  -- `ApplyHosts`
  unfoldable pub apply_hosts : UserData → Bytes → Exec O.State (Unit {0})
  unfolding render_hosts
  apply_hosts u address =
      if not u.manage_etc_hosts || is_empty u.hostname
      then log_info O (
          codes "manage_etc_hosts disabled or no hostname set, leaving "
          ++ hosts_path
          ++ codes " untouched")
      else render_hosts u address

-- What stands before the first slash: the first result of `strings.Cut`.
abbrev pub without_prefix : Bytes → Bytes
without_prefix address = elim (cut address (codes "/")) [
  | none ↦ address
  | some (before, _) ↦ before
]

-- The address of the first static subnet.
unfoldable pub static_subnet : List Subnet → Option Bytes
static_subnet [] = none
static_subnet (subnet ∷ subnets) =
    let rest = static_subnet subnets in
    if equal subnet.kind (codes "static") || equal subnet.kind (codes "static6")
    then some (without_prefix subnet.address)
    else rest

abbrev first_of : Option Bytes → Option Bytes → Option Bytes
first_of none rest = rest
first_of (some address) rest = some address

unfoldable pub static_device : List NetworkConfigDevice → Option Bytes
unfolding static_subnet
static_device [] = none
static_device (device ∷ devices) = first_of (static_subnet device.subnets) (static_device devices)

abbrev or_loopback : Option Bytes → Bytes
or_loopback none = codes "127.0.1.1"
or_loopback (some address) = address

-- `staticAddress`
unfoldable pub static_address : Option NetworkConfig → Bytes
unfolding static_device
static_address none = codes "127.0.1.1"
static_address (some nc) = or_loopback (static_device nc.config)

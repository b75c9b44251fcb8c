-- ===== src/Init/Main.antt =====
-- cmd/void-init/main.go: the run of void-init. `Libraries` has the code that is not the repository's:
-- the two uses of the YAML decoder, net, and text/template with the two templates.
pub mod Laws
mod Tests
use void_init.Base.{
  ℕ, not, Option, none, some, ◌++◌, Bytes, codes, text, message, ◌==◌, Result, ok, err, Exec, pure,
  raise, lift, when, ◌>>=◌, ◌>>◌,
}
use void_init.Os.{Os, log_info, log_error}
use void_init.Init.Apply.{apply_user_data}
use void_init.Init.Cloudinit.{find_user_data, find_network_config}
use void_init.Init.Hosts.{HostsTemplateData, apply_hosts, static_address}
use void_init.Init.Network.{Net, parse_network_config}
use void_init.Init.Network.Config.{apply_network_config}
use void_init.Init.Network.Types.{NetworkConfig}
use void_init.Init.Runit.{enable_service}
use void_init.Init.UserData.{UserData, parse_user_data}

pub record Libraries : Type 0 where
  pub unmarshal_user_data : Bytes → Result UserData
  pub unmarshal_network_config : Bytes → Result NetworkConfig
  pub net : Net
  pub dhcpcd_template : Bytes
  pub hosts_template : Bytes
  pub parse_hosts : Bytes → Result (HostsTemplateData → Result Bytes)

module _ (O : Os) (L : Libraries) where
  must_be_root : Exec O.State (Unit {0})
  must_be_root s =
      when (not (O.geteuid s == 0)) (raise (text (codes "void-init must run as root"))) s

  -- The search for the user data and their check.
  read_user_data : Exec O.State UserData
  read_user_data = do
    input ← find_user_data O
    lift (parse_user_data O.quote L.unmarshal_user_data input)

  configure_network : Bytes → Exec O.State (Option NetworkConfig)
  configure_network input = do
    nc ← lift (parse_network_config L.unmarshal_network_config input)
    apply_network_config O L.net L.dhcpcd_template nc
    pure (some nc)

  -- The network is left alone where no configuration is found, whatever the reason.
  network : Exec O.State (Option NetworkConfig)
  unfolding configure_network
  network s =
      let (found, t) = find_network_config O s in
      elim found [
        | ok input ↦ configure_network input t
        | err e ↦ (
          ok none,
          (log_info O (codes "no network-config found, skipping network setup: " ++ message e) t).1,
        )
      ]

  -- What `main` does with the user data.
  unfoldable pub configure : UserData → Exec O.State (Unit {0})
  unfolding network
  configure u = do
    apply_user_data O u
    nc ← network
    apply_hosts O L.hosts_template L.parse_hosts u (static_address nc)
    enable_service O (codes "qemu-ga")

  -- The start of `main`, up to the user data.
  unfoldable pub accept : Exec O.State UserData
  unfolding must_be_root read_user_data
  accept = do log_info O (codes "starting"); must_be_root; read_user_data

  steps : Exec O.State (Unit {0})
  steps = do u ← accept; configure u

  -- The end of the process, after `fatal` for an error.
  abbrev pub finish : Result (Unit {0}) × O.State → ℕ × O.State
  finish (ok _, s) = (0, (log_info O (codes "finished successfully") s).1)
  finish (err e, s) = (1, (log_error O (message e) s).1)

  -- `main`: the status that the process exits with.
  unfoldable pub main : O.State → ℕ × O.State
  unfolding steps
  main s = finish (steps s)

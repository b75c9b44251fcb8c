-- ===== src/Init/Main/Tests.antt =====
-- A run on a machine with no device that brings data.
use void_init.Base.{◌≡◌, ◌⊎◌, [], codes, Error, message, ok, err, text, some}
use void_init.Os.{log_error}
use void_init.Os.Memory.{Host, memory}
use void_init.Init.Main.{Libraries, accept, configure, finish, main}
use void_init.Init.Main.Laws.{started, main-Checked}
use void_init.Init.Network.Types.{ip4}
use void_init.Init.UserData.{UserData}
use void_init.Init.UserData.Safety.{IsSafe}

abbrev libraries : Libraries
libraries = record {
  unmarshal_user_data = λ input. err (text []);
  unmarshal_network_config = λ input. ok (record { version = 1; config = [] });
  net = record { parse_ip = λ s. some (ip4 255 255 240 0); parse_mac = λ s. ok s };
  dhcpcd_template = [];
  hosts_template = [];
  parse_hosts = λ template. ok (λ values. ok values.hostname);
}

abbrev host : Host
host = record {
  files = [];
  path = codes "/bin";
  commands = [];
  logged = [];
  time = 0;
  handles = [];
  owners = [];
}

main-Checked_example :
    ((e : Error) × (t : Host) × (accept memory libraries host ≡ (err e, t))
      × (main memory libraries host ≡ (1, (log_error memory (message e) t).1)))
    ⊎ ((u : UserData) × (t : Host) × (accept memory libraries host ≡ (ok u, t))
        × (memory.geteuid (started memory libraries host) ≡ 0)
        × IsSafe u
        × (main memory libraries host ≡ finish memory libraries (configure memory libraries u t)))
main-Checked_example = main-Checked memory libraries host

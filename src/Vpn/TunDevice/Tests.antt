-- ===== src/Vpn/TunDevice/Tests.antt =====
-- Two tunnels, one of which has to look for the interface to the outside.
use ocserv_rs.Base.{◌≡◌, some, none, map, [], ◌∷◌, List}
use ocserv_rs.Base.Text.{text}
use ocserv_rs.Config.{default_network}
use ocserv_rs.Vpn.TunDevice.{System, TunDevice}
use ocserv_rs.Vpn.TunDevice.Laws.{configure_all, nat_changes, rule_of, configure_all-rules}

abbrev system : System
system command = some (text "enp0s6 ")

abbrev devices : List TunDevice
devices =
    record { device = some (text "tun0"); config = default_network }
    ∷ record {
      device = none;
      config = record default_network { nat_interface = some (text "eth1") };
    }
    ∷ []

configure_all-rules_run : nat_changes (configure_all system devices) ≡ map (rule_of system) devices
configure_all-rules_run = configure_all-rules system devices

-- ===== src/Vpn/TunDevice.antt =====
-- src/vpn/tun_device.rs: the TUN device of a tunnel and the routing set up for it, on Linux. The crate
-- tun and the commands of the system are parameters.
pub mod Laws
mod Tests
use ocserv_rs.Base.{ℕ, Result, ok, err, Option, none, some, List, [], ◌∷◌, ◌++◌, if◌then◌else◌}
use ocserv_rs.Base.Text.{Text, Bytes, text, trim, is_empty}
use ocserv_rs.Base.Utf8.{from_utf8_lossy}
use ocserv_rs.Config.{NetworkConfig}

-- A call on the crate's configuration; an address is its 32-bit number.
pub data Setting : Type 0 where
  name netmask : Text → Setting
  address destination mtu : ℕ → Setting
  up : Setting

-- The device by its own name, if the crate can tell it.
pub record TunDevice : Type 0 where
  pub device : Option Text
  pub config : NetworkConfig

-- `Command::new(program).args(args).output()`.
pub record Command : Type 0 where
  pub program : Text
  pub args : List Text

-- What the commands print, if they run.
abbrev pub System : Type 0
System = Command → Option Bytes

abbrev name_setting : Option Text → List Setting
name_setting none = []
name_setting (some n) = name n ∷ []

-- The device is one end of a line from the server's address to the client's.
unfoldable pub configuration : Option Text → NetworkConfig → ℕ → ℕ → List Setting
unfolding text
configuration interface net_config local_ip peer_ip =
    name_setting interface
    ++ (address local_ip
        ∷ destination peer_ip
        ∷ netmask (text "255.255.255.255")
        ∷ mtu net_config.mtu
        ∷ up
        ∷ [])

abbrev made : NetworkConfig → Result Text (Option Text) → Result Text TunDevice
made net_config (err e) = err (text "Failed to create TUN device")
made net_config (ok device) = ok (record { device = device; config = net_config })

-- `create` is the crate's; its error is the cause of the one given.
unfoldable pub new :
    (List Setting → Result Text (Option Text))
    → Option Text
    → NetworkConfig
    → ℕ
    → ℕ
    → Result Text TunDevice
unfolding configuration
new create interface net_config local_ip peer_ip =
    made net_config (create (configuration interface net_config local_ip peer_ip))

abbrev or_else : Option Text → Text → Text
or_else none d = d
or_else (some t) d = t

unfoldable pub device_name : TunDevice → Text
device_name d = or_else d.device (text "unknown")

unfoldable pub enable_forwarding : Command
unfolding text
enable_forwarding = record {
  program = text "sysctl";
  args = text "-w" ∷ text "net.ipv4.ip_forward=1" ∷ [];
}

unfoldable pub show_default_route : Command
unfolding text
show_default_route = record {
  program = text "sh";
  args =
      text "-c" ∷ text "ip route show default | grep default | awk '{print $5}' | head -n 1" ∷ [];
}

unfoldable pub masquerade : Text → Command
unfolding text
masquerade wan_iface = record {
  program = text "iptables";
  args =
      text "-t"
      ∷ text "nat"
      ∷ text "-A"
      ∷ text "POSTROUTING"
      ∷ text "-o"
      ∷ wan_iface
      ∷ text "-j"
      ∷ text "MASQUERADE"
      ∷ [];
}

abbrev printed : Option Bytes → Text
printed none = []
printed (some stdout) = trim (from_utf8_lossy stdout)

abbrev or_eth0 : Text → Text
or_eth0 output = if is_empty output then text "eth0" else output

-- The interface to the outside, and the commands run to find it.
unfoldable pub wan_interface : System → Option Text → Text × List Command
unfolding show_default_route trim is_empty
wan_interface system (some iface) = (iface, [])
wan_interface system none = (or_eth0 (printed (system show_default_route)), show_default_route ∷ [])

-- The commands that are run, in order; whether they succeed is not looked at.
unfoldable pub configure_routing : System → TunDevice → List Command
unfolding enable_forwarding wan_interface masquerade
configure_routing system d =
    let (iface, detecting) = wan_interface system d.config.nat_interface in
    enable_forwarding ∷ (detecting ++ masquerade iface ∷ [])

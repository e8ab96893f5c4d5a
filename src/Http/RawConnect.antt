-- ===== src/Http/RawConnect.antt =====
-- src/http/raw_connect.rs: the response to CONNECT, with the settings of the tunnel.
pub mod Client
pub mod Plain
pub mod Laws
mod Tests
use ocserv_rs.Base.{
  ℕ, ◌-◌, ◌/◌, ◌%◌, Option, none, some, Bool, true, false, List, [], ◌∷◌, ◌++◌, map, if◌then◌else◌,
}
use ocserv_rs.Base.Text.{Text, Bytes, text, decimal}
use ocserv_rs.Config.{NetworkConfig, Config}
use ocserv_rs.Http.Response.{write_lines}

pub record DtlsParams : Type 0 where
  pub port : ℕ
  pub app_id : Text
  pub rekey_time : ℕ
  pub keepalive : ℕ

pub record LegacyDtlsParams : Type 0 where
  pub port : ℕ
  pub session_id : Text
  pub ciphersuite : Text
  pub ciphersuite_is_dtls12 : Bool
  pub rekey_time : ℕ
  pub keepalive : ℕ

pub data DtlsConfig : Type 0 where
  psk : DtlsParams → DtlsConfig
  legacy : LegacyDtlsParams → DtlsConfig

-- `Display` of `std::net::Ipv4Addr`.
unfoldable pub display_ip : ℕ → Text
display_ip ip =
    decimal (ip / 16_777_216)
    ++ (text "."
        ++ (decimal (ip / 65_536 % 256)
            ++ (text "." ++ (decimal (ip / 256 % 256) ++ (text "." ++ decimal (ip % 256))))))

abbrev pub data_mtu : NetworkConfig → ℕ
data_mtu net_config = net_config.mtu - 32

unfoldable pub core_lines : NetworkConfig → ℕ → List Text
core_lines net_config assigned_ip =
    text "HTTP/1.1 200 OK"
    ∷ text "X-CSTP-Version: 1"
    ∷ (text "X-CSTP-Address: " ++ display_ip assigned_ip)
    ∷ text "X-CSTP-Netmask: 255.255.255.255"
    ∷ text "X-CSTP-Lease-Duration: 86400"
    ∷ text "X-CSTP-Session-Timeout: 0"
    ∷ text "X-CSTP-Idle-Timeout: 0"
    ∷ text "X-CSTP-Disconnected-Timeout: 0"
    ∷ text "X-CSTP-Keepalive: 30"
    ∷ text "X-CSTP-DPD: 30"
    ∷ (text "X-CSTP-Base-MTU: " ++ decimal net_config.mtu)
    ∷ (text "X-CSTP-MTU: " ++ decimal (data_mtu net_config))
    ∷ text "X-CSTP-Tunnel-All-DNS: false"
    ∷ text "X-CSTP-Keep: true"
    ∷ text "X-CSTP-TCP-Keepalive: true"
    ∷ text "X-CSTP-License: accept"
    ∷ text "X-CSTP-Rekey-Method: new-tunnel"
    ∷ []

abbrev pub dns_line : Text → Text
dns_line dns = text "X-CSTP-DNS: " ++ dns

abbrev pub route_line : Text → Text
route_line route = text "X-CSTP-Split-Include: " ++ route

abbrev pub cipher_name : Bool → Text
cipher_name true = text "X-DTLS12-CipherSuite: "
cipher_name false = text "X-DTLS-CipherSuite: "

unfoldable pub dtls_lines : NetworkConfig → Option DtlsConfig → List Text
dtls_lines net_config none = []
dtls_lines net_config (some (psk dtls)) =
    (text "X-DTLS-Port: " ++ decimal dtls.port)
    ∷ text "X-DTLS-CipherSuite: PSK-NEGOTIATE"
    ∷ (text "X-DTLS-App-ID: " ++ dtls.app_id)
    ∷ (text "X-DTLS-Rekey-Time: " ++ decimal dtls.rekey_time)
    ∷ text "X-DTLS-Rekey-Method: ssl"
    ∷ (text "X-DTLS-Keepalive: " ++ decimal dtls.keepalive)
    ∷ text "X-DTLS-DPD: 30"
    ∷ []
dtls_lines net_config (some (legacy dtls)) =
    (text "X-DTLS-Port: " ++ decimal dtls.port)
    ∷ (text "X-DTLS-Session-ID: " ++ dtls.session_id)
    ∷ (cipher_name dtls.ciphersuite_is_dtls12 ++ dtls.ciphersuite)
    ∷ (text "X-DTLS-Rekey-Time: " ++ decimal dtls.rekey_time)
    ∷ text "X-DTLS-Rekey-Method: ssl"
    ∷ (text "X-DTLS-Keepalive: " ++ decimal dtls.keepalive)
    ∷ text "X-DTLS-DPD: 30"
    ∷ (text "X-DTLS-MTU: " ++ decimal (data_mtu net_config))
    ∷ []

unfoldable pub connect_lines : NetworkConfig → Option DtlsConfig → ℕ → List Text
unfolding core_lines dtls_lines
connect_lines net_config dtls_config assigned_ip =
    core_lines net_config assigned_ip
    ++ (map dns_line net_config.dns_servers
        ++ (map route_line net_config.split_include ++ dtls_lines net_config dtls_config))

unfoldable pub build_connect_response : Config → Option DtlsConfig → ℕ → Bytes
unfolding connect_lines
build_connect_response config dtls_config assigned_ip =
    write_lines (connect_lines config.network dtls_config assigned_ip) ++ (13 ∷ 10 ∷ [])

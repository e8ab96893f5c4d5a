-- ===== src/Http/ConnectFlow.antt =====
-- src/http/server.rs: what the server does with a CONNECT request, from the DTLS negotiation to the
-- end of the tunnel.
pub mod Laws
pub mod Session
pub mod Login
pub mod Refusal
pub mod Sample
mod Tests
use ocserv_rs.Base.{
  ℕ, Result, ok, err, Option, none, some, Bool, true, false, not, List, [], ◌∷◌, if◌then◌else◌,
}
use ocserv_rs.Base.Text.{Text, Bytes, text, contains}
use ocserv_rs.Base.Eq.{bytes_eq}
use ocserv_rs.Base.HashMap.{get, insert}
use ocserv_rs.Config.{Config}
use ocserv_rs.Auth.Session.{
  SocketAddr, VpnSession, Sessions, get_session_by_token, register_tunnel, unregister_tunnel,
}
use ocserv_rs.Utils.Cert.{Openssl, detect_cert_key_type, select_compatible_cipher}
use ocserv_rs.Vpn.Dtls.{Sender, DtlsSessionInfo, DtlsSessionStore}
use ocserv_rs.Vpn.IpPool
use ocserv_rs.Vpn.IpPool.{IpNetwork, IpPool, PoolError}
use ocserv_rs.Http.Request.{HttpRequest, header}
use ocserv_rs.Http.Response
use ocserv_rs.Http.Response.{HttpResponse}
use ocserv_rs.Http.Cookie.{extract_webvpn_token}
use ocserv_rs.Http.RawConnect.{
  DtlsParams, LegacyDtlsParams, DtlsConfig, psk, legacy, display_ip, build_connect_response,
}

-- What the flow takes from its surroundings: random bytes, the key material of the TLS session, the
-- crates hex and base64, OpenSSL, and whether the response was written and flushed and the TUN
-- device made. The channels are those made for the tunnel; `now` is the time at its start.
pub record Surroundings : Type 1 where
  pub random : Bytes
  pub exported_psk : Option Bytes
  pub hex_encode : Bytes → Text
  pub hex_decode : Text → Option Bytes
  pub base64_decode : Text → Option Bytes
  pub openssl : Openssl
  pub written : Bool
  pub flushed : Bool
  pub tun_made : Bool
  pub dtls_tx : Sender
  pub signal_tx : Sender
  pub remote_addr : SocketAddr
  pub now : ℕ

abbrev pub or_default {ℓ} : {A : Type ℓ} → Option A → A → A
or_default none d = d
or_default (some a) d = a

abbrev pub unlinked : Bytes → DtlsSessionInfo
unlinked key = record { psk = key; tun_tx = none; dtls_signal_tx = none }

abbrev pub dtls_port : Config → ℕ
dtls_port config = or_default config.server.dtls_port 8443

-- PSK mode: the key is exported from the TLS session; without it there is no DTLS.
unfoldable pub negotiate_psk :
    Config → Text → Option Bytes → DtlsSessionStore → DtlsSessionStore × Option DtlsConfig
negotiate_psk config app_id none store = (store, none)
negotiate_psk config app_id (some key) store = (
  insert app_id (unlinked key) store,
  some (
      psk
        (record { port = dtls_port config; app_id = app_id; rekey_time = 86_400; keepalive = 30 })),
)

-- The cipher and whether it comes from the client's list for DTLS 1.2.
unfoldable pub select_cipher : Config → Openssl → Option Text → Text → Text × Bool
select_cipher config o (some ciphers) dtls_ciphersuite =
    (select_compatible_cipher ciphers (detect_cert_key_type o config.server.cert_path), true)
select_cipher config o none dtls_ciphersuite = (
  select_compatible_cipher dtls_ciphersuite (detect_cert_key_type o config.server.cert_path),
  false,
)

-- Legacy mode: the client's master secret is stored as the key.
unfoldable pub negotiate_legacy :
    Config
    → Surroundings
    → Text
    → HttpRequest
    → DtlsSessionStore
    → DtlsSessionStore × Option DtlsConfig
unfolding select_cipher
negotiate_legacy config w master_secret request store =
    let session_id = w.hex_encode w.random in
    let (cipher, is_dtls12) =
      select_cipher config w.openssl (header request (text "X-DTLS12-CipherSuite"))
        (or_default (header request (text "X-DTLS-CipherSuite")) []) in
    (
      insert session_id (unlinked (or_default (w.hex_decode master_secret) [])) store,
      some (
          legacy (record {
            port = dtls_port config;
            session_id = session_id;
            ciphersuite = cipher;
            ciphersuite_is_dtls12 = is_dtls12;
            rekey_time = 86_400;
            keepalive = 30;
          })),
    )

unfoldable pub negotiate_without_psk :
    Config
    → Surroundings
    → Option Text
    → HttpRequest
    → DtlsSessionStore
    → DtlsSessionStore × Option DtlsConfig
unfolding negotiate_legacy
negotiate_without_psk config w none request store = (store, none)
negotiate_without_psk config w (some master_secret) request store =
    negotiate_legacy config w master_secret request store

unfoldable pub negotiate :
    Config → Surroundings → HttpRequest → DtlsSessionStore → DtlsSessionStore × Option DtlsConfig
unfolding negotiate_psk negotiate_without_psk
negotiate config w request store =
    if contains (text "PSK-NEGOTIATE") (or_default (header request (text "X-DTLS-CipherSuite")) [])
    then negotiate_psk config (w.hex_encode w.random) w.exported_psk store
    else negotiate_without_psk config w (header request (text "X-DTLS-Master-Secret")) request store

abbrev token_of_cookie : Surroundings → Option Text → Option Text
token_of_cookie w none = none
token_of_cookie w (some cookie) = extract_webvpn_token w.base64_decode cookie

-- The token of the request's cookie.
unfoldable pub webvpn_cookie : Surroundings → HttpRequest → Option Text
webvpn_cookie w request = token_of_cookie w (header request (text "cookie"))

abbrev checked_session : Text → Option VpnSession → Option Text
checked_session token none = none
checked_session token (some session) = some token

abbrev checked : Sessions → Option Text → Option Text
checked sessions none = none
checked sessions (some token) = checked_session token (get_session_by_token token sessions)

-- The token, if a session has it.
unfoldable pub session_token : Surroundings → HttpRequest → Sessions → Option Text
unfolding webvpn_cookie
session_token w request sessions = checked sessions (webvpn_cookie w request)

unfoldable pub unauthorized : HttpResponse
unfolding text
unauthorized = Response.with_body (text "Unauthorized") (Response.new 401 (text "Unauthorized"))

abbrev pub session_id_of : Option DtlsConfig → Option Text
session_id_of none = none
session_id_of (some (psk p)) = some p.app_id
session_id_of (some (legacy l)) = some l.session_id

abbrev link_found :
    Text → Surroundings → Option DtlsSessionInfo → DtlsSessionStore → DtlsSessionStore
link_found session_id w none store = store
link_found session_id w (some info) store =
    insert session_id (record info { tun_tx = some w.dtls_tx; dtls_signal_tx = some w.signal_tx })
      store

-- The channels of the tunnel go into the DTLS session.
unfoldable pub link_session : Option Text → Surroundings → DtlsSessionStore → DtlsSessionStore
link_session none w store = store
link_session (some session_id) w store = link_found session_id w (get session_id store) store

module _ (net : IpNetwork) where
  pub record ServerState : Type 0 where
    pub sessions : Sessions
    pub dtls_sessions : DtlsSessionStore
    pub ip_pool : IpPool net

  -- How a connection with a CONNECT request ends.
  pub data Outcome : Type 0 where
    refused : HttpResponse → Outcome
    no_address : PoolError → Outcome
    write_failed flush_failed tun_failed : Outcome
    tunnel_ended : Bytes → Outcome

  unfoldable pub release_ip : ℕ → ServerState → ServerState
  release_ip ip s = record s { ip_pool = IpPool.release net s.ip_pool ip }

  -- The state in which the tunnel starts.
  unfoldable pub start_tunnel :
      Surroundings → HttpRequest → Text → ℕ → Option DtlsConfig → ServerState → ServerState
  start_tunnel w request token ip dtls_config s = record s {
    dtls_sessions = link_session (session_id_of dtls_config) w s.dtls_sessions;
    sessions =
        register_tunnel token (display_ip ip) w.remote_addr
          (or_default (header request (text "User-Agent")) (text "Unknown")) w.now s.sessions;
  }

  unfoldable pub end_tunnel : Text → ℕ → ServerState → ServerState
  unfolding release_ip
  end_tunnel token ip s = release_ip ip (record s { sessions = unregister_tunnel token s.sessions })

  -- `run` is what the state comes to while the tunnel runs: other connections change it.
  module _ (config : Config) (w : Surroundings) (run : ServerState → ServerState)
      (request : HttpRequest) where
    unfoldable pub with_address : Text → Option DtlsConfig → ℕ → ServerState → ServerState × Outcome
    unfolding release_ip start_tunnel end_tunnel
    with_address token dtls_config ip s =
        if not w.written
        then (release_ip ip s, write_failed)
        else if not w.flushed
        then (release_ip ip s, flush_failed)
        else if not w.tun_made
        then (release_ip ip s, tun_failed)
        else (
          end_tunnel token ip (run (start_tunnel w request token ip dtls_config s)),
          tunnel_ended (build_connect_response config dtls_config ip),
        )

    unfoldable pub allocated :
        Text → Option DtlsConfig → Result PoolError ℕ → ServerState → ServerState × Outcome
    unfolding with_address
    allocated token dtls_config (err e) s = (s, no_address e)
    allocated token dtls_config (ok ip) s = with_address token dtls_config ip s

    unfoldable pub authorized :
        Option Text → Option DtlsConfig → ServerState → ServerState × Outcome
    unfolding allocated
    authorized none dtls_config s = (s, refused unauthorized)
    authorized (some token) dtls_config s =
        let (pool, result) = IpPool.allocate net s.ip_pool in
        allocated token dtls_config result (record s { ip_pool = pool })

    unfoldable pub connect_flow : ServerState → ServerState × Outcome
    unfolding authorized
    connect_flow s =
        let (store, dtls_config) = negotiate config w request s.dtls_sessions in
        authorized (session_token w request s.sessions) dtls_config
          (record s { dtls_sessions = store })

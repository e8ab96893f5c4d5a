-- ===== src/Http/RawConnect/Tests.antt =====
-- The response to CONNECT with the default configuration.
use ocserv_rs.Base.{◌-◌, ◌≡◌, refl, some, Option, [], ◌∷◌}
use ocserv_rs.Base.Text.{text, decimal}
use ocserv_rs.Config.{default_config}
use ocserv_rs.Http.Response.Framing.{IsPlain-of, is_plain}
use ocserv_rs.Http.RawConnect.{DtlsConfig, psk, display_ip, build_connect_response}
use ocserv_rs.Http.RawConnect.Client.{setting}
use ocserv_rs.Http.RawConnect.Plain.{IsClean}
use ocserv_rs.Http.RawConnect.Laws.{app_ids, session_ids, connect_settings}

abbrev with_psk : Option DtlsConfig
unfolding text
with_psk =
    some (psk (record { port = 8443; app_id = text "0a0b"; rekey_time = 86_400; keepalive = 30 }))

with_psk-IsClean : IsClean default_config.network with_psk
unfolding with_psk text is_plain
with_psk-IsClean = record {
  dns_plain = (IsPlain-of (text "8.8.8.8") refl, (IsPlain-of (text "8.8.4.4") refl, tt));
  routes_plain = tt;
  dtls_plain = IsPlain-of (text "0a0b") refl;
}

address_printed : display_ip 168_427_522 ≡ text "10.10.0.2"
unfolding display_ip decimal text
address_printed = refl

connect_settings_example :
    let r = build_connect_response default_config with_psk 168_427_522 in
    (setting (text "X-CSTP-Address: ") r ≡ display_ip 168_427_522 ∷ [])
    × (setting (text "X-CSTP-MTU: ") r ≡ decimal (default_config.network.mtu - 32) ∷ [])
    × (setting (text "X-CSTP-DNS: ") r ≡ default_config.network.dns_servers)
    × (setting (text "X-CSTP-Split-Include: ") r ≡ default_config.network.split_include)
    × (setting (text "X-DTLS-App-ID: ") r ≡ app_ids with_psk)
    × (setting (text "X-DTLS-Session-ID: ") r ≡ session_ids with_psk)
connect_settings_example = connect_settings default_config with_psk 168_427_522 with_psk-IsClean

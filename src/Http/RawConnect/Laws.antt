-- ===== src/Http/RawConnect/Laws.antt =====
-- What the response to CONNECT tells a client.
use ocserv_rs.Base.{
  ℕ, ◌-◌, ◌≡◌, refl, ap, ◌∙◌, Option, none, some, Bool, true, false, List, [], ◌∷◌, ◌++◌, map,
  append-nil,
}
use ocserv_rs.Base.Text.{Text, text, decimal, strip_prefix}
use ocserv_rs.Base.Eq.{nat_eq}
use ocserv_rs.Config.{NetworkConfig, Config}
use ocserv_rs.Http.RawConnect.{
  LegacyDtlsParams, DtlsConfig, psk, legacy, display_ip, data_mtu, dns_line, route_line, core_lines,
  dtls_lines, connect_lines, build_connect_response,
}
use ocserv_rs.Http.RawConnect.Client.{
  setting, values_of, lines_of, lines_of-write_lines, values_of-append, values_own, values_other,
}
use ocserv_rs.Http.RawConnect.Plain.{IsClean, connect_lines-IsPlain}

-- What a client reads in the response are the lines that were written.
setting-build :
    (name : Text) (config : Config) (dtls_config : Option DtlsConfig) (ip : ℕ)
    → IsClean config.network dtls_config
    → setting name (build_connect_response config dtls_config ip)
      ≡ values_of name (connect_lines config.network dtls_config ip ++ [] ∷ [])
unfolding setting build_connect_response lines_of
setting-build name config dtls_config ip h = ap (values_of name) (
    lines_of-write_lines (connect_lines config.network dtls_config ip) (13 ∷ 10 ∷ [])
      (connect_lines-IsPlain config.network dtls_config ip h))

-- The values that the parts of the response have under a name.
values_of-connect_lines :
    (name : Text) (config : NetworkConfig) (dtls_config : Option DtlsConfig) (ip : ℕ)
    (core dns routes dtls : List Text)
    → values_of name (core_lines config ip) ≡ core
    → values_of name (map dns_line config.dns_servers) ≡ dns
    → values_of name (map route_line config.split_include) ≡ routes
    → values_of name (dtls_lines config dtls_config) ≡ dtls
    → values_of name (connect_lines config dtls_config ip) ≡ core ++ (dns ++ (routes ++ dtls))
unfolding connect_lines
values_of-connect_lines name config dtls_config ip core dns routes dtls c d r t =
    rw
      (
        values_of-append name (core_lines config ip) (
            map dns_line config.dns_servers
            ++ (map route_line config.split_include ++ dtls_lines config dtls_config)),
        values_of-append name (map dns_line config.dns_servers)
            (map route_line config.split_include ++ dtls_lines config dtls_config),
        values_of-append name (map route_line config.split_include) (dtls_lines config dtls_config),
        c,
        d,
        r,
        t,
      )
      refl

abbrev pub app_ids : Option DtlsConfig → List Text
app_ids none = []
app_ids (some (psk dtls)) = dtls.app_id ∷ []
app_ids (some (legacy dtls)) = []

abbrev pub session_ids : Option DtlsConfig → List Text
session_ids none = []
session_ids (some (psk dtls)) = []
session_ids (some (legacy dtls)) = dtls.session_id ∷ []

-- A name that only the lines of the core have.
core_value :
    (name : Text) (config : NetworkConfig) (dtls_config : Option DtlsConfig) (ip : ℕ)
    (core : List Text)
    → values_of name (core_lines config ip) ≡ core
    → ((s : Text) → strip_prefix name (text "X-CSTP-DNS: " ++ s) ≡ none)
    → ((s : Text) → strip_prefix name (text "X-CSTP-Split-Include: " ++ s) ≡ none)
    → values_of name (dtls_lines config dtls_config) ≡ []
    → values_of name (connect_lines config dtls_config ip) ≡ core ++ []
core_value name config dtls_config ip core c d r t =
    values_of-connect_lines name config dtls_config ip core [] [] [] c
      (values_other name (text "X-CSTP-DNS: ") config.dns_servers d)
      (values_other name (text "X-CSTP-Split-Include: ") config.split_include r) t

-- A name of DTLS.
dtls_value :
    (name : Text) (config : NetworkConfig) (dtls_config : Option DtlsConfig) (ip : ℕ)
    (dtls : List Text)
    → values_of name (core_lines config ip) ≡ []
    → ((s : Text) → strip_prefix name (text "X-CSTP-DNS: " ++ s) ≡ none)
    → ((s : Text) → strip_prefix name (text "X-CSTP-Split-Include: " ++ s) ≡ none)
    → values_of name (dtls_lines config dtls_config) ≡ dtls
    → values_of name (connect_lines config dtls_config ip) ≡ dtls
dtls_value name config dtls_config ip dtls c d r t =
    values_of-connect_lines name config dtls_config ip [] [] [] dtls c
      (values_other name (text "X-CSTP-DNS: ") config.dns_servers d)
      (values_other name (text "X-CSTP-Split-Include: ") config.split_include r) t

module _ (config : NetworkConfig) (dtls_config : Option DtlsConfig) (ip : ℕ) where
  abbrev DtlsValues : Option DtlsConfig → Type 0
  DtlsValues o =
      (values_of (text "X-CSTP-Address: ") (dtls_lines config o) ≡ [])
      × (values_of (text "X-CSTP-MTU: ") (dtls_lines config o) ≡ [])
      × (values_of (text "X-CSTP-DNS: ") (dtls_lines config o) ≡ [])
      × (values_of (text "X-CSTP-Split-Include: ") (dtls_lines config o) ≡ [])
      × (values_of (text "X-DTLS-App-ID: ") (dtls_lines config o) ≡ app_ids o)
      × (values_of (text "X-DTLS-Session-ID: ") (dtls_lines config o) ≡ session_ids o)

  legacy_values :
      (b : Bool) (dtls : LegacyDtlsParams)
      → DtlsValues (some (legacy (record dtls { ciphersuite_is_dtls12 = b })))
  unfolding dtls_lines values_of strip_prefix text
  legacy_values true dtls = (refl, refl, refl, refl, refl, refl)
  legacy_values false dtls = (refl, refl, refl, refl, refl, refl)

  dtls_values : (o : Option DtlsConfig) → DtlsValues o
  unfolding dtls_lines values_of strip_prefix text
  dtls_values none = (refl, refl, refl, refl, refl, refl)
  dtls_values (some (psk dtls)) = (refl, refl, refl, refl, refl, refl)
  dtls_values (some (legacy dtls)) = legacy_values dtls.ciphersuite_is_dtls12 dtls

  address_value :
      values_of (text "X-CSTP-Address: ") (connect_lines config dtls_config ip) ≡ display_ip ip ∷ []
  unfolding core_lines values_of strip_prefix text
  address_value =
      let (t, _, _, _, _, _) = dtls_values dtls_config in
      core_value (text "X-CSTP-Address: ") config dtls_config ip (display_ip ip ∷ []) refl
        (λ s. refl) (λ s. refl) t

  mtu_value :
      values_of (text "X-CSTP-MTU: ") (connect_lines config dtls_config ip)
      ≡ decimal (config.mtu - 32) ∷ []
  unfolding core_lines values_of strip_prefix text
  mtu_value =
      let (_, t, _, _, _, _) = dtls_values dtls_config in
      core_value (text "X-CSTP-MTU: ") config dtls_config ip (decimal (data_mtu config) ∷ []) refl
        (λ s. refl) (λ s. refl) t

  dns_value :
      values_of (text "X-CSTP-DNS: ") (connect_lines config dtls_config ip) ≡ config.dns_servers
  unfolding core_lines values_of strip_prefix text
  dns_value =
      let (_, _, t, _, _, _) = dtls_values dtls_config in
      values_of-connect_lines (text "X-CSTP-DNS: ") config dtls_config ip [] config.dns_servers []
        [] refl (values_own (text "X-CSTP-DNS: ") config.dns_servers)
        (values_other (text "X-CSTP-DNS: ") (text "X-CSTP-Split-Include: ") config.split_include
          (λ s. refl))
        t
      ∙ append-nil config.dns_servers

  route_value :
      values_of (text "X-CSTP-Split-Include: ") (connect_lines config dtls_config ip)
      ≡ config.split_include
  unfolding core_lines values_of strip_prefix text
  route_value =
      let (_, _, _, t, _, _) = dtls_values dtls_config in
      values_of-connect_lines (text "X-CSTP-Split-Include: ") config dtls_config ip [] []
        config.split_include [] refl
        (values_other (text "X-CSTP-Split-Include: ") (text "X-CSTP-DNS: ") config.dns_servers
          (λ s. refl))
        (values_own (text "X-CSTP-Split-Include: ") config.split_include) t
      ∙ append-nil config.split_include

  app_id_value :
      values_of (text "X-DTLS-App-ID: ") (connect_lines config dtls_config ip) ≡ app_ids dtls_config
  unfolding core_lines values_of strip_prefix text
  app_id_value =
      let (_, _, _, _, t, _) = dtls_values dtls_config in
      dtls_value (text "X-DTLS-App-ID: ") config dtls_config ip (app_ids dtls_config) refl
        (λ s. refl) (λ s. refl) t

  session_id_value :
      values_of (text "X-DTLS-Session-ID: ") (connect_lines config dtls_config ip)
      ≡ session_ids dtls_config
  unfolding core_lines values_of strip_prefix text
  session_id_value =
      let (_, _, _, _, _, t) = dtls_values dtls_config in
      dtls_value (text "X-DTLS-Session-ID: ") config dtls_config ip (session_ids dtls_config) refl
        (λ s. refl) (λ s. refl) t

-- A line without a name gives nothing.
values_of-last :
    (name : Text) (lines : List Text)
    → strip_prefix name [] ≡ none
    → values_of name (lines ++ [] ∷ []) ≡ values_of name lines
unfolding values_of
values_of-last name lines e =
    values_of-append name lines ([] ∷ []) ∙ rw e (append-nil (values_of name lines))

setting_lem :
    (name : Text) (config : Config) (dtls_config : Option DtlsConfig) (ip : ℕ) (values : List Text)
    → IsClean config.network dtls_config
    → strip_prefix name [] ≡ none
    → values_of name (connect_lines config.network dtls_config ip) ≡ values
    → setting name (build_connect_response config dtls_config ip) ≡ values
setting_lem name config dtls_config ip values h n e =
    setting-build name config dtls_config ip h
    ∙ (values_of-last name (connect_lines config.network dtls_config ip) n ∙ e)

-- A client reads in the response to CONNECT its own address, the MTU less 32, the name servers and
-- routes of the configuration in their order, and the id of the DTLS session under the header of
-- the mode, if none of the parts has a carriage return.
pub connect_settings :
    (config : Config) (dtls_config : Option DtlsConfig) (ip : ℕ)
    → IsClean config.network dtls_config
    → let r = build_connect_response config dtls_config ip in
      (setting (text "X-CSTP-Address: ") r ≡ display_ip ip ∷ [])
      × (setting (text "X-CSTP-MTU: ") r ≡ decimal (config.network.mtu - 32) ∷ [])
      × (setting (text "X-CSTP-DNS: ") r ≡ config.network.dns_servers)
      × (setting (text "X-CSTP-Split-Include: ") r ≡ config.network.split_include)
      × (setting (text "X-DTLS-App-ID: ") r ≡ app_ids dtls_config)
      × (setting (text "X-DTLS-Session-ID: ") r ≡ session_ids dtls_config)
unfolding strip_prefix text
connect_settings config d ip h = (
  setting_lem (text "X-CSTP-Address: ") config d ip _ h refl (address_value config.network d ip),
  setting_lem (text "X-CSTP-MTU: ") config d ip _ h refl (mtu_value config.network d ip),
  setting_lem (text "X-CSTP-DNS: ") config d ip _ h refl (dns_value config.network d ip),
  setting_lem (text "X-CSTP-Split-Include: ") config d ip _ h refl
      (route_value config.network d ip),
  setting_lem (text "X-DTLS-App-ID: ") config d ip _ h refl (app_id_value config.network d ip),
  setting_lem (text "X-DTLS-Session-ID: ") config d ip _ h refl
      (session_id_value config.network d ip),
)

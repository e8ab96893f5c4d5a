-- ===== src/Config.antt =====
-- src/config.rs: the settings that the other modules read, with their defaults. Reading the TOML
-- file is left out.
use ocserv_rs.Base.{ℕ, Option, none, some, Bool, true, false, List, [], ◌∷◌}
use ocserv_rs.Base.Text.{Text, text}

pub record UserConfig : Type 0 where
  pub username : Text
  pub password : Text

pub record PasswordAuthConfig : Type 0 where
  pub enabled : Bool
  pub users : List UserConfig

pub record SamlAuthConfig : Type 0 where
  pub enabled : Bool
  pub idp_metadata_url : Option Text
  pub idp_entity_id : Option Text
  pub sp_entity_id : Option Text
  pub acs_url : Option Text
  pub dev_idp_enabled : Bool

-- src/auth/sso/oauth2.rs.
pub record OAuth2Config : Type 0 where
  pub enabled : Bool
  pub client_id : Text
  pub client_secret : Text
  pub redirect_uri : Text
  pub auth_url : Text
  pub token_url : Text
  pub scope : Option Text

pub record AuthConfig : Type 0 where
  pub banner : Option Text
  pub password : PasswordAuthConfig
  pub saml : SamlAuthConfig
  pub oauth2 : OAuth2Config

pub record ServerConfig : Type 0 where
  pub listen : Text
  pub cert_path : Text
  pub key_path : Text
  pub dtls_port : Option ℕ
  pub base_url : Option Text

pub record NetworkConfig : Type 0 where
  pub ipv4_pool : Text
  pub ipv6_pool : Option Text
  pub dns_servers : List Text
  pub split_include : List Text
  pub mtu : ℕ
  pub nat_interface : Option Text

pub record PerformanceConfig : Type 0 where
  pub buffer_size : ℕ

pub record ControlConfig : Type 0 where
  pub socket_path : Text
  pub socket_group : Option Text

pub record Config : Type 0 where
  pub server : ServerConfig
  pub auth : AuthConfig
  pub network : NetworkConfig
  pub performance : PerformanceConfig
  pub control : ControlConfig

abbrev pub default_network : NetworkConfig
default_network = record {
  ipv4_pool = text "10.10.0.0/24";
  ipv6_pool = none;
  dns_servers = text "8.8.8.8" ∷ text "8.8.4.4" ∷ [];
  split_include = [];
  mtu = 1280;
  nat_interface = none;
}

abbrev pub default_performance : PerformanceConfig
default_performance = record { buffer_size = 65535 }

abbrev pub default_control : ControlConfig
default_control = record { socket_path = text "/var/run/ocserv-rs.sock"; socket_group = none }

abbrev pub default_saml : SamlAuthConfig
default_saml = record {
  enabled = false;
  idp_metadata_url = none;
  idp_entity_id = none;
  sp_entity_id = none;
  acs_url = none;
  dev_idp_enabled = false;
}

abbrev pub default_oauth2 : OAuth2Config
default_oauth2 = record {
  enabled = false;
  client_id = [];
  client_secret = [];
  redirect_uri = [];
  auth_url = [];
  token_url = [];
  scope = none;
}

-- `Config::default`.
abbrev pub default_config : Config
default_config = record {
  server = record {
    listen = text "0.0.0.0:8443";
    cert_path = text "server.crt";
    key_path = text "server.key";
    dtls_port = some 8443;
    base_url = none;
  };
  auth = record {
    banner = some (text "Welcome to VPN");
    password = record {
      enabled = true;
      users =
          record { username = text "test"; password = text "test" }
          ∷ record { username = text "admin"; password = text "admin" }
          ∷ [];
    };
    saml = default_saml;
    oauth2 = default_oauth2;
  };
  network = default_network;
  performance = default_performance;
  control = default_control;
}

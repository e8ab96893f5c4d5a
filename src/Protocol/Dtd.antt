-- ===== src/Protocol/Dtd.antt =====
-- src/protocol/dtd.rs: the data types of a document `config-auth`.
use ocserv_rs.Base.{ℕ, Option, none, List, []}
use ocserv_rs.Base.Text.{Text}

pub data ConfigAuthType : Type 0 where
  init auth_request auth_reply complete : ConfigAuthType

pub record Version : Type 0 where
  pub who : Text
  pub value : Text

pub record Opaque : Type 0 where
  pub is_for : Text
  pub tunnel_group : Option Text
  pub aggauth_handle : Option Text
  pub auth_methods : List Text
  pub config_hash : Option Text

pub record SelectOption : Type 0 where
  pub value : Text
  pub text : Text

pub record Select : Type 0 where
  pub label : Option Text
  pub name : Text
  pub option : List SelectOption

pub record Input : Type 0 where
  pub input_type : Text
  pub name : Text
  pub label : Option Text

pub record Form : Type 0 where
  pub action : Option Text
  pub method : Option Text
  pub input : List Input
  pub select : Option Select

pub record Auth : Type 0 where
  pub id : Option Text
  pub title : Option Text
  pub message : Option Text
  pub banner : Option Text
  pub sso_v2_login : Option Text
  pub sso_v2_login_final : Option Text
  pub sso_v2_logout : Option Text
  pub sso_v2_browser_mode : Option Text
  pub sso_v2_token_cookie_name : Option Text
  pub sso_v2_error_cookie_name : Option Text
  pub form : List Form
  pub sso_token : Option Text
  pub username : Option Text
  pub password : Option Text

-- `Auth::default`.
abbrev pub default_auth : Auth
default_auth = record {
  id = none;
  title = none;
  message = none;
  banner = none;
  sso_v2_login = none;
  sso_v2_login_final = none;
  sso_v2_logout = none;
  sso_v2_browser_mode = none;
  sso_v2_token_cookie_name = none;
  sso_v2_error_cookie_name = none;
  form = [];
  sso_token = none;
  username = none;
  password = none;
}

pub record Config : Type 0 where
  pub client : Text
  pub config_type : Text

pub record Capabilities : Type 0 where
  pub auth_methods : List Text

-- `aggregate_auth_version` is a `u8`.
pub record ConfigAuth : Type 0 where
  pub client : Text
  pub auth_type : ConfigAuthType
  pub aggregate_auth_version : Option ℕ
  pub version : List Version
  pub auth : List Auth
  pub opaque : Option Opaque
  pub device_id : Option Text
  pub capabilities : Option Capabilities
  pub session_id : Option Text
  pub session_token : Option Text
  pub config : Option Config

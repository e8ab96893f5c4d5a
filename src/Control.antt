-- ===== src/Control.antt =====
-- src/control/mod.rs: the control socket's only command. JSON and the printing of times belong to
-- crates and are parameters. The set-up of the socket is Control.Server, the client Control.Client.
pub mod Laws
pub mod Server
pub mod Client
mod Tests
use ocserv_rs.Base.{
  take, ℕ, ◌-◌, ◌/◌, Option, none, some, Bool, true, false, Result, ok, err, List, [], ◌∷◌, map,
  if◌then◌else◌,
}
use ocserv_rs.Base.Text.{Text, Bytes, text, decimal, is_empty}
use ocserv_rs.Auth.Session.{VpnSession, Sessions, values}

pub data ControlCommand : Type 0 where
  show_users : ControlCommand

pub record UserSessionInfo : Type 0 where
  pub session_id : Text
  pub username : Text
  pub vpn_ip : Option Text
  pub remote_ip : Option Text
  pub user_agent : Option Text
  pub connected_at_rfc3339 : Option Text
  pub connected_seconds : Option ℕ

-- `Instant::now`, `SystemTime::now` in nanoseconds, and `to_rfc3339` of the crate chrono.
pub record Clock : Type 0 where
  pub now : ℕ
  pub system_now : ℕ
  pub to_rfc3339 : ℕ → Text

abbrev pub map_option {ℓ κ} : {A : Type ℓ} {B : Type κ} → (A → B) → Option A → Option B
map_option f none = none
map_option f (some a) = some (f a)

unfoldable pub info_of : Clock → VpnSession → Text → UserSessionInfo
info_of clock s vpn_ip = record {
  session_id = s.session_id;
  username = s.user_info.username;
  vpn_ip = some vpn_ip;
  remote_ip = s.remote_ip;
  user_agent = s.user_agent;
  connected_at_rfc3339 =
      map_option (λ t. clock.to_rfc3339 (clock.system_now - (clock.now - t))) s.connected_at;
  connected_seconds = map_option (λ t. (clock.now - t) / 1_000_000_000) s.connected_at;
}

abbrev pub push_active :
    Clock → VpnSession → Option Text → List UserSessionInfo → List UserSessionInfo
push_active clock s none rest = rest
push_active clock s (some vpn_ip) rest = info_of clock s vpn_ip ∷ rest

-- The loop over `sessions.values()`.
unfoldable pub active : Clock → List VpnSession → List UserSessionInfo
active clock [] = []
active clock (s ∷ ss) = push_active clock s s.vpn_ip (active clock ss)

unfoldable pub active_users : Clock → Sessions → List UserSessionInfo
unfolding active values
active_users clock m = active clock (values m)

-- The crate serde_json on the two types.
pub record Json : Type 0 where
  pub command_from_slice : Bytes → Option ControlCommand
  pub command_to_string : ControlCommand → Option Text
  pub users_to_string : List UserSessionInfo → Option Text
  pub users_from_str : Text → Option (List UserSessionInfo)

-- A client's stream: what its one read gives, if it succeeds, and whether a write and the shutdown do.
pub record UnixStream : Type 0 where
  pub read : Option Bytes
  pub write_all : Bytes → Bool
  pub shutdown : Bool

pub data ClientError : Type 0 where
  read_failed invalid_json not_serialized write_failed shutdown_failed : ClientError

-- What was handed to `write_all`, whether the stream was shut down, and the result.
pub record Served : Type 0 where
  pub written : Bytes
  pub is_shut : Bool
  pub result : Result ClientError (Unit {0})

unfoldable pub send_users : UnixStream → Option Text → Served
send_users stream none = record { written = []; is_shut = false; result = err not_serialized }
send_users stream (some response) =
    if stream.write_all response
    then (if stream.shutdown
        then record { written = response; is_shut = true; result = ok tt }
        else record { written = response; is_shut = false; result = err shutdown_failed })
    else record { written = response; is_shut = false; result = err write_failed }

-- The fault of the request is the error, whether or not the client is told of it.
unfoldable pub run_command : Clock → Json → Sessions → UnixStream → Option ControlCommand → Served
unfolding send_users active_users
run_command clock json m stream none = record {
  written = text "{\"error\": \"Invalid JSON\"}";
  is_shut = false;
  result = err invalid_json;
}
run_command clock json m stream (some show_users) =
    send_users stream (json.users_to_string (active_users clock m))

abbrev pub request_size : ℕ
request_size = 4096

abbrev pub on_request : Clock → Json → Sessions → UnixStream → Option Bytes → Served
on_request clock json m stream none = record {
  written = [];
  is_shut = false;
  result = err read_failed;
}
on_request clock json m stream (some request) =
    if is_empty request
    then record { written = []; is_shut = false; result = ok tt }
    else run_command clock json m stream (json.command_from_slice (take request_size request))

-- The one read fills a buffer of 4096 bytes at most.
unfoldable pub handle_client : Clock → Json → Sessions → UnixStream → Served
unfolding run_command
handle_client clock json m stream = on_request clock json m stream stream.read
